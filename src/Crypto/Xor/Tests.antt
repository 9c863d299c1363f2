-- ===== src/Crypto/Xor/Tests.antt =====
-- Tests of the repeating key transform.
use cheetah_media_engine.Prelude.{◌≡◌, refl, [], ◌∷◌, List, ℕ, arith, ◌+◌, ◌%◌, length}
use cheetah_media_engine.Crypto.Bytes.{err, invalid_key_length}
use cheetah_media_engine.Crypto.Xor.{XorTransform, new_xor, update_xor}
use cheetah_media_engine.Crypto.Xor.Stream.{keyed, update_xor-keyed}

abbrev three_letters : XorTransform
three_letters = record { key = 97 ∷ 98 ∷ 99 ∷ []; position = 1 }

abbrev message : List ℕ
message = 104 ∷ 101 ∷ 108 ∷ 111 ∷ []

update_xor-keyed_example : update_xor three_letters message ≡ (
  record three_letters { position = (1 + length message) % 3 },
  keyed (97 ∷ 98 ∷ 99 ∷ []) 1 message,
)
update_xor-keyed_example = update_xor-keyed three_letters message (omega arith)

no_key : new_xor [] ≡ err (invalid_key_length 1 0)
no_key = refl
