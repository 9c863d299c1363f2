-- ===== src/Flv/Error.antt =====
-- crates/cheetah-container-flv/src/error.rs: the errors, and the answer of a parser.
use cheetah_media_engine.Prelude.{Option, none, some}

pub data FlvError : Type 0 where
  need_more_data invalid_signature malformed_header malformed_tag unsupported_codec limit_exceeded
        invalid_timestamp invalid_amf :
      FlvError

pub data Parsed {ℓ} (A : Type ℓ) : Type ℓ where
  ok : A → Parsed A
  err : FlvError → Parsed A

infixl 5 ◌>>=◌
abbrev pub ◌>>=◌ {ℓ κ} : {A : Type ℓ} {B : Type κ} → Parsed A → (A → Parsed B) → Parsed B
ok a >>= f = f a
err e >>= f = err e

-- The end of the input is an error of its own.
abbrev pub or_error {ℓ} : {A : Type ℓ} → FlvError → Option A → Parsed A
or_error e (some a) = ok a
or_error e none = err e
