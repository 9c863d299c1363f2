-- ===== src/Bitstream/Bit.antt =====
-- crates/cheetah-media-bitstream/src/bit.rs: the bit cursor and its Exp-Golomb codes.
pub mod Stream
pub mod Read
pub mod Golomb
mod Tests
use cheetah_media_engine.Prelude.{
  ℕ, zero, suc, ◌+◌, ◌-◌, ◌*◌, ◌/◌, ◌%◌, ◌^◌, min, Bool, true, false, List, length, get_or, ltb,
  leb, ◌==◌, if◌then◌else◌,
}
use cheetah_media_engine.Prelude.Int.{ℤ, pos, sub_ℕ}

pub data BitError : Type 0 where
  end_of_stream invalid_bits overflow : BitError

-- The next bit to read is number `bit` of the byte at `index`, the most significant one first.
pub record BitCursor : Type 0 where
  pub buf : List ℕ
  pub index : ℕ
  pub bit : ℕ

-- A read returns a value or an error, and the cursor that it leaves in either case.
pub data Outcome {ℓ} (A : Type ℓ) : Type ℓ where
  ok : A → BitCursor → Outcome A
  err : BitError → BitCursor → Outcome A

-- The operator `?`.
infixl 5 ◌>>=◌
abbrev pub ◌>>=◌ {ℓ κ} :
    {A : Type ℓ} {B : Type κ} → Outcome A → (A → BitCursor → Outcome B) → Outcome B
ok a c >>= f = f a c
err e c >>= f = err e c

abbrev pub new_cursor : List ℕ → BitCursor
new_cursor buf = record { buf = buf; index = 0; bit = 0 }

unfoldable pub remaining_bits : BitCursor → ℕ
remaining_bits c =
    if leb (length c.buf) c.index then 0 else 8 - c.bit + (length c.buf - c.index - 1) * 8

unfoldable pub is_empty : BitCursor → Bool
is_empty c = remaining_bits c == 0

unfoldable pub is_byte_aligned : BitCursor → Bool
is_byte_aligned c = c.bit == 0

-- The number of skipped bits, and the cursor left.
unfoldable pub skip_to_byte_alignment : BitCursor → ℕ × BitCursor
skip_to_byte_alignment c =
    if c.bit == 0 then (0, c) else (8 - c.bit, record c { bit = 0; index = c.index + 1 })

-- `self.bit += take`, and the step into the next byte.
abbrev pub advance : BitCursor → ℕ → BitCursor
advance c n =
    if leb 8 (c.bit + n)
    then record c { bit = 0; index = c.index + 1 }
    else record c { bit = c.bit + n }

-- `(byte >> shift) & mask`, with a mask of `n` bits.
abbrev pub bits_of_byte : BitCursor → ℕ → ℕ
bits_of_byte c n = get_or c.buf c.index 0 / 2 ^ (8 - c.bit - n) % 2 ^ n

-- The loop of `read_bits`, on fuel; a round takes at least one of the needed bits.
pub read_loop : ℕ → BitCursor → ℕ → ℕ → Outcome ℕ
read_loop fuel c value zero = ok value c
read_loop zero c value (suc more) = ok value c
read_loop (suc fuel) c value (suc more) =
    let n = min (suc more) (8 - c.bit) in
    read_loop fuel (advance c n) (value * 2 ^ n % 2 ^ 64 + bits_of_byte c n) (suc more - n)

unfoldable pub read_bits : BitCursor → ℕ → Outcome ℕ
read_bits c n =
    if n == 0
    then ok 0 c
    else if ltb 64 n
    then err overflow c
    else if ltb (remaining_bits c) n
    then err end_of_stream c
    else read_loop n c 0 n

unfoldable pub read_bool : BitCursor → Outcome Bool
read_bool c = read_bits c 1 >>= λ v c. ok (v == 1) c

-- One round of the loop over the leading zeros, given what the later rounds make of one more.
abbrev pub zeros_round : ℕ → (BitCursor → Outcome ℕ) → Bool → BitCursor → Outcome ℕ
zeros_round count next true c = ok count c
zeros_round count next false c = if ltb 63 (count + 1) then err invalid_bits c else next c

-- The loop of `read_ue`; it ends by itself at 64 zeros, before the fuel of `read_ue` does, so that the
-- answer without fuel, an error of another kind than the source's, is never given.
pub leading_zeros : ℕ → ℕ → BitCursor → Outcome ℕ
leading_zeros zero count c = err overflow c
leading_zeros (suc fuel) count c =
    read_bool c >>= zeros_round count (leading_zeros fuel (count + 1))

-- The bits after the leading zeros, and the value of the code.
abbrev pub ue_rest : ℕ → BitCursor → Outcome ℕ
ue_rest zeros c = read_bits c zeros >>= λ code c. ok ((2 ^ zeros - 1 + code) % 2 ^ 64) c

unfoldable pub read_ue : BitCursor → Outcome ℕ
read_ue c = leading_zeros 64 0 c >>= ue_rest

-- `i64::try_from` refuses what is above `i64::MAX`.
abbrev pub se_rest : ℕ → BitCursor → Outcome ℤ
se_rest code c =
    let half = (code + 1) / 2 in
    if leb (2 ^ 63) half
    then err overflow c
    else if code % 2 == 0
    then ok (sub_ℕ 0 half) c
    else ok (pos half) c

unfoldable pub read_se : BitCursor → Outcome ℤ
read_se c = read_ue c >>= se_rest

unfoldable pub read_u32 : BitCursor → ℕ → Outcome ℕ
read_u32 c bits =
    if ltb 32 bits then err overflow c else read_bits c bits >>= λ v c. ok (v % 2 ^ 32) c
