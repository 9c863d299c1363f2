-- ===== src/Bitstream/Bytes.antt =====
-- crates/cheetah-media-bitstream/src/lib.rs: the byte cursor. A cursor is kept as the bytes from
-- its position on, since no operation goes back.
pub mod Integers
mod Tests
use cheetah_media_engine.Prelude.{
  ℕ, ◌+◌, ◌*◌, Bool, List, [], ◌∷◌, length, get_or, take, drop, Option, none, some, ltb, ◌==◌,
  if◌then◌else◌,
}

pub record ByteCursor : Type 0 where
  pub left : List ℕ

abbrev pub new_bytes : List ℕ → ByteCursor
new_bytes buf = record { left = buf }

abbrev pub remaining : ByteCursor → ℕ
remaining c = length c.left

abbrev pub no_bytes : ByteCursor → Bool
no_bytes c = remaining c == 0

abbrev pub first_byte : List ℕ → Option (ℕ × ByteCursor)
first_byte [] = none
first_byte (b ∷ bs) = some (b, new_bytes bs)

-- `none` stands for `ReadError::EndOfStream`, which leaves the cursor where it was.
abbrev pub read_u8 : ByteCursor → Option (ℕ × ByteCursor)
read_u8 c = first_byte c.left

abbrev pub peek_bytes : ByteCursor → ℕ → Option (List ℕ)
peek_bytes c n = if ltb (remaining c) n then none else some (take n c.left)

abbrev pub read_bytes : ByteCursor → ℕ → Option (List ℕ × ByteCursor)
read_bytes c n =
    if ltb (remaining c) n then none else some (take n c.left, new_bytes (drop n c.left))

abbrev pub skip : ByteCursor → ℕ → Option ByteCursor
skip c n = if ltb (remaining c) n then none else some (new_bytes (drop n c.left))

-- A big-endian number in the bytes that were read.
abbrev pub be : ℕ → List ℕ → ℕ
be acc [] = acc
be acc (b ∷ bs) = be (acc * 256 + b) bs

abbrev pub read_be : ℕ → ByteCursor → Option (ℕ × ByteCursor)
read_be n c =
    if ltb (remaining c) n then none else some (be 0 (take n c.left), new_bytes (drop n c.left))

abbrev pub read_u16_be : ByteCursor → Option (ℕ × ByteCursor)
read_u16_be c = read_be 2 c

abbrev pub read_u24_be : ByteCursor → Option (ℕ × ByteCursor)
read_u24_be c = read_be 3 c

abbrev pub read_u32_be : ByteCursor → Option (ℕ × ByteCursor)
read_u32_be c = read_be 4 c
