-- ===== src/Bitstream/Rbsp.antt =====
-- crates/cheetah-media-bitstream/src/rbsp.rs: removal of emulation prevention bytes.
pub mod RoundTrip
mod Tests
use cheetah_media_engine.Prelude.{
  ℕ, Bool, true, false, ◌&&◌, List, [], ◌∷◌, leb, ◌==◌, if◌then◌else◌,
}

-- `i + 3 < data.len() && data[i + 3] <= 0x03`, of what follows the three bytes.
abbrev pub is_protected : List ℕ → Bool
is_protected [] = false
is_protected (x ∷ xs) = leb x 3

pub unescape_rbsp : List ℕ → List ℕ
unescape_rbsp (a ∷ b ∷ c ∷ xs) = elim (a == 0 && (b == 0 && c == 3)) [
  | true ↦ let rest = unescape_rbsp xs in if is_protected xs then 0 ∷ 0 ∷ rest else 0 ∷ 0 ∷ 3 ∷ rest
  | false ↦ a ∷ unescape_rbsp (b ∷ c ∷ xs)
]
unescape_rbsp (a ∷ xs) = a ∷ unescape_rbsp xs
unescape_rbsp [] = []
