-- ===== src/Prelude/Strings.antt =====
-- Texts are compared by the library's test; equality of texts is decided through it.
use mathlib.Core.Path.{◌≡◌, refl}
use mathlib.Core.Logic.{◌↔◌}
use mathlib.Core.Bool.{Bool, true, false}
use Prim.Native.String.{String}
use text.Mathlib.Text.{◌==◌}
use text.Mathlib.TextEquality.{eq_iff}

abbrev pub str_eq : String → String → Bool
str_eq a b = a == b

pub str_eq_iff : (a b : String) → (str_eq a b ≡ true) ↔ (a ≡ b)
str_eq_iff a b = eq_iff a b

decide_by : {A : Type 0} (a b : A) (t : Bool) → (t ≡ true) ↔ (a ≡ b) → Dec (a ≡ b)
decide_by a b true e = yes (e.0 refl)
decide_by a b false e = no (λ p. false_ne (e.1 p))
  where
    false_ne : false ≡ true → ⊥
    false_ne h = cc

unfoldable pub String-discrete : Discrete String
unfolding decide_by
String-discrete a b = decide_by a b (str_eq a b) (str_eq_iff a b)
