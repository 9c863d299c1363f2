-- ===== src/Timeline/Entries/Order.antt =====
-- The timeline stays in the order of its presentation times.
use cheetah_media_engine.Prelude.{List, [], ◌∷◌}
use cheetah_media_engine.Prelude.Int.{ℤ, ◌≤ℤ◌}
use cheetah_media_engine.Timeline.Entries.{Timeline}

abbrev pub AllAbove : ℤ → List ℤ → Type 0
AllAbove k [] = Unit {0}
AllAbove k (x ∷ xs) = (k ≤ℤ x) × AllAbove k xs

abbrev pub AllBelow : ℤ → List ℤ → Type 0
AllBelow k [] = Unit {0}
AllBelow k (x ∷ xs) = (x ≤ℤ k) × AllBelow k xs

abbrev pub IsOrdered : List ℤ → Type 0
IsOrdered [] = Unit {0}
IsOrdered (x ∷ xs) = AllAbove x xs × IsOrdered xs
