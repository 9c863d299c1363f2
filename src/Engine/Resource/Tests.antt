-- ===== src/Engine/Resource/Tests.antt =====
-- The theorems on the resource ledger at concrete ledgers.
use cheetah_media_engine.Prelude.{refl, arith, [], ◌∷◌}
use cheetah_media_engine.Engine.Resource.{ResourceLedger}
use cheetah_media_engine.Engine.Resource.Counts.{IsLedger}

-- Three timers and one decoder.
abbrev some_held : ResourceLedger
some_held = record { counts = 0 ∷ 3 ∷ 0 ∷ 0 ∷ 1 ∷ 0 ∷ 0 ∷ 0 ∷ 0 ∷ 0 ∷ [] }

some_held-IsLedger : IsLedger some_held
some_held-IsLedger = record { slots = refl; bound = λ k. ground arith }
