-- ===== src/Timeline/Gop/Access.antt =====
-- Random access: which group of the cache is handed out.
use cheetah_media_engine.Prelude.{
  ◌≡◌, refl, ap, Bool, true, false, List, [], ◌∷◌, ◌++◌, Option, none, some, Bool-cases, inl, inr,
  ◌⊎◌,
}
use cheetah_media_engine.Prelude.Int.{ℤ}
use cheetah_media_engine.Timeline.Gop.{
  Gop, GopCache, usable, newer_or, newest, current_if, or_current, random_access,
}

-- No group of the list passes.
abbrev pub NonePasses : (Gop → Bool) → List Gop → Type 0
NonePasses test [] = Unit {0}
NonePasses test (g ∷ gs) = (test g ≡ false) × NonePasses test gs

abbrev pub CurrentFails : (Gop → Bool) → Option Gop → Type 0
CurrentFails test none = Unit {0}
CurrentFails test (some g) = test g ≡ false

-- Where a group stands: the last of the finalized ones that passes, or the current one.
abbrev pub Finds : (Gop → Bool) → List Gop → Option Gop → Option Gop → Type 0
Finds test gops current none = NonePasses test gops × CurrentFails test current
Finds test gops current (some g) =
    (test g ≡ true)
    × (((older : List Gop) × (newer : List Gop) × (gops ≡ older ++ g ∷ newer)
          × NonePasses test newer)
        ⊎ ((current ≡ some g) × NonePasses test gops))

abbrev Newest : (Gop → Bool) → List Gop → Option Gop → Type 0
Newest test gops none = NonePasses test gops
Newest test gops (some g) =
    (test g ≡ true)
    × ((older : List Gop) × (newer : List Gop) × (gops ≡ older ++ g ∷ newer)
        × NonePasses test newer)

newer_or-Newest :
    (test : Gop → Bool) (g : Gop) (gs : List Gop) (r : Option Gop)
    → Newest test gs r
    → Newest test (g ∷ gs) (newer_or test g r)
newer_or-Newest test g gs none h = elim (Bool-cases (test g)) [
  | inl good ↦ rw good (good, ([], gs, refl, h))
  | inr bad ↦ rw bad (bad, h)
]
newer_or-Newest test g gs (some x) (good, (older, newer, e, h)) =
    (good, (g ∷ older, newer, ap (λ l. g ∷ l) e, h))

newest-Newest : (test : Gop → Bool) (gops : List Gop) → Newest test gops (newest test gops)
unfolding newest
newest-Newest test [] = tt
newest-Newest test (g ∷ gs) = newer_or-Newest test g gs (newest test gs) (newest-Newest test gs)

current_if-Finds :
    (test : Gop → Bool) (gops : List Gop) (current : Option Gop)
    → NonePasses test gops
    → Finds test gops current (current_if test current)
current_if-Finds test gops none h = (h, tt)
current_if-Finds test gops (some g) h = elim (Bool-cases (test g)) [
  | inl good ↦ rw good (good, inr (refl, h))
  | inr bad ↦ rw bad (h, bad)
]

or_current-Finds :
    (test : Gop → Bool) (gops : List Gop) (current : Option Gop) (r : Option Gop)
    → Newest test gops r
    → Finds test gops current (or_current r (current_if test current))
or_current-Finds test gops current none h = current_if-Finds test gops current h
or_current-Finds test gops current (some g) (good, place) = (good, inl place)

-- A random access answers with a group of the configuration in effect that starts at or before the
-- time: the last finalized one, or, where no finalized one will do, the current one. It answers with
-- none exactly where no group will do.
pub random_access-Finds :
    (c : GopCache) (t : ℤ)
    → Finds (usable c.current_config_generation t) c.gops c.current (random_access c t)
unfolding random_access
random_access-Finds c t =
    let test = usable c.current_config_generation t in
    or_current-Finds test c.gops c.current (newest test c.gops) (newest-Newest test c.gops)
