-- ===== src/Timeline/Entries.antt =====
-- crates/cheetah-media-timeline/src/lib.rs: the ordered timeline.
pub mod Order
mod Tests
use cheetah_media_engine.Prelude.{
  ℕ, ◌-◌, ◌^◌, Bool, true, false, not, List, [], ◌∷◌, ◌++◌, suc, map, take, drop, Option, none,
  some, unwrap_or, if◌then◌else◌,
}
use cheetah_media_engine.Prelude.Int.{ℤ, negsuc, ltb_ℤ}
use cheetah_media_engine.Types.Time.{MediaTime, pts_ms}

pub record Timeline : Type 0 where
  pub entries : List MediaTime

abbrev pub new_timeline : Timeline
new_timeline = record { entries = [] }

-- Without a presentation time, an entry counts as the least i64.
abbrev pub entry_key : MediaTime → ℤ
entry_key t = unwrap_or t.pts (negsuc (2 ^ 63 - 1))

abbrev pub insert_at {ℓ} : {A : Type ℓ} → ℕ → A → List A → List A
insert_at i x xs = take i xs ++ x ∷ drop i xs

-- `search` is `binary_search_by`, whose index is inserted at, whether it is one of an equal key or not;
-- the library leaves open which one of several equal keys is found.
unfoldable pub push_time : (List ℤ → ℤ → ℕ) → Timeline → MediaTime → Timeline
push_time search t time = record {
  entries = insert_at (search (map entry_key t.entries) (entry_key time)) time t.entries;
}

abbrev pub reaches : ℤ → Option ℤ → Bool
reaches ms none = false
reaches ms (some t) = not (ltb_ℤ t ms)

pub first_reaching : ℤ → List MediaTime → Option MediaTime
first_reaching ms [] = none
first_reaching ms (t ∷ ts) =
    let rest = first_reaching ms ts in if reaches ms (pts_ms t) then some t else rest

pub next_after_ms : Timeline → ℤ → Option MediaTime
unfolding first_reaching
next_after_ms t ms = first_reaching ms t.entries
