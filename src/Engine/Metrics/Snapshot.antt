-- ===== src/Engine/Metrics/Snapshot.antt =====
-- What the counters and their snapshot tell.
use cheetah_media_engine.Prelude.{
  ℕ, max, ◌≡◌, refl, sym, ◌∙◌, arith, String, str_eq, str_eq_iff, Bool, true, false, List, [], ◌∷◌,
  Bool-cases, inl, inr, ltb, if◌then◌else◌, sat_add,
}
use cheetah_media_engine.Types.Budget.{CopyReason, CopyCounter, reason_name}
use cheetah_media_engine.Engine.Metrics.{
  Metrics, CopyMetric, record_in_flight, add_entry, copy_entries, snapshot,
}

-- Levels recorded one after the other.
abbrev pub record_levels : Metrics → List ℕ → Metrics
record_levels m [] = m
record_levels m (n ∷ ns) = record_levels (record_in_flight m n) ns

abbrev pub largest : ℕ → List ℕ → ℕ
largest n [] = n
largest n (k ∷ ks) = largest (max n k) ks

larger : (a b : ℕ) → (if ltb a b then b else a) ≡ max a b
larger a b = ground arith

-- The peak is the largest of the old peak and all the levels recorded since.
pub record_levels-peak :
    (m : Metrics) (ns : List ℕ) → (record_levels m ns).peak_in_flight ≡ largest m.peak_in_flight ns
unfolding record_in_flight
record_levels-peak m [] = refl
record_levels-peak m (n ∷ ns) =
    rw (record_levels-peak (record_in_flight m n) ns, larger m.peak_in_flight n) refl

-- The bytes and the count a snapshot has under a name, 0 for a name it lacks.
abbrev pub shown : String → List (String × CopyMetric) → ℕ × ℕ
shown key [] = (0, 0)
shown key ((k, e) ∷ m) = if str_eq k key then (e.bytes, e.count) else shown key m

-- The sums over the counters of the reasons with a name, in their order.
abbrev pub tally : String → ℕ × ℕ → List (CopyReason × CopyCounter) → ℕ × ℕ
tally key (b, n) [] = (b, n)
tally key (b, n) ((r, c) ∷ cs) =
    tally key
      (if str_eq (reason_name r) key then (sat_add b c.bytes, sat_add n c.count) else (b, n)) cs

if_if :
    {A : Type 0} (t : Bool) (a b : A) (f : A → A)
    → (if t then f a else b) ≡ (if t then f (if t then a else b) else (if t then a else b))
if_if true a b f = refl
if_if false a b f = refl

two_names : (j k key : String) → str_eq j k ≡ false → str_eq j key ≡ true → str_eq k key ≡ true → ⊥
two_names j k key other hit both =
    false_is_true
      (sym other ∙ (str_eq_iff j k).1 ((str_eq_iff j key).0 hit ∙ sym ((str_eq_iff k key).0 both)))
  where
    false_is_true : false ≡ true → ⊥
    false_is_true h = cc

shown-add_entry :
    (key k : String) (c : CopyCounter) (m : List (String × CopyMetric))
    → shown key (add_entry k c m) ≡ (
        if str_eq k key
        then (sat_add (shown key m).0 c.bytes, sat_add (shown key m).1 c.count)
        else shown key m)
unfolding add_entry
shown-add_entry key k c [] = refl
shown-add_entry key k c ((j, e) ∷ m) = elim (Bool-cases (str_eq j k)) [
  | inl same ↦
      rw (same, (str_eq_iff j k).0 same)
        (if_if (str_eq k key) (e.bytes, e.count) (shown key m)
          (λ p. (sat_add p.0 c.bytes, sat_add p.1 c.count)))
  | inr other ↦ elim (Bool-cases (str_eq j key)) [
    | inl hit ↦ elim (Bool-cases (str_eq k key)) [
      | inl both ↦ absurd (two_names j k key other hit both)
      | inr miss ↦ rw (other, hit, miss) refl
    ]
    | inr miss ↦ rw (other, miss) (shown-add_entry key k c m)
  ]
]

tally-shown :
    (key : String) (m : List (String × CopyMetric)) (cs : List (CopyReason × CopyCounter))
    → shown key (copy_entries m cs) ≡ tally key (shown key m) cs
unfolding copy_entries
tally-shown key m [] = refl
tally-shown key m ((r, c) ∷ cs) =
    rw (tally-shown key (add_entry (reason_name r) c m) cs, shown-add_entry key (reason_name r) c m)
      refl

-- Under each name, a snapshot shows the saturating sums of the bytes and of the counts of exactly the
-- copy counters whose reason has that name, and nothing under another name.
pub snapshot-tally :
    (m : Metrics) (key : String)
    → shown key (snapshot m).copy ≡ tally key (0, 0) m.copy_budget.counters
unfolding snapshot
snapshot-tally m key = tally-shown key [] m.copy_budget.counters
