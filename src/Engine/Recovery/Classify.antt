-- ===== src/Engine/Recovery/Classify.antt =====
-- `classify` picks a matching rule with the longest stage prefix.
use cheetah_media_engine.Prelude.{
  ℕ, ◌≤◌, ◌≡◌, ◌⊎◌, refl, ◌∙◌, subst, arith, String, true, false, List, [], ◌∷◌, none, some,
  Bool-cases, inl, inr,
}
use cheetah_media_engine.Engine.Recovery.{
  RecoveryAction, fatal_action, ClassificationRule, RecoveryPolicy, matches, better, best_rule,
  classify, action_of,
}
use Prim.Native.String.{len}
use native.Mathlib.Nat.{le_trans}

module _ (code : ℕ) (stage : String) where
  -- The rules of the list that match have a stage no longer than `b`'s.
  abbrev Longest : ClassificationRule → List ClassificationRule → Type 0
  Longest b [] = Unit {0}
  Longest b (r ∷ rs) = (matches code stage r ≡ true → len r.stage ≤ len b.stage) × Longest b rs

  abbrev NoneMatch : List ClassificationRule → Type 0
  NoneMatch [] = Unit {0}
  NoneMatch (r ∷ rs) = (matches code stage r ≡ false) × NoneMatch rs

  abbrev In : ClassificationRule → List ClassificationRule → Type 0
  In b [] = ⊥
  In b (r ∷ rs) = (b ≡ r) ⊎ In b rs

  better→le : (r b : ClassificationRule) → better r (some b) ≡ true → len b.stage ≤ len r.stage
  better→le r b h = ground arith

  not_better→le : (r b : ClassificationRule) → better r (some b) ≡ false → len r.stage ≤ len b.stage
  not_better→le r b h = ground arith

  abbrev Origin : ClassificationRule → ClassificationRule → List ClassificationRule → Type 0
  Origin x b rs = (x ≡ b) ⊎ (In x rs × (matches code stage x ≡ true))

  Origin-later :
      (x b r : ClassificationRule) (rs : List ClassificationRule)
      → Origin x b rs
      → Origin x b (r ∷ rs)
  Origin-later x b r rs (inl p) = inl p
  Origin-later x b r rs (inr (p, q)) = inr (inr p, q)

  Origin-here :
      (x b r : ClassificationRule) (rs : List ClassificationRule)
      → matches code stage r ≡ true
      → Origin x r rs
      → In x (r ∷ rs) × (matches code stage x ≡ true)
  Origin-here x b r rs m (inl p) = (inl p, rw p m)
  Origin-here x b r rs m (inr (p, q)) = (inr p, q)

  -- What the fold finds from a rule `b` on.
  record Beats (b : ClassificationRule) (rs : List ClassificationRule) : Type 0 where
    best : ClassificationRule
    found : best_rule code stage (some b) rs ≡ some best
    longer : len b.stage ≤ len best.stage
    origin : Origin best b rs
    longest : Longest best rs

  kept :
      (b r : ClassificationRule) (rs : List ClassificationRule)
      → Beats b rs
      → best_rule code stage (some b) (r ∷ rs) ≡ best_rule code stage (some b) rs
      → (matches code stage r ≡ true → len r.stage ≤ len b.stage)
      → Beats b (r ∷ rs)
  kept b r rs t e h = record {
    best = t.best;
    found = e ∙ t.found;
    longer = t.longer;
    origin = Origin-later t.best b r rs t.origin;
    longest = ((λ m. le_trans (h m) t.longer), t.longest);
  }

  from_some : (b : ClassificationRule) (rs : List ClassificationRule) → Beats b rs
  unfolding best_rule
  from_some b [] = record {
    best = b;
    found = refl;
    longer = omega arith;
    origin = inl refl;
    longest = tt;
  }
  from_some b (r ∷ rs) = elim (Bool-cases (matches code stage r)) [
    | inl m ↦ elim (Bool-cases (better r (some b))) [
      | inl w ↦
          let t = from_some r rs in
          record {
            best = t.best;
            found = rw (m, w) t.found;
            longer = le_trans (better→le r b w) t.longer;
            origin = inr (Origin-here t.best b r rs m t.origin);
            longest = ((λ _. t.longer), t.longest);
          }
      | inr w ↦ kept b r rs (from_some b rs) (rw (m, w)) (λ _. not_better→le r b w)
    ]
    | inr m ↦ kept b r rs (from_some b rs) (rw m) (λ e. absurd (cc (m, e)))
  ]

  -- From no rule on: either none of the list matches, or the result is a longest match of the list.
  abbrev pub Picks : List ClassificationRule → RecoveryAction → Type 0
  Picks rs a =
      ((a ≡ fatal_action) × NoneMatch rs)
      ⊎ ((b : ClassificationRule) × (a ≡ b.action)
          × In b rs
          × (matches code stage b ≡ true)
          × Longest b rs)

  skip_rule :
      (r : ClassificationRule) (rs : List ClassificationRule) (a : RecoveryAction)
      → matches code stage r ≡ false
      → Picks rs a
      → Picks (r ∷ rs) a
  skip_rule r rs a m (inl (e, n)) = inl (e, (m, n))
  skip_rule r rs a m (inr (b, e, i, q, l)) = inr (b, e, inr i, q, ((λ h. absurd (cc (m, h))), l))

  from_none : (rs : List ClassificationRule) → Picks rs (action_of (best_rule code stage none rs))
  unfolding best_rule
  from_none [] = inl (refl, tt)
  from_none (r ∷ rs) = elim (Bool-cases (matches code stage r)) [
    | inl m ↦
        let t = from_some r rs in
        let o = Origin-here t.best r r rs m t.origin in
        inr (t.best, rw (m, t.found), o.0, o.1, ((λ _. t.longer), t.longest))
    | inr m ↦
        let e : action_of (best_rule code stage none rs)
            ≡ action_of (best_rule code stage none (r ∷ rs)) =
          rw m in
        subst (Picks (r ∷ rs)) e (skip_rule r rs _ m (from_none rs))
  ]

  -- The classified action is that of a matching rule whose stage prefix is at least as long as that
  -- of every matching rule, and fatal where no rule matches.
  pub classify-Picks : (p : RecoveryPolicy) → Picks p.rules (classify p code stage)
  unfolding classify
  classify-Picks p = from_none p.rules
