-- ===== src/Engine/Resource/Limits.antt =====
-- `ResourceLimits::check` accepts exactly the ledgers within every limit.
use cheetah_media_engine.Prelude.{
  ℕ, suc, ◌≤◌, ◌≡◌, ◌↔◌, refl, arith, false, List, [], ◌∷◌, get_or, ltb, Bool-cases, inl, inr,
}
use cheetah_media_engine.Types.Error.{ok}
use cheetah_media_engine.Engine.Resource.{
  ResourceKind, network, timer, worker, wasm_handle, decoder, frame, audio, gpu, url, listener,
  ResourceLedger, count, total, ResourceLimits, max_for, check_kinds, check, all_kinds,
}

module _ (m : ResourceLimits) (l : ResourceLedger) where
  -- Each kind of the list, the first at slot `i`, is within its limit.
  abbrev Within : ℕ → List ResourceKind → Type 0
  Within i [] = Unit {0}
  Within i (k ∷ ks) = (count l k ≤ get_or m.max_per_kind i 0) × Within (suc i) ks

  check_kinds→Within : (i : ℕ) (ks : List ResourceKind) → check_kinds m l i ks ≡ ok tt → Within i ks
  unfolding check_kinds
  check_kinds→Within i [] h = tt
  check_kinds→Within i (k ∷ ks) h =
      elim (Bool-cases (ltb (get_or m.max_per_kind i 0) (count l k))) [
        | inl over ↦ cc (rw over at h)
        | inr fine ↦ (ground arith, check_kinds→Within (suc i) ks (rw fine at h))
      ]

  Within→check_kinds : (i : ℕ) (ks : List ResourceKind) → Within i ks → check_kinds m l i ks ≡ ok tt
  unfolding check_kinds
  Within→check_kinds i [] h = refl
  Within→check_kinds i (k ∷ ks) h =
      let fine : ltb (get_or m.max_per_kind i 0) (count l k) ≡ false = ground (arith, h.0) in
      rw fine (Within→check_kinds (suc i) ks h.1)

  kinds-Within : Within 0 all_kinds → (k : ResourceKind) → count l k ≤ max_for m k
  kinds-Within h network = h.0
  kinds-Within h timer = h.1.0
  kinds-Within h worker = h.1.1.0
  kinds-Within h wasm_handle = h.1.1.1.0
  kinds-Within h decoder = h.1.1.1.1.0
  kinds-Within h frame = h.1.1.1.1.1.0
  kinds-Within h audio = h.1.1.1.1.1.1.0
  kinds-Within h gpu = h.1.1.1.1.1.1.1.0
  kinds-Within h url = h.1.1.1.1.1.1.1.1.0
  kinds-Within h listener = h.1.1.1.1.1.1.1.1.1.0

  Within-kinds : ((k : ResourceKind) → count l k ≤ max_for m k) → Within 0 all_kinds
  Within-kinds h = (
    h network,
    (
      h timer,
      (
        h worker,
        (h wasm_handle, (h decoder, (h frame, (h audio, (h gpu, (h url, (h listener, tt))))))),
      ),
    ),
  )

  -- The check passes exactly when the total and the count of every kind are within their limits.
  pub check_iff :
      (check m l ≡ ok tt)
      ↔ ((total l ≤ m.max_total) × ((k : ResourceKind) → count l k ≤ max_for m k))
  unfolding check
  check_iff = (
    (λ h. elim (Bool-cases (ltb m.max_total (total l))) [
      | inl over ↦ absurd (cc (rw over at h))
      | inr fine ↦ (ground arith, kinds-Within (check_kinds→Within 0 all_kinds (rw fine at h)))
    ]),
    λ h.
        let fine : ltb m.max_total (total l) ≡ false = ground (arith, h.0) in
        rw fine (Within→check_kinds 0 all_kinds (Within-kinds h.1)),
  )
