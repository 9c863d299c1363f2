-- ===== src/Types/Budget/Copies.antt =====
-- The counters of a copy budget.
use cheetah_media_engine.Prelude.{
  ℕ, ◌≡◌, refl, sym, ap, ◌∙◌, arith, Bool-cases, inl, inr, List, [], ◌∷◌, Option, some, none,
  sat_add, true, if◌then◌else◌, str_eq_iff, map_option, unwrap_or, ◌≢◌,
}
use cheetah_media_engine.Types.Budget.{
  CopyReason, CopyCounter, CopyBudget, network_to_wasm, parser_reassembly, demux_to_decoder,
  demux_to_mse, decoder_to_renderer, other, same_reason, no_copies, bump, record_in, record_copy,
  sum_bytes, sum_count, total, total_count, find, get_bytes, get_count,
}

-- A fold with saturating addition depends on its start in one place.
sum_bytes_start :
    (a b : ℕ) (m : List (CopyReason × CopyCounter))
    → sum_bytes (sat_add a b) m ≡ sat_add (sum_bytes a m) b
unfolding sum_bytes
sum_bytes_start a b [] = refl
sum_bytes_start a b ((k, c) ∷ m) =
    ap (λ x. sum_bytes x m) (omega arith) ∙ sum_bytes_start (sat_add a c.bytes) b m

sum_bytes-record_in :
    (r : CopyReason) (n a : ℕ) (m : List (CopyReason × CopyCounter))
    → sum_bytes a (record_in r n m) ≡ sat_add (sum_bytes a m) n
unfolding sum_bytes record_in
sum_bytes-record_in r n a [] = omega arith
sum_bytes-record_in r n a ((k, c) ∷ m) = elim (Bool-cases (same_reason k r)) [
  | inl h ↦ rw h (ap (λ x. sum_bytes x m) (omega arith) ∙ sum_bytes_start (sat_add a c.bytes) n m)
  | inr h ↦ rw h (sum_bytes-record_in r n (sat_add a c.bytes) m)
]

sum_count_start :
    (a b : ℕ) (m : List (CopyReason × CopyCounter))
    → sum_count (sat_add a b) m ≡ sat_add (sum_count a m) b
unfolding sum_count
sum_count_start a b [] = refl
sum_count_start a b ((k, c) ∷ m) =
    ap (λ x. sum_count x m) (omega arith) ∙ sum_count_start (sat_add a c.count) b m

sum_count-record_in :
    (r : CopyReason) (n a : ℕ) (m : List (CopyReason × CopyCounter))
    → sum_count a (record_in r n m) ≡ sat_add (sum_count a m) 1
unfolding sum_count record_in
sum_count-record_in r n a [] = omega arith
sum_count-record_in r n a ((k, c) ∷ m) = elim (Bool-cases (same_reason k r)) [
  | inl h ↦ rw h (ap (λ x. sum_count x m) (omega arith) ∙ sum_count_start (sat_add a c.count) 1 m)
  | inr h ↦ rw h (sum_count-record_in r n (sat_add a c.count) m)
]

same_reason→eq : (a b : CopyReason) → same_reason a b ≡ true → a ≡ b
unfolding same_reason
same_reason→eq network_to_wasm b h = ground arith
same_reason→eq parser_reassembly b h = ground arith
same_reason→eq demux_to_decoder b h = ground arith
same_reason→eq demux_to_mse b h = ground arith
same_reason→eq decoder_to_renderer b h = ground arith
same_reason→eq (other s) (other t) h = ap other ((str_eq_iff s t).0 h)
same_reason→eq (other s) b h = cc

same_reason_self : (a : CopyReason) → same_reason a a ≡ true
unfolding same_reason
same_reason_self (other s) = (str_eq_iff s s).1 refl
same_reason_self _ = refl

-- What the map holds for a reason, zeros included.
abbrev counted : CopyReason → List (CopyReason × CopyCounter) → CopyCounter
counted q m = unwrap_or (find q m) no_copies

find-record_in :
    (r q : CopyReason) (n : ℕ) (m : List (CopyReason × CopyCounter))
    → counted q (record_in r n m) ≡ (if same_reason r q then bump (counted q m) n else counted q m)
unfolding find record_in
find-record_in r q n [] = elim (Bool-cases (same_reason r q)) [ inl h ↦ rw h | inr h ↦ rw h ]
find-record_in r q n ((k, c) ∷ m) = elim (Bool-cases (same_reason k r)) [
  | inl h ↦
      let e : k ≡ r = same_reason→eq k r h in
      elim (Bool-cases (same_reason r q)) [ inl g ↦ rw (h, e, g) | inr g ↦ rw (h, e, g) ]
  | inr h ↦ elim (Bool-cases (same_reason k q)) [
    | inl g ↦ elim (Bool-cases (same_reason r q)) [
      | inl f ↦
          let e : k ≡ r = same_reason→eq k q g ∙ sym (same_reason→eq r q f) in
          cc (h, ap (λ x. same_reason x r) e, same_reason_self r)
      | inr f ↦ rw (h, g, f)
    ]
    | inr g ↦ rw (h, g) (find-record_in r q n m)
  ]
]

counted_self :
    (r : CopyReason) (n : ℕ) (m : List (CopyReason × CopyCounter))
    → counted r (record_in r n m) ≡ bump (counted r m) n
counted_self r n m = rw (find-record_in r r n m, same_reason_self r)

counted_ne :
    (r q : CopyReason) (n : ℕ) (m : List (CopyReason × CopyCounter))
    → r ≢ q
    → counted q (record_in r n m) ≡ counted q m
counted_ne r q n m h = elim (Bool-cases (same_reason r q)) [
  | inl e ↦ absurd (h (same_reason→eq r q e))
  | inr e ↦ rw (find-record_in r q n m, e)
]

unwrap_bytes :
    (o : Option CopyCounter)
    → unwrap_or (map_option (λ c. c.bytes) o) 0 ≡ (unwrap_or o no_copies).bytes
unwrap_bytes none = refl
unwrap_bytes (some c) = refl

unwrap_count :
    (o : Option CopyCounter)
    → unwrap_or (map_option (λ c. c.count) o) 0 ≡ (unwrap_or o no_copies).count
unwrap_count none = refl
unwrap_count (some c) = refl

bytes_counted : (b : CopyBudget) (q : CopyReason) → get_bytes b q ≡ (counted q b.counters).bytes
unfolding get_bytes
bytes_counted b q = unwrap_bytes (find q b.counters)

count_counted : (b : CopyBudget) (q : CopyReason) → get_count b q ≡ (counted q b.counters).count
unfolding get_count
count_counted b q = unwrap_count (find q b.counters)

-- A recorded copy adds its bytes, saturating, to the total and to the bytes of its reason, adds one
-- to both counts, and changes nothing of any other reason.
pub record_copy_lem :
    (b : CopyBudget) (r q : CopyReason) (n : ℕ)
    → r ≢ q
    → (total (record_copy b r n) ≡ sat_add (total b) n)
      × (total_count (record_copy b r n) ≡ sat_add (total_count b) 1)
      × (get_bytes (record_copy b r n) r ≡ sat_add (get_bytes b r) n)
      × (get_count (record_copy b r n) r ≡ sat_add (get_count b r) 1)
      × (get_bytes (record_copy b r n) q ≡ get_bytes b q)
      × (get_count (record_copy b r n) q ≡ get_count b q)
unfolding total total_count record_copy
record_copy_lem b r q n h = (
  sum_bytes-record_in r n 0 b.counters,
  sum_count-record_in r n 0 b.counters,
  rw (bytes_counted, bytes_counted) (ap (λ c. c.bytes) (counted_self r n b.counters)),
  rw (count_counted, count_counted) (ap (λ c. c.count) (counted_self r n b.counters)),
  rw (bytes_counted, bytes_counted) (ap (λ c. c.bytes) (counted_ne r q n b.counters h)),
  rw (count_counted, count_counted) (ap (λ c. c.count) (counted_ne r q n b.counters h)),
)
