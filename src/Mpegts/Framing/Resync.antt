-- ===== src/Mpegts/Framing/Resync.antt =====
-- Where a resynchronisation goes, and why the loop of `parse_packet` ends.
use cheetah_media_engine.Prelude.{
  ℕ, zero, suc, ◌+◌, ◌-◌, ◌≤◌, ◌<◌, ◌≡◌, inl, inr, refl, sym, ap, ◌∙◌, subst, List, [], ◌∷◌, length,
  get_or, drop, length-drop, Bool, true, false, ◌&&◌, Option, none, some, ltb, leb, ◌==◌,
  if◌then◌else◌, arith, Bool-cases, ==_iff, u64_max, sat_add, min,
}
use cheetah_media_engine.Bitstream.Bytes.{ByteCursor, new_bytes}
use cheetah_media_engine.Mpegts.Error.{
  Parsed, ok, err, ◌>>=◌, lost_sync, packet_too_short, need_more_data, invalid_input,
  limit_exceeded, unsupported,
}
use cheetah_media_engine.Mpegts.Packet.{
  TsPacket, parse, parse_pcr, parse_adaptation, parse_fields, has_adaptation, make_packet,
  no_adaptation, bit_set,
}
use cheetah_media_engine.Mpegts.Framing.{
  TsDemuxer, parse_packet, is_sync, scan, resync, found, parse_loop, on_parsed, after_resync,
  max_sync_scan, take_packet,
}

abbrev IsOk {ℓ} : {A : Type ℓ} → Parsed A → Type ℓ
IsOk {A = A} r = (a : A) × (r ≡ ok a)

IsOk-if {ℓ} : {A : Type ℓ} (b : Bool) {x y : Parsed A} → IsOk x → IsOk y → IsOk (if b then x else y)
IsOk-if true x y = x
IsOk-if false x y = y

IsOk-bind {ℓ κ} :
    {A : Type ℓ} {B : Type κ} (r : Parsed A) (f : A → Parsed B)
    → IsOk r
    → ((a : A) → IsOk (f a))
    → IsOk (r >>= f)
IsOk-bind r f h k = let s = k h.0 in (s.0, ap (λ q. q >>= f) h.1 ∙ s.1)

parse_pcr-IsOk : (flags len : ℕ) (c : ByteCursor) → 6 ≤ length c.left → IsOk (parse_pcr flags len c)
parse_pcr-IsOk flags len c h =
    let enough : ltb (length c.left) 6 ≡ false = ground arith in
    IsOk-if (bit_set flags 4 && leb 7 len) (rw enough (_, refl)) (_, refl)

parse_adaptation-IsOk :
    (bytes : List ℕ) → 8 ≤ length bytes → IsOk (parse_adaptation (new_bytes bytes))
parse_adaptation-IsOk [] h = absurd (omega arith)
parse_adaptation-IsOk (len ∷ []) h = absurd (omega arith)
parse_adaptation-IsOk (len ∷ flags ∷ bytes) h =
    IsOk-if (ltb 0 len) (parse_pcr-IsOk flags len (new_bytes bytes) (omega arith)) (_, refl)

parse_fields-IsOk :
    (a b c : ℕ) (bytes : List ℕ) → 8 ≤ length bytes → IsOk (parse_fields a b c (new_bytes bytes))
parse_fields-IsOk a b c bytes h =
    IsOk-bind (if has_adaptation c then parse_adaptation (new_bytes bytes) else ok no_adaptation)
      (λ d. ok (make_packet a b c d))
      (IsOk-if (has_adaptation c) (parse_adaptation-IsOk bytes h) (_, refl)) (λ d. (_, refl))

-- A packet parses wherever 188 bytes start with the sync byte.
pub parse-synced :
    (bytes : List ℕ) → 188 ≤ length bytes → get_or bytes 0 0 ≡ 0x47 → IsOk (parse bytes)
unfolding parse
parse-synced [] h e = absurd (omega arith)
parse-synced (s ∷ []) h e = absurd (omega arith)
parse-synced (s ∷ a ∷ []) h e = absurd (omega arith)
parse-synced (s ∷ a ∷ b ∷ []) h e = absurd (omega arith)
parse-synced (s ∷ a ∷ b ∷ c ∷ bytes) h e =
    let long : ltb (length (s ∷ a ∷ b ∷ c ∷ bytes)) 188 ≡ false = ground arith in
    let r = parse_fields-IsOk a b c bytes (omega arith) in (r.0, rw (long, e) r.1)

-- What a scan of `count` positions from `i` on says: the position found is one of them and a
-- packet may start there, and no earlier one may.
abbrev pub Found : List ℕ → ℕ → ℕ → Option ℕ → Type 0
Found buffer count i none = (k : ℕ) → i ≤ k → k < i + count → is_sync buffer k ≡ false
Found buffer count i (some j) =
    (i ≤ j)
    × (j < i + count)
    × (is_sync buffer j ≡ true)
    × ((k : ℕ) → i ≤ k → k < j → is_sync buffer k ≡ false)

widen :
    (buffer : List ℕ) (count i : ℕ) (o : Option ℕ)
    → is_sync buffer i ≡ false
    → Found buffer count (i + 1) o
    → Found buffer (suc count) i o
widen buffer count i none not_here f = λ k le lt. elim (Bool-cases (k == i)) [
  | inl e ↦ subst (λ j. is_sync buffer j ≡ false) (sym ((==_iff k i).0 e)) not_here
  | inr e ↦ f k (ground arith) (ground arith)
]
widen buffer count i (some j) not_here f = (
  omega (arith, f.0),
  omega (arith, f.1),
  f.2,
  λ k le lt. elim (Bool-cases (k == i)) [
    | inl e ↦ subst (λ j. is_sync buffer j ≡ false) (sym ((==_iff k i).0 e)) not_here
    | inr e ↦ f.3 k (ground arith) lt
  ],
)

scan-Found : (buffer : List ℕ) (count i : ℕ) → Found buffer count i (scan buffer count i)
unfolding scan
scan-Found buffer zero i = λ k le lt. absurd (omega arith)
scan-Found buffer (suc count) i = elim (Bool-cases (is_sync buffer i)) [
  | inl here ↦ rw here (omega arith, omega arith, here, λ k le lt. absurd (omega arith))
  | inr later ↦
      rw later
        (widen buffer count i (scan buffer count (i + 1)) later (scan-Found buffer count (i + 1)))
]

get_or-drop : (i : ℕ) (xs : List ℕ) → get_or (drop i xs) 0 0 ≡ get_or xs i 0
get_or-drop zero xs = refl
get_or-drop (suc i) [] = refl
get_or-drop (suc i) (x ∷ xs) = get_or-drop i xs

-- A position where a packet may start and 188 bytes follow.
abbrev IsStart : TsDemuxer → Type 0
IsStart d = (d.read_pos + 188 ≤ length d.buffer) × (get_or d.buffer d.read_pos 0 ≡ 0x47)

packet_at : (d : TsDemuxer) → IsStart d → IsOk (parse (drop d.read_pos d.buffer))
packet_at d s =
    parse-synced (drop d.read_pos d.buffer) (omega (arith, length-drop d.read_pos d.buffer, s.0))
      (get_or-drop d.read_pos d.buffer ∙ s.1)

after_start :
    (fuel : ℕ) (d : TsDemuxer) (s : IsStart d)
    → length d.buffer < u64_max
    → parse_loop (suc fuel) d ≡ take_packet d (packet_at d s).0
unfolding parse_loop
after_start fuel d s small =
    let there : ltb (length d.buffer) (sat_add d.read_pos 188) ≡ false = ground (arith, s.0) in
    rw there (ap (λ r. on_parsed d r (parse_loop fuel)) (packet_at d s).1)

-- Two continuations that agree where a packet starts.
abbrev Agree :
    (TsDemuxer → TsDemuxer × Parsed (Option (TsPacket × List ℕ)))
    → (TsDemuxer → TsDemuxer × Parsed (Option (TsPacket × List ℕ)))
    → Type 0
Agree f g = (d : TsDemuxer) → IsStart d → length d.buffer < u64_max → f d ≡ g d

and-left : (a b : Bool) → (a && b) ≡ true → a ≡ true
and-left true b e = refl
and-left false b e = e

found-agrees :
    (d : TsDemuxer) (f g : TsDemuxer → TsDemuxer × Parsed (Option (TsPacket × List ℕ)))
    (count i : ℕ) (o : Option ℕ)
    → length d.buffer < u64_max
    → i + count + 187 ≤ length d.buffer
    → Agree f g
    → Found d.buffer count i o
    → after_resync (found d o) f ≡ after_resync (found d o) g
found-agrees d f g count i none small room agree h =
    elim (Bool-cases (ltb max_sync_scan (length d.buffer - d.read_pos))) [
      | inl e ↦ rw e refl
      | inr e ↦ rw e refl
    ]
found-agrees d f g count i (some j) small room agree h =
    agree (record d { sync_losses = sat_add d.sync_losses 1; read_pos = j })
      (omega (arith, h.1), (==_iff (get_or d.buffer j 0) 0x47).0 (and-left _ _ h.2)) small

resync-agrees :
    (d : TsDemuxer) (f g : TsDemuxer → TsDemuxer × Parsed (Option (TsPacket × List ℕ)))
    → length d.buffer < u64_max
    → Agree f g
    → after_resync (resync d) f ≡ after_resync (resync d) g
unfolding resync
resync-agrees d f g small agree =
    let scan_end = min (sat_add d.read_pos max_sync_scan) (length d.buffer) in
    elim (Bool-cases (ltb (scan_end - d.read_pos) 188)) [
      | inl e ↦ rw e refl
      | inr e ↦ rw e (
          let count = scan_end - 188 - d.read_pos in
          found-agrees d f g count (d.read_pos + 1) (scan d.buffer count (d.read_pos + 1)) small
            (ground arith) agree (scan-Found d.buffer count (d.read_pos + 1)))
    ]

on_parsed-agrees :
    (d : TsDemuxer) (r : Parsed TsPacket)
    (f g : TsDemuxer → TsDemuxer × Parsed (Option (TsPacket × List ℕ)))
    → length d.buffer < u64_max
    → Agree f g
    → on_parsed d r f ≡ on_parsed d r g
on_parsed-agrees d (ok p) f g small agree = refl
on_parsed-agrees d (err lost_sync) f g small agree = resync-agrees d f g small agree
on_parsed-agrees d (err packet_too_short) f g small agree = resync-agrees d f g small agree
on_parsed-agrees d (err need_more_data) f g small agree = refl
on_parsed-agrees d (err (invalid_input c m)) f g small agree = refl
on_parsed-agrees d (err (limit_exceeded l)) f g small agree = refl
on_parsed-agrees d (err (unsupported c m)) f g small agree = refl

-- The search for a packet ends after at most one resynchronisation: with any more rounds the
-- loop returns the same.
pub parse_packet-parse_loop :
    (fuel : ℕ) (d : TsDemuxer)
    → length d.buffer < u64_max
    → parse_loop (suc (suc fuel)) d ≡ parse_packet d
unfolding parse_loop parse_packet
parse_packet-parse_loop fuel d small =
    elim (Bool-cases (ltb (length d.buffer) (sat_add d.read_pos 188))) [
      | inl e ↦ rw e refl
      | inr e ↦ rw e (
          on_parsed-agrees d (parse (drop d.read_pos d.buffer)) (parse_loop (suc fuel))
            (parse_loop 1) small (λ c s l. after_start fuel c s l ∙ sym (after_start 0 c s l)))
    ]
