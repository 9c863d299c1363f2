-- ===== src/Timeline/Gop/Counts.antt =====
-- The counters of a group are those of its packets, and what the totals of a cache say of them.
use cheetah_media_engine.Prelude.{
  ℕ, ◌+◌, ◌≤◌, ◌≡◌, ◌∙◌, arith, List, [], ◌∷◌, ◌++◌, length, Option, none, some, length-append, min,
  sat_add, u64_max,
}
use cheetah_media_engine.Prelude.Int.{ℤ, pos_part, sat_sub_i64}
use cheetah_media_engine.Types.Packet.{MediaPacket}
use cheetah_media_engine.Timeline.Gop.{
  Gop, timestamp_ms, timed, first_start, count_packet, push_packet, sum_of, total_of, of_current,
}

abbrev pub payload_bytes : List MediaPacket → ℕ
payload_bytes [] = 0
payload_bytes (p ∷ ps) = length p.payload + payload_bytes ps

-- A packet's time, where it has one, is at most the duration after the start.
abbrev pub IsSpanned : Option ℤ → ℕ → Option ℤ → Type 0
IsSpanned start duration none = Unit {0}
IsSpanned none duration (some ms) = ⊥
IsSpanned (some start) duration (some ms) = pos_part (sat_sub_i64 ms start) ≤ duration

abbrev pub AllSpanned : Option ℤ → ℕ → List MediaPacket → Type 0
AllSpanned start duration [] = Unit {0}
AllSpanned start duration (p ∷ ps) =
    IsSpanned start duration (timestamp_ms p) × AllSpanned start duration ps

-- The bytes and frames of a group are those of its packets, up to the greatest u64, and its duration
-- reaches from its start to each of its packets.
abbrev pub IsCounted : Gop → Type 0
IsCounted g =
    (g.bytes ≡ min (payload_bytes g.packets) u64_max)
    × (g.frames ≡ min (length g.packets) u64_max)
    × AllSpanned g.start_ms g.duration_ms g.packets

payload_bytes-append :
    (ps qs : List MediaPacket) → payload_bytes (ps ++ qs) ≡ payload_bytes ps + payload_bytes qs
payload_bytes-append [] qs = omega arith
payload_bytes-append (p ∷ ps) qs = omega (arith, payload_bytes-append ps qs)

AllSpanned-append :
    (start : Option ℤ) (duration : ℕ) (ps : List MediaPacket) (p : MediaPacket)
    → AllSpanned start duration ps
    → IsSpanned start duration (timestamp_ms p)
    → AllSpanned start duration (ps ++ p ∷ [])
AllSpanned-append start duration [] p h k = (k, tt)
AllSpanned-append start duration (q ∷ ps) p h k = (h.0, AllSpanned-append start duration ps p h.1 k)

-- A longer duration spans more, and a start that comes late finds no times before it.
IsSpanned-longer :
    (start : Option ℤ) (ms : ℤ) (c d : ℕ) (o : Option ℤ)
    → c ≤ d
    → IsSpanned start c o
    → IsSpanned (some (first_start start ms)) d o
IsSpanned-longer start ms c d none le h = tt
IsSpanned-longer none ms c d (some t) le h = absurd h
IsSpanned-longer (some start) ms c d (some t) le h = omega arith

AllSpanned-longer :
    (start : Option ℤ) (ms : ℤ) (c d : ℕ) (ps : List MediaPacket)
    → c ≤ d
    → AllSpanned start c ps
    → AllSpanned (some (first_start start ms)) d ps
AllSpanned-longer start ms c d [] le h = tt
AllSpanned-longer start ms c d (p ∷ ps) le h = (
  IsSpanned-longer start ms c d (timestamp_ms p) le h.0,
  AllSpanned-longer start ms c d ps le h.1,
)

-- The counters after the times of a packet `o` are brought in.
timed-IsCounted :
    (g : Gop) (o : Option ℤ)
    → IsCounted g
    → IsCounted (timed g o) × IsSpanned (timed g o).start_ms (timed g o).duration_ms o
timed-IsCounted g none h = (h, tt)
timed-IsCounted g (some ms) h =
    let d = (timed g (some ms)).duration_ms in
    (
      (h.0, h.1, AllSpanned-longer g.start_ms ms g.duration_ms d g.packets (omega arith) h.2),
      omega arith,
    )

count_packet-IsCounted :
    (g : Gop) (p : MediaPacket)
    → IsCounted g
    → IsSpanned g.start_ms g.duration_ms (timestamp_ms p)
    → IsCounted (count_packet p g)
count_packet-IsCounted g p h k = (
  omega (arith, payload_bytes-append g.packets (p ∷ []), h.0),
  omega (arith, length-append g.packets (p ∷ []), h.1),
  AllSpanned-append g.start_ms g.duration_ms g.packets p h.2 k,
)

pub push_packet-IsCounted : (g : Gop) (p : MediaPacket) → IsCounted g → IsCounted (push_packet g p)
unfolding push_packet
push_packet-IsCounted g p h =
    let r = timed-IsCounted g (timestamp_ms p) h in
    count_packet-IsCounted (timed g (timestamp_ms p)) p r.0 r.1

-- A sum over the groups, the current one last.
abbrev pub plain_sum : (Gop → ℕ) → List Gop → Option Gop → ℕ
plain_sum f [] current = of_current f current
plain_sum f (g ∷ gs) current = f g + plain_sum f gs current

abbrev pub AllAgree : (Gop → ℕ) → (Gop → ℕ) → List Gop → Option Gop → Type 0
AllAgree f h [] none = Unit {0}
AllAgree f h [] (some g) = min (f g) u64_max ≡ min (h g) u64_max
AllAgree f h (g ∷ gs) current = (min (f g) u64_max ≡ min (h g) u64_max) × AllAgree f h gs current

saturated_sum :
    (f h : Gop → ℕ) (acc : ℕ) (gs : List Gop) (current : Option Gop)
    → AllAgree f h gs current
    → sat_add (sum_of f acc gs) (of_current f current) ≡ min (acc + plain_sum h gs current) u64_max
unfolding sum_of
saturated_sum f h acc [] none a = omega arith
saturated_sum f h acc [] (some g) a = omega arith
saturated_sum f h acc (g ∷ gs) current a =
    saturated_sum f h (sat_add acc (f g)) gs current a.1 ∙ omega (arith, a.0)

pub total_of_lem :
    (f h : Gop → ℕ) (gs : List Gop) (current : Option Gop)
    → AllAgree f h gs current
    → total_of f gs current ≡ min (plain_sum h gs current) u64_max
unfolding total_of
total_of_lem f h gs current a = saturated_sum f h 0 gs current a ∙ omega arith
