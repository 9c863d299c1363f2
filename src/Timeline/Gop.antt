-- ===== src/Timeline/Gop.antt =====
-- crates/cheetah-media-timeline/src/gop.rs: the cache of groups of pictures.
pub mod Counts
pub mod Trim
pub mod Cache
pub mod Access
mod Tests
use cheetah_media_engine.Prelude.{
  ℕ, zero, suc, ◌+◌, Bool, true, false, not, ◌&&◌, ◌||◌, List, [], ◌∷◌, ◌++◌, length, Option, none,
  some, max, sat_add, ltb, ◌==◌, if◌then◌else◌,
}
use cheetah_media_engine.Prelude.Int.{ℤ, pos_part, ltb_ℤ, sat_sub_i64}
use cheetah_media_engine.Types.Time.{MediaTime, pts_ms, dts_ms}
use cheetah_media_engine.Types.Track.{StreamEpoch}
use cheetah_media_engine.Types.Packet.{MediaPacket}

pub record Gop : Type 0 where
  pub epoch : StreamEpoch
  pub config_generation : ℕ
  pub start_ms : Option ℤ
  pub end_ms : Option ℤ
  pub packets : List MediaPacket
  pub bytes : ℕ
  pub frames : ℕ
  pub duration_ms : ℕ

abbrev pub new_gop : StreamEpoch → ℕ → Option ℤ → Gop
new_gop epoch generation start = record {
  epoch = epoch;
  config_generation = generation;
  start_ms = start;
  end_ms = start;
  packets = [];
  bytes = 0;
  frames = 0;
  duration_ms = 0;
}

abbrev pub or_else : Option ℤ → Option ℤ → Option ℤ
or_else (some v) o = some v
or_else none o = o

abbrev pub timestamp_ms : MediaPacket → Option ℤ
timestamp_ms p = or_else (pts_ms p.time) (dts_ms p.time)

abbrev pub later_end : Option ℤ → ℤ → ℤ
later_end none ms = ms
later_end (some prev) ms = if ltb_ℤ prev ms then ms else prev

abbrev pub first_start : Option ℤ → ℤ → ℤ
first_start none ms = ms
first_start (some start) ms = start

-- The times of a group after a packet with a timestamp.
abbrev pub timed : Gop → Option ℤ → Gop
timed g none = g
timed g (some ms) = record g {
  end_ms = some (later_end g.end_ms ms);
  start_ms = some (first_start g.start_ms ms);
  duration_ms = max g.duration_ms (pos_part (sat_sub_i64 ms (first_start g.start_ms ms)));
}

abbrev pub count_packet : MediaPacket → Gop → Gop
count_packet p g = record g {
  bytes = sat_add g.bytes (length p.payload);
  frames = sat_add g.frames 1;
  packets = g.packets ++ p ∷ [];
}

pub push_packet : Gop → MediaPacket → Gop
push_packet g p = count_packet p (timed g (timestamp_ms p))

pub record GopLimits : Type 0 where
  pub max_bytes : ℕ
  pub max_frames : ℕ
  pub max_duration_ms : ℕ

abbrev pub default_limits : GopLimits
default_limits = record { max_bytes = 16777216; max_frames = 1024; max_duration_ms = 30000 }

pub record GopCache : Type 0 where
  pub gops : List Gop
  pub current : Option Gop
  pub current_config_generation : ℕ
  pub limits : GopLimits

abbrev pub new_cache : GopLimits → GopCache
new_cache limits = record {
  gops = [];
  current = none;
  current_config_generation = 0;
  limits = limits;
}

sum_of : (Gop → ℕ) → ℕ → List Gop → ℕ
sum_of f acc [] = acc
sum_of f acc (g ∷ gs) = sum_of f (sat_add acc (f g)) gs

abbrev pub of_current : (Gop → ℕ) → Option Gop → ℕ
of_current f none = 0
of_current f (some g) = f g

-- The three totals: of the finalized groups, then of the current one.
pub total_of : (Gop → ℕ) → List Gop → Option Gop → ℕ
unfolding sum_of
total_of f gops current = sat_add (sum_of f 0 gops) (of_current f current)

-- The condition of the loop of `trim`.
pub is_over : GopLimits → List Gop → Option Gop → Bool
is_over limits gops current =
    ltb limits.max_bytes (total_of (λ g. g.bytes) gops current)
    || (ltb limits.max_frames (total_of (λ g. g.frames) gops current)
        || ltb limits.max_duration_ms (total_of (λ g. g.duration_ms) gops current))

-- The oldest groups go first, and the current one last.
pub trim_loop : GopLimits → List Gop → Option Gop → List Gop × Option Gop
trim_loop limits [] current = if is_over limits [] current then ([], none) else ([], current)
trim_loop limits (g ∷ gs) current =
    let rest = trim_loop limits gs current in
    if is_over limits (g ∷ gs) current then rest else (g ∷ gs, current)

pub trim : GopCache → GopCache
trim c =
    let kept = trim_loop c.limits c.gops c.current in record c { gops = kept.0; current = kept.1 }

-- A current group is kept if it has a frame.
abbrev pub with_finalized : List Gop → Option Gop → List Gop
with_finalized gops none = gops
with_finalized gops (some g) = if ltb 0 g.frames then gops ++ g ∷ [] else gops

pub finalize_current : GopCache → GopCache
finalize_current c = record c { gops = with_finalized c.gops c.current; current = none }

-- A change of the decoder configuration drops everything.
abbrev pub change_config : GopCache → ℕ → GopCache
change_config c generation =
    if generation == c.current_config_generation
    then c
    else record c { gops = []; current = none; current_config_generation = generation }

abbrev pub start_gop : GopCache → MediaPacket → ℕ → GopCache
start_gop c p generation = record (finalize_current c) {
  current = some (new_gop p.stream_epoch generation (timestamp_ms p));
}

-- `gop.push` and `trim`, where a group is current.
add_to_current : GopCache → Option Gop → MediaPacket → GopCache
add_to_current c none p = c
add_to_current c (some g) p = trim (record c { current = some (push_packet g p) })

-- The packet in a cache of its configuration.
feed_same : GopCache → MediaPacket → ℕ → GopCache
unfolding add_to_current
feed_same c p generation =
    if p.flags.is_keyframe
    then (let s = start_gop c p generation in add_to_current s s.current p)
    else add_to_current c c.current p

pub feed : GopCache → MediaPacket → ℕ → GopCache
unfolding feed_same
feed c p generation = feed_same (change_config c generation) p generation

abbrev pub starts_by : ℤ → Option ℤ → Bool
starts_by t none = false
starts_by t (some s) = not (ltb_ℤ t s)

-- A group that a decoder of the generation can start from for the time.
abbrev pub usable : ℕ → ℤ → Gop → Bool
usable generation t g = g.config_generation == generation && starts_by t g.start_ms

-- The group found among the newer ones, else this one.
abbrev pub newer_or : (Gop → Bool) → Gop → Option Gop → Option Gop
newer_or test g (some h) = some h
newer_or test g none = if test g then some g else none

-- The search from the newest of the finalized groups to the oldest.
pub newest : (Gop → Bool) → List Gop → Option Gop
newest test [] = none
newest test (g ∷ gs) = newer_or test g (newest test gs)

abbrev pub current_if : (Gop → Bool) → Option Gop → Option Gop
current_if test none = none
current_if test (some g) = if test g then some g else none

abbrev pub or_current : Option Gop → Option Gop → Option Gop
or_current (some g) o = some g
or_current none o = o

pub random_access : GopCache → ℤ → Option Gop
unfolding newest
random_access c t =
    let test = usable c.current_config_generation t in
    or_current (newest test c.gops) (current_if test c.current)

-- The newest group that passes, and the groups without it.
take_newest : (Gop → Bool) → List Gop → Option (Gop × List Gop)
take_newest test [] = none
take_newest test (g ∷ gs) = elim (take_newest test gs) [
  | some (h, rest) ↦ some (h, g ∷ rest)
  | none ↦ (if test g then some (g, gs) else none)
]

abbrev take_current : (Gop → Bool) → GopCache → Option Gop → GopCache × Option Gop
take_current test c none = (c, none)
take_current test c (some g) = if test g then (record c { current = none }, some g) else (c, none)

pub take_random_access : GopCache → ℤ → GopCache × Option Gop
unfolding take_newest
take_random_access c t =
    let test = usable c.current_config_generation t in
    elim (take_newest test c.gops) [
      | some (g, rest) ↦ (record c { gops = rest }, some g)
      | none ↦ take_current test c c.current
    ]
