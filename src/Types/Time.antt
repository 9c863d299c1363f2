-- ===== src/Types/Time.antt =====
-- crates/cheetah-media-types/src/time.rs: timebases, timestamps and media times.
-- A timestamp or a duration is its ticks. An i64 is an integer with its range checked where the source checks it.
pub mod Unwrap
pub mod Rescale
pub mod Reduce
mod Tests
use cheetah_media_engine.Prelude.{
  ℕ, zero, suc, ◌+◌, ◌-◌, ◌*◌, ◌/◌, ◌%◌, ◌^◌, ◌<◌, Bool, true, false, ◌&&◌, ◌||◌, Option, none,
  some, and_then, map_option, ltb, leb, ◌==◌, if◌then◌else◌, arith,
}
use cheetah_media_engine.Prelude.Int.{ℤ, pos, negsuc, ◌+ℤ◌, ◌-ℤ◌, ltb_ℤ}
use cheetah_media_engine.Types.Error.{invalid_input, internal_invariant, Result, ok, err, ◌>>=◌}
use native.Mathlib.Decide.{ℕ_discrete}

-- The loop of `gcd_u64`, with the rounds that are left: the second number decreases.
pub gcd_loop : ℕ → ℕ → ℕ → ℕ
gcd_loop zero a b = a
gcd_loop (suc n) a zero = a
gcd_loop (suc n) a (suc b) = gcd_loop n (suc b) (a % suc b)

pub gcd_u64 : ℕ → ℕ → ℕ
unfolding gcd_loop
gcd_u64 a b = gcd_loop (suc b) a b

pub record TimeBase : Type 0 where
  pub num : ℕ
  pub den : ℕ

pub TimeBase-discrete : Discrete TimeBase
TimeBase-discrete = hlevel ℕ_discrete

abbrev pub default_timebase : TimeBase
default_timebase = record { num = 1; den = 1000 }

abbrev pub ts_90k : TimeBase
ts_90k = record { num = 1; den = 90000 }

pub new_timebase : ℕ → ℕ → Option TimeBase
new_timebase n d =
    if n == 0 || d == 0
    then none
    else some (record { num = n / gcd_u64 n d; den = d / gcd_u64 n d })

pub from_timescale : ℕ → Option TimeBase
from_timescale ticks_per_second = new_timebase 1 ticks_per_second

pub ticks_per_second : TimeBase → Option ℕ
ticks_per_second t = if t.num == 1 then some t.den else none

-- `i64::try_from` and `i128::checked_mul` succeed on these.
abbrev pub in_i64 : ℤ → Bool
in_i64 (pos n) = ltb n (2 ^ 63)
in_i64 (negsuc n) = ltb n (2 ^ 63)

abbrev pub in_i128 : ℤ → Bool
in_i128 (pos n) = ltb n (2 ^ 127)
in_i128 (negsuc n) = ltb n (2 ^ 127)

-- The negative of a natural number.
abbrev pub neg : ℕ → ℤ
neg zero = pos 0
neg (suc n) = negsuc n

abbrev pub times : ℤ → ℕ → ℤ
times (pos n) k = pos (n * k)
times (negsuc n) k = neg ((n + 1) * k)

-- Division of an integer by a positive number, truncated toward zero.
abbrev pub quotient : ℤ → ℕ → ℤ
quotient (pos n) d = pos (n / d)
quotient (negsuc n) d = neg ((n + 1) / d)

checked_times : ℤ → ℕ → Option ℤ
checked_times v k = let p = times v k in if in_i128 p then some p else none

numerator : ℤ → ℕ → ℕ → Option ℤ
numerator v a b = and_then (checked_times v a) (λ w. checked_times w b)

-- The quotient with the range checks of the denominator and of the result.
checked_quotient : Option ℤ → ℕ → Result ℤ
checked_quotient none d = err (internal_invariant "time rescale numerator overflow")
checked_quotient (some n) d =
    if ltb d (2 ^ 127)
    then (if in_i64 (quotient n d)
        then ok (quotient n d)
        else err (internal_invariant "time rescale result out of i64 range"))
    else err (internal_invariant "time rescale denominator overflow")

unfoldable pub rescale_i64 : TimeBase → ℤ → TimeBase → Result ℤ
unfolding checked_times numerator checked_quotient
rescale_i64 self value target =
    if self.num == target.num && self.den == target.den
    then ok value
    else checked_quotient (numerator value self.num target.den) (self.den * target.num)

-- `value & (2^bits - 1)` of a two's complement number, for a modulus `m = 2^bits`.
abbrev pub low_part : ℤ → ℕ → ℕ
low_part (pos n) m = n % m
low_part (negsuc n) m = m - 1 - n % m

-- The wrap that brings `low` within half a turn of `prev_low`.
adjust : ℕ → ℕ → ℕ → ℤ
adjust low prev_low half =
    if ltb (prev_low + half) low
    then neg (2 * half)
    else if ltb (low + half) prev_low
    then pos (2 * half)
    else pos 0

unwrapped : ℤ → ℤ → ℕ → ℤ
unwrapped value prev bits =
    let m = 2 ^ bits in
    prev
    -ℤ pos (low_part prev m)
    +ℤ pos (low_part value m)
    +ℤ adjust (low_part value m) (low_part prev m) (2 ^ (bits - 1))

pub unwrapped_around : ℤ → ℤ → ℕ → ℤ
unwrapped_around self previous bits =
    if leb 1 bits && leb bits 62
    then (let r = unwrapped self previous bits in if in_i64 r then r else self)
    else self

pub looks_wrapped_before : ℤ → ℤ → ℤ → Bool
looks_wrapped_before self other threshold = ltb_ℤ self other && ltb_ℤ threshold (other -ℤ self)

unfoldable pub checked_add : ℤ → ℤ → Option ℤ
checked_add a b = let s = a +ℤ b in if in_i64 s then some s else none

pub checked_sub : ℤ → ℤ → Option ℤ
checked_sub a b = let s = a -ℤ b in if in_i64 s then some s else none

pub record MediaTime : Type 0 where
  pub pts : Option ℤ
  pub dts : Option ℤ
  pub duration : Option ℤ
  pub timebase : TimeBase

pub from_pts_dts : ℤ → ℤ → TimeBase → MediaTime
from_pts_dts p d tb = record { pts = some p; dts = some d; duration = none; timebase = tb }

from_ticks : Option ℤ → Option ℤ → Option ℤ → TimeBase → MediaTime
from_ticks p d len tb = record { pts = p; dts = d; duration = len; timebase = tb }

time_from_timescale : Option ℤ → Option ℤ → Option ℤ → ℕ → Result MediaTime
unfolding from_ticks
time_from_timescale p d len ticks = elim (from_timescale ticks) [
  | none ↦ err (invalid_input 1001 (some "timescale must be non-zero"))
  | some tb ↦ ok (from_ticks p d len tb)
]

abbrev is_some : Option ℤ → Bool
is_some none = false
is_some (some v) = true

pub has_timestamp : MediaTime → Bool
has_timestamp t = is_some t.pts || is_some t.dts

-- `Result::ok`.
abbrev to_option : Result ℤ → Option ℤ
to_option (ok v) = some v
to_option (err e) = none

unfoldable pub pts_ms : MediaTime → Option ℤ
pts_ms t = and_then t.pts (λ v. to_option (rescale_i64 t.timebase v default_timebase))

unfoldable pub dts_ms : MediaTime → Option ℤ
dts_ms t = and_then t.dts (λ v. to_option (rescale_i64 t.timebase v default_timebase))

-- `Option::map` of a fallible step, then `transpose`.
abbrev pub rescale_field : TimeBase → TimeBase → Option ℤ → Result (Option ℤ)
rescale_field self target none = ok none
rescale_field self target (some v) = rescale_i64 self v target >>= λ w. ok (some w)

pub rescale : MediaTime → TimeBase → Result MediaTime
rescale t target = do
  p ← rescale_field t.timebase target t.pts
  d ← rescale_field t.timebase target t.dts
  len ← rescale_field t.timebase target t.duration
  ok (record { pts = p; dts = d; duration = len; timebase = target })

-- An unknown timestamp stays unknown; a known one is shifted, and the shift may fail.
abbrev pub shift_field : (ℤ → Option ℤ) → Option ℤ → Option (Option ℤ)
shift_field f none = some none
shift_field f (some v) = map_option some (f v)

abbrev shift : (ℤ → Option ℤ) → MediaTime → Option MediaTime
shift f t =
    and_then (shift_field f t.pts)
      (λ p. map_option (λ d. record t { pts = p; dts = d }) (shift_field f t.dts))

pub time_checked_add : MediaTime → ℤ → Option MediaTime
time_checked_add t rhs = shift (λ v. checked_add v rhs) t

pub time_checked_sub : MediaTime → ℤ → Option MediaTime
time_checked_sub t rhs = shift (λ v. checked_sub v rhs) t

pub is_before : MediaTime → MediaTime → Option Bool
is_before self other = and_then self.pts (λ a. map_option (λ b. ltb_ℤ a b) other.pts)

-- `a.or(b)`.
abbrev or_else : Option ℤ → Option ℤ → Option ℤ
or_else none b = b
or_else (some a) b = some a

-- A field is unwrapped where both it and its reference are known.
abbrev unwrap_field : Option ℤ → Option ℤ → Option ℤ
unwrap_field none prev = none
unwrap_field (some v) none = some v
unwrap_field (some v) (some prev) = some (unwrapped_around v prev 33)

pub unwrapped_33bit : MediaTime → MediaTime → MediaTime
unwrapped_33bit self previous = record self {
  pts = unwrap_field self.pts previous.pts;
  dts = unwrap_field self.dts (or_else previous.dts previous.pts);
}
