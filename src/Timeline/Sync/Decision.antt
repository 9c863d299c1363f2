-- ===== src/Timeline/Sync/Decision.antt =====
-- What the synchroniser decides about a frame.
use cheetah_media_engine.Prelude.{
  ◌+◌, ◌<◌, ◌&&◌, arith, ltb→lt, Bool, true, false, ◌≡◌, ◌⊎◌, inl, inr, refl, Bool-cases, unwrap_or,
}
use cheetah_media_engine.Prelude.Int.{ℤ, pos, pos_part, neg_part, ◌≤ℤ◌, ◌-ℤ◌, clamp_i64}
use cheetah_media_engine.Types.Time.{MediaTime}
use cheetah_media_engine.Types.Track.{StreamEpoch}
use cheetah_media_engine.Timeline.Clock.{MediaClock, ok, update}
use cheetah_media_engine.Timeline.Sync.{
  AvSync, SyncDecision, render, drop_frame, hold, feed_video, choose, is_ahead, is_late, drift_of,
  presented_ms, seen,
}

infix 50 ◌<ℤ◌
abbrev pub ◌<ℤ◌ : ℤ → ℤ → Type 0
a <ℤ b = pos_part a + neg_part b < pos_part b + neg_part a

-- The drift of a frame from the audio, in milliseconds: how much later the frame is presented than the
-- last audio sample, and zero where there was none.
abbrev pub frame_drift : AvSync → ℤ → ℤ
frame_drift s video_ms = clamp_i64 (video_ms -ℤ unwrap_or s.last_audio_ms video_ms)

-- Nothing is wrong with a frame without audio. With it a frame is rendered inside of the window, and
-- a keyframe also behind it; ahead of it a keyframe is held and another frame dropped; behind it a
-- frame that is no keyframe is dropped.
abbrev pub IsFair : AvSync → ℤ → ℤ → Bool → SyncDecision → Type 0
IsFair s drift time key (render t) =
    (t ≡ time)
    × ((s.audio_available ≡ false)
        ⊎ ((drift ≤ℤ s.max_drift_ms) × ((key ≡ true) ⊎ (pos 0 -ℤ s.late_threshold_ms ≤ℤ drift))))
IsFair s drift time key (hold t) =
    (key ≡ true)
    × (s.audio_available ≡ true)
    × (s.max_drift_ms <ℤ drift)
    × (t ≡ unwrap_or s.last_audio_clock time)
IsFair s drift time key (drop_frame reason) =
    (key ≡ false)
    × (s.audio_available ≡ true)
    × ((s.max_drift_ms <ℤ drift) ⊎ (drift <ℤ pos 0 -ℤ s.late_threshold_ms))

and_true : (a b : Bool) → (a && b) ≡ true → (a ≡ true) × (b ≡ true)
and_true a b e = ground arith

and_false : (a b : Bool) → (a && b) ≡ false → (a ≡ false) ⊎ (b ≡ false)
and_false a b e = ground arith

ahead_of_window :
    (s : AvSync) (drift : ℤ)
    → is_ahead s drift ≡ true
    → (s.audio_available ≡ true) × (s.max_drift_ms <ℤ drift)
ahead_of_window s drift e = let p = and_true _ _ e in (p.0, ltb→lt _ _ p.1)

behind_window :
    (s : AvSync) (drift : ℤ)
    → is_late s drift ≡ true
    → (s.audio_available ≡ true) × (drift <ℤ pos 0 -ℤ s.late_threshold_ms)
behind_window s drift e = let p = and_true _ _ e in (p.0, ltb→lt _ _ p.1)

not_ahead :
    (s : AvSync) (drift : ℤ)
    → is_ahead s drift ≡ false
    → (s.audio_available ≡ false) ⊎ (drift ≤ℤ s.max_drift_ms)
not_ahead s drift e = elim (and_false _ _ e) [
  | inl silent ↦ inl silent
  | inr small ↦ inr (ground arith)
]

not_late :
    (s : AvSync) (drift : ℤ)
    → is_late s drift ≡ false
    → (s.audio_available ≡ false) ⊎ (pos 0 -ℤ s.late_threshold_ms ≤ℤ drift)
not_late s drift e = elim (and_false _ _ e) [
  | inl silent ↦ inl silent
  | inr small ↦ inr (ground arith)
]

-- A frame that is not ahead is rendered if it is a keyframe or not late.
rendered-IsFair :
    (s : AvSync) (drift time : ℤ) (key : Bool)
    → is_ahead s drift ≡ false
    → (key ≡ true) ⊎ (is_late s drift ≡ false)
    → IsFair s drift time key (render time)
rendered-IsFair s drift time key a k = elim (not_ahead s drift a) [
  | inl silent ↦ (refl, inl silent)
  | inr fits ↦ elim k [
    | inl keyframe ↦ (refl, inr (fits, inl keyframe))
    | inr l ↦ elim (not_late s drift l) [
      | inl silent ↦ (refl, inl silent)
      | inr fresh ↦ (refl, inr (fits, inr fresh))
    ]
  ]
]

choose-IsFair :
    (s : AvSync) (drift time : ℤ) (key : Bool) → IsFair s drift time key (choose s drift time key).1
choose-IsFair s drift time true = elim (Bool-cases (is_ahead s drift)) [
  | inl a ↦ let p = ahead_of_window s drift a in rw a (refl, p.0, p.1, refl)
  | inr a ↦ elim (Bool-cases (is_late s drift)) [
    | inl l ↦ rw (a, l) (rendered-IsFair s drift time true a (inl refl))
    | inr l ↦ rw (a, l) (rendered-IsFair s drift time true a (inl refl))
  ]
]
choose-IsFair s drift time false = elim (Bool-cases (is_ahead s drift)) [
  | inl a ↦ let p = ahead_of_window s drift a in rw a (refl, p.0, inl p.1)
  | inr a ↦ elim (Bool-cases (is_late s drift)) [
    | inl l ↦ let p = behind_window s drift l in rw (a, l) (refl, p.0, inr p.1)
    | inr l ↦ rw (a, l) (rendered-IsFair s drift time false a (inr l))
  ]
]

-- What becomes of a frame that the clock places at the time `t`, by its drift from the last audio
-- sample. While no audio plays it is rendered at `t`. Otherwise, a keyframe is never dropped: it is
-- rendered at `t` unless its drift is above the greatest one allowed, and then held until the time that
-- the clock gave the last audio sample. Another frame is never held: it is rendered at `t` with a drift
-- from minus the late threshold to the greatest one allowed, and dropped with any other.
pub feed_video-IsFair :
    (s : AvSync) (time : MediaTime) (key : Bool) (epoch : StreamEpoch) (clock : MediaClock) (t : ℤ)
    → update s.clock time epoch ≡ ok (clock, t)
    → (r : AvSync × SyncDecision) × (feed_video s time key epoch ≡ ok r)
      × IsFair s (frame_drift s (presented_ms time t)) t key r.1
unfolding feed_video
feed_video-IsFair s time key epoch clock t e =
    let video_ms = presented_ms time t in
    (
      choose (seen s clock video_ms) (drift_of s video_ms) t key,
      rw e refl,
      choose-IsFair (seen s clock video_ms) (drift_of s video_ms) t key,
    )
