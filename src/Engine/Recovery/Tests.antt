-- ===== src/Engine/Recovery/Tests.antt =====
-- The theorems on recovery at concrete policies and trackers.
use cheetah_media_engine.Prelude.{◌≤◌, ◌≡◌, refl, [], ◌∷◌}
use cheetah_media_engine.Engine.Recovery.{
  fallback_backend, retry, RecoveryTracker, default_player, budget, in_window, attempts,
  record_attempt, decide, classify, delay_for,
}
use cheetah_media_engine.Engine.Recovery.Decide.{chain, first_within, decide-first_within}
use cheetah_media_engine.Engine.Recovery.Window.{retry_bounded}
use cheetah_media_engine.Engine.Recovery.Classify.{Picks, classify-Picks}

-- Two falls to another backend for the decoder error 7.
abbrev two_falls : RecoveryTracker
two_falls = record {
  history =
      record { code = 7; stage = "decoder"; action = fallback_backend; at_ms = 100 }
      ∷ record { code = 7; stage = "decoder"; action = fallback_backend; at_ms = 30000 }
      ∷ [];
}

decide-first_within_example :
    decide default_player 7 "decoder" 31000 (attempts two_falls 7 "decoder")
    ≡ first_within default_player 31000
        (attempts two_falls 7 "decoder")
        (chain (classify default_player 7 "decoder"))
decide-first_within_example =
    decide-first_within default_player 31000 (attempts two_falls 7 "decoder") 7 "decoder"

second_fall :
    decide default_player 7 "decoder" 31000 (attempts two_falls 7 "decoder")
    ≡ retry fallback_backend 1000 1
unfolding decide classify in_window attempts delay_for
second_fall = refl

retry_bounded_example :
    in_window (budget default_player fallback_backend) 31000 (
      attempts
        (record_attempt two_falls 7 "decoder" fallback_backend 31000)
        7
        "decoder"
        fallback_backend)
    ≤ 2
retry_bounded_example =
    retry_bounded default_player two_falls 7 "decoder" 31000 fallback_backend 1000 1 second_fall

classify-Picks_example :
    Picks 7 "decoder/h264" default_player.rules (classify default_player 7 "decoder/h264")
classify-Picks_example = classify-Picks 7 "decoder/h264" default_player
