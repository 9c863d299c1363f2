-- ===== src/Bitstream/Rbsp/Tests.antt =====
-- The round trip at a payload with zeros.
use cheetah_media_engine.Prelude.{◌≡◌, [], ◌∷◌}
use cheetah_media_engine.Bitstream.Rbsp.{unescape_rbsp}
use cheetah_media_engine.Bitstream.Rbsp.RoundTrip.{escape, unescape_rbsp-escape}

unescape_rbsp-escape_example :
    unescape_rbsp (escape 0 (103 ∷ 0 ∷ 0 ∷ 0 ∷ 0 ∷ 3 ∷ 255 ∷ 0 ∷ 0 ∷ []))
    ≡ 103 ∷ 0 ∷ 0 ∷ 0 ∷ 0 ∷ 3 ∷ 255 ∷ 0 ∷ 0 ∷ []
unescape_rbsp-escape_example = unescape_rbsp-escape (103 ∷ 0 ∷ 0 ∷ 0 ∷ 0 ∷ 3 ∷ 255 ∷ 0 ∷ 0 ∷ [])
