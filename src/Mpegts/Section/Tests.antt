-- ===== src/Mpegts/Section/Tests.antt =====
-- A programme association section in three payloads.
use cheetah_media_engine.Prelude.{ℕ, ◌≡◌, refl, arith, List, [], ◌∷◌, some, true}
use cheetah_media_engine.Mpegts.Error.{ok}
use cheetah_media_engine.Mpegts.Section.{
  SectionAssembler, new_assembler, feed, parse_pat, pat_body, pat_entries,
}
use cheetah_media_engine.Mpegts.Section.Reassembly.{IsSection, feed_rest, feed_reassembles}

-- One programme, number 1, with its map at PID 256; the last four bytes are a checksum.
abbrev association : List ℕ
association = 0 ∷ 176 ∷ 13 ∷ 0 ∷ 1 ∷ 193 ∷ 0 ∷ 0 ∷ 0 ∷ 1 ∷ 225 ∷ 0 ∷ 5 ∷ 6 ∷ 7 ∷ 8 ∷ []

association-IsSection : IsSection association
association-IsSection = record { header = omega arith; own_length = refl; fits = omega arith }

-- An assembler in the middle of something else.
abbrev busy : SectionAssembler
busy = record { buffer = 2 ∷ 176 ∷ 30 ∷ 9 ∷ []; section_length = some 33 }

feed_reassembles_example :
    feed_rest
      ((13 ∷ 0 ∷ 1 ∷ 193 ∷ 0 ∷ 0 ∷ 0 ∷ []) ∷ [] ∷ (1 ∷ 225 ∷ 0 ∷ 5 ∷ 6 ∷ 7 ∷ 8 ∷ []) ∷ [])
      (feed busy (0 ∷ 0 ∷ 176 ∷ []) true)
    ≡ (new_assembler, ok (association ∷ []))
feed_reassembles_example =
    feed_reassembles busy 0 (176 ∷ [])
      ((13 ∷ 0 ∷ 1 ∷ 193 ∷ 0 ∷ 0 ∷ 0 ∷ []) ∷ [] ∷ (1 ∷ 225 ∷ 0 ∷ 5 ∷ 6 ∷ 7 ∷ 8 ∷ []) ∷ [])
      association association-IsSection refl

parsed_association : parse_pat association ≡ ok (record { program_number = 1; pmt_pid = 256 } ∷ [])
unfolding parse_pat pat_body pat_entries
parsed_association = refl
