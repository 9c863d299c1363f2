-- ===== src/Mpegts/Section.antt =====
-- crates/cheetah-container-mpegts/src/section.rs: assembly of sections, and the tables in them.
pub mod Reassembly
mod Tests
use cheetah_media_engine.Prelude.{
  ℕ, zero, suc, ◌+◌, ◌-◌, ◌*◌, ◌%◌, ◌^◌, String, Bool, true, false, not, ◌&&◌, ◌||◌, List, [], ◌∷◌,
  ◌++◌, length, get_or, take, drop, Option, none, some, ltb, leb, ◌==◌, if◌then◌else◌,
}
use cheetah_media_engine.Mpegts.Error.{
  TsError, invalid_input, limit_exceeded, need_more_data, Parsed, ok, err,
}

abbrev pub max_section_size : ℕ
max_section_size = 4096

pub record SectionAssembler : Type 0 where
  pub buffer : List ℕ
  pub section_length : Option ℕ

abbrev pub new_assembler : SectionAssembler
new_assembler = record { buffer = []; section_length = none }

-- The 12-bit length field of a section, in its second and third byte.
abbrev pub length_field : List ℕ → ℕ
length_field xs = get_or xs 1 0 % 16 * 256 + get_or xs 2 0

-- `section_length` once the three bytes of the header are there.
abbrev pub learn : Option ℕ → List ℕ → Option ℕ
learn (some n) buffer = some n
learn none buffer = if leb 3 (length buffer) then some (length_field buffer + 3) else none

-- The complete section at the front of the buffer, if its length is known and reached.
abbrev pub complete : List ℕ → Option ℕ → SectionAssembler × Parsed (Option (List ℕ))
complete buffer none = (record { buffer = buffer; section_length = none }, ok none)
complete buffer (some n) =
    if leb n (length buffer)
    then (record { buffer = drop n buffer; section_length = none }, ok (some (take n buffer)))
    else (record { buffer = buffer; section_length = some n }, ok none)

-- An operation returns the assembler it leaves, also with an error.
pub append : SectionAssembler → List ℕ → SectionAssembler × Parsed (Option (List ℕ))
append a [] = (a, ok none)
append a (x ∷ xs) =
    let buffer = a.buffer ++ x ∷ xs in
    if ltb max_section_size (length buffer)
    then (record a { buffer = buffer }, err (limit_exceeded "section assembler"))
    else complete buffer (learn a.section_length buffer)

abbrev is_nil : List ℕ → Bool
is_nil [] = true
is_nil (x ∷ xs) = false

abbrev is_unknown : Option ℕ → Bool
is_unknown none = true
is_unknown (some n) = false

-- `completed.push`, after what was completed before.
abbrev pub collect :
    List (List ℕ)
    → SectionAssembler × Parsed (Option (List ℕ))
    → SectionAssembler × Parsed (List (List ℕ))
collect done (a, ok none) = (a, ok done)
collect done (a, ok (some s)) = (a, ok (done ++ s ∷ []))
collect done (a, err e) = (a, err e)

-- The tail of the previous section, in the `pointer` bytes before the new one.
abbrev finish_previous : SectionAssembler → ℕ → List ℕ → SectionAssembler × Parsed (List (List ℕ))
finish_previous a pointer rest =
    if ltb 0 pointer && not (is_nil a.buffer)
    then collect [] (append a (take pointer rest))
    else (a, ok [])

abbrev start_next :
    List ℕ → SectionAssembler × Parsed (List (List ℕ)) → SectionAssembler × Parsed (List (List ℕ))
start_next rest (a, err e) = (a, err e)
start_next rest (a, ok done) = collect done (append new_assembler rest)

-- A payload that starts a unit: the pointer and the bytes after it.
feed_start : SectionAssembler → ℕ → List ℕ → SectionAssembler × Parsed (List (List ℕ))
feed_start a pointer rest =
    if ltb (length rest + 1) (pointer + 1)
    then (a, err (invalid_input 2001 (some "PUSI pointer beyond payload")))
    else start_next (drop pointer rest) (finish_previous a pointer rest)

pub feed : SectionAssembler → List ℕ → Bool → SectionAssembler × Parsed (List (List ℕ))
unfolding feed_start
feed a [] true = (a, ok [])
feed a (pointer ∷ rest) true = feed_start a pointer rest
feed a payload false =
    if is_nil a.buffer && is_unknown a.section_length
    then (a, ok [])
    else collect [] (append a payload)

pub record PatEntry : Type 0 where
  pub program_number : ℕ
  pub pmt_pid : ℕ

-- The loop over the entries; the network entry, of programme 0, is left out.
pat_entries : List ℕ → Parsed (List PatEntry)
pat_entries [] = ok []
pat_entries (a ∷ b ∷ c ∷ d ∷ xs) = elim (pat_entries xs) [
  | err e ↦ err e
  | ok es ↦
      (if a * 256 + b == 0
        then ok es
        else ok (record { program_number = a * 256 + b; pmt_pid = (c * 256 + d) % 2 ^ 13 } ∷ es))
]
pat_entries _ = err (invalid_input 2005 (some "PAT entry truncated"))

-- `&data[8..data.len() - 4]`.
abbrev between : ℕ → List ℕ → List ℕ
between start xs = take (length xs - 4 - start) (drop start xs)

pat_body : List ℕ → Parsed (List PatEntry)
unfolding pat_entries
pat_body xs =
    if ltb (length xs) 12
    then err (invalid_input 2003 (some "PAT section too short"))
    else if not ((length xs - 12) % 4 == 0)
    then err (invalid_input 2004 (some "PAT entry length misaligned"))
    else pat_entries (between 8 xs)

pub parse_pat : List ℕ → Parsed (List PatEntry)
unfolding pat_body
parse_pat xs =
    if ltb (length xs) 8
    then err need_more_data
    else if not (get_or xs 0 0 == 0)
    then err (invalid_input 2002 (some "PAT table id mismatch"))
    else if ltb (length xs) (length_field xs + 3)
    then err need_more_data
    else pat_body (take (length_field xs + 3) xs)

pub record PmtStream : Type 0 where
  pub stream_type : ℕ
  pub elementary_pid : ℕ

-- The loop over the streams, after `skip` bytes of descriptors.
pmt_streams : ℕ → List ℕ → Parsed (List PmtStream)
pmt_streams (suc skip) (x ∷ xs) = pmt_streams skip xs
pmt_streams zero (t ∷ a ∷ b ∷ c ∷ d ∷ xs) =
    let es_info_length = (c * 256 + d) % 2 ^ 12 in
    elim (pmt_streams es_info_length xs) [
      | err e ↦
          (if ltb (length xs) es_info_length
            then err (invalid_input 2009 (some "PMT ES info overflow"))
            else err e)
      | ok ss ↦
          (if ltb (length xs) es_info_length
            then err (invalid_input 2009 (some "PMT ES info overflow"))
            else ok (record { stream_type = t; elementary_pid = (a * 256 + b) % 2 ^ 13 } ∷ ss))
    ]
pmt_streams _ _ = ok []

abbrev with_pcr : ℕ → Parsed (List PmtStream) → Parsed (ℕ × List PmtStream)
with_pcr pid (err e) = err e
with_pcr pid (ok ss) = ok (pid, ss)

pmt_body : List ℕ → Parsed (ℕ × List PmtStream)
unfolding pmt_streams
pmt_body xs =
    let start = 12 + (get_or xs 10 0 % 16 * 256 + get_or xs 11 0) in
    if ltb (length xs) 16
    then err (invalid_input 2007 (some "PMT section too short"))
    else if ltb (length xs - 4) start
    then err (invalid_input 2008 (some "PMT program info length overflow"))
    else with_pcr (get_or xs 8 0 % 32 * 256 + get_or xs 9 0) (pmt_streams 0 (between start xs))

-- The PID of the clock reference, and the streams.
pub parse_pmt : List ℕ → Parsed (ℕ × List PmtStream)
unfolding pmt_body
parse_pmt xs =
    if ltb (length xs) 12
    then err need_more_data
    else if not (get_or xs 0 0 == 2)
    then err (invalid_input 2006 (some "PMT table id mismatch"))
    else if ltb (length xs) (length_field xs + 3)
    then err need_more_data
    else pmt_body (take (length_field xs + 3) xs)
