-- ===== src/Mpegts/Pes/Assembly.antt =====
-- The assembly of a PES packet from its pieces.
use cheetah_media_engine.Prelude.{
  ℕ, ◌+◌, ◌≤◌, ◌<◌, ◌≡◌, refl, sym, ap, List, [], ◌∷◌, ◌++◌, true, false, length, length-append,
  append_assoc, append-nil, some, ltb, leb, ◌==◌, arith, sat_add,
}
use cheetah_media_engine.Mpegts.Error.{Parsed, ok, err}
use cheetah_media_engine.Mpegts.Pes.{
  PesHeader, PesOutput, PesAssembler, new_pes, parse_pes_header, starts_pes, slice, try_complete,
  feed, start_packet, max_pes_size, flush, after,
}

-- An assembler in the middle of a packet whose header `h` announced `n` bytes.
abbrev pub inside : PesHeader → ℕ → List ℕ → PesAssembler
inside h n raw = record {
  raw = raw;
  expected_length = some n;
  header_parsed = true;
  parsed = some h;
}

abbrev pub whole : PesHeader → ℕ → List ℕ → PesOutput
whole h n raw = record { header = h; payload = slice h.header_size n raw }

fits :
    (raw piece : List ℕ)
    → length raw + length piece ≤ max_pes_size
    → ltb max_pes_size (sat_add (length raw) (length piece)) ≡ false
fits raw piece h = ground arith

some_bytes : (raw : List ℕ) → 0 < length raw → (length raw == 0) ≡ false
some_bytes raw h = ground arith

-- A further piece of a packet is kept while the packet is incomplete.
feed-inside :
    (h : PesHeader) (n : ℕ) (raw piece : List ℕ)
    → 0 < length raw
    → length raw + length piece ≤ max_pes_size
    → length raw + length piece < n
    → feed (inside h n raw) piece false ≡ (inside h n (raw ++ piece), ok [])
unfolding feed try_complete
feed-inside h n raw piece p fit less =
    let short : leb n (length (raw ++ piece)) ≡ false = ground (arith, length-append raw piece) in
    rw (some_bytes raw p, fits raw piece fit, short) refl

feed_last :
    (h : PesHeader) (n : ℕ) (raw piece : List ℕ)
    → 0 < length raw
    → length raw + length piece ≤ max_pes_size
    → n ≤ length raw + length piece
    → feed (inside h n raw) piece false ≡ (new_pes, ok (whole h n (raw ++ piece) ∷ []))
unfolding feed try_complete
feed_last h n raw piece p fit enough =
    let long : leb n (length (raw ++ piece)) ≡ true = ground (arith, length-append raw piece) in
    rw (some_bytes raw p, fits raw piece fit, long) refl

-- The pieces after the first one, fed in order; an error ends the run.
abbrev join_outputs :
    PesAssembler × Parsed (List PesOutput)
    → (PesAssembler → PesAssembler × Parsed (List PesOutput))
    → PesAssembler × Parsed (List PesOutput)
join_outputs (a, ok outputs) go = after outputs (go a)
join_outputs (a, err e) go = (a, err e)

pub feed_pieces : PesAssembler → List (List ℕ) → PesAssembler × Parsed (List PesOutput)
feed_pieces a [] = (a, ok [])
feed_pieces a (piece ∷ pieces) = join_outputs (feed a piece false) (λ b. feed_pieces b pieces)

abbrev pub concat : List (List ℕ) → List ℕ
concat [] = []
concat (piece ∷ pieces) = piece ++ concat pieces

feed_pieces-inside :
    (h : PesHeader) (n : ℕ) (raw last : List ℕ) (pieces : List (List ℕ))
    → 0 < length raw
    → length raw + length (concat pieces) < n
    → n ≤ length raw + length (concat pieces) + length last
    → length raw + length (concat pieces) + length last ≤ max_pes_size
    → feed_pieces (inside h n raw) (pieces ++ last ∷ [])
      ≡ (new_pes, ok (whole h n (raw ++ concat pieces ++ last) ∷ []))
unfolding feed_pieces
feed_pieces-inside h n raw last [] p less enough fit =
    rw (feed_last h n raw last p (omega arith) (omega arith))
      (ap (λ bytes. (new_pes, ok (whole h n (bytes ++ last) ∷ []))) (sym (append-nil raw)))
feed_pieces-inside h n raw last (piece ∷ pieces) p less enough fit =
    let l = length-append piece (concat pieces) in
    let m = length-append raw piece in
    rw
      (
        feed-inside h n raw piece p (omega arith) (omega arith),
        feed_pieces-inside h n (raw ++ piece) last pieces (omega arith) (omega arith) (omega arith)
            (omega arith),
      )
      (ap (λ bytes. (new_pes, ok (whole h n (bytes ++ last) ∷ [])))
        (append_assoc raw piece (concat pieces)))

-- The first piece of a packet with a complete header, whose packet is longer than the piece.
start_inside :
    (h : PesHeader) (first : List ℕ)
    → 9 ≤ length first
    → starts_pes first ≡ true
    → parse_pes_header first ≡ ok h
    → 0 < h.packet_length
    → h.header_size ≤ h.packet_length + 6
    → length first < h.packet_length + 6
    → feed new_pes first true ≡ (inside h (h.packet_length + 6) first, ok [])
unfolding feed start_packet flush try_complete
start_inside h first long start e p room less =
    let t1 : ltb (length first) 3 ≡ false = ground arith in
    let t2 : ltb (length first) 9 ≡ false = ground arith in
    let t3 : (h.packet_length == 0) ≡ false = ground arith in
    let t4 : ltb (h.packet_length + 6) h.header_size ≡ false = ground arith in
    let t5 : leb (h.packet_length + 6) (length first) ≡ false = ground arith in
    rw (t1, start, t2, e, t3, t4, t5) refl

-- A packet of a known length comes out once, with the payload between its header and its
-- length, however it is cut into pieces, if the first piece has the whole header and the
-- packet ends in the last piece.
pub feed_assembles :
    (h : PesHeader) (first last : List ℕ) (pieces : List (List ℕ))
    → 9 ≤ length first
    → starts_pes first ≡ true
    → parse_pes_header first ≡ ok h
    → 0 < h.packet_length
    → h.header_size ≤ h.packet_length + 6
    → length first + length (concat pieces) < h.packet_length + 6
    → h.packet_length + 6 ≤ length first + length (concat pieces) + length last
    → length first + length (concat pieces) + length last ≤ max_pes_size
    → (feed new_pes first true ≡ (inside h (h.packet_length + 6) first, ok []))
      × (feed_pieces (inside h (h.packet_length + 6) first) (pieces ++ last ∷ [])
          ≡ (new_pes, ok (whole h (h.packet_length + 6) (first ++ concat pieces ++ last) ∷ [])))
feed_assembles h first last pieces long start e p room less enough fit = (
  start_inside h first long start e p room (omega arith),
  feed_pieces-inside h (h.packet_length + 6) first last pieces (omega arith) less enough fit,
)
