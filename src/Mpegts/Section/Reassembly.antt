-- ===== src/Mpegts/Section/Reassembly.antt =====
-- A section comes out whole, however its bytes are cut into payloads.
use cheetah_media_engine.Prelude.{
  ℕ, zero, suc, ◌+◌, ◌≤◌, ◌<◌, ◌≡◌, refl, sym, ap, ◌∙◌, subst, arith, true, false, List, [], ◌∷◌,
  ◌++◌, length, length-append, append-nil, append_assoc, get_or, take, drop, none, some, ltb, leb,
  Bool-cases, inl, inr, ltb→lt, leb→le,
}
use cheetah_media_engine.Mpegts.Error.{Parsed, ok, err}
use cheetah_media_engine.Mpegts.Section.{
  SectionAssembler, new_assembler, max_section_size, length_field, learn, complete, append, collect,
  feed, feed_start,
}

-- A section that says its own length, and that the assembler has room for.
pub record IsSection (s : List ℕ) : Type 0 where
  pub header : 3 ≤ length s
  pub own_length : length s ≡ length_field s + 3
  pub fits : length s ≤ 4096

abbrev pub join : List (List ℕ) → List ℕ
join [] = []
join (c ∷ cs) = c ++ join cs

abbrev pub also :
    List (List ℕ)
    → SectionAssembler × Parsed (List (List ℕ))
    → SectionAssembler × Parsed (List (List ℕ))
also done (a, err e) = (a, err e)
also done (a, ok more) = (a, ok (done ++ more))

-- Payloads that continue a section, one after the other: the assembler and all that was completed.
abbrev pub feed_rest :
    List (List ℕ)
    → SectionAssembler × Parsed (List (List ℕ))
    → SectionAssembler × Parsed (List (List ℕ))
feed_rest [] r = r
feed_rest (c ∷ cs) (a, err e) = (a, err e)
feed_rest (c ∷ cs) (a, ok done) = feed_rest cs (also done (feed a c false))

-- The assembler while it holds the front of a section.
abbrev holding : List ℕ → SectionAssembler
holding b = record { buffer = b; section_length = learn none b }

get_or-append : (xs ys : List ℕ) (i : ℕ) → i < length xs → get_or (xs ++ ys) i 0 ≡ get_or xs i 0
get_or-append [] ys i h = absurd (omega arith)
get_or-append (x ∷ xs) ys zero h = refl
get_or-append (x ∷ xs) ys (suc i) h = get_or-append xs ys i (omega (arith, h))

length_field-append : (b c : List ℕ) → 3 ≤ length b → length_field (b ++ c) ≡ length_field b
length_field-append b c h =
    rw (get_or-append b c 1 (omega (arith, h)), get_or-append b c 2 (omega (arith, h))) refl

learn-append : (b c : List ℕ) → learn (learn none b) (b ++ c) ≡ learn none (b ++ c)
learn-append b c = elim (Bool-cases (leb 3 (length b))) [
  | inl known ↦
      let h : 3 ≤ length b = leb→le 3 (length b) known in
      let k : leb 3 (length (b ++ c)) ≡ true = ground (arith, h, length-append b c) in
      rw (known, k, length_field-append b c h) refl
  | inr short ↦ rw short refl
]

take_all : (xs : List ℕ) → take (length xs) xs ≡ xs
take_all [] = refl
take_all (x ∷ xs) = ap (λ ys. x ∷ ys) (take_all xs)

drop_all : (xs : List ℕ) → drop (length xs) xs ≡ []
drop_all [] = refl
drop_all (x ∷ xs) = drop_all xs

not_less : (a b : ℕ) → ltb a b ≡ false → b ≤ a
not_less a b h = ground arith

whole_front : (xs r s : List ℕ) → xs ++ r ≡ s → length s ≤ length xs → xs ≡ s
whole_front xs [] s e h = sym (append-nil xs) ∙ e
whole_front xs (x ∷ r) s e h = absurd (omega (arith, ap length e, length-append xs (x ∷ r), h))

-- With no section in progress, a continuation is ignored.
ignored : (c : List ℕ) → feed new_assembler c false ≡ (new_assembler, ok [])
unfolding feed
ignored [] = refl
ignored (x ∷ c) = refl

ignored_rest :
    (cs : List (List ℕ)) (done : List (List ℕ))
    → feed_rest cs (new_assembler, ok done) ≡ (new_assembler, ok done)
ignored_rest [] done = refl
ignored_rest (c ∷ cs) done = rw (ignored c, append-nil done) (ignored_rest cs done)

feed-holding :
    (y : ℕ) (b c : List ℕ)
    → feed (holding (y ∷ b)) c false ≡ collect [] (append (holding (y ∷ b)) c)
unfolding feed
feed-holding y b [] = refl
feed-holding y b (x ∷ c) = refl

module _ (s : List ℕ) (v : IsSection s) where
  complete-front :
      (b r : List ℕ)
      → b ++ r ≡ s
      → length b < length s
      → complete b (learn none b) ≡ (holding b, ok none)
  complete-front b r e h = elim (Bool-cases (leb 3 (length b))) [
    | inl known ↦
        let same : length_field s ≡ length_field b =
          subst (λ x. length_field x ≡ length_field b) e
            (length_field-append b r (leb→le 3 (length b) known)) in
        let short : leb (length_field b + 3) (length b) ≡ false =
          ground (arith, same, v.own_length, h) in
        rw (known, short) refl
    | inr short ↦ rw short refl
  ]

  complete-whole : complete s (learn none s) ≡ (new_assembler, ok (some s))
  complete-whole =
      let known : leb 3 (length s) ≡ true = ground (arith, v.header) in
      let full : leb (length s) (length s) ≡ true = ground arith in
      rw (known, ← v.own_length, full, take_all s, drop_all s) refl

  append-step :
      (b : List ℕ) (x : ℕ) (c r : List ℕ)
      → (b ++ x ∷ c) ++ r ≡ s
      → append (holding b) (x ∷ c) ≡ complete (b ++ x ∷ c) (learn none (b ++ x ∷ c))
  append-step b x c r e =
      let inside : ltb max_section_size (length (b ++ x ∷ c)) ≡ false =
        ground (arith, v.fits, ap length e, length-append (b ++ x ∷ c) r) in
      unfold append in rw (inside, learn-append b (x ∷ c)) refl

  append-front :
      (b c r : List ℕ)
      → (b ++ c) ++ r ≡ s
      → length (b ++ c) < length s
      → append (holding b) c ≡ (holding (b ++ c), ok none)
  append-front b [] r e h = unfold append in ap (λ d. (holding d, ok none)) (sym (append-nil b))
  append-front b (x ∷ c) r e h = append-step b x c r e ∙ complete-front (b ++ x ∷ c) r e h

  append-last :
      (b : List ℕ) (x : ℕ) (c : List ℕ)
      → b ++ x ∷ c ≡ s
      → append (holding b) (x ∷ c) ≡ (new_assembler, ok (some s))
  append-last b x c e =
      append-step b x c [] (append-nil (b ++ x ∷ c) ∙ e)
      ∙ ap (λ d. complete d (learn none d)) e
      ∙ complete-whole

  ended :
      (c : List ℕ) (cs : List (List ℕ)) (y : ℕ) (b : List ℕ) (done : List (List ℕ))
      → (y ∷ b) ++ join (c ∷ cs) ≡ s
      → length (y ∷ b) < length s
      → length s ≤ length ((y ∷ b) ++ c)
      → feed_rest (c ∷ cs) (holding (y ∷ b), ok done) ≡ (new_assembler, ok (done ++ s ∷ []))
  ended [] cs y b done e h more = absurd (omega (arith, length-append (y ∷ b) [], h, more))
  ended (x ∷ c) cs y b done e h more =
      let whole : (y ∷ b) ++ x ∷ c ≡ s =
        whole_front ((y ∷ b) ++ x ∷ c) (join cs) s (append_assoc (y ∷ b) (x ∷ c) (join cs) ∙ e)
          more in
      rw (feed-holding y b (x ∷ c), append-last (y ∷ b) x c whole)
        (ignored_rest cs (done ++ s ∷ []))

  continued :
      (cs : List (List ℕ)) (y : ℕ) (b : List ℕ) (done : List (List ℕ))
      → (y ∷ b) ++ join cs ≡ s
      → length (y ∷ b) < length s
      → feed_rest cs (holding (y ∷ b), ok done) ≡ (new_assembler, ok (done ++ s ∷ []))
  continued [] y b done e h = absurd (omega (arith, ap length e, length-append (y ∷ b) [], h))
  continued (c ∷ cs) y b done e h = elim (Bool-cases (ltb (length ((y ∷ b) ++ c)) (length s))) [
    | inl less ↦
        let split : ((y ∷ b) ++ c) ++ join cs ≡ s = append_assoc (y ∷ b) c (join cs) ∙ e in
        let h' = ltb→lt (length ((y ∷ b) ++ c)) (length s) less in
        rw (feed-holding y b c, append-front (y ∷ b) c (join cs) split h', append-nil done)
          (continued cs y (b ++ c) done split h')
    | inr more ↦ ended c cs y b done e h (not_less (length ((y ∷ b) ++ c)) (length s) more)
  ]

-- However a section of at most 4096 bytes, as long as its length field says, is cut into payloads,
-- the first of which has a byte of it right after a zero pointer and the others of which continue
-- it, feeding them completes exactly this section, once, and leaves an assembler that holds
-- nothing. What the assembler held before does not matter.
pub feed_reassembles :
    (a : SectionAssembler) (y : ℕ) (first : List ℕ) (rest : List (List ℕ)) (s : List ℕ)
    → IsSection s
    → (y ∷ first) ++ join rest ≡ s
    → feed_rest rest (feed a (0 ∷ y ∷ first) true) ≡ (new_assembler, ok (s ∷ []))
unfolding feed feed_start
feed_reassembles a y first rest s v e =
    let inside : ltb (length (y ∷ first) + 1) (0 + 1) ≡ false = ground arith in
    elim (Bool-cases (ltb (length (y ∷ first)) (length s))) [
      | inl less ↦
          let h = ltb→lt (length (y ∷ first)) (length s) less in
          rw (inside, append-front s v [] (y ∷ first) (join rest) e h)
            (continued s v rest y first [] e h)
      | inr more ↦
          let whole : y ∷ first ≡ s =
            whole_front (y ∷ first) (join rest) s e
              (not_less (length (y ∷ first)) (length s) more) in
          rw (inside, append-last s v [] y first whole) (ignored_rest rest (s ∷ []))
    ]
