-- ===== src/Stream/Sse/Chunks.antt =====
-- interceptor/stream/sse_parser.py: `feed` on a text that is cut into pieces.
use ctxins.Base.{
  ℕ, zero, suc, ◌+◌, ◌<◌, ◌≡◌, refl, sym, ap, ◌∙◌, ◌⊎◌, inl, inr, List, [], ◌∷◌, ◌++◌, Option, none,
  some, arith, append_assoc, length, take, drop, Option-cases, Result, ok, raise, Exception,
}
use ctxins.Stream.Sse.{
  Text, CharTables, Pending, SseEvent, SseParser, next_break, process_line, emit, go_on, rounds,
  feed_text,
}
use ctxins.Stream.Sse.Lines.{scan, cut_line, at_break, next_break-cut_line}

scan-shrinks :
    (c : ℕ) (cs : Text) (later : Option (Text × Text)) {line rest : Text}
    → ((l r : Text) → later ≡ some (l, r) → length r < length cs)
    → scan c cs later ≡ some (line, rest)
    → length rest < suc (length cs)
scan-shrinks c [] none ih h = ground arith
scan-shrinks c (d ∷ cs) none ih h = ground arith
scan-shrinks c [] (some (l, r)) ih h = ground (arith, ih l r refl)
scan-shrinks c (d ∷ cs) (some (l, r)) ih h = ground (arith, ih l r refl)

pub cut_line-shrinks :
    (buffer : Text) (line rest : Text)
    → cut_line buffer ≡ some (line, rest)
    → length rest < length buffer
unfolding cut_line
cut_line-shrinks [] line rest h = cc
cut_line-shrinks (c ∷ cs) line rest h = scan-shrinks c cs (cut_line cs) (cut_line-shrinks cs) h

scan-append :
    (c : ℕ) (cs more : Text) (later later' : Option (Text × Text)) {line rest : Text}
    → ((l r : Text) → later ≡ some (l, r) → later' ≡ some (l, r ++ more))
    → scan c cs later ≡ some (line, rest)
    → scan c (cs ++ more) later' ≡ some (line, rest ++ more)
scan-append c [] more none later' ih h = ground arith
scan-append c (d ∷ cs) more none later' ih h = ground arith
scan-append c [] more (some (l, r)) later' ih h = ground (arith, ih l r refl)
scan-append c (d ∷ cs) more (some (l, r)) later' ih h = ground (arith, ih l r refl)

-- More text does not change the first line, once its line break is there.
pub cut_line-append :
    (buffer more : Text) (line rest : Text)
    → cut_line buffer ≡ some (line, rest)
    → cut_line (buffer ++ more) ≡ some (line, rest ++ more)
unfolding cut_line
cut_line-append [] more line rest h = cc
cut_line-append (c ∷ cs) more line rest h =
    scan-append c cs more (cut_line cs) (cut_line (cs ++ more)) (cut_line-append cs more) h

cut-parts :
    (buffer line rest : Text) (n k : ℕ)
    → at_break buffer (some (n, k)) ≡ some (line, rest)
    → (take n buffer ≡ line) × (drop (n + k) buffer ≡ rest)
cut-parts buffer line rest n k h = ground arith

-- Events before those that come later.
abbrev pub join : List SseEvent → Result (List SseEvent) → Result (List SseEvent)
join events (ok later) = ok (events ++ later)
join events (raise x) = raise x

join-nil : (r : Result (List SseEvent)) → join [] r ≡ r
join-nil (ok later) = refl
join-nil (raise x) = refl

emit-join :
    (e : SseEvent) (events : List SseEvent) (r : Result (List SseEvent))
    → emit (some e) (join events r) ≡ join (e ∷ events) r
emit-join e events (ok later) = refl
emit-join e events (raise x) = refl

module _ (tables : CharTables) where
  abbrev pub after_line :
      ℕ → Text → Result (Option SseEvent) × Pending → Result (List SseEvent) × SseParser
  after_line f rest (event, p) =
      go_on event (record { buffer = rest; pending = p }) (rounds tables f rest p)

  rounds-at :
      (f : ℕ) (buffer : Text) (p : Pending) (b : Option (ℕ × ℕ)) (line rest : Text)
      → next_break buffer ≡ b
      → at_break buffer b ≡ some (line, rest)
      → rounds tables (suc f) buffer p ≡ after_line f rest (process_line tables p line)
  unfolding rounds
  rounds-at f buffer p none line rest e h = cc
  rounds-at f buffer p (some (n, k)) line rest e h =
      let (a, b) = cut-parts buffer line rest n k h in rw (e, rounds, a, b)

  -- A round of the loop on a buffer with a line in it, and on one with none.
  pub rounds-line :
      (f : ℕ) (buffer : Text) (p : Pending) (line rest : Text)
      → cut_line buffer ≡ some (line, rest)
      → rounds tables (suc f) buffer p ≡ after_line f rest (process_line tables p line)
  rounds-line f buffer p line rest h =
      rounds-at f buffer p (next_break buffer) line rest refl (next_break-cut_line buffer ∙ h)

  rounds-none :
      (f : ℕ) (buffer : Text) (p : Pending) (b : Option (ℕ × ℕ))
      → next_break buffer ≡ b
      → at_break buffer b ≡ none
      → rounds tables (suc f) buffer p ≡ (ok [], record { buffer = buffer; pending = p })
  unfolding rounds
  rounds-none f buffer p none e h = rw (e, rounds)
  rounds-none f buffer p (some (n, k)) e h = cc

  pub rounds-wait :
      (f : ℕ) (buffer : Text) (p : Pending)
      → cut_line buffer ≡ none
      → rounds tables (suc f) buffer p ≡ (ok [], record { buffer = buffer; pending = p })
  rounds-wait f buffer p h =
      rounds-none f buffer p (next_break buffer) refl (next_break-cut_line buffer ∙ h)

  pub cut-case :
      (buffer : Text)
      → (cut_line buffer ≡ none)
        ⊎ ((line : Text) × (rest : Text) × (cut_line buffer ≡ some (line, rest)))
  cut-case buffer = elim (Option-cases (cut_line buffer)) [
    | inl e ↦ inl e
    | inr (pair, e) ↦ inr (pair.0, pair.1, e)
  ]

  rounds_fuel :
      (f g : ℕ) (buffer : Text) (p : Pending)
      → length buffer < f
      → length buffer < g
      → rounds tables f buffer p ≡ rounds tables g buffer p
  rounds_fuel zero g buffer p h k = elim h [ ]
  rounds_fuel (suc f) zero buffer p h k = elim k [ ]
  rounds_fuel (suc f) (suc g) buffer p h k = elim (cut-case buffer) [
    | inl e ↦ rounds-wait f buffer p e ∙ sym (rounds-wait g buffer p e)
    | inr (line, rest, e) ↦
        let fewer = cut_line-shrinks buffer line rest e in
        let r = process_line tables p line in
        rounds-line f buffer p line rest e
        ∙ ap (go_on r.0 (record { buffer = rest; pending = r.1 }))
            (rounds_fuel f g rest r.1 (omega arith) (omega arith))
        ∙ sym (rounds-line g buffer p line rest e)
  ]

  -- The rounds with the fuel that `feed` gives them.
  unfoldable pub full : Text → Pending → Result (List SseEvent) × SseParser
  full buffer p = rounds tables (suc (length buffer)) buffer p

  pub full-line :
      (buffer : Text) (p : Pending) (line rest : Text) (e : Option SseEvent) (p' : Pending)
      → cut_line buffer ≡ some (line, rest)
      → process_line tables p line ≡ (ok e, p')
      → full buffer p ≡ (emit e (full rest p').0, (full rest p').1)
  unfolding full
  full-line buffer p line rest e p' h k =
      let fewer = cut_line-shrinks buffer line rest h in
      rounds-line (length buffer) buffer p line rest h
      ∙ ap (after_line (length buffer) rest) k
      ∙ ap (λ (r : Result (List SseEvent) × SseParser). (emit e r.0, r.1))
          (rounds_fuel (length buffer) (suc (length rest)) rest p' (omega arith) (omega arith))

  full-raise :
      (buffer : Text) (p : Pending) (line rest : Text) (x : Exception) (p' : Pending)
      → cut_line buffer ≡ some (line, rest)
      → process_line tables p line ≡ (raise x, p')
      → (full buffer p).0 ≡ raise x
  unfolding full
  full-raise buffer p line rest x p' h k = rw (rounds-line (length buffer) buffer p line rest h, k)

  -- What `feed` gives for a stream, from what it gave for the first part of it.
  abbrev Resumes :
      Text → Result (List SseEvent) × SseParser → Result (List SseEvent) × SseParser → Type 0
  Resumes more (raise x, end) whole = whole.0 ≡ raise x
  Resumes more (ok events, end) whole =
      let later = full (end.buffer ++ more) end.pending in whole ≡ (join events later.0, later.1)

  Resumes-emit :
      (more : Text) (e : Option SseEvent) (r whole : Result (List SseEvent) × SseParser)
      → Resumes more r whole
      → Resumes more (emit e r.0, r.1) (emit e whole.0, whole.1)
  Resumes-emit more none (raise x, end) whole h = h
  Resumes-emit more (some e) (raise x, end) whole h = rw h
  Resumes-emit more none (ok events, end) whole h = h
  Resumes-emit more (some e) (ok events, end) whole h =
      let later = full (end.buffer ++ more) end.pending in
      ap (λ (r : Result (List SseEvent) × SseParser). (emit (some e) r.0, r.1)) h
      ∙ ap (λ r. (r, later.1)) (emit-join e events later.0)

  line-Resumes :
      (f : ℕ) (buffer line rest more : Text) (p : Pending) (r : Result (Option SseEvent) × Pending)
      → cut_line buffer ≡ some (line, rest)
      → process_line tables p line ≡ r
      → Resumes more (rounds tables f rest r.1) (full (rest ++ more) r.1)
      → Resumes more (after_line f rest r) (full (buffer ++ more) p)
  line-Resumes f buffer line rest more p (raise x, p') e k ih =
      full-raise (buffer ++ more) p line (rest ++ more) x p'
        (cut_line-append buffer more line rest e) k
  line-Resumes f buffer line rest more p (ok event, p') e k ih =
      rw
        (full-line (buffer ++ more) p line (rest ++ more) event p'
          (cut_line-append buffer more line rest e) k)
        (Resumes-emit more event (rounds tables f rest p') (full (rest ++ more) p') ih)

  rounds-Resumes :
      (f : ℕ) (buffer : Text) (p : Pending) (more : Text)
      → length buffer < f
      → Resumes more (rounds tables f buffer p) (full (buffer ++ more) p)
  rounds-Resumes zero buffer p more h = elim h [ ]
  rounds-Resumes (suc f) buffer p more h = elim (cut-case buffer) [
    | inl e ↦ rw (rounds-wait f buffer p e, join-nil)
    | inr (line, rest, e) ↦
        let fewer = cut_line-shrinks buffer line rest e in
        let r = process_line tables p line in
        rw (rounds-line f buffer p line rest e) (
          line-Resumes f buffer line rest more p r e refl
            (rounds-Resumes f rest r.1 more (omega arith)))
  ]

  -- How feeding a second text goes on from what feeding the first one gave: not at all, if the first
  -- raised; else its events come after those of the first.
  abbrev pub FeedsOn :
      Text → Result (List SseEvent) × SseParser → Result (List SseEvent) × SseParser → Type 0
  FeedsOn more (raise x, end) whole = whole.0 ≡ raise x
  FeedsOn more (ok events, end) whole =
      let later = feed_text tables end more in whole ≡ (join events later.0, later.1)

  Resumes-FeedsOn :
      (more : Text) (r whole : Result (List SseEvent) × SseParser)
      → Resumes more r whole
      → FeedsOn more r whole
  unfolding feed_text full
  Resumes-FeedsOn more (raise x, end) whole h = h
  Resumes-FeedsOn more (ok events, end) whole h = h

  -- A stream may be cut anywhere, also inside a field's name, between a carriage return and its line
  -- feed, or before a blank line: two texts fed one after the other give the events, and leave the parser,
  -- that their concatenation does; and if the first makes `feed` raise, the concatenation does so too.
  pub feed_text-append :
      (parser : SseParser) (a b : Text)
      → FeedsOn b (feed_text tables parser a) (feed_text tables parser (a ++ b))
  feed_text-append parser a b =
      Resumes-FeedsOn b (feed_text tables parser a) (feed_text tables parser (a ++ b)) (
        unfold feed_text full in
        rw (← append_assoc) (
          rounds-Resumes (suc (length (parser.buffer ++ a))) (parser.buffer ++ a) parser.pending b
            (omega arith)))
