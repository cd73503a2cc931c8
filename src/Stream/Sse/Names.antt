-- ===== src/Stream/Sse/Names.antt =====
-- interceptor/stream/sse_parser.py: each event that the parser gives has a name.
use ctxins.Base.{
  ℕ, zero, suc, ◌+◌, ◌≡◌, refl, false, List, [], ◌∷◌, ◌++◌, Option, none, some, is_nil, true, not,
  ◌&&◌, ◌==◌, if-keeps, All, All-append, drop, take, Result, ok, raise,
}
use ctxins.Stream.Sse.{
  Text, codes, text_eq, CharTables, Pending, SseEvent, SseParser, or_default, dispatch, read_retry,
  read_int, all_digits, process_field, process_line, next_break, rounds, feed_text, go_on, emit,
}
use ctxins.Stream.Sse.Closing.{close_lines, close_text, Decoder, feed, flush}

-- An event with a name.
abbrev pub Named : SseEvent → Type 0
Named ev = is_nil ev.event ≡ false

abbrev NamedLine : Result (Option SseEvent) → Type 0
NamedLine (ok none) = Unit
NamedLine (ok (some ev)) = Named ev
NamedLine (raise x) = Unit

abbrev pub NamedAll : Result (List SseEvent) → Type 0
NamedAll (ok evs) = All Named evs
NamedAll (raise x) = Unit

or_default-named : (name : Option Text) → is_nil (or_default name (codes "message")) ≡ false
or_default-named none = refl
or_default-named (some []) = refl
or_default-named (some (c ∷ cs)) = refl

dispatch-Named : (p : Pending) → NamedLine (ok (dispatch p).0)
unfolding dispatch
dispatch-Named p =
    if-keeps (λ (r : Option SseEvent × Pending). NamedLine (ok r.0))
      (is_nil p.data_lines && elim p.current_event [ none ↦ true | some _ ↦ false ]) (λ _. tt)
      (λ _. or_default-named p.current_event)

emit-Named :
    (o : Option SseEvent) (later : Result (List SseEvent))
    → NamedLine (ok o)
    → NamedAll later
    → NamedAll (emit o later)
emit-Named none later h k = k
emit-Named (some ev) (ok evs) h k = (h, k)
emit-Named (some ev) (raise x) h k = tt

go_on-Named :
    (r : Result (Option SseEvent)) (here : SseParser) (later : Result (List SseEvent) × SseParser)
    → NamedLine r
    → NamedAll later.0
    → NamedAll (go_on r here later).0
go_on-Named (raise x) here later h k = tt
go_on-Named (ok o) here later h k = emit-Named o later.0 h k

module _ (tables : CharTables) where
  read_retry-Named : (p : Pending) (value : Text) → NamedLine (read_retry tables p value).0
  unfolding read_retry
  read_retry-Named p value =
      if-keeps Keeps (not (is_nil value) && all_digits tables value)
        (λ _. go (read_int tables 0 value)) (λ _. tt)
    where
      Keeps : Result (Option SseEvent) × Pending → Type 0
      Keeps r = NamedLine r.0

      go :
          (r : Result ℕ)
          → Keeps (elim r as (λ _. Result (Option SseEvent) × Pending) [
            | ok n ↦ (ok none, record p { current_retry = some n })
            | raise x ↦ (raise x, p)
          ])
      go (ok n) = tt
      go (raise x) = tt

  process_field-Named :
      (p : Pending) (field value : Text) → NamedLine (process_field tables p field value).0
  unfolding process_field
  process_field-Named p field value =
      if-keeps Keeps (text_eq field (codes "event")) (λ _. tt)
        (λ _.
          if-keeps Keeps (text_eq field (codes "data")) (λ _. tt)
            (λ _.
              if-keeps Keeps (text_eq field (codes "id")) (λ _. tt)
                (λ _.
                  if-keeps Keeps (text_eq field (codes "retry")) (λ _. read_retry-Named p value)
                    (λ _. tt))))
    where
      Keeps : Result (Option SseEvent) × Pending → Type 0
      Keeps r = NamedLine r.0

  process_line-Named : (p : Pending) (line : Text) → NamedLine (process_line tables p line).0
  unfolding process_line
  process_line-Named p [] = dispatch-Named p
  process_line-Named p (c ∷ cs) =
      if-keeps (λ (r : Result (Option SseEvent) × Pending). NamedLine r.0) (c == b':') (λ _. tt)
        (λ _. process_field-Named p _ _)

  rounds-Named : (fuel : ℕ) (buffer : Text) (p : Pending) → NamedAll (rounds tables fuel buffer p).0
  unfolding rounds
  rounds-Named zero buffer p = tt
  rounds-Named (suc fuel) buffer p = go (next_break buffer) (λ rest p'. rounds-Named fuel rest p')
    where
      go :
          (o : Option (ℕ × ℕ))
          → ((rest : Text) (p' : Pending) → NamedAll (rounds tables fuel rest p').0)
          → NamedAll
              (elim o as (λ _. Result (List SseEvent) × SseParser) [
                | none ↦ (ok [], record { buffer = buffer; pending = p })
                | some (nl_pos, skip) ↦
                    let rest = drop (nl_pos + skip) buffer in
                    let (event, p') = process_line tables p (take nl_pos buffer) in
                    let later = rounds tables fuel rest p' in
                    go_on event (record { buffer = rest; pending = p' }) later
              ]).0
      go none later = tt
      go (some (nl_pos, skip)) later =
          go_on-Named _ _ _ (process_line-Named p (take nl_pos buffer))
            (later (drop (nl_pos + skip) buffer) _)

  feed_text-Named : (parser : SseParser) (text : Text) → NamedAll (feed_text tables parser text).0
  unfolding feed_text
  feed_text-Named parser text = rounds-Named _ (parser.buffer ++ text) parser.pending

  close_lines-Named : (p : Pending) (lines : List Text) → NamedAll (close_lines tables p lines).0
  unfolding close_lines
  close_lines-Named p [] = tt
  close_lines-Named p (line ∷ lines) =
      let now = process_line tables p line in
      let later = close_lines tables now.1 lines in
      let rest = close_lines-Named now.1 lines in
      elim now.0
          as (λ (r : Result (Option SseEvent)).
            NamedLine r
            → NamedAll
                (elim r as (λ _. Result (List SseEvent) × Pending) [
                  | raise x ↦ (raise x, now.1)
                  | ok e ↦ (emit e later.0, later.1)
                ]).0) [ raise x ↦ λ h. tt | ok e ↦ λ h. emit-Named e later.0 h rest ]
        (process_line-Named p line)

flush-Named : (r : Result (List SseEvent) × Pending) → NamedAll r.0 → NamedAll (flush r).0
flush-Named (raise x, p) h = tt
flush-Named (ok evs, p) h = All-append Named evs _ h (go (dispatch p).0 (dispatch-Named p))
  where
    go :
        (o : Option SseEvent)
        → NamedLine (ok o)
        → All Named (elim o as (λ _. List SseEvent) [ none ↦ [] | some e ↦ e ∷ [] ])
    go none k = tt
    go (some e) k = (k, tt)

-- The parser's calls give events with names only.
pub feed-Named :
    (tables : CharTables) (d : Decoder) (s : d.State) (parser : SseParser) (chunk : List ℕ)
    → NamedAll (feed tables d s parser chunk).0
unfolding feed close_text
feed-Named tables d s parser [] = flush-Named _ (close_lines-Named tables parser.pending _)
feed-Named tables d s parser (b ∷ chunk) = feed_text-Named tables parser _
