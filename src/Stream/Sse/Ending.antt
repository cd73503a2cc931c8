-- ===== src/Stream/Sse/Ending.antt =====
-- interceptor/stream/sse_parser.py: how a stream ends, and the lines that `close` sees.
use ctxins.Base.{
  ℕ, ◌≡◌, ◌≢◌, refl, ap, ◌∙◌, true, false, List, [], ◌∷◌, ◌++◌, none, some, arith, sym, subst,
  append_assoc, append-nil, All, All-append, Result, ok, raise,
}
use ctxins.Stream.Sse.{Text, CharTables, Pending, SseEvent, SseParser, cr, lf, dispatch, next_break}
use ctxins.Stream.Sse.Lines.{at_break, next_break-cut_line}
use ctxins.Stream.Sse.Events.{Plain, cut_line-Plain}
use ctxins.Stream.Sse.Closing.{is_break, lines_from, splitlines, flush, close_text}

-- The parser holds no text and no part of an event's name or data.
pub record IsFlushed (parser : SseParser) : Type 0 where
  pub no_text : parser.buffer ≡ []
  pub no_data : parser.pending.data_lines ≡ []
  pub no_name : parser.pending.current_event ≡ none

flush-IsFlushed :
    (r : Result (List SseEvent) × Pending) {events : List SseEvent}
    → (flush r).0 ≡ ok events
    → IsFlushed (flush r).1
unfolding dispatch
flush-IsFlushed (raise x, p) h = cc
flush-IsFlushed (ok events, p) h = ground arith

-- After a `close` that does not raise, the parser holds no text, no line of data and no event
-- name.
pub close_text-IsFlushed :
    (tables : CharTables) (parser : SseParser) (remaining : Text) {events : List SseEvent}
    → (close_text tables parser remaining).0 ≡ ok events
    → IsFlushed (close_text tables parser remaining).1
unfolding close_text
close_text-IsFlushed tables parser remaining h = flush-IsFlushed _ h

-- A text that `splitlines` leaves whole.
abbrev pub Unbroken : Text → Type 0
Unbroken = All (λ c. is_break c ≡ false)

lines_from-Unbroken :
    (line text rest : Text)
    → Unbroken text
    → lines_from false line (text ++ rest) ≡ lines_from false (line ++ text) rest
unfolding lines_from
lines_from-Unbroken line [] rest h = rw append-nil
lines_from-Unbroken line (c ∷ text) rest h = rw h.0 (
    lines_from-Unbroken (line ++ c ∷ []) text rest h.1
    ∙ ap (λ l. lines_from false l rest) (append_assoc line (c ∷ []) text))

lines_from-last : (line : Text) → line ≢ [] → lines_from false line [] ≡ line ∷ []
unfolding lines_from
lines_from-last [] h = absurd (h refl)
lines_from-last (c ∷ line) h = refl

lines_from-break :
    (line : Text) (c d : ℕ) (text : Text)
    → is_break c ≡ true
    → c ≢ cr
    → is_break d ≡ false
    → lines_from false line (c ∷ d ∷ text) ≡ line ∷ lines_from false (d ∷ []) text
unfolding lines_from
lines_from-break line c d text h k e = ground arith

-- A line feed is the only break that a line feed is not part of, so a text without breaks has none.
Unbroken-Plain : (text : Text) → Unbroken text → Plain text
unfolding is_break
Unbroken-Plain [] h = tt
Unbroken-Plain (c ∷ text) h = (
  (
    λ e. cc (subst (λ k. is_break k ≡ false) e h.0),
    λ e. cc (subst (λ k. is_break k ≡ false) e h.0),
  ),
  Unbroken-Plain text h.1,
)

-- `close`, which cuts by `splitlines`, and `feed` do not see the same lines. Take a character that
-- `splitlines` takes for a line break and that is no line feed or carriage return, such as U+2028,
-- between two texts that are not empty and have no line break of any kind: `splitlines` gives two
-- lines, where `feed`, once a line feed follows, cuts one.
pub splitlines-disagrees :
    (x y : Text) (c d : ℕ)
    → x ≢ []
    → Unbroken x
    → Unbroken (d ∷ y)
    → is_break c ≡ true
    → c ≢ lf
    → c ≢ cr
    → (splitlines (x ++ c ∷ d ∷ y) ≡ x ∷ (d ∷ y) ∷ [])
      × (let text = (x ++ c ∷ d ∷ y) ++ lf ∷ [] in
          at_break text (next_break text) ≡ some (x ++ c ∷ d ∷ y, []))
unfolding splitlines
splitlines-disagrees x y c d some_x hx hy brk no_lf no_cr = (
  lines_from-Unbroken [] x (c ∷ d ∷ y) hx
      ∙ lines_from-break x c d y brk no_cr hy.0
      ∙ ap (λ ls. x ∷ ls)
          (ap (lines_from false (d ∷ [])) (sym (append-nil y))
            ∙ lines_from-Unbroken (d ∷ []) y [] hy.1
            ∙ lines_from-last (d ∷ y) (λ e. cc e)),
  next_break-cut_line ((x ++ c ∷ d ∷ y) ++ lf ∷ [])
      ∙ cut_line-Plain (x ++ c ∷ d ∷ y) [] (
          All-append _ x (c ∷ d ∷ y) (Unbroken-Plain x hx)
            ((no_lf, no_cr), Unbroken-Plain (d ∷ y) hy)),
)

-- A last line without a line break, and with no character in it that `splitlines` takes for one,
-- is cut off whole by `splitlines`, which `close` uses, and by `feed` once a line feed follows.
pub splitlines-agrees :
    (c : ℕ) (text : Text)
    → Unbroken (c ∷ text)
    → (splitlines (c ∷ text) ≡ (c ∷ text) ∷ [])
      × (let whole = (c ∷ text) ++ lf ∷ [] in
          at_break whole (next_break whole) ≡ some (c ∷ text, []))
unfolding splitlines
splitlines-agrees c text h = (
  ap (lines_from false []) (sym (append-nil (c ∷ text)))
      ∙ lines_from-Unbroken [] (c ∷ text) [] h
      ∙ lines_from-last (c ∷ text) (λ e. cc e),
  next_break-cut_line ((c ∷ text) ++ lf ∷ [])
      ∙ cut_line-Plain (c ∷ text) [] (Unbroken-Plain (c ∷ text) h),
)
