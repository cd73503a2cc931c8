-- ===== src/Stream/Tests.antt =====
-- The stream component at concrete inputs.
use ctxins.Base.{
  ◌≡◌, refl, List, [], ◌∷◌, ◌++◌, none, some, leb, ◌==◌, ◌&&◌, ◌-◌, if◌then◌else◌, arith, map, ok,
  raise, value_error,
}
use ctxins.Stream.Sse.{
  codes, CharTables, SseParser, new_parser, nothing_pending, lf, feed_text, rounds, next_break,
  choose_break, break_at_cr, find, process_line, process_field, partition, dispatch, join_lines,
  read_retry, read_int,
}
use ctxins.Stream.Sse.Chunks.{FeedsOn, feed_text-append}
use ctxins.Stream.Sse.Lines.{cut_line, at_break, next_break-cut_line}
use ctxins.Stream.Sse.Events.{Message, print_all, read_as, feed_text-print_all}
use ctxins.Stream.Sse.Closing.{is_break, splitlines, lines_from, close_text, close_lines}
use ctxins.Stream.Sse.Ending.{
  IsFlushed, close_text-IsFlushed, splitlines-disagrees, splitlines-agrees,
}

-- What the tables say of ASCII, and of a superscript two, which is a digit and no decimal.
abbrev ascii : CharTables
ascii = record {
  is_digit = λ c. if c == 178 then leb 48 57 else leb 48 c && leb c 57;
  decimal = λ c. if leb 48 c && leb c 57 then some (c - 48) else none;
}

-- A carriage return, a line feed and the blank line in different chunks.
feed_text-append_example :
    FeedsOn ascii
      (10 ∷ 13 ∷ 10 ∷ [])
      (feed_text ascii new_parser (codes "data: a" ++ 13 ∷ []))
      (feed_text ascii new_parser ((codes "data: a" ++ 13 ∷ []) ++ 10 ∷ 13 ∷ 10 ∷ []))
feed_text-append_example =
    feed_text-append ascii new_parser (codes "data: a" ++ 13 ∷ []) (10 ∷ 13 ∷ 10 ∷ [])

crlf_event :
    (feed_text ascii new_parser (codes "data: a" ++ 13 ∷ 10 ∷ 13 ∷ 10 ∷ [])).0
    ≡ ok (record { event = codes "message"; payload = codes "a"; id = none; retry = none } ∷ [])
unfolding feed_text rounds next_break choose_break break_at_cr find process_line process_field
    partition dispatch join_lines
crlf_event = refl

-- `"²".isdigit()` holds and `int("²")` raises, so that such a field raises out of `feed`.
superscript_retry :
    (feed_text ascii new_parser (codes "retry: " ++ 178 ∷ 10 ∷ [])).0 ≡ raise value_error
unfolding feed_text rounds next_break choose_break break_at_cr find process_line process_field
    partition read_retry read_int
superscript_retry = refl

abbrev messages : List Message
messages =
    record { name = codes "ping"; line = codes "{}"; lines = [] }
    ∷ record { name = codes "delta"; line = codes "a"; lines = codes "b" ∷ [] }
    ∷ []

feed_text-print_all_example :
    feed_text ascii new_parser (print_all messages) ≡ (ok (map read_as messages), new_parser)
feed_text-print_all_example = feed_text-print_all ascii messages (
  record { named_at_all = λ e. cc e; name_plain = ground arith; lines_plain = ground arith },
  (record { named_at_all = λ e. cc e; name_plain = ground arith; lines_plain = ground arith }, tt),
)

next_break-cut_line_example :
    at_break (codes "ab" ++ 13 ∷ 10 ∷ 99 ∷ []) (next_break (codes "ab" ++ 13 ∷ 10 ∷ 99 ∷ []))
    ≡ cut_line (codes "ab" ++ 13 ∷ 10 ∷ 99 ∷ [])
next_break-cut_line_example = next_break-cut_line (codes "ab" ++ 13 ∷ 10 ∷ 99 ∷ [])

abbrev half_read : SseParser
half_read = record { buffer = codes "data: b"; pending = nothing_pending }

close_text-IsFlushed_test : IsFlushed (close_text ascii half_read []).1
unfolding close_text close_lines splitlines lines_from is_break process_line process_field partition
    dispatch
close_text-IsFlushed_test = close_text-IsFlushed ascii half_read [] refl

-- A line separator, U+2028, between two letters.
splitlines-disagrees_test :
    (splitlines (97 ∷ 8232 ∷ 98 ∷ []) ≡ (97 ∷ []) ∷ (98 ∷ []) ∷ [])
    × (at_break (97 ∷ 8232 ∷ 98 ∷ lf ∷ []) (next_break (97 ∷ 8232 ∷ 98 ∷ lf ∷ []))
        ≡ some (97 ∷ 8232 ∷ 98 ∷ [], []))
unfolding is_break
splitlines-disagrees_test =
    splitlines-disagrees (97 ∷ []) [] 8232 98 (λ e. cc e) (refl, tt) (refl, tt) refl (λ e. cc e)
      (λ e. cc e)

splitlines-agrees_test :
    (splitlines (97 ∷ 98 ∷ []) ≡ (97 ∷ 98 ∷ []) ∷ [])
    × (at_break (97 ∷ 98 ∷ lf ∷ []) (next_break (97 ∷ 98 ∷ lf ∷ [])) ≡ some (97 ∷ 98 ∷ [], []))
unfolding is_break
splitlines-agrees_test = splitlines-agrees 97 (98 ∷ []) (refl, (refl, tt))
