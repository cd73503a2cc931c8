-- ===== src/Stream/Sse/Closing.antt =====
-- `SSEParser.close`, and `feed` over the decoder; what the end of a stream leaves in the parser.
use ctxins.Base.{
  ℕ, Bool, false, ◌&&◌, ◌||◌, List, [], ◌∷◌, ◌++◌, none, some, is_nil, if◌then◌else◌, ◌==◌, leb,
  Result, ok, raise,
}
use ctxins.Stream.Sse.{
  Text, CharTables, Pending, SseEvent, SseParser, cr, lf, dispatch, process_line, emit, feed_text,
}

-- What `str.splitlines` takes for a line break: more characters than `feed` does.
unfoldable pub is_break : ℕ → Bool
is_break c =
    (leb 10 c && leb c 13)
    || (leb 28 c && leb c 30)
    || (c == 0x85)
    || (c == 0x2028)
    || (c == 0x2029)

-- `str.splitlines`, with the line read so far, and whether a carriage return has just ended a line
unfoldable pub lines_from : Bool → Text → Text → List Text
lines_from after_cr line [] = if is_nil line then [] else line ∷ []
lines_from after_cr line (c ∷ cs) =
    let joined = lines_from false [] cs in
    let broken = line ∷ lines_from (c == cr) [] cs in
    let longer = lines_from false (line ++ c ∷ []) cs in
    if after_cr && (c == lf) then joined else if is_break c then broken else longer

unfoldable pub splitlines : Text → List Text
splitlines text = lines_from false [] text

-- The decoder of the standard library: `decode` of some bytes, with the state that it goes on from, and
-- the call that ends the stream.
pub record Decoder : Type 1 where
  pub State : Type 0
  pub decode : State → List ℕ → State × Text
  pub finish : State → State × Text

-- `events.append(ev)` for the event that is still pending
abbrev pub flush : Result (List SseEvent) × Pending → Result (List SseEvent) × SseParser
flush (raise x, p) = (raise x, record { buffer = []; pending = p })
flush (ok events, p) =
    let (event, p') = dispatch p in
    (
      ok (events ++ elim event [ none ↦ [] | some e ↦ e ∷ [] ]),
      record { buffer = []; pending = p' },
    )

module _ (tables : CharTables) where
  -- The loop of `close` over the lines.
  unfoldable pub close_lines : Pending → List Text → Result (List SseEvent) × Pending
  close_lines p [] = (ok [], p)
  close_lines p (line ∷ lines) =
      let (event, p') = process_line tables p line in
      let later = close_lines p' lines in
      elim event [ raise x ↦ (raise x, p') | ok e ↦ (emit e later.0, later.1) ]

  -- `close`, with the text that the decoder still had
  unfoldable pub close_text : SseParser → Text → Result (List SseEvent) × SseParser
  close_text parser remaining =
      flush (close_lines parser.pending (splitlines (parser.buffer ++ remaining)))

  -- `feed` and `close` over a decoder: an empty chunk closes
  unfoldable pub feed :
      (d : Decoder) → d.State → SseParser → List ℕ → Result (List SseEvent) × d.State × SseParser
  feed d s parser [] =
      let (s', remaining) = d.finish s in
      let (events, parser') = close_text parser remaining in (events, s', parser')
  feed d s parser (b ∷ chunk) =
      let (s', text) = d.decode s (b ∷ chunk) in
      let (events, parser') = feed_text tables parser text in (events, s', parser')
