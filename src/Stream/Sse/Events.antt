-- ===== src/Stream/Sse/Events.antt =====
-- interceptor/stream/sse_parser.py: events as a server writes them.
use ctxins.Base.{
  ◌≡◌, ◌≢◌, refl, sym, ap, ◌∙◌, List, [], ◌∷◌, ◌++◌, none, some, arith, append_assoc, append-nil,
  All, map, Result, ok,
}
use ctxins.Stream.Sse.{
  Text, codes, CharTables, Pending, nothing_pending, SseEvent, SseParser, new_parser, cr, lf,
  join_lines, dispatch, partition, process_field, process_line, emit, feed_text, rounds, next_break,
  choose_break, find,
}
use ctxins.Stream.Sse.Lines.{cut_line}
use ctxins.Stream.Sse.Chunks.{full, full-line}

-- A text on one line.
abbrev pub Plain : Text → Type 0
Plain = All (λ c. (c ≢ lf) × (c ≢ cr))

pub cut_line-Plain :
    (line rest : Text) → Plain line → cut_line (line ++ lf ∷ rest) ≡ some (line, rest)
unfolding cut_line
cut_line-Plain [] rest h = refl
cut_line-Plain (c ∷ line) rest h = ground (arith, cut_line-Plain line rest h.1, h.0)

-- `data: line` for each line
unfoldable pub print_data : List Text → Text
print_data [] = []
print_data (line ∷ lines) = codes "data: " ++ (line ++ lf ∷ print_data lines)

-- An event as a server writes it.
unfoldable pub print_event : Text → List Text → Text
print_event name lines = codes "event: " ++ (name ++ lf ∷ (print_data lines ++ lf ∷ []))

-- The event that is read back.
abbrev pub named : Text → List Text → SseEvent
named name lines = record { event = name; payload = join_lines lines; id = none; retry = none }

module _ (tables : CharTables) where
  line-event :
      (p : Pending) (value : Text)
      → process_line tables p (codes "event: " ++ value)
        ≡ (ok none, record p { current_event = some value })
  unfolding process_line partition process_field
  line-event p value = refl

  line-data :
      (p : Pending) (value : Text)
      → process_line tables p (codes "data: " ++ value)
        ≡ (ok none, record p { data_lines = p.data_lines ++ value ∷ [] })
  unfolding process_line partition process_field
  line-data p value = refl

  line-blank :
      (name : Text) (line : Text) (lines : List Text)
      → name ≢ []
      → process_line tables
          (record nothing_pending { current_event = some name; data_lines = line ∷ lines })
          []
        ≡ (ok (some (named name (line ∷ lines))), nothing_pending)
  unfolding process_line dispatch
  line-blank [] line lines h = absurd (h refl)
  line-blank (c ∷ cs) line lines h = refl

  full-data :
      (lines : List Text) (rest : Text) (p : Pending)
      → All Plain lines
      → full tables (print_data lines ++ rest) p
        ≡ full tables rest (record p { data_lines = p.data_lines ++ lines })
  unfolding print_data
  full-data [] rest p plain =
      ap (λ ls. full tables rest (record p { data_lines = ls })) (sym (append-nil p.data_lines))
  full-data (line ∷ lines) rest p plain =
      let p' = record p { data_lines = p.data_lines ++ line ∷ [] } in
      let tail = print_data lines ++ rest in
      let shape : (codes "data: " ++ (line ++ lf ∷ print_data lines)) ++ rest
          ≡ (codes "data: " ++ line) ++ lf ∷ tail =
        simp append_assoc in
      rw shape (
        full-line tables _ p (codes "data: " ++ line) tail none p'
          (cut_line-Plain (codes "data: " ++ line) tail (ground arith)) (line-data p line)
        ∙ full-data lines rest p' plain.1
        ∙ ap (λ ls. full tables rest (record p { data_lines = ls }))
            (append_assoc p.data_lines (line ∷ []) lines))

  -- One printed event, with any text after it.
  full-event :
      (name line : Text) (lines : List Text) (rest : Text)
      → name ≢ []
      → Plain name
      → All Plain (line ∷ lines)
      → full tables (print_event name (line ∷ lines) ++ rest) nothing_pending ≡ (
        emit (some (named name (line ∷ lines))) (full tables rest nothing_pending).0,
        (full tables rest nothing_pending).1,
      )
  unfolding print_event
  full-event name line lines rest h plain_name plain =
      let p = record nothing_pending { current_event = some name } in
      let tail = print_data (line ∷ lines) ++ lf ∷ rest in
      let shape : print_event name (line ∷ lines) ++ rest ≡ (codes "event: " ++ name) ++ lf ∷ tail =
        ap (λ t. codes "event: " ++ t)
          (append_assoc name (lf ∷ (print_data (line ∷ lines) ++ lf ∷ [])) rest
            ∙ ap (λ t. name ++ lf ∷ t) (append_assoc (print_data (line ∷ lines)) (lf ∷ []) rest)) in
      rw shape (
        full-line tables _ nothing_pending (codes "event: " ++ name) tail none p
          (cut_line-Plain (codes "event: " ++ name) tail (ground arith))
          (line-event nothing_pending name)
        ∙ full-data (line ∷ lines) (lf ∷ rest) p plain
        ∙ full-line tables (lf ∷ rest) (record p { data_lines = line ∷ lines }) [] rest
            (some (named name (line ∷ lines))) nothing_pending (cut_line-Plain [] rest tt)
            (line-blank name line lines h))

-- An event that can be written: a name that is not empty, and lines of data, at least one.
pub record Message : Type 0 where
  pub name : Text
  pub line : Text
  pub lines : List Text

pub record IsWritable (m : Message) : Type 0 where
  pub named_at_all : m.name ≢ []
  pub name_plain : Plain m.name
  pub lines_plain : All Plain (m.line ∷ m.lines)

unfoldable pub print_all : List Message → Text
print_all [] = []
print_all (m ∷ ms) = print_event m.name (m.line ∷ m.lines) ++ print_all ms

abbrev pub read_as : Message → SseEvent
read_as m = named m.name (m.line ∷ m.lines)

module _ (tables : CharTables) where
  full-print_all :
      (ms : List Message)
      → All IsWritable ms
      → full tables (print_all ms) nothing_pending ≡ (ok (map read_as ms), new_parser)
  unfolding print_all
  full-print_all [] h = unfold full rounds next_break choose_break find in refl
  full-print_all (m ∷ ms) h =
      full-event tables m.name m.line m.lines (print_all ms) h.0.named_at_all h.0.name_plain
        h.0.lines_plain
      ∙ ap (λ (r : Result (List SseEvent) × SseParser). (emit (some (read_as m)) r.0, r.1))
          (full-print_all ms h.1)

  -- Any events, each with a name and one or more lines of data and none of these with a line break,
  -- written as a server writes them, are read back in order, and the parser has nothing left over.
  pub feed_text-print_all :
      (ms : List Message)
      → All IsWritable ms
      → feed_text tables new_parser (print_all ms) ≡ (ok (map read_as ms), new_parser)
  unfolding feed_text full
  feed_text-print_all ms h = full-print_all ms h
