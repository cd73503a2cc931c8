-- ===== src/Stream/Sse.antt =====
-- interceptor/stream/sse_parser.py: `SSEParser`. Text is a list of code points. What Python's own
-- tables say of characters, and its incremental UTF-8 decoder, are parameters of the parser.
-- Python's limit on the digits of a number that `int` reads is not modelled.
pub mod Lines
pub mod Chunks
pub mod Events
pub mod Closing
pub mod Ending
pub mod Names
use Prim.Native.Char.{code}
use Prim.Native.String.{String}
use ctxins.Base.{
  ℕ, zero, suc, ◌+◌, ◌*◌, ◌-◌, Bool, true, false, not, ◌&&◌, ◌||◌, List, [], ◌∷◌, ◌++◌, Option,
  none, some, length, take, drop, get_elem?, ltb, ◌==◌, is_nil, if◌then◌else◌, Result, ok, raise,
  value_error,
}

abbrev pub Text : Type 0
Text = List ℕ

abbrev pub codes : String → Text
codes String.[] = []
codes (String.◌∷◌ c s) = code c ∷ codes s

abbrev pub text_eq : Text → Text → Bool
text_eq [] [] = true
text_eq (a ∷ s) (b ∷ t) = (a == b) && text_eq s t
text_eq _ _ = false

abbrev pub cr : ℕ
cr = 13

abbrev pub lf : ℕ
lf = 10

pub record SseEvent : Type 0 where
  pub event : Text
  pub payload : Text
  pub id : Option Text
  pub retry : Option ℕ

-- `str.isdigit` on one character, and the digit that `int` reads in a character, if it takes it.
pub record CharTables : Type 0 where
  pub is_digit : ℕ → Bool
  pub decimal : ℕ → Option ℕ

-- The fields of the event that is being read.
pub record Pending : Type 0 where
  pub current_event : Option Text
  pub data_lines : List Text
  pub current_id : Option Text
  pub current_retry : Option ℕ

abbrev pub nothing_pending : Pending
nothing_pending = record {
  current_event = none;
  data_lines = [];
  current_id = none;
  current_retry = none;
}

pub record SseParser : Type 0 where
  pub buffer : Text
  pub pending : Pending

abbrev pub new_parser : SseParser
new_parser = record { buffer = []; pending = nothing_pending }

-- `text.find(c)`: the first place of a character
unfoldable pub find : ℕ → Text → Option ℕ
find c [] = none
find c (x ∷ xs) =
    let later = find c xs in
    if x == c then some 0 else elim later [ none ↦ none | some i ↦ some (i + 1) ]

-- The branch for a carriage return at `cr_pos`: none if it ends the buffer, else the length of the
-- line and that of its line break.
unfoldable pub break_at_cr : Text → ℕ → Option (ℕ × ℕ)
break_at_cr buffer cr_pos =
    if cr_pos == length buffer - 1 then none else elim (get_elem? buffer (cr_pos + 1)) [
      | none ↦ none
      | some c ↦ if c == lf then some (cr_pos, 2) else some (cr_pos, 1)
    ]

-- The search for a line break: `nl_pos` and `skip`, or none where the loop breaks.
unfoldable pub choose_break : Text → Option ℕ → Option ℕ → Option (ℕ × ℕ)
choose_break buffer none none = none
choose_break buffer none (some lf_pos) = some (lf_pos, 1)
choose_break buffer (some cr_pos) none = break_at_cr buffer cr_pos
choose_break buffer (some cr_pos) (some lf_pos) =
    if ltb cr_pos lf_pos then break_at_cr buffer cr_pos else some (lf_pos, 1)

unfoldable pub next_break : Text → Option (ℕ × ℕ)
next_break buffer = choose_break buffer (find cr buffer) (find lf buffer)

-- `"\n".join(lines)`
unfoldable pub join_lines : List Text → Text
join_lines [] = []
join_lines (l ∷ []) = l
join_lines (l ∷ m ∷ ls) = l ++ lf ∷ join_lines (m ∷ ls)

-- `value or default`
abbrev pub or_default : Option Text → Text → Text
or_default none d = d
or_default (some []) d = d
or_default (some (c ∷ cs)) d = c ∷ cs

unfoldable pub dispatch : Pending → Option SseEvent × Pending
dispatch p =
    if is_nil p.data_lines && elim p.current_event [ none ↦ true | some _ ↦ false ]
    then (none, p)
    else (
      some (record {
        event = or_default p.current_event (codes "message");
        payload = join_lines p.data_lines;
        id = p.current_id;
        retry = p.current_retry;
      }),
      nothing_pending,
    )

-- `line.partition(":")`: what stands before the first colon, whether there is one, and what follows
unfoldable pub partition : Text → Text × Bool × Text
partition [] = ([], false, [])
partition (c ∷ cs) =
    let (before, found, after) = partition cs in
    if c == b':' then ([], true, cs) else (c ∷ before, found, after)

-- `value.startswith(" ")` and `value[1:]`
abbrev pub strip_space : Text → Text
strip_space [] = []
strip_space (c ∷ cs) = if c == b' ' then cs else c ∷ cs

-- An event before the later ones.
abbrev pub emit : Option SseEvent → Result (List SseEvent) → Result (List SseEvent)
emit none later = later
emit (some e) (ok later) = ok (e ∷ later)
emit (some e) (raise x) = raise x

-- How the loop goes on after a line: `here` is the parser if the line raised.
abbrev pub go_on :
    Result (Option SseEvent)
    → SseParser
    → Result (List SseEvent) × SseParser
    → Result (List SseEvent) × SseParser
go_on (raise x) here later = (raise x, here)
go_on (ok e) here later = (emit e later.0, later.1)

module _ (tables : CharTables) where
  -- `value.isdigit()`, which is false of the empty text
  unfoldable pub all_digits : Text → Bool
  all_digits [] = true
  all_digits (c ∷ cs) = tables.is_digit c && all_digits cs

  -- `int(value)` for a text of digits, from the digits read so far; it raises on a character that is
  -- a digit and no decimal
  unfoldable pub read_int : ℕ → Text → Result ℕ
  read_int n [] = ok n
  read_int n (c ∷ cs) = elim (tables.decimal c) [
    | none ↦ raise value_error
    | some d ↦ read_int (n * 10 + d) cs
  ]

  unfoldable pub read_retry : Pending → Text → Result (Option SseEvent) × Pending
  unfolding all_digits
  read_retry p value =
      if not (is_nil value) && all_digits value
      then elim (read_int 0 value) [
        | ok n ↦ (ok none, record p { current_retry = some n })
        | raise x ↦ (raise x, p)
      ]
      else (ok none, p)

  has_nul : Text → Bool
  has_nul [] = false
  has_nul (c ∷ cs) = (c == 0) || has_nul cs

  unfoldable pub process_field : Pending → Text → Text → Result (Option SseEvent) × Pending
  unfolding has_nul
  process_field p field value =
      if text_eq field (codes "event")
      then (ok none, record p { current_event = some value })
      else if text_eq field (codes "data")
      then (ok none, record p { data_lines = p.data_lines ++ value ∷ [] })
      else if text_eq field (codes "id")
      then (ok none, if has_nul value then p else record p { current_id = some value })
      else if text_eq field (codes "retry")
      then read_retry p value
      else (ok none, p)

  unfoldable pub process_line : Pending → Text → Result (Option SseEvent) × Pending
  process_line p [] = let (event, p') = dispatch p in (ok event, p')
  process_line p (c ∷ cs) =
      let (field, has_colon, value) = partition (c ∷ cs) in
      if c == b':'
      then (ok none, p)
      else process_field p field (if has_colon then strip_space value else value)

  -- The loop of `feed`, on fuel: each round takes a line break, at least, off the buffer. When a line
  -- raises, the line is gone from the buffer, and the events of the call are lost.
  unfoldable pub rounds : ℕ → Text → Pending → Result (List SseEvent) × SseParser
  rounds zero buffer p = (ok [], record { buffer = buffer; pending = p })
  rounds (suc fuel) buffer p = elim (next_break buffer) [
    | none ↦ (ok [], record { buffer = buffer; pending = p })
    | some (nl_pos, skip) ↦
        let rest = drop (nl_pos + skip) buffer in
        let (event, p') = process_line p (take nl_pos buffer) in
        let later = rounds fuel rest p' in
        go_on event (record { buffer = rest; pending = p' }) later
  ]

  -- `feed` on a text that is not empty
  unfoldable pub feed_text : SseParser → Text → Result (List SseEvent) × SseParser
  feed_text parser text =
      let buffer = parser.buffer ++ text in rounds (suc (length buffer)) buffer parser.pending
