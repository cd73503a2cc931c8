-- ===== src/Stream/Accumulators/Tests.antt =====
-- The accumulators at concrete streams.
use ctxins.Base.{
  false, ◌++◌, attribute_error, ℕ, ◌≡◌, refl, true, List, [], ◌∷◌, Option, none, some, String, ok,
  nat_eq,
}
use ctxins.Base.Dict.{get}
use Prim.Native.String.{◌++◌ as text_append}
use ctxins.Json.{Json, obj, end}
use ctxins.Stream.Sse.{
  Text, codes, SseEvent, CharTables, new_parser, feed_text, rounds, next_break, choose_break,
  break_at_cr, find, process_line, process_field, partition, dispatch, join_lines,
}
use ctxins.Stream.Sse.Closing.{Decoder, feed}
use ctxins.Stream.Accumulators.{EventSource, Loaded, loaded, broken}
use ctxins.Stream.Accumulators.OpenAi as O
use ctxins.Stream.Accumulators.OpenAi.Order.{IndexedFrom, get_content_blocks-feed_chunks}
use ctxins.Stream.Accumulators.OpenAi.Done.{feed_chunks-close}
use ctxins.Stream.Accumulators.Anthropic as A
use ctxins.Stream.Accumulators.Anthropic.Deltas.{
  text_of, gathered, handle_deltas, handle_deltas-gathered,
}
use ctxins.Stream.Accumulators.Anthropic.Untyped.{untyped, process_events-feed}

abbrev event_of : List ℕ → SseEvent
event_of bytes = record { event = codes "message"; payload = bytes; id = none; retry = none }

-- Each chunk is the data of one event.
abbrev by_chunks : EventSource
by_chunks = record { State = Unit; feed = λ s chunk. (ok (event_of chunk ∷ []), s) }

abbrev loads : String → Option Json
loads s = some (obj end)

abbrev plain : Text → Text
plain t = t

-- Every chunk says the same word, and calls a tool.
abbrev load_chunk : Text → Loaded O.Chunk
load_chunk raw = loaded (record {
  usage = none;
  choices =
      record {
        finish_reason = none;
        reasoning_content = some "hm";
        content = some "word ";
        tool_calls =
            record { index = some 0; id = some "id"; name = some "ls"; arguments = some "{}" } ∷ [];
      }
      ∷ [];
})

get_content_blocks-feed_chunks_example :
    let t =
      (O.feed_chunks loads plain load_chunk by_chunks
        (tt, O.new_turn)
        ((1 ∷ []) ∷ (2 ∷ []) ∷ [] ∷ [])).1 in
    (O.get_content_blocks t ≡ t.ordered_blocks) × IndexedFrom 0 (O.get_content_blocks t)
get_content_blocks-feed_chunks_example =
    get_content_blocks-feed_chunks loads plain load_chunk by_chunks tt
      ((1 ∷ []) ∷ (2 ∷ []) ∷ [] ∷ [])

feed_chunks-close_example :
    ((O.feed_chunk loads plain load_chunk by_chunks (tt, O.new_turn) []).0 ≡ none)
    × ((O.feed_chunks loads plain load_chunk by_chunks
          (tt, O.new_turn)
          ([] ∷ (1 ∷ []) ∷ [])).1.is_done
        ≡ true)
feed_chunks-close_example =
    feed_chunks-close loads plain load_chunk by_chunks tt O.new_turn ((1 ∷ []) ∷ [])
      (event_of [] ∷ []) refl ((λ x h. cc), tt)

-- Data that is no object.
raising_test :
    (O.feed_chunk loads plain
      (λ raw. broken attribute_error)
      (record { State = Unit; feed = λ s chunk. (ok (event_of (1 ∷ []) ∷ []), s) })
      (tt, O.new_turn)
      [])
    ≡ (some attribute_error, (tt, O.new_turn))
unfolding O.feed_chunk O.after_parse O.process_events O.process_data
raising_test = refl

abbrev delta_at : ℕ → String → A.EventData
delta_at i said = record {
  event_type = some "content_block_delta";
  index = some i;
  start_usage = record {
    input_tokens = none;
    cache_creation_input_tokens = none;
    cache_read_input_tokens = none;
  };
  block_info = record { block_type = none; text = none; thinking = none; id = none; name = none };
  delta = record {
    delta_type = some "text_delta";
    text = some said;
    thinking = none;
    partial_json = none;
    stop_reason = none;
  };
  output_tokens = none;
}

abbrev deltas : List A.EventData
deltas = delta_at 0 "one " ∷ delta_at 1 "other" ∷ delta_at 0 "two" ∷ []

handle_deltas-gathered_example :
    text_of (get 0 (handle_deltas deltas A.new_turn).blocks)
    ≡ text_append (text_of (get 0 A.new_turn.blocks)) (gathered 0 deltas)
handle_deltas-gathered_example = handle_deltas-gathered 0 deltas A.new_turn

-- A decoder of bytes that are characters.
abbrev latin : Decoder
latin = record { State = Unit; decode = λ s bytes. (s, bytes); finish = λ s. (s, []) }

abbrev no_digits : CharTables
no_digits = record { is_digit = λ c. false; decimal = λ c. none }

-- `data: x` and a blank line.
abbrev sent : List ℕ
sent = codes "data: x" ++ 10 ∷ 10 ∷ []

process_events-feed_example :
    A.process_events loads
      (λ raw. untyped (loaded (delta_at 0 "lost")))
      (event_of (codes "x") ∷ [])
      A.new_turn
    ≡ A.process_events loads
        (λ raw. loaded (delta_at 0 "lost"))
        (event_of (codes "x") ∷ [])
        A.new_turn
unfolding feed feed_text rounds next_break choose_break break_at_cr find process_line process_field
    partition dispatch join_lines
process_events-feed_example =
    process_events-feed loads (λ raw. loaded (delta_at 0 "lost")) no_digits latin tt new_parser sent
      (event_of (codes "x") ∷ []) A.new_turn refl

lost_test :
    A.process_events loads
      (λ raw. loaded (delta_at 0 "lost"))
      (event_of (codes "x") ∷ [])
      A.new_turn
    ≡ (none, A.new_turn)
unfolding A.process_events A.process_event A.handle_loaded A.handle_event
lost_test = refl
