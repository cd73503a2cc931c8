-- ===== src/Stream/Accumulators/Anthropic/Untyped.antt =====
-- interceptor/stream/accumulators/anthropic.py, on the parser of sse_parser.py: the names of the events.
use ctxins.Base.{
  ℕ, ◌≡◌, refl, ap, subst, ◌∙◌, ◌||◌, List, [], ◌∷◌, Option, none, some, String, is_nil, All,
  Bool-cases, inl, inr, ok, Exception,
}
use ctxins.Json.{Json}
use ctxins.Stream.Sse.{Text, codes, text_eq, CharTables, SseEvent, SseParser}
use ctxins.Stream.Sse.Closing.{Decoder, feed}
use ctxins.Stream.Sse.Names.{Named, NamedAll, feed-Named}
use ctxins.Stream.Accumulators.{Loaded, unread, loaded, broken}
use ctxins.Stream.Accumulators.Anthropic.{
  EventData, Turn, handle_message_start, handle_content_block_start, handle_content_block_delta,
  handle_content_block_stop, handle_message_delta, handle_event, handle_loaded, process_event,
  process_events,
}

-- Data that names no type.
abbrev pub untyped : Loaded EventData → Loaded EventData
untyped unread = unread
untyped (loaded d) = loaded (record d { event_type = none })
untyped (broken x) = broken x

module _ (loads : String → Option Json) (load_event : Text → Loaded EventData) where
  handle_event-untyped :
      (event_type : Text) (d : EventData) (t : Turn)
      → handle_event loads event_type (record d { event_type = none }) t
        ≡ handle_event loads event_type d t
  unfolding handle_event handle_message_start handle_content_block_start handle_content_block_delta
      handle_content_block_stop handle_message_delta
  handle_event-untyped event_type d t = refl

  handle_loaded-untyped :
      (ev : SseEvent) (o : Loaded EventData) (t : Turn)
      → Named ev
      → handle_loaded loads (λ raw. untyped (load_event raw)) ev (untyped o) t
        ≡ handle_loaded loads load_event ev o t
  unfolding handle_loaded
  handle_loaded-untyped ev unread t h = refl
  handle_loaded-untyped ev (loaded d) t h =
      rw h (ap (λ (u : Turn). (none, u)) (handle_event-untyped ev.event d t))
  handle_loaded-untyped ev (broken x) t h = refl

  process_event-untyped :
      (ev : SseEvent) (t : Turn)
      → Named ev
      → process_event loads (λ raw. untyped (load_event raw)) ev t
        ≡ process_event loads load_event ev t
  unfolding process_event
  process_event-untyped ev t h =
      elim (Bool-cases (is_nil ev.payload || text_eq ev.event (codes "ping"))) [
        | inl skipped ↦ rw skipped refl
        | inr read ↦ rw read (handle_loaded-untyped ev (load_event ev.payload) t h)
      ]

  process_events-untyped :
      (evs : List SseEvent) (t : Turn)
      → All Named evs
      → process_events loads (λ raw. untyped (load_event raw)) evs t
        ≡ process_events loads load_event evs t
  unfolding process_events
  process_events-untyped [] t h = refl
  process_events-untyped (ev ∷ evs) t h =
      ap
        (λ (r : Option Exception × Turn). elim r.0 as (λ _. Option Exception × Turn) [
          | none ↦ process_events loads (λ raw. untyped (load_event raw)) evs r.1
          | some x ↦ (some x, r.1)
        ])
        (process_event-untyped ev t h.0)
      ∙ go (process_event loads load_event ev t) (λ u. process_events-untyped evs u h.1)
    where
      go :
          (r : Option Exception × Turn)
          → ((u : Turn)
              → process_events loads (λ raw. untyped (load_event raw)) evs u
                ≡ process_events loads load_event evs u)
          → (elim r.0 as (λ _. Option Exception × Turn) [
            | none ↦ process_events loads (λ raw. untyped (load_event raw)) evs r.1
            | some x ↦ (some x, r.1)
          ])
            ≡ (elim r.0 as (λ _. Option Exception × Turn) [
              | none ↦ process_events loads load_event evs r.1
              | some x ↦ (some x, r.1)
            ])
      go (none, u) later = later u
      go (some x, u) later = refl

  -- The type that the data of an event names is never looked at: whatever bytes the parser is fed or closed
  -- with, in whatever state, the events that it gives change the turn as they do with the types taken out of
  -- their data. The code falls back on that type for an event without a name, and the parser gives none.
  pub process_events-feed :
      (tables : CharTables) (d : Decoder) (s : d.State) (parser : SseParser) (chunk : List ℕ)
      (events : List SseEvent) (t : Turn)
      → (feed tables d s parser chunk).0 ≡ ok events
      → process_events loads (λ raw. untyped (load_event raw)) events t
        ≡ process_events loads load_event events t
  process_events-feed tables d s parser chunk events t e =
      process_events-untyped events t (subst NamedAll e (feed-Named tables d s parser chunk))
