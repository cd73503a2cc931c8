-- ===== src/Stream/Accumulators/OpenAi/Done.antt =====
-- interceptor/stream/accumulators/openai.py: the end of a turn.
use ctxins.Base.{
  Exception, ◌≢◌, All, ℕ, ◌≡◌, refl, Bool, true, false, List, [], ◌∷◌, Option, none, some, String,
  is_nil, if-keeps, Result, ok, raise,
}
use ctxins.Json.{Json}
use ctxins.Stream.Sse.{Text, codes, text_eq, SseEvent}
use ctxins.Stream.Accumulators.{EventSource, Loaded, unread, loaded, broken}
use ctxins.Stream.Accumulators.OpenAi.{
  ToolCallDelta, Choice, Chunk, UsageData, Turn, add_reasoning, add_content, add_tool_at, add_tool,
  add_tools, set_finish, handle_choice, set_usage, handle_choices, handle_chunk, finish,
  process_data, process_events, after_parse, close_after, feed_chunk, feed_chunks,
}

abbrev IsDone : Turn → Type 0
IsDone t = t.is_done ≡ true

add_reasoning-IsDone : (o : Option String) (t : Turn) → IsDone t → IsDone (add_reasoning o t)
unfolding add_reasoning
add_reasoning-IsDone none t h = h
add_reasoning-IsDone (some s) t h = h

add_content-IsDone : (o : Option String) (t : Turn) → IsDone t → IsDone (add_content o t)
unfolding add_content
add_content-IsDone none t h = h
add_content-IsDone (some s) t h = h

add_tool_at-IsDone :
    (o : Option ℕ) (tc : ToolCallDelta) (t : Turn) → IsDone t → IsDone (add_tool_at o tc t)
unfolding add_tool_at
add_tool_at-IsDone none tc t h = h
add_tool_at-IsDone (some i) tc t h = h

add_tools-IsDone : (tcs : List ToolCallDelta) (t : Turn) → IsDone t → IsDone (add_tools tcs t)
unfolding add_tools add_tool
add_tools-IsDone [] t h = h
add_tools-IsDone (tc ∷ tcs) t h = add_tools-IsDone tcs _ (add_tool_at-IsDone _ tc t h)

set_finish-IsDone : (o : Option String) (t : Turn) → IsDone t → IsDone (set_finish o t)
unfolding set_finish
set_finish-IsDone none t h = h
set_finish-IsDone (some r) t h = h

set_usage-IsDone : (o : Option UsageData) (t : Turn) → IsDone t → IsDone (set_usage o t)
unfolding set_usage
set_usage-IsDone none t h = h
set_usage-IsDone (some u) t h = h

handle_choices-IsDone : (cs : List Choice) (t : Turn) → IsDone t → IsDone (handle_choices cs t)
unfolding handle_choices handle_choice
handle_choices-IsDone [] t h = h
handle_choices-IsDone (c ∷ cs) t h = handle_choices-IsDone cs _ (
    add_tools-IsDone c.tool_calls _ (
      add_content-IsDone c.content _
        (add_reasoning-IsDone c.reasoning_content _ (set_finish-IsDone c.finish_reason t h))))

module _ (loads : String → Option Json) (strip : Text → Text)
    (load_chunk : Text → Loaded Chunk) where
  process_data-IsDone :
      (raw : Text) (t : Turn) → IsDone t → IsDone (process_data loads strip load_chunk raw t).1
  unfolding process_data finish handle_chunk
  process_data-IsDone raw t h =
      if-keeps Keeps (is_nil raw) (λ _. h)
        (λ _. if-keeps Keeps (text_eq raw (codes "[DONE]")) (λ _. refl) (λ _. go (load_chunk raw)))
    where
      Keeps : Option Exception × Turn → Type 0
      Keeps r = IsDone r.1

      go :
          (o : Loaded Chunk)
          → IsDone
              (elim o as (λ _. Option Exception × Turn) [
                | unread ↦ (none, t)
                | loaded c ↦ (none, handle_choices c.choices (set_usage c.usage t))
                | broken x ↦ (some x, t)
              ]).1
      go unread = h
      go (loaded c) = handle_choices-IsDone c.choices _ (set_usage-IsDone c.usage t h)
      go (broken x) = h

  process_events-IsDone :
      (evs : List SseEvent) (t : Turn)
      → IsDone t
      → IsDone (process_events loads strip load_chunk evs t).1
  unfolding process_events
  process_events-IsDone [] t h = h
  process_events-IsDone (ev ∷ evs) t h =
      let now = process_data loads strip load_chunk (strip ev.payload) t in
      let here = process_data-IsDone (strip ev.payload) t h in
      elim now.0
        as (λ (o : Option Exception).
          IsDone
            (elim o as (λ _. Option Exception × Turn) [
              | none ↦ process_events loads strip load_chunk evs now.1
              | some x ↦ (some x, now.1)
            ]).1) [ none ↦ process_events-IsDone evs now.1 here | some x ↦ here ]

  close_after-IsDone : (r : Option Exception × Turn) → IsDone r.1 → IsDone (close_after loads r).1
  unfolding finish
  close_after-IsDone (none, t) h = refl
  close_after-IsDone (some x, t) h = h

  after_parse-IsDone :
      (closing : Bool) (r : Result (List SseEvent)) (t : Turn)
      → IsDone t
      → IsDone (after_parse loads strip load_chunk closing r t).1
  unfolding after_parse
  after_parse-IsDone closing (raise x) t h = h
  after_parse-IsDone true (ok evs) t h =
      close_after-IsDone (process_events loads strip load_chunk evs t)
        (process_events-IsDone evs t h)
  after_parse-IsDone false (ok evs) t h = process_events-IsDone evs t h

  -- An event whose data the loop gets over: it is blank, or the end, or what is loaded does not break.
  abbrev pub IsHandled : SseEvent → Type 0
  IsHandled ev = (x : Exception) → load_chunk (strip ev.payload) ≢ broken x

  process_data-handled :
      (ev : SseEvent) (t : Turn)
      → IsHandled ev
      → (process_data loads strip load_chunk (strip ev.payload) t).0 ≡ none
  unfolding process_data
  process_data-handled ev t h =
      if-keeps Silent (is_nil (strip ev.payload)) (λ _. refl)
        (λ _.
          if-keeps Silent (text_eq (strip ev.payload) (codes "[DONE]")) (λ _. refl)
            (λ _. go (load_chunk (strip ev.payload)) h))
    where
      Silent : Option Exception × Turn → Type 0
      Silent r = r.0 ≡ none

      go :
          (o : Loaded Chunk)
          → ((x : Exception) → o ≢ broken x)
          → (elim o as (λ _. Option Exception × Turn) [
            | unread ↦ (none, t)
            | loaded c ↦ (none, handle_chunk c t)
            | broken x ↦ (some x, t)
          ]).0
            ≡ none
      go unread k = refl
      go (loaded c) k = refl
      go (broken x) k = absurd (k x refl)

  process_events-handled :
      (evs : List SseEvent) (t : Turn)
      → All IsHandled evs
      → (process_events loads strip load_chunk evs t).0 ≡ none
  unfolding process_events
  process_events-handled [] t h = refl
  process_events-handled (ev ∷ evs) t h =
      rw (process_data-handled ev t h.0, process_events) (process_events-handled evs _ h.1)

  -- A close after events that do not raise ends the turn.
  close_after_handled-IsDone :
      (r : Option Exception × Turn)
      → r.0 ≡ none
      → ((close_after loads r).0 ≡ none) × IsDone (close_after loads r).1
  unfolding finish
  close_after_handled-IsDone (none, t) h = (refl, refl)
  close_after_handled-IsDone (some x, t) h = cc

  module _ (source : EventSource) where
    feed_chunks-IsDone :
        (p : source.State) (t : Turn) (chunks : List (List ℕ))
        → IsDone t
        → IsDone (feed_chunks loads strip load_chunk source (p, t) chunks).1
    unfolding feed_chunks feed_chunk
    feed_chunks-IsDone p t [] h = h
    feed_chunks-IsDone p t (chunk ∷ chunks) h =
        feed_chunks-IsDone (source.feed p chunk).1 _ chunks
          (after_parse-IsDone (is_nil chunk) (source.feed p chunk).0 t h)

    pub feed_chunks-close :
        (p : source.State) (t : Turn) (later : List (List ℕ)) (events : List SseEvent)
        → (source.feed p []).0 ≡ ok events
        → All IsHandled events
        → ((feed_chunk loads strip load_chunk source (p, t) []).0 ≡ none)
          × ((feed_chunks loads strip load_chunk source (p, t) ([] ∷ later)).1.is_done ≡ true)
    unfolding feed_chunks feed_chunk after_parse
    feed_chunks-close p t later events e h =
        let done =
          close_after_handled-IsDone (process_events loads strip load_chunk events t)
            (process_events-handled events t h) in
        (rw e done.0, feed_chunks-IsDone (source.feed p []).1 _ later (rw e done.1))
