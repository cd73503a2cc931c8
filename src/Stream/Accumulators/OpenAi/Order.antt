-- ===== src/Stream/Accumulators/OpenAi/Order.antt =====
-- interceptor/stream/accumulators/openai.py: the blocks and their indices.
use ctxins.Base.{
  Exception, subst, sym, ℕ, zero, suc, ◌+◌, ◌≡◌, refl, ◌∙◌, Bool, true, false, List, [], ◌∷◌, ◌++◌,
  Option, none, some, String, length, is_nil, string_eq, nat_eq, if-keeps, arith, Result, ok, raise,
}
use ctxins.Base.Dict.{get, values}
use ctxins.Json.{Json}
use ctxins.Wire.{ContentBlock, content_block}
use ctxins.Stream.Sse.{Text, codes, text_eq, SseEvent}
use ctxins.Stream.Accumulators.{
  EventSource, Loaded, unread, loaded, broken, append_text, input_of, parse_input, finalize_block,
}
use ctxins.Stream.Accumulators.OpenAi.{
  ToolCallDelta, Choice, Chunk, Turn, new_turn, modify_at, ensure, add_reasoning, add_content,
  new_tool_block, extend_tool, index_or_zero, add_tool_at, add_tool, add_tools, set_finish,
  handle_choice, set_usage, handle_choices, handle_chunk, finalize_at, finalize, finish,
  process_data, process_events, after_parse, close_after, feed_chunk, feed_chunks, insert_block,
  sort_blocks, get_content_blocks,
}

-- The blocks have the indices from n on, in their order.
unfoldable pub IndexedFrom : ℕ → List ContentBlock → Type 0
IndexedFrom n [] = Unit
IndexedFrom n (b ∷ bs) = (b.index ≡ n) × IndexedFrom (suc n) bs

IndexedFrom-append_one :
    (n : ℕ) (bs : List ContentBlock) (b : ContentBlock)
    → IndexedFrom n bs
    → b.index ≡ n + length bs
    → IndexedFrom n (bs ++ b ∷ [])
unfolding IndexedFrom
IndexedFrom-append_one n [] b h e = (omega arith, tt)
IndexedFrom-append_one n (c ∷ bs) b h e =
    (h.0, IndexedFrom-append_one (suc n) bs b h.1 (omega arith))

modify_at-IndexedFrom :
    (n i : ℕ) (f : ContentBlock → ContentBlock) (bs : List ContentBlock)
    → ((b : ContentBlock) → (f b).index ≡ b.index)
    → IndexedFrom n bs
    → IndexedFrom n (modify_at i f bs)
unfolding IndexedFrom modify_at
modify_at-IndexedFrom n i f [] k h = h
modify_at-IndexedFrom n zero f (b ∷ bs) k h = (k b ∙ h.0, h.1)
modify_at-IndexedFrom n (suc i) f (b ∷ bs) k h = (h.0, modify_at-IndexedFrom (suc n) i f bs k h.1)

append_text-index : (s : String) (b : ContentBlock) → (append_text s b).index ≡ b.index
unfolding append_text
append_text-index s b = refl

extend_tool-index : (tc : ToolCallDelta) (b : ContentBlock) → (extend_tool tc b).index ≡ b.index
unfolding extend_tool
extend_tool-index tc b = refl

finalize_block-index :
    (loads : String → Option Json) (b : ContentBlock) → (finalize_block loads b).index ≡ b.index
unfolding finalize_block parse_input
finalize_block-index loads b = go b.parsed_input b.partial_json
  where
    go :
        (o : Option Json) (p : Option String)
        → (elim o as (λ _. ContentBlock) [
          | none ↦ elim p as (λ _. ContentBlock) [
            | none ↦ b
            | some raw ↦ record b { parsed_input = input_of loads raw }
          ]
          | some _ ↦ b
        ]).index
          ≡ b.index
    go none none = refl
    go none (some raw) = refl
    go (some v) p = refl

-- The block at each place has that place for its index.
abbrev pub IsOrdered : Turn → Type 0
IsOrdered t = IndexedFrom 0 t.ordered_blocks

ensure-IsOrdered :
    (kind : String) (o : Option ℕ) (bs : List ContentBlock)
    → IndexedFrom 0 bs
    → IndexedFrom 0 (ensure kind o bs).1
unfolding ensure content_block
ensure-IsOrdered kind none bs h = IndexedFrom-append_one 0 bs _ h (omega arith)
ensure-IsOrdered kind (some i) bs h = h

add_reasoning-IsOrdered :
    (o : Option String) (t : Turn) → IsOrdered t → IsOrdered (add_reasoning o t)
unfolding add_reasoning
add_reasoning-IsOrdered none t h = h
add_reasoning-IsOrdered (some s) t h =
    modify_at-IndexedFrom 0 _ (append_text s) _ (append_text-index s)
      (ensure-IsOrdered "thinking" t.thinking_block t.ordered_blocks h)

add_content-IsOrdered : (o : Option String) (t : Turn) → IsOrdered t → IsOrdered (add_content o t)
unfolding add_content
add_content-IsOrdered none t h = h
add_content-IsOrdered (some s) t h =
    modify_at-IndexedFrom 0 _ (append_text s) _ (append_text-index s)
      (ensure-IsOrdered "text" t.text_block t.ordered_blocks h)

add_tool_at-IsOrdered :
    (o : Option ℕ) (tc : ToolCallDelta) (t : Turn) → IsOrdered t → IsOrdered (add_tool_at o tc t)
unfolding add_tool_at new_tool_block content_block
add_tool_at-IsOrdered none tc t h = IndexedFrom-append_one 0 t.ordered_blocks _ h (omega arith)
add_tool_at-IsOrdered (some i) tc t h =
    modify_at-IndexedFrom 0 i (extend_tool tc) t.ordered_blocks (extend_tool-index tc) h

add_tools-IsOrdered :
    (tcs : List ToolCallDelta) (t : Turn) → IsOrdered t → IsOrdered (add_tools tcs t)
unfolding add_tools add_tool
add_tools-IsOrdered [] t h = h
add_tools-IsOrdered (tc ∷ tcs) t h =
    let place = get (index_or_zero tc.index) t.tool_blocks in
    add_tools-IsOrdered tcs (add_tool_at place tc t) (add_tool_at-IsOrdered place tc t h)

set_finish-IsOrdered : (o : Option String) (t : Turn) → IsOrdered t → IsOrdered (set_finish o t)
unfolding set_finish
set_finish-IsOrdered none t h = h
set_finish-IsOrdered (some r) t h = h

handle_choices-IsOrdered :
    (cs : List Choice) (t : Turn) → IsOrdered t → IsOrdered (handle_choices cs t)
unfolding handle_choices handle_choice
handle_choices-IsOrdered [] t h = h
handle_choices-IsOrdered (c ∷ cs) t h = handle_choices-IsOrdered cs _ (
    add_tools-IsOrdered c.tool_calls _ (
      add_content-IsOrdered c.content _
        (add_reasoning-IsOrdered c.reasoning_content _ (set_finish-IsOrdered c.finish_reason t h))))

handle_chunk-IsOrdered : (c : Chunk) (t : Turn) → IsOrdered t → IsOrdered (handle_chunk c t)
unfolding handle_chunk set_usage
handle_chunk-IsOrdered c t h = go c.usage
  where
    go : (o : _) → IsOrdered (handle_choices c.choices (set_usage o t))
    go none = handle_choices-IsOrdered c.choices t h
    go (some u) = handle_choices-IsOrdered c.choices (set_usage (some u) t) h

module _ (loads : String → Option Json) where
  finalize_at-IndexedFrom :
      (places : List ℕ) (bs : List ContentBlock)
      → IndexedFrom 0 bs
      → IndexedFrom 0 (finalize_at loads places bs)
  unfolding finalize_at
  finalize_at-IndexedFrom [] bs h = h
  finalize_at-IndexedFrom (i ∷ places) bs h =
      finalize_at-IndexedFrom places _
        (modify_at-IndexedFrom 0 i (finalize_block loads) bs (finalize_block-index loads) h)

  finish-IsOrdered : (t : Turn) → IsOrdered t → IsOrdered (finish loads t)
  unfolding finish finalize
  finish-IsOrdered t h = finalize_at-IndexedFrom (values t.tool_blocks) t.ordered_blocks h

  module _ (strip : Text → Text) (load_chunk : Text → Loaded Chunk) where
    process_data-IsOrdered :
        (raw : Text) (t : Turn)
        → IsOrdered t
        → IsOrdered (process_data loads strip load_chunk raw t).1
    unfolding process_data
    process_data-IsOrdered raw t h =
        if-keeps Keeps (is_nil raw) (λ _. h)
          (λ _.
            if-keeps Keeps (text_eq raw (codes "[DONE]")) (λ _. finish-IsOrdered t h)
              (λ _. go (load_chunk raw)))
      where
        Keeps : Option Exception × Turn → Type 0
        Keeps r = IsOrdered r.1

        go :
            (o : Loaded Chunk)
            → IsOrdered
                (elim o as (λ _. Option Exception × Turn) [
                  | unread ↦ (none, t)
                  | loaded c ↦ (none, handle_chunk c t)
                  | broken x ↦ (some x, t)
                ]).1
        go unread = h
        go (loaded c) = handle_chunk-IsOrdered c t h
        go (broken x) = h

    process_events-IsOrdered :
        (evs : List SseEvent) (t : Turn)
        → IsOrdered t
        → IsOrdered (process_events loads strip load_chunk evs t).1
    unfolding process_events
    process_events-IsOrdered [] t h = h
    process_events-IsOrdered (ev ∷ evs) t h =
        let now = process_data loads strip load_chunk (strip ev.payload) t in
        let here = process_data-IsOrdered (strip ev.payload) t h in
        elim now.0
          as (λ (o : Option Exception).
            IsOrdered
              (elim o as (λ _. Option Exception × Turn) [
                | none ↦ process_events loads strip load_chunk evs now.1
                | some x ↦ (some x, now.1)
              ]).1) [ none ↦ process_events-IsOrdered evs now.1 here | some x ↦ here ]

    after_parse-IsOrdered :
        (closing : Bool) (r : Result (List SseEvent)) (t : Turn)
        → IsOrdered t
        → IsOrdered (after_parse loads strip load_chunk closing r t).1
    unfolding after_parse
    after_parse-IsOrdered closing (raise x) t h = h
    after_parse-IsOrdered true (ok evs) t h =
        closed (process_events loads strip load_chunk evs t) (process_events-IsOrdered evs t h)
      where
        closed : (r : Option Exception × Turn) → IsOrdered r.1 → IsOrdered (close_after loads r).1
        closed (none, u) k = finish-IsOrdered u k
        closed (some x, u) k = k
    after_parse-IsOrdered false (ok evs) t h = process_events-IsOrdered evs t h

    module _ (source : EventSource) where
      feed_chunks-IsOrdered :
          (p : source.State) (t : Turn) (chunks : List (List ℕ))
          → IsOrdered t
          → IsOrdered (feed_chunks loads strip load_chunk source (p, t) chunks).1
      unfolding feed_chunks feed_chunk
      feed_chunks-IsOrdered p t [] h = h
      feed_chunks-IsOrdered p t (chunk ∷ chunks) h =
          feed_chunks-IsOrdered (source.feed p chunk).1 _ chunks
            (after_parse-IsOrdered (is_nil chunk) (source.feed p chunk).0 t h)

sort_blocks-IndexedFrom : (n : ℕ) (bs : List ContentBlock) → IndexedFrom n bs → sort_blocks bs ≡ bs
unfolding sort_blocks insert_block IndexedFrom
sort_blocks-IndexedFrom n [] h = refl
sort_blocks-IndexedFrom n (b ∷ []) h = refl
sort_blocks-IndexedFrom n (b ∷ c ∷ bs) h =
    let later = sort_blocks-IndexedFrom (suc n) (c ∷ bs) h.1 in
    rw later (ground (arith, h.0, h.1.0))

module _ (loads : String → Option Json) (strip : Text → Text) (load_chunk : Text → Loaded Chunk)
    (source : EventSource) where
  -- Whatever chunks a fresh accumulator is fed, the blocks that it gives are those that it has built, in the
  -- order in which they began, and the index of each is its place among them.
  pub get_content_blocks-feed_chunks :
      (p : source.State) (chunks : List (List ℕ))
      → let t = (feed_chunks loads strip load_chunk source (p, new_turn) chunks).1 in
        (get_content_blocks t ≡ t.ordered_blocks) × IndexedFrom 0 (get_content_blocks t)
  unfolding get_content_blocks new_turn IndexedFrom
  get_content_blocks-feed_chunks p chunks =
      let t = (feed_chunks loads strip load_chunk source (p, new_turn) chunks).1 in
      let ordered : IndexedFrom 0 t.ordered_blocks =
        feed_chunks-IsOrdered loads strip load_chunk source p new_turn chunks tt in
      let same = sort_blocks-IndexedFrom 0 t.ordered_blocks ordered in
      (same, subst (IndexedFrom 0) (sym same) ordered)
