-- ===== src/Stream/Accumulators/Anthropic/Deltas.antt =====
-- interceptor/stream/accumulators/anthropic.py: the text of a block.
use Prim.Native.String.{◌++◌ as text_append}
use text.Mathlib.TextLemmas.{append_assoc, append-nil}
use ctxins.Base.{
  ℕ, ◌≡◌, refl, sym, ap, if-keeps, ◌∙◌, List, [], ◌∷◌, Option, none, some, String, ◌=?◌, nat_eq,
  string_eq, if◌then◌else◌, Bool-cases, inl, inr,
}
use ctxins.Base.Dict.{get, get-insert}
use ctxins.Wire.{ContentBlock, content_block}
use ctxins.Stream.Accumulators.{or_empty, append_text}
use ctxins.Stream.Accumulators.Anthropic.{
  EventData, Delta, is_type, number_or, Turn, missing_block, block_or_missing, apply_delta,
  handle_content_block_delta,
}

-- The text of a block that may be missing.
abbrev pub text_of : Option ContentBlock → String
text_of none = ""
text_of (some b) = or_empty b.text

-- What a delta adds to a block's text.
abbrev pub added_text : Delta → String
added_text delta =
    if is_type delta.delta_type "text_delta"
    then or_empty delta.text
    else if is_type delta.delta_type "thinking_delta"
    then or_empty delta.thinking
    else ""

abbrev index_of : EventData → ℕ
index_of d = number_or d.index 0

-- What the deltas of an index add, one after the other.
unfoldable pub gathered : ℕ → List EventData → String
gathered idx [] = ""
gathered idx (d ∷ ds) =
    let later = gathered idx ds in
    if index_of d =? idx then text_append (added_text d.delta) later else later

unfoldable pub handle_deltas : List EventData → Turn → Turn
handle_deltas [] t = t
handle_deltas (d ∷ ds) t = handle_deltas ds (handle_content_block_delta d t)

apply_delta-text :
    (delta : Delta) (b : ContentBlock)
    → or_empty (apply_delta delta b).text ≡ text_append (or_empty b.text) (added_text delta)
unfolding apply_delta append_text
apply_delta-text delta b = elim (Bool-cases (is_type delta.delta_type "text_delta")) [
  | inl said ↦ rw said
  | inr other ↦ elim (Bool-cases (is_type delta.delta_type "thinking_delta")) [
    | inl thought ↦ rw (other, thought)
    | inr neither ↦ elim (Bool-cases (is_type delta.delta_type "input_json_delta")) [
      | inl json ↦ rw (other, neither, json) (sym (append-nil (or_empty b.text)))
      | inr none_of ↦ rw (other, neither, none_of) (sym (append-nil (or_empty b.text)))
    ]
  ]
]

missing_block-text : (idx : ℕ) (delta : Delta) → or_empty (missing_block idx delta).text ≡ ""
unfolding missing_block content_block
missing_block-text idx delta =
    if-keeps (λ (b : ContentBlock). or_empty b.text ≡ "")
      (is_type delta.delta_type "input_json_delta") (λ _. refl)
      (λ _.
        if-keeps (λ (b : ContentBlock). or_empty b.text ≡ "")
          (is_type delta.delta_type "thinking_delta") (λ _. refl) (λ _. refl))

block_or_missing-text :
    (idx : ℕ) (delta : Delta) (o : Option ContentBlock)
    → or_empty (block_or_missing idx delta o).text ≡ text_of o
unfolding block_or_missing
block_or_missing-text idx delta none = missing_block-text idx delta
block_or_missing-text idx delta (some b) = refl

-- One delta adds its text to the block of its index, and to no other.
handle_content_block_delta-text :
    (j : ℕ) (d : EventData) (t : Turn)
    → text_of (get j (handle_content_block_delta d t).blocks)
      ≡ text_append (text_of (get j t.blocks)) (if index_of d =? j then added_text d.delta else "")
unfolding handle_content_block_delta
handle_content_block_delta-text j d t = elim (Bool-cases (index_of d =? j)) [
  | inl e ↦
      let same : index_of d ≡ j = (nat_eq.beq_iff (index_of d) j).0 e in
      rw (get-insert, e)
        (apply_delta-text d.delta
            (block_or_missing (index_of d) d.delta (get (index_of d) t.blocks))
          ∙ ap (λ s. text_append s (added_text d.delta))
              (block_or_missing-text (index_of d) d.delta (get (index_of d) t.blocks)
                ∙ ap (λ i. text_of (get i t.blocks)) same))
  | inr e ↦ rw (get-insert, e) (sym (append-nil (text_of (get j t.blocks))))
]

-- Whatever deltas come in whatever order, the text of a block is the text that it had and then the texts of
-- the deltas of its index, in their order: deltas of other blocks do not touch it.
pub handle_deltas-gathered :
    (idx : ℕ) (ds : List EventData) (t : Turn)
    → text_of (get idx (handle_deltas ds t).blocks)
      ≡ text_append (text_of (get idx t.blocks)) (gathered idx ds)
unfolding handle_deltas gathered
handle_deltas-gathered idx [] t = sym (append-nil (text_of (get idx t.blocks)))
handle_deltas-gathered idx (d ∷ ds) t =
    handle_deltas-gathered idx ds (handle_content_block_delta d t)
    ∙ ap (λ s. text_append s (gathered idx ds)) (handle_content_block_delta-text idx d t)
    ∙ elim (Bool-cases (index_of d =? idx)) [
      | inl e ↦ rw e (append_assoc _ _ _)
      | inr e ↦
          rw e (ap (λ s. text_append s (gathered idx ds)) (append-nil (text_of (get idx t.blocks))))
    ]
