-- ===== src/Graph/Diff/Unchanged.antt =====
-- core/graph/diff.py: a turn compared with itself, and the growth in tokens.
use ctxins.Base.{
  ℕ, ◌+◌, ◌≡◌, ◌≢◌, refl, ap, ◌∙◌, ltb, ◌||◌, List, [], ◌∷◌, Option, none, some, String, arith, All,
  All-imply, All-first, first, if◌then◌else◌, string_eq, pair_eq, beq_refl, contains, Bool-cases,
  inl, inr,
}
use ctxins.Base.Int.{pos, pos_part, neg_part}
use ctxins.Base.Dict.{Dict}
use ctxins.Schema.{ContextBlock, CanonicalTurn, all_blocks}
use ctxins.Graph.Diff.{
  Key, block_match_key, by_key, unseen, added, persisted, mutated, change, change_from, ids_with,
  block_ids, delta_between, token_sum,
}
use ctxins.Graph.Diff.Keys.{of_key, get-by_key}
use ctxins.Graph.Diff.Partition.{delta_between-swap}
use ctxins.Graph.Diff.Breakpoint.{delta_between-whole}

-- Blocks of one key have one content.
abbrev pub OneContent : List ContextBlock → Type 0
OneContent bs =
    All
      (λ (a : ContextBlock).
        All
          (λ (b : ContextBlock).
            block_match_key b ≡ block_match_key a → a.content_hash ≡ b.content_hash)
          bs)
      bs

abbrev Found : List ContextBlock → ContextBlock → Type 0
Found bs a = first (of_key (block_match_key a)) bs ≢ none

All-Found : (bs : List ContextBlock) → All (Found bs) bs
All-Found [] = tt
All-Found (b ∷ bs) = (
  λ e. ground (arith, beq_refl (block_match_key b)),
  All-imply (Found bs) (Found (b ∷ bs)) bs (λ a h e. h (ground arith)) (All-Found bs),
)

-- A block whose key is found, with its content, persists.
Found-persisted :
    (bs : List ContextBlock) (a : ContextBlock)
    → All
        (λ (b : ContextBlock).
          block_match_key b ≡ block_match_key a → a.content_hash ≡ b.content_hash)
        bs
    → Found bs a
    → change (by_key [] bs) a ≡ persisted
unfolding change
Found-persisted bs a one found =
    ap (change_from a) (get-by_key (block_match_key a) bs)
    ∙ (persists (first (of_key (block_match_key a)) bs) refl)
  where
    persists :
        (o : Option ContextBlock)
        → first (of_key (block_match_key a)) bs ≡ o
        → change_from a o ≡ persisted
    persists none e = absurd (found e)
    persists (some b) e =
        let (same, hit) = All-first _ (of_key (block_match_key a)) bs one e in
        let one_hash : a.content_hash ≡ b.content_hash =
          same ((pair_eq.beq_iff (block_match_key b) (block_match_key a)).0 hit) in
        rw (one_hash, beq_refl b.content_hash) (ground arith)

All-persisted :
    (cs bs : List ContextBlock)
    → All
        (λ (a : ContextBlock).
          All
            (λ (b : ContextBlock).
              block_match_key b ≡ block_match_key a → a.content_hash ≡ b.content_hash)
            bs)
        cs
    → All (Found bs) cs
    → All (λ a. change (by_key [] bs) a ≡ persisted) cs
All-persisted [] bs h k = tt
All-persisted (c ∷ cs) bs h k = (Found-persisted bs c h.0 k.0, All-persisted cs bs h.1 k.1)

All-unseen :
    (P : ContextBlock → Type 0) (seen : List String) (bs : List ContextBlock)
    → All P bs
    → All P (unseen seen bs)
unfolding unseen
All-unseen P seen [] h = tt
All-unseen P seen (b ∷ bs) h = elim (Bool-cases (contains b.block_id seen)) [
  | inl e ↦ rw e (All-unseen P seen bs h.1)
  | inr e ↦ rw e (h.0, All-unseen P (b.block_id ∷ seen) bs h.1)
]

ids_with-persisted :
    (d : Dict Key ContextBlock) (bs : List ContextBlock)
    → All (λ b. change d b ≡ persisted) bs
    → (ids_with added d bs ≡ [])
      × (ids_with mutated d bs ≡ [])
      × (ids_with persisted d bs ≡ block_ids bs)
unfolding ids_with
ids_with-persisted d [] h = (refl, refl, refl)
ids_with-persisted d (b ∷ bs) h =
    let (a, m, p) = ids_with-persisted d bs h.1 in rw h.0 (a, m, ap (λ l. b.block_id ∷ l) p)

-- A turn in which the blocks of one key have one content does not differ from itself: nothing is added,
-- removed or mutated, every block persists, the cache does not break, and no token is gained.
pub delta_between_self :
    (turn : CanonicalTurn)
    → OneContent (all_blocks turn)
    → let d = delta_between turn turn in
      (d.added_block_ids ≡ [])
      × (d.removed_block_ids ≡ [])
      × (d.mutated_block_ids ≡ [])
      × (d.persisted_block_ids ≡ block_ids (unseen [] (all_blocks turn)))
      × (d.cache_breakpoint_block_id ≡ none)
      × (d.token_growth ≡ pos 0)
unfolding delta_between
delta_between_self turn one =
    let bs = all_blocks turn in
    let kept = All-unseen _ [] bs (All-persisted bs bs one (All-Found bs)) in
    let (a, m, p) = ids_with-persisted (by_key [] bs) (unseen [] bs) kept in
    (
      a,
      delta_between-swap turn turn ∙ a,
      m,
      p,
      (delta_between-whole turn turn).1 (a, m),
      ground arith,
    )

-- The tokens by which a turn is measured against another one: its input tokens, where one of the two
-- reports any, else the sum over its blocks.
abbrev pub measured : CanonicalTurn → CanonicalTurn → ℕ
measured turn other =
    if ltb 0 turn.input_tokens || ltb 0 other.input_tokens
    then turn.input_tokens
    else token_sum (all_blocks turn)

-- The token growth accounts for the current turn: what the previous turn measured, with the growth added
-- (its negative part on the other side), is what the current turn measures; and both turns are measured by
-- the same rule.
pub delta_between-growth :
    (turn_prev turn_curr : CanonicalTurn)
    → let growth = (delta_between turn_prev turn_curr).token_growth in
      pos_part growth + measured turn_prev turn_curr
      ≡ measured turn_curr turn_prev + neg_part growth
unfolding delta_between
delta_between-growth turn_prev turn_curr = ground arith
