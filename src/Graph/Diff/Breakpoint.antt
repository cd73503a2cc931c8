-- ===== src/Graph/Diff/Breakpoint.antt =====
-- core/graph/diff.py: where the prompt cache breaks.
use ctxins.Base.{
  ◌+◌, ◌≤◌, ◌≡◌, ◌↔◌, refl, ap, true, false, List, [], ◌∷◌, ◌++◌, Option, none, some, String, arith,
  All, contains, ◌=?◌, if◌then◌else◌, Bool-cases, inl, inr, string_eq, beq_refl,
}
use ctxins.Schema.{ContextBlock, CanonicalTurn, all_blocks}
use ctxins.Graph.Diff.{cache_breakpoint, block_ids, delta_between}
use ctxins.Graph.Diff.Partition.{count, delta_between-partition}

-- The rest starts with the block that broke the prefix, or nothing is left.
abbrev pub StartsWith : List String → List ContextBlock → Option String → Type 0
StartsWith ps [] o = o ≡ none
StartsWith ps (b ∷ bs) o = (o ≡ some b.block_id) × (contains b.block_id ps ≡ false)

-- The blocks are split where the prefix of persisted ones ends.
pub record Breaks (persisted_ids : List String) (bs : List ContextBlock) (o : Option String)
    : Type 0 where
  pub kept : List ContextBlock
  pub rest : List ContextBlock
  pub split : bs ≡ kept ++ rest
  pub kept_persisted : All (λ (b : ContextBlock). contains b.block_id persisted_ids ≡ true) kept
  pub rest_broken : StartsWith persisted_ids rest o

cache_breakpoint-Breaks :
    (ps : List String) (bs : List ContextBlock) → Breaks ps bs (cache_breakpoint ps bs)
unfolding cache_breakpoint
cache_breakpoint-Breaks ps [] = record {
  kept = [];
  rest = [];
  split = refl;
  kept_persisted = tt;
  rest_broken = refl;
}
cache_breakpoint-Breaks ps (b ∷ bs) =
    let later = cache_breakpoint-Breaks ps bs in
    elim (Bool-cases (contains b.block_id ps)) [
      | inl e ↦ rw e (record {
        kept = b ∷ later.kept;
        rest = later.rest;
        split = ap (λ l. b ∷ l) later.split;
        kept_persisted = (e, later.kept_persisted);
        rest_broken = later.rest_broken;
      })
      | inr e ↦ rw e (record {
        kept = [];
        rest = b ∷ bs;
        split = refl;
        kept_persisted = tt;
        rest_broken = (refl, e);
      })
    ]

-- The cache breakpoint between two turns is the first block of the current turn, in prefix order, whose id
-- is not among the persisted ones: every block before it persisted; there is none if all persisted.
pub delta_between-breakpoint :
    (turn_prev turn_curr : CanonicalTurn)
    → let d = delta_between turn_prev turn_curr in
      Breaks d.persisted_block_ids (all_blocks turn_curr) d.cache_breakpoint_block_id
unfolding delta_between
delta_between-breakpoint turn_prev turn_curr = cache_breakpoint-Breaks _ (all_blocks turn_curr)

pub count-contains : (x : String) (ys : List String) → (contains x ys ≡ true) ↔ (1 ≤ count x ys)
count-contains x [] = ground arith
count-contains x (y ∷ ys) = ground (arith, count-contains x ys)

empty_of_count : (ys : List String) → ((x : String) → count x ys ≡ 0) → ys ≡ []
empty_of_count [] h = refl
empty_of_count (y ∷ ys) h = absurd (ground (arith, h y, beq_refl y))

no_break-contains :
    (ps : List String) (bs : List ContextBlock) (x : String)
    → cache_breakpoint ps bs ≡ none
    → contains x (block_ids bs) ≡ true
    → contains x ps ≡ true
unfolding cache_breakpoint
no_break-contains ps [] x h k = cc
no_break-contains ps (b ∷ bs) x h k = elim (Bool-cases (b.block_id =? x)) [
  | inl same ↦ ground (arith, string_eq.beq_iff b.block_id x)
  | inr other ↦ no_break-contains ps bs x (ground arith) (ground arith)
]

contains-no_break :
    (ps : List String) (bs : List ContextBlock)
    → ((x : String) → contains x (block_ids bs) ≡ true → contains x ps ≡ true)
    → cache_breakpoint ps bs ≡ none
unfolding cache_breakpoint
contains-no_break ps [] h = refl
contains-no_break ps (b ∷ bs) h =
    let here : contains b.block_id ps ≡ true = h b.block_id (ground (arith, beq_refl b.block_id)) in
    rw here (contains-no_break ps bs (λ x k. h x (ground arith)))

module _ (x : String) (ids added_ids kept_ids mutated_ids : List String) where
  -- An id of which every block persisted is in neither of the other lists.
  none_left :
      (contains x ids ≡ true → contains x kept_ids ≡ true)
      → count x added_ids + count x kept_ids + count x mutated_ids
        ≡ (if contains x ids then 1 else 0)
      → (count x added_ids ≡ 0) × (count x mutated_ids ≡ 0)
  none_left h e = ground (arith, count-contains x kept_ids)

  all_kept :
      contains x ids ≡ true
      → count x added_ids + count x kept_ids + count x mutated_ids
        ≡ (if contains x ids then 1 else 0)
      → added_ids ≡ []
      → mutated_ids ≡ []
      → contains x kept_ids ≡ true
  all_kept k e a m = ground (arith, count-contains x kept_ids, ap (count x) a, ap (count x) m)

-- The cache is whole exactly if nothing new stands in the prompt: there is no breakpoint between two turns
-- exactly if no block was added and none was mutated.
pub delta_between-whole :
    (turn_prev turn_curr : CanonicalTurn)
    → let d = delta_between turn_prev turn_curr in
      (d.cache_breakpoint_block_id ≡ none) ↔ ((d.added_block_ids ≡ []) × (d.mutated_block_ids ≡ []))
unfolding delta_between
delta_between-whole turn_prev turn_curr =
    let d = delta_between turn_prev turn_curr in
    let ids = block_ids (all_blocks turn_curr) in
    let sorted = delta_between-partition turn_prev turn_curr in
    (
      λ h.
          let kept = λ (x : String) (k : contains x ids ≡ true).
            no_break-contains d.persisted_block_ids (all_blocks turn_curr) x h k in
          (
            empty_of_count d.added_block_ids (λ x.
                (none_left x ids d.added_block_ids d.persisted_block_ids d.mutated_block_ids
                  (kept x) (sorted x)).0),
            empty_of_count d.mutated_block_ids (λ x.
                (none_left x ids d.added_block_ids d.persisted_block_ids d.mutated_block_ids
                  (kept x) (sorted x)).1),
          ),
      λ h. contains-no_break d.persisted_block_ids (all_blocks turn_curr) (λ x k.
          all_kept x ids d.added_block_ids d.persisted_block_ids d.mutated_block_ids k (sorted x)
            h.0 h.1),
    )
