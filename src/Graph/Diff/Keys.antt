-- ===== src/Graph/Diff/Keys.antt =====
-- core/graph/diff.py: the lookup by key.
use ctxins.Base.{
  ◌≡◌, refl, ◌∙◌, Bool, List, [], ◌∷◌, none, some, arith, first, ◌=?◌, string_eq, pair_eq,
}
use ctxins.Base.Dict.{Dict, get, set_default, get-set_default, get-empty}
use ctxins.Schema.{ContextBlock}
use ctxins.Graph.Diff.{Key, block_match_key, by_key}

abbrev pub of_key : Key → ContextBlock → Bool
of_key k b = block_match_key b =? k

get-by_key_onto :
    (k : Key) (d : Dict Key ContextBlock) (bs : List ContextBlock)
    → get k (by_key d bs) ≡ (elim (get k d) [ none ↦ first (of_key k) bs | some b ↦ some b ])
unfolding by_key
get-by_key_onto k d [] = ground arith
get-by_key_onto k d (b ∷ bs) =
    get-by_key_onto k (set_default (block_match_key b) b d) bs
    ∙ rw (get-set_default (block_match_key b) k b d) (ground arith)

pub get-by_key : (k : Key) (bs : List ContextBlock) → get k (by_key [] bs) ≡ first (of_key k) bs
get-by_key k bs = rw (get-by_key_onto k [] bs, get-empty k) refl
