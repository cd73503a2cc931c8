-- ===== src/Graph/Tree/Agreement.antt =====
-- core/graph/turn_tree.py: a recorded turn's blocks against the lineage.
use ctxins.Base.{
  ℕ, ◌≡◌, refl, ap, ◌∙◌, List, [], ◌∷◌, ◌++◌, Option, none, some, String, arith, All, All-append,
  All-imply, ◌=?◌, nat_eq, string_eq, pair_eq, beq_refl, Bool-cases, inl, inr,
}
use ctxins.Base.Dict.{Dict, get, insert, get-insert}
use ctxins.Schema.{ContextBlock, CanonicalTurn, all_blocks}
use ctxins.Graph.Diff.{Key, block_match_key}
use ctxins.Graph.Tree.{
  BlockLineage, ContextGraph, block_key, new_lineage, seen_again, trace, written, track, track_turn,
  add_turn,
}
use ctxins.Graph.Tree.Queries.{get_turn}

-- The block has a record, last seen in turn `i`, and says of its past what the record says.
pub record Agrees (i : ℕ) (lineage : Dict Key BlockLineage) (b : ContextBlock) : Type 0 where
  pub rec : BlockLineage
  pub recorded : get (block_key b) lineage ≡ some rec
  pub seen_now : rec.last_seen_turn ≡ i
  pub same_first : b.first_seen_turn ≡ rec.first_seen_turn
  pub same_survival : b.turns_survived ≡ rec.turns_survived

trace-seen : (i : ℕ) (b : ContextBlock) (o : Option BlockLineage) → (trace i b o).last_seen_turn ≡ i
unfolding trace new_lineage seen_again
trace-seen i b none = refl
trace-seen i b (some rec) = ground arith

trace-again :
    (i : ℕ) (b : ContextBlock) (rec : BlockLineage)
    → rec.last_seen_turn ≡ i
    → trace i b (some rec) ≡ rec
unfolding trace
trace-again i b rec h = ground arith

-- A record of this turn is not changed by the turn's other blocks.
track-stable :
    (i : ℕ) (d : Dict Key BlockLineage) (bs : List ContextBlock) (k : Key) (rec : BlockLineage)
    → rec.last_seen_turn ≡ i
    → get k d ≡ some rec
    → get k (track i d bs).1 ≡ some rec
unfolding track
track-stable i d [] k rec s h = h
track-stable i d (b ∷ bs) k rec s h =
    track-stable i (insert (block_key b) (trace i b (get (block_key b) d)) d) bs k rec s
      (elim (Bool-cases (block_key b =? k)) [
        | inl same ↦
            let one : block_key b ≡ k = (pair_eq.beq_iff (block_key b) k).0 same in
            get-insert (block_key b) k _ d
            ∙ (rw same
                (ap some (ap (trace i b) (ap (λ j. get j d) one ∙ h) ∙ trace-again i b rec s)))
        | inr other ↦ get-insert (block_key b) k _ d ∙ (rw other h)
      ])

stable-Agrees :
    (i : ℕ) (d : Dict Key BlockLineage) (bs : List ContextBlock) (b : ContextBlock)
    → Agrees i d b
    → Agrees i (track i d bs).1 b
stable-Agrees i d bs b a = record {
  rec = a.rec;
  recorded = track-stable i d bs (block_key b) a.rec a.seen_now a.recorded;
  seen_now = a.seen_now;
  same_first = a.same_first;
  same_survival = a.same_survival;
}

written-Agrees :
    (i : ℕ) (d : Dict Key BlockLineage) (b : ContextBlock)
    → let rec = trace i b (get (block_key b) d) in
      Agrees i (insert (block_key b) rec d) (written rec b)
unfolding written block_match_key
written-Agrees i d b =
    let rec = trace i b (get (block_key b) d) in
    record {
      rec = rec;
      recorded = get-insert (block_key b) (block_key b) rec d ∙ (rw (beq_refl (block_key b)) refl);
      seen_now = trace-seen i b (get (block_key b) d);
      same_first = refl;
      same_survival = refl;
    }

track-Agrees :
    (i : ℕ) (d : Dict Key BlockLineage) (bs : List ContextBlock)
    → All (Agrees i (track i d bs).1) (track i d bs).0
unfolding track
track-Agrees i d [] = tt
track-Agrees i d (b ∷ bs) =
    let rec = trace i b (get (block_key b) d) in
    let d' = insert (block_key b) rec d in
    (stable-Agrees i d' bs (written rec b) (written-Agrees i d b), track-Agrees i d' bs)

-- What agreed still does after the loop has gone through another list of blocks.
later-Agrees :
    (i : ℕ) (d : Dict Key BlockLineage) (bs cs : List ContextBlock)
    → All (Agrees i d) cs
    → All (Agrees i (track i d bs).1) cs
later-Agrees i d bs cs h =
    All-imply (Agrees i d) (Agrees i (track i d bs).1) cs (stable-Agrees i d bs) h

-- One more list of blocks, in front of those that a later loop gave.
cons-Agrees :
    (i : ℕ) (d e : Dict Key BlockLineage) (bs cs : List ContextBlock)
    → ((xs : List ContextBlock) → All (Agrees i (track i d bs).1) xs → All (Agrees i e) xs)
    → All (Agrees i e) cs
    → All (Agrees i e) ((track i d bs).0 ++ cs)
cons-Agrees i d e bs cs later h =
    All-append (Agrees i e) (track i d bs).0 cs (later (track i d bs).0 (track-Agrees i d bs)) h

track_turn-Agrees :
    (d : Dict Key BlockLineage) (turn : CanonicalTurn)
    → All (Agrees turn.turn_index (track_turn d turn).1) (all_blocks (track_turn d turn).0)
unfolding track_turn all_blocks
track_turn-Agrees d turn =
    let i = turn.turn_index in
    let d1 = (track i d turn.system_blocks).1 in
    let d2 = (track i d1 turn.tool_defs).1 in
    let d3 = (track i d2 turn.conversation_history).1 in
    let d4 = (track i d3 turn.tool_results).1 in
    let d5 = (track i d4 turn.assistant_blocks).1 in
    let from4 = λ (xs : List ContextBlock) (h : All (Agrees i d4) xs).
      later-Agrees i d4 turn.assistant_blocks xs h in
    let from3 = λ (xs : List ContextBlock) (h : All (Agrees i d3) xs).
      from4 xs (later-Agrees i d3 turn.tool_results xs h) in
    let from2 = λ (xs : List ContextBlock) (h : All (Agrees i d2) xs).
      from3 xs (later-Agrees i d2 turn.conversation_history xs h) in
    let from1 = λ (xs : List ContextBlock) (h : All (Agrees i d1) xs).
      from2 xs (later-Agrees i d1 turn.tool_defs xs h) in
    cons-Agrees i d d5 turn.system_blocks _ from1 (
      cons-Agrees i d1 d5 turn.tool_defs _ from2 (
        cons-Agrees i d2 d5 turn.conversation_history _ from3 (
          cons-Agrees i d3 d5 turn.tool_results _ from4 (track-Agrees i d4 turn.assistant_blocks))))

-- After a turn is added, `get_turn` finds a turn under its index, and each of that turn's blocks, in all of
-- its five lists, has a lineage record that was last seen in this turn and that gives the block's first turn
-- and its survival.
pub add_turn-Agrees :
    (g : ContextGraph) (turn : CanonicalTurn) (parent_turn_id : Option String)
    → let g' = (add_turn g turn parent_turn_id).0 in
      (found : CanonicalTurn) × (get_turn g' turn.turn_index ≡ some found)
      × All (Agrees turn.turn_index g'.lineage) (all_blocks found)
unfolding add_turn get_turn
add_turn-Agrees g turn parent_turn_id = (
  (track_turn g.lineage turn).0,
  get-insert turn.turn_index turn.turn_index _ g.turns_by_index
      ∙ (rw (beq_refl turn.turn_index) refl),
  track_turn-Agrees g.lineage turn,
)
