-- ===== src/Graph/Tree/Lineage.antt =====
-- core/graph/turn_tree.py: what a lineage record says, over the turns that are added.
use ctxins.Base.{
  ℕ, zero, suc, ◌+◌, ◌-◌, ◌≤◌, ◌≡◌, refl, subst, true, ◌==◌, List, [], ◌∷◌, ◌++◌, Option, none,
  some, String, arith, contains, ◌=?◌, nat_eq, string_eq, pair_eq, beq_refl, Bool-cases, ◌⊎◌, inl,
  inr, if-keeps, Eq,
}
use ctxins.Base.Dict.{Dict, get, insert, get-insert}
use ctxins.Schema.{ContextBlock, CanonicalTurn}
use ctxins.Graph.Diff.{Key, truthy}
use ctxins.Graph.Tree.{
  BlockLineage, ContextGraph, block_key, remember, new_lineage, seen_again, survival, trace, track,
  track_turn, add_turn,
}

-- `now` is the index of the newest turn. The block was first seen no later than its streak began, and the
-- streak is one: it was seen in each of the last `turns_survived` turns up to the last one that has it. Its
-- content is among the contents that it has had.
pub record IsTracked (now : ℕ) (rec : BlockLineage) : Type 0 where
  pub not_ahead : rec.last_seen_turn ≤ now
  pub since_first : rec.first_seen_turn + rec.turns_survived ≤ rec.last_seen_turn
  pub streak :
      (k : ℕ) → k ≤ rec.turns_survived → contains (rec.last_seen_turn - k) rec.seen_turns ≡ true
  pub remembered :
      truthy rec.content_hash ≡ true → contains rec.content_hash rec.historical_hashes ≡ true

module _ {A : Type 0} ⦃e : Eq A⦄ where
  contains-append : (x : A) (xs ys : List A) → contains x xs ≡ true → contains x (xs ++ ys) ≡ true
  contains-append x [] ys h = cc
  contains-append x (y ∷ xs) ys h = ground (arith, contains-append x xs ys)

  contains-new : (x : A) (xs : List A) → contains x (xs ++ x ∷ []) ≡ true
  contains-new x [] = rw (beq_refl x) refl
  contains-new x (y ∷ xs) = ground (arith, contains-new x xs)

contains-remember :
    (h : String) (hashes : List String) → truthy h ≡ true → contains h (remember h hashes) ≡ true
unfolding remember
contains-remember h hashes t = elim (Bool-cases (contains h hashes)) [
  | inl old ↦ rw (t, old) old
  | inr new ↦ rw (t, new) (contains-new h hashes)
]

later-IsTracked : (now i : ℕ) (rec : BlockLineage) → now ≤ i → IsTracked now rec → IsTracked i rec
later-IsTracked now i rec h t = record {
  not_ahead = omega (arith, t.not_ahead);
  since_first = t.since_first;
  streak = t.streak;
  remembered = t.remembered;
}

new_lineage-IsTracked : (i : ℕ) (b : ContextBlock) → IsTracked i (new_lineage i b)
unfolding new_lineage
new_lineage-IsTracked i b = record {
  not_ahead = omega arith;
  since_first = omega arith;
  streak = λ k h. ground (arith, beq_refl i);
  remembered = λ h. ground (arith, beq_refl b.content_hash);
}

module _ (i : ℕ) (b : ContextBlock) (rec : BlockLineage) where
  -- A streak goes on by one turn only from the turn just before.
  survival_lem :
      (survival i b rec ≡ 0)
      ⊎ ((survival i b rec ≡ rec.turns_survived + 1) × (i ≡ rec.last_seen_turn + 1))
  unfolding survival
  survival_lem = ground arith

  seen_again-streak :
      (s : ℕ)
      → IsTracked i rec
      → (s ≡ 0) ⊎ ((s ≡ rec.turns_survived + 1) × (i ≡ rec.last_seen_turn + 1))
      → (k : ℕ) → k ≤ s
      → contains (i - k) (rec.seen_turns ++ i ∷ []) ≡ true
  seen_again-streak s t c zero h =
      let same : i - zero ≡ i = omega arith in rw same (contains-new i rec.seen_turns)
  seen_again-streak s t (inl e) (suc k) h = absurd (omega (arith, e, h))
  seen_again-streak s t (inr (e, next)) (suc k) h =
      let same : i - suc k ≡ rec.last_seen_turn - k = omega (arith, next) in
      rw same (
        contains-append (rec.last_seen_turn - k) rec.seen_turns (i ∷ [])
          (t.streak k (omega (arith, e, h))))

  seen_again-IsTracked : IsTracked i rec → IsTracked i (seen_again i b (survival i b rec) rec)
  unfolding seen_again
  seen_again-IsTracked t = record {
    not_ahead = omega arith;
    since_first = ground (arith, survival_lem, t.since_first, t.not_ahead);
    streak = seen_again-streak (survival i b rec) t survival_lem;
    remembered = λ h. elim (Bool-cases (b.content_hash =? rec.content_hash)) [
      | inl same ↦ ground (arith, t.remembered, string_eq.beq_iff b.content_hash rec.content_hash)
      | inr other ↦
          rw other
            (contains-remember b.content_hash (remember rec.content_hash rec.historical_hashes) h)
    ];
  }

trace-IsTracked :
    (i : ℕ) (b : ContextBlock) (o : Option BlockLineage)
    → ((rec : BlockLineage) → o ≡ some rec → IsTracked i rec)
    → IsTracked i (trace i b o)
unfolding trace
trace-IsTracked i b none h = new_lineage-IsTracked i b
trace-IsTracked i b (some rec) h =
    if-keeps (IsTracked i) (rec.last_seen_turn == i) (λ _. h rec refl)
      (λ _. seen_again-IsTracked i b rec (h rec refl))

-- All the records of a graph's lineage.
abbrev pub AllTracked : ℕ → Dict Key BlockLineage → Type 0
AllTracked now lineage =
    (k : Key) (rec : BlockLineage) → get k lineage ≡ some rec → IsTracked now rec

insert-AllTracked :
    (i : ℕ) (k : Key) (rec : BlockLineage) (d : Dict Key BlockLineage)
    → IsTracked i rec
    → AllTracked i d
    → AllTracked i (insert k rec d)
insert-AllTracked i k rec d t h j r e = elim (Bool-cases (k =? j)) [
  | inl same ↦
      let found : some rec ≡ some r = cc (e, get-insert k j rec d, same) in
      subst (IsTracked i) (cc found) t
  | inr other ↦ h j r (ground (arith, get-insert k j rec d))
]

track-AllTracked :
    (i : ℕ) (d : Dict Key BlockLineage) (bs : List ContextBlock)
    → AllTracked i d
    → AllTracked i (track i d bs).1
unfolding track
track-AllTracked i d [] h = h
track-AllTracked i d (b ∷ bs) h =
    let rec = trace i b (get (block_key b) d) in
    track-AllTracked i (insert (block_key b) rec d) bs (
      insert-AllTracked i (block_key b) rec d
        (trace-IsTracked i b (get (block_key b) d) (h (block_key b))) h)

-- Adding a turn keeps the lineage true: if every lineage record is last seen no later than some
-- index, was first seen no later than its streak of surviving turns began, was seen in each turn
-- of that streak, and has its content among those remembered, then so it is for the index of a
-- turn that is added, where that is no smaller.
pub add_turn-AllTracked :
    (g : ContextGraph) (turn : CanonicalTurn) (parent_turn_id : Option String) (now : ℕ)
    → now ≤ turn.turn_index
    → AllTracked now g.lineage
    → AllTracked turn.turn_index (add_turn g turn parent_turn_id).0.lineage
unfolding add_turn track_turn
add_turn-AllTracked g turn parent_turn_id now h t =
    let i = turn.turn_index in
    track-AllTracked i _ turn.assistant_blocks (
      track-AllTracked i _ turn.tool_results (
        track-AllTracked i _ turn.conversation_history (
          track-AllTracked i _ turn.tool_defs (
            track-AllTracked i _ turn.system_blocks
              (λ k rec e. later-IsTracked now i rec h (t k rec e))))))
