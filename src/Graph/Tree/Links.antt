-- ===== src/Graph/Tree/Links.antt =====
-- core/graph/turn_tree.py: the session as a chain of turns: parents, children and deltas.
use ctxins.Base.{
  ◌≡◌, ◌≢◌, refl, ◌∙◌, true, false, List, [], ◌∷◌, ◌++◌, Option, none, some, String, arith, length,
  length-append, last, ◌=?◌, nat_eq, string_eq, beq_refl, Bool-cases, inl, inr,
}
use ctxins.Base.Dict.{get, get-insert}
use ctxins.Schema.{CanonicalTurn}
use ctxins.Graph.Diff.{truthy, compute_delta}
use ctxins.Graph.Tree.{ContextGraph, resolve_parent, turn_id_of, track_turn, add_turn}
use ctxins.Graph.Tree.Queries.{get_parent_turn, turn_of_parent}

-- The graph's lists and indexes are in step: a delta for each turn, and its newest turn under its id.
pub record IsLinked (g : ContextGraph) : Type 0 where
  pub a_delta_each : length g.deltas ≡ length g.turns
  pub newest_by_id :
      (prev : CanonicalTurn) → last g.turns ≡ some prev → get prev.turn_id g.turns_by_id ≡ some prev

last-append {ℓ} : {A : Type ℓ} (xs : List A) (x : A) → last (xs ++ x ∷ []) ≡ some x
last-append [] x = refl
last-append (y ∷ []) x = refl
last-append (y ∷ z ∷ xs) x = last-append (z ∷ xs) x

track_turn-turn_id :
    (g : ContextGraph) (turn : CanonicalTurn) → (track_turn g.lineage turn).0.turn_id ≡ turn.turn_id
unfolding track_turn
track_turn-turn_id g turn = refl

-- Adding a turn to a graph that has a delta for each turn, and its newest turn under that turn's
-- id, gives such a graph, whatever the turn's id, index and parent.
pub add_turn-IsLinked :
    (g : ContextGraph) (turn : CanonicalTurn) (parent_turn_id : Option String)
    → IsLinked g
    → IsLinked (add_turn g turn parent_turn_id).0
unfolding add_turn
add_turn-IsLinked g turn parent_turn_id l =
    let turn' = (track_turn g.lineage turn).0 in
    let delta = compute_delta (last g.turns) turn' in
    record {
      a_delta_each = omega (
        arith,
        length-append g.deltas (delta ∷ []),
        length-append g.turns (turn' ∷ []),
        l.a_delta_each,
      );
      newest_by_id = λ prev h.
          let same : turn' ≡ prev = cc (h, last-append g.turns turn') in
          rw (← same, track_turn-turn_id g turn)
            (get-insert turn.turn_id turn.turn_id turn' g.turns_by_id
              ∙ (rw (beq_refl turn.turn_id) refl));
    }

-- In a graph that has its newest turn under that turn's id, a turn that is added without a parent,
-- under an id that the newest turn does not have, becomes the child of the newest turn:
-- `get_parent_turn` then gives that turn, if its id is not empty.
pub get_parent_turn-add_turn :
    (g : ContextGraph) (prev turn : CanonicalTurn)
    → IsLinked g
    → last g.turns ≡ some prev
    → truthy prev.turn_id ≡ true
    → turn.turn_id ≢ prev.turn_id
    → get_parent_turn (add_turn g turn none).0 turn.turn_id ≡ some prev
unfolding add_turn get_parent_turn turn_of_parent resolve_parent
get_parent_turn-add_turn g prev turn l newest named other =
    let apart : (turn.turn_id =? prev.turn_id) ≡ false =
      elim (Bool-cases (turn.turn_id =? prev.turn_id)) [
        | inl same ↦ absurd (other ((string_eq.beq_iff turn.turn_id prev.turn_id).0 same))
        | inr e ↦ e
      ] in
    rw
      (
        get-insert turn.turn_id turn.turn_id (turn_id_of (last g.turns)) g.parents,
        beq_refl turn.turn_id,
        newest,
        named,
        get-insert turn.turn_id prev.turn_id (track_turn g.lineage turn).0 g.turns_by_id,
        apart,
      )
      (l.newest_by_id prev newest)
