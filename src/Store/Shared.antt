-- ===== src/Store/Shared.antt =====
-- core/store/session_store.py: a session's turns and its graph's, side by side.
use ctxins.Base.{
  ◌≡◌, refl, sym, ap, ◌∙◌, subst, List, [], ◌∷◌, ◌++◌, Option, none, some, String, arith, ◌=?◌,
  if◌then◌else◌, string_eq, Bool-cases, inl, inr,
}
use ctxins.Base.Dict.{Dict, get, insert, remove, get-insert, get-remove}
use ctxins.Schema.{CanonicalTurn}
use ctxins.Graph.Tree.{ContextGraph, new_graph, add_turn, track_turn, replace_turn, or_empty}
use ctxins.Graph.Tree as Tree
use ctxins.Store.{update_graph}

abbrev Sessions : Type 0
Sessions = Dict String (List CanonicalTurn)

abbrev Graphs : Type 0
Graphs = Dict String ContextGraph

abbrev pub graph_turns : Option ContextGraph → Option (List CanonicalTurn)
graph_turns none = none
graph_turns (some graph) = some graph.turns

-- Each session has a graph with the turns of the session, and no other key has a graph.
abbrev pub IsShared : Dict String (List CanonicalTurn) → Dict String ContextGraph → Type 0
IsShared sessions graphs = (k : String) → get k sessions ≡ graph_turns (get k graphs)

pub remove-IsShared :
    (sid : String) (sessions : Sessions) (graphs : Graphs)
    → IsShared sessions graphs
    → IsShared (remove sid sessions) (remove sid graphs)
remove-IsShared sid sessions graphs h k =
    rw (get-remove sid k sessions, get-remove sid k graphs) (ground (arith, h k))

pub insert-IsShared :
    (sid : String) (turns : List CanonicalTurn) (graph : ContextGraph) (sessions : Sessions)
    (graphs : Graphs)
    → turns ≡ graph.turns
    → IsShared sessions graphs
    → IsShared (insert sid turns sessions) (insert sid graph graphs)
insert-IsShared sid turns graph sessions graphs e h k =
    rw (get-insert sid k turns sessions, get-insert sid k graph graphs, e) (ground (arith, h k))

get-append :
    (k j : String) (v : List CanonicalTurn) (d : Sessions)
    → get j (d ++ (k, v) ∷ [])
      ≡ (elim (get j d) [ none ↦ if k =? j then some v else none | some w ↦ some w ])
unfolding get
get-append k j v [] = refl
get-append k j v ((i, w) ∷ d) = ground (arith, get-append k j v d)

get-move :
    (k j : String) (v : List CanonicalTurn) (d : Sessions)
    → get k d ≡ some v
    → get j (remove k d ++ (k, v) ∷ []) ≡ get j d
get-move k j v d h = get-append k j v (remove k d) ∙ elim (Bool-cases (k =? j)) [
  | inl same ↦
      let one : k ≡ j = (string_eq.beq_iff k j).0 same in
      let there : get j d ≡ some v = subst (λ i. get i d ≡ some v) one h in
      rw (get-remove k j d, there) (ground arith)
  | inr apart ↦ rw (get-remove k j d, apart) (ground arith)
]

-- Moving a session that is there to the end gives each key what it had.
pub moved-IsShared :
    (sid : String) (turns : List CanonicalTurn) (sessions : Sessions) (graphs : Graphs)
    → get sid sessions ≡ some turns
    → IsShared sessions graphs
    → IsShared (remove sid sessions ++ (sid, turns) ∷ []) graphs
moved-IsShared sid turns sessions graphs there h k = get-move sid k turns sessions there ∙ h k

-- The session of a graph.
pub shared-some :
    (sid : String) (graph : ContextGraph) (sessions : Sessions) (graphs : Graphs)
    → IsShared sessions graphs
    → get sid graphs ≡ some graph
    → get sid sessions ≡ some graph.turns
shared-some sid graph sessions graphs h e = h sid ∙ ap graph_turns e

turns-add_turn :
    (graph : ContextGraph) (turn : CanonicalTurn) (parent_turn_id : Option String)
    → (add_turn graph turn parent_turn_id).0.turns
      ≡ graph.turns ++ (track_turn graph.lineage turn).0 ∷ []
unfolding add_turn
turns-add_turn graph turn parent_turn_id = refl

pub record-IsShared :
    (graph : ContextGraph) (turn : CanonicalTurn) (parent_turn_id : Option String)
    (turns : List CanonicalTurn) (sessions : Sessions) (graphs : Graphs)
    → turns ≡ graph.turns
    → IsShared sessions graphs
    → IsShared
        (insert turn.session_id (turns ++ (track_turn graph.lineage turn).0 ∷ []) sessions)
        (insert turn.session_id (add_turn graph turn parent_turn_id).0 graphs)
record-IsShared graph turn parent_turn_id turns sessions graphs e h =
    insert-IsShared turn.session_id _ (add_turn graph turn parent_turn_id).0 sessions graphs
      (ap (λ ts. ts ++ (track_turn graph.lineage turn).0 ∷ []) e
        ∙ sym (turns-add_turn graph turn parent_turn_id))
      h

turns-update_turn :
    (graph : ContextGraph) (turn : CanonicalTurn)
    → (Tree.update_turn graph turn).turns ≡ replace_turn turn graph.turns
unfolding Tree.update_turn
turns-update_turn graph turn = refl

pub update-IsShared :
    (lower : String → String) (turn : CanonicalTurn) (turns : List CanonicalTurn)
    (sessions : Sessions) (graphs : Graphs)
    → get turn.session_id sessions ≡ some turns
    → IsShared sessions graphs
    → IsShared
        (insert turn.session_id (replace_turn turn turns) sessions)
        (update_graph lower turn graphs)
unfolding update_graph
update-IsShared lower turn turns sessions graphs e h = go (get turn.session_id graphs) refl
  where
    go :
        (o : Option ContextGraph)
        → get turn.session_id graphs ≡ o
        → IsShared (insert turn.session_id (replace_turn turn turns) sessions) (elim o [
          | none ↦ graphs
          | some graph ↦ insert turn.session_id (Tree.update_turn graph turn) graphs
        ])
    go none absent = absurd (cc (h turn.session_id, ap graph_turns absent, e))
    go (some graph) found =
        insert-IsShared turn.session_id _ (Tree.update_turn graph turn) sessions graphs
          (ap (replace_turn turn)
              (cc (e, shared-some turn.session_id graph sessions graphs h found))
            ∙ sym (turns-update_turn graph turn))
          h
