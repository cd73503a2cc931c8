-- ===== src/Store/Bounds.antt =====
-- core/store/session_store.py: room for a session, and the session that `open_session` makes.
use ctxins.Base.{
  ◌+◌, ◌≤◌, ◌≡◌, refl, ap, ◌∙◌, true, false, leb, List, [], ◌∷◌, ◌++◌, Option, none, some, String,
  arith, length, length-append, ◌=?◌, string_eq, beq_refl, Bool-cases, inl, inr, Result, ok,
}
use ctxins.Base.Dict.{Dict, keys, get, insert, remove, has, has-get, get-insert}
use ctxins.Schema.{CanonicalTurn}
use ctxins.Graph.Tree.{ContextGraph, new_graph, or_empty}
use ctxins.Store.{
  SessionStore, move_to_end, touch, evict_session, evict_oldest, make_room, new_session,
  open_session,
}
use ctxins.Store.Shared.{
  IsShared, graph_turns, remove-IsShared, insert-IsShared, moved-IsShared, shared-some,
}

-- The store can hold a session, holds no more than it may, and its sessions are those of its graphs.
pub record IsSound (s : SessionStore) : Type 0 where
  pub positive : 1 ≤ s.max_sessions
  pub bounded : length s.sessions ≤ s.max_sessions
  pub shared : IsShared s.sessions s.graphs

module _ {V : Type 0} where
  length-remove : (k : String) (d : Dict String V) → length (remove k d) ≤ length d
  unfolding remove
  length-remove k [] = omega arith
  length-remove k ((j, v) ∷ d) = ground (arith, length-remove k d)

  found_later :
      (k j : String) (w : V) (d : Dict String V) {v : V}
      → (j =? k) ≡ false
      → get k ((j, w) ∷ d) ≡ some v
      → get k d ≡ some v
  unfolding get
  found_later k j w d other h = ground arith

  length-remove_there :
      (k : String) (d : Dict String V) {v : V}
      → get k d ≡ some v
      → length (remove k d) + 1 ≤ length d
  unfolding remove get
  length-remove_there k [] h = cc
  length-remove_there k ((j, w) ∷ d) h = elim (Bool-cases (j =? k)) [
    | inl here ↦ ground (arith, length-remove k d)
    | inr other ↦ ground (arith, length-remove_there k d (found_later k j w d other h))
  ]

  length-insert : (k : String) (v : V) (d : Dict String V) → length (insert k v d) ≤ length d + 1
  unfolding insert
  length-insert k v [] = omega arith
  length-insert k v ((j, w) ∷ d) = ground (arith, length-insert k v d)

  pub length-insert_there :
      (k : String) (v : V) (d : Dict String V) {w : V}
      → get k d ≡ some w
      → length (insert k v d) ≡ length d
  unfolding insert get
  length-insert_there k v [] h = cc
  length-insert_there k v ((j, u) ∷ d) h = elim (Bool-cases (j =? k)) [
    | inl here ↦ ground arith
    | inr other ↦ ground (arith, length-insert_there k v d (found_later k j u d other h))
  ]

get-head :
    (k : String) (v : List CanonicalTurn) (d : Dict String (List CanonicalTurn))
    → get k ((k, v) ∷ d) ≡ some v
unfolding get
get-head k v d = rw (beq_refl k) refl

pub evict-IsSound : (s : SessionStore) (sid : String) → IsSound s → IsSound (evict_session s sid)
unfolding evict_session
evict-IsSound s sid h = record {
  positive = h.positive;
  bounded = omega (arith, length-remove sid s.sessions, h.bounded);
  shared = remove-IsShared sid s.sessions s.graphs h.shared;
}

-- The session goes to the end of the order of activity, and stays as it is.
pub record Touched (sid : String) (s : SessionStore) : Type 0 where
  pub store : SessionStore
  pub returned : touch sid s ≡ ok store
  pub sound : IsSound store
  pub same_graphs : store.graphs ≡ s.graphs

move_to_end-there :
    (sid : String) (turns : List CanonicalTurn) (d : Dict String (List CanonicalTurn))
    → get sid d ≡ some turns
    → move_to_end sid d ≡ ok (remove sid d ++ (sid, turns) ∷ [])
unfolding move_to_end remove
move_to_end-there sid turns d there = rw (there, move_to_end)

-- A session that is there can be moved to the end.
pub touch-Touched :
    (s : SessionStore) (sid : String) (turns : List CanonicalTurn)
    → IsSound s
    → get sid s.sessions ≡ some turns
    → Touched sid s
unfolding touch
touch-Touched s sid turns h there = record {
  store = record s { sessions = remove sid s.sessions ++ (sid, turns) ∷ [] };
  returned = rw (move_to_end-there sid turns s.sessions there) refl;
  sound = record {
    positive = h.positive;
    bounded = omega (
      arith,
      length-append (remove sid s.sessions) ((sid, turns) ∷ []),
      length-remove_there sid s.sessions there,
      h.bounded,
    );
    shared = moved-IsShared sid turns s.sessions s.graphs there h.shared;
  };
  same_graphs = refl;
}

-- A sound store with a place left.
record HasRoom (s : SessionStore) : Type 0 where
  sound : IsSound s
  room : length s.sessions + 1 ≤ s.max_sessions

record Roomy (r : Result SessionStore) : Type 0 where
  store : SessionStore
  made : r ≡ ok store
  has_room : HasRoom store

make_room-Roomy : (s : SessionStore) → IsSound s → Roomy (make_room s)
unfolding make_room evict_oldest evict_session remove
make_room-Roomy s h = elim (Bool-cases (leb s.max_sessions (length s.sessions))) [
  | inl full ↦ rw full (evicts s.sessions refl full)
  | inr fits ↦ rw fits (record {
    store = s;
    made = refl;
    has_room = record { sound = h; room = ground (arith, fits) };
  })
]
  where
    evicts :
        (d : Dict String (List CanonicalTurn))
        → s.sessions ≡ d
        → leb s.max_sessions (length s.sessions) ≡ true
        → Roomy (evict_oldest s (keys d))
    evicts [] e full = absurd (ground (arith, ap length e, h.positive))
    evicts ((k, v) ∷ d) e full =
        let there : get k s.sessions ≡ some v = ap (get k) e ∙ get-head k v d in
        record {
          store = evict_session s k;
          made = refl;
          has_room = record {
            sound = evict-IsSound s k h;
            room = omega (arith, length-remove_there k s.sessions there, h.bounded);
          };
        }

-- The session is there, with its graph.
pub record Opened (before : SessionStore) (sid : String) (r : Result SessionStore) : Type 0 where
  pub store : SessionStore
  pub returned : r ≡ ok store
  pub sound : IsSound store
  pub graph : ContextGraph
  pub its_graph : get sid store.graphs ≡ some graph
  -- The turns that the session had before: none if it was not there.
  pub its_turns : graph.turns ≡ or_empty (get sid before.sessions)

new_session-IsSound : (s : SessionStore) (sid : String) → HasRoom s → IsSound (new_session sid s)
unfolding new_session new_graph
new_session-IsSound s sid h = record {
  positive = h.sound.positive;
  bounded = omega (arith, length-insert sid [] s.sessions, h.room);
  shared = insert-IsShared sid [] (new_graph (some sid)) s.sessions s.graphs refl h.sound.shared;
}

graph-new_session :
    (s : SessionStore) (sid : String)
    → get sid (new_session sid s).graphs ≡ some (new_graph (some sid))
unfolding new_session
graph-new_session s sid =
    get-insert sid sid (new_graph (some sid)) s.graphs ∙ (rw (beq_refl sid) refl)

-- A session that is there has a graph.
graph_there :
    (s : SessionStore) (sid : String)
    → IsSound s
    → has sid s.sessions ≡ true
    → (graph : ContextGraph) × (get sid s.graphs ≡ some graph)
graph_there s sid h there = go (get sid s.graphs) refl
  where
    go :
        (o : Option ContextGraph)
        → get sid s.graphs ≡ o
        → (graph : ContextGraph) × (get sid s.graphs ≡ some graph)
    go none e = absurd (ground (arith, has-get sid s.sessions, h.shared sid ∙ ap graph_turns e))
    go (some graph) e = (graph, e)

absent_turns :
    (s : SessionStore) (sid : String) → has sid s.sessions ≡ false → get sid s.sessions ≡ none
absent_turns s sid absent = ground (arith, has-get sid s.sessions)

pub open_session-Opened :
    (s : SessionStore) (sid : String) → IsSound s → Opened s sid (open_session s sid)
unfolding open_session new_graph
open_session-Opened s sid h = elim (Bool-cases (has sid s.sessions)) [
  | inl there ↦
      let (graph, e) = graph_there s sid h there in
      rw there (record {
        store = s;
        returned = refl;
        sound = h;
        graph = graph;
        its_graph = e;
        its_turns = rw (shared-some sid graph s.sessions s.graphs h.shared e) refl;
      })
  | inr absent ↦
      let made = make_room-Roomy s h in
      rw (absent, made.made)
        (record {
          store = new_session sid made.store;
          returned = refl;
          sound = new_session-IsSound made.store sid made.has_room;
          graph = new_graph (some sid);
          its_graph = graph-new_session made.store sid;
          its_turns = rw (absent_turns s sid absent) refl;
        })
]
