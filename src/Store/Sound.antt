-- ===== src/Store/Sound.antt =====
-- core/store/session_store.py: the store over sequences of calls.
use ctxins.Base.{
  ◌≡◌, refl, ◌∙◌, Bool, not, ◌&&◌, List, [], ◌∷◌, ◌++◌, Option, none, some, String, arith,
  if◌then◌else◌, if-keeps, string_eq, beq_refl, Result, ok, ◌>>=◌, is_nil,
}
use ctxins.Base.Dict.{Dict, get, insert, has, get-insert, get-empty}
use ctxins.Schema.{MetaValue, CanonicalTurn, TurnDelta}
use ctxins.Graph.Tree.{ContextGraph, add_turn, track_turn, replace_turn, or_empty}
use ctxins.Store.{
  SessionStore, record_turn, store_metadata, register_session, index_turn, append_turn,
  update_graph, update_turn, delete_session, handle_disconnect, alias_session, mark_exported, clear,
  is_exported,
}
use ctxins.Store.Shared.{shared-some, record-IsShared, update-IsShared}
use ctxins.Store.Bounds.{
  IsSound, evict-IsSound, touch-Touched, length-insert_there, open_session-Opened,
}

-- A call gave a sound store.
pub record Gives (r : Result SessionStore) : Type 0 where
  pub store : SessionStore
  pub returned : r ≡ ok store
  pub sound : IsSound store

-- The same sessions and graphs are as sound.
same-IsSound :
    (s s' : SessionStore)
    → s'.max_sessions ≡ s.max_sessions
    → s'.sessions ≡ s.sessions
    → s'.graphs ≡ s.graphs
    → IsSound s
    → IsSound s'
same-IsSound s s' m e g h = record {
  positive = rw m h.positive;
  bounded = rw (m, e) h.bounded;
  shared = rw (e, g) h.shared;
}

store_metadata-IsSound :
    (sid : String) (metadata : Option (Dict String MetaValue)) (s : SessionStore)
    → IsSound s
    → IsSound (store_metadata sid metadata s)
unfolding store_metadata
store_metadata-IsSound sid (some meta) s h = same-IsSound s _ refl refl refl h
store_metadata-IsSound sid none s h =
    if-keeps IsSound (has sid s.session_metadata) (λ _. h) (λ _. same-IsSound s _ refl refl refl h)

metadata-turns :
    (sid : String) (metadata : Option (Dict String MetaValue)) (s : SessionStore)
    (turns : List CanonicalTurn)
    → get sid s.sessions ≡ some turns
    → get sid (store_metadata sid metadata s).sessions ≡ some turns
unfolding store_metadata
metadata-turns sid (some meta) s turns h = h
metadata-turns sid none s turns h =
    if-keeps (λ (r : SessionStore). get sid r.sessions ≡ some turns) (has sid s.session_metadata)
      (λ _. h) (λ _. h)

register_session-Gives :
    (s : SessionStore) (sid : String) (metadata : Option (Dict String MetaValue))
    → IsSound s
    → Gives (register_session s sid metadata)
unfolding register_session
register_session-Gives s sid metadata h =
    let opened = open_session-Opened s sid h in
    let known = store_metadata sid metadata opened.store in
    let touched =
      touch-Touched known sid opened.graph.turns
        (store_metadata-IsSound sid metadata opened.store opened.sound)
        (metadata-turns sid metadata opened.store opened.graph.turns (
          shared-some sid opened.graph opened.store.sessions opened.store.graphs opened.sound.shared
            opened.its_graph)) in
    rw (opened.returned, touched.returned)
      (record { store = touched.store; returned = refl; sound = touched.sound })

recorded-IsSound :
    (s : SessionStore) (turn : CanonicalTurn) (parent_turn_id : Option String)
    (graph : ContextGraph)
    → IsSound s
    → get turn.session_id s.sessions ≡ some graph.turns
    → IsSound (record s {
      graphs = insert turn.session_id (add_turn graph turn parent_turn_id).0 s.graphs;
      sessions =
          insert turn.session_id (graph.turns ++ (track_turn graph.lineage turn).0 ∷ []) s.sessions;
    })
recorded-IsSound s turn parent_turn_id graph h there = record {
  positive = h.positive;
  bounded = omega (
    arith,
    length-insert_there turn.session_id (graph.turns ++ (track_turn graph.lineage turn).0 ∷ [])
        s.sessions there,
    h.bounded,
  );
  shared = record-IsShared graph turn parent_turn_id graph.turns s.sessions s.graphs refl h.shared;
}

module _ (lower : String → String) where
  index_turn-IsSound :
      (turn : CanonicalTurn) (s : SessionStore) → IsSound s → IsSound (index_turn lower turn s)
  unfolding index_turn
  index_turn-IsSound turn s h = same-IsSound s _ refl refl refl h

  -- What `append_turn` gives: a store that is sound, in which the session's turns are those that it had, none
  -- if it was not there, and then this turn.
  pub record Appends (before : SessionStore) (turn : CanonicalTurn)
      (r : Result (SessionStore × TurnDelta)) : Type 0 where
    pub store : SessionStore
    pub delta : TurnDelta
    pub returned : r ≡ ok (store, delta)
    pub sound : IsSound store
    pub added : CanonicalTurn
    pub session :
        get turn.session_id store.sessions
        ≡ some (or_empty (get turn.session_id before.sessions) ++ added ∷ [])
    pub same_turn : (added.turn_id ≡ turn.turn_id) × (added.turn_index ≡ turn.turn_index)

  sessions-index_turn :
      (turn : CanonicalTurn) (s : SessionStore) → (index_turn lower turn s).sessions ≡ s.sessions
  unfolding index_turn
  sessions-index_turn turn s = refl

  -- `append_turn` returns on a sound store, whatever the turn and its parent: it makes room and a session
  -- where there is none, and leaves a sound store in which the session's turns are those that it had, none if
  -- it was not there, and then this turn.
  pub append_turn-Appends :
      (s : SessionStore) (turn : CanonicalTurn) (parent_turn_id : Option String)
      → IsSound s
      → Appends s turn (append_turn lower s turn parent_turn_id)
  unfolding append_turn record_turn track_turn
  append_turn-Appends s turn parent_turn_id h =
      let opened = open_session-Opened s turn.session_id h in
      let graph = opened.graph in
      let touched = touch-Touched opened.store turn.session_id graph.turns opened.sound (
        shared-some turn.session_id graph opened.store.sessions opened.store.graphs
          opened.sound.shared opened.its_graph) in
      let r = touched.store in
      let its_graph : get turn.session_id r.graphs ≡ some graph =
        rw touched.same_graphs opened.its_graph in
      let there : get turn.session_id r.sessions ≡ some graph.turns =
        shared-some turn.session_id graph r.sessions r.graphs touched.sound.shared its_graph in
      let added = (track_turn graph.lineage turn).0 in
      let r' = record r {
        graphs = insert turn.session_id (add_turn graph turn parent_turn_id).0 r.graphs;
        sessions = insert turn.session_id (graph.turns ++ added ∷ []) r.sessions;
      } in
      rw (opened.returned, touched.returned, its_graph, there)
        (record {
          store = index_turn lower turn r';
          delta = (add_turn graph turn parent_turn_id).1;
          returned = refl;
          sound =
              index_turn-IsSound turn r'
                (recorded-IsSound r turn parent_turn_id graph touched.sound there);
          added = added;
          session =
              rw (sessions-index_turn turn r', ← opened.its_turns)
                (get-insert turn.session_id turn.session_id (graph.turns ++ added ∷ []) r.sessions
                  ∙ (rw (beq_refl turn.session_id) refl));
          same_turn = (refl, refl);
        })

  update_turn-IsSound :
      (s : SessionStore) (turn : CanonicalTurn) → IsSound s → IsSound (update_turn lower s turn)
  unfolding update_turn
  update_turn-IsSound s turn h = go (get turn.session_id s.sessions) refl
    where
      replaced : List CanonicalTurn → SessionStore
      replaced turns = record s {
        sessions = insert turn.session_id (replace_turn turn turns) s.sessions;
        graphs = update_graph lower turn s.graphs;
      }

      go :
          (o : Option (List CanonicalTurn))
          → get turn.session_id s.sessions ≡ o
          → IsSound
              (if is_nil (or_empty o) then s else index_turn lower turn (replaced (or_empty o)))
      go none e = h
      go (some turns) e =
          if-keeps IsSound (is_nil turns) (λ _. h)
            (λ _. index_turn-IsSound turn (replaced turns) (record {
              positive = h.positive;
              bounded = omega (
                arith,
                length-insert_there turn.session_id (replace_turn turn turns) s.sessions e,
                h.bounded,
              );
              shared = update-IsShared lower turn turns s.sessions s.graphs e h.shared;
            }))

  -- The calls that change the store.
  pub data Call : Type 0 where
    appended : CanonicalTurn → Option String → Call
    updated : CanonicalTurn → Call
    registered : String → Option (Dict String MetaValue) → Call
    deleted exported : String → Call
    disconnected : String → Bool → Call
    aliased : String → String → Call
    cleared : Call

  unfoldable pub step : SessionStore → Call → Result SessionStore
  step s (appended turn parent_turn_id) =
      append_turn lower s turn parent_turn_id >>= λ done. ok done.0
  step s (updated turn) = ok (update_turn lower s turn)
  step s (registered sid metadata) = register_session s sid metadata
  step s (deleted sid) = ok (delete_session s sid).0
  step s (exported sid) = ok (mark_exported s sid)
  step s (disconnected sid erase) = ok (handle_disconnect s sid erase).0
  step s (aliased alias_id target) = ok (alias_session s alias_id target)
  step s cleared = ok (clear s)

  unfoldable pub run : SessionStore → List Call → Result SessionStore
  run s [] = ok s
  run s (c ∷ calls) = step s c >>= λ s'. run s' calls

  delete_session-IsSound :
      (s : SessionStore) (sid : String) → IsSound s → IsSound (delete_session s sid).0
  unfolding delete_session
  delete_session-IsSound s sid h =
      if-keeps (λ (r : SessionStore × Bool). IsSound r.0) (has sid s.sessions)
        (λ _. evict-IsSound s sid h) (λ _. h)

  returns : (s : SessionStore) → IsSound s → Gives (ok s)
  returns s h = record { store = s; returned = refl; sound = h }

  step-Gives : (s : SessionStore) (c : Call) → IsSound s → Gives (step s c)
  unfolding step handle_disconnect alias_session mark_exported clear
  step-Gives s (appended turn parent_turn_id) h =
      let done = append_turn-Appends s turn parent_turn_id h in
      rw done.returned (returns done.store done.sound)
  step-Gives s (updated turn) h = returns (update_turn lower s turn) (update_turn-IsSound s turn h)
  step-Gives s (registered sid metadata) h = register_session-Gives s sid metadata h
  step-Gives s (deleted sid) h = returns (delete_session s sid).0 (delete_session-IsSound s sid h)
  step-Gives s (exported sid) h = returns _ (same-IsSound s _ refl refl refl h)
  step-Gives s (disconnected sid erase) h = returns _ (
      if-keeps (λ (r : SessionStore × Bool). IsSound r.0) (erase && not (is_exported s sid))
        (λ _. delete_session-IsSound s sid h) (λ _. h))
  step-Gives s (aliased alias_id target) h = returns _ (
      if-keeps IsSound (is_nil (or_empty (get alias_id s.sessions)))
        (λ _. same-IsSound s _ refl refl refl h) (λ _. h))
  step-Gives s cleared h = returns _ (record {
    positive = h.positive;
    bounded = omega arith;
    shared = λ k. rw (get-empty {V = List CanonicalTurn} k, get-empty {V = ContextGraph} k) refl;
  })

  -- The store is total and bounded: whatever calls are made of a sound store, none raises, and the store that
  -- they leave is sound: it holds no more sessions than its capacity, and the turns of each session are the
  -- turns of its graph.
  pub run-Gives : (s : SessionStore) (calls : List Call) → IsSound s → Gives (run s calls)
  unfolding run
  run-Gives s [] h = returns s h
  run-Gives s (c ∷ calls) h =
      let now = step-Gives s c h in rw now.returned (run-Gives now.store calls now.sound)
