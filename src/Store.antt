-- ===== src/Store.antt =====
-- core/store/session_store.py: `SessionStore`. Each method runs under the store's lock. Sets are lists
-- without repetition; `str.lower` is a parameter.
pub mod Bounds
pub mod Shared
pub mod Sound
pub mod Violations
pub mod Grouped
mod Tests
use ctxins.Base.{
  ℕ, ◌+◌, ◌-◌, Bool, true, false, not, ◌&&◌, leb, ltb, List, [], ◌∷◌, ◌++◌, Option, none, some,
  String, length, contains, if◌then◌else◌, string_eq, Result, ok, raise, ◌>>=◌, stop_iteration,
  key_error, keep, is_nil, ◌=?◌,
}
use ctxins.Base.Dict.{Dict, keys, get, insert, remove, has}
use ctxins.Schema.{MetaValue, text, RuleViolation, CanonicalTurn, TurnDelta}
use ctxins.Graph.Diff.{truthy}
use ctxins.Graph.Tree.{ContextGraph, new_graph, add_turn, track_turn, replace_turn, or_empty}
use ctxins.Graph.Tree as Tree

pub record SessionStore : Type 0 where
  pub max_sessions : ℕ
  pub granularity : String
  pub sessions : Dict String (List CanonicalTurn)
  pub graphs : Dict String ContextGraph
  pub model_to_sessions : Dict String (List String)
  pub violation_to_sessions : Dict String (List String)
  pub exported_sessions : List String
  pub session_metadata : Dict String (Dict String MetaValue)
  pub session_aliases : Dict String String

-- `granularity` is given in lower case.
abbrev pub new_store : ℕ → String → SessionStore
new_store max_sessions granularity = record {
  max_sessions = max_sessions;
  granularity = granularity;
  sessions = [];
  graphs = [];
  model_to_sessions = [];
  violation_to_sessions = [];
  exported_sessions = [];
  session_metadata = [];
  session_aliases = [];
}

-- `OrderedDict.move_to_end`
unfoldable pub move_to_end :
    String → Dict String (List CanonicalTurn) → Result (Dict String (List CanonicalTurn))
move_to_end k d = elim (get k d) [
  | none ↦ raise key_error
  | some v ↦ ok (remove k d ++ (k, v) ∷ [])
]

-- `set.add` and `set.discard`
unfoldable pub add : String → List String → List String
add x xs = if contains x xs then xs else xs ++ x ∷ []

unfoldable pub discard : String → List String → List String
discard x xs = keep (λ y. not (y =? x)) xs

unfoldable pub discard_all : String → Dict String (List String) → Dict String (List String)
discard_all sid [] = []
discard_all sid ((k, sids) ∷ index) = (k, discard sid sids) ∷ discard_all sid index

unfoldable pub index_add : String → String → Dict String (List String) → Dict String (List String)
index_add k sid index = insert k (add sid (or_empty (get k index))) index

unfoldable pub evict_session : SessionStore → String → SessionStore
evict_session s session_id = record s {
  sessions = remove session_id s.sessions;
  graphs = remove session_id s.graphs;
  session_metadata = remove session_id s.session_metadata;
  model_to_sessions = discard_all session_id s.model_to_sessions;
  violation_to_sessions = discard_all session_id s.violation_to_sessions;
}

-- `_evict_session(next(iter(self.sessions)))`, for the keys of the sessions
unfoldable pub evict_oldest : SessionStore → List String → Result SessionStore
evict_oldest s [] = raise stop_iteration
evict_oldest s (oldest_session_id ∷ _) = ok (evict_session s oldest_session_id)

unfoldable pub make_room : SessionStore → Result SessionStore
make_room s =
    if leb s.max_sessions (length s.sessions) then evict_oldest s (keys s.sessions) else ok s

unfoldable pub new_session : String → SessionStore → SessionStore
new_session session_id s = record s {
  sessions = insert session_id [] s.sessions;
  graphs = insert session_id (new_graph (some session_id)) s.graphs;
}

-- The session, made if it is not there, with room for it.
unfoldable pub open_session : SessionStore → String → Result SessionStore
open_session s session_id =
    if has session_id s.sessions then ok s else (make_room s >>= λ r. ok (new_session session_id r))

unfoldable pub index_violations :
    List RuleViolation → String → Dict String (List String) → Dict String (List String)
index_violations [] sid index = index
index_violations (v ∷ vs) sid index = index_violations vs sid (index_add v.rule_id sid index)

-- The turn joins its session and the session's graph: `graphs[session_id]` and `sessions[session_id]`.
unfoldable pub record_turn :
    SessionStore
    → CanonicalTurn
    → Option String
    → Option ContextGraph
    → Option (List CanonicalTurn)
    → Result (SessionStore × TurnDelta)
record_turn s turn parent_turn_id (some graph) (some turns) =
    let (graph', delta) = add_turn graph turn parent_turn_id in
    ok (
      record s {
        graphs = insert turn.session_id graph' s.graphs;
        sessions =
            insert turn.session_id (turns ++ (track_turn graph.lineage turn).0 ∷ []) s.sessions;
      },
      delta,
    )
record_turn s turn parent_turn_id none turns = raise key_error
record_turn s turn parent_turn_id (some graph) none = raise key_error

unfoldable pub resolve_session_id : SessionStore → String → String
resolve_session_id s session_id = elim (get session_id s.session_aliases) [
  | none ↦ session_id
  | some target ↦ target
]

unfoldable pub alias_session : SessionStore → String → String → SessionStore
alias_session s alias_id target_session_id =
    let aliased = record s {
      session_aliases = insert alias_id target_session_id s.session_aliases;
    } in
    if is_nil (or_empty (get alias_id s.sessions)) then aliased else s

-- The session's place in the order of activity.
unfoldable pub touch : String → SessionStore → Result SessionStore
touch session_id s =
    move_to_end session_id s.sessions >>= λ sessions. ok (record s { sessions = sessions })

-- The metadata that a session is registered with.
unfoldable pub store_metadata :
    String → Option (Dict String MetaValue) → SessionStore → SessionStore
store_metadata session_id (some meta) s =
    let granular =
      if has "granularity" meta then meta else insert "granularity" (text s.granularity) meta in
    record s { session_metadata = insert session_id granular s.session_metadata }
store_metadata session_id none s = if has session_id s.session_metadata then s else record s {
  session_metadata =
      insert session_id (("granularity", text s.granularity) ∷ []) s.session_metadata;
}

unfoldable pub register_session :
    SessionStore → String → Option (Dict String MetaValue) → Result SessionStore
register_session s session_id metadata =
    open_session s session_id >>= λ r. touch session_id (store_metadata session_id metadata r)

module _ (lower : String → String) where
  unfoldable pub index_turn : CanonicalTurn → SessionStore → SessionStore
  index_turn turn s = record s {
    model_to_sessions =
        if truthy turn.model
        then index_add (lower turn.model) turn.session_id s.model_to_sessions
        else s.model_to_sessions;
    violation_to_sessions =
        index_violations turn.violations turn.session_id s.violation_to_sessions;
  }

  unfoldable pub append_turn :
      SessionStore → CanonicalTurn → Option String → Result (SessionStore × TurnDelta)
  append_turn s turn parent_turn_id = do
    opened ← open_session s turn.session_id
    r ← touch turn.session_id opened
    done ←
        record_turn r turn parent_turn_id (get turn.session_id r.graphs)
          (get turn.session_id r.sessions)
    ok (index_turn turn done.0, done.1)

  unfoldable pub update_graph : CanonicalTurn → Dict String ContextGraph → Dict String ContextGraph
  update_graph turn graphs = elim (get turn.session_id graphs) [
    | none ↦ graphs
    | some graph ↦ insert turn.session_id (Tree.update_turn graph turn) graphs
  ]

  unfoldable pub update_turn : SessionStore → CanonicalTurn → SessionStore
  update_turn s turn =
      let turns = or_empty (get turn.session_id s.sessions) in
      let updated = index_turn turn (record s {
        sessions = insert turn.session_id (replace_turn turn turns) s.sessions;
        graphs = update_graph turn s.graphs;
      }) in
      if is_nil turns then s else updated

unfoldable pub get_session : SessionStore → String → Option (List CanonicalTurn)
get_session s session_id = elim (get (resolve_session_id s session_id) s.sessions) [
  | none ↦ get session_id s.sessions
  | some turns ↦ some turns
]

unfoldable pub delete_session : SessionStore → String → SessionStore × Bool
delete_session s session_id =
    if has session_id s.sessions then (evict_session s session_id, true) else (s, false)

unfoldable pub mark_exported : SessionStore → String → SessionStore
mark_exported s session_id = record s { exported_sessions = add session_id s.exported_sessions }

unfoldable pub is_exported : SessionStore → String → Bool
is_exported s session_id = contains session_id s.exported_sessions

unfoldable pub handle_disconnect : SessionStore → String → Bool → SessionStore × Bool
handle_disconnect s session_id erase_unexported =
    if erase_unexported && not (is_exported s session_id)
    then ((delete_session s session_id).0, true)
    else (s, false)

unfoldable pub clear : SessionStore → SessionStore
clear s = record s {
  sessions = [];
  graphs = [];
  model_to_sessions = [];
  violation_to_sessions = [];
  exported_sessions = [];
  session_metadata = [];
}
