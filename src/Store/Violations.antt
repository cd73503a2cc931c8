-- ===== src/Store/Violations.antt =====
-- core/store/session_store.py: `get_violations` and `get_timeline`. A violation is an
-- object that the store and the graph share: the turn index that `get_violations` writes into one that
-- has none is written into both.
pub mod Kept
use ctxins.Base.{
  ℕ, ◌+◌, Bool, true, false, not, ◌&&◌, ◌||◌, leb, ltb, ◌==◌, List, [], ◌∷◌, ◌++◌, Option, none,
  some, String, length, map, sum, keep, first, last, is_nil, contains, if◌then◌else◌, string_eq,
  ◌=?◌, flatten,
}
use ctxins.Base.Dict.{Dict, get, insert, values}
use ctxins.Schema.{
  ContextBlock, RuleViolation, ViolationSeverity, info, warn, critical, CanonicalTurn,
}
use ctxins.Graph.Diff.{truthy}
use ctxins.Graph.Tree.{ContextGraph, or_empty}
use ctxins.Store.{SessionStore, resolve_session_id}

-- `self.sessions.get(resolved) or self.sessions.get(session_id, [])`: the key that it takes
unfoldable pub session_key : SessionStore → String → String
session_key s session_id =
    let resolved = resolve_session_id s session_id in
    if is_nil (or_empty (get resolved s.sessions)) then session_id else resolved

unfoldable pub session_turns : SessionStore → String → List CanonicalTurn
session_turns s session_id = or_empty (get (session_key s session_id) s.sessions)

-- The index of its turn, for a violation that has none.
unfoldable pub with_index : ℕ → RuleViolation → RuleViolation
with_index turn_index v = elim v.turn_index [
  | none ↦ record v { turn_index = some turn_index }
  | some _ ↦ v
]

unfoldable pub index_turn_violations : CanonicalTurn → CanonicalTurn
index_turn_violations turn = record turn {
  violations = map (with_index turn.turn_index) turn.violations;
}

unfoldable pub index_values : {K : Type 0} → Dict K CanonicalTurn → Dict K CanonicalTurn
index_values [] = []
index_values ((k, turn) ∷ d) = (k, index_turn_violations turn) ∷ index_values d

unfoldable pub index_graph : ContextGraph → ContextGraph
index_graph graph = record graph {
  turns = map index_turn_violations graph.turns;
  turns_by_id = index_values graph.turns_by_id;
  turns_by_index = index_values graph.turns_by_index;
}

unfoldable pub index_turns :
    String
    → Option (List CanonicalTurn)
    → Dict String (List CanonicalTurn)
    → Dict String (List CanonicalTurn)
index_turns key none sessions = sessions
index_turns key (some turns) sessions = insert key (map index_turn_violations turns) sessions

unfoldable pub index_graphs :
    String → Option ContextGraph → Dict String ContextGraph → Dict String ContextGraph
index_graphs key none graphs = graphs
index_graphs key (some graph) graphs = insert key (index_graph graph) graphs

unfoldable pub index_session : SessionStore → String → SessionStore
index_session s key = record s {
  sessions = index_turns key (get key s.sessions) s.sessions;
  graphs = index_graphs key (get key s.graphs) s.graphs;
}

unfoldable pub is_wanted : Option String → RuleViolation → Bool
is_wanted none v = true
is_wanted (some rule_id) v = v.rule_id =? rule_id

unfoldable pub wanted_violations : Option String → List CanonicalTurn → List RuleViolation
wanted_violations rule_id turns =
    keep (is_wanted rule_id)
      (flatten (map (λ (t : CanonicalTurn). (index_turn_violations t).violations) turns))

unfoldable pub get_violations :
    SessionStore → String → Option String → List RuleViolation × SessionStore
get_violations s session_id rule_id = (
  wanted_violations rule_id (session_turns s session_id),
  index_session s (session_key s session_id),
)

pub record TimelineEntry : Type 0 where
  pub turn : CanonicalTurn
  pub system : ℕ
  pub tools : ℕ
  pub history : ℕ
  pub tool_results : ℕ
  pub assistant : ℕ

unfoldable pub tokens_of : List ContextBlock → ℕ
tokens_of blocks = sum (map (λ (b : ContextBlock). b.token_count) blocks)

-- A turn's own figures are those of the turn.
unfoldable pub timeline_entry : CanonicalTurn → TimelineEntry
timeline_entry t = record {
  turn = t;
  system = tokens_of t.system_blocks;
  tools = tokens_of t.tool_defs;
  history = tokens_of t.conversation_history;
  tool_results = tokens_of t.tool_results;
  assistant = tokens_of t.assistant_blocks;
}

unfoldable pub get_timeline : SessionStore → String → List TimelineEntry
get_timeline s session_id = map timeline_entry (session_turns s session_id)
