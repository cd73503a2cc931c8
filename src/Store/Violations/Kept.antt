-- ===== src/Store/Violations/Kept.antt =====
-- core/store/session_store.py: what reading the violations leaves, and what it gives.
use ctxins.Base.{
  All-imply, IsIn, ℕ, ◌≡◌, refl, ◌∙◌, ap, Bool, Bool-cases, List, [], ◌∷◌, Option, none, some,
  String, All, All-append, Option-cases, inl, inr, keep, flatten, map, string_eq,
}
use ctxins.Base.Dict.{get}
use ctxins.Schema.{RuleViolation, CanonicalTurn}
use ctxins.Graph.Tree.{ContextGraph}
use ctxins.Store.{SessionStore}
use ctxins.Store.Shared.{insert-IsShared, shared-some, graph_turns}
use ctxins.Store.Bounds.{IsSound, length-insert_there}
use ctxins.Store.Violations.{
  with_index, index_turn_violations, index_graph, index_session, index_turns, index_graphs,
  is_wanted, wanted_violations, get_violations, session_key, session_turns,
}

index_session-known :
    (s : SessionStore) (key : String) (graph : ContextGraph)
    → IsSound s
    → get key s.graphs ≡ some graph
    → IsSound (index_session s key)
unfolding index_session index_graph index_turns index_graphs
index_session-known s key graph h found =
    let turns = shared-some key graph s.sessions s.graphs h.shared found in
    record {
      positive = h.positive;
      bounded = rw turns (
          rw (length-insert_there key (map index_turn_violations graph.turns) s.sessions turns)
            h.bounded);
      shared =
          rw (turns, found)
            (insert-IsShared key (map index_turn_violations graph.turns) (index_graph graph)
              s.sessions s.graphs refl h.shared);
    }

index_session-unknown :
    (s : SessionStore) (key : String)
    → IsSound s
    → get key s.graphs ≡ none
    → IsSound (index_session s key)
unfolding index_session index_turns index_graphs
index_session-unknown s key h missing =
    let no_turns : get key s.sessions ≡ none = h.shared key ∙ ap graph_turns missing in
    record {
      positive = h.positive;
      bounded = rw no_turns h.bounded;
      shared = rw (no_turns, missing) h.shared;
    }

index_session-IsSound :
    (s : SessionStore) (key : String) → IsSound s → IsSound (index_session s key)
index_session-IsSound s key h = elim (Option-cases (get key s.graphs)) [
  | inl missing ↦ index_session-unknown s key h missing
  | inr (graph, found) ↦ index_session-known s key graph h found
]

-- A violation of a turn, as it is read: it keeps an index that it has, and gets the turn's if it has none.
pub data IsReadFrom (t : CanonicalTurn) (v : RuleViolation) : Type 0 where
  kept : (i : ℕ) → v.turn_index ≡ some i → IsIn v t.violations → IsReadFrom t v
  given :
      (w : RuleViolation)
      → w.turn_index ≡ none
      → IsIn w t.violations
      → v ≡ record w { turn_index = some t.turn_index }
      → IsReadFrom t v

-- A violation that one of the turns has.
abbrev pub IsReported : List CanonicalTurn → RuleViolation → Type 0
IsReported turns v = (t : CanonicalTurn) × IsIn t turns × IsReadFrom t v

with_index-IsReadFrom :
    (t : CanonicalTurn) (v : RuleViolation)
    → IsIn v t.violations
    → IsReadFrom t (with_index t.turn_index v)
unfolding with_index
with_index-IsReadFrom t v m = go v.turn_index refl
  where
    go :
        (o : Option ℕ)
        → v.turn_index ≡ o
        → IsReadFrom t (elim o as (λ _. RuleViolation) [
          | none ↦ record v { turn_index = some t.turn_index }
          | some _ ↦ v
        ])
    go none e = given v e m refl
    go (some i) e = kept i e m

turn-IsReadFrom :
    (t : CanonicalTurn) (vs : List RuleViolation)
    → ((v : RuleViolation) → IsIn v vs → IsIn v t.violations)
    → All (IsReadFrom t) (map (with_index t.turn_index) vs)
turn-IsReadFrom t [] m = tt
turn-IsReadFrom t (v ∷ vs) m =
    (with_index-IsReadFrom t v (m v (inl refl)), turn-IsReadFrom t vs (λ w h. m w (inr h)))

turns-IsReported :
    (all turns : List CanonicalTurn)
    → ((t : CanonicalTurn) → IsIn t turns → IsIn t all)
    → All
        (IsReported all)
        (flatten (map (λ (t : CanonicalTurn). (index_turn_violations t).violations) turns))
unfolding index_turn_violations
turns-IsReported all [] m = tt
turns-IsReported all (t ∷ turns) m =
    All-append (IsReported all) _ _
      (All-imply (IsReadFrom t) (IsReported all) _ (λ v r. (t, m t (inl refl), r))
        (turn-IsReadFrom t t.violations (λ v h. h)))
      (turns-IsReported all turns (λ u h. m u (inr h)))

keep-All :
    (P : RuleViolation → Type 0) (p : RuleViolation → Bool) (vs : List RuleViolation)
    → All P vs
    → All P (keep p vs)
keep-All P p [] h = tt
keep-All P p (v ∷ vs) h = elim (Bool-cases (p v)) [
  | inl wanted ↦ rw wanted (h.0, keep-All P p vs h.1)
  | inr other ↦ rw other (keep-All P p vs h.1)
]

-- Reading the violations of a sound store leaves it sound, with the session and its graph in step. Every
-- violation that is read is one of a turn of the session, with the index that it has, or with the index of
-- that turn if it has none.
pub get_violations-IsReported :
    (s : SessionStore) (session_id : String) (rule_id : Option String)
    → IsSound s
    → IsSound (get_violations s session_id rule_id).1
      × All (IsReported (session_turns s session_id)) (get_violations s session_id rule_id).0
unfolding get_violations wanted_violations
get_violations-IsReported s session_id rule_id h = (
  index_session-IsSound s (session_key s session_id) h,
  keep-All (IsReported (session_turns s session_id)) (is_wanted rule_id) _
      (turns-IsReported (session_turns s session_id) (session_turns s session_id) (λ t h. h)),
)
