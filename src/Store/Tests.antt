-- ===== src/Store/Tests.antt =====
-- The session store at concrete inputs.
use ctxins.Base.{◌≡◌, All, map, sum, length, ℕ, refl, List, [], ◌∷◌, none, String, arith, true}
use ctxins.Base.Dict.{get, insert}
use ctxins.Schema.{CanonicalTurn, RuleViolation, ViolationSeverity, warn, critical}
use ctxins.Store.{resolve_session_id, SessionStore, new_store, append_turn}
use ctxins.Store.Bounds.{IsSound}
use ctxins.Store.Violations.{
  get_violations, with_index, index_turn_violations, is_wanted, wanted_violations, session_turns,
  session_key,
}
use ctxins.Store.Violations.Kept.{IsReported, get_violations-IsReported}
use ctxins.Store.Grouped.{
  grouped, sort_by, insert_sorted, group_all, add_to_group, group_key, current_index, has_severity,
  indices_of, is_before, is_current, is_earlier, is_severity, last_fix, or_zero, p_order, summarize,
  text_of, unseen_ids, worst_severity, GroupedViolation, comes_first, waste_of,
  get_grouped_violations,
}
use ctxins.Store.Grouped.Totals.{get_grouped_violations-totals}
use ctxins.Store.Grouped.Order.{IsOrdered, get_grouped_violations-IsOrdered}
use ctxins.Store.Sound.{
  Gives, Appends, append_turn-Appends, Call, appended, registered, exported, disconnected, run,
  run-Gives,
}

-- A turn of a session, without blocks.
abbrev turn_in : String → String → ℕ → CanonicalTurn
turn_in session_id turn_id turn_index = record {
  turn_id = turn_id;
  correlation_id = turn_id;
  session_id = session_id;
  turn_index = turn_index;
  timestamp = 0;
  provider = "anthropic";
  model = "M";
  system_blocks = [];
  tool_defs = [];
  conversation_history = [];
  tool_results = [];
  assistant_blocks = [];
  input_tokens = 7;
  output_tokens = 0;
  cached_read_tokens = 0;
  cached_created_tokens = 0;
  duration_ms = 0;
  ttft_ms = none;
  violations = [];
  turn_cost_usd = 0;
  wasted_cost_usd = 0;
  metadata = [];
}

abbrev small : SessionStore
small = new_store 2 "step"

small-IsSound : IsSound small
unfolding get
small-IsSound = record { positive = omega arith; bounded = omega arith; shared = λ k. refl }

-- Three sessions in a store for two.
abbrev calls : List (Call (λ s. s))
calls =
    appended (turn_in "a" "t" 0) none
    ∷ registered "b" none
    ∷ appended (turn_in "c" "u" 0) none
    ∷ exported "b"
    ∷ disconnected "b" true
    ∷ []

run-Gives_example : Gives (run (λ s. s) small calls)
run-Gives_example = run-Gives (λ s. s) small calls small-IsSound

append_turn-Appends_example :
    Appends (λ s. s) small (turn_in "a" "t" 0) (append_turn (λ s. s) small (turn_in "a" "t" 0) none)
append_turn-Appends_example =
    append_turn-Appends (λ s. s) small (turn_in "a" "t" 0) none small-IsSound

-- Two turns with violations: of one rule in both, and a graver one of another in the second.
abbrev violation : String → ViolationSeverity → ℕ → RuleViolation
violation rule_id severity waste = record {
  rule_id = rule_id;
  severity = severity;
  title = "t";
  message = "m";
  estimated_waste_usd = waste;
  suggested_fix = "fix";
  block_ids = [];
  turn_index = none;
}

abbrev two_findings : CanonicalTurn
two_findings = record (turn_in "a" "u" 1) {
  violations = violation "R1" warn 7 ∷ violation "R2" critical 1 ∷ [];
}

abbrev reported : SessionStore
reported = record small {
  sessions =
      (
        "a",
        record (turn_in "a" "t" 0) { violations = violation "R1" warn 5 ∷ [] } ∷ two_findings ∷ [],
      )
      ∷ [];
}

get_grouped_violations-totals_example :
    (sum (
        map
          (λ (g : GroupedViolation). g.total_occurrences)
          (get_grouped_violations reported "a" none).0)
      ≡ length (get_violations reported "a" none).0)
    × (sum (
          map
            (λ (g : GroupedViolation). g.total_waste_usd)
            (get_grouped_violations reported "a" none).0)
        ≡ waste_of (get_violations reported "a" none).0)
get_grouped_violations-totals_example = get_grouped_violations-totals reported "a" none

get_grouped_violations-IsOrdered_example : IsOrdered (get_grouped_violations reported "a" none).0
get_grouped_violations-IsOrdered_example = get_grouped_violations-IsOrdered reported "a" none

-- The store after a turn with two violations that name no turn.
noted : Appends (λ s. s) small two_findings (append_turn (λ s. s) small two_findings none)
noted = append_turn-Appends (λ s. s) small two_findings none small-IsSound

get_violations-IsReported_example :
    IsSound (get_violations noted.store "a" none).1
    × All (IsReported (session_turns noted.store "a")) (get_violations noted.store "a" none).0
get_violations-IsReported_example = get_violations-IsReported noted.store "a" none noted.sound

abbrev groups : List GroupedViolation
groups = (get_grouped_violations reported "a" none).0

groups_test :
    (map (λ (g : GroupedViolation). g.rule_id) groups ≡ "R2" ∷ "R1" ∷ [])
    × (map (λ (g : GroupedViolation). g.total_waste_usd) groups ≡ 1 ∷ 12 ∷ [])
    × (map (λ (g : GroupedViolation). g.earlier_waste_usd) groups ≡ 0 ∷ 5 ∷ [])
unfolding get_grouped_violations get_violations get insert resolve_session_id waste_of with_index
    index_turn_violations is_wanted wanted_violations session_turns session_key grouped sort_by
    insert_sorted group_all add_to_group group_key comes_first current_index has_severity indices_of
    is_before is_current is_earlier is_severity last_fix or_zero p_order summarize text_of
    unseen_ids worst_severity
groups_test = (refl, refl, refl)
