-- ===== src/Store/Grouped.antt =====
-- core/store/session_store.py: `get_grouped_violations`, which puts a session's violations into groups.
pub mod Totals
pub mod Order
use ctxins.Base.{
  ℕ, ◌+◌, Bool, true, false, not, ◌&&◌, ◌||◌, leb, ltb, ◌==◌, List, [], ◌∷◌, ◌++◌, Option, none,
  some, String, length, map, sum, keep, first, last, is_nil, contains, if◌then◌else◌, string_eq,
  ◌=?◌, flatten,
}
use ctxins.Base.Dict.{Dict, get, insert, values}
use ctxins.Schema.{
  ContextBlock, RuleViolation, ViolationSeverity, info, warn, critical, CanonicalTurn,
}
use ctxins.Graph.Diff.{truthy}
use ctxins.Graph.Tree.{ContextGraph, or_empty}
use ctxins.Store.{SessionStore, resolve_session_id}
use ctxins.Store.Violations.{session_turns, get_violations}

-- `sorted`, which is stable: an element goes before those that it comes before or is equal to.
module _ {A : Type 0} (before : A → A → Bool) where
  unfoldable pub insert_sorted : A → List A → List A
  insert_sorted x [] = x ∷ []
  insert_sorted x (y ∷ ys) =
      let later = insert_sorted x ys in if before x y then x ∷ y ∷ ys else y ∷ later

  unfoldable pub sort_by : List A → List A
  sort_by [] = []
  sort_by (x ∷ xs) = insert_sorted x (sort_by xs)

unfoldable pub or_zero : Option ℕ → ℕ
or_zero none = 0
or_zero (some n) = n

unfoldable pub group_key : RuleViolation → String
group_key v =
    if truthy v.rule_id
    then v.rule_id
    else if truthy v.suggested_fix
    then v.suggested_fix
    else v.title

-- `groups_map.setdefault(key, []).append(v)`
unfoldable pub add_to_group :
    RuleViolation → Dict String (List RuleViolation) → Dict String (List RuleViolation)
add_to_group v groups = insert (group_key v) (or_empty (get (group_key v) groups) ++ v ∷ []) groups

unfoldable pub group_all :
    List RuleViolation → Dict String (List RuleViolation) → Dict String (List RuleViolation)
group_all [] groups = groups
group_all (v ∷ vs) groups = group_all vs (add_to_group v groups)

unfoldable pub is_severity : ViolationSeverity → ViolationSeverity → Bool
is_severity critical critical = true
is_severity critical warn = false
is_severity critical info = false
is_severity warn warn = true
is_severity warn critical = false
is_severity warn info = false
is_severity info info = true
is_severity info critical = false
is_severity info warn = false

unfoldable pub has_severity : ViolationSeverity → List RuleViolation → Bool
has_severity sev [] = false
has_severity sev (v ∷ vs) = is_severity sev v.severity || has_severity sev vs

unfoldable pub worst_severity : List RuleViolation → ViolationSeverity
worst_severity vs =
    if has_severity critical vs then critical else if has_severity warn vs then warn else info

unfoldable pub is_earlier : ℕ → RuleViolation → Bool
is_earlier current_turn_idx v = elim v.turn_index [ none ↦ false | some i ↦ ltb i current_turn_idx ]

unfoldable pub is_current : ℕ → RuleViolation → Bool
is_current current_turn_idx v = elim v.turn_index [ none ↦ false | some i ↦ i == current_turn_idx ]

unfoldable pub is_before : RuleViolation → RuleViolation → Bool
is_before v w = leb (or_zero v.turn_index) (or_zero w.turn_index)

-- The indices of a list's violations, each once.
unfoldable pub indices_of : List RuleViolation → List ℕ → List ℕ
indices_of [] seen = []
indices_of (v ∷ vs) seen = elim v.turn_index [
  | none ↦ indices_of vs seen
  | some i ↦
      if is_nil (keep (λ j. i == j) seen) then i ∷ indices_of vs (i ∷ seen) else indices_of vs seen
]

-- The first of the ids and of each id that is not seen yet, in order.
unfoldable pub unseen_ids : List String → List String → List String
unseen_ids seen [] = []
unseen_ids seen (b ∷ bs) =
    let known = unseen_ids seen bs in
    let new = unseen_ids (b ∷ seen) bs in if contains b seen then known else b ∷ new

-- The last fix that is no empty text.
unfoldable pub last_fix : List RuleViolation → String
last_fix [] = ""
last_fix (v ∷ vs) = let later = last_fix vs in if truthy later then later else v.suggested_fix

unfoldable pub waste_of : List RuleViolation → ℕ
waste_of vs = sum (map (λ (v : RuleViolation). v.estimated_waste_usd) vs)

-- The entries of a group, each under one of its two names.
pub record GroupedViolation : Type 0 where
  pub rule_id : String
  pub severity : ViolationSeverity
  pub title : String
  pub message : String
  pub suggested_fix : String
  pub total_occurrences : ℕ
  pub turn_count : ℕ
  pub turn_indices : List ℕ
  pub current_turn_index : ℕ
  pub current_violation : Option RuleViolation
  pub earlier_violations : List RuleViolation
  pub earlier_turn_indices : List ℕ
  pub total_waste_usd : ℕ
  pub earlier_waste_usd : ℕ
  pub current_waste_usd : ℕ
  pub block_ids : List String
  pub all_violations : List RuleViolation

-- A text of an optional violation; a group has a first and a last one, since none is empty.
unfoldable pub text_of : (RuleViolation → String) → Option RuleViolation → String
text_of f none = ""
text_of f (some v) = f v

unfoldable pub summarize : ℕ → List RuleViolation → GroupedViolation
summarize current_turn_idx viols =
    let sorted_viols = sort_by is_before viols in
    let head = first (λ _. true) sorted_viols in
    let earlier_viols = keep (is_earlier current_turn_idx) sorted_viols in
    let current_viols = keep (is_current current_turn_idx) sorted_viols in
    let cur_viol = first (λ _. true) current_viols in
    let cur_fix = text_of (λ (v : RuleViolation). v.suggested_fix) cur_viol in
    record {
      rule_id = text_of (λ (v : RuleViolation). v.rule_id) head;
      severity = worst_severity sorted_viols;
      title = text_of (λ (v : RuleViolation). v.title) head;
      message = elim cur_viol [
        | some v ↦ v.message
        | none ↦ text_of (λ (v : RuleViolation). v.message) (last sorted_viols)
      ];
      suggested_fix = if truthy cur_fix then cur_fix else last_fix sorted_viols;
      total_occurrences = length sorted_viols;
      turn_count = length (indices_of sorted_viols []);
      turn_indices = sort_by leb (indices_of sorted_viols []);
      current_turn_index = current_turn_idx;
      current_violation = cur_viol;
      earlier_violations = earlier_viols;
      earlier_turn_indices = sort_by leb (indices_of earlier_viols []);
      total_waste_usd = waste_of sorted_viols;
      earlier_waste_usd = waste_of earlier_viols;
      current_waste_usd = waste_of current_viols;
      block_ids = unseen_ids [] (flatten (map (λ (v : RuleViolation). v.block_ids) sorted_viols));
      all_violations = sorted_viols;
    }

unfoldable pub p_order : ViolationSeverity → ℕ
p_order critical = 0
p_order warn = 1
p_order info = 2

-- `(p_order.get(g["severity"], 3), -g["total_waste_usd"])`
unfoldable pub comes_first : GroupedViolation → GroupedViolation → Bool
comes_first g h =
    ltb (p_order g.severity) (p_order h.severity)
    || (p_order g.severity == p_order h.severity && leb h.total_waste_usd g.total_waste_usd)

unfoldable pub current_index : List CanonicalTurn → ℕ
current_index turns = elim (last turns) [ none ↦ 0 | some t ↦ t.turn_index ]

unfoldable pub grouped : ℕ → List RuleViolation → List GroupedViolation
grouped current_turn_idx raw_violations =
    sort_by comes_first (map (summarize current_turn_idx) (values (group_all raw_violations [])))

unfoldable pub get_grouped_violations :
    SessionStore → String → Option String → List GroupedViolation × SessionStore
get_grouped_violations s session_id rule_id =
    let (raw_violations, s') = get_violations s session_id rule_id in
    (grouped (current_index (session_turns s session_id)) raw_violations, s')
