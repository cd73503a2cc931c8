-- ===== src/Store/Grouped/Totals.antt =====
-- core/store/session_store.py: what the groups of violations add up to.
use ctxins.Base.{
  ℕ, ◌+◌, ◌≡◌, refl, sym, ap, ◌∙◌, Bool, Bool-cases, List, [], ◌∷◌, ◌++◌, Option, String, arith,
  length, map, sum, inl, inr, string_eq, ◌=?◌,
}
use ctxins.Base.Dict.{Dict, get, insert, values}
use ctxins.Schema.{RuleViolation}
use ctxins.Graph.Tree.{or_empty}
use ctxins.Store.{SessionStore}
use ctxins.Store.Violations.{get_violations, session_turns}
use ctxins.Store.Grouped.{
  insert_sorted, sort_by, group_key, add_to_group, group_all, GroupedViolation, summarize,
  is_before, comes_first, grouped, get_grouped_violations, waste_of, session_turns, current_index,
}

sum_of : {A : Type 0} → (A → ℕ) → List A → ℕ
sum_of f [] = 0
sum_of f (x ∷ xs) = f x + sum_of f xs

module _ {A : Type 0} (f : A → ℕ) where
  sum_of-append : (xs ys : List A) → sum_of f (xs ++ ys) ≡ sum_of f xs + sum_of f ys
  unfolding sum_of
  sum_of-append [] ys = omega arith
  sum_of-append (x ∷ xs) ys = rw (sum_of-append xs ys) (omega arith)

  sum_of-map : (xs : List A) → sum (map f xs) ≡ sum_of f xs
  unfolding sum_of
  sum_of-map [] = refl
  sum_of-map (x ∷ xs) = rw (sum_of-map xs) refl

  sum_of-insert_sorted :
      (before : A → A → Bool) (x : A) (xs : List A)
      → sum_of f (insert_sorted before x xs) ≡ f x + sum_of f xs
  unfolding sum_of insert_sorted
  sum_of-insert_sorted before x [] = refl
  sum_of-insert_sorted before x (y ∷ ys) = ground (arith, sum_of-insert_sorted before x ys)

  sum_of-sort_by :
      (before : A → A → Bool) (xs : List A) → sum_of f (sort_by before xs) ≡ sum_of f xs
  unfolding sum_of sort_by
  sum_of-sort_by before [] = refl
  sum_of-sort_by before (x ∷ xs) =
      sum_of-insert_sorted before x (sort_by before xs)
      ∙ ap (λ n. f x + n) (sum_of-sort_by before xs)

-- What the groups of a dict add up to.
module _ (f : RuleViolation → ℕ) where
  abbrev groups_sum : Dict String (List RuleViolation) → ℕ
  groups_sum groups = sum_of (sum_of f) (values groups)

  groups_sum-insert :
      (k : String) (v : RuleViolation) (now : List RuleViolation)
      (groups : Dict String (List RuleViolation))
      → or_empty (get k groups) ≡ now
      → groups_sum (insert k (now ++ v ∷ []) groups) ≡ groups_sum groups + f v
  unfolding sum_of insert get
  groups_sum-insert k v now [] h = rw (← h) (omega arith)
  groups_sum-insert k v now ((j, vs) ∷ groups) h = elim (Bool-cases (j =? k)) [
    | inl same ↦
        let known : vs ≡ now = rw same at h in
        rw (same, sum_of-append f now (v ∷ []), known) (omega arith)
    | inr other ↦ rw (other, groups_sum-insert k v now groups (rw other at h)) (omega arith)
  ]

  groups_sum-group_all :
      (vs : List RuleViolation) (groups : Dict String (List RuleViolation))
      → groups_sum (group_all vs groups) ≡ groups_sum groups + sum_of f vs
  unfolding group_all add_to_group sum_of
  groups_sum-group_all [] groups = omega arith
  groups_sum-group_all (v ∷ vs) groups =
      rw
        (
          groups_sum-group_all vs (add_to_group v groups),
          groups_sum-insert (group_key v) v _ groups refl,
        )
        (omega arith)

  sum_of-summarize :
      (figure : GroupedViolation → ℕ) (n : ℕ) (groups : List (List RuleViolation))
      → ((vs : List RuleViolation) → figure (summarize n vs) ≡ sum_of f vs)
      → sum_of figure (map (summarize n) groups) ≡ sum_of (sum_of f) groups
  unfolding sum_of
  sum_of-summarize figure n [] h = refl
  sum_of-summarize figure n (vs ∷ groups) h = rw (h vs, sum_of-summarize figure n groups h) refl

  -- A figure of the groups that is for each the sum over its violations.
  sum_of-grouped :
      (figure : GroupedViolation → ℕ) (n : ℕ) (raw : List RuleViolation)
      → ((vs : List RuleViolation) → figure (summarize n vs) ≡ sum_of f vs)
      → sum_of figure (grouped n raw) ≡ sum_of f raw
  unfolding grouped
  sum_of-grouped figure n raw h =
      rw
        (
          sum_of-sort_by figure comes_first (map (summarize n) (values (group_all raw []))),
          sum_of-summarize figure n (values (group_all raw [])) h,
          groups_sum-group_all raw [],
        )
        (unfold sum_of in omega arith)

one : RuleViolation → ℕ
one v = 1

sum_of-one : (vs : List RuleViolation) → length vs ≡ sum_of one vs
unfolding sum_of one
sum_of-one [] = refl
sum_of-one (v ∷ vs) = rw (sum_of-one vs) (omega arith)

waste : RuleViolation → ℕ
waste v = v.estimated_waste_usd

waste_of-sum_of : (vs : List RuleViolation) → waste_of vs ≡ sum_of waste vs
unfolding waste_of waste
waste_of-sum_of vs = sum_of-map waste vs

occurrences-summarize :
    (n : ℕ) (vs : List RuleViolation) → (summarize n vs).total_occurrences ≡ sum_of one vs
unfolding summarize
occurrences-summarize n vs = sum_of-one (sort_by is_before vs) ∙ sum_of-sort_by one is_before vs

waste-summarize :
    (n : ℕ) (vs : List RuleViolation) → (summarize n vs).total_waste_usd ≡ sum_of waste vs
unfolding summarize
waste-summarize n vs = waste_of-sum_of (sort_by is_before vs) ∙ sum_of-sort_by waste is_before vs

-- Grouping loses nothing and counts nothing twice: the occurrences of the groups add up to the number of
-- the session's violations, and their waste to the waste of all of these, whichever rule is asked for.
pub get_grouped_violations-totals :
    (s : SessionStore) (session_id : String) (rule_id : Option String)
    → (sum (
          map
            (λ (g : GroupedViolation). g.total_occurrences)
            (get_grouped_violations s session_id rule_id).0)
        ≡ length (get_violations s session_id rule_id).0)
      × (sum (
            map
              (λ (g : GroupedViolation). g.total_waste_usd)
              (get_grouped_violations s session_id rule_id).0)
          ≡ waste_of (get_violations s session_id rule_id).0)
unfolding get_grouped_violations
get_grouped_violations-totals s session_id rule_id =
    let raw = (get_violations s session_id rule_id).0 in
    let n = current_index (session_turns s session_id) in
    (
      sum_of-map (λ (g : GroupedViolation). g.total_occurrences) (grouped n raw)
          ∙ sum_of-grouped one (λ (g : GroupedViolation). g.total_occurrences) n raw
              (occurrences-summarize n)
          ∙ sym (sum_of-one raw),
      sum_of-map (λ (g : GroupedViolation). g.total_waste_usd) (grouped n raw)
          ∙ sum_of-grouped waste (λ (g : GroupedViolation). g.total_waste_usd) n raw
              (waste-summarize n)
          ∙ sym (waste_of-sum_of raw),
    )
