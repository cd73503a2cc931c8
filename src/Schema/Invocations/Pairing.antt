-- ===== src/Schema/Invocations/Pairing.antt =====
-- schema/ast.py: the results among the invocations of `tool_invocations`.
use ctxins.Base.{
  ℕ, ◌+◌, ◌≤◌, ◌≡◌, refl, sym, subst, ap, ◌∙◌, Bool, true, false, not, ◌&&◌, List, [], ◌∷◌, ◌++◌,
  Option, none, some, String, arith, first, contains, ◌=?◌, if◌then◌else◌, string_eq, beq_refl,
  Bool-cases, inl, inr, keep, if-keeps,
}
use ctxins.Schema.{ContextBlock, CanonicalTurn}
use ctxins.Stream.Sse.{Text}
use ctxins.Graph.Diff.{block_ids}
use ctxins.Graph.Diff.Partition.{count}
use ctxins.Graph.Diff.Breakpoint.{count-contains}
use ctxins.Schema.Invocations.{
  ToolInvocation, Used, is_free, use_pair, match_by_id, match_by_name, is_call, pair, pair_id,
  orphan_call, orphan_result, pass1, pass2, pass2_at, pass3, tool_invocations,
}

-- The ids of the results that the invocations have.
abbrev pub result_ids : List ToolInvocation → List String
result_ids [] = []
result_ids (i ∷ is) = elim i.result_block_id [ none ↦ result_ids is | some id ↦ id ∷ result_ids is ]

count-append : (x : String) (xs ys : List String) → count x (xs ++ ys) ≡ count x xs + count x ys
count-append x [] ys = omega arith
count-append x (z ∷ xs) ys = ground (arith, count-append x xs ys)

result_ids-append :
    (is js : List ToolInvocation) → result_ids (is ++ js) ≡ result_ids is ++ result_ids js
result_ids-append [] js = refl
result_ids-append (i ∷ is) js = ground (arith, result_ids-append is js)

-- What `first` finds is in the list, and passes the test.
found_in :
    (p : ContextBlock → Bool) (results : List ContextBlock) (r : ContextBlock)
    → first p results ≡ some r
    → (p r ≡ true) × (contains r.block_id (block_ids results) ≡ true)
found_in p [] r h = cc
found_in p (b ∷ results) r h = elim (Bool-cases (p b)) [
  | inl hit ↦
      let same : b ≡ r = ground arith in
      (
        ap p (sym same) ∙ hit,
        ground (arith, ap (λ (c : ContextBlock). c.block_id) same, beq_refl r.block_id),
      )
  | inr miss ↦
      let (hit, there) = found_in p results r (ground arith) in (hit, ground (arith, there))
]

module _ (results : List ContextBlock) (x : String) where
  -- The id was used once at most, and only if a result has it.
  record IsUsedOnce (u : Used) : Type 0 where
    at_most_once : count x u.used_result_ids ≤ 1
    of_a_result : contains x u.used_result_ids ≡ true → contains x (block_ids results) ≡ true

  -- A result that is free, and among the results.
  abbrev Free : Used → ContextBlock → Type 0
  Free u r =
      (contains r.block_id u.used_result_ids ≡ false)
      × (contains r.block_id (block_ids results) ≡ true)

  use_pair-IsUsedOnce :
      (call r : ContextBlock) (u : Used) → Free u r → IsUsedOnce u → IsUsedOnce (use_pair call r u)
  unfolding use_pair
  use_pair-IsUsedOnce call r u free h = elim (Bool-cases (r.block_id =? x)) [
    | inl same ↦
        let one : r.block_id ≡ x = (string_eq.beq_iff r.block_id x).0 same in
        let fresh : contains x u.used_result_ids ≡ false =
          subst (λ i. contains i u.used_result_ids ≡ false) one free.0 in
        let there : contains x (block_ids results) ≡ true =
          subst (λ i. contains i (block_ids results) ≡ true) one free.1 in
        record {
          at_most_once = ground (arith, count-contains x u.used_result_ids);
          of_a_result = λ _. there;
        }
    | inr other ↦ record {
      at_most_once = ground (arith, h.at_most_once);
      of_a_result = λ k. h.of_a_result (ground arith);
    }
  ]

  count-use_pair :
      (call r : ContextBlock) (u : Used)
      → count x (use_pair call r u).used_result_ids ≡ count x (r.block_id ∷ u.used_result_ids)
  unfolding use_pair
  count-use_pair call r u = refl

  match_by_id-Free :
      (u : Used) (call r : ContextBlock) → match_by_id results u call ≡ some r → Free u r
  unfolding match_by_id is_free
  match_by_id-Free u call r h = elim (Bool-cases (call.call_id =? "")) [
    | inl e ↦ ground arith
    | inr e ↦
        let (hit, there) =
          found_in
            (λ (c : ContextBlock).
              c.call_id =? call.call_id && not (contains c.block_id u.used_result_ids))
            results r (ground arith) in
        (ground arith, there)
  ]

  match_by_name-Free :
      (u : Used) (call r : ContextBlock) → match_by_name results u call ≡ some r → Free u r
  unfolding match_by_name is_free
  match_by_name-Free u call r h = let (hit, there) = found_in _ results r h in (ground arith, there)

  -- The paired results and the orphaned ones, together.
  accounts :
      (u : Used) (a b : ℕ)
      → IsUsedOnce u
      → count x (block_ids results) ≤ 1
      → a + b ≡ count x u.used_result_ids
      → a + (b + (if contains x u.used_result_ids then 0 else count x (block_ids results)))
        ≡ count x (block_ids results)
  accounts u a b h distinct e = ground (
    arith,
    h.at_most_once,
    h.of_a_result,
    count-contains x u.used_result_ids,
    count-contains x (block_ids results),
  )

  -- A pass over calls: the results that it gives to invocations are those that it uses.
  record Uses (u : Used) (r : Used × List ToolInvocation) : Type 0 where
    once : IsUsedOnce r.0
    counted : count x (result_ids r.1) + count x u.used_result_ids ≡ count x r.0.used_result_ids

  Uses-pair :
      (call r : ContextBlock) (u : Used) (i : ToolInvocation) (after : Used × List ToolInvocation)
      → i.result_block_id ≡ some r.block_id
      → Uses (use_pair call r u) after
      → Uses u (after.0, i ∷ after.1)
  unfolding use_pair
  Uses-pair call r u i after e h = record {
    once = h.once;
    counted = rw e (ground (arith, h.counted));
  }

  module _ (lower : Text → Text) where
    pass1-Uses :
        (calls : List ContextBlock) (u : Used) → IsUsedOnce u → Uses u (pass1 lower results calls u)
    unfolding pass1 pair
    pass1-Uses [] u h = record { once = h; counted = omega arith }
    pass1-Uses (call ∷ calls) u h =
        go (λ v k. pass1-Uses calls v k) (match_by_id results u call) refl
      where
        go :
            ((v : Used) → IsUsedOnce v → Uses v (pass1 lower results calls v))
            → (o : Option ContextBlock) → match_by_id results u call ≡ o
            → Uses u (elim o [
              | none ↦ pass1 lower results calls u
              | some r ↦
                  let (u', later) = pass1 lower results calls (use_pair call r u) in
                  (u', pair lower call.call_id call r ∷ later)
            ])
        go rest none e = rest u h
        go rest (some r) e =
            Uses-pair call r u (pair lower call.call_id call r)
              (pass1 lower results calls (use_pair call r u)) refl
              (rest (use_pair call r u)
                (use_pair-IsUsedOnce call r u (match_by_id-Free u call r e) h))

    pass2-Uses :
        (calls : List ContextBlock) (u : Used) → IsUsedOnce u → Uses u (pass2 lower results calls u)
    unfolding pass2 pass2_at pair orphan_call
    pass2-Uses [] u h = record { once = h; counted = omega arith }
    pass2-Uses (call ∷ calls) u h =
        if-keeps (Uses u) (contains call.block_id u.used_call_ids) (λ _. pass2-Uses calls u h)
          (λ _. go (λ v k. pass2-Uses calls v k) (match_by_name results u call) refl)
      where
        go :
            ((v : Used) → IsUsedOnce v → Uses v (pass2 lower results calls v))
            → (o : Option ContextBlock) → match_by_name results u call ≡ o
            → let step = pass2_at lower call o u in
              let later = pass2 lower results calls step.0 in Uses u (later.0, step.1 ∷ later.1)
        go rest none e =
            let later =
              rest (record u { used_call_ids = call.block_id ∷ u.used_call_ids })
                (record { at_most_once = h.at_most_once; of_a_result = h.of_a_result }) in
            record { once = later.once; counted = later.counted }
        go rest (some r) e =
            Uses-pair call r u (pair lower (pair_id call) call r)
              (pass2 lower results calls (use_pair call r u)) refl
              (rest (use_pair call r u)
                (use_pair-IsUsedOnce call r u (match_by_name-Free u call r e) h))

    count-pass3 :
        (rs : List ContextBlock) (u : Used)
        → count x (result_ids (pass3 lower rs u))
          ≡ (if contains x u.used_result_ids then 0 else count x (block_ids rs))
    unfolding pass3 is_free orphan_result
    count-pass3 [] u = ground arith
    count-pass3 (r ∷ rs) u = elim (Bool-cases (r.block_id =? x)) [
      | inl same ↦
          let one : r.block_id ≡ x = (string_eq.beq_iff r.block_id x).0 same in
          let fresh : contains r.block_id u.used_result_ids ≡ contains x u.used_result_ids =
            ap (λ i. contains i u.used_result_ids) one in
          ground (arith, count-pass3 rs u)
      | inr other ↦ ground (arith, count-pass3 rs u)
    ]

-- Each result of a turn stands in one invocation: in a turn whose results have ids that differ, an id stands
-- among the results of the turn's invocations as often as among its results, so that no result is lost and
-- none is given to two calls.
pub tool_invocations-results :
    (lower : Text → Text) (turn : CanonicalTurn) (x : String)
    → count x (block_ids turn.tool_results) ≤ 1
    → count x (result_ids (tool_invocations lower turn)) ≡ count x (block_ids turn.tool_results)
unfolding tool_invocations
tool_invocations-results lower turn x distinct =
    let results = turn.tool_results in
    let calls = keep is_call (turn.conversation_history ++ turn.assistant_blocks) in
    let none_used : Used = record { used_call_ids = []; used_result_ids = [] } in
    let first_pass = pass1 lower results calls none_used in
    let second_pass = pass2 lower results calls first_pass.0 in
    let third_pass = pass3 lower results second_pass.0 in
    let one =
      pass1-Uses results x lower calls none_used
        (record { at_most_once = omega arith; of_a_result = λ e. cc e }) in
    let two = pass2-Uses results x lower calls first_pass.0 one.once in
    rw
      (
        result_ids-append first_pass.1 (second_pass.1 ++ third_pass),
        result_ids-append second_pass.1 third_pass,
        count-append x (result_ids first_pass.1)
            (result_ids second_pass.1 ++ result_ids third_pass),
        count-append x (result_ids second_pass.1) (result_ids third_pass),
        count-pass3 results x lower results second_pass.0,
      )
      (accounts results x second_pass.0 (count x (result_ids first_pass.1))
        (count x (result_ids second_pass.1)) two.once distinct
        (ground (arith, one.counted, two.counted)))
