-- ===== src/Tracker/Reaping.antt =====
-- interceptor/correlation/tracker.py: `reap_expired`.
use ctxins.Base.{
  ℕ, ◌≡◌, ◌≢◌, refl, ◌∙◌, ap, subst, true, false, [], ◌∷◌, Option, none, some, String, arith, ◌=?◌,
  if◌then◌else◌, string_eq, Bool-cases, inl, inr,
}
use ctxins.Base.Dict.{Dict, get, get-remove}
use ctxins.Tracker.{
  Accumulator, Turn, ActiveTurnTracker, remove_turn, get_turn, created_at, is_expired, reap_loop,
  reap_expired, with_default,
}

module _ (Any : Type 0) (A : Accumulator) where
  -- No key stands twice in a dict.
  abbrev pub Unique : Dict String (Turn Any A) → Type 0
  Unique [] = Unit
  Unique ((k, v) ∷ d) = (get k d ≡ none) × Unique d

  -- What is found under a key after the loop, given what was found before it.
  abbrev after_loop :
      ℕ
      → ℕ
      → ActiveTurnTracker Any A
      → String
      → Turn Any A
      → Option (Turn Any A)
      → Option (Turn Any A)
  after_loop ttl now t k turn found =
      if is_expired Any A t.last_active ttl now k turn then none else found

  get-removed :
      (t : ActiveTurnTracker Any A) (j k : String)
      → j ≢ k
      → (get k (remove_turn Any A t j).0.turns ≡ get k t.turns)
        × (get k (remove_turn Any A t j).0.last_active ≡ get k t.last_active)
  unfolding remove_turn
  get-removed t j k other =
      let apart : (j =? k) ≡ false = elim (Bool-cases (j =? k)) [
        | inl same ↦ absurd (other ((string_eq.beq_iff j k).0 same))
        | inr e ↦ e
      ] in
      (get-remove j k t.turns ∙ (rw apart refl), get-remove j k t.last_active ∙ (rw apart refl))

  reap_loop-stop :
      (ttl now : ℕ) (j : String) (v : Turn Any A) (items : Dict String (Turn Any A))
      (t : ActiveTurnTracker Any A)
      → is_expired Any A t.last_active ttl now j v ≡ false
      → (reap_loop Any A ttl now ((j, v) ∷ items) t).0 ≡ (reap_loop Any A ttl now items t).0
  unfolding reap_loop
  reap_loop-stop ttl now j v items t e = rw e refl

  reap_loop-take :
      (ttl now : ℕ) (j : String) (v : Turn Any A) (items : Dict String (Turn Any A))
      (t : ActiveTurnTracker Any A)
      → is_expired Any A t.last_active ttl now j v ≡ true
      → (reap_loop Any A ttl now ((j, v) ∷ items) t).0
        ≡ (reap_loop Any A ttl now items (remove_turn Any A t j).0).0
  unfolding reap_loop
  reap_loop-take ttl now j v items t e = rw e refl

  -- A key that the loop does not come by stays as it is.
  reap_loop-other :
      (ttl now : ℕ) (items : Dict String (Turn Any A)) (t : ActiveTurnTracker Any A) (k : String)
      → get k items ≡ none
      → get k (reap_loop Any A ttl now items t).0.turns ≡ get k t.turns
  unfolding reap_loop get
  reap_loop-other ttl now [] t k h = refl
  reap_loop-other ttl now ((j, v) ∷ items) t k h =
      let apart : (j =? k) ≡ false = ground arith in
      let other : j ≢ k = λ e. ground (arith, (string_eq.beq_iff j k).1 e) in
      let later : get k items ≡ none = ground arith in
      elim (Bool-cases (is_expired Any A t.last_active ttl now j v)) [
        | inl e ↦
            ap (λ (s : ActiveTurnTracker Any A). get k s.turns)
              (reap_loop-take ttl now j v items t e)
            ∙ reap_loop-other ttl now items (remove_turn Any A t j).0 k later
            ∙ (get-removed t j k other).0
        | inr e ↦
            ap (λ (s : ActiveTurnTracker Any A). get k s.turns)
              (reap_loop-stop ttl now j v items t e)
            ∙ reap_loop-other ttl now items t k later
      ]

  is_expired-removed :
      (ttl now : ℕ) (t : ActiveTurnTracker Any A) (j k : String) (turn : Turn Any A)
      → j ≢ k
      → is_expired Any A (remove_turn Any A t j).0.last_active ttl now k turn
        ≡ is_expired Any A t.last_active ttl now k turn
  unfolding is_expired created_at
  is_expired-removed ttl now t j k turn other = rw (get-removed t j k other).1 refl

  removed-here :
      (t : ActiveTurnTracker Any A) (j k : String)
      → j ≡ k
      → get k (remove_turn Any A t j).0.turns ≡ none
  unfolding remove_turn
  removed-here t j k one = get-remove j k t.turns ∙ (rw ((string_eq.beq_iff j k).1 one) refl)

  reap_loop-here :
      (ttl now : ℕ) (j : String) (v : Turn Any A) (items : Dict String (Turn Any A))
      (t : ActiveTurnTracker Any A) (k : String) (turn : Turn Any A)
      → j ≡ k
      → v ≡ turn
      → get j items ≡ none
      → get k (reap_loop Any A ttl now ((j, v) ∷ items) t).0.turns
        ≡ after_loop ttl now t k turn (get k t.turns)
  reap_loop-here ttl now j v items t k turn one its absent =
      let missing : get k items ≡ none = subst (λ i. get i items ≡ none) one absent in
      let same : is_expired Any A t.last_active ttl now j v
          ≡ is_expired Any A t.last_active ttl now k turn =
        cc (one, its) in
      elim (Bool-cases (is_expired Any A t.last_active ttl now k turn)) [
        | inl e ↦
            ap (λ (s : ActiveTurnTracker Any A). get k s.turns)
              (reap_loop-take ttl now j v items t (same ∙ e))
            ∙ reap_loop-other ttl now items (remove_turn Any A t j).0 k missing
            ∙ removed-here t j k one
            ∙ (rw e refl)
        | inr e ↦
            ap (λ (s : ActiveTurnTracker Any A). get k s.turns)
              (reap_loop-stop ttl now j v items t (same ∙ e))
            ∙ reap_loop-other ttl now items t k missing
            ∙ (rw e refl)
      ]

  reap_loop-get :
      (ttl now : ℕ) (items : Dict String (Turn Any A)) (t : ActiveTurnTracker Any A) (k : String)
      (turn : Turn Any A)
      → Unique items
      → get k items ≡ some turn
      → get k (reap_loop Any A ttl now items t).0.turns
        ≡ after_loop ttl now t k turn (get k t.turns)
  unfolding get
  reap_loop-get ttl now [] t k turn u h = cc
  reap_loop-get ttl now ((j, v) ∷ items) t k turn u h = elim (Bool-cases (j =? k)) [
    | inl same ↦
        let one : j ≡ k = (string_eq.beq_iff j k).0 same in
        let its : v ≡ turn = ground arith in reap_loop-here ttl now j v items t k turn one its u.0
    | inr apart ↦
        let other : j ≢ k = λ e. ground (arith, (string_eq.beq_iff j k).1 e) in
        let later : get k items ≡ some turn = ground arith in
        elim (Bool-cases (is_expired Any A t.last_active ttl now j v)) [
          | inl e ↦
              ap (λ (s : ActiveTurnTracker Any A). get k s.turns)
                (reap_loop-take ttl now j v items t e)
              ∙ reap_loop-get ttl now items (remove_turn Any A t j).0 k turn u.1 later
              ∙ (rw (is_expired-removed ttl now t j k turn other, (get-removed t j k other).0) refl)
          | inr e ↦
              ap (λ (s : ActiveTurnTracker Any A). get k s.turns)
                (reap_loop-stop ttl now j v items t e)
              ∙ reap_loop-get ttl now items t k turn u.1 later
        ]
  ]

  pub reap_expired-get :
      (t : ActiveTurnTracker Any A) (ttl : Option ℕ) (now : ℕ) (cid : String) (turn : Turn Any A)
      → Unique t.turns
      → get_turn Any A t cid ≡ some turn
      → get_turn Any A (reap_expired Any A t ttl now).0 cid ≡ (
          if is_expired Any A t.last_active (with_default ttl t.default_ttl) now cid turn
          then none
          else some turn)
  unfolding reap_expired get_turn
  reap_expired-get t ttl now cid turn u h =
      reap_loop-get (with_default ttl t.default_ttl) now t.turns t cid turn u h ∙ (rw h refl)

  -- A recent activity does not keep a turn from being reaped: whether a turn whose time of creation is
  -- recorded is expired does not depend on the times of the last activity.
  pub is_expired-last_active :
      (last_active last_active' : Dict String ℕ) (ttl now : ℕ) (cid : String) (turn : Turn Any A)
      → turn.created_at_wall ≢ 0
      → is_expired Any A last_active ttl now cid turn
        ≡ is_expired Any A last_active' ttl now cid turn
  unfolding is_expired created_at
  is_expired-last_active last_active last_active' ttl now cid turn h = ground arith
