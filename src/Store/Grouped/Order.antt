-- ===== src/Store/Grouped/Order.antt =====
-- core/store/session_store.py: the order of the groups of violations.
use ctxins.Schema.{ViolationSeverity, critical, warn, info}
use ctxins.Base.{
  ◌⊎◌, ◌≤◌, ltb, ◌==◌, refl, ◌≡◌, Bool, Bool-cases, true, false, List, [], ◌∷◌, Option, String,
  arith, All, All-imply, inl, inr,
}
use ctxins.Store.{SessionStore}
use ctxins.Store.Grouped.{
  insert_sorted, sort_by, p_order, GroupedViolation, comes_first, grouped, get_grouped_violations,
}

-- Each element comes before, or is equal to, all that stand after it.
abbrev IsSorted {ℓ} : {A : Type ℓ} → (A → A → Bool) → List A → Type ℓ
IsSorted before [] = Unit
IsSorted before (x ∷ xs) = All (λ y. before x y ≡ true) xs × IsSorted before xs

module _ {A : Type 0} (before : A → A → Bool)
    (total : (x y : A) → before x y ≡ false → before y x ≡ true)
    (trans : (x y z : A) → before x y ≡ true → before y z ≡ true → before x z ≡ true) where
  insert_sorted-All :
      (P : A → Type 0) (x : A) (xs : List A) → P x → All P xs → All P (insert_sorted before x xs)
  unfolding insert_sorted
  insert_sorted-All P x [] h hs = (h, tt)
  insert_sorted-All P x (y ∷ ys) h hs = elim (Bool-cases (before x y)) [
    | inl first_x ↦ rw first_x (h, hs)
    | inr first_y ↦ rw first_y (hs.0, insert_sorted-All P x ys h hs.1)
  ]

  insert_sorted-IsSorted :
      (x : A) (xs : List A) → IsSorted before xs → IsSorted before (insert_sorted before x xs)
  unfolding insert_sorted
  insert_sorted-IsSorted x [] h = (tt, tt)
  insert_sorted-IsSorted x (y ∷ ys) h = elim (Bool-cases (before x y)) [
    | inl first_x ↦ rw first_x ((first_x, All-imply _ _ ys (λ z. trans x y z first_x) h.0), h)
    | inr first_y ↦ rw first_y (
      insert_sorted-All (λ z. before y z ≡ true) x ys (total x y first_y) h.0,
      insert_sorted-IsSorted x ys h.1,
    )
  ]

  sort_by-IsSorted : (xs : List A) → IsSorted before (sort_by before xs)
  unfolding sort_by
  sort_by-IsSorted [] = tt
  sort_by-IsSorted (x ∷ xs) = insert_sorted-IsSorted x (sort_by before xs) (sort_by-IsSorted xs)

comes_first-total : (g h : GroupedViolation) → comes_first g h ≡ false → comes_first h g ≡ true
unfolding comes_first
comes_first-total g h e = ground arith

comes_first_trans :
    (g h i : GroupedViolation)
    → comes_first g h ≡ true
    → comes_first h i ≡ true
    → comes_first g i ≡ true
unfolding comes_first
comes_first_trans g h i e f = ground arith

-- One severity is graver than another.
abbrev pub IsGraver : ViolationSeverity → ViolationSeverity → Type 0
IsGraver critical warn = Unit
IsGraver critical info = Unit
IsGraver warn info = Unit
IsGraver critical critical = ⊥
IsGraver warn critical = ⊥
IsGraver warn warn = ⊥
IsGraver info _ = ⊥

-- A group is graver than another, or as grave and at least as wasteful.
abbrev pub IsAhead : GroupedViolation → GroupedViolation → Type 0
IsAhead g h =
    IsGraver g.severity h.severity
    ⊎ ((g.severity ≡ h.severity) × (h.total_waste_usd ≤ g.total_waste_usd))

p_order-IsGraver : (s t : ViolationSeverity) → ltb (p_order s) (p_order t) ≡ true → IsGraver s t
unfolding p_order
p_order-IsGraver critical critical h = cc
p_order-IsGraver critical warn h = tt
p_order-IsGraver critical info h = tt
p_order-IsGraver warn critical h = cc
p_order-IsGraver warn warn h = cc
p_order-IsGraver warn info h = tt
p_order-IsGraver info critical h = cc
p_order-IsGraver info warn h = cc
p_order-IsGraver info info h = cc

p_order-same : (s t : ViolationSeverity) → (p_order s == p_order t) ≡ true → s ≡ t
unfolding p_order
p_order-same critical critical h = refl
p_order-same critical warn h = cc
p_order-same critical info h = cc
p_order-same warn critical h = cc
p_order-same warn warn h = refl
p_order-same warn info h = cc
p_order-same info critical h = cc
p_order-same info warn h = cc
p_order-same info info h = refl

comes_first-IsAhead : (g h : GroupedViolation) → comes_first g h ≡ true → IsAhead g h
unfolding comes_first
comes_first-IsAhead g h e = elim (Bool-cases (ltb (p_order g.severity) (p_order h.severity))) [
  | inl graver ↦ inl (p_order-IsGraver g.severity h.severity graver)
  | inr as_grave ↦ inr (p_order-same g.severity h.severity (ground arith), ground arith)
]

-- Each element stands ahead of all that come after it.
abbrev pub IsOrdered : List GroupedViolation → Type 0
IsOrdered [] = Unit
IsOrdered (g ∷ gs) = All (IsAhead g) gs × IsOrdered gs

IsSorted-IsOrdered : (gs : List GroupedViolation) → IsSorted comes_first gs → IsOrdered gs
IsSorted-IsOrdered [] h = tt
IsSorted-IsOrdered (g ∷ gs) h =
    (All-imply _ (IsAhead g) gs (comes_first-IsAhead g) h.0, IsSorted-IsOrdered gs h.1)

-- The critical groups come before the warnings, and those before the rest; of two groups of one severity the
-- one with the greater waste comes first.
pub get_grouped_violations-IsOrdered :
    (s : SessionStore) (session_id : String) (rule_id : Option String)
    → IsOrdered (get_grouped_violations s session_id rule_id).0
unfolding get_grouped_violations grouped
get_grouped_violations-IsOrdered s session_id rule_id =
    IsSorted-IsOrdered _ (sort_by-IsSorted comes_first comes_first-total comes_first_trans _)
