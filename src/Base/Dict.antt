-- ===== src/Base/Dict.antt =====
-- Python's `dict`: entries in the order in which their keys were first inserted.
use mathlib.Core.Path.{◌≡◌, refl, ap}
use mathlib.Core.Logic.{inl, inr}
use mathlib.Core.Bool.{Bool, true, false}
use mathlib.Core.List.{List, [], ◌∷◌}
use mathlib.Core.Option.{Option, none, some}
use native.Mathlib.Omega.{arith}
use ctxins.Base.Tests.{if◌then◌else◌, Bool-cases}
use ctxins.Base.Equality.{Eq}

abbrev pub Dict {ℓ κ} : Type ℓ → Type κ → Type (ℓ ⊔ κ)
Dict K V = List (K × V)

module _ {ℓ} {K V : Type ℓ} where
  -- d.keys(), d.values()
  abbrev pub keys : Dict K V → List K
  keys [] = []
  keys ((k, v) ∷ d) = k ∷ keys d

  abbrev pub values : Dict K V → List V
  values [] = []
  values ((k, v) ∷ d) = v ∷ values d

module _ {ℓ} {K V : Type ℓ} ⦃e : Eq K⦄ where
  -- d.get(k)
  unfoldable pub get : K → Dict K V → Option V
  get k [] = none
  get k ((j, v) ∷ d) = if e.beq j k then some v else get k d

  -- d[k] = v: an old key keeps its place, a new one goes to the end
  unfoldable pub insert : K → V → Dict K V → Dict K V
  insert k v [] = (k, v) ∷ []
  insert k v ((j, w) ∷ d) = if e.beq j k then (j, v) ∷ d else (j, w) ∷ insert k v d

  -- d.pop(k, None)
  unfoldable pub remove : K → Dict K V → Dict K V
  remove k [] = []
  remove k ((j, v) ∷ d) = let rest = remove k d in if e.beq j k then rest else (j, v) ∷ rest

  -- k in d
  unfoldable pub has : K → Dict K V → Bool
  has k [] = false
  has k ((j, v) ∷ d) = if e.beq j k then true else has k d

  pub get-insert :
      (k j : K) (v : V) (d : Dict K V)
      → get j (insert k v d) ≡ (if e.beq k j then some v else get j d)
  unfolding get insert
  get-insert k j v [] = refl
  get-insert k j v ((i, w) ∷ d) =
      ground (arith, e.beq_iff k j, e.beq_iff i k, e.beq_iff i j, get-insert k j v d)

  pub get-remove :
      (k j : K) (d : Dict K V) → get j (remove k d) ≡ (if e.beq k j then none else get j d)
  unfolding get remove
  get-remove k j [] = ground arith
  get-remove k j ((i, w) ∷ d) =
      ground (arith, e.beq_iff k j, e.beq_iff i k, e.beq_iff i j, get-remove k j d)

  pub has-get : (k : K) (d : Dict K V) → has k d ≡ (elim (get k d) [ none ↦ false | some _ ↦ true ])
  unfolding get has
  has-get k [] = refl
  has-get k ((j, v) ∷ d) = ground (arith, has-get k d)

module _ {ℓ} {K V : Type ℓ} ⦃e : Eq K⦄ where
  -- d.setdefault(k, v): an old key keeps its value
  abbrev pub set_default : K → V → Dict K V → Dict K V
  set_default k v d = if has k d then d else insert k v d

  pub get-set_default :
      (k j : K) (v : V) (d : Dict K V)
      → get j (set_default k v d)
        ≡ (elim (get j d) [ none ↦ if e.beq k j then some v else none | some w ↦ some w ])
  get-set_default k j v d = elim (Bool-cases (e.beq k j)) [
    | inl same ↦
        let one : k ≡ j = (e.beq_iff k j).0 same in
        let old = has-get k d in ground (arith, get-insert k j v d, ap (λ i. get i d) one, old)
    | inr other ↦ ground (arith, get-insert k j v d)
  ]

pub get-empty {ℓ} : {K V : Type ℓ} ⦃e : Eq K⦄ (k : K) → get {V = V} k [] ≡ none
unfolding get
get-empty k = refl
