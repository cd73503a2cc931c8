-- ===== src/Json.antt =====
-- The values that the json library reads and writes, as the program sees them: an object is its keys and
-- values in the order of a `dict`. Numbers are natural ones.
use ctxins.Base.{
  ℕ, ◌≡◌, refl, Bool, true, false, List, [], ◌∷◌, Option, none, some, String, arith, ◌=?◌,
  string_eq, if◌then◌else◌, Bool-cases, inl, inr, ap,
}

mutual
  pub data Json : Type 0 where
    null : Json
    bool : Bool → Json
    number : ℕ → Json
    str : String → Json
    arr : Elems → Json
    obj : Props → Json

  pub data Elems : Type 0 where
    nil : Elems
    item : Json → Elems → Elems

  pub data Props : Type 0 where
    end : Props
    prop : String → Json → Props → Props

abbrev pub elems : Elems → List Json
elems nil = []
elems (item v vs) = v ∷ elems vs

-- `d.get(k)`
unfoldable pub lookup : String → Props → Option Json
lookup k end = none
lookup k (prop j v ps) = if j =? k then some v else lookup k ps

-- `k in d`
unfoldable pub has_prop : String → Props → Bool
has_prop k end = false
has_prop k (prop j v ps) = if j =? k then true else has_prop k ps

-- `d[k] = v`
unfoldable pub set_prop : String → Json → Props → Props
set_prop k v end = prop k v end
set_prop k v (prop j w ps) = if j =? k then prop j v ps else prop j w (set_prop k v ps)

-- The entries of one object and then those of another.
abbrev pub join_props : Props → Props → Props
join_props end qs = qs
join_props (prop k v ps) qs = prop k v (join_props ps qs)

pub join_props-end : (ps : Props) → join_props ps end ≡ ps
join_props-end end = refl
join_props-end (prop k v ps) = ap (prop k v) (join_props-end ps)

pub join_props_assoc :
    (ps qs rs : Props) → join_props (join_props ps qs) rs ≡ join_props ps (join_props qs rs)
join_props_assoc end qs rs = refl
join_props_assoc (prop k v ps) qs rs = ap (prop k v) (join_props_assoc ps qs rs)

pub lookup-set_prop :
    (k j : String) (v : Json) (ps : Props)
    → lookup j (set_prop k v ps) ≡ (if k =? j then some v else lookup j ps)
unfolding lookup set_prop
lookup-set_prop k j v end = refl
lookup-set_prop k j v (prop i w ps) = ground (
  arith,
  string_eq.beq_iff k j,
  string_eq.beq_iff i k,
  string_eq.beq_iff i j,
  lookup-set_prop k j v ps,
)

pub has_prop-set_prop :
    (k j : String) (v : Json) (ps : Props)
    → has_prop j (set_prop k v ps) ≡ (if k =? j then true else has_prop j ps)
unfolding has_prop set_prop
has_prop-set_prop k j v end = refl
has_prop-set_prop k j v (prop i w ps) = ground (
  arith,
  string_eq.beq_iff k j,
  string_eq.beq_iff i k,
  string_eq.beq_iff i j,
  has_prop-set_prop k j v ps,
)

-- A key that is not there goes to the end.
pub set_prop-new :
    (k : String) (v : Json) (ps : Props)
    → has_prop k ps ≡ false
    → set_prop k v ps ≡ join_props ps (prop k v end)
unfolding has_prop set_prop
set_prop-new k v end h = refl
set_prop-new k v (prop j w ps) h = elim (Bool-cases (j =? k)) [
  | inl same ↦ ground arith
  | inr other ↦ rw other (ap (prop j w) (set_prop-new k v ps (ground arith)))
]
