-- ===== src/Filter/Sanitizer/Clean.antt =====
-- interceptor/filter/sanitizer.py: sanitized payloads.
use ctxins.Base.{
  ◌≡◌, refl, sym, subst, true, false, String, ◌=?◌, string_eq, arith, Bool-cases, inl, inr, ◌⊎◌,
}
use ctxins.Json.{
  Json, null, bool, number, str, arr, obj, Elems, nil, item, Props, end, prop, has_prop, set_prop,
  has_prop-set_prop,
}
use ctxins.Filter.Sanitizer.{
  PayloadSanitizer, is_sensitive_key, entry_value, sanitize, sanitize_items, sanitize_entries,
}

module _ (lower : String → String) (s : PayloadSanitizer) where
  -- No value but the redaction string stands under a sensitive key, at any depth.
  unfoldable mutual
    pub Clean : Json → Type 0
    Clean (arr vs) = CleanItems vs
    Clean (obj ps) = CleanEntries ps
    Clean _ = Unit

    pub CleanItems : Elems → Type 0
    CleanItems nil = Unit
    CleanItems (item v vs) = Clean v × CleanItems vs

    pub CleanEntries : Props → Type 0
    CleanEntries end = Unit
    CleanEntries (prop k v ps) =
        ((is_sensitive_key lower s k ≡ true) × (v ≡ str s.redaction_string)
          ⊎ (is_sensitive_key lower s k ≡ false) × Clean v)
        × CleanEntries ps

  -- No object has a key twice, at any depth, as `dict` ensures.
  unfoldable mutual
    pub Distinct : Json → Type 0
    Distinct (arr vs) = DistinctItems vs
    Distinct (obj ps) = DistinctEntries ps
    Distinct _ = Unit

    pub DistinctItems : Elems → Type 0
    DistinctItems nil = Unit
    DistinctItems (item v vs) = Distinct v × DistinctItems vs

    pub DistinctEntries : Props → Type 0
    DistinctEntries end = Unit
    DistinctEntries (prop k v ps) = (has_prop k ps ≡ false) × Distinct v × DistinctEntries ps

  unfoldable pub Kept : String → Json → Type 0
  Kept k v =
      (is_sensitive_key lower s k ≡ true) × (v ≡ str s.redaction_string)
      ⊎ (is_sensitive_key lower s k ≡ false) × Clean v

  entry_value-Kept : (k : String) (v : Json) → Clean v → Kept k (entry_value lower s k v)
  unfolding Kept entry_value
  entry_value-Kept k v h = elim (Bool-cases (is_sensitive_key lower s k)) [
    | inl secret ↦ inl (secret, (rw secret))
    | inr plain ↦ inr (plain, (rw plain h))
  ]

  pub entry_value-same :
      (k : String) (v inner : Json)
      → Kept k v
      → (Clean v → inner ≡ v)
      → entry_value lower s k inner ≡ v
  unfolding Kept entry_value
  entry_value-same k v inner (inl (secret, same)) f = rw (secret, same)
  entry_value-same k v inner (inr (plain, h)) f = rw plain (f h)

  set_prop-CleanEntries :
      (k : String) (v : Json) (ps : Props)
      → Kept k v
      → CleanEntries ps
      → CleanEntries (set_prop k v ps)
  unfolding Kept CleanEntries set_prop
  set_prop-CleanEntries k v end h hs = (h, tt)
  set_prop-CleanEntries k v (prop j w ps) h hs = elim (Bool-cases (j =? k)) [
    | inl e ↦
        let same : k ≡ j = sym ((string_eq.beq_iff j k).0 e) in
        rw e (subst (λ i. Kept i v) same h, hs.1)
    | inr e ↦ rw e (hs.0, set_prop-CleanEntries k v ps h hs.1)
  ]

  set_prop-DistinctEntries :
      (k : String) (v : Json) (ps : Props)
      → Distinct v
      → DistinctEntries ps
      → DistinctEntries (set_prop k v ps)
  unfolding DistinctEntries set_prop has_prop
  set_prop-DistinctEntries k v end h hs = (refl, h, tt)
  set_prop-DistinctEntries k v (prop j w ps) h hs = elim (Bool-cases (j =? k)) [
    | inl e ↦ rw e (hs.0, h, hs.2)
    | inr e ↦
        let other : (k =? j) ≡ false =
          ground (arith, string_eq.beq_iff j k, string_eq.beq_iff k j) in
        rw e (
          (rw (has_prop-set_prop k j v ps, other) hs.0),
          hs.1,
          set_prop-DistinctEntries k v ps h hs.2,
        )
  ]

  entry_value-Distinct : (k : String) (v : Json) → Distinct v → Distinct (entry_value lower s k v)
  unfolding entry_value Distinct
  entry_value-Distinct k v h = elim (Bool-cases (is_sensitive_key lower s k)) [
    | inl secret ↦ rw secret tt
    | inr plain ↦ rw plain h
  ]

  mutual
    unfolding Clean CleanItems CleanEntries sanitize sanitize_items sanitize_entries

    sanitized-Clean : (v : Json) → Clean (sanitize lower s v)
    sanitized-Clean null = tt
    sanitized-Clean (bool b) = tt
    sanitized-Clean (number n) = tt
    sanitized-Clean (str t) = tt
    sanitized-Clean (arr vs) = sanitize_items-CleanItems vs
    sanitized-Clean (obj ps) = sanitize_entries-CleanEntries end ps tt

    sanitize_items-CleanItems : (vs : Elems) → CleanItems (sanitize_items lower s vs)
    sanitize_items-CleanItems nil = tt
    sanitize_items-CleanItems (item v vs) = (sanitized-Clean v, sanitize_items-CleanItems vs)

    sanitize_entries-CleanEntries :
        (done ps : Props) → CleanEntries done → CleanEntries (sanitize_entries lower s done ps)
    sanitize_entries-CleanEntries done end h = h
    sanitize_entries-CleanEntries done (prop k v ps) h =
        sanitize_entries-CleanEntries _ ps
          (set_prop-CleanEntries k _ done (entry_value-Kept k _ (sanitized-Clean v)) h)

  mutual
    unfolding Distinct DistinctItems DistinctEntries sanitize sanitize_items sanitize_entries

    pub sanitize-Distinct : (v : Json) → Distinct (sanitize lower s v)
    sanitize-Distinct null = tt
    sanitize-Distinct (bool b) = tt
    sanitize-Distinct (number n) = tt
    sanitize-Distinct (str t) = tt
    sanitize-Distinct (arr vs) = sanitize_items-DistinctItems vs
    sanitize-Distinct (obj ps) = sanitize_entries-DistinctEntries end ps tt

    sanitize_items-DistinctItems : (vs : Elems) → DistinctItems (sanitize_items lower s vs)
    sanitize_items-DistinctItems nil = tt
    sanitize_items-DistinctItems (item v vs) =
        (sanitize-Distinct v, sanitize_items-DistinctItems vs)

    sanitize_entries-DistinctEntries :
        (done ps : Props)
        → DistinctEntries done
        → DistinctEntries (sanitize_entries lower s done ps)
    sanitize_entries-DistinctEntries done end h = h
    sanitize_entries-DistinctEntries done (prop k v ps) h =
        sanitize_entries-DistinctEntries _ ps
          (set_prop-DistinctEntries k _ done (entry_value-Distinct k _ (sanitize-Distinct v)) h)

  -- A sanitized payload holds no value but the redaction string under a sensitive key, at any depth.
  pub sanitize-Clean : (v : Json) → Clean (sanitize lower s v)
  sanitize-Clean v = sanitized-Clean v
