-- ===== src/Filter/Sanitizer/Unchanged.antt =====
-- interceptor/filter/sanitizer.py: what the sanitizer leaves as it is, and what it puts under a key.
use ctxins.Base.{
  contains, not, ◌||◌, if◌then◌else◌, ◌≡◌, refl, sym, subst, ap, ◌∙◌, false, Option, none, some,
  String, ◌=?◌, string_eq, arith, Bool-cases, inl, inr,
}
use ctxins.Json.{
  Json, null, bool, number, str, arr, obj, Elems, nil, item, Props, end, prop, lookup, has_prop,
  set_prop, join_props, join_props-end, join_props_assoc, lookup-set_prop, set_prop-new,
}
use ctxins.Filter.Sanitizer.{
  PayloadSanitizer, is_sensitive_key, entry_value, sanitize, sanitize_items, sanitize_entries,
}
use ctxins.Filter.Sanitizer.Clean.{
  Clean, CleanItems, CleanEntries, Distinct, DistinctItems, DistinctEntries, sanitize-Clean,
  sanitize-Distinct, entry_value-same, Kept,
}

-- No key of the one object stands in the other.
Apart : Props → Props → Type 0
Apart done end = Unit
Apart done (prop k v ps) = (has_prop k done ≡ false) × Apart done ps

has_prop-join_props :
    (k j : String) (v : Json) (done : Props)
    → has_prop j done ≡ false
    → (k =? j) ≡ false
    → has_prop j (join_props done (prop k v end)) ≡ false
unfolding has_prop
has_prop-join_props k j v end h e = ground arith
has_prop-join_props k j v (prop i w ps) h e = elim (Bool-cases (i =? j)) [
  | inl same ↦ ground arith
  | inr other ↦ rw other (has_prop-join_props k j v ps (ground arith) e)
]

Apart-join_props :
    (k : String) (v : Json) (done ps : Props)
    → Apart done ps
    → has_prop k ps ≡ false
    → Apart (join_props done (prop k v end)) ps
unfolding Apart has_prop
Apart-join_props k v done end h e = tt
Apart-join_props k v done (prop j w ps) h e = elim (Bool-cases (j =? k)) [
  | inl same ↦ ground arith
  | inr other ↦
      let differ : (k =? j) ≡ false =
        ground (arith, string_eq.beq_iff j k, string_eq.beq_iff k j) in
      (has_prop-join_props k j v done h.0 differ, Apart-join_props k v done ps h.1 (ground arith))
]

Apart-end : (ps : Props) → Apart end ps
unfolding Apart has_prop
Apart-end end = tt
Apart-end (prop k v ps) = (refl, Apart-end ps)

module _ (lower : String → String) (s : PayloadSanitizer) where
  mutual
    unfolding sanitize sanitize_items sanitize_entries Kept Clean CleanItems CleanEntries Distinct
        DistinctItems DistinctEntries Apart

    -- A payload of distinct keys in which every sensitive key holds the redaction string already is
    -- left as it is.
    pub sanitize-unchanged :
        (v : Json) → Clean lower s v → Distinct lower s v → sanitize lower s v ≡ v
    sanitize-unchanged null c d = refl
    sanitize-unchanged (bool b) c d = refl
    sanitize-unchanged (number n) c d = refl
    sanitize-unchanged (str t) c d = refl
    sanitize-unchanged (arr vs) c d = ap arr (sanitize_items-unchanged vs c d)
    sanitize-unchanged (obj ps) c d = ap obj (sanitize_entries-unchanged end ps c d (Apart-end ps))

    sanitize_items-unchanged :
        (vs : Elems)
        → CleanItems lower s vs
        → DistinctItems lower s vs
        → sanitize_items lower s vs ≡ vs
    sanitize_items-unchanged nil c d = refl
    sanitize_items-unchanged (item v vs) c d =
        rw (sanitize-unchanged v c.0 d.0, sanitize_items-unchanged vs c.1 d.1)

    sanitize_entries-unchanged :
        (done ps : Props)
        → CleanEntries lower s ps
        → DistinctEntries lower s ps
        → Apart done ps
        → sanitize_entries lower s done ps ≡ join_props done ps
    sanitize_entries-unchanged done end c d a = sym (join_props-end done)
    sanitize_entries-unchanged done (prop k v ps) c d a =
        let same : entry_value lower s k (sanitize lower s v) ≡ v =
          entry_value-same lower s k v _ c.0 (λ h. sanitize-unchanged v h d.1) in
        rw (same, set_prop-new k v done a.0)
          (sanitize_entries-unchanged (join_props done (prop k v end)) ps c.1 d.2
              (Apart-join_props k v done ps a.1 d.0)
            ∙ join_props_assoc done (prop k v end) ps)

  -- Sanitizing twice is sanitizing once.
  pub sanitize-idempotent : (v : Json) → sanitize lower s (sanitize lower s v) ≡ sanitize lower s v
  sanitize-idempotent v =
      sanitize-unchanged (sanitize lower s v) (sanitize-Clean lower s v)
        (sanitize-Distinct lower s v)

  -- What the loop has stored under a key, over what was there before.
  abbrev stored : String → Option Json → Option Json → Option Json
  stored k before none = before
  stored k before (some v) = some (entry_value lower s k (sanitize lower s v))

  lookup-absent : (k : String) (ps : Props) → has_prop k ps ≡ false → lookup k ps ≡ none
  unfolding lookup has_prop
  lookup-absent k end h = refl
  lookup-absent k (prop j v ps) h = ground (arith, lookup-absent k ps)

  lookup-sanitize_entries :
      (k : String) (done ps : Props)
      → DistinctEntries lower s ps
      → lookup k (sanitize_entries lower s done ps) ≡ stored k (lookup k done) (lookup k ps)
  unfolding DistinctEntries sanitize_entries lookup
  lookup-sanitize_entries k done end d = refl
  lookup-sanitize_entries k done (prop j v ps) d =
      let v' = entry_value lower s j (sanitize lower s v) in
      rw (lookup-sanitize_entries k (set_prop j v' done) ps d.2) (elim (Bool-cases (j =? k)) [
        | inl e ↦
            let same : j ≡ k = (string_eq.beq_iff j k).0 e in
            rw (e, lookup-set_prop, e)
              (rw (lookup-absent k ps (subst (λ i. has_prop i ps ≡ false) same d.0))
                (ap (λ i. some (entry_value lower s i (sanitize lower s v))) same))
        | inr e ↦ rw (e, lookup-set_prop, e)
      ])

  -- What a reader finds under a key of the sanitized object, by what was there: nothing under a key that was
  -- not there, the value sanitized where the key is excluded or not matched, and else the redaction string.
  abbrev pub seen_under : String → Option Json → Option Json
  seen_under k none = none
  seen_under k (some v) =
      if contains (lower k) s.excluded_keys || not (s.key_pattern k)
      then some (sanitize lower s v)
      else some (str s.redaction_string)

  stored-seen_under : (k : String) (o : Option Json) → stored k none o ≡ seen_under k o
  unfolding entry_value is_sensitive_key
  stored-seen_under k none = refl
  stored-seen_under k (some v) = elim (Bool-cases (contains (lower k) s.excluded_keys)) [
    | inl excluded ↦ rw excluded refl
    | inr included ↦ elim (Bool-cases (s.key_pattern k)) [
      | inl matched ↦ rw (included, matched) refl
      | inr free ↦ rw (included, free) refl
    ]
  ]

  -- Where an object's keys are distinct, the sanitized object has just those keys: one that the pattern finds
  -- and that is not excluded in lower case holds the redaction string, and every other one its own value,
  -- sanitized.
  pub sanitize-lookup :
      (k : String) (ps : Props)
      → DistinctEntries lower s ps
      → lookup k (sanitize_entries lower s end ps) ≡ seen_under k (lookup k ps)
  unfolding lookup
  sanitize-lookup k ps d = lookup-sanitize_entries k end ps d ∙ stored-seen_under k (lookup k ps)
