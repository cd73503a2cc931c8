-- ===== src/Filter/Sanitizer/Headers.antt =====
-- interceptor/filter/sanitizer.py: sanitized headers.
use ctxins.Base.{
  ◌≡◌, refl, subst, ap, false, [], ◌∷◌, Option, none, some, String, ◌=?◌, string_eq, arith,
  Bool-cases, inl, inr,
}
use ctxins.Base.Dict.{Dict, get, insert, has, get-insert}
use ctxins.Filter.Sanitizer.{HeaderSanitizer, header_value, sanitize_from, sanitize_headers}

-- No header stands twice, as the mapping ensures.
unfoldable pub DistinctHeaders : Dict String (Option String) → Type 0
DistinctHeaders [] = Unit
DistinctHeaders ((k, v) ∷ d) = (has k d ≡ false) × DistinctHeaders d

get-absent : (k : String) (d : Dict String (Option String)) → has k d ≡ false → get k d ≡ none
unfolding get has
get-absent k [] h = refl
get-absent k ((j, v) ∷ d) h = ground (arith, get-absent k d)

module _ (lower : String → String) (s : HeaderSanitizer) where
  -- What the loop has stored under a name, over what was there before.
  abbrev pub shown : String → Option String → Option (Option String) → Option String
  shown k before none = before
  shown k before (some v) = some (header_value lower s k v)

  get-sanitize_from :
      (k : String) (done : Dict String String) (headers : Dict String (Option String))
      → DistinctHeaders headers
      → get k (sanitize_from lower s done headers) ≡ shown k (get k done) (get k headers)
  unfolding DistinctHeaders sanitize_from get has
  get-sanitize_from k done [] d = refl
  get-sanitize_from k done ((j, v) ∷ headers) d =
      rw (get-sanitize_from k (insert j (header_value lower s j v) done) headers d.1)
        (elim (Bool-cases (j =? k)) [
          | inl e ↦
              let same : j ≡ k = (string_eq.beq_iff j k).0 e in
              rw (e, get-insert, e)
                (rw (get-absent k headers (subst (λ i. has i headers ≡ false) same d.0))
                  (ap (λ i. some (header_value lower s i v)) same))
          | inr e ↦ rw (e, get-insert, e)
        ])

  -- Where no header stands twice, the sanitized headers have just the same names: one whose lower-case
  -- name is sensitive holds the redaction string, and every other one its own value, or the empty text.
  pub sanitize_headers-get :
      (k : String) (headers : Dict String (Option String))
      → DistinctHeaders headers
      → get k (sanitize_headers lower s headers) ≡ shown k none (get k headers)
  unfolding sanitize_headers get
  sanitize_headers-get k headers d = get-sanitize_from k [] headers d
