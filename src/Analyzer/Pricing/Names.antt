-- ===== src/Analyzer/Pricing/Names.antt =====
-- core/analyzer/cost/pricing_table.py: which names get which prices.
use ctxins.Base.{
  ◌≡◌, refl, subst, sym, Bool, true, false, not, ◌||◌, List, [], ◌∷◌, String, first, arith, is_nil,
  if-keeps, Bool-cases, Option-cases, inl, inr, contains, string_eq, All, All-first, ◌=?◌, ◌++◌,
  take, drop,
}
use ctxins.Schema.Invocations.{starts_with, occurs_in}
use ctxins.Stream.Sse.{Text, codes, text_eq}
use ctxins.Analyzer.Pricing.{
  ModelPricing, gpt_4o, pricing_catalog, exact_match, substring_match, names_key, entry_or,
  normalized, fallback, get_pricing,
}
use ctxins.Analyzer.Pricing.Keeps.{provider_fallback-keeps}
use ctxins.Analyzer.Pricing.Search.{
  has_char, occurs_in-has_char, starts_with-has_char, occurs_in-append, dots_to_dashes-has_char,
  text_eq_iff, starts_with-occurs_in,
}

abbrev Entry : Type 0
Entry = String × ModelPricing

-- The models of the catalog with a dot in their key, but for the one that is also a fallback.
abbrev pub dotted_models : List String
dotted_models = "gemini-1.5-flash" ∷ "gemini-2.0-flash" ∷ "gemini-2.5-pro" ∷ []

abbrev pub is_dotted : ModelPricing → Bool
is_dotted p = contains p.model_name dotted_models

abbrev Undotted : ModelPricing → Type 0
Undotted p = is_dotted p ≡ false

abbrev DottedKey : Entry → Type 0
DottedKey e = (not (is_dotted e.1) || has_char b'.' (codes e.0)) ≡ true

pricing_catalog-DottedKey : All DottedKey pricing_catalog
unfolding pricing_catalog
pricing_catalog-DottedKey =
    (refl, (refl, (refl, (refl, (refl, (refl, (refl, (refl, (refl, (refl, (refl, tt)))))))))))

entry_or-undotted :
    (p : Entry → Bool) (later : ModelPricing)
    → ((e : Entry) → p e ≡ true → has_char b'.' (codes e.0) ≡ false)
    → is_dotted later ≡ false
    → is_dotted (entry_or (first p pricing_catalog) later) ≡ false
entry_or-undotted p later h hl = elim (Option-cases (first p pricing_catalog)) [
  | inl missing ↦ rw missing hl
  | inr (e, found) ↦
      let (key, hit) = All-first DottedKey p pricing_catalog pricing_catalog-DottedKey found in
      let plain = h e hit in rw found (ground arith)
]

names_key-undotted :
    (name : Text) (e : Entry)
    → has_char b'.' name ≡ false
    → names_key name e ≡ true
    → has_char b'.' (codes e.0) ≡ false
unfolding names_key
names_key-undotted name e plain h =
    ground
      (arith, occurs_in-has_char b'.' (codes e.0) name, starts_with-has_char b'.' (codes e.0) name)

module _ (strip lower : Text → Text) where
  -- No name of a model and of a provider is ever priced as one of the three catalogued models with a dot
  -- in their key that are no fallback: the name that is looked up has its dots replaced.
  pub get_pricing-undotted :
      (model_name provider : Text) → is_dotted (get_pricing strip lower model_name provider) ≡ false
  unfolding get_pricing exact_match substring_match normalized fallback
  get_pricing-undotted model_name provider =
      let name = normalized strip lower model_name in
      let plain : has_char b'.' name ≡ false = dots_to_dashes-has_char (lower (strip model_name)) in
      if-keeps Undotted (is_nil model_name) (λ _. refl)
        (λ _.
          entry_or-undotted (λ e. text_eq (codes e.0) name) _
            (λ e h.
              subst (λ t. has_char b'.' t ≡ false) (sym (text_eq_iff (codes e.0) name h)) plain)
            (entry_or-undotted (names_key name) _ (λ e. names_key-undotted name e plain)
              (if-keeps Undotted (is_nil provider) (λ _. refl)
                (λ _.
                  provider_fallback-keeps Undotted (lower (strip provider)) refl refl refl refl))))

-- What an entry says of a name that is priced as gpt-4o-mini.
abbrev mini : String
mini = "gpt-4o-mini"

abbrev pub is_mini : ModelPricing → Bool
is_mini p = p.model_name =? mini

abbrev MiniKey : Entry → Type 0
MiniKey e = (not (is_mini e.1) || (e.0 =? mini)) ≡ true

pricing_catalog-MiniKey : All MiniKey pricing_catalog
unfolding pricing_catalog
pricing_catalog-MiniKey =
    (refl, (refl, (refl, (refl, (refl, (refl, (refl, (refl, (refl, (refl, (refl, tt)))))))))))

-- A key of gpt-4o-mini in a name is one of gpt-4o, too.
names_key-mini :
    (name : Text) (e : Entry)
    → e.0 ≡ mini
    → names_key name e ≡ true
    → occurs_in (codes "gpt-4o") name ≡ true
unfolding names_key
names_key-mini name e same h =
    let long : (occurs_in (codes mini) name || starts_with (codes mini) name) ≡ true =
      subst (λ k. (occurs_in (codes k) name || starts_with (codes k) name) ≡ true) same h in
    ground (
      arith,
      occurs_in-append (codes "gpt-4o") (codes "-mini") name,
      starts_with-occurs_in (codes mini) name,
    )

-- The search does not go past an entry that fits.
first-fits :
    (p : Entry → Bool) (xs ys : List Entry) (e : Entry)
    → p e ≡ true
    → first p (xs ++ e ∷ ys) ≡ first p (xs ++ e ∷ [])
first-fits p [] ys e h = rw h
first-fits p (x ∷ xs) ys e h = rw (first-fits p xs ys e h)

abbrev NotMini : Entry → Type 0
NotMini e = is_mini e.1 ≡ false

entry_or-mini :
    (p : Entry → Bool) (entries : List Entry) (later : ModelPricing)
    → All NotMini entries
    → is_mini later ≡ false
    → is_mini (entry_or (first p entries) later) ≡ false
entry_or-mini p entries later all h = elim (Option-cases (first p entries)) [
  | inl missing ↦ rw missing h
  | inr (e, found) ↦ rw found (All-first NotMini p entries all found).0
]

entry_or-key :
    (p : Entry → Bool) (later : ModelPricing)
    → ((e : Entry) → e.0 ≡ mini → p e ≡ false)
    → is_mini later ≡ false
    → is_mini (entry_or (first p pricing_catalog) later) ≡ false
entry_or-key p later h hl = elim (Option-cases (first p pricing_catalog)) [
  | inl missing ↦ rw missing hl
  | inr (e, found) ↦
      let (key, hit) = All-first MiniKey p pricing_catalog pricing_catalog-MiniKey found in
      rw found (ground (arith, h e, string_eq.beq_iff e.0 mini))
]

-- So the search by substrings meets the entry of gpt-4o first.
substring_match-mini :
    (name : Text) (later : ModelPricing)
    → is_mini later ≡ false
    → is_mini (entry_or (substring_match name) later) ≡ false
unfolding substring_match
substring_match-mini name later h = elim (Bool-cases (occurs_in (codes "gpt-4o") name)) [
  | inl short ↦
      let fits : names_key name ("gpt-4o", gpt_4o) ≡ true = unfold names_key in ground arith in
      let stop : first (names_key name) pricing_catalog
          ≡ first (names_key name) (take 3 pricing_catalog ++ ("gpt-4o", gpt_4o) ∷ []) =
        unfold pricing_catalog in
        first-fits (names_key name) (take 3 pricing_catalog) (drop 4 pricing_catalog) _ fits in
      rw stop (
        entry_or-mini (names_key name) (take 3 pricing_catalog ++ ("gpt-4o", gpt_4o) ∷ []) later
          (unfold pricing_catalog in (refl, (refl, (refl, (refl, tt))))) h)
  | inr none_of ↦
      entry_or-key (names_key name) later (λ e same. ground (arith, names_key-mini name e same)) h
]

module _ (strip lower : Text → Text) where
  fallback-mini : (provider : Text) → is_mini (fallback strip lower provider) ≡ false
  unfolding fallback
  fallback-mini provider =
      if-keeps (λ p. is_mini p ≡ false) (is_nil provider) (λ _. refl)
        (λ _.
          provider_fallback-keeps (λ p. is_mini p ≡ false) (lower (strip provider)) refl refl refl
            refl)

  -- A name that is not gpt-4o-mini itself, a dated one of that model for instance, is never priced as
  -- gpt-4o-mini.
  pub get_pricing-mini :
      (model_name provider : Text)
      → text_eq (codes "gpt-4o-mini") (normalized strip lower model_name) ≡ false
      → is_mini (get_pricing strip lower model_name provider) ≡ false
  unfolding get_pricing exact_match
  get_pricing-mini model_name provider differs =
      let name = normalized strip lower model_name in
      if-keeps (λ p. is_mini p ≡ false) (is_nil model_name) (λ _. refl)
        (λ _.
          entry_or-key (λ e. text_eq (codes e.0) name) _
            (λ e same. subst (λ k. text_eq (codes k) name ≡ false) (sym same) differs)
            (substring_match-mini name _ (fallback-mini provider)))
