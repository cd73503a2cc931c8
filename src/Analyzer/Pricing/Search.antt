-- ===== src/Analyzer/Pricing/Search.antt =====
-- core/analyzer/cost/pricing_table.py: substrings of a model's name.
use ctxins.Base.{ℕ, ◌≡◌, refl, Bool, true, false, ◌||◌, [], ◌∷◌, ◌++◌, arith, ◌==◌, ==_iff, nat_eq}
use ctxins.Schema.Invocations.{starts_with, occurs_in}
use ctxins.Stream.Sse.{Text, text_eq}
use ctxins.Analyzer.Pricing.{dots_to_dashes}

-- A text starts with whatever a text that it starts with starts with.
pub starts_with-append : (a b s : Text) → starts_with (a ++ b) s ≡ true → starts_with a s ≡ true
unfolding starts_with
starts_with-append [] b s h = refl
starts_with-append (c ∷ a) b [] h = cc
starts_with-append (c ∷ a) b (d ∷ s) h = ground (arith, starts_with-append a b s)

pub occurs_in-append : (a b s : Text) → occurs_in (a ++ b) s ≡ true → occurs_in a s ≡ true
unfolding occurs_in
occurs_in-append a b [] h = starts_with-append a b [] h
occurs_in-append a b (c ∷ s) h =
    ground (arith, starts_with-append a b (c ∷ s), occurs_in-append a b s)

-- A text without a character has no part with it.
abbrev pub has_char : ℕ → Text → Bool
has_char c [] = false
has_char c (d ∷ s) = d == c || has_char c s

pub starts_with-has_char :
    (c : ℕ) (a s : Text) → has_char c s ≡ false → starts_with a s ≡ true → has_char c a ≡ false
unfolding starts_with
starts_with-has_char c [] s h e = refl
starts_with-has_char c (d ∷ a) [] h e = cc
starts_with-has_char c (d ∷ a) (x ∷ s) h e =
    ground (arith, ==_iff d x, ==_iff d c, ==_iff x c, starts_with-has_char c a s)

pub occurs_in-has_char :
    (c : ℕ) (a s : Text) → has_char c s ≡ false → occurs_in a s ≡ true → has_char c a ≡ false
unfolding occurs_in
occurs_in-has_char c a [] h e = starts_with-has_char c a [] h e
occurs_in-has_char c a (x ∷ s) h e =
    ground (arith, starts_with-has_char c a (x ∷ s), occurs_in-has_char c a s)

pub dots_to_dashes-has_char : (s : Text) → has_char b'.' (dots_to_dashes s) ≡ false
unfolding dots_to_dashes
dots_to_dashes-has_char [] = refl
dots_to_dashes-has_char (c ∷ s) = ground (arith, dots_to_dashes-has_char s)

pub text_eq_iff : (a b : Text) → text_eq a b ≡ true → a ≡ b
text_eq_iff [] [] h = refl
text_eq_iff [] (d ∷ b) h = cc
text_eq_iff (c ∷ a) [] h = cc
text_eq_iff (c ∷ a) (d ∷ b) h = ground (arith, ==_iff c d, text_eq_iff a b)

pub text_eq_refl : (a : Text) → text_eq a a ≡ true
text_eq_refl [] = refl
text_eq_refl (c ∷ a) = ground (arith, ==_iff c c, text_eq_refl a)

pub starts_with-occurs_in : (a s : Text) → starts_with a s ≡ true → occurs_in a s ≡ true
unfolding occurs_in
starts_with-occurs_in a [] h = h
starts_with-occurs_in a (c ∷ s) h = ground arith
