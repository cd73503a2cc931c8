-- ===== src/Base/Outcome.antt =====
-- What a call that may raise gives back: a value, or the exception's kind.
use mathlib.Core.Path.{◌≡◌, refl}
use mathlib.Core.Logic.{◌⊎◌, inl, inr}

-- The exception classes that the modelled code raises.
pub data Exception : Type 0 where
  value_error type_error key_error os_error stop_iteration frame_decode_error overflow_error
        json_decode_error recursion_error queue_full attribute_error :
      Exception

pub data Result {ℓ} (A : Type ℓ) : Type ℓ where
  ok : A → Result A
  raise : Exception → Result A

module _ {ℓ κ} {A : Type ℓ} {B : Type κ} where
  infixl 5 ◌>>=◌
  abbrev pub ◌>>=◌ : Result A → (A → Result B) → Result B
  raise x >>= k = raise x
  ok a >>= k = k a

  -- The value of the first call, where both calls of a sequence succeed.
  pub record Returns (first : Result A) (k : A → Result B) (b : B) : Type (ℓ ⊔ κ) where
    pub value : A
    pub first_ok : first ≡ ok value
    pub then_ok : k value ≡ ok b

  pub >>=-Returns :
      {b : B} (first : Result A) (k : A → Result B) → (first >>= k) ≡ ok b → Returns first k b
  >>=-Returns (raise x) k both = cc
  >>=-Returns (ok a) k both = record { value = a; first_ok = refl; then_ok = both }

pub Result-cases {ℓ} :
    {A : Type ℓ} (r : Result A) → ((x : Exception) × (r ≡ raise x)) ⊎ ((v : A) × (r ≡ ok v))
Result-cases (ok v) = inr (v, refl)
Result-cases (raise x) = inl (x, refl)
