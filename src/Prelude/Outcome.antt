-- ===== src/Prelude/Outcome.antt =====
-- Results of fallible code: `io::Result` with the panics written out.
use mathlib.Core.Path.{◌≡◌, refl}

-- The kinds of `io::Error` that the code builds or passes on.
pub data Error : Type 0 where
  invalid_data not_found unexpected_eof other : Error

-- `failed` is an `Err`, `panicked` a panic, `exhausted` has no counterpart in the program.
pub data Outcome {ℓ} (A : Type ℓ) : Type ℓ where
  ok : A → Outcome A
  failed : Error → Outcome A
  panicked exhausted : Outcome A

-- `?` on the left operand, which computes at any constructor.
infixl 5 ◌>>=◌
abbrev pub ◌>>=◌ {ℓ κ} : {A : Type ℓ} {B : Type κ} → Outcome A → (A → Outcome B) → Outcome B
exhausted >>= next = exhausted
panicked >>= next = panicked
failed kind >>= next = failed kind
ok result >>= next = next result

-- What a chain returns comes from what its first step returns.
pub >>=-eq-ok {ℓ κ} :
    {A : Type ℓ} {B : Type κ} {result : B} (first : Outcome A) (next : A → Outcome B)
    → (first >>= next) ≡ ok result
    → (middle : A) × (first ≡ ok middle) × (next middle ≡ ok result)
>>=-eq-ok exhausted next e = cc
>>=-eq-ok panicked next e = cc
>>=-eq-ok (failed kind) next e = cc
>>=-eq-ok (ok middle) next e = (middle, refl, e)
