-- ===== src/Two3/MaxKey.antt =====
-- src/annotations/max_key.rs: the greatest key of handles in the order of their keys is that of the last.
use mathlib.Core.List.{map}
use kelvin.Prelude.{Bool, true, some, List, [], ◌∷◌, ◌++◌, ◌≡◌, refl, Bool-cases, inl, inr}
use kelvin.Annotation.{max_key, max_key_op, combine, op_all, annotations}
use kelvin.Two3.Invariant.{AllLess}

module _ {L K : Type 0} (lt : K → K → Bool) (key : L → K) where
  annotations_all :
      (rest : List K) (b : K) → annotations (map (λ a. some a) rest ++ some b ∷ []) ≡ rest ++ b ∷ []
  unfolding annotations
  annotations_all [] b = refl
  annotations_all (a ∷ rest) b = rw (annotations_all rest b) refl

  op_all-greatest :
      (s : K) (rest : List K) (b : K)
      → lt s b ≡ true
      → AllLess lt (λ a. a) rest b
      → op_all (max_key_op lt) s (rest ++ b ∷ []) ≡ b
  unfolding op_all max_key_op
  op_all-greatest s [] b p less = rw (op_all, max_key_op, p) refl
  op_all-greatest s (a ∷ rest) b p (q, less) = elim (Bool-cases (lt s a)) [
    | inl r ↦ rw (op_all, max_key_op, r) (op_all-greatest a rest b q less)
    | inr r ↦ rw (op_all, max_key_op, r) (op_all-greatest s rest b p less)
  ]

  -- If all other keys are below the last, the combination of `MaxKey` annotations is the last.
  pub max_key-greatest :
      (rest : List K) (b : K)
      → AllLess lt (λ a. a) rest b
      → (max_key lt key).combine (map (λ a. some a) rest ++ some b ∷ []) ≡ some b
  unfolding max_key combine annotations
  max_key-greatest [] b less = refl
  max_key-greatest (a ∷ rest) b (p, less) =
      rw (annotations_all rest b, op_all-greatest a rest b p less) refl
