-- ===== src/Annotation.antt =====
-- src/annotations: the annotations that a node carries, and how those of its children are
-- combined into its own.
pub mod Laws
pub mod Product
pub mod Greatest
mod Tests
use kelvin.Prelude.{ℕ, ◌+◌, ◌%◌, ◌^◌, Bool, Option, none, some, List, [], ◌∷◌, ltb, if◌then◌else◌}

-- `Annotation<L, H>`: `From<&L>`, and `Combine` over the annotations of a slice of handles, of
-- which an empty handle has none.
pub record Annotation (L A : Type 0) : Type 0 where
  pub of_leaf : L → A
  pub combine : List (Option A) → Option A

-- `elements.iter().filter_map(ErasedAnnotation::annotation)`
unfoldable pub annotations {ℓ} : {A : Type ℓ} → List (Option A) → List A
annotations [] = []
annotations (none ∷ es) = annotations es
annotations (some a ∷ es) = a ∷ annotations es

-- `for next in iter { s.op(a) }`
unfoldable pub op_all {ℓ} : {A : Type ℓ} → (A → A → A) → A → List A → A
op_all op s [] = s
op_all op s (a ∷ rest) = op_all op (op s a) rest

-- `Combine::combine` for an `Associative` type.
unfoldable pub combine {ℓ} : {A : Type ℓ} → (A → A → A) → List (Option A) → Option A
unfolding annotations op_all
combine op es = elim (annotations es) [ [] ↦ none | first ∷ rest ↦ some (op_all op first rest) ]

-- `struct Void`.
pub data Void : Type 0 where
  void : Void

-- `Associative for Void`
unfoldable pub void_op : Void → Void → Void
void_op a b = a

-- `Cardinality<T>` over the counter `u64`, whose `+=` wraps.
unfoldable pub cardinality_op : ℕ → ℕ → ℕ
cardinality_op a b = (a + b) % 2 ^ 64

-- `MaxKey<K>`: `lt` is the `<` of the key type.
unfoldable pub max_key_op {ℓ} : {K : Type ℓ} → (K → K → Bool) → K → K → K
max_key_op lt a b = if lt a b then b else a

module _ {L : Type 0} where
  unfoldable pub void_annotation : Annotation L Void
  unfolding combine void_op
  void_annotation = record { of_leaf = λ l. void; combine = combine void_op }

  unfoldable pub cardinality : Annotation L ℕ
  unfolding combine cardinality_op
  cardinality = record { of_leaf = λ l. 1; combine = combine cardinality_op }

  unfoldable pub max_key : {K : Type 0} → (K → K → Bool) → (L → K) → Annotation L K
  unfolding combine max_key_op
  max_key lt key = record { of_leaf = key; combine = combine (max_key_op lt) }
