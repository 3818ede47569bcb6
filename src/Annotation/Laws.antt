-- ===== src/Annotation/Laws.antt =====
-- Annotations are there exactly when some child has one, and the ways to combine them are
-- associative.
use kelvin.Prelude.{
  ℕ, ap, ◌∙◌, append-nil, arith, ◌≡◌, refl, Bool, Option, none, some, List, [], ◌∷◌, ◌++◌,
}
use kelvin.Annotation.{
  Annotation, annotations, op_all, combine, void_annotation, cardinality, cardinality_op, max_key,
}

-- What the code relies on of an annotation: the children of a node that is not empty have one.
pub record IsAnnotation {L A : Type 0} (ann : Annotation L A) : Type 0 where
  pub combine_some :
      (es : List (Option A)) (fs : List (Option A)) (a : A)
      → (b : A) × (ann.combine (es ++ some a ∷ fs) ≡ some b)

module _ {A : Type 0} (op : A → A → A) where
  annotations-ne :
      (es fs : List (Option A)) (a : A)
      → (b : A) × (bs : List A) × (annotations (es ++ some a ∷ fs) ≡ b ∷ bs)
  unfolding annotations
  annotations-ne [] fs a = (a, annotations fs, refl)
  annotations-ne (none ∷ es) fs a = annotations-ne es fs a
  annotations-ne (some b ∷ es) fs a = (b, annotations (es ++ some a ∷ fs), refl)

  combine-ne :
      (es fs : List (Option A)) (a : A) → (b : A) × (combine op (es ++ some a ∷ fs) ≡ some b)
  unfolding combine
  combine-ne es fs a = let (b, bs, e) = annotations-ne es fs a in (op_all op b bs, rw (e, combine))

-- What two parts of a node come to together; a part without a leaf has no annotation.
abbrev pub merge : {A : Type 0} → (A → A → A) → Option A → Option A → Option A
merge op none b = b
merge op (some a) none = some a
merge op (some a) (some b) = some (op a b)

module _ {A : Type 0} (op : A → A → A) where
  annotations-append :
      (es fs : List (Option A)) → annotations (es ++ fs) ≡ annotations es ++ annotations fs
  unfolding annotations
  annotations-append [] fs = refl
  annotations-append (none ∷ es) fs = annotations-append es fs
  annotations-append (some a ∷ es) fs = ap (λ rest. a ∷ rest) (annotations-append es fs)

  op_all-append : (s : A) (xs ys : List A) → op_all op s (xs ++ ys) ≡ op_all op (op_all op s xs) ys
  unfolding op_all
  op_all-append s [] ys = refl
  op_all-append s (x ∷ xs) ys = op_all-append (op s x) xs ys

  module _ (assoc : (a b c : A) → op (op a b) c ≡ op a (op b c)) where
    op_all-op : (s a : A) (xs : List A) → op_all op (op s a) xs ≡ op s (op_all op a xs)
    unfolding op_all
    op_all-op s a [] = refl
    op_all-op s a (x ∷ xs) = rw (assoc s a x) (op_all-op s (op a x) xs)

    -- For an associative operation it does not matter how the children of a node are divided: the
    -- annotation of all is that of one part, with that of the other part.
    pub combine-append :
        (es fs : List (Option A)) → combine op (es ++ fs) ≡ merge op (combine op es) (combine op fs)
    unfolding combine op_all
    combine-append es fs =
        ap fold (annotations-append es fs) ∙ by_parts (annotations es) (annotations fs)
      where
        fold : List A → Option A
        fold all = elim all [ [] ↦ none | first ∷ rest ↦ some (op_all op first rest) ]

        by_parts : (xs ys : List A) → fold (xs ++ ys) ≡ merge op (fold xs) (fold ys)
        by_parts [] ys = refl
        by_parts (x ∷ xs) [] = ap (λ rest. some (op_all op x rest)) (append-nil xs)
        by_parts (x ∷ xs) (y ∷ ys) =
            ap some (op_all-append x xs (y ∷ ys) ∙ op_all-op (op_all op x xs) y ys)

-- The counters wrap around, and are associative all the same.
pub cardinality_op_assoc :
    (a b c : ℕ) → cardinality_op (cardinality_op a b) c ≡ cardinality_op a (cardinality_op b c)
unfolding cardinality_op
cardinality_op_assoc a b c = omega arith

module _ {L : Type 0} where
  pub void-IsAnnotation : IsAnnotation (void_annotation {L = L})
  unfolding void_annotation
  void-IsAnnotation = record { combine_some = combine-ne _ }

  pub cardinality-IsAnnotation : IsAnnotation (cardinality {L = L})
  unfolding cardinality
  cardinality-IsAnnotation = record { combine_some = combine-ne _ }

  pub max_key-IsAnnotation :
      {K : Type 0} (lt : K → K → Bool) (key : L → K) → IsAnnotation (max_key lt key)
  unfolding max_key
  max_key-IsAnnotation lt key = record { combine_some = combine-ne _ }
