-- ===== src/Annotation/Tests.antt =====
-- Annotations of children at hand.
use kelvin.Prelude.{none, some, [], ◌∷◌, ◌++◌, ◌≡◌, refl, ltb}
use kelvin.Annotation.{combine, cardinality_op, max_key_op}
use kelvin.Annotation.Laws.{merge, combine-append, cardinality_op_assoc}

greatest : combine (max_key_op ltb) (some 3 ∷ none ∷ some 8 ∷ some 5 ∷ []) ≡ some 8
unfolding combine max_key_op kelvin.Annotation.annotations kelvin.Annotation.op_all
greatest = refl

combine-append_example :
    combine cardinality_op ((some 2 ∷ none ∷ []) ++ (none ∷ some 5 ∷ some 1 ∷ []))
    ≡ merge cardinality_op
        (combine cardinality_op (some 2 ∷ none ∷ []))
        (combine cardinality_op (none ∷ some 5 ∷ some 1 ∷ []))
combine-append_example =
    combine-append cardinality_op cardinality_op_assoc (some 2 ∷ none ∷ [])
      (none ∷ some 5 ∷ some 1 ∷ [])
