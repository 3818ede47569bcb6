-- ===== src/Annotation/Greatest.antt =====
-- src/annotations/max_key.rs: what the combination of `MaxKey` annotations is, in any order of the children.
use kelvin.Prelude.{
  Bool, true, false, Option, none, some, List, [], ◌∷◌, ◌≡◌, refl, ◌⊎◌, inl, inr, Bool-cases,
}
use kelvin.Annotation.{annotations, op_all, combine, max_key, max_key_op}
use kelvin.Two3.Entries.{IsOrder}

-- One of the children has the key `k`.
abbrev pub Has : {K : Type 0} → List (Option K) → K → Type 0
Has [] k = ⊥
Has (none ∷ es) k = Has es k
Has (some a ∷ es) k = (k ≡ a) ⊎ Has es k

module _ {K : Type 0} (lt : K → K → Bool) where
  -- A key of the children that no other is above, or none where no child has a key.
  abbrev pub IsGreatest : List (Option K) → Option K → Type 0
  IsGreatest es none = (k : K) → ¬ (Has es k)
  IsGreatest es (some m) = Has es m × ((k : K) → Has es k → lt m k ≡ false)

  module _ {eq : K → K → Bool} (order : IsOrder eq lt) where
    irreflexive : (a : K) → lt a a ≡ false
    irreflexive a = elim (Bool-cases (lt a a)) [
      | inl p ↦ absurd (cc (p, order.asym a a p))
      | inr p ↦ p
    ]

    -- What is not below a key is not below a smaller one.
    above-smaller : (m a s : K) → lt s a ≡ true → lt m a ≡ false → lt m s ≡ false
    above-smaller m a s p q = elim (Bool-cases (lt m s)) [
      | inl r ↦ absurd (cc (q, order.trans m s a r p))
      | inr r ↦ r
    ]

    above-kept : (m a s : K) → lt s a ≡ false → lt m s ≡ false → lt m a ≡ false
    above-kept m a s p q = elim (Bool-cases (lt m a)) [
      | inl r ↦ elim (Bool-cases (lt a s)) [
        | inl below ↦ absurd (cc (q, order.trans m a s r below))
        | inr level ↦ absurd (cc (q, r, order.total s a p level))
      ]
      | inr r ↦ r
    ]

    IsGreatest-smaller :
        (s a m : K) (es : List (Option K))
        → lt s a ≡ true
        → IsGreatest (some a ∷ es) (some m)
        → IsGreatest (some s ∷ some a ∷ es) (some m)
    IsGreatest-smaller s a m es p (member, above) = (inr member, below)
      where
        below : (k : K) → Has (some s ∷ some a ∷ es) k → lt m k ≡ false
        below k (inl e) = rw e (above-smaller m a s p (above a (inl refl)))
        below k (inr has) = above k has

    IsGreatest-kept :
        (s a m : K) (es : List (Option K))
        → lt s a ≡ false
        → IsGreatest (some s ∷ es) (some m)
        → IsGreatest (some s ∷ some a ∷ es) (some m)
    IsGreatest-kept s a m es p (member, above) =
        (elim member [ inl e ↦ inl e | inr has ↦ inr (inr has) ], below)
      where
        below : (k : K) → Has (some s ∷ some a ∷ es) k → lt m k ≡ false
        below k (inl e) = above k (inl e)
        below k (inr (inl e)) = rw e (above-kept m a s p (above s (inl refl)))
        below k (inr (inr has)) = above k (inr has)

    -- The loop from the key `s`, over the keys of the children.
    op_all-IsGreatest :
        (s : K) (es : List (Option K))
        → IsGreatest (some s ∷ es) (some (op_all (max_key_op lt) s (annotations es)))
    unfolding op_all annotations max_key_op
    op_all-IsGreatest s [] = (
      inl refl,
      λ k has. elim has [ inl e ↦ rw e (irreflexive s) | inr none_left ↦ absurd none_left ],
    )
    op_all-IsGreatest s (none ∷ es) = op_all-IsGreatest s es
    op_all-IsGreatest s (some a ∷ es) = elim (Bool-cases (lt s a)) [
      | inl p ↦ rw (op_all, max_key_op, p) (IsGreatest-smaller s a _ es p (op_all-IsGreatest a es))
      | inr p ↦ rw (op_all, max_key_op, p) (IsGreatest-kept s a _ es p (op_all-IsGreatest s es))
    ]

  -- Over an order of the keys, the combination of `MaxKey` annotations in any order, those of empty
  -- children among them, is a key of one of the children that is below none of the others', and there
  -- is none exactly where no child has a key.
  pub max_key-IsGreatest :
      {L : Type 0} (key : L → K) (eq : K → K → Bool)
      → IsOrder eq lt
      → (es : List (Option K)) → IsGreatest es ((max_key lt key).combine es)
  unfolding max_key combine annotations
  max_key-IsGreatest key eq order [] = λ k has. has
  max_key-IsGreatest key eq order (none ∷ es) = max_key-IsGreatest key eq order es
  max_key-IsGreatest key eq order (some a ∷ es) = op_all-IsGreatest order a es
