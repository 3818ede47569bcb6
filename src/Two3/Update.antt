-- ===== src/Two3/Update.antt =====
-- Lookups, insertions and removals in a sorted list meet one part of it, and are those of a map.
use kelvin.Prelude.{
  none, some, Bool, true, false, if◌then◌else◌, List, [], ◌∷◌, ◌++◌, ◌≡◌, refl, ◌⊎◌, inl, inr,
  Bool-cases, ap, sym, ◌∙◌, subst, append-nil,
}
use kelvin.Two3.Entries.{
  IsOrder, lookup, put, erase, AllBelow, AllAbove, IsSorted, Before, Reaches, IsSorted-append,
  not_eq, not_eq_sym, Reaches-AllAbove,
}

module _ {K V : Type 0} (eq lt : K → K → Bool) (order : IsOrder eq lt) where
  -- Entries below the key are passed over.
  pub put-below :
      (k : K) (v : V) (xs ys : List (K × V))
      → AllBelow lt xs k
      → put eq lt k v (xs ++ ys) ≡ xs ++ put eq lt k v ys
  put-below k v [] ys a = refl
  put-below k v ((j, w) ∷ xs) ys (p, a) =
      rw (not_eq_sym eq lt order j k p, order.asym j k p, put-below k v xs ys a) refl

  pub lookup-below :
      (k : K) (xs ys : List (K × V))
      → AllBelow lt xs k
      → lookup eq lt k (xs ++ ys) ≡ lookup eq lt k ys
  lookup-below k [] ys a = refl
  lookup-below k ((j, w) ∷ xs) ys (p, a) =
      rw (not_eq_sym eq lt order j k p, lookup-below k xs ys a) refl

  pub erase-below :
      (k : K) (xs ys : List (K × V))
      → AllBelow lt xs k
      → erase eq lt k (xs ++ ys) ≡ xs ++ erase eq lt k ys
  erase-below k [] ys a = refl
  erase-below k ((j, w) ∷ xs) ys (p, a) =
      rw (not_eq_sym eq lt order j k p, erase-below k xs ys a) refl

  -- Entries above the key are not met.
  pub lookup-above : (k : K) (zs : List (K × V)) → AllAbove lt k zs → lookup eq lt k zs ≡ none
  lookup-above k [] a = refl
  lookup-above k ((j, w) ∷ zs) (p, a) = rw (not_eq eq lt order k j p) (lookup-above k zs a)

  erase-above : (k : K) (zs : List (K × V)) → AllAbove lt k zs → erase eq lt k zs ≡ zs
  erase-above k [] a = refl
  erase-above k ((j, w) ∷ zs) (p, a) = rw (not_eq eq lt order k j p, erase-above k zs a) refl

  pub put-reached :
      (k : K) (v : V) (ys zs : List (K × V))
      → Reaches lt k ys
      → put eq lt k v (ys ++ zs) ≡ put eq lt k v ys ++ zs
  put-reached k v [] zs r = absurd r
  put-reached k v ((j, w) ∷ ys) zs r = elim (Bool-cases (eq k j)) [
    | inl same ↦ rw same refl
    | inr other ↦ elim (Bool-cases (lt k j)) [
      | inl above ↦ rw (other, above) refl
      | inr below ↦
          rw (other, below)
            (elim r [
              | inl p ↦ absurd (cc (other, (order.eq_iff k j).1 (order.total k j below p)))
              | inr more ↦ ap (λ l. (j, w) ∷ l) (put-reached k v ys zs more)
            ])
    ]
  ]

  lookup-append_none :
      (k : K) (ys zs : List (K × V))
      → lookup eq lt k zs ≡ none
      → lookup eq lt k (ys ++ zs) ≡ lookup eq lt k ys
  lookup-append_none k [] zs e = e
  lookup-append_none k ((j, w) ∷ ys) zs e = rw (lookup-append_none k ys zs e) refl

  erase-append_same :
      (k : K) (ys zs : List (K × V))
      → erase eq lt k zs ≡ zs
      → erase eq lt k (ys ++ zs) ≡ erase eq lt k ys ++ zs
  erase-append_same k [] zs e = e
  erase-append_same k ((j, w) ∷ ys) zs e = elim (Bool-cases (eq k j)) [
    | inl same ↦ rw same refl
    | inr other ↦ rw (other, erase-append_same k ys zs e) refl
  ]

  -- The part of a sorted list in which a key has its place: all before it is below the key, and it has
  -- an entry that is not, or is the last part.
  abbrev pub IsPlace : K → List (K × V) → List (K × V) → List (K × V) → Type 0
  IsPlace k xs ys zs = AllBelow lt xs k × (Reaches lt k ys ⊎ (zs ≡ []))

  pub put-place :
      (k : K) (v : V) (xs ys zs : List (K × V))
      → IsPlace k xs ys zs
      → put eq lt k v (xs ++ (ys ++ zs)) ≡ xs ++ (put eq lt k v ys ++ zs)
  put-place k v xs ys zs (a, inl r) =
      put-below k v xs (ys ++ zs) a ∙ ap (λ l. xs ++ l) (put-reached k v ys zs r)
  put-place k v xs ys zs (a, inr e) =
      put-below k v xs (ys ++ zs) a
      ∙ ap (λ l. xs ++ l) (rw (e, append-nil ys, append-nil (put eq lt k v ys)) refl)

  above_place :
      (k : K) (ys zs : List (K × V))
      → Before lt ys zs
      → Reaches lt k ys ⊎ (zs ≡ [])
      → AllAbove lt k zs
  above_place k ys zs b (inl r) = Reaches-AllAbove eq lt order k ys zs b r
  above_place k ys zs b (inr e) = rw e tt

  pub lookup-place :
      (k : K) (xs ys zs : List (K × V))
      → IsSorted lt (xs ++ (ys ++ zs))
      → IsPlace k xs ys zs
      → lookup eq lt k (xs ++ (ys ++ zs)) ≡ lookup eq lt k ys
  lookup-place k xs ys zs s (a, r) =
      let (_, s', _) = IsSorted-append lt xs (ys ++ zs) s in
      let (_, _, b) = IsSorted-append lt ys zs s' in
      lookup-below k xs (ys ++ zs) a
      ∙ lookup-append_none k ys zs (lookup-above k zs (above_place k ys zs b r))

  pub erase-place :
      (k : K) (xs ys zs : List (K × V))
      → IsSorted lt (xs ++ (ys ++ zs))
      → IsPlace k xs ys zs
      → erase eq lt k (xs ++ (ys ++ zs)) ≡ xs ++ (erase eq lt k ys ++ zs)
  erase-place k xs ys zs s (a, r) =
      let (_, s', _) = IsSorted-append lt xs (ys ++ zs) s in
      let (_, _, b) = IsSorted-append lt ys zs s' in
      erase-below k xs (ys ++ zs) a
      ∙ ap (λ l. xs ++ l) (erase-append_same k ys zs (erase-above k zs (above_place k ys zs b r)))

  AllAbove-put :
      (i k : K) (v : V) (kvs : List (K × V))
      → lt i k ≡ true
      → AllAbove lt i kvs
      → AllAbove lt i (put eq lt k v kvs)
  AllAbove-put i k v [] p a = (p, tt)
  AllAbove-put i k v ((j, w) ∷ kvs) p (q, a) = elim (Bool-cases (eq k j)) [
    | inl same ↦ rw same (p, a)
    | inr other ↦ elim (Bool-cases (lt k j)) [
      | inl above ↦ rw (other, above) (p, (q, a))
      | inr below ↦ rw (other, below) (q, AllAbove-put i k v kvs p a)
    ]
  ]

  AllAbove-trans :
      (k j : K) (kvs : List (K × V)) → lt k j ≡ true → AllAbove lt j kvs → AllAbove lt k kvs
  AllAbove-trans k j [] p a = tt
  AllAbove-trans k j ((i, w) ∷ kvs) p (q, a) = (order.trans k j i p q, AllAbove-trans k j kvs p a)

  pub put-IsSorted :
      (k : K) (v : V) (kvs : List (K × V)) → IsSorted lt kvs → IsSorted lt (put eq lt k v kvs)
  put-IsSorted k v [] s = (tt, tt)
  put-IsSorted k v ((j, w) ∷ kvs) (a, s) = elim (Bool-cases (eq k j)) [
    | inl same ↦ rw same (subst (λ x. AllAbove lt x kvs) (sym ((order.eq_iff k j).0 same)) a, s)
    | inr other ↦ elim (Bool-cases (lt k j)) [
      | inl above ↦ rw (other, above) ((above, AllAbove-trans k j kvs above a), (a, s))
      | inr below ↦
          rw (other, below)
            (AllAbove-put j k v kvs (below_lem k j other below) a, put-IsSorted k v kvs s)
    ]
  ]
    where
      below_lem : (k j : K) → eq k j ≡ false → lt k j ≡ false → lt j k ≡ true
      below_lem k j other q = elim (Bool-cases (lt j k)) [
        | inl p ↦ p
        | inr p ↦ absurd (cc (other, (order.eq_iff k j).1 (order.total k j q p)))
      ]

  AllAbove-erase :
      (i k : K) (kvs : List (K × V)) → AllAbove lt i kvs → AllAbove lt i (erase eq lt k kvs)
  AllAbove-erase i k [] a = tt
  AllAbove-erase i k ((j, w) ∷ kvs) (q, a) = elim (Bool-cases (eq k j)) [
    | inl same ↦ rw same a
    | inr other ↦ rw other (q, AllAbove-erase i k kvs a)
  ]

  pub erase-IsSorted :
      (k : K) (kvs : List (K × V)) → IsSorted lt kvs → IsSorted lt (erase eq lt k kvs)
  erase-IsSorted k [] s = tt
  erase-IsSorted k ((j, w) ∷ kvs) (a, s) = elim (Bool-cases (eq k j)) [
    | inl same ↦ rw same s
    | inr other ↦ rw other (AllAbove-erase j k kvs a, erase-IsSorted k kvs s)
  ]

  -- The list as a map.
  pub lookup-put :
      (k : K) (v : V) (kvs : List (K × V)) (j : K)
      → lookup eq lt j (put eq lt k v kvs) ≡ (if eq j k then some v else lookup eq lt j kvs)
  lookup-put k v [] j = refl
  lookup-put k v ((i, w) ∷ kvs) j = elim (Bool-cases (eq k i)) [
    | inl same ↦ rw same (elim (Bool-cases (eq j k)) [
      | inl here ↦ rw here refl
      | inr there ↦ rw (there, subst (λ x. eq j x ≡ false) ((order.eq_iff k i).0 same) there) refl
    ])
    | inr other ↦ elim (Bool-cases (lt k i)) [
      | inl above ↦ rw (other, above) refl
      | inr below ↦
          rw (other, below)
            (elim (Bool-cases (eq j i)) [
              | inl first ↦ rw first (elim (Bool-cases (eq j k)) [
                | inl here ↦
                    let ji : j ≡ i = (order.eq_iff j i).0 first in
                    let jk : j ≡ k = (order.eq_iff j k).0 here in
                    absurd (cc (other, (order.eq_iff k i).1 (sym jk ∙ ji)))
                | inr there ↦ rw there refl
              ])
              | inr later ↦ rw later (lookup-put k v kvs j)
            ])
    ]
  ]

  pub lookup-erase :
      (k : K) (kvs : List (K × V)) (j : K)
      → IsSorted lt kvs
      → lookup eq lt j (erase eq lt k kvs) ≡ (if eq j k then none else lookup eq lt j kvs)
  lookup-erase k [] j s = elim (Bool-cases (eq j k)) [ inl e ↦ rw e refl | inr e ↦ rw e refl ]
  lookup-erase k ((i, w) ∷ kvs) j (a, s) = elim (Bool-cases (eq k i)) [
    | inl same ↦ rw same (elim (Bool-cases (eq j k)) [
      | inl here ↦
          let ji : j ≡ i = (order.eq_iff j k).0 here ∙ (order.eq_iff k i).0 same in
          rw here (lookup-above j kvs (subst (λ x. AllAbove lt x kvs) (sym ji) a))
      | inr there ↦ rw (there, subst (λ x. eq j x ≡ false) ((order.eq_iff k i).0 same) there) refl
    ])
    | inr other ↦ rw other (elim (Bool-cases (eq j i)) [
      | inl first ↦ rw first (elim (Bool-cases (eq j k)) [
        | inl here ↦
            let ji : j ≡ i = (order.eq_iff j i).0 first in
            let jk : j ≡ k = (order.eq_iff j k).0 here in
            absurd (cc (other, (order.eq_iff k i).1 (sym jk ∙ ji)))
        | inr there ↦ rw there refl
      ])
      | inr later ↦ rw later (lookup-erase k kvs j s)
    ])
  ]
