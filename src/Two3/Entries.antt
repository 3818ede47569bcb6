-- ===== src/Two3/Entries.antt =====
-- Entries in the order of their keys: what the 2-3 tree stands for.
use kelvin.Prelude.{
  Option, none, some, Bool, true, false, if◌then◌else◌, List, [], ◌∷◌, ◌++◌, ◌≡◌, refl, ◌↔◌, ◌⊎◌,
  inl, inr, Bool-cases, sym, ◌∙◌, subst,
}

-- What the tree relies on of `Ord` on its keys.
pub record IsOrder {K : Type 0} (eq lt : K → K → Bool) : Type 0 where
  pub eq_iff : (a b : K) → (eq a b ≡ true) ↔ (a ≡ b)
  pub asym : (a b : K) → lt a b ≡ true → lt b a ≡ false
  pub trans : (a b c : K) → lt a b ≡ true → lt b c ≡ true → lt a c ≡ true
  pub total : (a b : K) → lt a b ≡ false → lt b a ≡ false → a ≡ b

module _ {K V : Type 0} (eq lt : K → K → Bool) where
  abbrev pub lookup : K → List (K × V) → Option V
  lookup k [] = none
  lookup k ((j, w) ∷ kvs) = if eq k j then some w else lookup k kvs

  abbrev pub put : K → V → List (K × V) → List (K × V)
  put k v [] = (k, v) ∷ []
  put k v ((j, w) ∷ kvs) =
      if eq k j
      then (k, v) ∷ kvs
      else if lt k j
      then (k, v) ∷ (j, w) ∷ kvs
      else (j, w) ∷ put k v kvs

  abbrev pub erase : K → List (K × V) → List (K × V)
  erase k [] = []
  erase k ((j, w) ∷ kvs) = if eq k j then kvs else (j, w) ∷ erase k kvs

module _ {K V : Type 0} (lt : K → K → Bool) where
  abbrev pub AllBelow : List (K × V) → K → Type 0
  AllBelow [] k = Unit
  AllBelow ((j, w) ∷ kvs) k = (lt j k ≡ true) × AllBelow kvs k

  abbrev pub AllAbove : K → List (K × V) → Type 0
  AllAbove k [] = Unit
  AllAbove k ((j, w) ∷ kvs) = (lt k j ≡ true) × AllAbove k kvs

  abbrev pub IsSorted : List (K × V) → Type 0
  IsSorted [] = Unit
  IsSorted ((j, w) ∷ kvs) = AllAbove j kvs × IsSorted kvs

  -- Every key of the first list is below every key of the second.
  abbrev pub Before : List (K × V) → List (K × V) → Type 0
  Before [] ys = Unit
  Before ((j, w) ∷ xs) ys = AllAbove j ys × Before xs ys

  -- Some key is not below `k`.
  abbrev pub Reaches : K → List (K × V) → Type 0
  Reaches k [] = ⊥
  Reaches k ((j, w) ∷ kvs) = (lt j k ≡ false) ⊎ Reaches k kvs

  AllAbove-append :
      (k : K) (xs ys : List (K × V)) → AllAbove k (xs ++ ys) → AllAbove k xs × AllAbove k ys
  AllAbove-append k [] ys a = (tt, a)
  AllAbove-append k ((j, w) ∷ xs) ys (p, a) = let (b, c) = AllAbove-append k xs ys a in ((p, b), c)

  append-AllAbove :
      (k : K) (xs ys : List (K × V)) → AllAbove k xs → AllAbove k ys → AllAbove k (xs ++ ys)
  append-AllAbove k [] ys a b = b
  append-AllAbove k ((j, w) ∷ xs) ys (p, a) b = (p, append-AllAbove k xs ys a b)

  pub append-AllBelow :
      (k : K) (xs ys : List (K × V)) → AllBelow xs k → AllBelow ys k → AllBelow (xs ++ ys) k
  append-AllBelow k [] ys a b = b
  append-AllBelow k ((j, w) ∷ xs) ys (p, a) b = (p, append-AllBelow k xs ys a b)

  pub IsSorted-append :
      (xs ys : List (K × V)) → IsSorted (xs ++ ys) → IsSorted xs × IsSorted ys × Before xs ys
  IsSorted-append [] ys s = (tt, s, tt)
  IsSorted-append ((j, w) ∷ xs) ys (a, s) =
      let (b, c) = AllAbove-append j xs ys a in
      let (p, q, r) = IsSorted-append xs ys s in ((b, p), q, (c, r))

-- The key of the last entry.
abbrev pub last_key : {K V : Type 0} → K → List (K × V) → K
last_key k [] = k
last_key k ((j, w) ∷ kvs) = last_key j kvs

abbrev pub IsLast : {K V : Type 0} → K → List (K × V) → Type 0
IsLast m [] = ⊥
IsLast m ((j, w) ∷ kvs) = last_key j kvs ≡ m

pub last_key-append :
    {K V : Type 0} (k j : K) (w : V) (xs ys : List (K × V))
    → last_key k (xs ++ (j, w) ∷ ys) ≡ last_key j ys
last_key-append k j w [] ys = refl
last_key-append k j w ((i, u) ∷ xs) ys = last_key-append i j w xs ys

pub IsLast-append :
    {K V : Type 0} (m : K) (xs ys : List (K × V)) → IsLast m ys → IsLast m (xs ++ ys)
IsLast-append m xs [] e = absurd e
IsLast-append m [] ((j, w) ∷ ys) e = e
IsLast-append m ((i, u) ∷ xs) ((j, w) ∷ ys) e = last_key-append i j w xs ys ∙ e

module _ {K : Type 0} (eq lt : K → K → Bool) (order : IsOrder eq lt) where
  pub eq_refl : (k : K) → eq k k ≡ true
  eq_refl k = (order.eq_iff k k).1 refl

  -- A key that is below or above another is not it.
  pub not_eq : (a b : K) → lt a b ≡ true → eq a b ≡ false
  not_eq a b p = elim (Bool-cases (eq a b)) [
    | inl same ↦
        let e : a ≡ b = (order.eq_iff a b).0 same in
        let q : lt a a ≡ true = subst (λ x. lt a x ≡ true) (sym e) p in
        absurd (cc (q, order.asym a a q))
    | inr other ↦ other
  ]

  pub not_eq_sym : (a b : K) → lt a b ≡ true → eq b a ≡ false
  not_eq_sym a b p = elim (Bool-cases (eq b a)) [
    | inl same ↦
        let e : b ≡ a = (order.eq_iff b a).0 same in
        let q : lt a a ≡ true = subst (λ x. lt a x ≡ true) e p in absurd (cc (q, order.asym a a q))
    | inr other ↦ other
  ]

  -- What is not above a key is below what is above that key.
  pub lt-of_le_lt : (a b c : K) → lt b a ≡ false → lt b c ≡ true → lt a c ≡ true
  lt-of_le_lt a b c p q = elim (Bool-cases (lt a b)) [
    | inl r ↦ order.trans a b c r q
    | inr r ↦ subst (λ x. lt x c ≡ true) (sym (order.total a b r p)) q
  ]

module _ {K V : Type 0} (eq lt : K → K → Bool) (order : IsOrder eq lt) where
  AllAbove-trans :
      (j k : K) (kvs : List (K × V)) → lt k j ≡ false → AllAbove lt k kvs → AllAbove lt j kvs
  AllAbove-trans j k [] p a = tt
  AllAbove-trans j k ((i, w) ∷ kvs) p (q, a) =
      (lt-of_le_lt eq lt order j k i p q, AllAbove-trans j k kvs p a)

  -- Past an entry that is not below `k` all are above it.
  pub Reaches-AllAbove :
      (k : K) (ys zs : List (K × V)) → Before lt ys zs → Reaches lt k ys → AllAbove lt k zs
  Reaches-AllAbove k [] zs b r = absurd r
  Reaches-AllAbove k ((j, w) ∷ ys) zs (a, b) (inl p) = AllAbove-trans k j zs p a
  Reaches-AllAbove k ((j, w) ∷ ys) zs (a, b) (inr r) = Reaches-AllAbove k ys zs b r

  -- The last of a sorted list below `k`, and all are.
  pub IsLast-AllBelow :
      (m k : K) (kvs : List (K × V))
      → IsSorted lt kvs
      → IsLast m kvs
      → lt m k ≡ true
      → AllBelow lt kvs k
  IsLast-AllBelow m k [] s e p = absurd e
  IsLast-AllBelow m k ((j, w) ∷ []) s e p = (rw e p, tt)
  IsLast-AllBelow m k ((j, w) ∷ (i, u) ∷ kvs) (a, s) e p =
      let rest = IsLast-AllBelow m k ((i, u) ∷ kvs) s e p in (order.trans j i k a.0 rest.0, rest)

  pub IsLast-Reaches :
      (m k : K) (kvs : List (K × V)) → IsLast m kvs → lt m k ≡ false → Reaches lt k kvs
  IsLast-Reaches m k [] e p = absurd e
  IsLast-Reaches m k ((j, w) ∷ []) e p = inl (rw e p)
  IsLast-Reaches m k ((j, w) ∷ (i, u) ∷ kvs) e p = inr (IsLast-Reaches m k ((i, u) ∷ kvs) e p)
