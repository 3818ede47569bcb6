-- ===== src/Two3/Selects.antt =====
-- What `select` finds in a node: the handle below which a key has its place.
use kelvin.Prelude.{
  ℕ, zero, suc, ◌+◌, Option, none, some, true, false, List, [], ◌∷◌, ◌++◌, ◌≡◌, refl, sym, ap, ◌∙◌,
  append_assoc, ◌⊎◌, inl, inr, Bool-cases, subst, arith,
}
use kelvin.Prelude.Outcome.{ok}
use kelvin.Handle.{
  HandleType, leaf_type, node_type, none_type, nil, cons, empty, leaf, node, persisted, get_handle,
  count_handles, handle_annotation, handle_type, inner, node_ref,
}
use kelvin.Search.{SearchResult, leaf_at, path_at, no_result}
use kelvin.Two3.{Two3, Slot, Slots, Two3Tree, same_key, select_at, select_from, select_last, select}
use kelvin.Two3.Entries.{
  AllBelow, IsSorted, IsSorted-append, IsLast, IsLast-AllBelow, IsLast-Reaches, append-AllBelow,
}
use kelvin.Two3.Update.{IsPlace}
use kelvin.Two3.Invariant.{IsUsable, Reads, Around, IsHandle}

pub IsLast-unique : {K V : Type 0} (m n : K) (xs : List (K × V)) → IsLast m xs → IsLast n xs → m ≡ n
IsLast-unique m n [] e f = absurd e
IsLast-unique m n ((j, w) ∷ xs) e f = sym e ∙ f

module _ {K V A : Type 0} (t : Two3 K V A) where
  -- The type of a handle at a height.
  abbrev pub type_at : ℕ → HandleType
  type_at zero = leaf_type
  type_at (suc ht) = node_type

  -- A handle has an annotation, with the key of its last entry.
  abbrev pub IsAnnotated : ℕ → Slot K V A → List (K × V) → Type 0
  IsAnnotated ht h kvs =
      (a : A) × (handle_annotation t.annotation h ≡ some a)
      × IsLast (t.max_key a) kvs
      × (handle_type h ≡ type_at ht)

  node_type-ok :
      (h : Slot K V A) (c : Two3Tree K V A)
      → inner t.load h ≡ ok (node_ref c)
      → handle_type h ≡ node_type
  unfolding inner handle_type
  node_type-ok empty c e = absurd (cc)
  node_type-ok (leaf l) c e = absurd (cc)
  node_type-ok (node n a d) c e = refl
  node_type-ok (persisted d a) c e = refl

  pub IsHandle-IsAnnotated :
      (u : IsUsable t) (ht : ℕ) (h : Slot K V A) (kvs : List (K × V))
      → IsHandle t ht h kvs
      → IsAnnotated ht h kvs
  unfolding handle_annotation handle_type
  IsHandle-IsAnnotated u zero h kvs (k, v, e, g) =
      (t.annotation.of_leaf (k, v), rw e refl, rw g (sym (u.leaf_key k v)), rw e refl)
  IsHandle-IsAnnotated u (suc ht) h kvs (c, a, shown, annotated, last, _, _, _) =
      (a, annotated, last, node_type-ok h c shown)

  -- The handle at `q` has the place of `k`. Its last key is not below `k`, or it is the last handle, a
  -- node; above the bottom it may be that its last key is `k`.
  abbrev pub IsSelected : ℕ → K → Slots K V A → List (K × V) → ℕ → Type 0
  IsSelected ht k hs kvs q =
      (h : Slot K V A) × (xs ys zs : List (K × V)) × (kvs ≡ xs ++ (ys ++ zs))
      × (get_handle hs q ≡ some h)
      × Around (IsHandle t ht) hs q xs zs
      × IsHandle t ht h ys
      × AllBelow t.lt xs k
      × (m : K) × IsLast m ys
      × ((t.lt m k ≡ false)
          ⊎ ((t.lt m k ≡ true)
              × (suc q ≡ count_handles hs)
              × (zs ≡ [])
              × (handle_type h ≡ node_type)))

  abbrev pub IsFound : ℕ → K → Slots K V A → List (K × V) → ℕ → Option SearchResult → Type 0
  IsFound ht k hs kvs i none = AllBelow t.lt kvs k
  IsFound ht k hs kvs i (some (leaf_at p)) =
      (q : ℕ) × (v : V) × (xs zs : List (K × V)) × (p ≡ i + q)
      × (ht ≡ 0)
      × (kvs ≡ xs ++ (k, v) ∷ zs)
      × (get_handle hs q ≡ some (leaf (k, v)))
      × Around (IsHandle t ht) hs q xs zs
      × AllBelow t.lt xs k
  IsFound ht k hs kvs i (some (path_at p)) =
      (q : ℕ) × (p ≡ i + q)
      × IsSelected ht k hs kvs q
      × (ht ≡ 0
          → (h : Slot K V A) × (j : K) × (v : V) × (get_handle hs q ≡ some (leaf (j, v)))
            × (t.lt k j ≡ true))
  IsFound ht k hs kvs i (some no_result) = AllBelow t.lt kvs k × ((ht ≡ 0) ⊎ (hs ≡ nil))

  -- One more handle in front, with entries below the key.
  later-IsSelected :
      (ht : ℕ) (k : K) (g : Slot K V A) (hs : Slots K V A) (x kvs : List (K × V)) (q : ℕ)
      → IsHandle t ht g x
      → AllBelow t.lt x k
      → IsSelected ht k hs kvs q
      → IsSelected ht k (cons g hs) (x ++ kvs) (suc q)
  later-IsSelected ht k g hs x kvs q p b (h, xs, ys, zs, e, here, w, ph, below, m, last, reach) = (
    h,
    x ++ xs,
    ys,
    zs,
    rw (e, append_assoc x xs (ys ++ zs)) refl,
    here,
    (x, xs, refl, p, w),
    ph,
    append-AllBelow t.lt k x xs b below,
    m,
    last,
    elim reach [
      | inl r ↦ inl r
      | inr (r, end, none_after, ty) ↦ inr (r, ap suc end, none_after, ty)
    ],
  )

  later :
      (ht : ℕ) (k : K) (g : Slot K V A) (hs : Slots K V A) (x kvs : List (K × V)) (i : ℕ)
      (o : Option SearchResult)
      → IsHandle t ht g x
      → AllBelow t.lt x k
      → ¬ (o ≡ some no_result)
      → IsFound ht k hs kvs (suc i) o
      → IsFound ht k (cons g hs) (x ++ kvs) i o
  later ht k g hs x kvs i none p b n f = append-AllBelow t.lt k x kvs b f
  later ht k g hs x kvs i (some (leaf_at r)) p b n (q, v, xs, zs, at, bottom, e, here, w, below) = (
    suc q,
    v,
    x ++ xs,
    zs,
    omega (arith, at),
    bottom,
    rw (e, append_assoc x xs ((k, v) ∷ zs)) refl,
    here,
    (x, xs, refl, p, w),
    append-AllBelow t.lt k x xs b below,
  )
  later ht k g hs x kvs i (some (path_at r)) p b n (q, at, selected, bottom) =
      (suc q, omega (arith, at), later-IsSelected ht k g hs x kvs q p b selected, bottom)
  later ht k g hs x kvs i (some no_result) p b n f = absurd (n refl)

  select_at-ne :
      (k : K) (i : ℕ) (ty : HandleType) (a : Option A) (further : Option SearchResult)
      → ¬ (further ≡ some no_result)
      → ¬ (select_at t k i ty a further ≡ some no_result)
  unfolding select_at same_key
  select_at-ne k i ty none further n = n
  select_at-ne k i leaf_type (some a) further n = ground (arith, n)
  select_at-ne k i node_type (some a) further n = ground (arith, n)
  select_at-ne k i none_type (some a) further n = ground (arith, n)

  select_from-ne : (k : K) (hs : Slots K V A) (i : ℕ) → ¬ (select_from t k hs i ≡ some no_result)
  unfolding select_from
  select_from-ne k nil i e = cc
  select_from-ne k (cons h hs) i e =
      select_at-ne k i (handle_type h) (handle_annotation t.annotation h) _
        (select_from-ne k hs (suc i)) e

  module _ (u : IsUsable t) where
    -- The loop stops at a handle whose last key is not below `k`.
    stops :
        (ht : ℕ) (k m : K) (h : Slot K V A) (hs : Slots K V A) (x kvs : List (K × V))
        → IsHandle t ht h x
        → Reads (IsHandle t ht) hs kvs
        → IsLast m x
        → t.lt m k ≡ false
        → IsSelected ht k (cons h hs) (x ++ kvs) 0
    stops ht k m h hs x kvs p r last q =
        (h, [], x, kvs, refl, refl, (refl, r), p, tt, m, last, inl q)

    irreflexive : (a b : K) → a ≡ b → t.lt a b ≡ false
    irreflexive a b e = elim (Bool-cases (t.lt a b)) [
      | inl p ↦
          let q : t.lt a a ≡ true = subst (λ x. t.lt a x ≡ true) (sym e) p in
          absurd (cc (q, u.order.asym a a q))
      | inr p ↦ p
    ]

    same-IsFound :
        (ht : ℕ) (k m : K) (h : Slot K V A) (hs : Slots K V A) (x kvs : List (K × V)) (i : ℕ)
        → IsHandle t ht h x
        → Reads (IsHandle t ht) hs kvs
        → IsLast m x
        → k ≡ m
        → IsFound ht k (cons h hs) (x ++ kvs) i (some (same_key t (type_at ht) i))
    unfolding same_key
    same-IsFound zero k m h hs x kvs i (j, v, eh, ex) r last e =
        let jm : j ≡ m = subst (λ l. IsLast m l) ex last in
        let jk : j ≡ k = jm ∙ sym e in
        (0, v, [], kvs, omega arith, refl, rw (ex, jk) refl, rw (eh, jk) refl, (refl, r), tt)
    same-IsFound (suc ht) k m h hs x kvs i p r last e = (
      0,
      omega arith,
      stops (suc ht) k m h hs x kvs p r last (irreflexive m k (sym e)),
      λ b. absurd (cc),
    )

    above_bottom :
        (ht : ℕ) (k m : K) (h : Slot K V A) (hs : Slots K V A) (x : List (K × V))
        → IsHandle t ht h x
        → IsLast m x
        → t.lt k m ≡ true
        → ht ≡ 0
        → (g : Slot K V A) × (j : K) × (v : V) × (get_handle (cons h hs) 0 ≡ some (leaf (j, v)))
          × (t.lt k j ≡ true)
    above_bottom zero k m h hs x (j, v, eh, ex) last p b =
        let jm : j ≡ m = subst (λ l. IsLast m l) ex last in (h, j, v, rw eh refl, rw jm p)
    above_bottom (suc ht) k m h hs x p last q b = absurd (cc)

    select_from-IsFound :
        (ht : ℕ) (k : K) (hs : Slots K V A) (kvs : List (K × V)) (i : ℕ)
        → Reads (IsHandle t ht) hs kvs
        → IsSorted t.lt kvs
        → IsFound ht k hs kvs i (select_from t k hs i)
    unfolding select_from select_at
    select_from-IsFound ht k nil kvs i r s = rw r tt
    select_from-IsFound ht k (cons h hs) kvs i (x, ys, e, p, r) s =
        let (a, annotated, last, ty) = IsHandle-IsAnnotated u ht h x p in
        let (sx, sy, _) = IsSorted-append t.lt x ys (subst (λ l. IsSorted t.lt l) e s) in
        let m = t.max_key a in
        rw (annotated, ty, e)
          (elim (Bool-cases (t.eq k m)) [
            | inl same ↦
                rw same (same-IsFound ht k m h hs x ys i p r last ((u.order.eq_iff k m).0 same))
            | inr other ↦ elim (Bool-cases (t.lt k m)) [
              | inl above ↦
                  rw (other, above)
                    (
                      0,
                      omega arith,
                      stops ht k m h hs x ys p r last (u.order.asym k m above),
                      above_bottom ht k m h hs x p last above,
                    )
              | inr below ↦
                  let past : t.lt m k ≡ true = by_total k m other below in
                  rw (other, below)
                    (later ht k h hs x ys i (select_from t k hs (suc i)) p
                      (IsLast-AllBelow t.eq t.lt u.order m k x sx last past)
                      (select_from-ne k hs (suc i)) (select_from-IsFound ht k hs ys (suc i) r sy))
            ]
          ])
      where
        by_total : (k m : K) → t.eq k m ≡ false → t.lt k m ≡ false → t.lt m k ≡ true
        by_total k m other q = elim (Bool-cases (t.lt m k)) [
          | inl p ↦ p
          | inr p ↦ absurd (cc (other, (u.order.eq_iff k m).1 (u.order.total k m q p)))
        ]

    AllBelow-append :
        (k : K) (xs ys : List (K × V))
        → AllBelow t.lt (xs ++ ys) k
        → AllBelow t.lt xs k × AllBelow t.lt ys k
    AllBelow-append k [] ys a = (tt, a)
    AllBelow-append k ((j, w) ∷ xs) ys (p, a) =
        let (b, c) = AllBelow-append k xs ys a in ((p, b), c)

    pub AllBelow-IsLast :
        (m k : K) (xs : List (K × V)) → AllBelow t.lt xs k → IsLast m xs → t.lt m k ≡ true
    AllBelow-IsLast m k [] b e = absurd e
    AllBelow-IsLast m k ((j, w) ∷ []) (p, b) e = subst (λ x. t.lt x k ≡ true) e p
    AllBelow-IsLast m k ((j, w) ∷ (i, v) ∷ xs) (p, b) e = AllBelow-IsLast m k ((i, v) ∷ xs) b e

    -- Above the bottom a key past all entries has its place in the last handle.
    select_last-IsSelected :
        (ht : ℕ) (k : K) (h : Slot K V A) (hs : Slots K V A) (kvs : List (K × V)) (i : ℕ)
        → Reads (IsHandle t (suc ht)) (cons h hs) kvs
        → AllBelow t.lt kvs k
        → (q : ℕ) × (select_last t (cons h hs) i ≡ path_at (i + q))
          × IsSelected (suc ht) k (cons h hs) kvs q
    unfolding select_last
    select_last-IsSelected ht k h nil kvs i (x, ys, e, p, r) b =
        let (a, _, last, ty) = IsHandle-IsAnnotated u (suc ht) h x p in
        let ex : kvs ≡ x ++ [] = e ∙ ap (λ l. x ++ l) r in
        let z : i + 0 ≡ i = omega arith in
        let (bx, _) = AllBelow-append k x [] (subst (λ l. AllBelow t.lt l k) ex b) in
        (
          0,
          rw (select_last, ty, z) refl,
          (
            h,
            [],
            x,
            [],
            ex,
            refl,
            (refl, refl),
            p,
            tt,
            t.max_key a,
            last,
            inr (AllBelow-IsLast (t.max_key a) k x bx last, refl, refl, ty),
          ),
        )
    select_last-IsSelected ht k h (cons g hs) kvs i (x, ys, e, p, r) b =
        let (bx, by) = AllBelow-append k x ys (subst (λ l. AllBelow t.lt l k) e b) in
        let (q, s, w) = select_last-IsSelected ht k g hs ys (suc i) r by in
        let z : suc i + q ≡ i + suc q = omega arith in
        (suc q, rw (s, z) refl, rw e (later-IsSelected (suc ht) k h (cons g hs) x ys q p bx w))

    -- The bottom has leaves only.
    select_last-leaves :
        (h : Slot K V A) (hs : Slots K V A) (kvs : List (K × V)) (i : ℕ)
        → Reads (IsHandle t 0) (cons h hs) kvs
        → select_last t (cons h hs) i ≡ no_result
    unfolding select_last handle_type
    select_last-leaves h nil kvs i (x, ys, e, (j, v, eh, _), r) = rw eh refl
    select_last-leaves h (cons g hs) kvs i (x, ys, e, p, r) = select_last-leaves g hs ys (suc i) r

    last-IsFound :
        (ht : ℕ) (k : K) (hs : Slots K V A) (kvs : List (K × V))
        → Reads (IsHandle t ht) hs kvs
        → AllBelow t.lt kvs k
        → IsFound ht k hs kvs 0 (some (select_last t hs 0))
    unfolding select_last
    last-IsFound ht k nil kvs r b = (b, inr refl)
    last-IsFound zero k (cons h hs) kvs r b = rw (select_last-leaves h hs kvs 0 r) (b, inl refl)
    last-IsFound (suc ht) k (cons h hs) kvs r b =
        let (q, e, w) = select_last-IsSelected ht k h hs kvs 0 r b in
        rw e (q, refl, w, λ z. absurd (cc))

    -- What `select` returns is where the key has its place.
    pub select-IsFound :
        (ht : ℕ) (k : K) (hs : Slots K V A) (kvs : List (K × V))
        → Reads (IsHandle t ht) hs kvs
        → IsSorted t.lt kvs
        → IsFound ht k hs kvs 0 (some (select t k hs))
    unfolding select
    select-IsFound ht k hs kvs r s =
        by_first (select_from t k hs 0) (select_from-IsFound ht k hs kvs 0 r s)
      where
        by_first :
            (o : Option SearchResult)
            → IsFound ht k hs kvs 0 o
            → IsFound ht k hs kvs 0 (some (elim o [ some x ↦ x | none ↦ select_last t hs 0 ]))
        by_first (some x) f = f
        by_first none f = last-IsFound ht k hs kvs r f

    -- The handle that is selected has the key's place.
    pub IsPlace-selected :
        (k m : K) (xs ys zs : List (K × V))
        → AllBelow t.lt xs k
        → IsLast m ys
        → (t.lt m k ≡ false) ⊎ (zs ≡ [])
        → IsPlace t.eq t.lt u.order k xs ys zs
    IsPlace-selected k m xs ys zs below e (inl p) =
        (below, inl (IsLast-Reaches t.eq t.lt u.order m k ys e p))
    IsPlace-selected k m xs ys zs below e (inr p) = (below, inr p)
