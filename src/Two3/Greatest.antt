-- ===== src/Two3/Greatest.antt =====
-- The annotation of a node has the greatest key below it.
use mathlib.Core.List.{map}
use kelvin.Prelude.{
  ℕ, suc, ◌<◌, Option, none, some, Bool, true, List, [], ◌∷◌, ◌++◌, ◌≡◌, refl, sym, ap, ◌∙◌, subst,
  append-nil, arith,
}
use kelvin.Handle.{
  compound, nil, cons, count_handles, handle_annotation, handle_annotations, node_annotation, inner,
  new_node, node, drop_mut,
}
use kelvin.Prelude.Outcome.{ok}
use kelvin.Two3.{Two3, Slot, Slots}
use kelvin.Two3.Entries.{AllAbove, IsSorted, IsSorted-append, Before, IsLast, IsLast-append}
use kelvin.Two3.Invariant.{IsUsable, AllLess, Reads, IsHandle}
use kelvin.Two3.Selects.{IsHandle-IsAnnotated}

module _ {K V : Type 0} (lt : K → K → Bool) where
  AllAbove-IsLast : (k m : K) (ys : List (K × V)) → AllAbove lt k ys → IsLast m ys → lt k m ≡ true
  AllAbove-IsLast k m [] a e = absurd e
  AllAbove-IsLast k m ((j, w) ∷ []) (p, a) e = subst (λ x. lt k x ≡ true) e p
  AllAbove-IsLast k m ((j, w) ∷ (i, v) ∷ ys) (p, a) e = AllAbove-IsLast k m ((i, v) ∷ ys) a e

  Before-IsLast :
      (m n : K) (xs ys : List (K × V)) → Before lt xs ys → IsLast m xs → IsLast n ys → lt m n ≡ true
  Before-IsLast m n [] ys b e f = absurd e
  Before-IsLast m n ((j, w) ∷ []) ys (a, b) e f =
      subst (λ x. lt x n ≡ true) e (AllAbove-IsLast j n ys a f)
  Before-IsLast m n ((j, w) ∷ (i, v) ∷ xs) ys (a, b) e f = Before-IsLast m n ((i, v) ∷ xs) ys b e f

module _ {K V A : Type 0} (t : Two3 K V A) (u : IsUsable t) where
  -- The annotations of the handles, apart from the last below it.
  IsRow : List (Option A) → List (K × V) → Type 0
  IsRow os kvs =
      (rest : List A) × (b : A) × (os ≡ map (λ a. some a) rest ++ some b ∷ [])
      × AllLess t.lt t.max_key rest b
      × IsLast (t.max_key b) kvs

  annotations-IsRow :
      (ht : ℕ) (h : Slot K V A) (hs : Slots K V A) (kvs : List (K × V))
      → Reads (IsHandle t ht) (cons h hs) kvs
      → IsSorted t.lt kvs
      → IsRow (handle_annotations t.annotation (cons h hs)) kvs
  unfolding handle_annotations IsRow
  annotations-IsRow ht h nil kvs (x, ys, e, p, r) s =
      let (a, annotated, last, _) = IsHandle-IsAnnotated t u ht h x p in
      let ex : kvs ≡ x = e ∙ ap (λ l. x ++ l) r ∙ append-nil x in
      ([], a, rw annotated refl, tt, subst (λ l. IsLast (t.max_key a) l) (sym ex) last)
  annotations-IsRow ht h (cons g hs) kvs (x, ys, e, p, r) s =
      let (a, annotated, last, _) = IsHandle-IsAnnotated t u ht h x p in
      let (_, sy, before) = IsSorted-append t.lt x ys (subst (λ l. IsSorted t.lt l) e s) in
      let (rest, b, eb, less, last_b) = annotations-IsRow ht g hs ys r sy in
      (
        a ∷ rest,
        b,
        rw (annotated, eb) refl,
        (Before-IsLast t.lt (t.max_key a) (t.max_key b) x ys before last last_b, less),
        subst (λ l. IsLast (t.max_key b) l) (sym e) (IsLast-append (t.max_key b) x ys last_b),
      )

  abbrev pub IsGreatest : Slots K V A → List (K × V) → Type 0
  IsGreatest hs kvs =
      (b : A) × (node_annotation t.annotation (compound tt hs) ≡ some b) × IsLast (t.max_key b) kvs

  pub Reads-IsGreatest :
      (ht : ℕ) (hs : Slots K V A) (kvs : List (K × V))
      → Reads (IsHandle t ht) hs kvs
      → IsSorted t.lt kvs
      → 0 < count_handles hs
      → IsGreatest hs kvs
  unfolding node_annotation IsRow
  Reads-IsGreatest ht nil kvs r s p = absurd (omega (arith, p))
  Reads-IsGreatest ht (cons h hs) kvs r s p =
      let (rest, b, e, less, last) = annotations-IsRow ht h hs kvs r s in
      let (c, combined, same) = u.combine_greatest rest b less in
      (c, rw (node_annotation, e, combined) refl, subst (λ m. IsLast m kvs) (sym same) last)

  module _ (ht : ℕ) (hs : Slots K V A) (kvs : List (K × V)) where
    -- A node of two or three handles below a new handle.
    pub new_node-IsHandle :
        Reads (IsHandle t ht) hs kvs
        → IsSorted t.lt kvs
        → 1 < count_handles hs
        → count_handles hs < 4
        → (h : Slot K V A) × (new_node t.annotation (compound tt hs) ≡ ok h)
          × IsHandle t (suc ht) h kvs
    unfolding new_node inner handle_annotation
    new_node-IsHandle r s p q =
        let (b, e, last) = Reads-IsGreatest ht hs kvs r s (omega (arith, p)) in
        (
          node (compound tt hs) b none,
          rw (new_node, e) refl,
          (compound tt hs, b, refl, refl, last, r, p, q),
        )

    -- The handle that the drop of a reference to such a node leaves.
    pub drop_mut-IsHandle :
        (a : A)
        → Reads (IsHandle t ht) hs kvs
        → IsSorted t.lt kvs
        → 1 < count_handles hs
        → count_handles hs < 4
        → IsHandle t (suc ht) (drop_mut t.annotation (compound tt hs) a) kvs
    unfolding drop_mut inner handle_annotation
    drop_mut-IsHandle a r s p q =
        let (b, e, last) = Reads-IsGreatest ht hs kvs r s (omega (arith, p)) in
        rw (drop_mut, e) (compound tt hs, b, refl, refl, last, r, p, q)
