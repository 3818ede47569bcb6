-- ===== src/Two3/Insertion.antt =====
-- `_insert` and `insert` against the insertion into a sorted list.
use kelvin.Prelude.{
  ℕ, suc, ◌<◌, ◌≤◌, some, true, false, List, ◌∷◌, ◌++◌, ◌≡◌, refl, sym, ap, ◌∙◌, subst, ◌⊎◌, inl,
  inr, Bool-cases, arith, not, ◌||◌, ◌==◌,
}
use kelvin.Handle.{compound, count_handles, get_handle, leaf, inner_mut}
use kelvin.Handle.Laws.{set_handle-same, inner_mut-node}
use kelvin.Search.{SearchResult, leaf_at, path_at, no_result}
use kelvin.Two3.{
  Two3, Slot, Slots, Two3Tree, Step, InsertResult, insert_selected, insert_path, insert_below,
}
use kelvin.Two3.Entries.{IsSorted, IsSorted-append, IsLast}
use kelvin.Two3.Invariant.{IsUsable, Reads, IsHandle}
use kelvin.Two3.Selects.{IsPlace-selected, IsLast-unique, IsFound}
use kelvin.Two3.Greatest.{Reads-IsGreatest}
use kelvin.Two3.Place.{Holds, IsInserted}
use kelvin.Two3.Inserts.{after_insert-IsInserted}
use kelvin.Two3.Leaves.{replace-IsInserted, before-IsInserted, end-IsInserted}

eq_self : (n : ℕ) → (n == n) ≡ true
eq_self n = ground arith

module _ {K V A : Type 0} (t : Two3 K V A) (u : IsUsable t) (k : K) (v : V) where
  abbrev pub Rec : Type 0
  Rec = ℕ → Slot K V A → Two3Tree K V A → Step t (InsertResult K V A)

  module _ (rec : Rec) (depth lo : ℕ) (hs : Slots K V A) (kvs : List (K × V)) (low : lo ≤ 2)
      (many : lo ≤ count_handles hs) (few : count_handles hs < 4) (s : IsSorted t.lt kvs) where
    abbrev pub Selected : SearchResult → Step t (InsertResult K V A)
    Selected r = insert_selected t rec depth (leaf (k, v)) k (compound tt hs) r

    selected_at :
        {p q : ℕ} (ht : ℕ)
        → p ≡ q
        → IsInserted t u depth lo ht k v kvs (Selected (path_at q)).0 (Selected (path_at q)).1
        → IsInserted t u depth lo ht k v kvs (Selected (path_at p)).0 (Selected (path_at p)).1
    selected_at ht z r =
        subst
          (λ x.
            IsInserted t u depth lo ht k v kvs (Selected (path_at x)).0 (Selected (path_at x)).1)
          (sym z) r

    pub at_bottom :
        (r : SearchResult)
        → Reads (IsHandle t 0) hs kvs
        → IsFound t 0 k hs kvs 0 (some r)
        → IsInserted t u depth lo 0 k v kvs (Selected r).0 (Selected r).1
    unfolding insert_selected insert_path inner_mut
    at_bottom (leaf_at p) r (q, w, xs, zs, at, _, e, here, around, below) =
        let z : p ≡ q = omega (arith, at) in
        rw (z, e)
          (replace-IsInserted t u k v depth lo hs low many few q w xs zs
            (subst (λ l. IsSorted t.lt l) e s) here around below)
    at_bottom (path_at p) r
          (q, at, (h, xs, ys, zs, e, here, around, (j, w, eh, ey), below, _, _, _), bottom) =
        let (g, i, x, here', above) = bottom refl in
        let leaf_here : get_handle hs q ≡ some (leaf (j, w)) = here ∙ ap (λ x. some x) eh in
        let above' : t.lt k j ≡ true = cc (here', leaf_here, above) in
        let whole : kvs ≡ xs ++ (j, w) ∷ zs = e ∙ ap (λ l. xs ++ (l ++ zs)) ey in
        let z : p ≡ q = omega (arith, at) in
        selected_at 0 z (
          rw
            (
              insert_selected,
              leaf_here,
              above',
              set_handle-same hs q (leaf (j, w)) leaf_here,
              whole,
            )
            (before-IsInserted t u k v depth lo hs low many few q j w xs zs
              (subst (λ l. IsSorted t.lt l) whole s) leaf_here around below above'))
    at_bottom no_result r (below, _) = end-IsInserted t u k v depth lo hs low many few kvs s r below

    abbrev pub IsRec : ℕ → Type 0
    IsRec ht =
        (c : Two3Tree K V A) (ys : List (K × V))
        → Holds t u 2 ht c ys
        → IsSorted t.lt ys
        → IsInserted t u (suc depth) 2 ht k v ys (rec (suc depth) (leaf (k, v)) c).0
            (rec (suc depth) (leaf (k, v)) c).1

    -- The test on the greatest key of the child holds where the search leads.
    goes_down :
        (m b : K) (ys : List (K × V)) (q : ℕ)
        → IsLast m ys
        → IsLast b ys
        → (t.lt m k ≡ false) ⊎ (suc q ≡ count_handles hs)
        → (not (t.lt b k) || suc q == count_handles hs) ≡ true
    goes_down m b ys q e f (inl p) = rw (IsLast-unique b m ys f e, p) refl
    goes_down m b ys q e f (inr p) = elim (Bool-cases (t.lt b k)) [
      | inl r ↦ rw (r, p, eq_self (count_handles hs)) refl
      | inr r ↦ rw r refl
    ]

    pub above :
        (ht : ℕ) (r : SearchResult)
        → Reads (IsHandle t (suc ht)) hs kvs
        → IsRec ht
        → 0 < lo
        → IsFound t (suc ht) k hs kvs 0 (some r)
        → IsInserted t u depth lo (suc ht) k v kvs (Selected r).0 (Selected r).1
    unfolding insert_selected insert_path insert_below
    above ht (leaf_at p) r ih pos (q, w, xs, zs, at, bottom, _, _, _, _) = absurd (cc)
    above ht no_result r ih pos (_, inl z) = absurd (cc)
    above ht no_result r ih pos (_, inr z) = absurd (omega (arith, many, pos, ap count_handles z))
    above ht (path_at p) r ih pos
          (
            q,
            at,
            (
              h,
              xs,
              ys,
              zs,
              e,
              here,
              around,
              (compound x cs, a, shown, annotated, la, rs, c₁, c₂),
              below,
              m,
              last,
              reach,
            ),
            _,
          ) =
        let z : p ≡ q = omega (arith, at) in
        let se = subst (λ l. IsSorted t.lt l) e s in
        let (_, s', _) = IsSorted-append t.lt xs (ys ++ zs) se in
        let (sy, _, _) = IsSorted-append t.lt ys zs s' in
        let (g, em) = inner_mut-node t.annotation t.load h (compound tt cs) a shown annotated in
        let (b, eb, lb) = Reads-IsGreatest t u ht cs ys rs sy (omega (arith, c₁)) in
        let down =
          goes_down m (t.max_key b) ys q last lb
            (elim reach [ inl x ↦ inl x | inr (_, c, _, _) ↦ inr c ]) in
        let place_k =
          IsPlace-selected t u k m xs ys zs below last
            (elim reach [ inl x ↦ inl x | inr (_, _, c, _) ↦ inr c ]) in
        selected_at (suc ht) z (
          rw (insert_selected, here, em, eb, down, e)
            (after_insert-IsInserted t u k v lo ht q hs xs ys zs depth _ a _
              (around, se, place_k, low, many, few)
              (ih (compound tt cs) ys (rs, omega (arith, c₁), c₂) sy)))
