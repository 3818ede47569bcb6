-- ===== src/Two3/Merging.antt =====
-- `Action::Merge`: the child that is left with a single handle shares with its neighbour.
use kelvin.Prelude.{
  ℕ, zero, suc, ◌<◌, some, List, ◌++◌, ◌≡◌, sym, ap, ◌∙◌, subst, append_assoc, inl, inr, arith,
}
use kelvin.Prelude.Outcome.{ok}
use kelvin.Handle.{
  compound, nil, cons, children, count_handles, set_handle, get_handle, drop_mut, empty, new_empty,
  inner, node_ref, handle_annotation,
}
use kelvin.Handle.Laws.{count_handles-set, inner_mut-node, get_handle-set_self, into_node-drop_mut}
use kelvin.Two3.{Two3, Slot, Slots, Two3Tree}
use kelvin.Two3.Removal.{
  merged, merge_with, merge_at, merge_prev, merge_next, merge_beside, merge_out, merge_child,
}
use kelvin.Two3.Entries.{IsSorted}
use kelvin.Two3.Invariant.{IsUsable, Reads, Around, IsHandle, IsNode}
use kelvin.Two3.Merges.{AroundTwo, Around-prev, Around-next, merge_prev-shares, merge_next-shares}
use kelvin.Two3.Removes.{Shrinks}
use kelvin.Two3.Neighbours.{prev-taken, prev-shared, next-taken, next-shared}

module _ {K V A : Type 0} (t : Two3 K V A) (u : IsUsable t) (depth ht : ℕ) (j : K) (w : V) where
  module _ (x : Slot K V A) (ws ms ys zs rest : List (K × V)) (s : IsSorted t.lt rest) where
    merge_at-prev :
        (hs : Slots K V A) (i : ℕ) (m e : Slot K V A)
        → AroundTwo (IsHandle t (suc ht)) hs i ws zs
        → get_handle hs i ≡ some m
        → get_handle hs (suc i) ≡ some e
        → IsHandle t (suc ht) m ms
        → Reads (IsHandle t ht) (cons x nil) ys
        → rest ≡ ws ++ ((ms ++ ys) ++ zs)
        → 1 < count_handles hs
        → count_handles hs < 4
        → Shrinks t u depth
            (suc ht)
            w
            rest
            (merge_at t (merge_prev t) depth (compound tt hs) (suc i) i (j, w) (cons x nil)).0
            (merge_at t (merge_prev t) depth (compound tt hs) (suc i) i (j, w) (cons x nil)).1
    unfolding merge_at merge_with merged
    merge_at-prev hs i m e around here there (c, a, shown, annotated, _, rm, two, four) ry whole
          many few =
        let (_, em) = inner_mut-node t.annotation t.load m c a shown annotated in
        let (to_merge, prev, es, shares) =
          merge_prev-shares t u (IsHandle t ht) x (children c) ms ys rm ry two four in
        rw (merge_at, here, em, es)
          (elim shares [
            | inl taken ↦
                prev-taken t u depth ht j w rest ws (ms ++ ys) zs whole s hs i a to_merge prev many
                  few e there around taken
            | inr shared ↦
                prev-shared t u depth ht j w rest ws (ms ++ ys) zs whole s hs i a to_merge prev many
                  few around shared
          ])

    merge_at-next :
        (hs : Slots K V A) (m : Slot K V A)
        → AroundTwo (IsHandle t (suc ht)) hs 0 ws zs
        → get_handle hs 1 ≡ some m
        → IsHandle t (suc ht) m ms
        → Reads (IsHandle t ht) (cons x nil) ys
        → rest ≡ ws ++ ((ys ++ ms) ++ zs)
        → count_handles hs < 4
        → Shrinks t u depth
            (suc ht)
            w
            rest
            (merge_at t (merge_next t) depth (compound tt hs) 0 1 (j, w) (cons x nil)).0
            (merge_at t (merge_next t) depth (compound tt hs) 0 1 (j, w) (cons x nil)).1
    unfolding merge_at merge_with merged
    merge_at-next nil m around here h ry whole few = absurd around
    merge_at-next (cons b nil) m around here h ry whole few = absurd around
    merge_at-next (cons b (cons d hs)) m (first, after) here
          (c, a, shown, annotated, _, rm, two, four) ry whole few =
        let md : d ≡ m = cc here in
        let (_, em) =
          inner_mut-node t.annotation t.load d c a
            (subst (λ z. inner t.load z ≡ ok (node_ref c)) (sym md) shown)
            (subst (λ z. handle_annotation t.annotation z ≡ some a) (sym md) annotated) in
        let (to_merge, next, es, shares) =
          merge_next-shares t u (IsHandle t ht) x (children c) ys ms ry rm two four in
        rw (merge_at, em, es)
          (elim shares [
            | inl taken ↦
                next-taken t u depth ht j w rest ws (ys ++ ms) zs whole s b d hs a to_merge next few
                  first after taken
            | inr shared ↦
                next-shared t u depth ht j w rest ws (ys ++ ms) zs whole s b d hs a to_merge next
                  few first after shared
          ])

  -- The child is out of its place.
  merge_beside-Shrinks :
      (hs : Slots K V A) (q : ℕ) (x : Slot K V A) (xs ys zs : List (K × V))
      → Around (IsHandle t (suc ht)) hs q xs zs
      → get_handle hs q ≡ some empty
      → Reads (IsHandle t ht) (cons x nil) ys
      → IsSorted t.lt (xs ++ (ys ++ zs))
      → 1 < count_handles hs
      → count_handles hs < 4
      → Shrinks t u depth
          (suc ht)
          w
          (xs ++ (ys ++ zs))
          (merge_beside t depth (compound tt hs) q (j, w) (cons x nil)).0
          (merge_beside t depth (compound tt hs) q (j, w) (cons x nil)).1
  unfolding merge_beside
  merge_beside-Shrinks hs zero x xs ys zs around here ry s many few =
      let (m, ms, ws, e, there, pm, around') =
        Around-next (IsHandle t (suc ht)) hs xs zs around many in
      merge_at-next x xs ms ys ws (xs ++ (ys ++ zs)) s hs m around' there pm ry
        (ap (λ l. xs ++ l) (ap (λ l. ys ++ l) e ∙ sym (append_assoc ys ms ws))) few
  merge_beside-Shrinks hs (suc i) x xs ys zs around here ry s many few =
      let (m, ws, ms, e, there, pm, around') =
        Around-prev (IsHandle t (suc ht)) hs i xs zs around in
      merge_at-prev x ws ms ys zs (xs ++ (ys ++ zs)) s hs i m empty around' there here pm ry
        (ap (λ l. l ++ (ys ++ zs)) e
          ∙ append_assoc ws ms (ys ++ zs)
          ∙ ap (λ l. ws ++ l) (sym (append_assoc ms ys zs)))
        many few

  Around-set :
      (P : Slot K V A → List (K × V) → Type 0) (hs : Slots K V A) (i : ℕ) (v : Slot K V A)
      (xs zs : List (K × V))
      → Around P hs i xs zs
      → Around P (set_handle hs i v) i xs zs
  Around-set P nil i v xs zs around = around
  Around-set P (cons h hs) zero v xs zs around = around
  Around-set P (cons h hs) (suc i) v xs zs (x, xs', e, p, around) =
      (x, xs', e, p, Around-set P hs i v xs' zs around)

  -- The node after the merge of a child that was left with one handle.
  pub merge_child-Shrinks :
      (hs : Slots K V A) (q : ℕ) (old : Slot K V A) (c : Two3Tree K V A) (a : A)
      (xs ys zs : List (K × V))
      → Around (IsHandle t (suc ht)) hs q xs zs
      → get_handle hs q ≡ some old
      → IsNode t ht c ys
      → count_handles (children c) ≡ 1
      → IsSorted t.lt (xs ++ (ys ++ zs))
      → 1 < count_handles hs
      → count_handles hs < 4
      → Shrinks t u depth
          (suc ht)
          w
          (xs ++ (ys ++ zs))
          (merge_child t depth
            (compound tt (set_handle hs q (drop_mut t.annotation c a)))
            q
            (j, w)).0
          (merge_child t depth
            (compound tt (set_handle hs q (drop_mut t.annotation c a)))
            q
            (j, w)).1
  unfolding merge_child merge_out new_empty
  merge_child-Shrinks hs q old (compound _ nil) a xs ys zs around here rc one s many few =
      absurd (omega (arith, one))
  merge_child-Shrinks hs q old (compound _ (cons x (cons y cs))) a xs ys zs around here rc one s
        many few =
      absurd (omega (arith, one))
  merge_child-Shrinks hs q old (compound _ (cons x nil)) a xs ys zs around here rc one s many few =
      let g = drop_mut t.annotation (compound tt (cons x nil)) a in
      let gs = set_handle hs q g in
      let there : get_handle gs q ≡ some g = get_handle-set_self hs q g here in
      let same : count_handles (set_handle gs q empty) ≡ count_handles hs =
        count_handles-set gs q empty ∙ count_handles-set hs q g in
      rw (merge_child, there, into_node-drop_mut t.annotation t.load (compound tt (cons x nil)) a)
        (merge_beside-Shrinks (set_handle gs q empty) q x xs ys zs
          (Around-set (IsHandle t (suc ht)) gs q empty xs zs
            (Around-set (IsHandle t (suc ht)) hs q g xs zs around))
          (get_handle-set_self gs q empty there) rc s (omega (arith, same, many))
          (omega (arith, same, few)))
