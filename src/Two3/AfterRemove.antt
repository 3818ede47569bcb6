-- ===== src/Two3/AfterRemove.antt =====
-- A removal in the node above, after that in its child.
use kelvin.Prelude.{ℕ, zero, suc, ◌<◌, some, List, ◌++◌, ◌≡◌, refl, ◌∙◌, subst, inl, inr, arith}
use kelvin.Prelude.Outcome.{Outcome, ok, failed, panicked, exhausted}
use kelvin.Handle.{compound, count_handles, set_handle, get_handle, drop_mut}
use kelvin.Two3.{Two3, Slot, Slots, Two3Tree, RemoveResult, noop, removed, merge}
use kelvin.Two3.Removal.{after_remove}
use kelvin.Two3.Entries.{erase, IsSorted, IsSorted-append, AllBelow}
use kelvin.Two3.Update.{erase-IsSorted, IsPlace, erase-place, lookup-place}
use kelvin.Two3.Invariant.{IsUsable, Around, IsHandle}
use kelvin.Two3.Place.{Holds}
use kelvin.Two3.Inserts.{Holds-child}
use kelvin.Two3.Rounds.{lookup-past}
use kelvin.Two3.Removes.{low, Shrinks}
use kelvin.Two3.Merging.{merge_child-Shrinks}
use kelvin.Two3.Deletion.{IsRemoved, erase-past}

module _ {K V A : Type 0} (t : Two3 K V A) (u : IsUsable t) (k : K) where
  two_of_low :
      (ht depth : ℕ) (n : Two3Tree K V A) (kvs : List (K × V))
      → Holds t u (low ht (suc depth)) ht n kvs
      → Holds t u 2 ht n kvs
  two_of_low zero depth n kvs holds = holds
  two_of_low (suc ht) depth n kvs holds = holds

  module _ (ht q : ℕ) (hs : Slots K V A) (xs ys zs : List (K × V))
      (around : Around (IsHandle t (suc ht)) hs q xs zs) (s : IsSorted t.lt (xs ++ (ys ++ zs)))
      (place_k : IsPlace t.eq t.lt u.order k xs ys zs) (many : 1 < count_handles hs)
      (few : count_handles hs < 4) where
    IsSorted-child : IsSorted t.lt ys
    IsSorted-child =
        let (_, s', _) = IsSorted-append t.lt xs (ys ++ zs) s in (IsSorted-append t.lt ys zs s').0

    -- The child keeps its place.
    same_node :
        (depth : ℕ) (c : Two3Tree K V A) (a : A)
        → Holds t u 2 ht c (erase t.eq t.lt k ys)
        → Holds t u
            (low (suc ht) depth)
            (suc ht)
            (compound tt (set_handle hs q (drop_mut t.annotation c a)))
            (erase t.eq t.lt k (xs ++ (ys ++ zs)))
    same_node depth c a holds = rw (erase-place t.eq t.lt u.order k xs ys zs s place_k) (
        Holds-child t u 2 ht q hs xs (erase t.eq t.lt k ys) zs c a around holds
          (erase-IsSorted t.eq t.lt u.order k ys IsSorted-child) (omega (arith, many)) few)

    after_remove-Shrinks :
        (depth : ℕ) (old : Slot K V A) (c : Two3Tree K V A) (a : A) (w : V)
        (r : Outcome (RemoveResult (K × V)))
        → get_handle hs q ≡ some old
        → Shrinks t u (suc depth) ht w (erase t.eq t.lt k ys) c r
        → Shrinks t u depth
            (suc ht)
            w
            (erase t.eq t.lt k (xs ++ (ys ++ zs)))
            (after_remove t depth (compound tt (set_handle hs q (drop_mut t.annotation c a))) q r).0
            (after_remove t depth (compound tt (set_handle hs q (drop_mut t.annotation c a))) q r).1
    unfolding after_remove
    after_remove-Shrinks depth old c a w (ok noop) here h = absurd h
    after_remove-Shrinks depth old c a w (ok (removed (j, x))) here (e, inl holds) =
        (e, inl (same_node depth c a (two_of_low ht depth c (erase t.eq t.lt k ys) holds)))
    after_remove-Shrinks depth old c a w (ok (removed (j, x))) here (e, inr (z, _, _, _)) =
        absurd (cc)
    after_remove-Shrinks depth old c a w (ok (merge (j, x))) here (_, e, r, one) =
        let whole = erase-place t.eq t.lt u.order k xs ys zs s place_k in
        let gs = set_handle hs q (drop_mut t.annotation c a) in
        subst
          (λ y.
            Shrinks t u depth (suc ht) y (erase t.eq t.lt k (xs ++ (ys ++ zs)))
              (after_remove t depth (compound tt gs) q (ok (merge (j, x)))).0
              (after_remove t depth (compound tt gs) q (ok (merge (j, x)))).1)
          e
          (rw whole (
            merge_child-Shrinks t u depth ht j x hs q old c a xs (erase t.eq t.lt k ys) zs around
              here r one
              (subst (λ l. IsSorted t.lt l) whole
                (erase-IsSorted t.eq t.lt u.order k (xs ++ (ys ++ zs)) s))
              many few))
    after_remove-Shrinks depth old c a w (failed e) here h = absurd h
    after_remove-Shrinks depth old c a w panicked here h = absurd h
    after_remove-Shrinks depth old c a w exhausted here h = absurd h

    pub after_remove-IsRemoved :
        (depth : ℕ) (old : Slot K V A) (c : Two3Tree K V A) (a : A)
        (r : Outcome (RemoveResult (K × V)))
        → get_handle hs q ≡ some old
        → IsRemoved t u k (suc depth) ht ys c r
        → IsRemoved t u k depth
            (suc ht)
            (xs ++ (ys ++ zs))
            (after_remove t depth (compound tt (set_handle hs q (drop_mut t.annotation c a))) q r).0
            (after_remove t depth (compound tt (set_handle hs q (drop_mut t.annotation c a))) q r).1
    unfolding after_remove
    after_remove-IsRemoved depth old c a r here (inl (missing, er, holds)) = rw er (
        inl (
          lookup-place t.eq t.lt u.order k xs ys zs s place_k ∙ missing,
          refl,
          same_node depth c a (two_of_low ht depth c (erase t.eq t.lt k ys) holds),
        ))
    after_remove-IsRemoved depth old c a r here (inr (w, found, shrinks)) = inr (
      w,
      lookup-place t.eq t.lt u.order k xs ys zs s place_k ∙ found,
      after_remove-Shrinks depth old c a w r here shrinks,
    )

    -- Nothing below has the key.
    pub past-IsRemoved :
        (depth : ℕ) (c : Two3Tree K V A) (a : A)
        → Holds t u 2 ht c ys
        → AllBelow t.lt ys k
        → IsRemoved t u k depth
            (suc ht)
            (xs ++ (ys ++ zs))
            (compound tt (set_handle hs q (drop_mut t.annotation c a)))
            (ok noop)
    past-IsRemoved depth c a holds below = inl (
      lookup-place t.eq t.lt u.order k xs ys zs s place_k ∙ lookup-past t k u ys below,
      refl,
      same_node depth c a (rw (erase-past t u k ys below) holds),
    )
