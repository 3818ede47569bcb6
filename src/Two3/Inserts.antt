-- ===== src/Two3/Inserts.antt =====
-- An insertion, in the node that its key belongs to and in those above.
use kelvin.Prelude.{
  ℕ, zero, suc, ◌<◌, ◌≤◌, List, ◌++◌, ◌≡◌, ap, ◌∙◌, subst, append_assoc, inl, inr, arith,
}
use kelvin.Prelude.Outcome.{Outcome, ok, failed, panicked, exhausted}
use kelvin.Handle.{Handle, Handles, compound, nil, cons, count_handles, set_handle, drop_mut}
use kelvin.Handle.Laws.{count_handles-set}
use kelvin.Two3.{Two3, Slots, Two3Tree, InsertResult, inserted, replaced, split, after_insert}
use kelvin.Two3.Entries.{put, IsSorted, IsSorted-append}
use kelvin.Two3.Update.{put-IsSorted, IsPlace, put-place, lookup-place}
use kelvin.Two3.Invariant.{IsUsable, Around, Reads-set, Reads-insert_after, IsHandle}
use kelvin.Two3.Greatest.{drop_mut-IsHandle}
use kelvin.Two3.Place.{Holds, IsInserted, place-IsInserted}

pub Around-lt :
    {L A X E : Type 0} (P : Handle L A X → List E → Type 0) (hs : Handles L A X) (i : ℕ)
    (xs zs : List E)
    → Around P hs i xs zs
    → i < count_handles hs
Around-lt P nil i xs zs w = absurd w
Around-lt P (cons h hs) zero xs zs w = omega arith
Around-lt P (cons h hs) (suc i) xs zs (x, xs', e, p, w) = omega (arith, Around-lt P hs i xs' zs w)

-- A child that has its place in the node.
pub Holds-child :
    {K V A : Type 0} (t : Two3 K V A) (u : IsUsable t) (lo ht q : ℕ) (hs : Slots K V A)
    (xs ys zs : List (K × V)) (c : Two3Tree K V A) (a : A)
    → Around (IsHandle t (suc ht)) hs q xs zs
    → Holds t u 2 ht c ys
    → IsSorted t.lt ys
    → lo ≤ count_handles hs
    → count_handles hs < 4
    → Holds t u lo
        (suc ht)
        (compound tt (set_handle hs q (drop_mut t.annotation c a)))
        (xs ++ (ys ++ zs))
Holds-child t u lo ht q hs xs ys zs (compound _ cs) a w (r, two, three) s many few =
    let g = drop_mut t.annotation (compound tt cs) a in
    let same : count_handles (set_handle hs q g) ≡ count_handles hs = count_handles-set hs q g in
    (
      Reads-set (IsHandle t (suc ht)) hs q g xs ys zs w
          (drop_mut-IsHandle t u ht cs ys a r s (omega (arith, two)) three),
      omega (arith, same, many),
      omega (arith, same, few),
    )

module _ {K V A : Type 0} (t : Two3 K V A) (u : IsUsable t) (k : K) (v : V) where
  module _ (lo ht q : ℕ) (hs : Slots K V A) (xs ys zs : List (K × V)) where
    -- What holds of a child at `q` and the node with handles `hs` around it.
    abbrev pub IsInside : Type 0
    IsInside =
        Around (IsHandle t (suc ht)) hs q xs zs
        × IsSorted t.lt (xs ++ (ys ++ zs))
        × IsPlace t.eq t.lt u.order k xs ys zs
        × (lo ≤ 2)
        × (lo ≤ count_handles hs)
        × (count_handles hs < 4)

    IsSorted-child : IsInside → IsSorted t.lt ys
    IsSorted-child (_, s, _, _, _, _) =
        let (_, s', _) = IsSorted-append t.lt xs (ys ++ zs) s in (IsSorted-append t.lt ys zs s').0

    same_node :
        (c : Two3Tree K V A) (a : A)
        → IsInside
        → Holds t u 2 ht c (put t.eq t.lt k v ys)
        → Holds t u lo
            (suc ht)
            (compound tt (set_handle hs q (drop_mut t.annotation c a)))
            (put t.eq t.lt k v (xs ++ (ys ++ zs)))
    same_node c a inside holds =
        let (w, s, p, _, many, few) = inside in
        let sc = put-IsSorted t.eq t.lt u.order k v ys (IsSorted-child inside) in
        rw (put-place t.eq t.lt u.order k v xs ys zs p)
          (Holds-child t u lo ht q hs xs (put t.eq t.lt k v ys) zs c a w holds sc many few)

    -- What becomes of the result of the call one level down.
    pub after_insert-IsInserted :
        (depth : ℕ) (c : Two3Tree K V A) (a : A) (r : Outcome (InsertResult K V A))
        → IsInside
        → IsInserted t u (suc depth) 2 ht k v ys c r
        → IsInserted t u depth lo
            (suc ht)
            k
            v
            (xs ++ (ys ++ zs))
            (after_insert t depth (compound tt (set_handle hs q (drop_mut t.annotation c a))) q r).0
            (after_insert t depth (compound tt (set_handle hs q (drop_mut t.annotation c a))) q r).1
    unfolding after_insert
    after_insert-IsInserted depth c a (ok inserted) inside (missing, inl holds) =
        let (_, s, p, _, _, _) = inside in
        (lookup-place t.eq t.lt u.order k xs ys zs s p ∙ missing, inl (same_node c a inside holds))
    after_insert-IsInserted depth c a (ok inserted) inside (missing, inr (z, _)) = absurd (cc)
    after_insert-IsInserted depth c a (ok (replaced (j, w))) inside (found, holds) =
        let (_, s, p, _, _, _) = inside in
        (lookup-place t.eq t.lt u.order k xs ys zs s p ∙ found, same_node c a inside holds)
    after_insert-IsInserted depth (compound _ cs) a (ok (split f)) inside
          (_, missing, ls, bs, e, (r, many, few), pf) =
        let (w, s, p, low, lo', hi) = inside in
        let g = drop_mut t.annotation (compound tt cs) a in
        let sc = put-IsSorted t.eq t.lt u.order k v ys (IsSorted-child inside) in
        let (sa, _, _) = IsSorted-append t.lt ls bs (subst (λ l. IsSorted t.lt l) e sc) in
        let pg = drop_mut-IsHandle t u ht cs ls a r sa (omega (arith, many)) few in
        let same : count_handles (set_handle hs q g) ≡ count_handles hs =
          count_handles-set hs q g in
        let at = Around-lt (IsHandle t (suc ht)) hs q xs zs w in
        let whole : put t.eq t.lt k v (xs ++ (ys ++ zs)) ≡ xs ++ (ls ++ (bs ++ zs)) =
          put-place t.eq t.lt u.order k v xs ys zs p
          ∙ ap (λ l. xs ++ l) (ap (λ l. l ++ zs) e ∙ append_assoc ls bs zs) in
        place-IsInserted t u depth lo (suc ht) k v (xs ++ (ys ++ zs)) (set_handle hs q g) (suc q) f
          low (omega (arith, same, lo')) (omega (arith, same, hi)) (omega (arith, same, at))
          (lookup-place t.eq t.lt u.order k xs ys zs s p ∙ missing) s
          (rw whole (Reads-insert_after (IsHandle t (suc ht)) hs q g f xs ls bs zs w pg pf))
    after_insert-IsInserted depth c a (failed e) inside r = absurd r
    after_insert-IsInserted depth c a panicked inside r = absurd r
    after_insert-IsInserted depth c a exhausted inside r = absurd r
