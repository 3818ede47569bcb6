-- ===== src/Two3/Leaves.antt =====
-- The insertion of a leaf at the bottom of the tree.
use kelvin.Prelude.{
  ℕ, ◌<◌, ◌≤◌, none, some, true, false, List, [], ◌∷◌, ◌++◌, ◌≡◌, refl, ap, ◌∙◌, subst, append-nil,
  inl, inr, Bool-cases, arith,
}
use kelvin.Handle.{
  Handle, Handles, compound, nil, cons, count_handles, set_handle, get_handle, leaf, into_leaf,
  try_into_leaf,
}
use kelvin.Handle.Laws.{count_handles-set}
use kelvin.Two3.{Two3, Slot, Slots, replace, finish_replace, place}
use kelvin.Two3.Entries.{lookup, put, IsSorted, not_eq, eq_refl, AllBelow}
use kelvin.Two3.Update.{IsPlace, put-place, lookup-place, put-below, lookup-below}
use kelvin.Two3.Invariant.{
  IsUsable, insert_handle, append_handle, Reads, Around, Reads-set, Reads-insert, Reads-append,
  IsHandle,
}
use kelvin.Two3.Place.{IsInserted, place-IsInserted}
use kelvin.Two3.Inserts.{Around-lt}

insert_handle-end :
    {L A X : Type 0} (hs : Handles L A X) (h : Handle L A X)
    → insert_handle hs (count_handles hs) h ≡ append_handle hs h
insert_handle-end nil h = refl
insert_handle-end (cons g hs) h = ap (cons g) (insert_handle-end hs h)

module _ {K V A : Type 0} (t : Two3 K V A) (u : IsUsable t) (k : K) (v : V) where
  pub lt_refl : t.lt k k ≡ false
  lt_refl = elim (Bool-cases (t.lt k k)) [ inl p ↦ absurd (cc (p, u.order.asym k k p)) | inr p ↦ p ]

  module _ (depth lo : ℕ) (hs : Slots K V A) (low : lo ≤ 2) (many : lo ≤ count_handles hs)
      (few : count_handles hs < 4) where
    -- A leaf with the key is replaced.
    pub replace-IsInserted :
        (q : ℕ) (w : V) (xs zs : List (K × V))
        → IsSorted t.lt (xs ++ (k, w) ∷ zs)
        → get_handle hs q ≡ some (leaf (k, w))
        → Around (IsHandle t 0) hs q xs zs
        → AllBelow t.lt xs k
        → IsInserted t u depth lo 0 k v
            (xs ++ (k, w) ∷ zs)
            (replace t (compound tt hs) q (leaf (k, v))).0
            (replace t (compound tt hs) q (leaf (k, v))).1
    unfolding replace finish_replace into_leaf try_into_leaf
    replace-IsInserted q w xs zs s here around below =
        let g : Slot K V A = leaf (k, v) in
        let p : IsPlace t.eq t.lt u.order k xs ((k, w) ∷ []) zs = (below, inl (inl lt_refl)) in
        let same : count_handles (set_handle hs q g) ≡ count_handles hs =
          count_handles-set hs q g in
        let found : lookup t.eq t.lt k ((k, w) ∷ []) ≡ some w =
          rw (eq_refl t.eq t.lt u.order k) refl in
        let one : put t.eq t.lt k v ((k, w) ∷ []) ≡ (k, v) ∷ [] =
          rw (eq_refl t.eq t.lt u.order k) refl in
        let whole : put t.eq t.lt k v (xs ++ (k, w) ∷ zs) ≡ xs ++ (k, v) ∷ zs =
          put-place t.eq t.lt u.order k v xs ((k, w) ∷ []) zs p ∙ ap (λ l. xs ++ (l ++ zs)) one in
        rw (replace, here)
          (
            lookup-place t.eq t.lt u.order k xs ((k, w) ∷ []) zs s p ∙ found,
            (
              rw whole
                  (Reads-set (IsHandle t 0) hs q g xs ((k, v) ∷ []) zs around (k, v, refl, refl)),
              omega (arith, same, many),
              omega (arith, same, few),
            ),
          )

    -- A leaf is put before the first with a greater key.
    pub before-IsInserted :
        (q : ℕ) (j : K) (w : V) (xs zs : List (K × V))
        → IsSorted t.lt (xs ++ (j, w) ∷ zs)
        → get_handle hs q ≡ some (leaf (j, w))
        → Around (IsHandle t 0) hs q xs zs
        → AllBelow t.lt xs k
        → t.lt k j ≡ true
        → IsInserted t u depth lo 0 k v
            (xs ++ (j, w) ∷ zs)
            (place t depth (compound tt hs) q (leaf (k, v))).0
            (place t depth (compound tt hs) q (leaf (k, v))).1
    before-IsInserted q j w xs zs s here around below above =
        let p : IsPlace t.eq t.lt u.order k xs ((j, w) ∷ []) zs =
          (below, inl (inl (u.order.asym k j above))) in
        let other = not_eq t.eq t.lt u.order k j above in
        let missing : lookup t.eq t.lt k ((j, w) ∷ []) ≡ none = rw other refl in
        let two : put t.eq t.lt k v ((j, w) ∷ []) ≡ (k, v) ∷ (j, w) ∷ [] = rw (other, above) refl in
        let whole : put t.eq t.lt k v (xs ++ (j, w) ∷ zs) ≡ xs ++ (k, v) ∷ (j, w) ∷ zs =
          put-place t.eq t.lt u.order k v xs ((j, w) ∷ []) zs p ∙ ap (λ l. xs ++ (l ++ zs)) two in
        place-IsInserted t u depth lo 0 k v (xs ++ (j, w) ∷ zs) hs q (leaf (k, v)) low many few
          (omega (arith, Around-lt (IsHandle t 0) hs q xs zs around))
          (lookup-place t.eq t.lt u.order k xs ((j, w) ∷ []) zs s p ∙ missing) s
          (rw whole (
            Reads-insert (IsHandle t 0) hs q (leaf (j, w)) (leaf (k, v)) xs ((j, w) ∷ [])
              ((k, v) ∷ []) zs around here (j, w, refl, refl) (k, v, refl, refl)))

    -- A leaf with a key past all others is put at the end.
    pub end-IsInserted :
        (kvs : List (K × V))
        → IsSorted t.lt kvs
        → Reads (IsHandle t 0) hs kvs
        → AllBelow t.lt kvs k
        → IsInserted t u depth lo 0 k v kvs
            (place t depth (compound tt hs) (count_handles hs) (leaf (k, v))).0
            (place t depth (compound tt hs) (count_handles hs) (leaf (k, v))).1
    end-IsInserted kvs s r below =
        let missing : lookup t.eq t.lt k kvs ≡ none =
          subst (λ l. lookup t.eq t.lt k l ≡ none) (append-nil kvs)
            (lookup-below t.eq t.lt u.order k kvs [] below) in
        let whole : put t.eq t.lt k v kvs ≡ kvs ++ (k, v) ∷ [] =
          subst (λ l. put t.eq t.lt k v l ≡ kvs ++ (k, v) ∷ []) (append-nil kvs)
            (put-below t.eq t.lt u.order k v kvs [] below) in
        place-IsInserted t u depth lo 0 k v kvs hs (count_handles hs) (leaf (k, v)) low many few
          (omega arith) missing s
          (rw (insert_handle-end hs (leaf (k, v)), whole)
            (Reads-append (IsHandle t 0) hs (leaf (k, v)) kvs ((k, v) ∷ []) r (k, v, refl, refl)))
