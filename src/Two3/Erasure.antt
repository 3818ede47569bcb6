-- ===== src/Two3/Erasure.antt =====
-- `_remove` and `remove` against the removal from a sorted list.
use kelvin.Prelude.{
  ℕ, zero, suc, ◌<◌, ◌≤◌, some, List, ◌++◌, ◌≡◌, refl, ap, subst, inl, inr, Bool-cases, arith,
}
use kelvin.Prelude.Outcome.{Outcome, ok, failed, panicked, exhausted, ◌>>=◌}
use kelvin.Handle.{compound, children, count_handles, node_annotation}
use kelvin.Handle.Laws.{inner_mut-node}
use kelvin.Search.{SearchResult, leaf_at, path_at, no_result}
use kelvin.Two3.{Two3, Slots, Two3Tree, RemoveResult, noop, removed, merge, select}
use kelvin.Two3.Removal.{
  RemoveStep, remove_selected, remove_path, remove_below, sub_remove, remove, removed_value,
}
use kelvin.Two3.Entries.{lookup, erase, IsSorted, IsSorted-append, IsLast, IsLast-AllBelow}
use kelvin.Two3.Update.{erase-IsSorted}
use kelvin.Two3.Invariant.{IsUsable, Reads, IsHandle}
use kelvin.Two3.Selects.{IsFound, IsPlace-selected, select-IsFound}
use kelvin.Two3.Greatest.{Reads-IsGreatest}
use kelvin.Two3.Place.{Holds}
use kelvin.Two3.Trees.{IsTree, root_low}
use kelvin.Two3.Removes.{low}
use kelvin.Two3.Deletion.{IsRemoved, Selected, selected_at, at_bottom}
use kelvin.Two3.AfterRemove.{after_remove-IsRemoved, past-IsRemoved}

module _ {K V A : Type 0} (t : Two3 K V A) (u : IsUsable t) (k : K) where
  module _ (rec : ℕ → Two3Tree K V A → RemoveStep t) (depth : ℕ) (hs : Slots K V A)
      (kvs : List (K × V)) (few : count_handles hs < 4) (s : IsSorted t.lt kvs)
      (many : 1 < count_handles hs) where
    abbrev IsRec : ℕ → Type 0
    IsRec ht =
        (c : Two3Tree K V A) (ys : List (K × V))
        → Holds t u 2 ht c ys
        → IsSorted t.lt ys
        → IsRemoved t u k (suc depth) ht ys (rec (suc depth) c).0 (rec (suc depth) c).1

    above :
        (ht : ℕ) (r : SearchResult)
        → IsRec ht
        → IsFound t (suc ht) k hs kvs 0 (some r)
        → IsRemoved t u k depth
            (suc ht)
            kvs
            (Selected t u k rec depth hs kvs few s r).0
            (Selected t u k rec depth hs kvs few s r).1
    unfolding remove_selected remove_path remove_below
    above ht (leaf_at p) ih (q, w, xs, zs, at, bottom, _, _, _, _) = absurd (cc)
    above ht no_result ih (_, inl z) = absurd (cc)
    above ht no_result ih (_, inr z) = absurd (omega (arith, many, ap count_handles z))
    above ht (path_at p) ih
          (
            q,
            at,
            (
              h,
              xs,
              ys,
              zs,
              e,
              here,
              around,
              (c, a, shown, annotated, la, rs, c₁, c₂),
              below,
              m,
              last,
              reach,
            ),
            _,
          ) =
        let z : p ≡ q = omega (arith, at) in
        let se = subst (λ l. IsSorted t.lt l) e s in
        let (_, s', _) = IsSorted-append t.lt xs (ys ++ zs) se in
        let (sy, _, _) = IsSorted-append t.lt ys zs s' in
        let (g, em) = inner_mut-node t.annotation t.load h c a shown annotated in
        let (b, eb, lb) = greatest ht c ys rs sy c₁ in
        let place_k =
          IsPlace-selected t u k m xs ys zs below last
            (elim reach [ inl x ↦ inl x | inr (_, _, x, _) ↦ inr x ]) in
        selected_at t u k rec depth hs kvs few s (suc ht) z
          (elim (Bool-cases (t.lt (t.max_key b) k)) [
            | inl past ↦
                rw (remove_selected, here, em, eb, past, e)
                  (past-IsRemoved t u k ht q hs xs ys zs around se place_k many few depth c a
                    (rs, omega (arith, c₁), c₂)
                    (IsLast-AllBelow t.eq t.lt u.order (t.max_key b) k ys sy lb past))
            | inr down ↦
                rw (remove_selected, here, em, eb, down, e)
                  (after_remove-IsRemoved t u k ht q hs xs ys zs around se place_k many few depth h
                    _ a _ here (ih c ys (rs, omega (arith, c₁), c₂) sy))
          ])
      where
        greatest :
            (ht : ℕ) (c : Two3Tree K V A) (ys : List (K × V))
            → Reads (IsHandle t ht) (children c) ys
            → IsSorted t.lt ys
            → 1 < count_handles (children c)
            → (b : A) × (node_annotation t.annotation c ≡ some b) × IsLast (t.max_key b) ys
        greatest ht (compound x cs) ys r s p = Reads-IsGreatest t u ht cs ys r s (omega (arith, p))

  -- `_remove` never fails, and takes the entry from those of its node.
  sub_remove-IsRemoved :
      (fuel depth ht : ℕ) (n : Two3Tree K V A) (kvs : List (K × V))
      → ht < fuel
      → Holds t u (low ht depth) ht n kvs
      → IsSorted t.lt kvs
      → IsRemoved t u k depth ht kvs (sub_remove t fuel depth k n).0 (sub_remove t fuel depth k n).1
  unfolding sub_remove
  sub_remove-IsRemoved zero depth ht n kvs p holds s = absurd (omega (arith, p))
  sub_remove-IsRemoved (suc fuel) depth zero (compound x hs) kvs p (r, many, few) s =
      at_bottom t u k (λ d c. sub_remove t fuel d k c) depth hs kvs few s (select t k hs) many r
        (select-IsFound t u 0 k hs kvs r s)
  sub_remove-IsRemoved (suc fuel) depth (suc ht) (compound x hs) kvs p (r, many, few) s =
      above (λ d c. sub_remove t fuel d k c) depth hs kvs few s (omega (arith, many)) ht
        (select t k hs)
        (λ c ys holds sy.
          sub_remove-IsRemoved fuel (suc depth) ht c ys (omega (arith, p))
            (low_of_two ht c ys holds) sy)
        (select-IsFound t u (suc ht) k hs kvs r s)
    where
      low_of_two :
          (ht' : ℕ) (c : Two3Tree K V A) (ys : List (K × V))
          → Holds t u 2 ht' c ys
          → Holds t u (low ht' (suc depth)) ht' c ys
      low_of_two zero c ys holds = holds
      low_of_two (suc ht') c ys holds = holds

  root_of_low :
      (ht : ℕ) (n : Two3Tree K V A) (kvs : List (K × V))
      → Holds t u (low ht 0) ht n kvs
      → Holds t u (root_low ht) ht n kvs
  root_of_low zero n kvs holds = holds
  root_of_low (suc ht) n kvs holds = holds

  low_of_root :
      (ht : ℕ) (n : Two3Tree K V A) (kvs : List (K × V))
      → Holds t u (root_low ht) ht n kvs
      → Holds t u (low ht 0) ht n kvs
  low_of_root zero n kvs holds = holds
  low_of_root (suc ht) n kvs holds = holds

  root_of_two :
      (ht : ℕ) (n : Two3Tree K V A) (kvs : List (K × V))
      → Holds t u 2 ht n kvs
      → Holds t u (root_low ht) ht n kvs
  root_of_two zero n kvs (r, many, few) = (r, omega arith, few)
  root_of_two (suc ht) n kvs holds = holds

  removed_root :
      (ht : ℕ) (kvs : List (K × V)) (n : Two3Tree K V A) (r : Outcome (RemoveResult (K × V)))
      → IsSorted t.lt kvs
      → IsRemoved t u k 0 ht kvs n r
      → ((r >>= removed_value t) ≡ ok (lookup t.eq t.lt k kvs))
        × (ht' : ℕ) × IsTree t u ht' n (erase t.eq t.lt k kvs)
        × (ht' ≤ ht)
  unfolding removed_value
  removed_root ht kvs n r s (inl (missing, er, holds)) = (
    rw (er, missing) refl,
    ht,
    (root_of_low ht n (erase t.eq t.lt k kvs) holds, erase-IsSorted t.eq t.lt u.order k kvs s),
    omega arith,
  )
  removed_root ht kvs n (ok (removed (j, x))) s (inr (w, found, (e, inl holds))) = (
    rw (found, e) refl,
    ht,
    (root_of_low ht n (erase t.eq t.lt k kvs) holds, erase-IsSorted t.eq t.lt u.order k kvs s),
    omega arith,
  )
  removed_root ht kvs n (ok (removed (j, x))) s (inr (w, found, (e, inr (_, ht', lower, holds)))) =
      (
        rw (found, e) refl,
        ht',
        (root_of_two ht' n (erase t.eq t.lt k kvs) holds, erase-IsSorted t.eq t.lt u.order k kvs s),
        omega (arith, lower),
      )
  removed_root ht kvs n (ok (merge (j, x))) s (inr (w, found, (top, _, _, _))) = absurd (top refl)
  removed_root ht kvs n (ok noop) s (inr (w, found, h)) = absurd h
  removed_root ht kvs n (failed e) s (inr (w, found, h)) = absurd h
  removed_root ht kvs n panicked s (inr (w, found, h)) = absurd h
  removed_root ht kvs n exhausted s (inr (w, found, h)) = absurd h

  -- A removal from a tree with fuel past its height succeeds. It returns the value the key had, and
  -- leaves a tree with the other entries, no higher.
  pub remove-erase :
      (ht : ℕ) (n : Two3Tree K V A) (kvs : List (K × V))
      → IsTree t u ht n kvs
      → ht < t.fuel
      → ((remove t k n).1 ≡ ok (lookup t.eq t.lt k kvs))
        × (ht' : ℕ) × IsTree t u ht' (remove t k n).0 (erase t.eq t.lt k kvs)
        × (ht' ≤ ht)
  unfolding remove
  remove-erase ht n kvs (holds, s) p =
      removed_root ht kvs (sub_remove t t.fuel 0 k n).0 (sub_remove t t.fuel 0 k n).1 s
        (sub_remove-IsRemoved t.fuel 0 ht n kvs p (low_of_root ht n kvs holds) s)
