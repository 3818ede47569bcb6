-- ===== src/Two3/Deletion.antt =====
-- A removal, in the node that its key belongs to and in those above.
use kelvin.Prelude.{
  ℕ, zero, suc, ◌<◌, ◌≤◌, none, some, true, ltb, tests, List, [], ◌∷◌, ◌++◌, ◌≡◌, refl, sym, ap,
  ◌∙◌, subst, append-nil, ◌⊎◌, inl, inr, Bool-cases, arith,
}
use kelvin.Prelude.Outcome.{Outcome, ok}
use kelvin.Handle.{compound, count_handles, get_handle, leaf, into_leaf, try_into_leaf, inner_mut}
use kelvin.Handle.Laws.{set_handle-same}
use kelvin.Search.{SearchResult, leaf_at, path_at, no_result}
use kelvin.Two3.{Two3, Slots, Two3Tree, RemoveResult, noop}
use kelvin.Two3.Removal.{RemoveStep, finish_take, take_at, remove_selected, remove_path}
use kelvin.Two3.Entries.{lookup, erase, IsSorted, AllBelow, not_eq, eq_refl}
use kelvin.Two3.Update.{IsPlace, erase-place, lookup-place, erase-below}
use kelvin.Two3.Invariant.{IsUsable, remove_handle, Reads, Reads-remove, IsHandle}
use kelvin.Two3.Selects.{IsFound}
use kelvin.Two3.Place.{Holds}
use kelvin.Two3.Leaves.{lt_refl}
use kelvin.Two3.Rounds.{lookup-past}
use kelvin.Two3.Removes.{low, Shrinks, count_handles-remove}

module _ {K V A : Type 0} (t : Two3 K V A) (u : IsUsable t) (k : K) where
  -- What a removal from a node with entries `kvs` leaves and returns.
  abbrev pub IsRemoved :
      ℕ → ℕ → List (K × V) → Two3Tree K V A → Outcome (RemoveResult (K × V)) → Type 0
  IsRemoved depth ht kvs n r =
      ((lookup t.eq t.lt k kvs ≡ none)
        × (r ≡ ok noop)
        × Holds t u (low ht depth) ht n (erase t.eq t.lt k kvs))
      ⊎ ((w : V) × (lookup t.eq t.lt k kvs ≡ some w)
          × Shrinks t u depth ht w (erase t.eq t.lt k kvs) n r)

  pub erase-past : (kvs : List (K × V)) → AllBelow t.lt kvs k → erase t.eq t.lt k kvs ≡ kvs
  erase-past kvs b =
      subst (λ l. erase t.eq t.lt k l ≡ l) (append-nil kvs)
        (erase-below t.eq t.lt u.order k kvs [] b)

  -- A leaf is taken out.
  take_at-Shrinks :
      (depth : ℕ) (hs : Slots K V A) (q : ℕ) (j : K) (w : V) (rest : List (K × V))
      → get_handle hs q ≡ some (leaf (j, w))
      → Reads (IsHandle t 0) (remove_handle hs q) rest
      → low 0 depth ≤ count_handles hs
      → count_handles hs < 4
      → Shrinks t u depth 0 w rest
          (take_at t depth (compound tt hs) (t.vec.remove hs q)).0
          (take_at t depth (compound tt hs) (t.vec.remove hs q)).1
  unfolding take_at finish_take into_leaf try_into_leaf
  take_at-Shrinks depth hs q j w rest here r many few =
      rw (u.vec.remove_lem hs q (leaf (j, w)) here)
        (by_depth depth many (count_handles-remove hs q (leaf (j, w)) here))
    where
      by_depth :
          (d : ℕ)
          → low 0 d ≤ count_handles hs
          → suc (count_handles (remove_handle hs q)) ≡ count_handles hs
          → Shrinks t u d 0 w rest
              (finish_take t d (compound tt hs) (remove_handle hs q) (ok (j, w))).0
              (finish_take t d (compound tt hs) (remove_handle hs q) (ok (j, w))).1
      by_depth zero many less = (refl, inl (r, omega arith, omega (arith, few, less)))
      by_depth (suc d) many less = elim (Bool-cases (ltb (count_handles (remove_handle hs q)) 2)) [
        | inl under ↦ rw under ((λ z. absurd (cc)), refl, r, grind (arith, tests))
        | inr enough ↦ rw enough (refl, inl (r, grind (arith, tests), omega (arith, few, less)))
      ]

  module _ (rec : ℕ → Two3Tree K V A → RemoveStep t) (depth : ℕ) (hs : Slots K V A)
      (kvs : List (K × V)) (few : count_handles hs < 4) (s : IsSorted t.lt kvs) where
    abbrev pub Selected : SearchResult → RemoveStep t
    Selected r = remove_selected t rec depth k (compound tt hs) r

    pub selected_at :
        {p q : ℕ} (ht : ℕ)
        → p ≡ q
        → IsRemoved depth ht kvs (Selected (path_at q)).0 (Selected (path_at q)).1
        → IsRemoved depth ht kvs (Selected (path_at p)).0 (Selected (path_at p)).1
    selected_at ht z r =
        subst (λ x. IsRemoved depth ht kvs (Selected (path_at x)).0 (Selected (path_at x)).1)
          (sym z) r

    pub at_bottom :
        (r : SearchResult)
        → low 0 depth ≤ count_handles hs
        → Reads (IsHandle t 0) hs kvs
        → IsFound t 0 k hs kvs 0 (some r)
        → IsRemoved depth 0 kvs (Selected r).0 (Selected r).1
    unfolding remove_selected remove_path inner_mut
    at_bottom (leaf_at p) many r (q, w, xs, zs, at, _, e, here, around, below) =
        let z : p ≡ q = omega (arith, at) in
        let place_k : IsPlace t.eq t.lt u.order k xs ((k, w) ∷ []) zs =
          (below, inl (inl (lt_refl t u k w))) in
        let same = eq_refl t.eq t.lt u.order k in
        let se = subst (λ l. IsSorted t.lt l) e s in
        let one : erase t.eq t.lt k ((k, w) ∷ []) ≡ [] = rw same refl in
        let found : lookup t.eq t.lt k ((k, w) ∷ []) ≡ some w = rw same refl in
        let rest : erase t.eq t.lt k kvs ≡ xs ++ zs =
          ap (λ l. erase t.eq t.lt k l) e
          ∙ erase-place t.eq t.lt u.order k xs ((k, w) ∷ []) zs se place_k
          ∙ ap (λ l. xs ++ (l ++ zs)) one in
        rw z (
          inr (
            w,
            ap (λ l. lookup t.eq t.lt k l) e
                ∙ lookup-place t.eq t.lt u.order k xs ((k, w) ∷ []) zs se place_k
                ∙ found,
            rw rest (
                take_at-Shrinks depth hs q k w (xs ++ zs) here
                  (Reads-remove (IsHandle t 0) hs q xs zs around) many few),
          ))
    at_bottom (path_at p) many r
          (q, at, (h, xs, ys, zs, e, here, around, (j, w, eh, ey), below, _, _, _), bottom) =
        let (_, x, y, here', above) = bottom refl in
        let z : p ≡ q = omega (arith, at) in
        let leaf_here : get_handle hs q ≡ some (leaf (j, w)) = here ∙ ap (λ x. some x) eh in
        let above' : t.lt k j ≡ true = cc (here', leaf_here, above) in
        let other = not_eq t.eq t.lt u.order k j above' in
        let whole : kvs ≡ xs ++ (j, w) ∷ zs = e ∙ ap (λ l. xs ++ (l ++ zs)) ey in
        let sw = subst (λ l. IsSorted t.lt l) whole s in
        let place_k : IsPlace t.eq t.lt u.order k xs ((j, w) ∷ []) zs =
          (below, inl (inl (u.order.asym k j above'))) in
        let one : erase t.eq t.lt k ((j, w) ∷ []) ≡ (j, w) ∷ [] = rw other refl in
        let missing : lookup t.eq t.lt k ((j, w) ∷ []) ≡ none = rw other refl in
        let same : erase t.eq t.lt k kvs ≡ kvs =
          ap (λ l. erase t.eq t.lt k l) whole
          ∙ erase-place t.eq t.lt u.order k xs ((j, w) ∷ []) zs sw place_k
          ∙ ap (λ l. xs ++ (l ++ zs)) one
          ∙ sym whole in
        selected_at 0 z (
          inl (
            ap (λ l. lookup t.eq t.lt k l) whole
                ∙ lookup-place t.eq t.lt u.order k xs ((j, w) ∷ []) zs sw place_k
                ∙ missing,
            rw (remove_selected, leaf_here) refl,
            rw (remove_selected, leaf_here, set_handle-same hs q (leaf (j, w)) leaf_here, same)
                (r, many, few),
          ))
    at_bottom no_result many r (below, _) =
        inl (lookup-past t k u kvs below, refl, rw (erase-past kvs below) (r, many, few))
