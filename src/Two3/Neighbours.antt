-- ===== src/Two3/Neighbours.antt =====
-- The merge of a node that is left with a single handle into the one beside it.
use kelvin.Prelude.{
  ℕ, zero, suc, ◌<◌, some, List, [], ◌++◌, ◌≡◌, ◌≢◌, refl, sym, ap, ◌∙◌, subst, append_assoc,
  append-nil, arith,
}
use kelvin.Handle.{
  Handle, Handles, compound, nil, cons, count_handles, set_handle, get_handle, drop_mut,
}
use kelvin.Handle.Laws.{count_handles-set, get_handle-set_ne, into_node-drop_mut}
use kelvin.Two3.{Two3, Slot, Slots}
use kelvin.Two3.Removal.{finish_merge}
use kelvin.Two3.Entries.{IsSorted, IsSorted-append}
use kelvin.Two3.Invariant.{IsUsable, remove_handle, Reads, IsHandle}
use kelvin.Two3.Greatest.{drop_mut-IsHandle}
use kelvin.Two3.Merges.{AroundTwo, Reads-set_two, Reads-keep_left, IsShared, IsTaken}
use kelvin.Two3.Removes.{Shrinks, finish-taken, finish-shared}

-- A handle and one neighbour alone.
keep_left-alone :
    {L A X E : Type 0} (P : Handle L A X → List E → Type 0) (hs : Handles L A X) (i : ℕ)
    (g : Handle L A X) (xs zs : List E)
    → AroundTwo P hs i xs zs
    → count_handles hs ≡ 2
    → (remove_handle (set_handle hs i g) (suc i) ≡ cons g nil) × (xs ≡ []) × (zs ≡ [])
keep_left-alone P nil i g xs zs w c = absurd w
keep_left-alone P (cons a nil) zero g xs zs w c = absurd w
keep_left-alone P (cons a (cons b nil)) zero g xs zs (e, r) c = (refl, e, r)
keep_left-alone P (cons a (cons b (cons d hs))) zero g xs zs (e, r) c = absurd (omega (arith, c))
keep_left-alone P (cons a nil) (suc i) g xs zs (x, xs', e, p, w) c = absurd w
keep_left-alone P (cons a (cons b nil)) (suc zero) g xs zs (x, xs', e, p, w) c = absurd w
keep_left-alone P (cons a (cons b nil)) (suc (suc i)) g xs zs (x, xs', e, p, (_, _, _, _, w)) c =
    absurd w
keep_left-alone P (cons a (cons b (cons d hs))) (suc i) g xs zs w c = absurd (omega (arith, c))

no_handles : {L A X : Type 0} (hs : Handles L A X) → count_handles hs ≡ 0 → hs ≡ nil
no_handles nil e = refl
no_handles (cons h hs) e = absurd (omega (arith, e))

not_next : (i : ℕ) → i ≢ suc i
not_next i e = absurd (omega (arith, e))

module _ {K V A : Type 0} (t : Two3 K V A) (u : IsUsable t) (depth ht : ℕ) (j : K) (w : V) where
  -- What is left to do once the neighbour at `n` was changed: `i` is the place of the child.
  abbrev pub Finishes : Slots K V A → ℕ → ℕ → A → List (K × V) → Slots K V A → Slots K V A → Type 0
  Finishes hs n i a rest to_merge neighbour =
      Shrinks t u depth (suc ht) w rest
        (finish_merge t depth
          (compound tt (set_handle hs n (drop_mut t.annotation (compound tt neighbour) a))) i (j, w)
          to_merge).0
        (finish_merge t depth
          (compound tt (set_handle hs n (drop_mut t.annotation (compound tt neighbour) a))) i (j, w)
          to_merge).1

  module _ (rest ws ls zs : List (K × V)) (whole : rest ≡ ws ++ (ls ++ zs))
      (s : IsSorted t.lt rest) where
    pub IsSorted-middle : IsSorted t.lt ls
    IsSorted-middle =
        let (_, s₁, _) =
          IsSorted-append t.lt ws (ls ++ zs) (subst (λ l. IsSorted t.lt l) whole s) in
        (IsSorted-append t.lt ls zs s₁).0

    module _ (hs : Slots K V A) (i : ℕ) (a : A) (to_merge neighbour : Slots K V A)
        (many : 1 < count_handles hs) (few : count_handles hs < 4) where
      pub prev-taken :
          (e : Slot K V A)
          → get_handle hs (suc i) ≡ some e
          → AroundTwo (IsHandle t (suc ht)) hs i ws zs
          → IsTaken t u (IsHandle t ht) to_merge neighbour ls
          → Finishes hs i (suc i) a rest to_merge neighbour
      prev-taken e there around (none_left, r, size) =
          let g = drop_mut t.annotation (compound tt neighbour) a in
          let pg =
            drop_mut-IsHandle t u ht neighbour ls a r IsSorted-middle (omega (arith, size))
              (omega (arith, size)) in
          let same : count_handles (set_handle hs i g) ≡ count_handles hs =
            count_handles-set hs i g in
          rw none_left (
            finish-taken t u depth ht j w (set_handle hs i g) (suc i) rest e
              (get_handle-set_ne hs i (suc i) g (not_next i) ∙ there) (omega (arith, same, many))
              (omega (arith, same, few))
              (rw whole (Reads-keep_left (IsHandle t (suc ht)) g ls hs i ws zs around pg))
              (λ two.
                let (alone, no_ws, no_zs) =
                  keep_left-alone (IsHandle t (suc ht)) hs i g ws zs around (sym same ∙ two) in
                let only : rest ≡ ls =
                  whole
                  ∙ ap (λ l. l ++ (ls ++ zs)) no_ws
                  ∙ ap (λ l. ls ++ l) no_zs
                  ∙ append-nil ls in
                (
                  g,
                  compound tt neighbour,
                  alone,
                  into_node-drop_mut t.annotation t.load (compound tt neighbour) a,
                  (rw only r, omega (arith, size), omega (arith, size)),
                )))

      pub prev-shared :
          AroundTwo (IsHandle t (suc ht)) hs i ws zs
          → IsShared t u (IsHandle t ht) to_merge neighbour to_merge ls
          → Finishes hs i (suc i) a rest to_merge neighbour
      prev-shared around (xs, ys, e, r, r', size, size') =
          let g = drop_mut t.annotation (compound tt neighbour) a in
          let (sx, sy, _) =
            IsSorted-append t.lt xs ys (subst (λ l. IsSorted t.lt l) e IsSorted-middle) in
          let pg =
            drop_mut-IsHandle t u ht neighbour xs a r sx (omega (arith, size))
              (omega (arith, size)) in
          let same : count_handles (set_handle hs i g) ≡ count_handles hs =
            count_handles-set hs i g in
          let parts : rest ≡ ws ++ (xs ++ (ys ++ zs)) =
            whole ∙ ap (λ l. ws ++ l) (ap (λ l. l ++ zs) e ∙ append_assoc xs ys zs) in
          finish-shared t u depth ht j w (set_handle hs i g) (suc i) rest to_merge ys
            (omega (arith, same, many)) (omega (arith, same, few)) size' sy r'
            (λ h ph.
              rw parts (Reads-set_two (IsHandle t (suc ht)) g h xs ys hs i ws zs around pg ph))

    module _ (x₀ y₀ : Slot K V A) (tl : Slots K V A) (a : A) (to_merge neighbour : Slots K V A)
        (few : count_handles (cons x₀ (cons y₀ tl)) < 4) (first : ws ≡ [])
        (after : Reads (IsHandle t (suc ht)) tl zs) where
      only_middle : rest ≡ ls ++ zs
      only_middle = whole ∙ ap (λ l. l ++ (ls ++ zs)) first

      pub next-taken :
          IsTaken t u (IsHandle t ht) to_merge neighbour ls
          → Finishes (cons x₀ (cons y₀ tl)) 1 0 a rest to_merge neighbour
      next-taken (none_left, r, size) =
          let g = drop_mut t.annotation (compound tt neighbour) a in
          let pg =
            drop_mut-IsHandle t u ht neighbour ls a r IsSorted-middle (omega (arith, size))
              (omega (arith, size)) in
          rw none_left (
            finish-taken t u depth ht j w (cons x₀ (cons g tl)) 0 rest x₀ refl (omega arith) few
              (ls, zs, only_middle, pg, after)
              (λ two.
                let no_tl = no_handles tl (omega (arith, two)) in
                let no_zs : zs ≡ [] = subst (λ l. Reads (IsHandle t (suc ht)) l zs) no_tl after in
                let only : rest ≡ ls = only_middle ∙ ap (λ l. ls ++ l) no_zs ∙ append-nil ls in
                (
                  g,
                  compound tt neighbour,
                  ap (cons g) no_tl,
                  into_node-drop_mut t.annotation t.load (compound tt neighbour) a,
                  (rw only r, omega (arith, size), omega (arith, size)),
                )))

      pub next-shared :
          IsShared t u (IsHandle t ht) to_merge to_merge neighbour ls
          → Finishes (cons x₀ (cons y₀ tl)) 1 0 a rest to_merge neighbour
      next-shared (xs, ys, e, r, r', size, size') =
          let g = drop_mut t.annotation (compound tt neighbour) a in
          let (sx, sy, _) =
            IsSorted-append t.lt xs ys (subst (λ l. IsSorted t.lt l) e IsSorted-middle) in
          let pg =
            drop_mut-IsHandle t u ht neighbour ys a r' sy (omega (arith, size'))
              (omega (arith, size')) in
          let parts : rest ≡ xs ++ (ys ++ zs) =
            only_middle ∙ ap (λ l. l ++ zs) e ∙ append_assoc xs ys zs in
          finish-shared t u depth ht j w (cons x₀ (cons g tl)) 0 rest to_merge xs (omega arith) few
            size sx r (λ h ph. (xs, ys ++ zs, parts, ph, (ys, zs, refl, pg, after)))
