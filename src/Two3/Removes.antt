-- ===== src/Two3/Removes.antt =====
-- A removal, in the node above the one that was left with a single handle.
use kelvin.Prelude.{
  ℕ, zero, suc, ◌<◌, some, ltb, lt→ltb, tests, List, ◌≡◌, refl, ap, ◌⊎◌, inl, inr, Bool-cases,
  arith,
}
use kelvin.Prelude.Outcome.{Outcome, ok, failed, panicked, exhausted}
use kelvin.Handle.{
  Handle, Handles, compound, nil, cons, children, count_handles, set_handle, get_handle, into_node,
}
use kelvin.Handle.Laws.{count_handles-set}
use kelvin.Two3.{Two3, Slot, Slots, Two3Tree, RemoveResult, noop, removed, merge}
use kelvin.Two3.Removal.{finish_merge, swap_back, drop_emptied, lowered, replace_root}
use kelvin.Two3.Entries.{IsSorted}
use kelvin.Two3.Invariant.{IsUsable, remove_handle, Reads, IsHandle, IsNode}
use kelvin.Two3.Greatest.{new_node-IsHandle}
use kelvin.Two3.Place.{Holds}

-- The fewest handles of a node; only a root at the bottom may have fewer than two.
abbrev pub low : ℕ → ℕ → ℕ
low (suc ht) depth = 2
low zero zero = 0
low zero (suc depth) = 2

pub count_handles-remove :
    {L A X : Type 0} (hs : Handles L A X) (i : ℕ) (h : Handle L A X)
    → get_handle hs i ≡ some h
    → suc (count_handles (remove_handle hs i)) ≡ count_handles hs
count_handles-remove nil i h e = absurd (cc)
count_handles-remove (cons g hs) zero h e = refl
count_handles-remove (cons g hs) (suc i) h e = ap suc (count_handles-remove hs i h e)

module _ {K V A : Type 0} (t : Two3 K V A) (u : IsUsable t) where
  -- After a removal: the node holds what is left, a root may have become one lower, and another node
  -- may be left with one handle.
  abbrev pub Shrinks :
      ℕ → ℕ → V → List (K × V) → Two3Tree K V A → Outcome (RemoveResult (K × V)) → Type 0
  Shrinks depth ht w rest n (ok noop) = ⊥
  Shrinks depth ht w rest n (ok (removed (j, x))) =
      (x ≡ w)
      × (Holds t u (low ht depth) ht n rest
          ⊎ ((depth ≡ 0) × (ht' : ℕ) × (ht ≡ suc ht') × Holds t u 2 ht' n rest))
  Shrinks depth ht w rest n (ok (merge (j, x))) =
      (depth ≡ 0 → ⊥) × (x ≡ w) × IsNode t ht n rest × (count_handles (children n) ≡ 1)
  Shrinks depth ht w rest n (failed e) = ⊥
  Shrinks depth ht w rest n panicked = ⊥
  Shrinks depth ht w rest n exhausted = ⊥

  module _ (depth ht : ℕ) (j : K) (w : V) (hs : Slots K V A) (i : ℕ) (rest : List (K × V)) where
    -- The node that gave all its handles away is dropped, and a root with it.
    pub finish-taken :
        (e : Slot K V A)
        → get_handle hs i ≡ some e
        → 1 < count_handles hs
        → count_handles hs < 4
        → Reads (IsHandle t (suc ht)) (remove_handle hs i) rest
        → (count_handles hs ≡ 2
            → (h : Slot K V A) × (c : Two3Tree K V A) × (remove_handle hs i ≡ cons h nil)
              × (into_node h ≡ ok c)
              × Holds t u 2 ht c rest)
        → Shrinks depth
            (suc ht)
            w
            rest
            (finish_merge t depth (compound tt hs) i (j, w) nil).0
            (finish_merge t depth (compound tt hs) i (j, w) nil).1
    unfolding finish_merge drop_emptied lowered replace_root
    finish-taken e here two four r alone =
        let less = count_handles-remove hs i e here in
        elim (Bool-cases (ltb (count_handles (remove_handle hs i)) 2)) [
          | inl under ↦
              let one : count_handles hs ≡ 2 = grind (arith, tests) in
              let (h, c, eh, node_c, holds) = alone one in
              rw (finish_merge, u.vec.remove_lem hs i e here, under)
                (by_depth depth h c eh node_c holds r)
          | inr enough ↦
              rw (finish_merge, u.vec.remove_lem hs i e here, enough)
                (refl, inl (r, grind (arith, tests), omega (arith, four, less)))
        ]
      where
        by_depth :
            (d : ℕ) (h : Slot K V A) (c : Two3Tree K V A)
            → remove_handle hs i ≡ cons h nil
            → into_node h ≡ ok c
            → Holds t u 2 ht c rest
            → Reads (IsHandle t (suc ht)) (remove_handle hs i) rest
            → Shrinks d
                (suc ht)
                w
                rest
                (lowered t d (compound tt (remove_handle hs i)) (j, w)).0
                (lowered t d (compound tt (remove_handle hs i)) (j, w)).1
        by_depth zero h c eh node_c holds r = rw (eh, node_c) (refl, inr (refl, ht, refl, holds))
        by_depth (suc d) h c eh node_c holds r = (λ z. absurd (cc), refl, r, ap count_handles eh)

    -- The child goes back with two handles.
    pub finish-shared :
        (hs' : Slots K V A) (qs : List (K × V))
        → 1 < count_handles hs
        → count_handles hs < 4
        → count_handles hs' ≡ 2
        → IsSorted t.lt qs
        → Reads (IsHandle t ht) hs' qs
        → ((h : Slot K V A)
            → IsHandle t (suc ht) h qs
            → Reads (IsHandle t (suc ht)) (set_handle hs i h) rest)
        → Shrinks depth
            (suc ht)
            w
            rest
            (finish_merge t depth (compound tt hs) i (j, w) hs').0
            (finish_merge t depth (compound tt hs) i (j, w) hs').1
    unfolding finish_merge swap_back
    finish-shared hs' qs two four size s r put_back =
        let (h, eh, ph) =
          new_node-IsHandle t u ht hs' qs r s (omega (arith, size)) (omega (arith, size)) in
        let same : count_handles (set_handle hs i h) ≡ count_handles hs =
          count_handles-set hs i h in
        rw (finish_merge, lt→ltb 0 (count_handles hs') (omega (arith, size)), eh)
          (refl, inl (put_back h ph, omega (arith, same, two), omega (arith, same, four)))
