-- ===== src/Two3/Iteration.antt =====
-- The iterators of src/iter.rs and src/map.rs over a 2-3 tree.
use kelvin.Prelude.{
  ℕ, zero, suc, ◌+◌, ◌*◌, ◌<◌, ◌≤◌, List, ◌≡◌, refl, ap, ◌∙◌, sym, subst, arith, length,
  length-append,
}
use kelvin.Prelude.Outcome.{Outcome}
use kelvin.Handle.{Digest, Handle, Handles, nil, cons, children, count_handles, Node}
use kelvin.Nth.{first}
use kelvin.Iter.{calls, iter}
use kelvin.Iter.Walk.{
  Walk, walk_of, walk, rounds, walk_all, rounds_all, walk_handle, rounds_handle, under,
  rounds_under, walk-under, rounds-under, walk_of-append, walk-inner, rounds-inner,
}
use kelvin.Iter.Leaves.{answers, IsWhole, walk_of-IsWhole, iter-walk}
use kelvin.Two3.{Two3, Slot, Two3Tree}
use kelvin.Two3.Invariant.{IsUsable, Reads, IsHandle}
use kelvin.Two3.Trees.{IsTree}

module _ {L A X : Type 0} (load : Digest → Outcome (Node L A X))
    (P : Handle L A X → List L → Type 0) where
  walk_all-Reads :
      (below : Handles L A X → Walk L)
      → ((h : Handle L A X) (ls : List L) → P h ls → walk_handle load below h ≡ walk_of ls)
      → (hs : Handles L A X) (ls : List L) → Reads P hs ls
      → walk_all load below hs ≡ walk_of ls
  walk_all-Reads below each nil ls e = rw e refl
  walk_all-Reads below each (cons h hs) ls (xs, ys, e, p, r) =
      rw (e, each h xs p, walk_all-Reads below each hs ys r) (sym (walk_of-append xs ys))

  -- Two rounds for a node, which the handles below it save.
  rounds_all-Reads :
      (inside : Handles L A X → ℕ)
      → ((h : Handle L A X) (ls : List L)
          → P h ls
          → 2 + rounds_handle load inside h ≤ 2 * length ls)
      → (hs : Handles L A X) (ls : List L) → Reads P hs ls
      → 2 * count_handles hs + rounds_all load inside hs ≤ 2 * length ls
  rounds_all-Reads inside each nil ls e = omega arith
  rounds_all-Reads inside each (cons h hs) ls (xs, ys, e, p, r) =
      omega
        (arith, each h xs p, rounds_all-Reads inside each hs ys r, ap length e, length-append xs ys)

module _ {K V A : Type 0} (t : Two3 K V A) where
  walk-IsHandle :
      (ht : ℕ) (h : Slot K V A) (kvs : List (K × V))
      → IsHandle t ht h kvs
      → walk_handle t.load (under t.load ht) h ≡ walk_of kvs
  walk-IsHandle zero h kvs (k, v, e, f) = rw (e, f) refl
  walk-IsHandle (suc ht) h kvs (c, a, shows, _, _, r, _, _) =
      walk-inner t.load (walk t.load ht) h c shows
      ∙ walk-under t.load ht (children c)
      ∙ walk_all-Reads t.load (IsHandle t ht) (under t.load ht) (walk-IsHandle ht) (children c) kvs
          r

  rounds-IsHandle :
      (ht : ℕ) (h : Slot K V A) (kvs : List (K × V))
      → IsHandle t ht h kvs
      → 2 + rounds_handle t.load (rounds_under t.load ht) h ≤ 2 * length kvs
  rounds-IsHandle zero h kvs (k, v, e, f) = rw (e, f) (omega arith)
  rounds-IsHandle (suc ht) h kvs (c, a, shows, _, _, r, two, _) = omega (
    arith,
    rounds-inner t.load (rounds t.load ht) h c shows,
    rounds-under t.load ht (children c),
    rounds_all-Reads t.load (IsHandle t ht) (rounds_under t.load ht) (rounds-IsHandle ht)
        (children c) kvs r,
    two,
  )

  -- On a well-formed tree, with more fuel than twice its entries, any number of calls of `next` on a new
  -- iterator returns the entries in the order of their keys, or the part of them that is asked for, and
  -- then nothing.
  pub iter-entries :
      {P : Type 0} (u : IsUsable t) (part : K × V → P) (ht fuel count : ℕ) (n : Two3Tree K V A)
      (kvs : List (K × V))
      → IsTree t u ht n kvs
      → 2 * length kvs < fuel
      → calls t.load first fuel part count (iter n) ≡ answers part count (walk_of kvs)
  iter-entries u part ht fuel count n kvs ((r, _, _), s) p =
      let whole : walk t.load ht (children n) ≡ walk_of kvs =
        walk-under t.load ht (children n)
        ∙ walk_all-Reads t.load (IsHandle t ht) (under t.load ht) (walk-IsHandle ht) (children n)
            kvs r in
      let bound =
        rounds_all-Reads t.load (IsHandle t ht) (rounds_under t.load ht) (rounds-IsHandle ht)
          (children n) kvs r in
      iter-walk t.load part fuel ht n (subst IsWhole (sym whole) (walk_of-IsWhole kvs))
        (omega (arith, bound, p, rounds-under t.load ht (children n))) count
      ∙ ap (answers part count) whole
