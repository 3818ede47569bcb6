-- ===== src/Branch/Iter.antt =====
-- src/iter.rs and src/map.rs: the iterators through which leaves and values are written.
--
-- `finished` keeps the node that the iterator has left in the borrowed place.
use kelvin.Prelude.{ℕ, zero, suc, Option, none, some, List, Bool}
use kelvin.Prelude.Outcome.{Outcome, ok, failed, panicked, exhausted, ◌>>=◌}
use kelvin.Annotation.{Annotation}
use kelvin.Handle.{Digest, Node}
use kelvin.Search.{Method}
use kelvin.Branch.{
  RefLevel, BranchMut, advance, branch_leaf, deref_mut, drop_branch, search_from, branch_mut_new,
}

-- `LeafIterMut`; a branch is into the node beside it.
pub data LeafIterMut (N S : Type 0) : Type 0 where
  initial : N → S → LeafIterMut N S
  branch : N → BranchMut N → S → LeafIterMut N S
  finished : N → LeafIterMut N S

module _ {L A X S : Type 0} (ann : Annotation L A) (load : Digest → Outcome (Node L A X))
    (m : Method (Node L A X) S) (fuel : ℕ) where
  -- The borrowed place after a branch into `n` was dropped, and what `next` returns.
  unfoldable pub closed :
      {R : Type 0}
      → Node L A X
      → List (RefLevel (Node L A X))
      → Outcome R
      → LeafIterMut (Node L A X) S × Outcome R
  unfolding drop_branch
  closed n levels o = elim (drop_branch ann n levels) [
    | ok n' ↦ (finished n', o)
    | failed e ↦ (finished n, failed e)
    | panicked ↦ (finished n, panicked)
    | exhausted ↦ (finished n, exhausted)
  ]

  -- `BranchMut::search` in `next`: the branch is dropped where it finds no leaf, and on an error.
  unfoldable pub resumed :
      Node L A X
      → List (RefLevel (Node L A X)) × Outcome (Bool × S)
      → LeafIterMut (Node L A X) S × Outcome (Option L)
  unfolding closed branch_leaf
  resumed n (levels, ok (exact, s)) =
      elim (branch_leaf (record { levels = levels; exact = exact })) [
        | some l ↦ (branch n (record { levels = levels; exact = exact }) s, ok (some l))
        | none ↦ closed n levels (ok none)
      ]
  resumed n (levels, failed e) = closed n levels (failed e)
  resumed n (levels, panicked) = closed n levels panicked
  resumed n (levels, exhausted) = closed n levels exhausted

  -- What is left of `BranchMut::new` in `next`.
  unfoldable pub started :
      Node L A X × Outcome (Option (BranchMut (Node L A X) × L) × S)
      → LeafIterMut (Node L A X) S × Outcome (Option L)
  started (n, ok (some (b, l), s)) = (branch n b s, ok (some l))
  started (n, ok (none, s)) = (finished n, ok none)
  started (n, failed e) = (finished n, failed e)
  started (n, panicked) = (finished n, panicked)
  started (n, exhausted) = (finished n, exhausted)

  -- `LeafIterMut::next`, and `ValIterMut::next`, whose value is a part of the leaf.
  unfoldable pub next_mut :
      LeafIterMut (Node L A X) S → LeafIterMut (Node L A X) S × Outcome (Option L)
  unfolding started branch_mut_new resumed search_from advance
  next_mut (initial n s) = started (branch_mut_new ann load m fuel n s)
  next_mut (branch n b s) = resumed n (search_from ann load m fuel (advance b.levels) s)
  next_mut (finished n) = (finished n, ok none)

  -- A write through the reference that `next` has returned.
  unfoldable pub assign :
      (L → L) → LeafIterMut (Node L A X) S → Outcome (LeafIterMut (Node L A X) S)
  unfolding deref_mut
  assign f (branch n b s) = deref_mut f b >>= λ b'. ok (branch n b' s)
  assign f (initial n s) = panicked
  assign f (finished n) = panicked

  -- The iterator is dropped.
  unfoldable pub drop_iter : LeafIterMut (Node L A X) S → Outcome (Node L A X)
  unfolding drop_branch
  drop_iter (initial n s) = ok n
  drop_iter (branch n b s) = drop_branch ann n b.levels
  drop_iter (finished n) = ok n

  -- `for leaf in iter { *leaf? = f(leaf) }`: a round is a call of `next` and a write.
  unfoldable pub for_each :
      (LeafIterMut (Node L A X) S → Outcome (Node L A X))
      → (L → L)
      → LeafIterMut (Node L A X) S × Outcome (Option L)
      → Outcome (Node L A X)
  unfolding assign drop_iter
  for_each rest f (it, ok (some l)) = assign f it >>= rest
  for_each rest f (it, ok none) = drop_iter it
  for_each rest f (it, failed e) = failed e
  for_each rest f (it, panicked) = panicked
  for_each rest f (it, exhausted) = exhausted

  unfoldable pub update_all : ℕ → (L → L) → LeafIterMut (Node L A X) S → Outcome (Node L A X)
  unfolding next_mut for_each
  update_all zero f it = exhausted
  update_all (suc count) f it = for_each (update_all count f) f (next_mut it)

module _ {L A X : Type 0} where
  -- `LeafIterable::iter_mut`
  unfoldable pub iter_mut : Node L A X → LeafIterMut (Node L A X) (Unit {0})
  iter_mut n = initial n tt

  -- `ValIterable::values_mut`
  unfoldable pub values_mut : Node L A X → LeafIterMut (Node L A X) (Unit {0})
  unfolding iter_mut
  values_mut n = iter_mut n
