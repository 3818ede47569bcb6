-- ===== src/Branch/Tests.antt =====
-- Runs of mutable branches and iterators, and the theorem about them at a concrete tree.
use kelvin.Prelude.{ℕ, ◌+◌, ◌*◌, none, some, [], ◌∷◌, ◌≡◌, refl, arith, if◌then◌else◌, ◌==◌}
use kelvin.Prelude.Outcome.{Outcome, ok, failed, not_found}
use kelvin.Annotation.{cardinality}
use kelvin.Annotation.Laws.{cardinality-IsAnnotation}
use kelvin.Handle.{Digest, Node, compound, nil, cons, empty, leaf, node, persisted, children}
use kelvin.Nth.{first, nth}
use kelvin.Iter.{branch_open}
use kelvin.Branch.{modify}
use kelvin.Branch.Iter.{update_all, iter_mut}
use kelvin.Iter.Walk.{walk, walk_of}
use kelvin.Branch.Maps.{update_all-map}
use kelvin.Branch.Writes.{IsModified, modify-IsModified}

abbrev Tree : Type 0
Tree = Node ℕ ℕ (Unit {0})

abbrev pair : ℕ → ℕ → Tree
pair i j = compound tt (cons (leaf i) (cons empty (cons (leaf j) nil)))

-- The store has one node, under the digest 7.
abbrev store : Digest → Outcome Tree
store [] = failed not_found
store (b ∷ d) = if b == 7 then ok (pair 5 6) else failed not_found

abbrev tree : Tree
tree = compound tt (
    cons empty
      (cons (node (pair 1 2) 2 (some (9 ∷ []))) (cons (leaf 3) (cons (persisted (7 ∷ []) 2) nil))))

-- The leaf with four before it is below the persisted node, which ends up in memory.
modify-run : modify cardinality store (nth cardinality (λ a. a)) 20 (λ l. l * 10) tree 4 ≡ (
  compound tt (
      cons empty (
        cons
          (node (pair 1 2) 2 (some (9 ∷ [])))
          (cons (leaf 3) (cons (node (pair 5 60) 2 none) nil)))),
  ok (some 6),
)
unfolding modify nth cardinality kelvin.Handle.handle_type kelvin.Handle.handle_annotation
    kelvin.Handle.inner kelvin.Handle.leaf_of kelvin.Handle.new_node kelvin.Handle.node_annotation
modify-run = refl

update_all-run :
    update_all cardinality store first 20 10 (λ l. l + 100) (iter_mut tree)
    ≡ ok (
        compound tt (
          cons empty (
            cons
              (node (pair 101 102) 2 none)
              (cons (leaf 103) (cons (node (pair 105 106) 2 none) nil)))))
unfolding update_all iter_mut first cardinality kelvin.Handle.handle_type
    kelvin.Handle.handle_annotation kelvin.Handle.inner kelvin.Handle.leaf_of kelvin.Handle.new_node
    kelvin.Handle.node_annotation
update_all-run = refl

modify-IsModified_example :
    IsModified cardinality store
      (nth cardinality (λ a. a))
      cardinality-IsAnnotation
      (λ l. l * 10)
      tree
      (modify cardinality store (nth cardinality (λ a. a)) 20 (λ l. l * 10) tree 4)
      (branch_open store (nth cardinality (λ a. a)) 20 tree 4)
modify-IsModified_example =
    modify-IsModified cardinality store (nth cardinality (λ a. a)) cardinality-IsAnnotation
      (λ l. l * 10) tree 20 4

update_all-map_example :
    (n : Tree) × (update_all cardinality store first 20 10 (λ l. l + 100) (iter_mut tree) ≡ ok n)
    × (walk store 1 (children n) ≡ walk_of (101 ∷ 102 ∷ 103 ∷ 105 ∷ 106 ∷ []))
unfolding walk kelvin.Iter.Walk.rounds
update_all-map_example =
    update_all-map cardinality store cardinality-IsAnnotation (λ l. l + 100) 20 1 10 tree
      (1 ∷ 2 ∷ 3 ∷ 5 ∷ 6 ∷ []) refl (omega arith) (omega arith)
