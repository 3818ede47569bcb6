-- ===== src/Iter/Tests.antt =====
-- Runs of the iterator, and the theorem about it at a concrete tree.
use kelvin.Prelude.{ℕ, none, some, [], ◌∷◌, ◌≡◌, refl, arith, if◌then◌else◌, ◌==◌}
use kelvin.Prelude.Outcome.{Outcome, ok, failed, not_found}
use kelvin.Annotation.{Void, void}
use kelvin.Handle.{Digest, Node, compound, nil, cons, empty, leaf, node, persisted, children}
use kelvin.Nth.{first}
use kelvin.Iter.{calls, iter}
use kelvin.Iter.Walk.{walk}
use kelvin.Iter.Leaves.{answers, iter-walk}

abbrev Tree : Type 0
Tree = Node ℕ Void (Unit {0})

abbrev pair : ℕ → ℕ → Tree
pair i j = compound tt (cons (leaf i) (cons empty (cons (leaf j) nil)))

-- The store has one node, under the digest 7.
abbrev store : Digest → Outcome Tree
store [] = failed not_found
store (b ∷ d) = if b == 7 then ok (pair 5 6) else failed not_found

abbrev healthy : Tree
healthy = compound tt (
    cons empty (
      cons (node (pair 1 2) void none)
        (cons (leaf 3) (cons (persisted (7 ∷ []) void) (cons empty nil)))))

-- The last handle is of a node that the store does not have.
abbrev broken : Tree
broken =
    compound tt
      (cons (leaf 3) (cons (persisted (7 ∷ []) void) (cons (persisted (8 ∷ []) void) nil)))

healthy-calls :
    calls store first 20 (λ l. l) 7 (iter healthy)
    ≡ ok (some 1) ∷ ok (some 2) ∷ ok (some 3) ∷ ok (some 5) ∷ ok (some 6) ∷ ok none ∷ ok none ∷ []
unfolding calls iter first kelvin.Iter.next_part kelvin.Handle.handle_type kelvin.Handle.inner
    kelvin.Handle.leaf_of
healthy-calls = refl

iter-walk_example :
    calls store first 20 (λ l. l) 6 (iter broken)
    ≡ answers (λ l. l) 6 (walk store 1 (children broken))
unfolding walk kelvin.Iter.Walk.rounds
iter-walk_example = iter-walk store (λ l. l) 20 1 broken tt (omega arith) 6

broken-answers :
    answers (λ l. l) 6 (walk store 1 (children broken))
    ≡ ok (some 3) ∷ ok (some 5) ∷ ok (some 6) ∷ failed not_found ∷ ok none ∷ ok none ∷ []
unfolding walk
broken-answers = refl
