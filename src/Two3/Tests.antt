-- ===== src/Two3/Tests.antt =====
-- Runs of the 2-3 tree, and the theorems about it at concrete trees.
--
-- The array is a list with the bounds of `ArrayVec`; the annotation is the greatest key.
use mathlib.Core.Option
use kelvin.Prelude.{
  ℕ, ◌≤◌, ◌≡◌, refl, Option, none, some, true, List, [], ◌∷◌, ◌==◌, ==_iff, ltb, leb, lt→ltb, arith,
  tests, if◌then◌else◌, ◌&&◌,
}
use kelvin.Prelude.Outcome.{Outcome, ok, panicked}
use kelvin.Annotation.{max_key, cardinality}
use kelvin.Annotation.Greatest.{IsGreatest, max_key-IsGreatest}
use kelvin.Annotation.Laws.{cardinality-IsAnnotation}
use kelvin.Two3.Annotated.{annotated, annotated-IsUsable}
use kelvin.Handle.{
  Digest, Handle, Handles, Node, compound, nil, cons, leaf, node, inner, handle_annotation,
  count_handles, get_handle,
}
use kelvin.Calls.{Op, insert_op, remove_op, get_op, replay}
use kelvin.Two3.{Two3, ArrayVec, Two3Tree, new, insert}
use kelvin.Two3.Removal.{remove}
use kelvin.Two3.Get.{get}
use kelvin.Two3.Entries.{IsOrder, lookup, put, erase}
use kelvin.Two3.Invariant.{IsVec, IsUsable, IsHandle, insert_handle, append_handle, remove_handle}
use kelvin.Two3.Trees.{IsTree, insert-put}
use kelvin.Two3.Erasure.{remove-erase}
use kelvin.Two3.Lookup.{get-lookup}
use kelvin.Two3.MaxKey.{max_key-greatest}
use kelvin.Two3.Map.{run, run-new-replay}
use kelvin.Two3.Iteration.{iter-entries}
use kelvin.Nth.{first}
use kelvin.Iter.{calls, iter}
use kelvin.Iter.Walk.{walk_of}
use kelvin.Iter.Leaves.{answers}

module _ {L A X : Type 0} where
  abbrev last_handle : Handles L A X → Option (Handle L A X × Handles L A X)
  last_handle nil = none
  last_handle (cons h nil) = some (h, nil)
  last_handle (cons h (cons g hs)) = Option.map (λ r. (r.0, cons h r.1)) (last_handle (cons g hs))

  abbrev taken : Option (Handle L A X) → Handles L A X → ℕ → Outcome (Handle L A X × Handles L A X)
  taken none hs i = panicked
  taken (some h) hs i = ok (h, remove_handle hs i)

abbrev array : {L A X : Type 0} → ArrayVec (Handle L A X) (Handles L A X)
array = record {
  insert = λ hs i h.
      if leb i (count_handles hs) && ltb (count_handles hs) 3
      then ok (insert_handle hs i h)
      else panicked;
  push = λ hs h. if ltb (count_handles hs) 3 then ok (append_handle hs h) else panicked;
  pop = last_handle;
  remove = λ hs i. taken (get_handle hs i) hs i;
}

last_handle-append :
    {L A X : Type 0} (hs : Handles L A X) (h : Handle L A X)
    → last_handle (append_handle hs h) ≡ some (h, hs)
last_handle-append nil h = refl
last_handle-append (cons g nil) h = refl
last_handle-append (cons g (cons f hs)) h = rw (last_handle-append (cons f hs) h) refl

array-IsVec : {L A X : Type 0} → IsVec (array {L = L} {A = A} {X = X})
array-IsVec = record {
  insert_lem = λ hs i h p q. rw (le→leb i (count_handles hs) p, lt→ltb (count_handles hs) 3 q) refl;
  push_lem = λ hs h p. rw (lt→ltb (count_handles hs) 3 p) refl;
  pop_lem = last_handle-append;
  remove_lem = λ hs i h e. rw e refl;
}
  where
    le→leb : (a b : ℕ) → a ≤ b → leb a b ≡ true
    le→leb a b p = ground arith

numbers-IsOrder : IsOrder ◌==◌ ltb
numbers-IsOrder = record {
  eq_iff = ==_iff;
  asym = λ a b p. grind (arith, tests);
  trans = λ a b c p q. grind (arith, tests);
  total = λ a b p q. grind (arith, tests);
}

abbrev small : Two3 ℕ ℕ ℕ
small = record {
  eq = ◌==◌;
  lt = ltb;
  annotation = max_key ltb (λ l. l.0);
  max_key = λ a. a;
  load = λ h. panicked;
  vec = array;
  fuel = 30;
}

usable : IsUsable small
unfolding max_key
usable = record {
  order = numbers-IsOrder;
  vec = array-IsVec;
  leaf_key = λ k v. refl;
  combine_greatest =
      λ rest b less. (b, max_key-greatest {L = ℕ × ℕ} ltb (λ l. l.0) rest b less, refl);
}

-- Splits up to a second level, and merges back.
abbrev requests : List (Op ℕ ℕ)
requests =
    insert_op 5 50
    ∷ insert_op 3 30
    ∷ insert_op 8 80
    ∷ insert_op 4 40
    ∷ insert_op 9 90
    ∷ insert_op 3 31
    ∷ get_op 9
    ∷ remove_op 4
    ∷ remove_op 3
    ∷ get_op 3
    ∷ get_op 5
    ∷ []

requests-run :
    run small requests (new small)
    ≡ ok (
        none
        ∷ none
        ∷ none
        ∷ none
        ∷ none
        ∷ some 30
        ∷ some 90
        ∷ some 40
        ∷ some 31
        ∷ none
        ∷ some 50
        ∷ [])
unfolding run new insert remove get max_key kelvin.Handle.inner_mut kelvin.Handle.new_leaf
    kelvin.Handle.new_node kelvin.Search.branch_new kelvin.Handle.leaf_of kelvin.Handle.inner
    kelvin.Handle.drop_mut kelvin.Handle.new_empty kelvin.Handle.into_leaf kelvin.Handle.into_node
    kelvin.Handle.handle_type
requests-run = refl

run-new-replay_example : run small requests (new small) ≡ ok (replay ◌==◌ requests (λ j. none))
run-new-replay_example = run-new-replay small usable requests (omega arith)

-- Two nodes of two leaves below the root.
abbrev entries : List (ℕ × ℕ)
entries = (3, 30) ∷ (5, 50) ∷ (8, 80) ∷ (9, 90) ∷ []

abbrev pair_node : ℕ → ℕ → ℕ → ℕ → Two3Tree ℕ ℕ ℕ
pair_node i x j y = compound tt (cons (leaf (i, x)) (cons (leaf (j, y)) nil))

abbrev tree : Two3Tree ℕ ℕ ℕ
tree =
    compound tt
      (cons (node (pair_node 3 30 5 50) 5 none) (cons (node (pair_node 8 80 9 90) 9 none) nil))

pair_node-IsHandle :
    (i x j y : ℕ) → IsHandle small 1 (node (pair_node i x j y) j none) ((i, x) ∷ (j, y) ∷ [])
unfolding inner handle_annotation
pair_node-IsHandle i x j y = (
  pair_node i x j y,
  j,
  refl,
  refl,
  refl,
  (
    (i, x) ∷ [],
    (j, y) ∷ [],
    refl,
    (i, x, refl, refl),
    ((j, y) ∷ [], [], refl, (j, y, refl, refl), refl),
  ),
  omega arith,
  omega arith,
)

tree-IsTree : IsTree small usable 1 tree entries
tree-IsTree = (
  (
    (
      (3, 30) ∷ (5, 50) ∷ [],
      (8, 80) ∷ (9, 90) ∷ [],
      refl,
      pair_node-IsHandle 3 30 5 50,
      ((8, 80) ∷ (9, 90) ∷ [], [], refl, pair_node-IsHandle 8 80 9 90, refl),
    ),
    omega arith,
    omega arith,
  ),
  ((refl, (refl, (refl, tt))), ((refl, (refl, tt)), ((refl, tt), (tt, tt)))),
)

insert-put_example :
    ((insert small 4 40 tree).1 ≡ ok (lookup ◌==◌ ltb 4 entries))
    × (ht : ℕ) × IsTree small usable ht (insert small 4 40 tree).0 (put ◌==◌ ltb 4 40 entries)
    × (ht ≤ 2)
insert-put_example = insert-put small usable 4 40 1 tree entries tree-IsTree (omega arith)

-- The child that is left with one leaf takes both of the one after it.
remove-erase_example :
    ((remove small 3 tree).1 ≡ ok (lookup ◌==◌ ltb 3 entries))
    × (ht : ℕ) × IsTree small usable ht (remove small 3 tree).0 (erase ◌==◌ ltb 3 entries)
    × (ht ≤ 1)
remove-erase_example = remove-erase small usable 3 1 tree entries tree-IsTree (omega arith)

get-lookup_example : get small 8 tree ≡ ok (lookup ◌==◌ ltb 8 entries)
get-lookup_example = get-lookup small 8 usable 1 tree entries tree-IsTree (omega arith)

-- The greatest key stands in the middle, behind an empty child.
max_key-IsGreatest_example :
    IsGreatest ltb
      (some 3 ∷ none ∷ some 8 ∷ some 5 ∷ [])
      ((max_key ltb (λ l. l)).combine (some 3 ∷ none ∷ some 8 ∷ some 5 ∷ []))
max_key-IsGreatest_example =
    max_key-IsGreatest ltb (λ l. l) ◌==◌ numbers-IsOrder (some 3 ∷ none ∷ some 8 ∷ some 5 ∷ [])

-- The values of the tree, with a call past the last.
iter-entries_example :
    calls small.load first 20 (λ kv. kv.1) 5 (iter tree) ≡ answers (λ kv. kv.1) 5 (walk_of entries)
iter-entries_example =
    iter-entries small usable (λ kv. kv.1) 1 20 5 tree entries tree-IsTree (omega arith)

-- The tree that the model test runs on: the greatest key with the number of leaves.
annotated-IsUsable_example :
    IsUsable (annotated {V = ℕ} ◌==◌ ltb cardinality (λ h. panicked) array 30)
annotated-IsUsable_example =
    annotated-IsUsable ◌==◌ ltb cardinality (λ h. panicked) array 30 numbers-IsOrder array-IsVec
      cardinality-IsAnnotation
