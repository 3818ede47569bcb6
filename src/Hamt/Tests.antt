-- ===== src/Hamt/Tests.antt =====
-- Runs of the trie, and the theorems about it at concrete tries.
--
-- A key is a number, and its digest two bytes, so that few levels are deep enough to try a split.
use Prim.Native.Nat.{bit_and}
use mathlib.Core.Option
use kelvin.Prelude.{
  get_elem?, ℕ, ◌/◌, ◌%◌, ◌≡◌, refl, Option, none, some, List, [], ◌∷◌, ◌==◌, ==_iff, arith, ◌⊎◌,
  inl, inr,
}
use kelvin.Prelude.Outcome.{Outcome, ok}
use kelvin.Annotation.{cardinality}
use kelvin.Handle.{Digest, Node, compound, nil, children}
use kelvin.Nth.{first}
use kelvin.Iter.{iter}
use kelvin.Iter.Walk.{walk_of, rounds}
use kelvin.Iter.Leaves.{answers}
use kelvin.Hamt.Entries.{IsOnce, lookup}
use kelvin.Hamt.Listed.{iter-Shows}
use kelvin.Hamt.{
  Trie, Hamt, collapse, new, insert, remove, sub_insert, sub_remove, select_slot_wide,
  select_slot_narrow,
}
use kelvin.Calls.{Op, insert_op, remove_op, get_op, replay, update}
use kelvin.Hamt.Map.{
  run, AreApart, run-new_refines, new-Shows, insert_refines, remove_refines, Shows, IsMap,
}
use kelvin.Hamt.Total.{IsUsable}
use kelvin.Hamt.Search.{get-find}
use kelvin.Hamt.Get.{get, find}
use kelvin.Hamt.Invariant.{IsTrie, IsLawful}
use kelvin.Hamt.Keeps.{sub_insert-IsTrie}
use kelvin.Hamt.KeepsRemove.{Keeps, sub_remove-Keeps}
use kelvin.Hamt.Total.{sub_insert-Succeeds, Succeeds}
use kelvin.Hamt.TotalRemove.{sub_remove-Succeeds}
use kelvin.Hamt.Root.{sub_remove-root}
use kelvin.Annotation.Laws.{cardinality-IsAnnotation}
use kelvin.Hamt.Widths.{
  wide, narrow, IsHash, wide-IsLawful, narrow-IsLawful, select_slot_narrow-low_bits,
  select_slot_wide_repeats,
}

abbrev digest : ℕ → Digest
digest k = (k % 256) ∷ (k / 256 % 256) ∷ []

-- A store with an empty node under every digest.
abbrev store : Digest → Outcome (Node (ℕ × ℕ) ℕ (Unit {0}))
store h = ok (compound tt nil)

abbrev small : Trie ℕ ℕ ℕ
small = wide ◌==◌ digest cardinality store 2

-- 1 and 257 share the slots of their first bytes.
abbrev calls : List (Op ℕ ℕ)
calls =
    insert_op 1 10
    ∷ insert_op 257 20
    ∷ get_op 1
    ∷ insert_op 1 11
    ∷ remove_op 257
    ∷ get_op 257
    ∷ get_op 1
    ∷ []

calls-run :
    run small calls (new small)
    ≡ ok (none ∷ none ∷ some 10 ∷ some 10 ∷ some 20 ∷ none ∷ some 11 ∷ [])
unfolding run new insert remove kelvin.Hamt.Get.get cardinality select_slot_wide
    kelvin.Handle.inner_mut kelvin.Handle.new_leaf kelvin.Handle.new_node kelvin.Search.branch_new
    kelvin.Handle.leaf_of kelvin.Handle.inner kelvin.Handle.drop_mut kelvin.Handle.new_empty
    kelvin.Handle.into_leaf
calls-run = refl

digest-IsHash : IsHash ◌==◌ digest 2
digest-IsHash = record { eq_iff = ==_iff; length_lem = λ k. refl; bytes = λ k. omega arith }

abbrev usable : IsUsable small
usable = record {
  lawful = wide-IsLawful ◌==◌ digest cardinality store 2 digest-IsHash;
  annotation_law = cardinality-IsAnnotation;
  loads = λ h. (compound tt nil, refl);
  wide = omega arith;
  deep = omega arith;
}

abbrev Keys : ℕ → Type 0
Keys k = (k ≡ 1) ⊎ (k ≡ 257)

Keys-AreApart : AreApart small usable Keys
unfolding select_slot_wide
Keys-AreApart j k (inl p) (inl q) e = absurd (ground arith)
Keys-AreApart j k (inl p) (inr q) e = rw (p, q) (2, omega arith, omega arith, λ h. cc)
Keys-AreApart j k (inr p) (inl q) e = rw (p, q) (2, omega arith, omega arith, λ h. cc)
Keys-AreApart j k (inr p) (inr q) e = absurd (ground arith)

run-new_refines_example : run small calls (new small) ≡ ok (replay small.eq calls (λ j. none))
run-new_refines_example =
    run-new_refines small usable Keys calls Keys-AreApart
      (inl refl, (inr refl, (inl refl, (inl refl, (inr refl, (inr refl, (inl refl, tt)))))))

new-Shows_example : IsMap small Keys (new small) × Shows small (new small) (λ j. none)
new-Shows_example = new-Shows small usable Keys

-- The trie after one insertion, which the other examples start from.
abbrev bound : ℕ → Option ℕ
bound = update small.eq (λ j. none) 1 (some 10)

abbrev one : Hamt ℕ ℕ ℕ
one = (insert small 1 10 (new small)).0

insert_refines_example :
    ((insert small 1 10 (new small)).1 ≡ ok none) × IsMap small Keys one × Shows small one bound
insert_refines_example =
    insert_refines small usable Keys (new small) (λ j. none) 1 10 Keys-AreApart (inl refl)
      (new-Shows small usable Keys).0 (new-Shows small usable Keys).1

second_insertion :
    ((insert small 257 20 one).1 ≡ ok (bound 257))
    × IsMap small Keys (insert small 257 20 one).0
    × Shows small (insert small 257 20 one).0 (update small.eq bound 257 (some 20))
second_insertion =
    insert_refines small usable Keys one bound 257 20 Keys-AreApart (inr refl)
      insert_refines_example.1 insert_refines_example.2

-- Both keys, one level further down than the slot they share.
abbrev two : Hamt ℕ ℕ ℕ
two = (insert small 257 20 one).0

remove_refines_example :
    ((remove small 257 two).1 ≡ ok (update small.eq bound 257 (some 20) 257))
    × IsMap small Keys (remove small 257 two).0
    × Shows small
        (remove small 257 two).0
        (update small.eq (update small.eq bound 257 (some 20)) 257 none)
remove_refines_example =
    remove_refines small usable Keys two (update small.eq bound 257 (some 20)) 257
      second_insertion.1 second_insertion.2

two-rounds : rounds small.load small.fuel (children two) ≡ 4
unfolding rounds new insert cardinality select_slot_wide kelvin.Handle.inner_mut
    kelvin.Handle.new_leaf kelvin.Handle.new_node kelvin.Search.branch_new kelvin.Handle.leaf_of
    kelvin.Handle.inner kelvin.Handle.drop_mut kelvin.Handle.new_empty kelvin.Handle.into_leaf
two-rounds = refl

-- The values of both keys, in the order of their slots.
iter-Shows_example :
    (kvs : List (ℕ × ℕ)) × IsOnce small kvs
    × ((j : ℕ) → lookup small j kvs ≡ update small.eq bound 257 (some 20) j)
    × ((count : ℕ)
        → kelvin.Iter.calls small.load first 10 (λ kv. kv.1) count (iter two)
          ≡ answers (λ kv. kv.1) count (walk_of kvs))
iter-Shows_example =
    iter-Shows small usable (λ kv. kv.1) Keys two (update small.eq bound 257 (some 20)) 10
      second_insertion.1 second_insertion.2 (omega (arith, two-rounds))

get-find_example : get small 257 two ≡ find small 5 0 (digest 257) 257 two
get-find_example = get-find small two 257 Keys usable.wide second_insertion.1

sub_insert-IsTrie_example : IsTrie small 5 0 Keys (sub_insert small 5 0 (digest 257) 257 30 two).0
sub_insert-IsTrie_example =
    sub_insert-IsTrie small usable.lawful 5 0 Keys 257 30 two (inr refl) second_insertion.1

sub_remove-Keeps_example : Keeps small 5 0 Keys (sub_remove small 5 0 (digest 257) 257 two)
sub_remove-Keeps_example = sub_remove-Keeps small 5 0 Keys (digest 257) 257 two second_insertion.1

sub_insert-Succeeds_example : Succeeds (sub_insert small 5 0 (digest 257) 257 30 two).1
sub_insert-Succeeds_example =
    sub_insert-Succeeds small usable 5 0 Keys 257 30 two (omega arith, omega arith)
      second_insertion.1 (λ j belongs differ. Keys-AreApart j 257 belongs (inr refl) differ)

sub_remove-Succeeds_example : Succeeds (sub_remove small 5 0 (digest 257) 257 two).1
sub_remove-Succeeds_example =
    sub_remove-Succeeds small usable 5 0 Keys 257 two (omega arith, omega arith) second_insertion.1

sub_remove-root_example :
    ¬ ((sub_remove small 5 0 (digest 257) 257 two).1 ≡ ok (collapse (257, 20) (1, 10)))
sub_remove-root_example = sub_remove-root small 4 (digest 257) 257 two (257, 20) (1, 10)

wide-IsLawful_example : IsLawful small
wide-IsLawful_example = wide-IsLawful ◌==◌ digest cardinality store 2 digest-IsHash

narrow-IsLawful_example : IsLawful (narrow {V = ℕ} ◌==◌ digest cardinality store 2)
narrow-IsLawful_example = narrow-IsLawful ◌==◌ digest cardinality store 2 digest-IsHash

select_slot_narrow-low_bits_example :
    select_slot_narrow (0xe4 ∷ []) 3 ≡ Option.map (λ b. bit_and b 3) (get_elem? (0xe4 ∷ []) (3 / 4))
select_slot_narrow-low_bits_example = select_slot_narrow-low_bits (0xe4 ∷ []) 3

select_slot_wide_repeats_example :
    select_slot_wide (0x12 ∷ 0x34 ∷ []) 2 ≡ select_slot_wide (0x12 ∷ 0x34 ∷ []) 3
select_slot_wide_repeats_example = select_slot_wide_repeats (0x12 ∷ 0x34 ∷ []) 1
