-- ===== src/Radix/Tests.antt =====
-- Runs of the radix tree.
use kelvin.Prelude.{ℕ, none, some, [], ◌∷◌, ◌≡◌, refl}
use kelvin.Prelude.Outcome.{ok, panicked}
use kelvin.Annotation.{cardinality}
use kelvin.Radix.{Radix, Tree, new, insert}
use kelvin.Nibbles.{nibbles_new}
use kelvin.Radix.Removal.{remove, sub_remove, collapse}
use kelvin.Radix.Root.{sub_remove-depth_0}
use kelvin.Radix.Get.{get}

abbrev small : Radix ℕ ℕ
small = record { annotation = cardinality; load = λ h. panicked; fuel = 8 }

-- Three keys of two bytes, that part at the third and at the last nibble.
abbrev keys : Tree ℕ ℕ
keys =
    (insert small (0x12 ∷ 0x35 ∷ []) 3
      (insert small (0x12 ∷ 0x34 ∷ []) 2 (insert small (0x12 ∷ 0x88 ∷ []) 1 new).0).0).0

calls-run :
    (get small (0x12 ∷ 0x88 ∷ []) keys ≡ ok (some 1))
    × (get small (0x12 ∷ 0x34 ∷ []) keys ≡ ok (some 2))
    × (get small (0x12 ∷ 0x35 ∷ []) keys ≡ ok (some 3))
    × (get small (0x12 ∷ 0x36 ∷ []) keys ≡ ok none)
    × ((remove small (0x12 ∷ 0x34 ∷ []) keys).1 ≡ ok (some 2))
    × (get small (0x12 ∷ 0x35 ∷ []) (remove small (0x12 ∷ 0x34 ∷ []) keys).0 ≡ ok (some 3))
    × (get small (0x12 ∷ 0x34 ∷ []) (remove small (0x12 ∷ 0x34 ∷ []) keys).0 ≡ ok none)
unfolding new insert remove get cardinality kelvin.Handle.inner_mut kelvin.Handle.new_leaf
    kelvin.Handle.new_node kelvin.Search.branch_new kelvin.Handle.leaf_of kelvin.Handle.inner
    kelvin.Handle.drop_mut kelvin.Handle.new_empty kelvin.Handle.into_leaf kelvin.Handle.handle_type
    kelvin.Nibbles.Buf.pop_nibble kelvin.Nibbles.Buf.trim_front
calls-run = (refl, refl, refl, refl, refl, refl, refl)

-- A key that ends where a node stands, in place of a leaf.
prefix-panics : (insert small (0x12 ∷ []) 4 keys).1 ≡ panicked
unfolding new insert cardinality kelvin.Handle.inner_mut kelvin.Handle.new_leaf
    kelvin.Handle.new_node kelvin.Handle.drop_mut kelvin.Handle.new_empty kelvin.Handle.into_leaf
    kelvin.Handle.handle_type kelvin.Nibbles.Buf.pop_nibble kelvin.Nibbles.Buf.trim_front
prefix-panics = refl

sub_remove-depth_0_example : ¬ (
    (sub_remove small 8 0 (nibbles_new (0x12 ∷ 0x34 ∷ [])) keys).1
    ≡ ok (collapse 2 3 (record { bytes = []; ofs_front = 0; ofs_back = 0 }) 6))
sub_remove-depth_0_example =
    sub_remove-depth_0 small 2 3 (record { bytes = []; ofs_front = 0; ofs_back = 0 }) 6 7
      (nibbles_new (0x12 ∷ 0x34 ∷ [])) keys
