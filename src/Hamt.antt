-- ===== src/Hamt.antt =====
-- structures/hamt/src/lib.rs: the hash array mapped trie.
--
-- A key and its value are a leaf, a pair. `HAMTTrait` abstracts over the width of a node and the
-- choice of a slot, and so does the section below. The recursion takes fuel; a digest has finitely
-- many slots, and past them `hash[ofs]` is out of bounds and panics.
pub mod Get
pub mod Invariant
mod Search
mod Steps
mod Write
mod Insert
mod Singleton
mod Keeps
mod KeepsRemove
mod Remove
mod Total
mod TotalRemove
mod Root
pub mod Map
pub mod Entries
pub mod Iteration
pub mod Listed
pub mod Persist
pub mod Widths
mod Tests
use Prim.Native.Nat.{bit_and}
use mathlib.Core.Option
use kelvin.Prelude.{
  ℕ, zero, suc, ◌/◌, ◌%◌, ◌^◌, Option, none, some, Bool, if◌then◌else◌, ◌==◌, get_elem?,
}
use kelvin.Prelude.Outcome.{Outcome, ok, failed, panicked, exhausted, ◌>>=◌}
use kelvin.Annotation.{Annotation}
use kelvin.Handle.{
  Digest, Handle, Node, Handles, empty, nil, cons, compound, HandleMut, none_ref, leaf_ref,
  node_ref, children, none_mut, leaf_mut, node_mut, get_handle, set_child, empty_handles, new_leaf,
  new_empty, into_leaf, new_node, drop_mut, inner, inner_mut,
}

-- `SlotSelect for HAMT`: the byte is chosen by `depth / 2`, and its half by the parity of that
-- same index. `none` is the panic of an index out of bounds.
unfoldable pub wide_slot : ℕ → ℕ → ℕ
wide_slot ofs byte = if ofs % 2 == 0 then bit_and byte 0xf0 / 2 ^ 4 else bit_and byte 0x0f

unfoldable pub select_slot_wide : Digest → ℕ → Option ℕ
unfolding wide_slot
select_slot_wide hash depth = let ofs = depth / 2 in Option.map (wide_slot ofs) (get_elem? hash ofs)

-- `SlotSelect for NarrowHAMT`: `>>` binds tighter than `&`, so each mask is shifted first.
unfoldable pub narrow_slot : ℕ → ℕ → ℕ
narrow_slot ofs byte =
    let m = ofs % 4 in
    if m == 0
    then bit_and byte (0xc0 / 2 ^ 6)
    else if m == 1
    then bit_and byte (0x30 / 2 ^ 4)
    else if m == 2
    then bit_and byte (0x0c / 2 ^ 2)
    else bit_and byte 0x03

unfoldable pub select_slot_narrow : Digest → ℕ → Option ℕ
unfolding narrow_slot
select_slot_narrow hash depth =
    let ofs = depth / 4 in Option.map (narrow_slot ofs) (get_elem? hash ofs)

-- `enum Removed`
pub data Removed (L : Type 0) : Type 0 where
  nothing : Removed L
  removed : L → Removed L
  collapse : L → L → Removed L

-- What the trie is generic over: the bounds on the key, `H::hash` on keys, the annotation, the
-- nodes of the store, and the members of `HAMTTrait`.
pub record Trie (K V A : Type 0) : Type 0 where
  pub eq : K → K → Bool
  pub hash : K → Digest
  pub annotation : Annotation (K × V) A
  pub load : Digest → Outcome (Node (K × V) A (Unit {0}))
  pub width : ℕ
  pub select_slot : Digest → ℕ → Option ℕ
  -- the number of slots of a digest
  pub fuel : ℕ

abbrev pub Slot : Type 0 → Type 0 → Type 0 → Type 0
Slot K V A = Handle (K × V) A (Unit {0})

-- `HAMT` and `NarrowHAMT`: a node holds handles and nothing else.
abbrev pub Hamt : Type 0 → Type 0 → Type 0 → Type 0
Hamt K V A = Node (K × V) A (Unit {0})

module _ {K V A : Type 0} (t : Trie K V A) where
  -- `Default::default`
  unfoldable pub new : Hamt K V A
  new = compound tt (empty_handles t.width)

  -- What `sub_insert`, `sub_remove` and `remove_singleton` return: the node as they leave it,
  -- beside the outcome, since an error keeps what was done so far.
  abbrev pub Step {κ} : Type κ → Type κ
  Step R = Hamt K V A × Outcome R

  -- The end of the split arm: the new node takes the place of the leaf that was taken out.
  unfoldable pub finish_split : Hamt K V A → ℕ → Outcome (Slot K V A) → Step (Option V)
  finish_split n s (ok fresh) = (set_child n s fresh, ok none)
  finish_split n s (failed e) = (set_child n s new_empty, failed e)
  finish_split n s panicked = (set_child n s new_empty, panicked)
  finish_split n s exhausted = (set_child n s new_empty, exhausted)

  -- `Action::Split`: both leaves go into a new node one level down. `rec` is `sub_insert`.
  unfoldable pub split_leaf :
      (ℕ → Digest → K → V → Hamt K V A → Step (Option V))
      → ℕ
      → Digest
      → K
      → V
      → K
      → V
      → Outcome (Slot K V A)
  unfolding new
  split_leaf rec depth h k v key val =
      let (n1, r1) = rec (suc depth) h k v new in
      let (n2, r2) = rec (suc depth) (t.hash key) key val n1 in
      r1 >>= λ _. r2 >>= λ _. new_node t.annotation n2

  -- The arms of `sub_insert`, by the reference to the slot `s` and what it leaves there.
  unfoldable pub insert_at :
      (ℕ → Digest → K → V → Hamt K V A → Step (Option V))
      → ℕ
      → Digest
      → K
      → V
      → Hamt K V A
      → ℕ
      → Slot K V A
      → Outcome (HandleMut (K × V) A (Unit {0}))
      → Step (Option V)
  unfolding finish_split split_leaf
  insert_at rec depth h k v n s slot (ok none_mut) = (set_child n s (new_leaf (k, v)), ok none)
  insert_at rec depth h k v n s slot (ok (leaf_mut (key, val))) =
      let split = finish_split n s (split_leaf rec depth h k v key val) in
      if t.eq key k then (set_child n s (new_leaf (k, v)), ok (some val)) else split
  insert_at rec depth h k v n s slot (ok (node_mut c a)) =
      let (c', r) = rec (suc depth) h k v c in (set_child n s (drop_mut t.annotation c' a), r)
  insert_at rec depth h k v n s slot (failed e) = (set_child n s slot, failed e)
  insert_at rec depth h k v n s slot panicked = (set_child n s slot, panicked)
  insert_at rec depth h k v n s slot exhausted = (set_child n s slot, exhausted)

  -- `self.children_mut()[s].inner_mut()?`, both indices checked.
  unfoldable pub sub_insert : ℕ → ℕ → Digest → K → V → Hamt K V A → Step (Option V)
  unfolding insert_at
  sub_insert zero depth h k v n = (n, exhausted)
  sub_insert (suc fuel) depth h k v n = elim (t.select_slot h depth) [
    | none ↦ (n, panicked)
    | some s ↦ elim (get_handle (children n) s) [
      | none ↦ (n, panicked)
      | some slot ↦
          let (slot', r) = inner_mut t.load slot in
          insert_at (sub_insert fuel) depth h k v n s slot' r
    ]
  ]

  -- `HAMT::insert`
  unfoldable pub insert : K → V → Hamt K V A → Step (Option V)
  unfolding sub_insert
  insert k v n = sub_insert (suc t.fuel) 0 (t.hash k) k v n

  -- The loop of `remove_singleton`: the index of the only leaf among the children, unless there is
  -- a node or a second leaf.
  unfoldable pub scan_singleton : Handles (K × V) A (Unit {0}) → ℕ → Option ℕ → Outcome (Option ℕ)
  scan_singleton nil i found = ok found
  scan_singleton (cons child hs) i found = inner t.load child >>= λ r. elim r [
    | none_ref ↦ scan_singleton hs (suc i) found
    | leaf_ref _ ↦ elim found [ none ↦ scan_singleton hs (suc i) (some i) | some _ ↦ ok none ]
    | node_ref _ ↦ ok none
  ]

  -- `mem::take(&mut self.children_mut()[idx]).into_leaf()`
  unfoldable pub take_leaf : Hamt K V A → ℕ → Outcome (Slot K V A × (K × V))
  take_leaf n idx = elim (get_handle (children n) idx) [
    | none ↦ panicked
    | some child ↦ into_leaf child >>= λ kv. ok (empty, kv)
  ]

  unfoldable pub finish_take :
      Hamt K V A → ℕ → Outcome (Slot K V A × (K × V)) → Step (Option (K × V))
  finish_take n idx (ok (rest, kv)) = (set_child n idx rest, ok (some kv))
  finish_take n idx _ = (n, panicked)

  unfoldable pub finish_singleton : Hamt K V A → Outcome (Option ℕ) → Step (Option (K × V))
  unfolding take_leaf finish_take
  finish_singleton n (ok none) = (n, ok none)
  finish_singleton n (ok (some idx)) = finish_take n idx (take_leaf n idx)
  finish_singleton n (failed e) = (n, failed e)
  finish_singleton n panicked = (n, panicked)
  finish_singleton n exhausted = (n, exhausted)

  unfoldable pub remove_singleton : Hamt K V A → Step (Option (K × V))
  unfolding scan_singleton finish_singleton
  remove_singleton n = finish_singleton n (scan_singleton (children n) 0 none)

  -- The end of `sub_remove`, after a leaf was taken out: below the root the branch may collapse.
  unfoldable pub collapsed : K × V → Step (Option (K × V)) → Step (Removed (K × V))
  collapsed l (n, ok (some kv)) = (n, ok (collapse l kv))
  collapsed l (n, ok none) = (n, ok (removed l))
  collapsed l (n, failed e) = (n, failed e)
  collapsed l (n, panicked) = (n, panicked)
  collapsed l (n, exhausted) = (n, exhausted)

  unfoldable pub finish_remove : ℕ → K × V → Hamt K V A → Step (Removed (K × V))
  unfolding remove_singleton collapsed
  finish_remove zero l n = (n, ok (removed l))
  finish_remove (suc depth) l n = collapsed l (remove_singleton n)

  -- The node arm of `sub_remove`, by what the call one level down returned.
  unfoldable pub remove_below :
      ℕ → Hamt K V A → ℕ → A → Hamt K V A → Outcome (Removed (K × V)) → Step (Removed (K × V))
  unfolding finish_remove
  remove_below depth n s a c (ok (collapse l kv)) =
      finish_remove depth l (set_child n s (new_leaf kv))
  remove_below depth n s a c r = (set_child n s (drop_mut t.annotation c a), r)

  -- The arms of `sub_remove`, by the reference to the slot `s` and what it leaves there.
  unfoldable pub remove_at :
      (ℕ → Digest → K → Hamt K V A → Step (Removed (K × V)))
      → ℕ
      → Digest
      → K
      → Hamt K V A
      → ℕ
      → Slot K V A
      → Outcome (HandleMut (K × V) A (Unit {0}))
      → Step (Removed (K × V))
  unfolding remove_below
  remove_at rec depth h k n s slot (ok none_mut) = (set_child n s slot, ok nothing)
  remove_at rec depth h k n s slot (ok (leaf_mut (key, val))) =
      if t.eq key k
      then finish_remove depth (key, val) (set_child n s new_empty)
      else (set_child n s slot, ok nothing)
  remove_at rec depth h k n s slot (ok (node_mut c a)) =
      let (c', r) = rec (suc depth) h k c in remove_below depth n s a c' r
  remove_at rec depth h k n s slot (failed e) = (set_child n s slot, failed e)
  remove_at rec depth h k n s slot panicked = (set_child n s slot, panicked)
  remove_at rec depth h k n s slot exhausted = (set_child n s slot, exhausted)

  unfoldable pub sub_remove : ℕ → ℕ → Digest → K → Hamt K V A → Step (Removed (K × V))
  unfolding remove_at
  sub_remove zero depth h k n = (n, exhausted)
  sub_remove (suc fuel) depth h k n = elim (t.select_slot h depth) [
    | none ↦ (n, panicked)
    | some s ↦ elim (get_handle (children n) s) [
      | none ↦ (n, panicked)
      | some slot ↦
          let (slot', r) = inner_mut t.load slot in
          remove_at (sub_remove fuel) depth h k n s slot' r
    ]
  ]

  -- The match of `HAMT::remove`; a collapse at the root is unreachable.
  unfoldable pub removed_value : Removed (K × V) → Outcome (Option V)
  removed_value nothing = ok none
  removed_value (removed (key, val)) = ok (some val)
  removed_value (collapse l kv) = panicked

  -- `HAMT::remove`
  unfoldable pub remove : K → Hamt K V A → Step (Option V)
  unfolding sub_remove removed_value
  remove k n = let (n', r) = sub_remove (suc t.fuel) 0 (t.hash k) k n in (n', r >>= removed_value)
