-- ===== src/Two3.antt =====
-- structures/two3/src/lib.rs: the 2-3 tree.
--
-- A node holds its handles in an `ArrayVec` of three, whose operations are parameters. The recursion
-- takes fuel; a tree in memory is as high as it is nested, but a persisted node may be any.
pub mod Removal
pub mod Get
pub mod Entries
pub mod Update
pub mod Invariant
mod Greatest
mod Place
mod Inserts
mod Leaves
mod Insertion
pub mod Trees
mod Rounds
pub mod Lookup
mod Merges
mod Removes
mod Neighbours
mod Merging
mod Deletion
mod AfterRemove
pub mod Erasure
pub mod Map
pub mod Iteration
pub mod Annotated
pub mod MaxKey
mod Tests
mod Selects
use kelvin.Prelude.{
  ℕ, zero, suc, ◌+◌, ◌-◌, Option, none, some, Bool, true, false, ◌||◌, not, if◌then◌else◌, ltb,
  ◌==◌,
}
use kelvin.Prelude.Outcome.{Outcome, ok, failed, panicked, exhausted, ◌>>=◌}
use kelvin.Annotation.{Annotation}
use kelvin.Handle.{
  Digest, Handle, HandleType, none_type, leaf_type, node_type, Node, Handles, nil, cons, compound,
  HandleMut, none_mut, leaf_mut, node_mut, children, get_handle, set_child, count_handles, new_leaf,
  new_empty, new_node, into_leaf, into_node, handle_type, handle_annotation, node_annotation,
  drop_mut, inner_mut,
}
use kelvin.Search.{SearchResult, leaf_at, path_at, no_result, Method}

-- `ArrayVec<[T; M]>`: `insert`, `push` and `remove` panic out of bounds or past the capacity.
pub record ArrayVec (T Ts : Type 0) : Type 0 where
  pub insert : Ts → ℕ → T → Outcome Ts
  pub push : Ts → T → Outcome Ts
  pub pop : Ts → Option (T × Ts)
  pub remove : Ts → ℕ → Outcome (T × Ts)

-- What the tree is generic over: `Ord` on the keys, the annotation with its `Borrow<MaxKey<K>>`, and
-- the nodes of the store.
pub record Two3 (K V A : Type 0) : Type 0 where
  pub eq : K → K → Bool
  pub lt : K → K → Bool
  pub annotation : Annotation (K × V) A
  pub max_key : A → K
  pub load : Digest → Outcome (Node (K × V) A (Unit {0}))
  pub vec : ArrayVec (Handle (K × V) A (Unit {0})) (Handles (K × V) A (Unit {0}))
  pub fuel : ℕ

abbrev pub Slot : Type 0 → Type 0 → Type 0 → Type 0
Slot K V A = Handle (K × V) A (Unit {0})

abbrev pub Slots : Type 0 → Type 0 → Type 0 → Type 0
Slots K V A = Handles (K × V) A (Unit {0})

-- `Two3Tree`
abbrev pub Two3Tree : Type 0 → Type 0 → Type 0 → Type 0
Two3Tree K V A = Node (K × V) A (Unit {0})

-- `enum InsertResult`
pub data InsertResult (K V A : Type 0) : Type 0 where
  inserted : InsertResult K V A
  replaced : K × V → InsertResult K V A
  split : Handle (K × V) A (Unit {0}) → InsertResult K V A

-- `enum RemoveResult`
pub data RemoveResult (L : Type 0) : Type 0 where
  noop : RemoveResult L
  removed merge : L → RemoveResult L

module _ {K V A : Type 0} (t : Two3 K V A) where
  abbrev pub Step {κ} : Type κ → Type κ
  Step R = Two3Tree K V A × Outcome R

  -- `Two3Tree::new`
  unfoldable pub new : Two3Tree K V A
  new = compound tt nil

  -- What `select` returns at handle `i`, whose key the search is for.
  unfoldable pub same_key : HandleType → ℕ → SearchResult
  same_key leaf_type i = leaf_at i
  same_key _ i = path_at i

  -- The body of the loop of `select` at handle `i`; `further` is the rest of the loop.
  unfoldable pub select_at :
      K → ℕ → HandleType → Option A → Option SearchResult → Option SearchResult
  unfolding same_key
  select_at k i ty none further = further
  select_at k i ty (some a) further =
      if t.eq k (t.max_key a)
      then some (same_key ty i)
      else if t.lt k (t.max_key a)
      then some (path_at i)
      else further

  unfoldable pub select_from : K → Slots K V A → ℕ → Option SearchResult
  unfolding select_at
  select_from k nil i = none
  select_from k (cons h hs) i =
      select_at k i (handle_type h) (handle_annotation t.annotation h) (select_from k hs (suc i))

  -- The end of `select`: the last handle, if it is a node.
  unfoldable pub select_last : Slots K V A → ℕ → SearchResult
  select_last nil i = no_result
  select_last (cons h nil) i = elim (handle_type h) [
    | node_type ↦ path_at i
    | leaf_type ↦ no_result
    | none_type ↦ no_result
  ]
  select_last (cons h (cons g hs)) i = select_last (cons g hs) (suc i)

  -- `Two3TreeSearch::select`
  unfoldable pub select : K → Slots K V A → SearchResult
  unfolding select_from select_last
  select k hs = elim (select_from k hs 0) [ some r ↦ r | none ↦ select_last hs 0 ]

  -- The two halves of a full node, with the new handle among them; the expected pops are of a node of
  -- three.
  unfoldable pub split_low :
      Slots K V A → ℕ → Slot K V A → Slot K V A → Outcome (Slots K V A × Slots K V A)
  split_low hs i handle popped = elim (t.vec.pop hs) [
    | none ↦ panicked
    | some (second, rest) ↦ t.vec.push nil second >>= λ one.
        t.vec.push one popped >>= λ two. t.vec.insert rest i handle >>= λ kept. ok (kept, two)
  ]

  unfoldable pub split_high :
      Slots K V A → ℕ → Slot K V A → Slot K V A → Outcome (Slots K V A × Slots K V A)
  split_high hs i handle popped =
      t.vec.push nil popped >>= λ one. t.vec.insert one (i - 2) handle >>= λ two. ok (hs, two)

  unfoldable pub split_handles : Slots K V A → ℕ → Slot K V A → Outcome (Slots K V A × Slots K V A)
  unfolding split_low split_high
  split_handles hs i handle = elim (t.vec.pop hs) [
    | none ↦ panicked
    | some (popped, rest) ↦
        if ltb i 2 then split_low rest i handle popped else split_high rest i handle popped
  ]

  -- The end of `Action::Split`, by the halves: at the root they go under a new one.
  unfoldable pub new_root : Two3Tree K V A → Slot K V A → Outcome (Two3Tree K V A)
  new_root old handle = new_node t.annotation old >>= λ first.
      t.vec.push nil first >>= λ one. t.vec.push one handle >>= λ two. ok (compound tt two)

  unfoldable pub finish_root : Two3Tree K V A → Outcome (Two3Tree K V A) → Step (InsertResult K V A)
  finish_root n (ok root) = (root, ok inserted)
  finish_root n (failed e) = (n, failed e)
  finish_root n panicked = (n, panicked)
  finish_root n exhausted = (n, exhausted)

  unfoldable pub finish_split :
      ℕ → Two3Tree K V A → Outcome (Slot K V A) → Step (InsertResult K V A)
  unfolding new_root finish_root
  finish_split zero n (ok handle) = finish_root n (new_root n handle)
  finish_split (suc depth) n (ok handle) = (n, ok (split handle))
  finish_split depth n (failed e) = (n, failed e)
  finish_split depth n panicked = (n, panicked)
  finish_split depth n exhausted = (n, exhausted)

  unfoldable pub split_node :
      ℕ → Two3Tree K V A → Outcome (Slots K V A × Slots K V A) → Step (InsertResult K V A)
  unfolding finish_split
  split_node depth n (ok (kept, fresh)) =
      finish_split depth (compound tt kept) (new_node t.annotation (compound tt fresh))
  split_node depth n (failed e) = (n, failed e)
  split_node depth n panicked = (n, panicked)
  split_node depth n exhausted = (n, exhausted)

  unfoldable pub finish_insert : Two3Tree K V A → Outcome (Slots K V A) → Step (InsertResult K V A)
  finish_insert n (ok hs) = (compound tt hs, ok inserted)
  finish_insert n (failed e) = (n, failed e)
  finish_insert n panicked = (n, panicked)
  finish_insert n exhausted = (n, exhausted)

  -- `Action::Insert` and `Action::Split`
  unfoldable pub place : ℕ → Two3Tree K V A → ℕ → Slot K V A → Step (InsertResult K V A)
  unfolding split_handles split_node finish_insert
  place depth n i handle =
      if ltb (count_handles (children n)) 3
      then finish_insert n (t.vec.insert (children n) i handle)
      else split_node depth n (split_handles (children n) i handle)

  -- `Action::Replace`
  unfoldable pub finish_replace : Two3Tree K V A → Outcome (K × V) → Step (InsertResult K V A)
  finish_replace n (ok l) = (n, ok (replaced l))
  finish_replace n (failed e) = (n, failed e)
  finish_replace n panicked = (n, panicked)
  finish_replace n exhausted = (n, exhausted)

  unfoldable pub replace : Two3Tree K V A → ℕ → Slot K V A → Step (InsertResult K V A)
  unfolding finish_replace
  replace n i handle = elim (get_handle (children n) i) [
    | none ↦ (n, panicked)
    | some old ↦ finish_replace (set_child n i handle) (into_leaf old)
  ]

  -- What follows the call one level down, in the node that holds the child at `i`.
  unfoldable pub after_insert :
      ℕ → Two3Tree K V A → ℕ → Outcome (InsertResult K V A) → Step (InsertResult K V A)
  unfolding place
  after_insert depth n i (ok inserted) = (n, ok inserted)
  after_insert depth n i (ok (replaced l)) = (n, ok (replaced l))
  after_insert depth n i (ok (split handle)) = place depth n (suc i) handle
  after_insert depth n i (failed e) = (n, failed e)
  after_insert depth n i panicked = (n, panicked)
  after_insert depth n i exhausted = (n, exhausted)

  -- The node arm, by the annotation of the child: `rec` is `_insert`.
  unfoldable pub insert_below :
      (ℕ → Slot K V A → Two3Tree K V A → Step (InsertResult K V A))
      → ℕ
      → Slot K V A
      → K
      → Two3Tree K V A
      → ℕ
      → Two3Tree K V A
      → A
      → Option A
      → Step (InsertResult K V A)
  unfolding after_insert
  insert_below rec depth handle key n i c a none =
      (set_child n i (drop_mut t.annotation c a), panicked)
  insert_below rec depth handle key n i c a (some b) =
      let (c', r) = rec (suc depth) handle c in
      let below = after_insert depth (set_child n i (drop_mut t.annotation c' a)) i r in
      if not (t.lt (t.max_key b) key) || suc i == count_handles (children n)
      then below
      else (set_child n i (drop_mut t.annotation c a), panicked)

  -- The arms of `SearchResult::Path`, by the reference to child `i` and what it leaves there.
  unfoldable pub insert_path :
      (ℕ → Slot K V A → Two3Tree K V A → Step (InsertResult K V A))
      → ℕ
      → Slot K V A
      → K
      → Two3Tree K V A
      → ℕ
      → Slot K V A
      → Outcome (HandleMut (K × V) A (Unit {0}))
      → Step (InsertResult K V A)
  unfolding insert_below place
  insert_path rec depth handle key n i slot (ok none_mut) = (set_child n i slot, panicked)
  insert_path rec depth handle key n i slot (ok (leaf_mut (k, v))) =
      if t.lt key k
      then place depth (set_child n i slot) i handle
      else if suc i == count_handles (children n)
      then place depth (set_child n i slot) (suc i) handle
      else (set_child n i slot, panicked)
  insert_path rec depth handle key n i slot (ok (node_mut c a)) =
      insert_below rec depth handle key n i c a (node_annotation t.annotation c)
  insert_path rec depth handle key n i slot (failed e) = (set_child n i slot, failed e)
  insert_path rec depth handle key n i slot panicked = (set_child n i slot, panicked)
  insert_path rec depth handle key n i slot exhausted = (set_child n i slot, exhausted)

  unfoldable pub insert_selected :
      (ℕ → Slot K V A → Two3Tree K V A → Step (InsertResult K V A))
      → ℕ
      → Slot K V A
      → K
      → Two3Tree K V A
      → SearchResult
      → Step (InsertResult K V A)
  unfolding replace place insert_path
  insert_selected rec depth handle key n (leaf_at i) = replace n i handle
  insert_selected rec depth handle key n no_result =
      place depth n (count_handles (children n)) handle
  insert_selected rec depth handle key n (path_at i) = elim (get_handle (children n) i) [
    | none ↦ (n, panicked)
    | some slot ↦
        let (slot', r) = inner_mut t.load slot in insert_path rec depth handle key n i slot' r
  ]

  -- `_insert`; it expects the handle to have an annotation.
  unfoldable pub sub_insert : ℕ → ℕ → Slot K V A → Two3Tree K V A → Step (InsertResult K V A)
  unfolding select insert_selected
  sub_insert zero depth handle n = (n, exhausted)
  sub_insert (suc fuel) depth handle n = elim (handle_annotation t.annotation handle) [
    | none ↦ (n, panicked)
    | some a ↦
        let key = t.max_key a in
        insert_selected (sub_insert fuel) depth handle key n (select key (children n))
  ]

  -- The match of `insert`; a split at the root is unreachable.
  unfoldable pub inserted_value : InsertResult K V A → Outcome (Option V)
  inserted_value inserted = ok none
  inserted_value (replaced (key, val)) = ok (some val)
  inserted_value (split handle) = panicked

  -- `Two3Tree::insert`
  unfoldable pub insert : K → V → Two3Tree K V A → Step (Option V)
  unfolding sub_insert inserted_value
  insert k v n = let (n', r) = sub_insert t.fuel 0 (new_leaf (k, v)) n in (n', r >>= inserted_value)
