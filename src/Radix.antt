-- ===== src/Radix.antt =====
-- structures/radix/src/lib.rs: the radix tree, a map whose keys are sequences of half bytes.
--
-- A node has a handle for a key that ends in it and one for each nibble, with the nibbles that are
-- skipped below each. A search is passed by value: no caller looks at what is left of it.
pub mod Removal
pub mod Get
pub mod Root
mod Tests
use kelvin.Prelude.{
  ℕ, zero, suc, ◌+◌, Option, none, some, List, [], ◌∷◌, Bool, true, false, if◌then◌else◌, ◌==◌,
  ◌&&◌, ltb, leb, replicate, get_elem?,
}
use kelvin.Prelude.Outcome.{Outcome, ok, failed, panicked, exhausted, ◌>>=◌}
use kelvin.Annotation.{Annotation}
use kelvin.Handle.{
  Digest, Handle, HandleType, none_type, leaf_type, node_type, Node, compound, HandleMut, none_mut,
  leaf_mut, node_mut, children, extra, get_handle, set_child, empty_handles, new_leaf, new_empty,
  new_node, into_leaf, handle_type, drop_mut, inner_mut,
}
use kelvin.Search.{SearchResult, leaf_at, path_at, no_result}
use kelvin.Nibbles.{Nibbles, nibbles_new, nibbles_len, pop_nibble, trim_front, common_prefix}
use kelvin.Nibbles.Buf.{NibbleBuf, as_nibbles, into_buf, len}

-- What the tree is generic over, and the nodes of the store.
pub record Radix (V A : Type 0) : Type 0 where
  pub annotation : Annotation V A
  pub load : Digest → Outcome (Node V A (List NibbleBuf))
  pub fuel : ℕ

-- `Radix`: the handles, and beside them the prefixes.
abbrev pub Tree : Type 0 → Type 0 → Type 0
Tree V A = Node V A (List NibbleBuf)

-- `NibbleBuf::default`
abbrev pub no_nibbles : NibbleBuf
no_nibbles = record { bytes = []; ofs_front = 0; ofs_back = 0 }

abbrev pub set_prefix : List NibbleBuf → ℕ → NibbleBuf → List NibbleBuf
set_prefix [] i b = []
set_prefix (p ∷ ps) zero b = b ∷ ps
set_prefix (p ∷ ps) (suc i) b = p ∷ set_prefix ps i b

abbrev pub is_leaf : HandleType → Bool
is_leaf leaf_type = true
is_leaf _ = false

-- The end of `select`, by the length of the common prefix: a node takes it from the search.
unfoldable pub result_at : ℕ → Nibbles → ℕ → HandleType → SearchResult × Nibbles
unfolding nibbles_len trim_front
result_at i search common ty =
    if common == nibbles_len search && is_leaf ty
    then (leaf_at i, search)
    else if leb common (nibbles_len search)
    then (
      path_at i,
      elim ty [ node_type ↦ trim_front search common | leaf_type ↦ search | none_type ↦ search ],
    )
    else (no_result, search)

module _ {V A : Type 0} where
  abbrev pub with_prefix : Tree V A → ℕ → NibbleBuf → Tree V A
  with_prefix (compound ps hs) i b = compound (set_prefix ps i b) hs

  -- `Radix::default`
  unfoldable pub new : Tree V A
  new = compound (replicate 16 no_nibbles) (empty_handles 17)

  unfoldable pub select_at :
      ℕ
      → Nibbles
      → Option NibbleBuf
      → Option (Handle V A (List NibbleBuf))
      → Outcome (SearchResult × Nibbles)
  unfolding result_at common_prefix nibbles_len handle_type
  select_at nibble search (some prefix) (some h) =
      common_prefix (as_nibbles prefix) search >>= λ common.
      ok (result_at (suc nibble) search (nibbles_len common) (handle_type h))
  select_at nibble search (some prefix) none = panicked
  select_at nibble search none h = panicked

  -- `Method for Nibbles`: `select`.
  unfoldable pub select : Tree V A → Nibbles → Outcome (SearchResult × Nibbles)
  unfolding select_at nibbles_len pop_nibble
  select n search = elim (nibbles_len search == 0) [
    | true ↦ ok (leaf_at 0, search)
    | false ↦ pop_nibble search >>= λ r.
        select_at r.0 r.1 (get_elem? (extra n) r.0) (get_handle (children n) (suc r.0))
  ]

module _ {V A : Type 0} (t : Radix V A) where
  abbrev pub Step : Type 0 → Type 0
  Step R = Tree V A × Outcome R

  -- The rest of a function that changes a node, after something that may fail.
  abbrev pub carry : {X R : Type 0} → Tree V A → Outcome X → (X → Step R) → Step R
  carry n (ok x) f = f x
  carry n (failed e) f = (n, failed e)
  carry n panicked f = (n, panicked)
  carry n exhausted f = (n, exhausted)

  -- A key that ends here.
  unfoldable pub insert_here : Tree V A → V → Option (Handle V A (List NibbleBuf)) → Step (Option V)
  unfolding handle_type into_leaf new_leaf
  insert_here n v none = (n, panicked)
  insert_here n v (some h) = elim (handle_type h) [
    | none_type ↦ (set_child n 0 (new_leaf v), ok none)
    | leaf_type ↦ (set_child n 0 (new_leaf v), into_leaf h >>= λ old. ok (some old))
    | node_type ↦ (n, panicked)
  ]

  -- The split: the handle goes below a new node, by the nibble after the common ones. `rec` is
  -- `_insert`.
  unfoldable pub split :
      (Nibbles → V → Tree V A → Step (Option V))
      → Tree V A
      → ℕ
      → Nibbles
      → V
      → NibbleBuf
      → NibbleBuf
      → Handle V A (List NibbleBuf)
      → Step (Option V)
  unfolding new new_node trim_front len
  split rec n nibble search v common old h =
      let taken = with_prefix (set_child n (suc nibble) new_empty) nibble no_nibbles in
      carry taken (kelvin.Nibbles.Buf.pop_nibble (kelvin.Nibbles.Buf.trim_front old (len common)))
        (λ r.
          let below = with_prefix (set_child new (suc r.0) h) r.0 r.1 in
          let (below', result) = rec (trim_front search (len common)) v below in
          carry taken (result >>= λ _. new_node t.annotation below')
            (λ g. (with_prefix (set_child taken (suc nibble) g) nibble common, ok none)))

  -- The recursion, by the reference to the child and what it leaves there.
  unfoldable pub insert_below :
      (Nibbles → V → Tree V A → Step (Option V))
      → Tree V A
      → ℕ
      → Nibbles
      → V
      → Handle V A (List NibbleBuf)
      → Outcome (HandleMut V A (List NibbleBuf))
      → Step (Option V)
  unfolding drop_mut
  insert_below rec n i search v slot (ok (node_mut c a)) =
      let (c', result) = rec search v c in (set_child n i (drop_mut t.annotation c' a), result)
  insert_below rec n i search v slot (ok none_mut) = (set_child n i slot, panicked)
  insert_below rec n i search v slot (ok (leaf_mut _)) = (set_child n i slot, panicked)
  insert_below rec n i search v slot (failed e) = (set_child n i slot, failed e)
  insert_below rec n i search v slot panicked = (set_child n i slot, panicked)
  insert_below rec n i search v slot exhausted = (set_child n i slot, exhausted)

  unfoldable pub descend :
      (Nibbles → V → Tree V A → Step (Option V))
      → Tree V A
      → ℕ
      → Nibbles
      → V
      → Handle V A (List NibbleBuf)
      → Step (Option V)
  unfolding insert_below inner_mut
  descend rec n i search v h =
      let (slot, r) = inner_mut t.load h in insert_below rec n i search v slot r

  -- The cases of `_insert` at the handle of a nibble.
  unfoldable pub insert_at :
      (Nibbles → V → Tree V A → Step (Option V))
      → Tree V A
      → ℕ
      → Nibbles
      → V
      → NibbleBuf
      → Handle V A (List NibbleBuf)
      → Step (Option V)
  unfolding split descend common_prefix trim_front nibbles_len into_leaf len handle_type new_leaf
  insert_at rec n nibble search v prefix h =
      carry n (common_prefix search (as_nibbles prefix)) (λ common.
        let full = nibbles_len common == nibbles_len search && nibbles_len common == len prefix in
        let present : Step (Option V) = elim full [
          | true ↦ (set_child n (suc nibble) (new_leaf v), into_leaf h >>= λ old. ok (some old))
          | false ↦ elim (ltb (nibbles_len common) (len prefix)) [
            | true ↦ split rec n nibble search v (into_buf common) prefix h
            | false ↦ descend rec n (suc nibble) (trim_front search (nibbles_len common)) v h
          ]
        ] in
        elim (handle_type h) [
          | none_type ↦ (
            with_prefix (set_child n (suc nibble) (new_leaf v)) nibble (into_buf search),
            ok none,
          )
          | leaf_type ↦ present
          | node_type ↦ present
        ])

  unfoldable pub insert_nibble :
      (Nibbles → V → Tree V A → Step (Option V))
      → Tree V A
      → ℕ
      → Nibbles
      → V
      → Option NibbleBuf
      → Option (Handle V A (List NibbleBuf))
      → Step (Option V)
  unfolding insert_at
  insert_nibble rec n nibble search v (some prefix) (some h) =
      insert_at rec n nibble search v prefix h
  insert_nibble rec n nibble search v (some prefix) none = (n, panicked)
  insert_nibble rec n nibble search v none h = (n, panicked)

  -- `_insert`
  unfoldable pub sub_insert : ℕ → Nibbles → V → Tree V A → Step (Option V)
  unfolding insert_here insert_nibble pop_nibble nibbles_len
  sub_insert zero search v n = (n, exhausted)
  sub_insert (suc fuel) search v n = elim (nibbles_len search == 0) [
    | true ↦ insert_here n v (get_handle (children n) 0)
    | false ↦ carry n (pop_nibble search) (λ r.
        insert_nibble (sub_insert fuel) n r.0 r.1 v (get_elem? (extra n) r.0)
          (get_handle (children n) (suc r.0)))
  ]

  -- `Radix::insert`; the assertion on the length is one of debug builds.
  unfoldable pub insert : List ℕ → V → Tree V A → Step (Option V)
  unfolding sub_insert nibbles_new
  insert key v n = sub_insert t.fuel (nibbles_new key) v n
