-- ===== src/Radix/Removal.antt =====
-- structures/radix/src/lib.rs: `remove`, `_remove` and `remove_singleton`.
use kelvin.Prelude.{
  ℕ, zero, suc, ◌-◌, Option, none, some, List, true, false, if◌then◌else◌, ◌==◌, ◌&&◌, ltb,
  get_elem?,
}
use kelvin.Prelude.Outcome.{Outcome, ok, failed, panicked, exhausted, ◌>>=◌}
use kelvin.Handle.{
  Handle, none_type, leaf_type, node_type, Handles, nil, cons, HandleMut, none_mut, leaf_mut,
  node_mut, children, extra, get_handle, set_child, new_leaf, new_empty, into_leaf, handle_type,
  drop_mut, inner_mut,
}
use kelvin.Nibbles.{Nibbles, nibbles_new, nibbles_len, pop_nibble, trim_front, common_prefix}
use kelvin.Nibbles.Buf.{NibbleBuf, as_nibbles, len, push, append}
use kelvin.Radix.{Radix, Tree, Step, carry, no_nibbles, with_prefix}

-- `enum Removed`
pub data Removed (V : Type 0) : Type 0 where
  nothing : Removed V
  taken : V → Removed V
  collapse : V → V → NibbleBuf → ℕ → Removed V

-- The loop of `remove_singleton`: the only handle that is not empty, if it is a leaf.
unfoldable pub scan : {V A X : Type 0} → Handles V A X → ℕ → Option ℕ → Option ℕ
unfolding handle_type
scan nil i single = single
scan (cons h hs) i single =
    let skipped = scan hs (suc i) single in
    let found = scan hs (suc i) (some i) in
    elim (handle_type h) [
      | none_type ↦ skipped
      | leaf_type ↦ elim single [ none ↦ found | some j ↦ none ]
      | node_type ↦ none
    ]

module _ {V A : Type 0} (t : Radix V A) where
  -- The end of `remove_singleton`; there is no prefix at `idx - 1` for the first handle.
  unfoldable pub take_single : Tree V A → Option ℕ → Step t (Option (V × NibbleBuf × ℕ))
  unfolding into_leaf new_empty
  take_single n none = (n, ok none)
  take_single n (some zero) = (set_child n 0 new_empty, panicked)
  take_single n (some (suc i)) = elim (get_handle (children n) (suc i)) [
    | none ↦ (n, panicked)
    | some h ↦ elim (get_elem? (extra n) i) [
      | none ↦ (set_child n (suc i) new_empty, panicked)
      | some prefix ↦ (
        with_prefix (set_child n (suc i) new_empty) i no_nibbles,
        into_leaf h >>= λ l. ok (some (l, prefix, suc i)),
      )
    ]
  ]

  unfoldable pub remove_singleton : Tree V A → Step t (Option (V × NibbleBuf × ℕ))
  unfolding scan take_single
  remove_singleton n = take_single n (scan (children n) 0 none)

  -- A key that ends here.
  unfoldable pub remove_here : Tree V A → Option (Handle V A (List NibbleBuf)) → Step t (Removed V)
  unfolding handle_type into_leaf new_empty
  remove_here n none = (n, panicked)
  remove_here n (some h) = elim (handle_type h) [
    | none_type ↦ (n, ok nothing)
    | leaf_type ↦ (set_child n 0 new_empty, into_leaf h >>= λ l. ok (taken l))
    | node_type ↦ (n, panicked)
  ]

  -- After the leaf was taken out, below the root: the node may have a single leaf left.
  unfoldable pub finish_single :
      V → Tree V A × Outcome (Option (V × NibbleBuf × ℕ)) → Step t (Removed V)
  finish_single l (n, ok none) = (n, ok (taken l))
  finish_single l (n, ok (some (single, prefix, i))) = (n, ok (collapse l single prefix i))
  finish_single l (n, failed e) = (n, failed e)
  finish_single l (n, panicked) = (n, panicked)
  finish_single l (n, exhausted) = (n, exhausted)

  unfoldable pub finish_leaf : ℕ → Tree V A → V → Step t (Removed V)
  unfolding finish_single remove_singleton
  finish_leaf zero n l = (n, ok (taken l))
  finish_leaf (suc depth) n l = finish_single l (remove_singleton n)

  -- The leaf of a node that collapsed takes its place, below a longer prefix.
  unfoldable pub collapsed :
      Tree V A → ℕ → V → V → NibbleBuf → ℕ → Option NibbleBuf → Step t (Removed V)
  unfolding push append new_leaf
  collapsed n nibble l single nibbles inner none = (n, panicked)
  collapsed n nibble l single nibbles inner (some prefix) =
      carry t n
        ((if ltb 0 inner then push prefix (inner - 1) else ok prefix) >>= λ longer.
          append longer (as_nibbles nibbles))
        (λ whole.
          (set_child (with_prefix n nibble whole) (suc nibble) (new_leaf single), ok (taken l)))

  unfoldable pub after_remove : Tree V A → ℕ → Outcome (Removed V) → Step t (Removed V)
  unfolding collapsed
  after_remove n nibble (ok (collapse l single nibbles inner)) =
      collapsed n nibble l single nibbles inner (get_elem? (extra n) nibble)
  after_remove n nibble (ok nothing) = (n, ok nothing)
  after_remove n nibble (ok (taken l)) = (n, ok (taken l))
  after_remove n nibble (failed e) = (n, failed e)
  after_remove n nibble panicked = (n, panicked)
  after_remove n nibble exhausted = (n, exhausted)

  -- The recursion, by the reference to the child and what it leaves there; `rec` is `_remove`.
  unfoldable pub remove_below :
      (Tree V A → Step t (Removed V))
      → Tree V A
      → ℕ
      → Handle V A (List NibbleBuf)
      → Outcome (HandleMut V A (List NibbleBuf))
      → Step t (Removed V)
  unfolding drop_mut after_remove
  remove_below rec n nibble slot (ok (node_mut c a)) =
      let (c', r) = rec c in
      after_remove (set_child n (suc nibble) (drop_mut t.annotation c' a)) nibble r
  remove_below rec n nibble slot (ok none_mut) = (set_child n (suc nibble) slot, panicked)
  remove_below rec n nibble slot (ok (leaf_mut _)) = (set_child n (suc nibble) slot, panicked)
  remove_below rec n nibble slot (failed e) = (set_child n (suc nibble) slot, failed e)
  remove_below rec n nibble slot panicked = (set_child n (suc nibble) slot, panicked)
  remove_below rec n nibble slot exhausted = (set_child n (suc nibble) slot, exhausted)

  -- The key ends at the handle of a nibble.
  unfoldable pub remove_found : ℕ → Tree V A → ℕ → Handle V A (List NibbleBuf) → Step t (Removed V)
  unfolding finish_leaf into_leaf new_empty
  remove_found depth n nibble h =
      let out = with_prefix (set_child n (suc nibble) new_empty) nibble no_nibbles in
      carry t out (into_leaf h) (λ l. finish_leaf depth out l)

  unfoldable pub remove_child :
      (Tree V A → Step t (Removed V))
      → Tree V A
      → ℕ
      → Handle V A (List NibbleBuf)
      → Step t (Removed V)
  unfolding remove_below inner_mut
  remove_child rec n nibble h =
      let (slot, r) = inner_mut t.load h in remove_below rec n nibble slot r

  -- The cases of `_remove` at the handle of a nibble.
  unfoldable pub remove_at :
      (Nibbles → Tree V A → Step t (Removed V))
      → ℕ
      → Tree V A
      → ℕ
      → Nibbles
      → NibbleBuf
      → Handle V A (List NibbleBuf)
      → Step t (Removed V)
  unfolding remove_found remove_child common_prefix trim_front nibbles_len len handle_type
  remove_at rec depth n nibble s prefix h =
      carry t n (common_prefix s (as_nibbles prefix)) (λ common.
        let full = nibbles_len common == nibbles_len s && nibbles_len common == len prefix in
        let present : Step t (Removed V) = elim full [
          | true ↦ remove_found depth n nibble h
          | false ↦ elim (ltb (nibbles_len common) (len prefix)) [
            | true ↦ (n, ok nothing)
            | false ↦ remove_child (rec (trim_front s (nibbles_len common))) n nibble h
          ]
        ] in
        elim (handle_type h) [
          | none_type ↦ (n, ok nothing)
          | leaf_type ↦ present
          | node_type ↦ present
        ])

  unfoldable pub remove_nibble :
      (Nibbles → Tree V A → Step t (Removed V))
      → ℕ
      → Tree V A
      → ℕ
      → Nibbles
      → Option NibbleBuf
      → Option (Handle V A (List NibbleBuf))
      → Step t (Removed V)
  unfolding remove_at
  remove_nibble rec depth n nibble s (some prefix) (some h) =
      remove_at rec depth n nibble s prefix h
  remove_nibble rec depth n nibble s (some prefix) none = (n, panicked)
  remove_nibble rec depth n nibble s none h = (n, panicked)

  -- `_remove`
  unfoldable pub sub_remove : ℕ → ℕ → Nibbles → Tree V A → Step t (Removed V)
  unfolding remove_here remove_nibble pop_nibble nibbles_len
  sub_remove zero depth s n = (n, exhausted)
  sub_remove (suc fuel) depth s n = elim (nibbles_len s == 0) [
    | true ↦ remove_here n (get_handle (children n) 0)
    | false ↦ carry t n (pop_nibble s) (λ r.
        remove_nibble (sub_remove fuel (suc depth)) depth n r.0 r.1 (get_elem? (extra n) r.0)
          (get_handle (children n) (suc r.0)))
  ]

  -- The match of `remove`; a collapse at the root is unreachable.
  unfoldable pub removed_value : Removed V → Outcome (Option V)
  removed_value nothing = ok none
  removed_value (taken l) = ok (some l)
  removed_value (collapse l single nibbles i) = panicked

  -- `Radix::remove`; the assertion on the length is one of debug builds.
  unfoldable pub remove : List ℕ → Tree V A → Step t (Option V)
  unfolding sub_remove removed_value nibbles_new
  remove key n = let (n', r) = sub_remove t.fuel 0 (nibbles_new key) n in (n', r >>= removed_value)
