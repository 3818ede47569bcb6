-- ===== src/Two3/Removal.antt =====
-- structures/two3/src/lib.rs: `remove`, `_remove` and the merging of nodes that are left with one
-- handle.
use kelvin.Prelude.{ℕ, zero, suc, Option, none, some, not, if◌then◌else◌, ltb, ◌==◌}
use kelvin.Prelude.Outcome.{Outcome, ok, failed, panicked, exhausted, ◌>>=◌}
use kelvin.Handle.{
  compound, HandleMut, none_mut, leaf_mut, node_mut, children, get_handle, set_child, count_handles,
  new_empty, new_node, into_leaf, into_node, node_annotation, drop_mut, inner_mut,
}
use kelvin.Search.{SearchResult, leaf_at, path_at, no_result}
use kelvin.Two3.{Two3, Slot, Slots, Two3Tree, Step, RemoveResult, noop, removed, merge, select}

module _ {K V A : Type 0} (t : Two3 K V A) where
  abbrev pub RemoveStep : Type 0
  RemoveStep = Step t (RemoveResult (K × V))

  -- `Action::Remove`
  unfoldable pub finish_take : ℕ → Two3Tree K V A → Slots K V A → Outcome (K × V) → RemoveStep
  finish_take zero n rest (ok l) = (compound tt rest, ok (removed l))
  finish_take (suc depth) n rest (ok l) =
      (compound tt rest, ok (if ltb (count_handles rest) 2 then merge l else removed l))
  finish_take depth n rest (failed e) = (n, failed e)
  finish_take depth n rest panicked = (n, panicked)
  finish_take depth n rest exhausted = (n, exhausted)

  unfoldable pub take_at : ℕ → Two3Tree K V A → Outcome (Slot K V A × Slots K V A) → RemoveStep
  unfolding finish_take
  take_at depth n (ok (h, rest)) = finish_take depth n rest (into_leaf h)
  take_at depth n (failed e) = (n, failed e)
  take_at depth n panicked = (n, panicked)
  take_at depth n exhausted = (n, exhausted)

  -- Cases A and B: the handles to merge with those of the node before. Both are returned as they are
  -- left, the handles to merge first.
  unfoldable pub merge_prev : Slots K V A → Slots K V A → Outcome (Slots K V A × Slots K V A)
  merge_prev to_merge prev =
      if count_handles prev == 2
      then (elim (t.vec.pop to_merge) [
        | none ↦ panicked
        | some (popped, rest) ↦ t.vec.push prev popped >>= λ prev'. ok (rest, prev')
      ])
      else (elim (t.vec.pop prev) [
        | none ↦ panicked
        | some (popped, prev') ↦ t.vec.insert to_merge 0 popped >>= λ more. ok (more, prev')
      ])

  -- Cases C and D: with those of the node after.
  unfoldable pub merge_next : Slots K V A → Slots K V A → Outcome (Slots K V A × Slots K V A)
  merge_next to_merge next =
      if count_handles next == 2
      then (elim (t.vec.pop to_merge) [
        | none ↦ panicked
        | some (popped, rest) ↦ t.vec.insert next 0 popped >>= λ next'. ok (rest, next')
      ])
      else (t.vec.remove next 0 >>= λ r. t.vec.push to_merge r.0 >>= λ more. ok (more, r.1))

  -- A root with a single handle is replaced by what the handle holds.
  unfoldable pub replace_root : Two3Tree K V A → K × V → Outcome (Two3Tree K V A) → RemoveStep
  replace_root n l (ok root) = (root, ok (removed l))
  replace_root n l (failed e) = (n, failed e)
  replace_root n l panicked = (n, panicked)
  replace_root n l exhausted = (n, exhausted)

  unfoldable pub lowered : ℕ → Two3Tree K V A → K × V → RemoveStep
  unfolding replace_root
  lowered zero n l = elim (get_handle (children n) 0) [
    | none ↦ (n, panicked)
    | some h ↦ replace_root n l (into_node h)
  ]
  lowered (suc depth) n l = (n, ok (merge l))

  unfoldable pub drop_emptied :
      ℕ → Two3Tree K V A → K × V → Outcome (Slot K V A × Slots K V A) → RemoveStep
  unfolding lowered
  drop_emptied depth n l (ok (h, rest)) =
      if ltb (count_handles rest) 2
      then lowered depth (compound tt rest) l
      else (compound tt rest, ok (removed l))
  drop_emptied depth n l (failed e) = (n, failed e)
  drop_emptied depth n l panicked = (n, panicked)
  drop_emptied depth n l exhausted = (n, exhausted)

  unfoldable pub swap_back : Two3Tree K V A → ℕ → K × V → Outcome (Slot K V A) → RemoveStep
  swap_back n i l (ok h) = (set_child n i h, ok (removed l))
  swap_back n i l (failed e) = (n, failed e)
  swap_back n i l panicked = (n, panicked)
  swap_back n i l exhausted = (n, exhausted)

  -- The end of `Action::Merge`, by what is left of the handles to merge.
  unfoldable pub finish_merge : ℕ → Two3Tree K V A → ℕ → K × V → Slots K V A → RemoveStep
  unfolding swap_back drop_emptied
  finish_merge depth n i l to_merge =
      if ltb 0 (count_handles to_merge)
      then swap_back n i l (new_node t.annotation (compound tt to_merge))
      else drop_emptied depth n l (t.vec.remove (children n) i)

  -- After the neighbour at `j` was changed: its reference is dropped.
  unfoldable pub merged :
      ℕ → Two3Tree K V A → ℕ → ℕ → A → K × V → Outcome (Slots K V A × Slots K V A) → RemoveStep
  unfolding finish_merge
  merged depth n i j a l (ok (to_merge, neighbour)) =
      finish_merge depth (set_child n j (drop_mut t.annotation (compound tt neighbour) a)) i l
        to_merge
  merged depth n i j a l (failed e) = (n, failed e)
  merged depth n i j a l panicked = (n, panicked)
  merged depth n i j a l exhausted = (n, exhausted)

  -- The neighbour at `j`, by the reference to it and what that leaves; `combine` is `merge_prev` or
  -- `merge_next`. A neighbour that cannot be restored is an error after the child was taken out.
  unfoldable pub merge_with :
      (Slots K V A → Slots K V A → Outcome (Slots K V A × Slots K V A))
      → ℕ
      → Two3Tree K V A
      → ℕ
      → ℕ
      → K × V
      → Slots K V A
      → Slot K V A
      → Outcome (HandleMut (K × V) A (Unit {0}))
      → RemoveStep
  unfolding merged
  merge_with combine depth n i j l to_merge slot (ok (node_mut m a)) =
      merged depth n i j a l (combine to_merge (children m))
  merge_with combine depth n i j l to_merge slot (ok none_mut) = (set_child n j slot, panicked)
  merge_with combine depth n i j l to_merge slot (ok (leaf_mut _)) = (set_child n j slot, panicked)
  merge_with combine depth n i j l to_merge slot (failed e) = (set_child n j slot, failed e)
  merge_with combine depth n i j l to_merge slot panicked = (set_child n j slot, panicked)
  merge_with combine depth n i j l to_merge slot exhausted = (set_child n j slot, exhausted)

  unfoldable pub merge_at :
      (Slots K V A → Slots K V A → Outcome (Slots K V A × Slots K V A))
      → ℕ
      → Two3Tree K V A
      → ℕ
      → ℕ
      → K × V
      → Slots K V A
      → RemoveStep
  unfolding merge_with
  merge_at combine depth n i j l to_merge = elim (get_handle (children n) j) [
    | none ↦ (n, panicked)
    | some slot ↦
        let (slot', r) = inner_mut t.load slot in merge_with combine depth n i j l to_merge slot' r
  ]

  -- The neighbour is the node before, or the one after the first; the child is out of its place.
  unfoldable pub merge_beside : ℕ → Two3Tree K V A → ℕ → K × V → Slots K V A → RemoveStep
  unfolding merge_at merge_prev merge_next
  merge_beside depth n zero l to_merge = merge_at merge_next depth n 0 1 l to_merge
  merge_beside depth n (suc i) l to_merge = merge_at merge_prev depth n (suc i) i l to_merge

  -- `Action::Merge`
  unfoldable pub merge_out : ℕ → Two3Tree K V A → ℕ → K × V → Outcome (Two3Tree K V A) → RemoveStep
  unfolding merge_beside
  merge_out depth n i l (ok c) = merge_beside depth n i l (children c)
  merge_out depth n i l (failed e) = (n, failed e)
  merge_out depth n i l panicked = (n, panicked)
  merge_out depth n i l exhausted = (n, exhausted)

  unfoldable pub merge_child : ℕ → Two3Tree K V A → ℕ → K × V → RemoveStep
  unfolding merge_out
  merge_child depth n i l = elim (get_handle (children n) i) [
    | none ↦ (n, panicked)
    | some h ↦ merge_out depth (set_child n i new_empty) i l (into_node h)
  ]

  -- What follows the call one level down, in the node that holds the child at `i`.
  unfoldable pub after_remove : ℕ → Two3Tree K V A → ℕ → Outcome (RemoveResult (K × V)) → RemoveStep
  unfolding merge_child
  after_remove depth n i (ok noop) = (n, ok noop)
  after_remove depth n i (ok (removed l)) = (n, ok (removed l))
  after_remove depth n i (ok (merge l)) = merge_child depth n i l
  after_remove depth n i (failed e) = (n, failed e)
  after_remove depth n i panicked = (n, panicked)
  after_remove depth n i exhausted = (n, exhausted)

  -- The node arm, by the annotation of the child: `rec` is `_remove`.
  unfoldable pub remove_below :
      (ℕ → Two3Tree K V A → RemoveStep)
      → ℕ
      → K
      → Two3Tree K V A
      → ℕ
      → Two3Tree K V A
      → A
      → Option A
      → RemoveStep
  unfolding after_remove
  remove_below rec depth k n i c a none = (set_child n i (drop_mut t.annotation c a), panicked)
  remove_below rec depth k n i c a (some b) =
      let (c', r) = rec (suc depth) c in
      let below = after_remove depth (set_child n i (drop_mut t.annotation c' a)) i r in
      if not (t.lt (t.max_key b) k)
      then below
      else (set_child n i (drop_mut t.annotation c a), ok noop)

  -- The arms of `SearchResult::Path`, by the reference to child `i` and what it leaves there.
  unfoldable pub remove_path :
      (ℕ → Two3Tree K V A → RemoveStep)
      → ℕ
      → K
      → Two3Tree K V A
      → ℕ
      → Slot K V A
      → Outcome (HandleMut (K × V) A (Unit {0}))
      → RemoveStep
  unfolding remove_below
  remove_path rec depth k n i slot (ok none_mut) = (set_child n i slot, panicked)
  remove_path rec depth k n i slot (ok (leaf_mut _)) = (set_child n i slot, ok noop)
  remove_path rec depth k n i slot (ok (node_mut c a)) =
      remove_below rec depth k n i c a (node_annotation t.annotation c)
  remove_path rec depth k n i slot (failed e) = (set_child n i slot, failed e)
  remove_path rec depth k n i slot panicked = (set_child n i slot, panicked)
  remove_path rec depth k n i slot exhausted = (set_child n i slot, exhausted)

  unfoldable pub remove_selected :
      (ℕ → Two3Tree K V A → RemoveStep) → ℕ → K → Two3Tree K V A → SearchResult → RemoveStep
  unfolding take_at remove_path
  remove_selected rec depth k n (leaf_at i) = take_at depth n (t.vec.remove (children n) i)
  remove_selected rec depth k n no_result = (n, ok noop)
  remove_selected rec depth k n (path_at i) = elim (get_handle (children n) i) [
    | none ↦ (n, panicked)
    | some slot ↦ let (slot', r) = inner_mut t.load slot in remove_path rec depth k n i slot' r
  ]

  -- `_remove`
  unfoldable pub sub_remove : ℕ → ℕ → K → Two3Tree K V A → RemoveStep
  unfolding remove_selected
  sub_remove zero depth k n = (n, exhausted)
  sub_remove (suc fuel) depth k n =
      remove_selected (λ d c. sub_remove fuel d k c) depth k n (select t k (children n))

  -- The match of `remove`; a merge at the root is unreachable.
  unfoldable pub removed_value : RemoveResult (K × V) → Outcome (Option V)
  removed_value (removed (key, val)) = ok (some val)
  removed_value noop = ok none
  removed_value (merge l) = panicked

  -- `Two3Tree::remove`
  unfoldable pub remove : K → Two3Tree K V A → Step t (Option V)
  unfolding sub_remove removed_value
  remove k n = let (n', r) = sub_remove t.fuel 0 k n in (n', r >>= removed_value)
