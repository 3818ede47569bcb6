-- ===== src/Branch.antt =====
-- src/raw_branch.rs and src/branch.rs: branches through which a leaf is written, and the relinking of the
-- nodes that they own.
--
-- A level refers to its node by a cached reference, by the borrow that the branch was made of, or owns
-- a copy. The borrowed node is the last of the levels; what a branch leaves there is what `unlink`
-- returns. `NodeRef::Placeholder` stands only inside `deref_mut` and is left out.
pub mod Iter
pub mod Unlinks
pub mod Finds
pub mod Plain
pub mod Writes
pub mod Turns
pub mod Steps
pub mod Updates
pub mod Maps
mod Tests
use kelvin.Prelude.{
  ℕ, zero, suc, ◌+◌, Option, none, some, List, [], ◌∷◌, Bool, true, false, if◌then◌else◌, ltb,
}
use kelvin.Prelude.Outcome.{Outcome, ok, failed, panicked, exhausted, ◌>>=◌}
use kelvin.Annotation.{Annotation}
use kelvin.Handle.{
  Digest, Handle, empty, leaf, node, persisted, HandleRef, none_ref, leaf_ref, node_ref, Node,
  children, set_child, get_handle, count_handles, new_node, leaf_of,
}
use kelvin.Search.{
  Method, Level, Found, found_leaf, found_path, found_none, search_level, referencing, level_leaf,
}

-- `NodeRef`
pub data NodeRef (N : Type 0) : Type 0 where
  cached mutable owned : N → NodeRef N

-- `Level`
pub record RefLevel (N : Type 0) : Type 0 where
  pub ofs : ℕ
  pub node : NodeRef N

-- `BranchMut`, which is its `RawBranch`; the last level of the vector is the head of the list.
pub record BranchMut (N : Type 0) : Type 0 where
  pub levels : List (RefLevel N)
  pub exact : Bool

module _ {N : Type 0} where
  -- `Deref for NodeRef`, and `NodeRef::inner`
  abbrev pub deref : NodeRef N → N
  deref (cached n) = n
  deref (mutable n) = n
  deref (owned n) = n

  -- A write through `DerefMut for NodeRef`, which makes a cached node an owned copy.
  abbrev pub written : NodeRef N → N → NodeRef N
  written (cached n) n' = owned n'
  written (mutable n) n' = mutable n'
  written (owned n) n' = owned n'

  -- A level as the search sees it.
  abbrev pub plain : RefLevel N → Level N
  plain level = record { ofs = level.ofs; at = deref level.node }

  -- The first level, which the branch is made of, after the search.
  abbrev pub root_of : N → List (RefLevel N) → N
  root_of n [] = n
  root_of n (level ∷ up) = root_of (deref level.node) up

module _ {L A X : Type 0} where
  -- `children_mut()[ofs] = h`
  unfoldable pub put_child : Node L A X → ℕ → Handle L A X → Outcome (Node L A X)
  put_child n i h = if ltb i (count_handles (children n)) then ok (set_child n i h) else panicked

  -- `RawBranch::advance`
  unfoldable pub advance : List (RefLevel (Node L A X)) → List (RefLevel (Node L A X))
  advance [] = []
  advance (level ∷ up) = record level { ofs = level.ofs + 1 } ∷ up

  -- `RawBranch::leaf`
  unfoldable pub branch_leaf : BranchMut (Node L A X) → Option L
  unfolding level_leaf
  branch_leaf b = elim b.levels [
    | [] ↦ none
    | level ∷ up ↦ if b.exact then level_leaf (plain level) else none
  ]

  -- `Handle::leaf_mut`, with the leaf that the borrower leaves behind.
  unfoldable pub write_leaf : (L → L) → Handle L A X → Option (Handle L A X)
  write_leaf f (leaf l) = some (leaf (f l))
  write_leaf f empty = none
  write_leaf f (node n a c) = none
  write_leaf f (persisted d a) = none

  -- `Level::leaf_mut`: `children_mut()` copies a cached node, whatever the handle is.
  unfoldable pub level_leaf_mut : (L → L) → RefLevel (Node L A X) → Option (RefLevel (Node L A X))
  unfolding write_leaf
  level_leaf_mut f level = elim (get_handle (children (deref level.node)) level.ofs) [
    | none ↦ none
    | some h ↦ elim (write_leaf f h) [
      | none ↦ none
      | some h' ↦
          some
            (record level { node = written level.node (set_child (deref level.node) level.ofs h') })
    ]
  ]

  -- `RawBranch::leaf_mut`, and `DerefMut for BranchMut`, which expects it.
  unfoldable pub deref_mut : (L → L) → BranchMut (Node L A X) → Outcome (BranchMut (Node L A X))
  unfolding level_leaf_mut
  deref_mut f b = elim b.levels [
    | [] ↦ panicked
    | level ∷ up ↦
        if b.exact
        then (elim (level_leaf_mut f level) [
          | none ↦ panicked
          | some level' ↦ ok (record b { levels = level' ∷ up })
        ])
        else panicked
  ]

module _ {L A X : Type 0} (ann : Annotation L A) where
  -- `Level::insert_child`
  unfoldable pub insert_child : RefLevel (Node L A X) → Node L A X → Outcome (RefLevel (Node L A X))
  unfolding new_node put_child
  insert_child level n = new_node ann n >>= λ h. put_child (deref level.node) level.ofs h >>= λ n'.
      ok (record level { node = written level.node n' })

  -- A popped node goes into the level above it if it is owned.
  unfoldable pub relinked :
      NodeRef (Node L A X) → RefLevel (Node L A X) → Outcome (RefLevel (Node L A X))
  unfolding insert_child
  relinked (owned o) last = insert_child last o
  relinked (cached n) last = ok last
  relinked (mutable n) last = ok last

  -- `RawBranch::pop_level`
  unfoldable pub pop_level : List (RefLevel (Node L A X)) → Outcome (List (RefLevel (Node L A X)))
  unfolding relinked
  pop_level [] = ok []
  pop_level (popped ∷ []) = ok []
  pop_level (popped ∷ last ∷ up) = relinked popped.node last >>= λ last'. ok (last' ∷ up)

  -- `RawBranch::relink`, by the nodes that are popped: the first level's in the end.
  unfoldable pub unlink : NodeRef (Node L A X) → List (RefLevel (Node L A X)) → Outcome (Node L A X)
  unfolding relinked
  unlink popped [] = ok (deref popped)
  unlink popped (last ∷ up) = relinked popped last >>= λ last'. unlink last'.node up

  -- `Drop for BranchMut`, for a branch into the node `n`.
  unfoldable pub drop_branch : Node L A X → List (RefLevel (Node L A X)) → Outcome (Node L A X)
  unfolding unlink
  drop_branch n [] = ok n
  drop_branch n (level ∷ up) = unlink level.node up

module _ {L A X S : Type 0} (ann : Annotation L A) (load : Digest → Outcome (Node L A X))
    (m : Method (Node L A X) S) where
  -- What a round of the loop of `RawBranch::search` comes to.
  pub data Turn : Type 0 where
    halt : Bool → S → Turn
    again : S → Turn

  -- The match on what the level refers to; an error ends the search with the levels as they are.
  unfoldable pub pushed :
      List (RefLevel (Node L A X))
      → S
      → Outcome (HandleRef L A X)
      → List (RefLevel (Node L A X)) × Outcome Turn
  pushed levels s (ok (node_ref n)) = (record { ofs = 0; node = cached n } ∷ levels, ok (again s))
  pushed levels s (ok none_ref) = (levels, ok (halt false s))
  pushed levels s (ok (leaf_ref l)) = (levels, ok (halt false s))
  pushed levels s (failed e) = (levels, failed e)
  pushed levels s panicked = (levels, panicked)
  pushed levels s exhausted = (levels, exhausted)

  -- The level above has its turn; a panic in `pop_level` leaves no branch.
  unfoldable pub popped :
      S → Outcome (List (RefLevel (Node L A X))) → List (RefLevel (Node L A X)) × Outcome Turn
  unfolding advance
  popped s (ok levels) = (advance levels, ok (again s))
  popped s (failed e) = ([], failed e)
  popped s panicked = ([], panicked)
  popped s exhausted = ([], exhausted)

  unfoldable pub after_search :
      RefLevel (Node L A X)
      → List (RefLevel (Node L A X))
      → Found × Level (Node L A X) × S
      → List (RefLevel (Node L A X)) × Outcome Turn
  unfolding pushed popped referencing pop_level
  after_search level up (found_leaf, lv, s) = (record level { ofs = lv.ofs } ∷ up, ok (halt true s))
  after_search level up (found_path, lv, s) =
      pushed (record level { ofs = lv.ofs } ∷ up) s (referencing load m lv)
  after_search level [] (found_none, lv, s) =
      (record level { ofs = lv.ofs } ∷ [], ok (halt false s))
  after_search level (b ∷ up) (found_none, lv, s) =
      popped s (pop_level ann (record level { ofs = lv.ofs } ∷ b ∷ up))

  unfoldable pub round :
      List (RefLevel (Node L A X)) → S → List (RefLevel (Node L A X)) × Outcome Turn
  unfolding after_search search_level
  round [] s = ([], ok (halt false s))
  round (level ∷ up) s = elim (search_level load m (plain level) s) [
    | ok r ↦ after_search level up r
    | failed e ↦ (level ∷ up, failed e)
    | panicked ↦ (level ∷ up, panicked)
    | exhausted ↦ (level ∷ up, exhausted)
  ]

  -- The next round, or the end.
  unfoldable pub onward :
      (List (RefLevel (Node L A X)) → S → List (RefLevel (Node L A X)) × Outcome (Bool × S))
      → List (RefLevel (Node L A X)) × Outcome Turn
      → List (RefLevel (Node L A X)) × Outcome (Bool × S)
  onward search (levels, ok (halt exact s)) = (levels, ok (exact, s))
  onward search (levels, ok (again s)) = search levels s
  onward search (levels, failed e) = (levels, failed e)
  onward search (levels, panicked) = (levels, panicked)
  onward search (levels, exhausted) = (levels, exhausted)

  -- `RawBranch::search`: the levels stay behind where it fails.
  unfoldable pub search_from :
      ℕ → List (RefLevel (Node L A X)) → S → List (RefLevel (Node L A X)) × Outcome (Bool × S)
  unfolding round onward
  search_from zero levels s = (levels, exhausted)
  search_from (suc fuel) levels s = onward (search_from fuel) (round levels s)

  -- `BranchMut::new`: the node that is left without a branch, and the branch if the search has found a
  -- leaf, with the method that it leaves.
  unfoldable pub opened :
      Node L A X
      → List (RefLevel (Node L A X)) × Outcome (Bool × S)
      → Node L A X × Outcome (Option (BranchMut (Node L A X) × L) × S)
  unfolding branch_leaf
  opened n (levels, ok (exact, s)) = (
    root_of n levels,
    ok (
      elim (branch_leaf (record { levels = levels; exact = exact })) [
        | none ↦ none
        | some l ↦ some (record { levels = levels; exact = exact }, l)
      ],
      s,
    ),
  )
  opened n (levels, failed e) = (root_of n levels, failed e)
  opened n (levels, panicked) = (root_of n levels, panicked)
  opened n (levels, exhausted) = (root_of n levels, exhausted)

  unfoldable pub branch_mut_new :
      ℕ → Node L A X → S → Node L A X × Outcome (Option (BranchMut (Node L A X) × L) × S)
  unfolding search_from opened
  branch_mut_new fuel n s =
      opened n (search_from fuel (record { ofs = 0; node = mutable n } ∷ []) s)

  -- `Map::get_mut` by `ValPathMut::new`, which asks for an exact branch, a write through the path and
  -- its drop: the node that is left, and the leaf that was there.
  unfoldable pub through :
      (L → L) → Node L A X → BranchMut (Node L A X) → L → Outcome (Node L A X × Option L)
  unfolding deref_mut drop_branch
  through f n b l =
      if b.exact
      then (deref_mut f b >>= λ b'. drop_branch ann n b'.levels >>= λ n'. ok (n', some l))
      else (drop_branch ann n b.levels >>= λ n'. ok (n', none))

  unfoldable pub settled :
      Node L A X → Outcome (Node L A X × Option L) → Node L A X × Outcome (Option L)
  settled n (ok (n', r)) = (n', ok r)
  settled n (failed e) = (n, failed e)
  settled n panicked = (n, panicked)
  settled n exhausted = (n, exhausted)

  unfoldable pub modified :
      (L → L)
      → Node L A X × Outcome (Option (BranchMut (Node L A X) × L) × S)
      → Node L A X × Outcome (Option L)
  unfolding through settled
  modified f (n, ok (some (b, l), s)) = settled n (through f n b l)
  modified f (n, ok (none, s)) = (n, ok none)
  modified f (n, failed e) = (n, failed e)
  modified f (n, panicked) = (n, panicked)
  modified f (n, exhausted) = (n, exhausted)

  unfoldable pub modify : ℕ → (L → L) → Node L A X → S → Node L A X × Outcome (Option L)
  unfolding branch_mut_new modified
  modify fuel f n s = modified f (branch_mut_new fuel n s)
