-- ===== src/Search.antt =====
-- src/search.rs, src/raw_branch.rs and src/branch.rs: searching for a leaf, with the path to it.
--
-- An immutable branch is modelled: its levels are `NodeRef::Cached`, and popping one relinks
-- nothing.
pub mod Values
use kelvin.Prelude.{
  ℕ, zero, suc, ◌+◌, Option, none, some, List, [], ◌∷◌, Bool, true, false, if◌then◌else◌, ltb,
}
use mathlib.Core.Option
use kelvin.Prelude.Outcome.{Outcome, ok, exhausted, ◌>>=◌}
use kelvin.Handle.{
  Digest, Node, children, HandleRef, none_ref, leaf_ref, node_ref, get_handle, count_handles,
  leaf_of, inner,
}

-- `SearchResult`; the offset is relative to the level's own.
pub data SearchResult : Type 0 where
  leaf_at path_at : ℕ → SearchResult
  no_result : SearchResult

-- `Method<C, H>`: `select` updates the method's own state, and may panic.
pub record Method (N S : Type 0) : Type 0 where
  pub select : N → ℕ → S → Outcome (SearchResult × S)

-- `Level`
pub record Level (N : Type 0) : Type 0 where
  pub ofs : ℕ
  pub at : N

-- `Found`
pub data Found : Type 0 where
  found_leaf found_path found_none : Found

-- `RawBranch`; the last level of the vector is the head of the list.
pub record RawBranch (N : Type 0) : Type 0 where
  pub levels : List (Level N)
  pub exact : Bool

module _ {L A X S : Type 0} (load : Digest → Outcome (Node L A X)) (m : Method (Node L A X) S) where
  -- The match of `Level::search`.
  unfoldable pub moved : Level (Node L A X) → SearchResult × S → Found × Level (Node L A X) × S
  moved level (leaf_at i, s) = (found_leaf, record level { ofs = level.ofs + i }, s)
  moved level (path_at i, s) = (found_path, record level { ofs = level.ofs + i }, s)
  moved level (no_result, s) = (found_none, level, s)

  -- `Level::search`
  unfoldable pub search_level : Level (Node L A X) → S → Outcome (Found × Level (Node L A X) × S)
  unfolding moved
  search_level level s =
      if ltb (count_handles (children level.at)) (level.ofs + 1)
      then ok (found_none, level, s)
      else (m.select level.at level.ofs s >>= λ r. ok (moved level r))

  -- `Level::referencing`; `NodeRef::handle` reads past the end as an empty handle.
  unfoldable pub referencing : Level (Node L A X) → Outcome (HandleRef L A X)
  referencing level = elim (get_handle (children level.at) level.ofs) [
    | none ↦ ok none_ref
    | some h ↦ inner load h
  ]

  -- `RawBranch::advance`
  unfoldable pub advance : List (Level (Node L A X)) → List (Level (Node L A X))
  advance [] = []
  advance (level ∷ below) = record level { ofs = level.ofs + 1 } ∷ below

  -- What a round of the loop of `RawBranch::search` comes to: the loop ends, or goes on.
  pub data Round : Type 0 where
    stop : List (Level (Node L A X)) → Bool → S → Round
    go_on : List (Level (Node L A X)) → S → Round

  unfoldable pub after_path : List (Level (Node L A X)) → S → HandleRef L A X → Round
  after_path levels s (node_ref n) = go_on (record { ofs = 0; at = n } ∷ levels) s
  after_path levels s none_ref = stop levels false s
  after_path levels s (leaf_ref l) = stop levels false s

  unfoldable pub after_search :
      List (Level (Node L A X)) → Found × Level (Node L A X) × S → Outcome Round
  unfolding referencing after_path advance
  after_search below (found_leaf, level, s) = ok (stop (level ∷ below) true s)
  after_search below (found_path, level, s) =
      referencing level >>= λ r. ok (after_path (level ∷ below) s r)
  after_search [] (found_none, level, s) = ok (stop (level ∷ []) false s)
  after_search (b ∷ below) (found_none, level, s) = ok (go_on (advance (b ∷ below)) s)

  unfoldable pub round : List (Level (Node L A X)) → S → Outcome Round
  unfolding search_level after_search
  round [] s = ok (stop [] false s)
  round (level ∷ below) s = search_level level s >>= after_search below

  -- `RawBranch::search`
  unfoldable pub search_from :
      ℕ → List (Level (Node L A X)) → S → Outcome (RawBranch (Node L A X) × S)
  unfolding round
  search_from zero levels s = exhausted
  search_from (suc fuel) levels s = round levels s >>= λ r. elim r [
    | stop levels' exact s' ↦ ok (record { levels = levels'; exact = exact }, s')
    | go_on levels' s' ↦ search_from fuel levels' s'
  ]

module _ {L A X : Type 0} where
  -- `Level::leaf`
  unfoldable pub level_leaf : Level (Node L A X) → Option L
  level_leaf level = elim (get_handle (children level.at) level.ofs) [
    | none ↦ none
    | some h ↦ leaf_of h
  ]

  -- `RawBranch::leaf`
  unfoldable pub branch_leaf : RawBranch (Node L A X) → Option L
  unfolding level_leaf
  branch_leaf b = elim b.levels [
    | [] ↦ none
    | level ∷ below ↦ if b.exact then level_leaf level else none
  ]

  -- `Branch::new`, with the leaf that `Deref` shows: `inner.leaf().is_some()` decides.
  unfoldable pub branch_new :
      {S : Type 0}
      → (Digest → Outcome (Node L A X))
      → Method (Node L A X) S
      → ℕ
      → Node L A X
      → S
      → Outcome (Option (RawBranch (Node L A X) × L))
  unfolding search_from branch_leaf
  branch_new load m fuel n s = search_from load m fuel (record { ofs = 0; at = n } ∷ []) s >>= λ r.
      ok (Option.map (λ l. (r.0, l)) (branch_leaf r.0))
