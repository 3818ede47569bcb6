-- ===== src/Iter.antt =====
-- src/iter.rs, and the iterators and the lookup of src/map.rs: the leaves of a compound, one call of
-- `next` at a time, by the method `First`.
--
-- `Some(Err(e))` of an iterator is `failed e`, `None` is `ok none`.
pub mod Walk
pub mod Firsts
pub mod Rounds
pub mod Leaves
mod Tests
use mathlib.Core.Option
use kelvin.Prelude.{ℕ, zero, suc, true, false, Option, none, some, List, [], ◌∷◌}
use kelvin.Prelude.Outcome.{Outcome, ok, failed, panicked, exhausted, ◌>>=◌}
use kelvin.Handle.{Digest, Node}
use kelvin.Search.{Method, RawBranch, search_from, advance, branch_leaf}

-- `LeafIter`
pub data LeafIter (N S : Type 0) : Type 0 where
  initial : N → S → LeafIter N S
  branch : RawBranch N → S → LeafIter N S
  finished : LeafIter N S

module _ {L A X S : Type 0} (load : Digest → Outcome (Node L A X)) (m : Method (Node L A X) S)
    (fuel : ℕ) where
  -- `inner.leaf().is_some()` decides whether there is a branch; the leaf is what `Deref` shows.
  unfoldable pub with_leaf :
      Outcome (RawBranch (Node L A X) × S) → Outcome (Option (RawBranch (Node L A X) × L) × S)
  unfolding branch_leaf
  with_leaf o = o >>= λ r. ok (Option.map (λ l. (r.0, l)) (branch_leaf r.0), r.1)

  -- `Branch::new`, with the method that it leaves.
  unfoldable pub branch_open : Node L A X → S → Outcome (Option (RawBranch (Node L A X) × L) × S)
  unfolding search_from with_leaf
  branch_open n s = with_leaf (search_from load m fuel (record { ofs = 0; at = n } ∷ []) s)

  -- `Branch::search`
  unfoldable pub branch_search :
      RawBranch (Node L A X) → S → Outcome (Option (RawBranch (Node L A X) × L) × S)
  unfolding search_from with_leaf advance
  branch_search b s = with_leaf (search_from load m fuel (advance load m b.levels) s)

  -- What `next` leaves and returns, of a branch that was opened or searched on.
  unfoldable pub resumed :
      Outcome (Option (RawBranch (Node L A X) × L) × S)
      → LeafIter (Node L A X) S × Outcome (Option L)
  resumed (ok (some (b, l), s)) = (branch b s, ok (some l))
  resumed (ok (none, s)) = (finished, ok none)
  resumed (failed e) = (finished, failed e)
  resumed panicked = (finished, panicked)
  resumed exhausted = (finished, exhausted)

  -- `LeafIter::next`
  unfoldable pub next : LeafIter (Node L A X) S → LeafIter (Node L A X) S × Outcome (Option L)
  unfolding resumed branch_open branch_search
  next (initial n s) = resumed (branch_open n s)
  next (branch b s) = resumed (branch_search b s)
  next finished = (finished, ok none)

  -- `ValIter::next`: `part` is the `borrow` of the value.
  unfoldable pub next_part :
      {P : Type 0}
      → (L → P)
      → LeafIter (Node L A X) S
      → LeafIter (Node L A X) S × Outcome (Option P)
  unfolding next
  next_part part it = let (it', o) = next it in (it', o >>= λ leaf. ok (Option.map part leaf))

  -- `KeyIter::next`, over leaves that are a key with its value.
  unfoldable pub next_key :
      {K V : Type 0}
      → (L → K × V)
      → LeafIter (Node L A X) S
      → LeafIter (Node L A X) S × Outcome (Option K)
  unfolding next_part
  next_key entry it = next_part (λ l. (entry l).0) it

  -- What a number of calls returns.
  unfoldable pub calls :
      {P : Type 0} → (L → P) → ℕ → LeafIter (Node L A X) S → List (Outcome (Option P))
  unfolding next_part
  calls part zero it = []
  calls part (suc n) it = let (it', o) = next_part part it in o ∷ calls part n it'

module _ {L A X : Type 0} where
  -- `LeafIterable::iter`
  unfoldable pub iter : Node L A X → LeafIter (Node L A X) (Unit {0})
  iter n = initial n tt

  -- `ValIterable::values`
  unfoldable pub values : Node L A X → LeafIter (Node L A X) (Unit {0})
  unfolding iter
  values n = iter n

  -- `ValPath::new` with its `Deref`: the value at a branch that is exact.
  unfoldable pub val_path :
      {S V : Type 0}
      → (L → V)
      → (Digest → Outcome (Node L A X))
      → Method (Node L A X) S
      → ℕ
      → Node L A X
      → S
      → Outcome (Option V)
  unfolding branch_open
  val_path part load m fuel n s = branch_open load m fuel n s >>= λ r. ok (elim r.0 [
    | none ↦ none
    | some (b, l) ↦ elim b.exact [ true ↦ some (part l) | false ↦ none ]
  ])
