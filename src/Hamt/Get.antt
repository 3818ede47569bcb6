-- ===== src/Hamt/Get.antt =====
-- structures/hamt/src/lib.rs: `HAMTSearch` and `HAMT::get`, and the reading of a trie as a
-- recursion from the root, which `get` comes to.
use mathlib.Core.Option
use kelvin.Prelude.{ℕ, zero, suc, Option, none, some, if◌then◌else◌, ◌≡◌}
use kelvin.Prelude.Outcome.{Outcome, ok, panicked, exhausted, ◌>>=◌}
use kelvin.Handle.{
  Digest, children, HandleRef, none_ref, leaf_ref, node_ref, get_handle, leaf_of, inner,
}
use kelvin.Search.{SearchResult, leaf_at, path_at, Method, branch_new}
use kelvin.Hamt.{Trie, Hamt, Slot}

module _ {K V A : Type 0} (t : Trie K V A) where
  -- The match of `select` on the leaf in the slot.
  unfoldable pub match_leaf : K → ℕ → Option (K × V) → SearchResult
  match_leaf k slot none = path_at slot
  match_leaf k slot (some (key, val)) = if t.eq key k then leaf_at slot else path_at slot

  -- `Method for HAMTSearch`: the state is the depth.
  unfoldable pub hamt_search : K → Digest → Method (Hamt K V A) ℕ
  unfolding match_leaf
  hamt_search k h = record {
    select = λ n ofs depth. elim (t.select_slot h depth) [
      | none ↦ panicked
      | some slot ↦ elim (get_handle (children n) slot) [
        | none ↦ panicked
        | some child ↦ ok (match_leaf k slot (leaf_of child), suc depth)
      ]
    ];
  }

  -- `HAMT::get` and `ValPath::new`, with the value that the path shows.
  unfoldable pub get : K → Hamt K V A → Outcome (Option V)
  unfolding hamt_search
  get k n = branch_new t.load (hamt_search k (t.hash k)) (suc t.fuel) n 0 >>= λ r.
      ok (Option.map (λ found. found.1.1) r)

  -- The reading of a trie, by what a slot points at; `rec` is `find` one level down.
  unfoldable pub find_at :
      (Hamt K V A → Outcome (Option V)) → K → HandleRef (K × V) A (Unit {0}) → Outcome (Option V)
  find_at rec k none_ref = ok none
  find_at rec k (leaf_ref (key, val)) = ok (if t.eq key k then some val else none)
  find_at rec k (node_ref n) = rec n

  unfoldable pub find : ℕ → ℕ → Digest → K → Hamt K V A → Outcome (Option V)
  unfolding find_at
  find zero depth h k n = exhausted
  find (suc fuel) depth h k n = elim (t.select_slot h depth) [
    | none ↦ panicked
    | some s ↦ elim (get_handle (children n) s) [
      | none ↦ panicked
      | some slot ↦ inner t.load slot >>= find_at (find fuel (suc depth) h k) k
    ]
  ]

  module _ (fuel d : ℕ) (h : Digest) (k : K) (n : Hamt K V A) where
    pub find-none : t.select_slot h d ≡ none → find (suc fuel) d h k n ≡ panicked
    unfolding find
    find-none e = rw (e, find)

    pub find-out :
        (s : ℕ)
        → t.select_slot h d ≡ some s
        → get_handle (children n) s ≡ none
        → find (suc fuel) d h k n ≡ panicked
    unfolding find
    find-out s e g = rw (e, find, g)

    pub find-some :
        (s : ℕ) (slot : Slot K V A)
        → t.select_slot h d ≡ some s
        → get_handle (children n) s ≡ some slot
        → find (suc fuel) d h k n ≡ (inner t.load slot >>= find_at (find fuel (suc d) h k) k)
    unfolding find
    find-some s slot e g = rw (e, find, g)

    pub find-same :
        (s : ℕ) (m : Hamt K V A)
        → t.select_slot h d ≡ some s
        → get_handle (children m) s ≡ get_handle (children n) s
        → find (suc fuel) d h k m ≡ find (suc fuel) d h k n
    unfolding find
    find-same s m e g = rw (e, find) (rw g)
