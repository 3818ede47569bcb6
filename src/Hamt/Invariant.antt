-- ===== src/Hamt/Invariant.antt =====
-- The invariant of a trie: no node is deeper than a digest has slots, every node has its full width, and every leaf lies on the path that the
-- slots of its key's digest name.
use kelvin.Prelude.{ℕ, zero, suc, ◌<◌, ◌≤◌, none, some, ◌≡◌, ◌↔◌, arith, dec_lt, true}
use kelvin.Prelude.Outcome.{ok}
use kelvin.Handle.{
  children, HandleRef, none_ref, leaf_ref, node_ref, get_handle, inner, count_handles,
}
use kelvin.Hamt.{Trie, Hamt, Slot}

-- What the trie relies on of its parameters: `==` decides equality, a slot is below the width, and
-- all digests have one length, which bounds the depth.
pub record IsLawful {K V A : Type 0} (t : Trie K V A) : Type 0 where
  pub eq_iff : (j k : K) → (t.eq j k ≡ true) ↔ (j ≡ k)
  pub slot_bound : (k : K) (d s : ℕ) → t.select_slot (t.hash k) d ≡ some s → s < t.width
  -- the slots of a digest are exactly those above the depth that the fuel names
  pub no_slot : (k : K) (d : ℕ) → t.fuel ≤ d → t.select_slot (t.hash k) d ≡ none
  pub has_slot : (k : K) (d : ℕ) → d < t.fuel → (s : ℕ) × (t.select_slot (t.hash k) d ≡ some s)

module _ {K V A : Type 0} (t : Trie K V A) where
  -- A leaf in slot `s` of a node at depth `d`: `Q` says that its key belongs below this node.
  abbrev pub IsPlaced :
      (ℕ → (K → Type 0) → Hamt K V A → Type 0)
      → ℕ
      → (K → Type 0)
      → ℕ
      → HandleRef (K × V) A (Unit {0})
      → Type 0
  IsPlaced below d Q s none_ref = Unit
  IsPlaced below d Q s (leaf_ref (key, val)) = Q key × (t.select_slot (t.hash key) d ≡ some s)
  IsPlaced below d Q s (node_ref n) =
      below (suc d) (λ key. Q key × (t.select_slot (t.hash key) d ≡ some s)) n

  abbrev pub IsTrie : ℕ → ℕ → (K → Type 0) → Hamt K V A → Type 0
  IsTrie zero d Q n = Unit
  IsTrie (suc fuel) d Q n =
      (d < t.fuel)
      × (count_handles (children n) ≡ t.width)
      × ((s : ℕ) (slot : Slot K V A) (r : HandleRef (K × V) A (Unit {0}))
          → get_handle (children n) s ≡ some slot
          → inner t.load slot ≡ ok r
          → IsPlaced (IsTrie fuel) d Q s r)

-- Whether a depth is within the digest depends on the depth alone.
module _ {K V A : Type 0} (t : Trie K V A) (lawful : IsLawful t) where
  pub same_depth :
      (j k : K) (d : ℕ) → t.select_slot (t.hash j) d ≡ none → t.select_slot (t.hash k) d ≡ none
  same_depth j k d e = elim (dec_lt d t.fuel) [
    | yes p ↦ absurd (cc (e, (lawful.has_slot j d p).1))
    | no p ↦ lawful.no_slot k d (omega arith)
  ]

  pub within : (k : K) (d s : ℕ) → t.select_slot (t.hash k) d ≡ some s → d < t.fuel
  within k d s e = elim (dec_lt d t.fuel) [
    | yes p ↦ p
    | no p ↦ absurd (cc (e, lawful.no_slot k d (omega arith)))
  ]
