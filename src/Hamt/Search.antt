-- ===== src/Hamt/Search.antt =====
-- `get` is the reading of the trie.
use native.Mathlib.Nat.{zero-add}
use kelvin.Prelude.{
  ℕ, zero, suc, ◌+◌, ◌<◌, Option, none, some, List, [], ◌∷◌, false, ◌≡◌, refl, arith, ◌∙◌, ltb,
  Option-cases, Bool-cases, inl, inr,
}
use kelvin.Prelude.Outcome.{Outcome, ok, failed, panicked, exhausted, ◌>>=◌}
use kelvin.Handle.{
  Digest, children, node_ref, get_handle, leaf_of, inner, empty, leaf, node, persisted,
  count_handles,
}
use kelvin.Search.{
  Level, search_from, branch_leaf, search_level, referencing, level_leaf, moved, after_search, stop,
  go_on,
}
use kelvin.Search.Values.{shown, branch_new-shown}
use kelvin.Hamt.{Trie, Hamt, Slot}
use kelvin.Hamt.Get.{hamt_search, match_leaf, get, find, find_at, find-none, find-out, find-some}
use kelvin.Hamt.Invariant.{IsTrie}

module _ {K V A : Type 0} (t : Trie K V A) (k : K) (h : Digest) where
  abbrev top : Hamt K V A → Level (Hamt K V A)
  top n = record { ofs = 0; at = n }

  not_past : (c : ℕ) → 0 < c → ltb c (0 + 1) ≡ false
  not_past c p = ground arith

  search_level-some :
      (n : Hamt K V A) (d s : ℕ) (slot : Slot K V A)
      → 0 < count_handles (children n)
      → t.select_slot h d ≡ some s
      → get_handle (children n) s ≡ some slot
      → search_level t.load (hamt_search t k h) (top n) d
        ≡ ok (moved t.load (hamt_search t k h) (top n) (match_leaf t k s (leaf_of slot), suc d))
  unfolding search_level hamt_search
  search_level-some n d s slot c e g = rw (not_past _ c, e, g)

  search_level-none :
      (n : Hamt K V A) (d : ℕ)
      → 0 < count_handles (children n)
      → t.select_slot h d ≡ none
      → search_level t.load (hamt_search t k h) (top n) d ≡ panicked
  unfolding search_level hamt_search
  search_level-none n d c e = rw (not_past _ c, e)

  search_level-out :
      (n : Hamt K V A) (d s : ℕ)
      → 0 < count_handles (children n)
      → t.select_slot h d ≡ some s
      → get_handle (children n) s ≡ none
      → search_level t.load (hamt_search t k h) (top n) d ≡ panicked
  unfolding search_level hamt_search
  search_level-out n d s c e g = rw (not_past _ c, e, g)

  -- The rest of a round and of the search, once the slot is known.
  abbrev onward :
      ℕ → ℕ → Hamt K V A → List (Level (Hamt K V A)) → ℕ → Slot K V A → Outcome (Option V)
  onward fuel d n rest s slot = shown (
      after_search t.load (hamt_search t k h) rest
        (moved t.load (hamt_search t k h) (top n) (match_leaf t k s (leaf_of slot), suc d))
      >>= λ r. elim r [
        | stop levels' exact s' ↦ ok (record { levels = levels'; exact = exact }, s')
        | go_on levels' s' ↦ search_from t.load (hamt_search t k h) fuel levels' s'
      ])

  onward-find :
      (fuel d : ℕ) (n : Hamt K V A) (rest : List (Level (Hamt K V A))) (s : ℕ) (slot : Slot K V A)
      → get_handle (children n) s ≡ some slot
      → ((c : Hamt K V A) (below : List (Level (Hamt K V A)))
          → inner t.load slot ≡ ok (node_ref c)
          → shown (search_from t.load (hamt_search t k h) fuel (top c ∷ below) (suc d))
            ≡ find t fuel (suc d) h k c)
      → onward fuel d n rest s slot ≡ (inner t.load slot >>= find_at t (find t fuel (suc d) h k) k)
  unfolding after_search moved match_leaf leaf_of referencing inner find_at branch_leaf level_leaf
  onward-find fuel d n rest s empty g ih = rw (zero-add, g)
  onward-find fuel d n rest s (leaf (key, val)) g ih = elim (Bool-cases (t.eq key k)) [
    | inl same ↦ rw (same, zero-add, g)
    | inr other ↦ rw (other, zero-add, g)
  ]
  onward-find fuel d n rest s (node c a cached) g ih = rw (zero-add, g) (ih c _ refl)
  onward-find fuel d n rest s (persisted dg a) g ih = go (t.load dg) refl
    where
      go :
          (o : Outcome (Hamt K V A))
          → t.load dg ≡ o
          → onward fuel d n rest s (persisted dg a)
            ≡ (inner t.load (persisted dg a) >>= find_at t (find t fuel (suc d) h k) k)
      go (ok c) e = rw (zero-add, g, inner, e) (ih c _ (rw (inner, e)))
      go (failed x) e = rw (zero-add, g, inner, e)
      go panicked e = rw (zero-add, g, inner, e)
      go exhausted e = rw (zero-add, g, inner, e)

  search_from-find :
      (fuel d : ℕ) (Q : K → Type 0) (n : Hamt K V A) (rest : List (Level (Hamt K V A)))
      → 0 < t.width
      → IsTrie t fuel d Q n
      → shown (search_from t.load (hamt_search t k h) fuel (top n ∷ rest) d) ≡ find t fuel d h k n
  unfolding search_from find
  search_from-find zero d Q n rest w i = refl
  search_from-find (suc fuel) d Q n rest w i = elim (Option-cases (t.select_slot h d)) [
    | inl e ↦ rw (search_level-none n d (rw i.1 w) e, find-none t fuel d h k n e)
    | inr (s, e) ↦ elim (Option-cases (get_handle (children n) s)) [
      | inl g ↦ rw (search_level-out n d s (rw i.1 w) e g, find-out t fuel d h k n s e g)
      | inr (slot, g) ↦
          rw (search_level-some n d s slot (rw i.1 w) e g, find-some t fuel d h k n s slot e g)
            (onward-find fuel d n rest s slot g (λ c below p.
              search_from-find fuel (suc d) (λ key. Q key × (t.select_slot (t.hash key) d ≡ some s))
                c below w (i.2 s slot (node_ref c) g p)))
    ]
  ]

module _ {K V A : Type 0} (t : Trie K V A) where
  -- On a trie whose nodes have their full width, above zero, the stack of levels that `get` works
  -- on reads the trie as the recursion from the root does, errors and panics included.
  pub get-find :
      (n : Hamt K V A) (k : K) (Q : K → Type 0)
      → 0 < t.width
      → IsTrie t (suc t.fuel) 0 Q n
      → get t k n ≡ find t (suc t.fuel) 0 (t.hash k) k n
  unfolding get
  get-find n k Q w i =
      branch_new-shown t.load (hamt_search t k (t.hash k)) (suc t.fuel) n 0
      ∙ search_from-find t k (t.hash k) (suc t.fuel) 0 Q n [] w i
