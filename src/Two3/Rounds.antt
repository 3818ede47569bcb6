-- ===== src/Two3/Rounds.antt =====
-- One round of the search of `get`, and its end past all entries.
use native.Mathlib.Nat.{zero-add}
use kelvin.Prelude.{
  ℕ, zero, suc, ◌+◌, ◌<◌, Option, none, some, append-nil, List, [], ◌∷◌, ◌++◌, false, true, ◌≡◌,
  refl, subst, arith, tests, ltb,
}
use kelvin.Prelude.Outcome.{Outcome, ok, ◌>>=◌}
use kelvin.Handle.{
  children, node_ref, get_handle, leaf_of, inner, leaf, count_handles, compound, cons,
}
use kelvin.Search.{
  leaf_at, path_at, no_result, Level, search_from, branch_leaf, search_level, referencing,
  level_leaf, found_none, moved, after_search, after_path, stop, go_on, advance, round,
}
use kelvin.Search.Values.{shown}
use kelvin.Two3.{Two3, Slot, Slots, Two3Tree, select}
use kelvin.Two3.Get.{two3_search}
use kelvin.Two3.Entries.{lookup, IsSorted, AllBelow, eq_refl}
use kelvin.Two3.Update.{lookup-below}
use kelvin.Two3.Invariant.{IsUsable}

module _ {K V A : Type 0} (t : Two3 K V A) (k : K) where
  abbrev pub Levels : Type 0
  Levels = List (Level (Two3Tree K V A))

  abbrev pub depth : Levels → ℕ
  depth [] = 0
  depth (level ∷ path) = suc (depth path)

  -- Every level of the path is at its last handle.
  abbrev pub AtEnd : Levels → Type 0
  AtEnd [] = Unit
  AtEnd (level ∷ path) = (level.ofs + 1 ≡ count_handles (children level.at)) × AtEnd path

  abbrev pub search : ℕ → Levels → Outcome (Option V)
  search fuel path = shown (search_from t.load (two3_search t k) fuel path tt)

  past_end : (c o : ℕ) → o ≡ c → ltb c (o + 1) ≡ true
  past_end c o e = grind (arith, tests)

  -- A search that is past the end at every level comes to no leaf.
  pub unwind :
      (fuel : ℕ) (level : Level (Two3Tree K V A)) (path : Levels)
      → level.ofs ≡ count_handles (children level.at)
      → AtEnd path
      → depth path < fuel
      → search fuel (level ∷ path) ≡ ok none
  unfolding search_from round search_level after_search branch_leaf advance
  unwind zero level path e w p = absurd (omega (arith, p))
  unwind (suc fuel) level [] e w p = rw (search_from, past_end _ level.ofs e) refl
  unwind (suc fuel) level (b ∷ path) e (w, ws) p =
      rw (search_from, past_end _ level.ofs e)
        (unwind fuel (record b { ofs = b.ofs + 1 }) path w ws (omega (arith, p)))

  not_past : (c : ℕ) → ltb (suc c) (0 + 1) ≡ false
  not_past c = grind (arith, tests)

  module _ (u : IsUsable t) where
    pub lookup-past : (kvs : List (K × V)) → AllBelow t.lt kvs k → lookup t.eq t.lt k kvs ≡ none
    lookup-past kvs b =
        subst (λ l. lookup t.eq t.lt k l ≡ none) (append-nil kvs)
          (lookup-below t.eq t.lt u.order k kvs [] b)

    -- The search of `get` from a node, with the path above it.
    module _ (fuel ht : ℕ) (h₀ : Slot K V A) (hs₀ : Slots K V A) (kvs : List (K × V))
        (path : Levels) where
      abbrev pub from_here : Outcome (Option V)
      from_here = search (suc fuel) (record { ofs = 0; at = compound tt (cons h₀ hs₀) } ∷ path)

      pub at_leaf :
          (q : ℕ) (w : V) (xs zs : List (K × V))
          → select t k (cons h₀ hs₀) ≡ leaf_at q
          → kvs ≡ xs ++ (k, w) ∷ zs
          → IsSorted t.lt kvs
          → get_handle (cons h₀ hs₀) q ≡ some (leaf (k, w))
          → AllBelow t.lt xs k
          → from_here ≡ ok (lookup t.eq t.lt k kvs)
      unfolding search_from round search_level after_search branch_leaf level_leaf leaf_of moved
          two3_search
      at_leaf q w xs zs e ek s here below =
          let found : lookup t.eq t.lt k kvs ≡ some w =
            rw
              (
                ek,
                lookup-below t.eq t.lt u.order k xs ((k, w) ∷ zs) below,
                eq_refl t.eq t.lt u.order k,
              )
              refl in
          rw (search_from, not_past (count_handles hs₀), e, zero-add, here, found) refl

      pub beside_leaf :
          (q : ℕ) (l : K × V)
          → select t k (cons h₀ hs₀) ≡ path_at q
          → get_handle (cons h₀ hs₀) q ≡ some (leaf l)
          → lookup t.eq t.lt k kvs ≡ none
          → from_here ≡ ok (lookup t.eq t.lt k kvs)
      unfolding search_from round search_level after_search after_path referencing inner branch_leaf
          moved two3_search
      beside_leaf q l e here missing =
          rw (search_from, not_past (count_handles hs₀), e, zero-add, here, missing) refl

      pub past_all :
          select t k (cons h₀ hs₀) ≡ no_result
          → lookup t.eq t.lt k kvs ≡ none
          → AtEnd path
          → depth path < suc fuel
          → from_here ≡ ok (lookup t.eq t.lt k kvs)
      unfolding search_from round search_level after_search branch_leaf moved two3_search advance
      past_all e missing w p =
          rw (search_from, not_past (count_handles hs₀), e, missing) (by_path path w p)
        where
          by_path :
              (ps : Levels)
              → AtEnd ps
              → depth ps < suc fuel
              → shown (
                  after_search t.load
                    (two3_search t k)
                    ps
                    (found_none, record { ofs = 0; at = compound tt (cons h₀ hs₀) }, tt)
                  >>= λ r. elim r [
                    | stop levels' exact s' ↦ ok (record { levels = levels'; exact = exact }, s')
                    | go_on levels' s' ↦ search_from t.load (two3_search t k) fuel levels' s'
                  ])
                ≡ ok none
          by_path [] w p = refl
          by_path (b ∷ ps) (w, ws) p =
              unwind fuel (record b { ofs = b.ofs + 1 }) ps w ws (omega (arith, p))

      pub into_node :
          (q : ℕ) (h : Slot K V A) (c : Two3Tree K V A)
          → select t k (cons h₀ hs₀) ≡ path_at q
          → get_handle (cons h₀ hs₀) q ≡ some h
          → inner t.load h ≡ ok (node_ref c)
          → from_here
            ≡ search fuel (
                record { ofs = 0; at = c }
                ∷ record { ofs = q; at = compound tt (cons h₀ hs₀) }
                ∷ path)
      unfolding search_from round search_level after_search after_path referencing moved two3_search
      into_node q h c e here shows =
          rw (search_from, not_past (count_handles hs₀), e, zero-add, here, shows) refl
