-- ===== src/Two3/Lookup.antt =====
-- `get` is the lookup among the entries.
use kelvin.Prelude.{
  ℕ, zero, suc, ◌+◌, ◌*◌, ◌<◌, none, some, append-nil, List, [], ◌∷◌, ◌++◌, true, ◌≡◌, refl, sym,
  subst, arith, ◌∙◌, inl, inr, ap,
}
use kelvin.Prelude.Outcome.{ok}
use kelvin.Handle.{children, compound, nil, cons}
use kelvin.Search.{SearchResult, leaf_at, path_at, no_result}
use kelvin.Search.Values.{branch_new-shown}
use kelvin.Two3.{Two3, Slot, Slots, Two3Tree, select}
use kelvin.Two3.Get.{two3_search, get}
use kelvin.Two3.Entries.{
  lookup, IsSorted, IsSorted-append, AllBelow, append-AllBelow, not_eq, IsLast-Reaches,
}
use kelvin.Two3.Update.{lookup-place}
use kelvin.Two3.Invariant.{IsUsable, Reads, IsHandle}
use kelvin.Two3.Selects.{IsFound, IsSelected, select-IsFound, AllBelow-IsLast}
use kelvin.Two3.Trees.{IsTree}
use kelvin.Two3.Rounds.{
  Levels, depth, AtEnd, search, unwind, lookup-past, at_leaf, beside_leaf, past_all, into_node,
}

module _ {K V A : Type 0} (t : Two3 K V A) (k : K) (u : IsUsable t) where
  abbrev IsSearch : ℕ → ℕ → Two3Tree K V A → List (K × V) → Levels t k → Type 0
  IsSearch fuel ht c kvs path =
      search t k fuel (record { ofs = 0; at = c } ∷ path) ≡ ok (lookup t.eq t.lt k kvs)

  selected_lookup :
      (ht : ℕ) (hs : Slots K V A) (kvs ys : List (K × V)) (q : ℕ)
      → IsSorted t.lt kvs
      → (w : IsSelected t ht k hs kvs q) → w.2 ≡ ys
      → lookup t.eq t.lt k kvs ≡ lookup t.eq t.lt k ys
  selected_lookup ht hs kvs ys' q s (h, xs, ys, zs, e, here, around, ph, below, m, last, reach) ey =
      let se = subst (λ l. IsSorted t.lt l) e s in
      ap (λ l. lookup t.eq t.lt k l) e
      ∙ lookup-place t.eq t.lt u.order k xs ys zs se (
        below,
        elim reach [
          | inl p ↦ inl (IsLast-Reaches t.eq t.lt u.order m k ys last p)
          | inr (_, _, p, _) ↦ inr p
        ],
      )
      ∙ ap (λ l. lookup t.eq t.lt k l) ey

  -- The path down is at its end where the key is past all entries below.
  child_end :
      (ht : ℕ) (hs : Slots K V A) (kvs : List (K × V)) (path : Levels t k) (q : ℕ)
      → (w : IsSelected t ht k hs kvs q) → (AllBelow t.lt kvs k → AtEnd t k path)
      → AllBelow t.lt w.2 k
      → AtEnd t k (record { ofs = q; at = compound tt hs } ∷ path)
  child_end ht hs kvs path q (h, xs, ys, zs, e, here, around, ph, below, m, last, inl p) past b =
      absurd (cc (p, AllBelow-IsLast t u m k ys b last))
  child_end ht hs kvs path q
        (h, xs, ys, zs, e, here, around, ph, below, m, last, inr (_, end, no_more, _)) past b =
      let whole : kvs ≡ xs ++ ys =
        e ∙ ap (λ l. xs ++ (ys ++ l)) no_more ∙ ap (λ l. xs ++ l) (append-nil ys) in
      (
        omega (arith, end),
        past (subst (λ l. AllBelow t.lt l k) (sym whole) (append-AllBelow t.lt k xs ys below b)),
      )

  bottom_result :
      (fuel : ℕ) (h : Slot K V A) (hs : Slots K V A) (kvs : List (K × V)) (path : Levels t k)
      (o : SearchResult)
      → select t k (cons h hs) ≡ o
      → IsFound t 0 k (cons h hs) kvs 0 (some o)
      → IsSorted t.lt kvs
      → (AllBelow t.lt kvs k → AtEnd t k path)
      → depth t k path < suc fuel
      → IsSearch (suc fuel) 0 (compound tt (cons h hs)) kvs path
  bottom_result fuel h hs kvs path (leaf_at i) e (q, w, xs, zs, at, _, ek, here, _, below) s past
        p =
      let z : i ≡ q = omega (arith, at) in
      at_leaf t k u fuel 0 h hs kvs path q w xs zs (e ∙ ap (λ x. leaf_at x) z) ek s here below
  bottom_result fuel h hs kvs path no_result e (b, _) s past p =
      past_all t k u fuel 0 h hs kvs path e (lookup-past t k u kvs b) (past b) p
  bottom_result fuel h hs kvs path (path_at i) e (q, at, selected, bottom) s past p =
      let z : i ≡ q = omega (arith, at) in
      let (g, xs, ys, zs, _, here, _, (j, w, eg, ey), _, _, _, _) = selected in
      let (_, j', w', here', above) = bottom refl in
      let above' : t.lt k j ≡ true = cc (here, here', eg, above) in
      let missing : lookup t.eq t.lt k ((j, w) ∷ []) ≡ none =
        rw (not_eq t.eq t.lt u.order k j above') refl in
      beside_leaf t k u fuel 0 h hs kvs path q (j', w') (e ∙ ap (λ x. path_at x) z) here'
        (selected_lookup 0 (cons h hs) kvs ((j, w) ∷ []) q s selected ey ∙ missing)

  above_result :
      (fuel ht : ℕ) (h : Slot K V A) (hs : Slots K V A) (kvs : List (K × V)) (path : Levels t k)
      (o : SearchResult)
      → select t k (cons h hs) ≡ o
      → IsFound t (suc ht) k (cons h hs) kvs 0 (some o)
      → IsSorted t.lt kvs
      → (AllBelow t.lt kvs k → AtEnd t k path)
      → ((c : Two3Tree K V A) (ys : List (K × V)) (q : ℕ)
          → Reads (IsHandle t ht) (children c) ys
          → IsSorted t.lt ys
          → (AllBelow t.lt ys k
              → AtEnd t k (record { ofs = q; at = compound tt (cons h hs) } ∷ path))
          → IsSearch fuel ht c ys (record { ofs = q; at = compound tt (cons h hs) } ∷ path))
      → IsSearch (suc fuel) (suc ht) (compound tt (cons h hs)) kvs path
  above_result fuel ht h hs kvs path (leaf_at i) e (q, w, xs, zs, at, z, _, _, _, _) s past rec =
      absurd (cc)
  above_result fuel ht h hs kvs path no_result e (b, inl z) s past rec = absurd (cc)
  above_result fuel ht h hs kvs path no_result e (b, inr z) s past rec = absurd (cc)
  above_result fuel ht h hs kvs path (path_at i) e (q, at, selected, _) s past rec =
      let z : i ≡ q = omega (arith, at) in
      let (g, xs, ys, zs, ek, here, _, (c, a, shows, _, _, rs, _, _), _, _, _, _) = selected in
      let (_, s', _) = IsSorted-append t.lt xs (ys ++ zs) (subst (λ l. IsSorted t.lt l) ek s) in
      let (sy, _, _) = IsSorted-append t.lt ys zs s' in
      into_node t k u fuel (suc ht) h hs kvs path q g c (e ∙ ap (λ x. path_at x) z) here shows
      ∙ rec c ys q rs sy (child_end (suc ht) (cons h hs) kvs path q selected past)
      ∙ ap (λ o. ok o) (sym (selected_lookup (suc ht) (cons h hs) kvs ys q s selected refl))

  IsSearch-lookup :
      (fuel ht : ℕ) (n : Two3Tree K V A) (kvs : List (K × V)) (path : Levels t k)
      → Reads (IsHandle t ht) (children n) kvs
      → IsSorted t.lt kvs
      → (AllBelow t.lt kvs k → AtEnd t k path)
      → 2 * ht + depth t k path < fuel
      → IsSearch fuel ht n kvs path
  IsSearch-lookup zero ht n kvs path r s past p = absurd (omega (arith, p))
  IsSearch-lookup (suc fuel) ht (compound x nil) kvs path r s past p = rw r (
      unwind t k (suc fuel) (record { ofs = 0; at = compound tt nil }) path refl (past (rw r tt))
        (omega (arith, p)))
  IsSearch-lookup (suc fuel) zero (compound x (cons h hs)) kvs path r s past p =
      bottom_result fuel h hs kvs path (select t k (cons h hs)) refl
        (select-IsFound t u 0 k (cons h hs) kvs r s) s past (omega (arith, p))
  IsSearch-lookup (suc fuel) (suc ht) (compound x (cons h hs)) kvs path r s past p =
      above_result fuel ht h hs kvs path (select t k (cons h hs)) refl
        (select-IsFound t u (suc ht) k (cons h hs) kvs r s) s past
        (λ c ys q rs sy end. IsSearch-lookup fuel ht c ys _ rs sy end (omega (arith, p)))

  -- In a tree with fuel past its height `get` returns the value the key has among the entries.
  pub get-lookup :
      (ht : ℕ) (n : Two3Tree K V A) (kvs : List (K × V))
      → IsTree t u ht n kvs
      → ht < t.fuel
      → get t k n ≡ ok (lookup t.eq t.lt k kvs)
  unfolding get
  get-lookup ht n kvs ((r, _, _), s) p =
      branch_new-shown t.load (two3_search t k) (2 * t.fuel) n tt
      ∙ IsSearch-lookup (2 * t.fuel) ht n kvs [] r s (λ b. tt) (omega (arith, p))
