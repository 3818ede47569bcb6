-- ===== src/Two3/Map.antt =====
-- The 2-3 tree as a map: sequences of its operations against a function from keys to values.
use kelvin.Prelude.{
  ℕ, suc, ◌+◌, ◌<◌, Option, none, ◌≡◌, refl, arith, sym, ◌∙◌, List, [], ◌∷◌, Bool-cases, inl, inr,
  ap,
}
use kelvin.Prelude.Outcome.{Outcome, ok, ◌>>=◌}
use kelvin.Calls.{Op, insert_op, remove_op, get_op, key_of, changed, replay, count_calls}
use kelvin.Two3.{Two3, Two3Tree, new, insert, Step}
use kelvin.Two3.Removal.{remove}
use kelvin.Two3.Get.{get}
use kelvin.Two3.Entries.{lookup, put, erase}
use kelvin.Two3.Update.{lookup-put, lookup-erase}
use kelvin.Two3.Invariant.{IsUsable}
use kelvin.Two3.Trees.{IsTree, new-IsTree, insert-put}
use kelvin.Two3.Lookup.{get-lookup}
use kelvin.Two3.Erasure.{remove-erase}

module _ {K V A : Type 0} (t : Two3 K V A) where
  unfoldable pub step : Op K V → Two3Tree K V A → Step t (Option V)
  step (insert_op k v) n = insert t k v n
  step (remove_op k) n = remove t k n
  step (get_op k) n = (n, get t k n)

  -- The answers of a run, up to the first that is no result.
  unfoldable pub run : List (Op K V) → Two3Tree K V A → Outcome (List (Option V))
  unfolding step
  run [] n = ok []
  run (op ∷ ops) n =
      let (n', r) = step op n in r >>= λ answer. run ops n' >>= λ rest. ok (answer ∷ rest)

module _ {K V A : Type 0} (t : Two3 K V A) (u : IsUsable t) where
  eq_comm : (j k : K) → t.eq j k ≡ t.eq k j
  eq_comm j k = elim (Bool-cases (t.eq j k)) [
    | inl p ↦ p ∙ sym ((u.order.eq_iff k j).1 (sym ((u.order.eq_iff j k).0 p)))
    | inr p ↦ elim (Bool-cases (t.eq k j)) [
      | inl q ↦ absurd (cc (p, (u.order.eq_iff j k).1 (sym ((u.order.eq_iff k j).0 q))))
      | inr q ↦ p ∙ sym q
    ]
  ]

  step_refines :
      (op : Op K V) (ht : ℕ) (n : Two3Tree K V A) (kvs : List (K × V)) (f : K → Option V)
      → IsTree t u ht n kvs
      → ht < t.fuel
      → ((j : K) → lookup t.eq t.lt j kvs ≡ f j)
      → ((step t op n).1 ≡ ok (f (key_of op)))
        × (ht' : ℕ) × (kvs' : List (K × V)) × IsTree t u ht' (step t op n).0 kvs'
        × (ht' < 2 + ht)
        × ((j : K) → lookup t.eq t.lt j kvs' ≡ changed t.eq op f j)
  unfolding step
  step_refines (insert_op k v) ht n kvs f tree p reads =
      let (answer, ht', tree', q) = insert-put t u k v ht n kvs tree p in
      (
        answer ∙ ap (λ o. ok o) (reads k),
        ht',
        put t.eq t.lt k v kvs,
        tree',
        omega (arith, q),
        λ j. lookup-put t.eq t.lt u.order k v kvs j ∙ rw (eq_comm j k, reads j) refl,
      )
  step_refines (remove_op k) ht n kvs f tree p reads =
      let (answer, ht', tree', q) = remove-erase t u k ht n kvs tree p in
      (
        answer ∙ ap (λ o. ok o) (reads k),
        ht',
        erase t.eq t.lt k kvs,
        tree',
        omega (arith, q),
        λ j. lookup-erase t.eq t.lt u.order k kvs j tree.1 ∙ rw (eq_comm j k, reads j) refl,
      )
  step_refines (get_op k) ht n kvs f tree p reads = (
    get-lookup t k u ht n kvs tree p ∙ ap (λ o. ok o) (reads k),
    ht,
    kvs,
    tree,
    omega arith,
    reads,
  )

  run-replay :
      (ops : List (Op K V)) (ht : ℕ) (n : Two3Tree K V A) (kvs : List (K × V)) (f : K → Option V)
      → IsTree t u ht n kvs
      → ht + count_calls ops < suc t.fuel
      → ((j : K) → lookup t.eq t.lt j kvs ≡ f j)
      → run t ops n ≡ ok (replay t.eq ops f)
  unfolding run replay
  run-replay [] ht n kvs f tree p reads = refl
  run-replay (op ∷ ops) ht n kvs f tree p reads =
      let (answer, ht', kvs', tree', q, reads') =
        step_refines op ht n kvs f tree (omega (arith, p)) reads in
      rw (
        answer,
        run-replay ops ht' (step t op n).0 kvs' (changed t.eq op f) tree' (omega (arith, p, q))
            reads',
      )

  -- On a new tree over usable parameters any sequence of insertions, removals and lookups, of no more
  -- calls than there is fuel, returns a result for each, and answers as a map that starts empty.
  pub run-new-replay :
      (ops : List (Op K V))
      → count_calls ops < suc t.fuel
      → run t ops (new t) ≡ ok (replay t.eq ops (λ j. none))
  run-new-replay ops p =
      run-replay ops 0 (new t) [] (λ j. none) (new-IsTree t u) (omega (arith, p)) (λ j. refl)
