-- ===== src/Hamt/Listed.antt =====
-- The iterators of src/iter.rs over a trie of keys and values: what they list is the map.
use kelvin.Prelude.{
  ℕ, zero, suc, ◌<◌, Option, some, List, [], ◌∷◌, ◌++◌, ◌≡◌, refl, ap, ◌∙◌, sym, subst, arith,
}
use kelvin.Prelude.Outcome.{ok}
use kelvin.Handle.{
  Handles, nil, cons, empty, leaf, node, persisted, children, get_handle, inner, HandleRef,
  node_ref,
}
use kelvin.Nth.{first}
use kelvin.Iter.{calls, iter}
use kelvin.Iter.Walk.{
  Walk, walk_of, walk_of-append, walk, walk_all, walk_handle, rounds, walk-under,
}
use kelvin.Iter.Leaves.{answers, IsWhole, walk_of-IsWhole, iter-walk}
use kelvin.Hamt.{Trie, Hamt, Slot}
use kelvin.Hamt.Search.{get-find}
use kelvin.Hamt.Invariant.{IsTrie, IsPlaced}
use kelvin.Hamt.Total.{IsUsable, Room, child-Room}
use kelvin.Hamt.Map.{IsMap, Shows}
use kelvin.Hamt.Entries.{lookup, IsOnce}
use kelvin.Hamt.Iteration.{node-Agrees}

-- A walk that ends without an error.
abbrev Listed : {L : Type 0} → Walk L → Type 0
Listed {L} w = (ls : List L) × (w ≡ walk_of ls)

module _ {K V A : Type 0} (t : Trie K V A) (u : IsUsable t) where
  all-Listed :
      (below : Handles (K × V) A (Unit {0}) → Walk (K × V)) (hs : Handles (K × V) A (Unit {0}))
      → ((s : ℕ) (h : Slot K V A) → get_handle hs s ≡ some h → Listed (walk_handle t.load below h))
      → Listed (walk_all t.load below hs)
  all-Listed below nil each = ([], refl)
  all-Listed below (cons h hs) each =
      let (xs, e) = each 0 h refl in
      let (ys, f) = all-Listed below hs (λ s. each (suc s)) in
      (xs ++ ys, rw (e, f) (sym (walk_of-append xs ys)))

  abbrev IsAt : ℕ → (K → Type 0) → ℕ → K → Type 0
  IsAt d Q s k = Q k × (t.select_slot (t.hash k) d ≡ some s)

  -- Below a handle, where the nodes with less fuel are listed.
  handle-Listed :
      (below : Handles (K × V) A (Unit {0}) → Walk (K × V)) (fuel d s : ℕ) (Q : K → Type 0)
      (h : Slot K V A)
      → ((c : Hamt K V A) → IsTrie t fuel (suc d) (IsAt d Q s) c → Listed (below (children c)))
      → ((r : HandleRef (K × V) A (Unit {0}))
          → inner t.load h ≡ ok r
          → IsPlaced t (IsTrie t fuel) d Q s r)
      → Listed (walk_handle t.load below h)
  unfolding inner
  handle-Listed below fuel d s Q empty each i = ([], refl)
  handle-Listed below fuel d s Q (leaf l) each i = (l ∷ [], refl)
  handle-Listed below fuel d s Q (node c a x) each i = each c (i (node_ref c) refl)
  handle-Listed below fuel d s Q (persisted dg a) each i =
      let (c, e) = u.loads dg in rw e (each c (i (node_ref c) (rw e refl)))

  node-Listed :
      (fuel d : ℕ) (Q : K → Type 0) (n : Hamt K V A)
      → Room t u (suc fuel) d
      → IsTrie t (suc fuel) d Q n
      → Listed (walk t.load fuel (children n))
  node-Listed zero d Q n room i = absurd (omega (arith, room))
  node-Listed (suc fuel) d Q n room i =
      subst Listed (sym (walk-under t.load (suc fuel) (children n))) (
        all-Listed (walk t.load fuel) (children n) (λ s h g.
          handle-Listed (walk t.load fuel) (suc fuel) d s Q h
            (λ c below.
              node-Listed fuel (suc d) (IsAt d Q s) c
                (child-Room t u (suc fuel) d (IsAt d Q s) c room below) below)
            (λ r shows. i.2 s h r g shows)))

  -- On a usable trie that stands for `f`, with fuel for every node entered or left, the iterator comes
  -- to the end with no error: there is a list of entries in which no key stands twice and every key is
  -- bound to what `f` gives, and any number of calls of `next` on a new iterator returns the entries in
  -- their order, or the part of them that is asked for, and then nothing.
  pub iter-Shows :
      {P : Type 0} (part : K × V → P) (S : K → Type 0) (n : Hamt K V A) (f : K → Option V)
      (fuel : ℕ)
      → IsMap t S n
      → Shows t n f
      → rounds t.load t.fuel (children n) < fuel
      → (kvs : List (K × V)) × IsOnce t kvs
        × ((j : K) → lookup t j kvs ≡ f j)
        × ((count : ℕ)
            → calls t.load first fuel part count (iter n) ≡ answers part count (walk_of kvs))
  iter-Shows part S n f fuel i shows p =
      let (kvs, w) = node-Listed t.fuel 0 S n (u.deep, omega arith) i in
      let (_, once, reads) = node-Agrees t u.lawful t.fuel 0 S n kvs i w in
      (
        kvs,
        once,
        λ j. sym (reads j (f j) (sym (get-find t n j S u.wide i) ∙ shows.reads j)),
        λ count.
            iter-walk t.load part fuel t.fuel n (subst IsWhole (sym w) (walk_of-IsWhole kvs)) p
              count
            ∙ ap (answers part count) w,
      )
