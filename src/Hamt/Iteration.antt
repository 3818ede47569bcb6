-- ===== src/Hamt/Iteration.antt =====
-- The iterators of src/iter.rs over a trie, against what `get` finds.
use native.Mathlib.Nat.{add-zero, zero-add}
use kelvin.Prelude.{
  ℕ, zero, suc, ◌+◌, ◌≤◌, ◌<◌, Option, some, List, [], ◌∷◌, ◌++◌, ◌≡◌, ◌≢◌, refl, ap, ◌∙◌, sym,
  subst, arith, Option-cases, inl, inr,
}
use kelvin.Prelude.Outcome.{Outcome, ok, failed, panicked, exhausted, ◌>>=◌}
use kelvin.Handle.{
  Handles, nil, cons, empty, leaf, node, persisted, children, get_handle, inner, HandleRef,
  leaf_ref, node_ref,
}
use kelvin.Iter.Walk.{
  ended, walk_of, walk_of_inj, walk, walk_all, walk_handle, restored_walk, under, walk-under,
}
use kelvin.Hamt.{Trie, Hamt, Slot}
use kelvin.Hamt.Get.{find, find_at, find-none, find-out, find-some}
use kelvin.Hamt.Invariant.{IsTrie, IsPlaced, IsLawful}
use kelvin.Hamt.Entries.{
  divide, AllKeys, AllKeys-append, AllKeys-map, lookup, lookup-left, lookup-right, lookup-other,
  IsOnce, IsOnce-append,
}

module _ {K V A : Type 0} (t : Trie K V A) where
  module _ (lawful : IsLawful t) where
    -- The entries `kvs` are what is read, their keys belong here, and none stands there twice.
    abbrev Agrees : (K → Type 0) → (K → Outcome (Option V)) → List (K × V) → Type 0
    Agrees P reads kvs =
        AllKeys P kvs
        × IsOnce t kvs
        × ((j : K) (o : Option V) → reads j ≡ ok o → o ≡ lookup t j kvs)

    abbrev NodeAgrees : ℕ → Type 1
    NodeAgrees fuel =
        (d : ℕ) (Q : K → Type 0) (n : Hamt K V A) (kvs : List (K × V))
        → IsTrie t (suc fuel) d Q n
        → walk t.load fuel (children n) ≡ walk_of kvs
        → Agrees Q (λ j. find t (suc fuel) d (t.hash j) j n) kvs

    -- What is read below a slot.
    abbrev slot_reads : ℕ → ℕ → Slot K V A → K → Outcome (Option V)
    slot_reads fuel d h j = inner t.load h >>= find_at t (find t fuel (suc d) (t.hash j) j) j

    abbrev IsAt : ℕ → (K → Type 0) → ℕ → K → Type 0
    IsAt d Q s k = Q k × (t.select_slot (t.hash k) d ≡ some s)

    abbrev Below : ℕ → Type 1
    Below zero = Unit
    Below (suc fuel) = NodeAgrees fuel

    not_list : (xs : List (K × V)) (o : Outcome (Unit {0})) → ended o ≡ walk_of xs → o ≢ ok tt → ⊥
    not_list [] o e q = q (cc)
    not_list (x ∷ xs) o e q = absurd (cc)

    Below-Agrees :
        (fuel d s : ℕ) (Q : K → Type 0) (c : Hamt K V A) (xs : List (K × V))
        → Below fuel
        → IsTrie t fuel (suc d) (IsAt d Q s) c
        → under t.load fuel (children c) ≡ walk_of xs
        → Agrees (IsAt d Q s) (λ j. find t fuel (suc d) (t.hash j) j c) xs
    Below-Agrees zero d s Q c xs rec i w = absurd (not_list xs exhausted w (λ q. cc))
    Below-Agrees (suc fuel) d s Q c xs rec i w = rec (suc d) (IsAt d Q s) c xs i w

    slot-Agrees :
        (fuel d s : ℕ) (Q : K → Type 0) (h : Slot K V A) (xs : List (K × V))
        → Below fuel
        → ((r : HandleRef (K × V) A (Unit {0}))
            → inner t.load h ≡ ok r
            → IsPlaced t (IsTrie t fuel) d Q s r)
        → walk_handle t.load (under t.load fuel) h ≡ walk_of xs
        → Agrees (IsAt d Q s) (slot_reads fuel d h) xs
    unfolding inner find_at
    slot-Agrees fuel d s Q empty xs rec i w =
        subst (Agrees (IsAt d Q s) (slot_reads fuel d empty)) (walk_of_inj [] xs w)
          (tt, tt, λ j o e. cc)
    slot-Agrees fuel d s Q (leaf (k, v)) xs rec i w =
        subst (Agrees (IsAt d Q s) (slot_reads fuel d (leaf (k, v))))
          (walk_of_inj ((k, v) ∷ []) xs w) ((i (leaf_ref (k, v)) refl, tt), (refl, tt), λ j o e. cc)
    slot-Agrees fuel d s Q (node c a x) xs rec i w =
        Below-Agrees fuel d s Q c xs rec (i (node_ref c) refl) w
    slot-Agrees fuel d s Q (persisted dg a) xs rec i w = by_load (t.load dg) refl w
      where
        by_load :
            (r : Outcome (Hamt K V A))
            → t.load dg ≡ r
            → restored_walk t.load (under t.load fuel) r ≡ walk_of xs
            → Agrees
                (IsAt d Q s)
                (λ j.
                  (r >>= λ n. ok (node_ref n)) >>= find_at t (find t fuel (suc d) (t.hash j) j) j)
                xs
        by_load (ok c) e w = Below-Agrees fuel d s Q c xs rec (i (node_ref c) (rw e refl)) w
        by_load (failed x) e w = absurd (not_list xs (failed x) w (λ q. cc))
        by_load panicked e w = absurd (not_list xs panicked w (λ q. cc))
        by_load exhausted e w = absurd (not_list xs exhausted w (λ q. cc))

    some_inj : {a b : ℕ} → some a ≡ some b → a ≡ b
    some_inj e = cc

    apart : (i z s : ℕ) → i + z < s → s ≡ i + z → ⊥
    apart i z s p e = omega (arith, p, e)

    later : (i s : ℕ) → i ≡ i + suc s → ⊥
    later i s e = omega (arith, e)

    shift : (i s : ℕ) → i + suc s ≡ suc i + s
    shift i s = omega arith

    -- The entries of one slot, and of the slots after it.
    joined :
        (fuel d i : ℕ) (h : Slot K V A) (hs : Handles (K × V) A (Unit {0})) (xs ys : List (K × V))
        (s : ℕ) (j : K) (g : Slot K V A) (o : Option V)
        → AllKeys (λ k. t.select_slot (t.hash k) d ≡ some i) xs
        → AllKeys (λ k. (s : ℕ) × (t.select_slot (t.hash k) d ≡ some s) × (suc i ≤ s)) ys
        → (slot_reads fuel d h j ≡ ok o → o ≡ lookup t j xs)
        → ((s' : ℕ)
            → t.select_slot (t.hash j) d ≡ some (suc i + s')
            → get_handle hs s' ≡ some g
            → o ≡ lookup t j ys)
        → t.select_slot (t.hash j) d ≡ some (i + s)
        → get_handle (cons h hs) s ≡ some g
        → slot_reads fuel d g j ≡ ok o
        → o ≡ lookup t j (xs ++ ys)
    joined fuel d i h hs xs ys zero j g o kx ky rx ry sel at r =
        rx (subst (λ x. slot_reads fuel d x j ≡ ok o) (sym (cc at)) r)
        ∙ sym (
            lookup-left t j xs ys (
              lookup-other t lawful j d (i + 0) ys sel (
                AllKeys-map _ _ ys
                  (λ k p e. apart i 0 p.0 (omega (arith, p.2)) (some_inj (sym p.1 ∙ e))) ky)))
    joined fuel d i h hs xs ys (suc s) j g o kx ky rx ry sel at r =
        ry s (sel ∙ ap (λ x. some x) (shift i s)) at
        ∙ sym (
            lookup-right t j xs ys (
              lookup-other t lawful j d (i + suc s) xs sel
                (AllKeys-map _ _ xs (λ k p e. later i s (some_inj (sym p ∙ e))) kx)))

    -- From position `i` on: every key belongs to a slot there, and is read there.
    slots :
        (fuel d i : ℕ) (Q : K → Type 0) (hs : Handles (K × V) A (Unit {0})) (kvs : List (K × V))
        → Below fuel
        → ((s : ℕ) (h : Slot K V A) (r : HandleRef (K × V) A (Unit {0}))
            → get_handle hs s ≡ some h
            → inner t.load h ≡ ok r
            → IsPlaced t (IsTrie t fuel) d Q (i + s) r)
        → walk_all t.load (under t.load fuel) hs ≡ walk_of kvs
        → AllKeys (λ k. Q k × (s : ℕ) × (t.select_slot (t.hash k) d ≡ some s) × (i ≤ s)) kvs
          × IsOnce t kvs
          × ((j : K) (s : ℕ) (h : Slot K V A) (o : Option V)
              → t.select_slot (t.hash j) d ≡ some (i + s)
              → get_handle hs s ≡ some h
              → slot_reads fuel d h j ≡ ok o
              → o ≡ lookup t j kvs)
    slots fuel d i Q nil kvs rec placed w = (
      subst (AllKeys _) (walk_of_inj [] kvs w) tt,
      subst (IsOnce t) (walk_of_inj [] kvs w) tt,
      λ j s h o e g r. absurd (cc),
    )
    slots fuel d i Q (cons h hs) kvs rec placed w =
        let (xs, ys, wx, wy, e) = divide (walk_handle t.load (under t.load fuel) h) _ kvs w in
        let (here, once, reads) =
          slot-Agrees fuel d i Q h xs rec
            (λ r shows.
              subst (λ x. IsPlaced t (IsTrie t fuel) d Q x r) (add-zero i)
                (placed 0 h r refl shows))
            wx in
        let (later, once', reads') =
          slots fuel d (suc i) Q hs ys rec
            (λ s g r q shows.
              subst (λ x. IsPlaced t (IsTrie t fuel) d Q x r) (shift i s)
                (placed (suc s) g r q shows))
            wy in
        (
          subst (AllKeys _) (sym e) (
              AllKeys-append _ xs ys (AllKeys-map _ _ xs (λ k p. (p.0, i, p.1, omega arith)) here)
                (AllKeys-map _ _ ys (λ k p. (p.0, p.1, p.2, omega (arith, p.3))) later)),
          subst (IsOnce t) (sym e) (
              IsOnce-append t lawful xs ys once once' (
                AllKeys-map _ _ xs
                  (λ k p. lookup-other t lawful k d i ys p.1 (
                    AllKeys-map _ _ ys
                      (λ k' q c.
                        apart i 0 q.1 (omega (arith, q.3))
                          (some_inj (sym q.2 ∙ c) ∙ sym (add-zero i)))
                      later))
                  here)),
          λ j s g o sel at r.
              joined fuel d i h hs xs ys s j g o (AllKeys-map _ _ xs (λ k p. p.1) here)
                (AllKeys-map _ _ ys (λ k p. (p.1, p.2, p.3)) later) (reads j o)
                (λ s' q at'. reads' j s' g o q at' r) sel at r
              ∙ ap (lookup t j) (sym e),
        )

    node_from : (fuel : ℕ) → Below fuel → NodeAgrees fuel
    node_from fuel rec d Q n kvs i w =
        let (keys, once, reads) =
          slots fuel d 0 Q (children n) kvs rec
            (λ s h r g shows.
              subst (λ x. IsPlaced t (IsTrie t fuel) d Q x r) (sym (zero-add s))
                (i.2 s h r g shows))
            (sym (walk-under t.load fuel (children n)) ∙ w) in
        (
          AllKeys-map _ _ kvs (λ k p. p.0) keys,
          once,
          λ j o e. elim (Option-cases (t.select_slot (t.hash j) d)) [
            | inl none_here ↦ absurd (cc (find-none t fuel d (t.hash j) j n none_here, e))
            | inr (s, sel) ↦ elim (Option-cases (get_handle (children n) s)) [
              | inl out ↦ absurd (cc (find-out t fuel d (t.hash j) j n s sel out, e))
              | inr (h, g) ↦
                  reads j s h o (sel ∙ ap (λ x. some x) (sym (zero-add s))) g
                    (sym (find-some t fuel d (t.hash j) j n s h sel g) ∙ e)
            ]
          ],
        )

    pub node-Agrees : (fuel : ℕ) → NodeAgrees fuel
    node-Agrees zero = node_from zero tt
    node-Agrees (suc fuel) = node_from (suc fuel) (node-Agrees fuel)
