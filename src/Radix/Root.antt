-- ===== src/Radix/Root.antt =====
-- At the root a removal never asks for a collapse, so the `unreachable!()` of `remove` is not reached.
use kelvin.Prelude.{
  get_elem?, ℕ, suc, Option, none, some, List, true, false, ◌==◌, ltb, ◌&&◌, ◌≡◌, Bool,
}
use kelvin.Prelude.Outcome.{Outcome, ok, failed, panicked, exhausted, ◌>>=◌}
use kelvin.Handle.{
  Handle, HandleType, none_type, leaf_type, node_type, HandleMut, none_mut, leaf_mut, node_mut,
  children, extra, get_handle, handle_type, into_leaf,
}
use kelvin.Nibbles.{Nibbles, nibbles_len, pop_nibble, common_prefix, trim_front}
use kelvin.Nibbles.Buf.{NibbleBuf, as_nibbles, len}
use kelvin.Radix.{Radix, Tree, Step, carry}
use kelvin.Radix.Removal.{
  Removed, nothing, taken, collapse, remove_here, finish_leaf, collapsed, after_remove,
  remove_below, remove_at, remove_found, remove_child, remove_nibble, sub_remove,
}

module _ {V A : Type 0} (t : Radix V A) (l single : V) (nibbles : NibbleBuf) (inner : ℕ) where
  -- The step does not ask for the collapse.
  abbrev Stays : Step t (Removed V) → Type 0
  Stays st = ¬ (st.1 ≡ ok (collapse l single nibbles inner))

  nothing-Stays : (n : Tree V A) → Stays (n, ok nothing)
  nothing-Stays n p = cc

  taken-Stays : (n : Tree V A) (x : V) → Stays (n, ok (taken x))
  taken-Stays n x p = cc

  carry-Stays :
      {X : Type 0} (n : Tree V A) (o : Outcome X) (f : X → Step t (Removed V))
      → ((x : X) → Stays (f x))
      → Stays (carry t n o f)
  carry-Stays n (ok x) f s = s x
  carry-Stays n (failed e) f s = λ p. cc
  carry-Stays n panicked f s = λ p. cc
  carry-Stays n exhausted f s = λ p. cc

  by_type :
      (ty : HandleType) (a b c : Step t (Removed V))
      → Stays a
      → Stays b
      → Stays c
      → Stays (elim ty [ none_type ↦ a | leaf_type ↦ b | node_type ↦ c ])
  by_type none_type a b c p q r = p
  by_type leaf_type a b c p q r = q
  by_type node_type a b c p q r = r

  by_test :
      (x : Bool) (a b : Step t (Removed V))
      → Stays a
      → Stays b
      → Stays (elim x [ true ↦ a | false ↦ b ])
  by_test true a b p q = p
  by_test false a b p q = q

  remove_here-Stays :
      (n : Tree V A) (h : Option (Handle V A (List NibbleBuf))) → Stays (remove_here t n h)
  unfolding remove_here
  remove_here-Stays n none = λ p. cc
  remove_here-Stays n (some h) =
      by_type (handle_type h) _ _ _ (λ p. cc) (leaf (into_leaf h)) (λ p. cc)
    where
      leaf : (o : Outcome V) → ¬ ((o >>= λ x. ok (taken x)) ≡ ok (collapse l single nibbles inner))
      leaf (ok x) p = cc
      leaf (failed e) p = cc
      leaf panicked p = cc
      leaf exhausted p = cc

  collapsed-Stays :
      (n : Tree V A) (nibble : ℕ) (a b : V) (c : NibbleBuf) (i : ℕ) (p : Option NibbleBuf)
      → Stays (collapsed t n nibble a b c i p)
  unfolding collapsed
  collapsed-Stays n nibble a b c i none = λ p. cc
  collapsed-Stays n nibble a b c i (some prefix) = carry-Stays n _ _ (λ whole. taken-Stays n a)

  after_remove-Stays :
      (n : Tree V A) (nibble : ℕ) (o : Outcome (Removed V)) → Stays (after_remove t n nibble o)
  unfolding after_remove
  after_remove-Stays n nibble (ok (collapse a b c i)) = collapsed-Stays n nibble a b c i _
  after_remove-Stays n nibble (ok nothing) = λ p. cc
  after_remove-Stays n nibble (ok (taken x)) = λ p. cc
  after_remove-Stays n nibble (failed e) = λ p. cc
  after_remove-Stays n nibble panicked = λ p. cc
  after_remove-Stays n nibble exhausted = λ p. cc

  remove_below-Stays :
      (rec : Tree V A → Step t (Removed V)) (n : Tree V A) (nibble : ℕ)
      (slot : Handle V A (List NibbleBuf)) (o : Outcome (HandleMut V A (List NibbleBuf)))
      → Stays (remove_below t rec n nibble slot o)
  unfolding remove_below
  remove_below-Stays rec n nibble slot (ok (node_mut c a)) = after_remove-Stays _ nibble _
  remove_below-Stays rec n nibble slot (ok none_mut) = λ p. cc
  remove_below-Stays rec n nibble slot (ok (leaf_mut x)) = λ p. cc
  remove_below-Stays rec n nibble slot (failed e) = λ p. cc
  remove_below-Stays rec n nibble slot panicked = λ p. cc
  remove_below-Stays rec n nibble slot exhausted = λ p. cc

  finish_leaf-Stays : (n : Tree V A) (x : V) → Stays (finish_leaf t 0 n x)
  unfolding finish_leaf
  finish_leaf-Stays n x = taken-Stays n x

  remove_found-Stays :
      (n : Tree V A) (nibble : ℕ) (h : Handle V A (List NibbleBuf))
      → Stays (remove_found t 0 n nibble h)
  unfolding remove_found
  remove_found-Stays n nibble h = carry-Stays _ (into_leaf h) _ (λ x. finish_leaf-Stays n x)

  remove_child-Stays :
      (rec : Tree V A → Step t (Removed V)) (n : Tree V A) (nibble : ℕ)
      (h : Handle V A (List NibbleBuf))
      → Stays (remove_child t rec n nibble h)
  unfolding remove_child
  remove_child-Stays rec n nibble h = remove_below-Stays rec n nibble _ _

  remove_at-Stays :
      (rec : Nibbles → Tree V A → Step t (Removed V)) (n : Tree V A) (nibble : ℕ) (s : Nibbles)
      (prefix : NibbleBuf) (h : Handle V A (List NibbleBuf))
      → Stays (remove_at t rec 0 n nibble s prefix h)
  unfolding remove_at
  remove_at-Stays rec n nibble s prefix h =
      carry-Stays {X = Nibbles} n (common_prefix s (as_nibbles prefix)) _ (λ common.
        let deeper = remove_child t (rec (trim_front s (nibbles_len common))) n nibble h in
        let later : Step t (Removed V) = elim (ltb (nibbles_len common) (len prefix)) [
          | true ↦ (n, ok nothing)
          | false ↦ deeper
        ] in
        let full = nibbles_len common == nibbles_len s && nibbles_len common == len prefix in
        let stays =
          by_test full (remove_found t 0 n nibble h) later (remove_found-Stays n nibble h) (
            by_test (ltb (nibbles_len common) (len prefix)) (n, ok nothing) deeper (nothing-Stays n)
              (remove_child-Stays (rec (trim_front s (nibbles_len common))) n nibble h)) in
        let present : Step t (Removed V) = elim full [
          | true ↦ remove_found t 0 n nibble h
          | false ↦ later
        ] in
        by_type (handle_type h) (n, ok nothing) present present (nothing-Stays n) stays stays)

  remove_nibble-Stays :
      (rec : Nibbles → Tree V A → Step t (Removed V)) (n : Tree V A) (nibble : ℕ) (s : Nibbles)
      (prefix : Option NibbleBuf) (h : Option (Handle V A (List NibbleBuf)))
      → Stays (remove_nibble t rec 0 n nibble s prefix h)
  unfolding remove_nibble
  remove_nibble-Stays rec n nibble s (some prefix) (some h) =
      remove_at-Stays rec n nibble s prefix h
  remove_nibble-Stays rec n nibble s (some prefix) none = λ p. cc
  remove_nibble-Stays rec n nibble s none h = λ p. cc

  -- A removal that starts at depth 0 never returns a collapse.
  pub sub_remove-depth_0 :
      (fuel : ℕ) (s : Nibbles) (n : Tree V A)
      → ¬ ((sub_remove t (suc fuel) 0 s n).1 ≡ ok (collapse l single nibbles inner))
  unfolding sub_remove
  sub_remove-depth_0 fuel s n =
      let here = remove_here t n (get_handle (children n) 0) in
      let below = λ (r : ℕ × Nibbles).
        remove_nibble t (sub_remove t fuel 1) 0 n r.0 r.1 (get_elem? (extra n) r.0)
          (get_handle (children n) (suc r.0)) in
      by_test (nibbles_len s == 0) here (carry t n (pop_nibble s) below)
        (remove_here-Stays n (get_handle (children n) 0))
        (carry-Stays {X = ℕ × Nibbles} n (pop_nibble s) below (λ r.
          remove_nibble-Stays (sub_remove t fuel 1) n r.0 r.1 (get_elem? (extra n) r.0)
            (get_handle (children n) (suc r.0))))
