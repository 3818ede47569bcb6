-- ===== src/Hamt/Keeps.antt =====
-- Insertion and removal keep the invariant, whatever their outcome.
use kelvin.Prelude.{
  ℕ, zero, suc, ◌<◌, Option, some, ◌≡◌, refl, sym, ◌∙◌, ap, subst, Option-cases, Bool-cases, inl,
  inr, ℕ_discrete,
}
use kelvin.Prelude.Outcome.{Outcome, ok, ◌>>=◌, >>=-eq-ok}
use kelvin.Handle.{
  children, HandleRef, none_ref, leaf_ref, node_ref, get_handle, inner, inner_mut, empty, leaf,
  set_child, HandleMut, none_mut, leaf_mut, node_mut, new_leaf, new_empty, new_node, drop_mut,
}
use kelvin.Handle.Laws.{
  child-set_self, child-set_ne, inner-drop_mut, inner-new_node, inner_mut-inner,
  inner-inner_mut_inv, get_handle-empty_inv, count_handles-empty, count-set_child,
}
use kelvin.Hamt.{Trie, Hamt, Slot, new, sub_insert, insert_at, split_leaf, finish_split}
use kelvin.Hamt.Steps.{sub_insert-none, sub_insert-out, sub_insert-some}
use kelvin.Hamt.Invariant.{IsLawful, IsTrie, IsPlaced, within}

module _ {K V A : Type 0} (t : Trie K V A) where
  -- A key that belongs below a node at depth `d` and whose slot there is `s`.
  abbrev pub Below : ℕ → (K → Type 0) → ℕ → K → Type 0
  Below d Q s key = Q key × (t.select_slot (t.hash key) d ≡ some s)

  -- Writing one slot of a trie by what belongs there.
  pub set_child-IsTrie :
      (fuel d s : ℕ) (Q : K → Type 0) (n : Hamt K V A) (slot slot' : Slot K V A)
      → IsTrie t (suc fuel) d Q n
      → get_handle (children n) s ≡ some slot
      → ((r : HandleRef (K × V) A (Unit {0}))
          → inner t.load slot' ≡ ok r
          → IsPlaced t (IsTrie t fuel) d Q s r)
      → IsTrie t (suc fuel) d Q (set_child n s slot')
  set_child-IsTrie fuel d s Q n slot slot' i g local = (
    i.0,
    count-set_child n s slot' ∙ i.1,
    λ s' h r g' p. elim (ℕ_discrete s s') [
      | yes same ↦
          subst (λ x. IsPlaced t (IsTrie t fuel) d Q x r) same
            (local r (cc (child-set_self n s slot' g)))
      | no differ ↦ i.2 s' h r (sym (child-set_ne n s s' slot' differ) ∙ g') p
    ],
  )

  -- Nothing can be misplaced in an empty slot.
  pub IsPlaced-none :
      (fuel d s : ℕ) (Q : K → Type 0) (r : HandleRef (K × V) A (Unit {0}))
      → r ≡ none_ref
      → IsPlaced t (IsTrie t fuel) d Q s r
  IsPlaced-none fuel d s Q none_ref e = tt
  IsPlaced-none fuel d s Q (leaf_ref (key, val)) e = absurd (cc)
  IsPlaced-none fuel d s Q (node_ref c) e = absurd (cc)

  pub new-IsTrie : (fuel d : ℕ) (Q : K → Type 0) → d < t.fuel → IsTrie t fuel d Q (new t)
  unfolding new inner
  new-IsTrie zero d Q deep = tt
  new-IsTrie (suc fuel) d Q deep = (
    deep,
    count_handles-empty _ _ _ t.width,
    λ s slot r g p. IsPlaced-none fuel d s Q r (empty_slot s slot r g p),
  )
    where
      empty_slot :
          (s : ℕ) (slot : Slot K V A) (r : HandleRef (K × V) A (Unit {0}))
          → get_handle (children (new t)) s ≡ some slot
          → inner t.load slot ≡ ok r
          → r ≡ none_ref
      empty_slot s slot r g p = cc (ap (inner t.load) (get_handle-empty_inv t.width s slot g))

  -- What a split puts below a slot, where both keys belong.
  SlotPlaced : ℕ → ℕ → (K → Type 0) → ℕ → Outcome (Slot K V A) → Type 0
  SlotPlaced fuel d Q s o =
      (slot : Slot K V A) (r : HandleRef (K × V) A (Unit {0}))
      → o ≡ ok slot
      → inner t.load slot ≡ ok r
      → IsPlaced t (IsTrie t fuel) d Q s r

  finish_split-IsTrie :
      (fuel d s : ℕ) (Q : K → Type 0) (n : Hamt K V A) (slot : Slot K V A)
      (o : Outcome (Slot K V A))
      → IsTrie t (suc fuel) d Q n
      → get_handle (children n) s ≡ some slot
      → SlotPlaced fuel d Q s o
      → IsTrie t (suc fuel) d Q (finish_split t n s o).0
  unfolding finish_split SlotPlaced new_empty inner
  finish_split-IsTrie fuel d s Q n slot (ok fresh) i g b =
      set_child-IsTrie fuel d s Q n slot fresh i g (λ r. b fresh r refl)
  finish_split-IsTrie fuel d s Q n slot _ i g b =
      set_child-IsTrie fuel d s Q n slot empty i g (λ r p. IsPlaced-none fuel d s Q r (cc))

  pub IsPlaced-leaf :
      (fuel d s : ℕ) (Q : K → Type 0) (k : K) (v : V)
      → Below d Q s k
      → (r : HandleRef (K × V) A (Unit {0})) → inner t.load (leaf (k, v)) ≡ ok r
      → IsPlaced t (IsTrie t fuel) d Q s r
  unfolding inner
  IsPlaced-leaf fuel d s Q k v b r p =
      subst (IsPlaced t (IsTrie t fuel) d Q s) {x = leaf_ref (k, v)} (cc) b

  pub IsPlaced-node :
      (fuel d s : ℕ) (Q : K → Type 0) (c : Hamt K V A) (a : A)
      → IsTrie t fuel (suc d) (Below d Q s) c
      → (r : HandleRef (K × V) A (Unit {0})) → inner t.load (drop_mut t.annotation c a) ≡ ok r
      → IsPlaced t (IsTrie t fuel) d Q s r
  IsPlaced-node fuel d s Q c a b r p =
      subst (IsPlaced t (IsTrie t fuel) d Q s) {x = node_ref c}
        (cc (inner-drop_mut t.annotation t.load c a)) b

  -- What `inner_mut` leaves in a slot is as well placed as what it found.
  pub inner_mut-IsPlaced :
      (fuel d s : ℕ) (Q : K → Type 0) (n : Hamt K V A) (slot : Slot K V A)
      → IsTrie t (suc fuel) d Q n
      → get_handle (children n) s ≡ some slot
      → (r : HandleRef (K × V) A (Unit {0})) → inner t.load (inner_mut t.load slot).0 ≡ ok r
      → IsPlaced t (IsTrie t fuel) d Q s r
  inner_mut-IsPlaced fuel d s Q n slot i g r p = elim (inner-inner_mut_inv t.load slot r p) [
    | inl same ↦ i.2 s slot r g same
    | inr e ↦ IsPlaced-none fuel d s Q r e
  ]

module _ {K V A : Type 0} (t : Trie K V A) (lawful : IsLawful t) where
  -- A successful insertion took place at a depth that the digest reaches.
  sub_insert-deep :
      (fuel d : ℕ) (k : K) (v : V) (n : Hamt K V A) {old : Option V}
      → (sub_insert t fuel d (t.hash k) k v n).1 ≡ ok old
      → d < t.fuel
  unfolding sub_insert
  sub_insert-deep zero d k v n h = absurd (cc)
  sub_insert-deep (suc fuel) d k v n h = elim (Option-cases (t.select_slot (t.hash k) d)) [
    | inl e ↦ absurd (cc)
    | inr (s, e) ↦ within t lawful k d s e
  ]

  abbrev Rec : ℕ → Type 1
  Rec fuel =
      (d : ℕ) (Q : K → Type 0) (k : K) (v : V) (n : Hamt K V A)
      → Q k
      → IsTrie t fuel d Q n
      → IsTrie t fuel d Q (sub_insert t fuel d (t.hash k) k v n).0

  split_leaf-SlotPlaced :
      (fuel d s : ℕ) (Q : K → Type 0) (k : K) (v : V) (key : K) (val : V)
      → Rec fuel
      → Below t d Q s k
      → Below t d Q s key
      → SlotPlaced t fuel d Q s (split_leaf t (sub_insert t fuel) d (t.hash k) k v key val)
  unfolding split_leaf SlotPlaced
  split_leaf-SlotPlaced fuel d s Q k v key val ih b b' slot r e p =
      let first = sub_insert t fuel (suc d) (t.hash k) k v (new t) in
      let second = sub_insert t fuel (suc d) (t.hash key) key val first.0 in
      let (_, first_ok, h1) =
        >>=-eq-ok first.1 (λ _. second.1 >>= λ _. new_node t.annotation second.0) e in
      let (_, _, h2) = >>=-eq-ok second.1 (λ _. new_node t.annotation second.0) h1 in
      subst (IsPlaced t (IsTrie t fuel) d Q s) {x = node_ref second.0}
        (cc (inner-new_node t.annotation t.load second.0 slot h2))
        (ih (suc d) (Below t d Q s) key val first.0 b' (
          ih (suc d) (Below t d Q s) k v (new t) b (
            new-IsTrie t fuel (suc d) (Below t d Q s)
              (sub_insert-deep fuel (suc d) k v (new t) first_ok))))

  insert_at-IsTrie :
      (fuel d s : ℕ) (Q : K → Type 0) (k : K) (v : V) (n : Hamt K V A) (slot : Slot K V A)
      (m : Outcome (HandleMut (K × V) A (Unit {0})))
      → Rec fuel
      → Q k
      → IsTrie t (suc fuel) d Q n
      → t.select_slot (t.hash k) d ≡ some s
      → get_handle (children n) s ≡ some slot
      → (inner_mut t.load slot).1 ≡ m
      → IsTrie t
          (suc fuel)
          d
          Q
          (insert_at t (sub_insert t fuel) d (t.hash k) k v n s (inner_mut t.load slot).0 m).0
  unfolding insert_at new_leaf
  insert_at-IsTrie fuel d s Q k v n slot (ok none_mut) ih q i e g r =
      set_child-IsTrie t fuel d s Q n slot _ i g (IsPlaced-leaf t fuel d s Q k v (q, e))
  insert_at-IsTrie fuel d s Q k v n slot (ok (leaf_mut (key, val))) ih q i e g r =
      let old = i.2 s slot _ g (inner_mut-inner t.load slot _ r) in
      elim (Bool-cases (t.eq key k)) [
        | inl same ↦
            rw same
              (set_child-IsTrie t fuel d s Q n slot _ i g (IsPlaced-leaf t fuel d s Q k v (q, e)))
        | inr differ ↦ rw differ (
            finish_split-IsTrie t fuel d s Q n slot _ i g
              (split_leaf-SlotPlaced fuel d s Q k v key val ih (q, e) old))
      ]
  insert_at-IsTrie fuel d s Q k v n slot (ok (node_mut c a)) ih q i e g r =
      set_child-IsTrie t fuel d s Q n slot _ i g (
        IsPlaced-node t fuel d s Q _ a (
          ih (suc d) (Below t d Q s) k v c (q, e)
            (i.2 s slot _ g (inner_mut-inner t.load slot _ r))))
  insert_at-IsTrie fuel d s Q k v n slot _ ih q i e g r =
      set_child-IsTrie t fuel d s Q n slot _ i g (inner_mut-IsPlaced t fuel d s Q n slot i g)

  -- Whatever an insertion into a trie returns, an error or a panic too, if the key may stand below the
  -- node it leaves a trie: every node has its full width, and every leaf stands in the slots of its
  -- digest.
  pub sub_insert-IsTrie :
      (fuel d : ℕ) (Q : K → Type 0) (k : K) (v : V) (n : Hamt K V A)
      → Q k
      → IsTrie t fuel d Q n
      → IsTrie t fuel d Q (sub_insert t fuel d (t.hash k) k v n).0
  sub_insert-IsTrie zero d Q k v n q i = tt
  sub_insert-IsTrie (suc fuel) d Q k v n q i =
      let h = t.hash k in
      elim (Option-cases (t.select_slot h d)) [
        | inl e ↦ rw (sub_insert-none t fuel d h k n v e) i
        | inr (s, e) ↦ elim (Option-cases (get_handle (children n) s)) [
          | inl g ↦ rw (sub_insert-out t fuel d h k n v s e g) i
          | inr (slot, g) ↦
              rw (sub_insert-some t fuel d h k n v s slot e g)
                (insert_at-IsTrie fuel d s Q k v n slot _ (sub_insert-IsTrie fuel) q i e g refl)
        ]
      ]
