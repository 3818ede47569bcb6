-- ===== src/Hamt/Insert.antt =====
-- What `insert` does to the reading of a trie.
use kelvin.Prelude.{
  ℕ, zero, suc, Option, none, some, false, if◌then◌else◌, ◌≡◌, refl, arith, ◌∙◌, Option-cases,
  Bool-cases, inl, inr,
}
use kelvin.Prelude.Outcome.{Outcome, ok, failed, panicked, exhausted, ◌>>=◌, >>=-eq-ok}
use kelvin.Handle.{
  children, HandleRef, none_ref, leaf_ref, node_ref, get_handle, inner, inner_mut, empty, set_child,
  HandleMut, none_mut, leaf_mut, node_mut, new_leaf, new_node,
}
use kelvin.Handle.Laws.{inner-drop_mut, inner-new_node, inner_mut-inner, get_handle-empty}
use kelvin.Hamt.{Trie, Hamt, Slot, new, sub_insert, insert_at, split_leaf, finish_split}
use kelvin.Hamt.Get.{find, find_at, find-none, find-some}
use kelvin.Hamt.Steps.{sub_insert-none, sub_insert-out, sub_insert-some}
use kelvin.Hamt.Write.{below, find-set_child, same_slot}
use kelvin.Hamt.Invariant.{IsLawful, same_depth}

module _ {K V A : Type 0} (t : Trie K V A) (lawful : IsLawful t) where
  -- What an insertion of `k` does to the reading of a node.
  abbrev pub Inserts : ℕ → ℕ → K → V → Hamt K V A → Hamt K V A → Option V → Type 0
  Inserts fuel d k v n n' old =
      (find t fuel d (t.hash k) k n ≡ ok old)
      × ((j : K)
          → find t fuel d (t.hash j) j n'
            ≡ (if t.eq k j then ok (some v) else find t fuel d (t.hash j) j n))

  find-new-some :
      (fuel d s : ℕ) (k : K)
      → t.select_slot (t.hash k) d ≡ some s
      → find t (suc fuel) d (t.hash k) k (new t) ≡ ok none
  unfolding new inner find_at
  find-new-some fuel d s k e =
      find-some t fuel d (t.hash k) k (new t) s empty e
        (get_handle-empty t.width s (lawful.slot_bound k d s e))

  -- Nothing is found in a new node.
  pub find-new :
      (fuel d : ℕ) (k : K) {o : Option V}
      → find t fuel d (t.hash k) k (new t) ≡ ok o
      → (o ≡ none) × ((j : K) → find t fuel d (t.hash j) j (new t) ≡ ok none)
  unfolding find
  find-new zero d k h = absurd (cc)
  find-new (suc fuel) d k {o} h = elim (Option-cases (t.select_slot (t.hash k) d)) [
    | inl e ↦ absurd (cc (h, find-none t fuel d (t.hash k) k (new t) e))
    | inr (s, e) ↦ (cc (h, find-new-some fuel d s k e), λ j. all s e j)
  ]
    where
      all :
          (s : ℕ)
          → t.select_slot (t.hash k) d ≡ some s
          → (j : K) → find t (suc fuel) d (t.hash j) j (new t) ≡ ok none
      all s e j = elim (Option-cases (t.select_slot (t.hash j) d)) [
        | inl e' ↦ absurd (cc (e, same_depth t lawful j k d e'))
        | inr (s', e') ↦ find-new-some fuel d s' j e'
      ]

  -- The node that takes the place of a leaf in a split holds both leaves.
  abbrev pub Rec : ℕ → Type 0
  Rec fuel =
      (d : ℕ) (k : K) (v : V) (n : Hamt K V A) (old : Option V)
      → (sub_insert t fuel d (t.hash k) k v n).1 ≡ ok old
      → Inserts fuel d k v n (sub_insert t fuel d (t.hash k) k v n).0 old

  split_leaf-find :
      (fuel d : ℕ) (k : K) (v : V) (key : K) (val : V) (fresh : Slot K V A)
      → Rec fuel
      → split_leaf t (sub_insert t fuel) d (t.hash k) k v key val ≡ ok fresh
      → (j : K)
      → below t lawful fuel d j fresh
        ≡ (if t.eq key j then ok (some val) else if t.eq k j then ok (some v) else ok none)
  unfolding split_leaf find_at
  split_leaf-find fuel d k v key val fresh ih h j =
      let first = sub_insert t fuel (suc d) (t.hash k) k v (new t) in
      let second = sub_insert t fuel (suc d) (t.hash key) key val first.0 in
      let (a, e1, h1) =
        >>=-eq-ok first.1 (λ _. second.1 >>= λ _. new_node t.annotation second.0) h in
      let (b, e2, h2) = >>=-eq-ok second.1 (λ _. new_node t.annotation second.0) h1 in
      let (old1, put1) = ih (suc d) k v (new t) a e1 in
      let (old2, put2) = ih (suc d) key val first.0 b e2 in
      rw (inner-new_node t.annotation t.load second.0 fresh h2)
        (rw (put2 j, put1 j, (find-new fuel (suc d) k old1).1 j))

  -- An insertion that writes slot `s`, from what it does below that slot.
  slot-Inserts :
      (fuel d s : ℕ) (k : K) (v : V) (n : Hamt K V A) (slot slot' : Slot K V A)
      (ref : HandleRef (K × V) A (Unit {0})) (old : Option V)
      → t.select_slot (t.hash k) d ≡ some s
      → get_handle (children n) s ≡ some slot
      → inner t.load slot ≡ ok ref
      → find_at t (find t fuel (suc d) (t.hash k) k) k ref ≡ ok old
      → ((j : K)
          → below t lawful fuel d j slot' ≡ (
              if t.eq k j then ok (some v) else find_at t (find t fuel (suc d) (t.hash j) j) j ref))
      → Inserts (suc fuel) d k v n (set_child n s slot') old
  slot-Inserts fuel d s k v n slot slot' ref old e g r was local = (
    rw (find-some t fuel d (t.hash k) k n s slot e g, r) was,
    find-set_child t lawful fuel d s slot slot' n k (t.eq k) (some v) e g
        (λ j. same_slot t lawful d s k j e) (λ j. rw r (local j)),
  )

  finish_split-ok :
      (n : Hamt K V A) (s : ℕ) (o : Outcome (Slot K V A)) {old : Option V}
      → (finish_split t n s o).1 ≡ ok old
      → (fresh : Slot K V A) × (o ≡ ok fresh) × (none ≡ old)
  unfolding finish_split
  finish_split-ok n s (ok fresh) h = (fresh, refl, cc)
  finish_split-ok n s (failed x) h = absurd (cc)
  finish_split-ok n s panicked h = absurd (cc)
  finish_split-ok n s exhausted h = absurd (cc)

  split-Inserts :
      (fuel d s : ℕ) (k : K) (v : V) (n : Hamt K V A) (slot : Slot K V A) (old : Option V) (key : K)
      (val : V) (o : Outcome (Slot K V A))
      → Rec fuel
      → t.select_slot (t.hash k) d ≡ some s
      → get_handle (children n) s ≡ some slot
      → inner t.load slot ≡ ok (leaf_ref (key, val))
      → t.eq key k ≡ false
      → split_leaf t (sub_insert t fuel) d (t.hash k) k v key val ≡ o
      → (finish_split t n s o).1 ≡ ok old
      → Inserts (suc fuel) d k v n (finish_split t n s o).0 old
  unfolding finish_split find_at
  split-Inserts fuel d s k v n slot old key val (ok fresh) ih e g r differ p h =
      slot-Inserts fuel d s k v n slot fresh (leaf_ref (key, val)) old e g r (rw differ h)
        λ j. split_leaf-find fuel d k v key val fresh ih p j ∙ choice j
    where
      choice :
          (j : K)
          → (if t.eq key j then ok (some val) else if t.eq k j then ok (some v) else ok none)
            ≡ (if t.eq k j then ok (some v) else ok (if t.eq key j then some val else none))
      choice j =
          ground (arith, (lawful.eq_iff key j).0, (lawful.eq_iff k j).0, (lawful.eq_iff key k).1)
  split-Inserts fuel d s k v n slot old key val (failed x) ih e g r differ p h = absurd (cc)
  split-Inserts fuel d s k v n slot old key val panicked ih e g r differ p h = absurd (cc)
  split-Inserts fuel d s k v n slot old key val exhausted ih e g r differ p h = absurd (cc)

  insert_at-find :
      (fuel d s : ℕ) (k : K) (v : V) (n : Hamt K V A) (slot slot' : Slot K V A) (old : Option V)
      (m : Outcome (HandleMut (K × V) A (Unit {0})))
      → Rec fuel
      → t.select_slot (t.hash k) d ≡ some s
      → get_handle (children n) s ≡ some slot
      → (inner_mut t.load slot).1 ≡ m
      → (insert_at t (sub_insert t fuel) d (t.hash k) k v n s slot' m).1 ≡ ok old
      → Inserts
          (suc fuel)
          d
          k
          v
          n
          (insert_at t (sub_insert t fuel) d (t.hash k) k v n s slot' m).0
          old
  unfolding insert_at find_at new_leaf inner
  insert_at-find fuel d s k v n slot slot' old (ok none_mut) ih e g r h =
      slot-Inserts fuel d s k v n slot _ none_ref old e g (inner_mut-inner t.load slot none_mut r)
        (cc) (λ j. ground arith)
  insert_at-find fuel d s k v n slot slot' old (ok (leaf_mut (key, val))) ih e g r h =
      let shown = inner_mut-inner t.load slot (leaf_mut (key, val)) r in
      elim (Bool-cases (t.eq key k)) [
        | inl same ↦ rw same (
            slot-Inserts fuel d s k v n slot _ (leaf_ref (key, val)) old e g shown
              (rw same (rw same at h)) (λ j. ground (arith, (lawful.eq_iff key k).0 same)))
        | inr differ ↦ rw differ (
            split-Inserts fuel d s k v n slot old key val _ ih e g shown differ refl
              (rw differ at h))
      ]
  insert_at-find fuel d s k v n slot slot' old (ok (node_mut c a)) ih e g r h =
      let (was, put) = ih (suc d) k v c old h in
      slot-Inserts fuel d s k v n slot _ (node_ref c) old e g
        (inner_mut-inner t.load slot (node_mut c a) r) was
        (λ j. rw (inner-drop_mut t.annotation t.load _ a) (put j))
  insert_at-find fuel d s k v n slot slot' old (failed x) ih e g r h = absurd (cc)
  insert_at-find fuel d s k v n slot slot' old panicked ih e g r h = absurd (cc)
  insert_at-find fuel d s k v n slot slot' old exhausted ih e g r h = absurd (cc)

  pub sub_insert-find : (fuel : ℕ) → Rec fuel
  unfolding sub_insert
  sub_insert-find zero d k v n old = λ h. absurd (cc)
  sub_insert-find (suc fuel) d k v n old =
      let h = t.hash k in
      elim (Option-cases (t.select_slot h d)) [
        | inl e ↦ rw (sub_insert-none t fuel d h k n v e) (λ p. absurd (cc))
        | inr (s, e) ↦ elim (Option-cases (get_handle (children n) s)) [
          | inl g ↦ rw (sub_insert-out t fuel d h k n v s e g) (λ p. absurd (cc))
          | inr (slot, g) ↦
              rw (sub_insert-some t fuel d h k n v s slot e g)
                (insert_at-find fuel d s k v n slot _ old _ (sub_insert-find fuel) e g refl)
        ]
      ]
