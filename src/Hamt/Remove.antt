-- ===== src/Hamt/Remove.antt =====
-- What `remove` does to the reading of a trie.
use kelvin.Prelude.{
  ℕ, zero, suc, Option, none, some, true, false, if◌then◌else◌, ◌≡◌, ◌≢◌, refl, arith, sym, ◌∙◌, ap,
  subst, Option-cases, Bool-cases, inl, inr, ℕ_discrete,
}
use kelvin.Prelude.Outcome.{Outcome, ok, failed, panicked, exhausted}
use kelvin.Handle.{
  children, HandleRef, none_ref, leaf_ref, node_ref, get_handle, inner, inner_mut, leaf, set_child,
  HandleMut, none_mut, leaf_mut, node_mut, new_leaf, new_empty,
}
use kelvin.Handle.Laws.{inner-drop_mut, inner_mut-inner, inner-inner_mut, get_handle-some}
use kelvin.Hamt.{
  Trie, Hamt, Slot, Step, Removed, nothing, removed, collapse, remove_singleton, collapsed,
  finish_remove, remove_below, remove_at, sub_remove,
}
use kelvin.Hamt.Get.{find, find_at, find-some}
use kelvin.Hamt.Steps.{sub_remove-none, sub_remove-out, sub_remove-some}
use kelvin.Hamt.Singleton.{IsSingleton, remove_singleton-ok, remove_singleton-none}
use kelvin.Hamt.Write.{below, find-set_child, same_slot}
use kelvin.Hamt.Invariant.{IsLawful, IsTrie, same_depth}
use kelvin.Hamt.KeepsRemove.{Keeps, sub_remove-Keeps, empty_child-IsTrie}
use kelvin.Hamt.Keeps.{Below, set_child-IsTrie, IsPlaced-leaf}

module _ {K V A : Type 0} (t : Trie K V A) (lawful : IsLawful t) where
  abbrev reads : ℕ → ℕ → Hamt K V A → K → Outcome (Option V)
  reads fuel d n j = find t fuel d (t.hash j) j n

  -- What a removal of `k` does to the reading of a node. A collapse returns the one leaf that the
  -- node holds beside `k`.
  abbrev pub Removes : ℕ → ℕ → K → Hamt K V A → Hamt K V A → Removed (K × V) → Type 0
  Removes fuel d k n n' nothing =
      (reads fuel d n k ≡ ok none) × ((j : K) → reads fuel d n' j ≡ reads fuel d n j)
  Removes fuel d k n n' (removed (key, val)) =
      (reads fuel d n k ≡ ok (some val))
      × ((j : K) → reads fuel d n' j ≡ (if t.eq k j then ok none else reads fuel d n j))
  Removes fuel d k n n' (collapse (key, val) (key2, val2)) =
      (reads fuel d n k ≡ ok (some val))
      × ((j : K)
          → (if t.eq k j then ok none else reads fuel d n j)
            ≡ ok (if t.eq key2 j then some val2 else none))

  -- A node with one leaf reads as that leaf.
  reads_singleton :
      (fuel d p : ℕ) (Q : K → Type 0) (k : K) (n : Hamt K V A) (key : K) (val : V) {s : ℕ}
      → IsTrie t (suc fuel) d Q n
      → t.select_slot (t.hash k) d ≡ some s
      → IsSingleton t (children n) p (key, val)
      → (j : K) → reads (suc fuel) d n j ≡ ok (if t.eq key j then some val else none)
  unfolding inner find_at
  reads_singleton fuel d p Q k n key val i e (here, others) j =
      elim (Option-cases (t.select_slot (t.hash j) d)) [
        | inl no_slot ↦ absurd (cc (e, same_depth t lawful j k d no_slot))
        | inr (s', e') ↦
            let (slot, g) =
              get_handle-some (children n) s' (rw i.1 (lawful.slot_bound j d s' e')) in
            find-some t fuel d (t.hash j) j n s' slot e' g ∙ at s' e' slot g (ℕ_discrete p s')
      ]
    where
      apart : (s' : ℕ) → t.select_slot (t.hash j) d ≡ some s' → p ≢ s' → t.eq key j ≡ false
      apart s' e' differ = elim (Bool-cases (t.eq key j)) [
        | inl same ↦ absurd (
            differ (
              cc (
                e',
                ap t.hash ((lawful.eq_iff key j).0 same),
                (i.2 p _ (leaf_ref (key, val)) here refl).1,
              )))
        | inr no_match ↦ no_match
      ]

      at :
          (s' : ℕ)
          → t.select_slot (t.hash j) d ≡ some s'
          → (slot : Slot K V A) → get_handle (children n) s' ≡ some slot
          → Dec (p ≡ s')
          → below t lawful fuel d j slot ≡ ok (if t.eq key j then some val else none)
      at s' e' slot g (yes same) = let q : slot ≡ leaf (key, val) = cc in rw q
      at s' e' slot g (no differ) = rw (others s' slot differ g, apart s' e' differ)

  -- A removal below the root, by what `remove_singleton` made of the node.
  collapsed-Removes :
      (fuel d : ℕ) (k : K) (key : K) (val : V) (n n1 : Hamt K V A) (st : Step t (Option (K × V)))
      (res : Removed (K × V))
      → reads (suc fuel) d n k ≡ ok (some val)
      → ((j : K) → reads (suc fuel) d n1 j ≡ (if t.eq k j then ok none else reads (suc fuel) d n j))
      → (st.1 ≡ ok none → st.0 ≡ n1)
      → ((key2 : K) (val2 : V) (j : K)
          → st.1 ≡ ok (some (key2, val2))
          → reads (suc fuel) d n1 j ≡ ok (if t.eq key2 j then some val2 else none))
      → (collapsed t (key, val) st).1 ≡ ok res
      → Removes (suc fuel) d k n (collapsed t (key, val) st).0 res
  unfolding collapsed
  collapsed-Removes fuel d k key val n n1 (n', ok none) res was put none_lem some_lem h =
      subst (Removes (suc fuel) d k n n') {x = removed (key, val)} (cc)
        (was, λ j. rw (none_lem refl) (put j))
  collapsed-Removes fuel d k key val n n1 (n', ok (some (key2, val2))) res was put none_lem some_lem
        h =
      subst (Removes (suc fuel) d k n n') {x = collapse (key, val) (key2, val2)} (cc)
        (was, λ j. sym (put j) ∙ some_lem key2 val2 j refl)
  collapsed-Removes fuel d k key val n n1 (n', failed x) res was put none_lem some_lem h =
      absurd (cc)
  collapsed-Removes fuel d k key val n n1 (n', panicked) res was put none_lem some_lem h =
      absurd (cc)
  collapsed-Removes fuel d k key val n n1 (n', exhausted) res was put none_lem some_lem h =
      absurd (cc)

  -- The end of a removal below the root or at it.
  finish_remove-Removes :
      (fuel d : ℕ) (Q : K → Type 0) (k : K) (key : K) (val : V) (n n1 : Hamt K V A) {s : ℕ}
      (res : Removed (K × V))
      → t.select_slot (t.hash k) d ≡ some s
      → IsTrie t (suc fuel) d Q n1
      → reads (suc fuel) d n k ≡ ok (some val)
      → ((j : K) → reads (suc fuel) d n1 j ≡ (if t.eq k j then ok none else reads (suc fuel) d n j))
      → (finish_remove t d (key, val) n1).1 ≡ ok res
      → Removes (suc fuel) d k n (finish_remove t d (key, val) n1).0 res
  unfolding finish_remove
  finish_remove-Removes fuel zero Q k key val n n1 res e i was put h =
      subst (Removes (suc fuel) zero k n n1) {x = removed (key, val)} (cc) (was, put)
  finish_remove-Removes fuel (suc d) Q k key val n n1 res e i was put h =
      collapsed-Removes fuel (suc d) k key val n n1 (remove_singleton t n1) res was put
        (remove_singleton-none t n1)
        (λ key2 val2 j one.
          let (p, single) = remove_singleton-ok t n1 (key2, val2) one in
          reads_singleton fuel (suc d) p Q k n1 key2 val2 i e single j)
        h

  -- A removal that takes nothing out.
  unchanged :
      (fuel d s : ℕ) (k : K) (n : Hamt K V A) (slot slot' : Slot K V A)
      (ref : HandleRef (K × V) A (Unit {0})) (res : Removed (K × V))
      → t.select_slot (t.hash k) d ≡ some s
      → get_handle (children n) s ≡ some slot
      → inner t.load slot ≡ ok ref
      → inner t.load slot' ≡ ok ref
      → find_at t (find t fuel (suc d) (t.hash k) k) k ref ≡ ok none
      → nothing ≡ res
      → Removes (suc fuel) d k n (set_child n s slot') res
  unchanged fuel d s k n slot slot' ref res e g r r' was same =
      subst (Removes (suc fuel) d k n (set_child n s slot')) same (
        find-some t fuel d (t.hash k) k n s slot e g ∙ rw r was,
        λ j.
            find-set_child t lawful fuel d s slot slot' n k (λ _. false) none e g
              (λ i p. absurd (cc)) (λ i. rw (r, r')) j,
      )

  -- What is below slot `s` once `k` is taken out.
  emptied :
      (fuel d s : ℕ) (k : K) (n : Hamt K V A) (slot slot' : Slot K V A)
      → t.select_slot (t.hash k) d ≡ some s
      → get_handle (children n) s ≡ some slot
      → ((j : K)
          → below t lawful fuel d j slot'
            ≡ (if t.eq k j then ok none else below t lawful fuel d j slot))
      → (j : K)
      → reads (suc fuel) d (set_child n s slot') j
        ≡ (if t.eq k j then ok none else reads (suc fuel) d n j)
  emptied fuel d s k n slot slot' e g local =
      find-set_child t lawful fuel d s slot slot' n k (t.eq k) none e g
        (λ j. same_slot t lawful d s k j e) local

  abbrev Rec : ℕ → Type 1
  Rec fuel =
      (d : ℕ) (Q : K → Type 0) (k : K) (n : Hamt K V A) (res : Removed (K × V))
      → IsTrie t fuel d Q n
      → (sub_remove t fuel d (t.hash k) k n).1 ≡ ok res
      → Removes fuel d k n (sub_remove t fuel d (t.hash k) k n).0 res

  -- The node arm, by what the call below returned.
  remove_below-Removes :
      (fuel d s : ℕ) (Q : K → Type 0) (k : K) (n c : Hamt K V A) (a : A) (slot : Slot K V A)
      (st : Step t (Removed (K × V))) (res : Removed (K × V))
      → IsTrie t (suc fuel) d Q n
      → t.select_slot (t.hash k) d ≡ some s
      → get_handle (children n) s ≡ some slot
      → inner t.load slot ≡ ok (node_ref c)
      → Keeps t fuel (suc d) (Below t d Q s) st
      → ((r : Removed (K × V)) → st.1 ≡ ok r → Removes fuel (suc d) k c st.0 r)
      → (remove_below t d n s a st.0 st.1).1 ≡ ok res
      → Removes (suc fuel) d k n (remove_below t d n s a st.0 st.1).0 res
  unfolding remove_below new_leaf find_at inner
  remove_below-Removes fuel d s Q k n c a slot (c', ok (collapse (key, val) (key2, val2))) res i e g
        r b ih h =
      let (was, alone) = ih (collapse (key, val) (key2, val2)) refl in
      finish_remove-Removes fuel d Q k key val n _ res e
        (set_child-IsTrie t fuel d s Q n slot _ i g (IsPlaced-leaf t fuel d s Q key2 val2 b.1))
        (find-some t fuel d (t.hash k) k n s slot e g ∙ rw r was)
        (emptied fuel d s k n slot _ e g (λ j. rw r (sym (alone j)))) h
  remove_below-Removes fuel d s Q k n c a slot (c', ok nothing) res i e g r b ih h =
      let (was, same) = ih nothing refl in
      subst (Removes (suc fuel) d k n _) {x = nothing} (cc) (
        find-some t fuel d (t.hash k) k n s slot e g ∙ rw r was,
        λ j.
            find-set_child t lawful fuel d s slot _ n k (λ _. false) none e g (λ i p. absurd (cc))
              (λ i. rw (r, inner-drop_mut t.annotation t.load c' a) (same i)) j,
      )
  remove_below-Removes fuel d s Q k n c a slot (c', ok (removed (key, val))) res i e g r b ih h =
      let (was, put) = ih (removed (key, val)) refl in
      subst (Removes (suc fuel) d k n _) {x = removed (key, val)} (cc) (
        find-some t fuel d (t.hash k) k n s slot e g ∙ rw r was,
        emptied fuel d s k n slot _ e g
            (λ j. rw (r, inner-drop_mut t.annotation t.load c' a) (put j)),
      )
  remove_below-Removes fuel d s Q k n c a slot (c', failed x) res i e g r b ih h = absurd (cc)
  remove_below-Removes fuel d s Q k n c a slot (c', panicked) res i e g r b ih h = absurd (cc)
  remove_below-Removes fuel d s Q k n c a slot (c', exhausted) res i e g r b ih h = absurd (cc)

  -- A leaf of key `k` reads as nothing once `k` is taken out.
  taken_out :
      (k key : K) (val : V)
      → t.eq key k ≡ true
      → (j : K)
      → ◌≡◌ {A = Outcome (Option V)}
          (ok none)
          (if t.eq k j then ok none else ok (if t.eq key j then some val else none))
  taken_out k key val same j = ground (arith, (lawful.eq_iff key k).0 same)

  remove_at-Removes :
      (fuel d s : ℕ) (Q : K → Type 0) (k : K) (n : Hamt K V A) (slot : Slot K V A)
      (m : Outcome (HandleMut (K × V) A (Unit {0}))) (res : Removed (K × V))
      → Rec fuel
      → IsTrie t (suc fuel) d Q n
      → t.select_slot (t.hash k) d ≡ some s
      → get_handle (children n) s ≡ some slot
      → (inner_mut t.load slot).1 ≡ m
      → (remove_at t (sub_remove t fuel) d (t.hash k) k n s (inner_mut t.load slot).0 m).1 ≡ ok res
      → Removes
          (suc fuel)
          d
          k
          n
          (remove_at t (sub_remove t fuel) d (t.hash k) k n s (inner_mut t.load slot).0 m).0
          res
  unfolding remove_at new_empty inner find_at
  remove_at-Removes fuel d s Q k n slot (ok none_mut) res ih i e g r = λ h.
      unchanged fuel d s k n slot _ none_ref res e g (inner_mut-inner t.load slot _ r)
        (inner-inner_mut t.load slot _ r) refl (cc)
  remove_at-Removes fuel d s Q k n slot (ok (leaf_mut (key, val))) res ih i e g r =
      let shown = inner_mut-inner t.load slot (leaf_mut (key, val)) r in
      elim (Bool-cases (t.eq key k)) [
        | inl same ↦ rw same (
            finish_remove-Removes fuel d Q k key val n _ res e
              (empty_child-IsTrie t fuel d s Q n slot i g)
              (find-some t fuel d (t.hash k) k n s slot e g ∙ rw (shown, find_at, same))
              (emptied fuel d s k n slot _ e g (λ j. rw shown (taken_out k key val same j))))
        | inr differ ↦ rw differ (λ h.
            unchanged fuel d s k n slot _ (leaf_ref (key, val)) res e g shown
              (inner-inner_mut t.load slot _ r) (rw differ) (cc))
      ]
  remove_at-Removes fuel d s Q k n slot (ok (node_mut c a)) res ih i e g r =
      let shown = inner_mut-inner t.load slot (node_mut c a) r in
      let placed = i.2 s slot (node_ref c) g shown in
      remove_below-Removes fuel d s Q k n c a slot (sub_remove t fuel (suc d) (t.hash k) k c) res i
        e g shown (sub_remove-Keeps t fuel (suc d) (Below t d Q s) (t.hash k) k c placed)
        (λ x. ih (suc d) (Below t d Q s) k c x placed)
  remove_at-Removes fuel d s Q k n slot (failed x) res ih i e g r = λ h. absurd (cc)
  remove_at-Removes fuel d s Q k n slot panicked res ih i e g r = λ h. absurd (cc)
  remove_at-Removes fuel d s Q k n slot exhausted res ih i e g r = λ h. absurd (cc)

  pub sub_remove-Removes : (fuel : ℕ) → Rec fuel
  unfolding sub_remove
  sub_remove-Removes zero d Q k n res i = λ h. absurd (cc)
  sub_remove-Removes (suc fuel) d Q k n res i =
      let h = t.hash k in
      elim (Option-cases (t.select_slot h d)) [
        | inl e ↦ rw (sub_remove-none t fuel d h k n e) (λ p. absurd (cc))
        | inr (s, e) ↦ elim (Option-cases (get_handle (children n) s)) [
          | inl g ↦ rw (sub_remove-out t fuel d h k n s e g) (λ p. absurd (cc))
          | inr (slot, g) ↦
              rw (sub_remove-some t fuel d h k n s slot e g)
                (remove_at-Removes fuel d s Q k n slot _ res (sub_remove-Removes fuel) i e g refl)
        ]
      ]
