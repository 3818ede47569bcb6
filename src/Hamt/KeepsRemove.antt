-- ===== src/Hamt/KeepsRemove.antt =====
-- Removal keeps the invariant, whatever its outcome, and a leaf that a collapse returns belongs
-- where the collapsed node stood.
use kelvin.Prelude.{
  ℕ, zero, suc, Option, none, some, ◌≡◌, refl, subst, Option-cases, Bool-cases, inl, inr, arith,
}
use kelvin.Prelude.Outcome.{Outcome, ok, failed, panicked, exhausted}
use kelvin.Handle.{
  Digest, children, leaf_ref, get_handle, inner, inner_mut, empty, leaf, set_child, HandleMut,
  none_mut, leaf_mut, node_mut, new_leaf, new_empty, into_leaf, try_into_leaf,
}
use kelvin.Handle.Laws.{inner_mut-inner}
use kelvin.Hamt.{
  Trie, Hamt, Slot, Step, Removed, nothing, removed, collapse, take_leaf, finish_take,
  finish_singleton, remove_singleton, collapsed, finish_remove, remove_below, remove_at, sub_remove,
}
use kelvin.Hamt.Steps.{sub_remove-none, sub_remove-out, sub_remove-some}
use kelvin.Hamt.Singleton.{remove_singleton-ok}
use kelvin.Hamt.Invariant.{IsTrie}
use kelvin.Hamt.Keeps.{
  Below, set_child-IsTrie, IsPlaced-none, IsPlaced-leaf, IsPlaced-node, inner_mut-IsPlaced,
}

module _ {K V A : Type 0} (t : Trie K V A) where
  abbrev pub Belongs : (K → Type 0) → Outcome (Removed (K × V)) → Type 0
  Belongs Q (ok (collapse l (key, val))) = Q key
  Belongs Q (ok nothing) = Unit
  Belongs Q (ok (removed l)) = Unit
  Belongs Q (failed x) = Unit
  Belongs Q panicked = Unit
  Belongs Q exhausted = Unit

  -- A trie, and a leaf that belongs where it stands.
  abbrev pub Keeps : ℕ → ℕ → (K → Type 0) → Step t (Removed (K × V)) → Type 0
  Keeps fuel d Q st = IsTrie t fuel d Q st.0 × Belongs Q st.1

  pub empty_child-IsTrie :
      (fuel d s : ℕ) (Q : K → Type 0) (n : Hamt K V A) (slot : Slot K V A)
      → IsTrie t (suc fuel) d Q n
      → get_handle (children n) s ≡ some slot
      → IsTrie t (suc fuel) d Q (set_child n s empty)
  unfolding inner
  empty_child-IsTrie fuel d s Q n slot i g =
      set_child-IsTrie t fuel d s Q n slot empty i g (λ r p. IsPlaced-none t fuel d s Q r (cc))

  take_leaf-ok :
      (n : Hamt K V A) (idx : ℕ) (rest : Slot K V A) (kv : K × V)
      → take_leaf t n idx ≡ ok (rest, kv)
      → (get_handle (children n) idx ≡ some (leaf kv)) × (empty ≡ rest)
  unfolding take_leaf into_leaf try_into_leaf
  take_leaf-ok n idx rest kv e = ground arith

  finish_take-IsTrie :
      (fuel d : ℕ) (Q : K → Type 0) (n : Hamt K V A) (idx : ℕ) (o : Outcome (Slot K V A × (K × V)))
      → IsTrie t (suc fuel) d Q n
      → take_leaf t n idx ≡ o
      → IsTrie t (suc fuel) d Q (finish_take t n idx o).0
  unfolding finish_take
  finish_take-IsTrie fuel d Q n idx (ok (rest, kv)) i e =
      let (g, none_left) = take_leaf-ok n idx rest kv e in
      subst (λ h. IsTrie t (suc fuel) d Q (set_child n idx h)) none_left
        (empty_child-IsTrie fuel d idx Q n (leaf kv) i g)
  finish_take-IsTrie fuel d Q n idx _ i e = i

  finish_singleton-IsTrie :
      (fuel d : ℕ) (Q : K → Type 0) (n : Hamt K V A) (o : Outcome (Option ℕ))
      → IsTrie t (suc fuel) d Q n
      → IsTrie t (suc fuel) d Q (finish_singleton t n o).0
  unfolding finish_singleton
  finish_singleton-IsTrie fuel d Q n (ok (some idx)) i = finish_take-IsTrie fuel d Q n idx _ i refl
  finish_singleton-IsTrie fuel d Q n _ i = i

  remove_singleton-IsTrie :
      (fuel d : ℕ) (Q : K → Type 0) (n : Hamt K V A)
      → IsTrie t (suc fuel) d Q n
      → IsTrie t (suc fuel) d Q (remove_singleton t n).0
  unfolding remove_singleton
  remove_singleton-IsTrie fuel d Q n = finish_singleton-IsTrie fuel d Q n _

  collapsed-Keeps :
      (fuel d : ℕ) (Q : K → Type 0) (l : K × V) (st : Step t (Option (K × V)))
      → IsTrie t (suc fuel) d Q st.0
      → ((key : K) (val : V) → st.1 ≡ ok (some (key, val)) → Q key)
      → Keeps (suc fuel) d Q (collapsed t l st)
  unfolding collapsed
  collapsed-Keeps fuel d Q l (n, ok (some (key, val))) i belongs = (i, belongs key val refl)
  collapsed-Keeps fuel d Q l (n, ok none) i belongs = (i, tt)
  collapsed-Keeps fuel d Q l (n, failed x) i belongs = (i, tt)
  collapsed-Keeps fuel d Q l (n, panicked) i belongs = (i, tt)
  collapsed-Keeps fuel d Q l (n, exhausted) i belongs = (i, tt)

  finish_remove-Keeps :
      (fuel d depth : ℕ) (Q : K → Type 0) (l : K × V) (n : Hamt K V A)
      → IsTrie t (suc fuel) d Q n
      → Keeps (suc fuel) d Q (finish_remove t depth l n)
  unfolding finish_remove inner
  finish_remove-Keeps fuel d zero Q l n i = (i, tt)
  finish_remove-Keeps fuel d (suc depth) Q l n i =
      collapsed-Keeps fuel d Q l (remove_singleton t n) (remove_singleton-IsTrie fuel d Q n i)
        λ key val one.
          let (p, (here, _)) = remove_singleton-ok t n (key, val) one in
          (i.2 p _ (leaf_ref (key, val)) here refl).0

  remove_below-Keeps :
      (fuel d s : ℕ) (Q : K → Type 0) (n : Hamt K V A) (slot : Slot K V A) (a : A)
      (st : Step t (Removed (K × V)))
      → IsTrie t (suc fuel) d Q n
      → get_handle (children n) s ≡ some slot
      → Keeps fuel (suc d) (Below t d Q s) st
      → Keeps (suc fuel) d Q (remove_below t d n s a st.0 st.1)
  unfolding remove_below new_leaf
  remove_below-Keeps fuel d s Q n slot a (c, ok (collapse l (key, val))) i g b =
      finish_remove-Keeps fuel d d Q l _
        (set_child-IsTrie t fuel d s Q n slot _ i g (IsPlaced-leaf t fuel d s Q key val b.1))
  remove_below-Keeps fuel d s Q n slot a (c, ok nothing) i g b =
      (set_child-IsTrie t fuel d s Q n slot _ i g (IsPlaced-node t fuel d s Q c a b.0), tt)
  remove_below-Keeps fuel d s Q n slot a (c, ok (removed l)) i g b =
      (set_child-IsTrie t fuel d s Q n slot _ i g (IsPlaced-node t fuel d s Q c a b.0), tt)
  remove_below-Keeps fuel d s Q n slot a (c, failed x) i g b =
      (set_child-IsTrie t fuel d s Q n slot _ i g (IsPlaced-node t fuel d s Q c a b.0), tt)
  remove_below-Keeps fuel d s Q n slot a (c, panicked) i g b =
      (set_child-IsTrie t fuel d s Q n slot _ i g (IsPlaced-node t fuel d s Q c a b.0), tt)
  remove_below-Keeps fuel d s Q n slot a (c, exhausted) i g b =
      (set_child-IsTrie t fuel d s Q n slot _ i g (IsPlaced-node t fuel d s Q c a b.0), tt)

  abbrev Rec : ℕ → Type 1
  Rec fuel =
      (d : ℕ) (Q : K → Type 0) (h : Digest) (k : K) (n : Hamt K V A)
      → IsTrie t fuel d Q n
      → Keeps fuel d Q (sub_remove t fuel d h k n)

  remove_at-Keeps :
      (fuel d s : ℕ) (Q : K → Type 0) (h : Digest) (k : K) (n : Hamt K V A) (slot : Slot K V A)
      (m : Outcome (HandleMut (K × V) A (Unit {0})))
      → Rec fuel
      → IsTrie t (suc fuel) d Q n
      → get_handle (children n) s ≡ some slot
      → (inner_mut t.load slot).1 ≡ m
      → Keeps (suc fuel) d Q (remove_at t (sub_remove t fuel) d h k n s (inner_mut t.load slot).0 m)
  unfolding remove_at new_empty
  remove_at-Keeps fuel d s Q h k n slot (ok none_mut) ih i g r =
      (set_child-IsTrie t fuel d s Q n slot _ i g (inner_mut-IsPlaced t fuel d s Q n slot i g), tt)
  remove_at-Keeps fuel d s Q h k n slot (ok (leaf_mut (key, val))) ih i g r =
      elim (Bool-cases (t.eq key k)) [
        | inl same ↦
            rw same (finish_remove-Keeps fuel d d Q _ _ (empty_child-IsTrie fuel d s Q n slot i g))
        | inr differ ↦ rw differ (
          set_child-IsTrie t fuel d s Q n slot _ i g (inner_mut-IsPlaced t fuel d s Q n slot i g),
          tt,
        )
      ]
  remove_at-Keeps fuel d s Q h k n slot (ok (node_mut c a)) ih i g r =
      remove_below-Keeps fuel d s Q n slot a (sub_remove t fuel (suc d) h k c) i g
        (ih (suc d) (Below t d Q s) h k c (i.2 s slot _ g (inner_mut-inner t.load slot _ r)))
  remove_at-Keeps fuel d s Q h k n slot (failed x) ih i g r =
      (set_child-IsTrie t fuel d s Q n slot _ i g (inner_mut-IsPlaced t fuel d s Q n slot i g), tt)
  remove_at-Keeps fuel d s Q h k n slot panicked ih i g r =
      (set_child-IsTrie t fuel d s Q n slot _ i g (inner_mut-IsPlaced t fuel d s Q n slot i g), tt)
  remove_at-Keeps fuel d s Q h k n slot exhausted ih i g r =
      (set_child-IsTrie t fuel d s Q n slot _ i g (inner_mut-IsPlaced t fuel d s Q n slot i g), tt)

  -- Whatever a removal from a trie returns, an error or a panic too, it leaves a trie, and the leaf that it hands
  -- up for a collapse is one that belongs in the slot of this node.
  pub sub_remove-Keeps :
      (fuel d : ℕ) (Q : K → Type 0) (h : Digest) (k : K) (n : Hamt K V A)
      → IsTrie t fuel d Q n
      → Keeps fuel d Q (sub_remove t fuel d h k n)
  unfolding sub_remove
  sub_remove-Keeps zero d Q h k n i = (tt, tt)
  sub_remove-Keeps (suc fuel) d Q h k n i = elim (Option-cases (t.select_slot h d)) [
    | inl e ↦ rw (sub_remove-none t fuel d h k n e) (i, tt)
    | inr (s, e) ↦ elim (Option-cases (get_handle (children n) s)) [
      | inl g ↦ rw (sub_remove-out t fuel d h k n s e g) (i, tt)
      | inr (slot, g) ↦
          rw (sub_remove-some t fuel d h k n s slot e g)
            (remove_at-Keeps fuel d s Q h k n slot _ (sub_remove-Keeps fuel) i g refl)
    ]
  ]
