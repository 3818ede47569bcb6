-- ===== src/Hamt/Root.antt =====
-- At the root a removal never asks for a collapse, so the `unreachable!()` of `remove` is not reached.
use kelvin.Prelude.{ℕ, suc, ◌≡◌, Option-cases, inl, inr, arith}
use kelvin.Prelude.Outcome.{Outcome, ok, failed, panicked, exhausted}
use kelvin.Handle.{Digest, children, get_handle, HandleMut, none_mut, leaf_mut, node_mut}
use kelvin.Hamt.{
  Trie, Hamt, Slot, Step, Removed, nothing, removed, collapse, finish_remove, remove_below,
  remove_at, sub_remove,
}
use kelvin.Hamt.Steps.{sub_remove-none, sub_remove-out, sub_remove-some}

module _ {K V A : Type 0} (t : Trie K V A) where
  remove_below-root :
      (n : Hamt K V A) (s : ℕ) (a : A) (st : Step t (Removed (K × V))) (l kv : K × V)
      → ¬ ((remove_below t 0 n s a st.0 st.1).1 ≡ ok (collapse l kv))
  unfolding remove_below finish_remove
  remove_below-root n s a (c, ok (collapse x y)) l kv h = cc
  remove_below-root n s a (c, ok nothing) l kv h = cc
  remove_below-root n s a (c, ok (removed x)) l kv h = cc
  remove_below-root n s a (c, failed x) l kv h = cc
  remove_below-root n s a (c, panicked) l kv h = cc
  remove_below-root n s a (c, exhausted) l kv h = cc

  remove_at-root :
      (fuel : ℕ) (h : Digest) (k : K) (n : Hamt K V A) (s : ℕ) (slot : Slot K V A)
      (m : Outcome (HandleMut (K × V) A (Unit {0}))) (l kv : K × V)
      → ¬ ((remove_at t (sub_remove t fuel) 0 h k n s slot m).1 ≡ ok (collapse l kv))
  unfolding remove_at finish_remove
  remove_at-root fuel h k n s slot (ok none_mut) l kv e = cc
  remove_at-root fuel h k n s slot (ok (leaf_mut (key, val))) l kv e = ground arith
  remove_at-root fuel h k n s slot (ok (node_mut c a)) l kv e =
      remove_below-root n s a (sub_remove t fuel 1 h k c) l kv e
  remove_at-root fuel h k n s slot (failed x) l kv e = cc
  remove_at-root fuel h k n s slot panicked l kv e = cc
  remove_at-root fuel h k n s slot exhausted l kv e = cc

  -- A removal that starts at depth 0 never returns a collapse.
  pub sub_remove-root :
      (fuel : ℕ) (h : Digest) (k : K) (n : Hamt K V A) (l kv : K × V)
      → ¬ ((sub_remove t (suc fuel) 0 h k n).1 ≡ ok (collapse l kv))
  sub_remove-root fuel h k n l kv = elim (Option-cases (t.select_slot h 0)) [
    | inl e ↦ rw (sub_remove-none t fuel 0 h k n e) (λ p. cc)
    | inr (s, e) ↦ elim (Option-cases (get_handle (children n) s)) [
      | inl g ↦ rw (sub_remove-out t fuel 0 h k n s e g) (λ p. cc)
      | inr (slot, g) ↦
          rw (sub_remove-some t fuel 0 h k n s slot e g) (remove_at-root fuel h k n s _ _ l kv)
    ]
  ]
