-- ===== src/Hamt/TotalRemove.antt =====
-- `remove` and `get` return a result on every trie over a store that restores its nodes.
use kelvin.Prelude.{ℕ, zero, suc, Option, none, some, ◌≡◌, refl, arith, subst, Bool-cases, inl, inr}
use kelvin.Prelude.Outcome.{ok, failed, panicked, exhausted}
use kelvin.Handle.{
  Handles, nil, cons, children, HandleRef, none_ref, leaf_ref, node_ref, get_handle, inner,
  inner_mut, empty, leaf, node, persisted, HandleMut, none_mut, leaf_mut, node_mut, into_leaf,
  try_into_leaf,
}
use kelvin.Handle.Laws.{get_handle-some, inner_mut-inner, shared}
use kelvin.Hamt.{
  Trie, Hamt, Slot, Step, Removed, nothing, removed, collapse, scan_singleton, take_leaf,
  finish_take, finish_singleton, remove_singleton, collapsed, finish_remove, remove_below,
  remove_at, sub_remove,
}
use kelvin.Hamt.Get.{find, find_at, find-some}
use kelvin.Hamt.Steps.{sub_remove-some}
use kelvin.Hamt.Singleton.{scan-fresh, IsSingleton}
use kelvin.Hamt.Invariant.{IsTrie, IsPlaced}
use kelvin.Hamt.Keeps.{Below}
use kelvin.Hamt.Total.{Succeeds, IsUsable, Room, child-Room, inner_mut-Succeeds}

module _ {K V A : Type 0} (t : Trie K V A) (u : IsUsable t) where
  scan_singleton-Succeeds :
      (hs : Handles (K × V) A (Unit {0})) (i : ℕ) (found : Option ℕ)
      → Succeeds (scan_singleton t hs i found)
  unfolding scan_singleton inner
  scan_singleton-Succeeds nil i found = (found, refl)
  scan_singleton-Succeeds (cons empty hs) i found = scan_singleton-Succeeds hs (suc i) found
  scan_singleton-Succeeds (cons (leaf l) hs) i none = scan_singleton-Succeeds hs (suc i) (some i)
  scan_singleton-Succeeds (cons (leaf l) hs) i (some f) = (none, refl)
  scan_singleton-Succeeds (cons (node n a c) hs) i found = (none, refl)
  scan_singleton-Succeeds (cons (persisted dg a) hs) i found =
      let (c, e) = u.loads dg in (none, rw (scan_singleton, inner, e))

  finish_singleton-Succeeds :
      (n : Hamt K V A) (o : Option ℕ)
      → ((idx : ℕ) → o ≡ some idx → (l : K × V) × IsSingleton t (children n) idx l)
      → Succeeds (finish_singleton t n (ok o)).1
  unfolding finish_singleton take_leaf finish_take into_leaf try_into_leaf
  finish_singleton-Succeeds n none found = (none, refl)
  finish_singleton-Succeeds n (some idx) found =
      let (l, (here, others)) = found idx refl in
      (some l, rw (finish_singleton, finish_take, take_leaf, here))

  remove_singleton-Succeeds : (n : Hamt K V A) → Succeeds (remove_singleton t n).1
  unfolding remove_singleton
  remove_singleton-Succeeds n =
      let (o, e) = scan_singleton-Succeeds (children n) 0 none in
      rw e (
        finish_singleton-Succeeds n o λ idx p.
          let (q, at, single) = scan-fresh t (children n) 0 idx (rw p at e) in
          subst (λ x. (l : K × V) × IsSingleton t (children n) x l) (omega arith) single)

  collapsed-Succeeds :
      (l : K × V) (st : Step t (Option (K × V))) → Succeeds st.1 → Succeeds (collapsed t l st).1
  unfolding collapsed
  collapsed-Succeeds l (n, ok none) h = (removed l, refl)
  collapsed-Succeeds l (n, ok (some kv)) h = (collapse l kv, refl)
  collapsed-Succeeds l (n, failed x) h = absurd (cc (h.1))
  collapsed-Succeeds l (n, panicked) h = absurd (cc (h.1))
  collapsed-Succeeds l (n, exhausted) h = absurd (cc (h.1))

  finish_remove-Succeeds : (d : ℕ) (l : K × V) (n : Hamt K V A) → Succeeds (finish_remove t d l n).1
  unfolding finish_remove
  finish_remove-Succeeds zero l n = (removed l, refl)
  finish_remove-Succeeds (suc d) l n =
      collapsed-Succeeds l (remove_singleton t n) (remove_singleton-Succeeds n)

  remove_below-Succeeds :
      (d s : ℕ) (n c : Hamt K V A) (a : A) (r : Removed (K × V))
      → Succeeds (remove_below t d n s a c (ok r)).1
  unfolding remove_below
  remove_below-Succeeds d s n c a nothing = (nothing, refl)
  remove_below-Succeeds d s n c a (removed l) = (removed l, refl)
  remove_below-Succeeds d s n c a (collapse l kv) = finish_remove-Succeeds d l _

  abbrev Rec : ℕ → Type 1
  Rec fuel =
      (d : ℕ) (Q : K → Type 0) (k : K) (n : Hamt K V A)
      → Room t u fuel d
      → IsTrie t fuel d Q n
      → Succeeds (sub_remove t fuel d (t.hash k) k n).1

  remove_at-Succeeds :
      (fuel d s : ℕ) (Q : K → Type 0) (k : K) (n : Hamt K V A) (slot slot' : Slot K V A)
      (m : HandleMut (K × V) A (Unit {0}))
      → Rec fuel
      → Room t u (suc fuel) d
      → IsTrie t (suc fuel) d Q n
      → get_handle (children n) s ≡ some slot
      → (inner_mut t.load slot).1 ≡ ok m
      → Succeeds (remove_at t (sub_remove t fuel) d (t.hash k) k n s slot' (ok m)).1
  unfolding remove_at
  remove_at-Succeeds fuel d s Q k n slot slot' none_mut ih room i g r = (nothing, refl)
  remove_at-Succeeds fuel d s Q k n slot slot' (leaf_mut (key, val)) ih room i g r =
      elim (Bool-cases (t.eq key k)) [
        | inl same ↦ rw same (finish_remove-Succeeds d (key, val) _)
        | inr differ ↦ rw differ (nothing, refl)
      ]
  remove_at-Succeeds fuel d s Q k n slot slot' (node_mut c a) ih room i g r =
      let placed = i.2 s slot _ g (inner_mut-inner t.load slot _ r) in
      let (res, below_ok) =
        ih (suc d) (Below t d Q s) k c (child-Room t u fuel d (Below t d Q s) c room placed)
          placed in
      rw below_ok (remove_below-Succeeds d s n _ a res)

  -- At any depth within the digest, with fuel for the slots that are left, a removal from a trie
  -- returns a result.
  pub sub_remove-Succeeds :
      (fuel d : ℕ) (Q : K → Type 0) (k : K) (n : Hamt K V A)
      → Room t u fuel d
      → IsTrie t fuel d Q n
      → Succeeds (sub_remove t fuel d (t.hash k) k n).1
  sub_remove-Succeeds zero d Q k n room i = absurd (omega arith)
  sub_remove-Succeeds (suc fuel) d Q k n room i =
      let (s, e) = u.lawful.has_slot k d room.0 in
      let (slot, g) = get_handle-some (children n) s (rw i.1 (u.lawful.slot_bound k d s e)) in
      let (m, r) = inner_mut-Succeeds t u.loads slot in
      rw (sub_remove-some t fuel d (t.hash k) k n s slot e g, r)
        (remove_at-Succeeds fuel d s Q k n slot _ m (sub_remove-Succeeds fuel) room i g r)

  inner-Succeeds : (h : Slot K V A) → Succeeds (inner t.load h)
  inner-Succeeds h =
      let (m, r) = inner_mut-Succeeds t u.loads h in (shared t.load m, inner_mut-inner t.load h m r)

  find_at-Succeeds :
      (fuel d s : ℕ) (Q : K → Type 0) (k : K) (r : HandleRef (K × V) A (Unit {0}))
      → ((c : Hamt K V A)
          → IsTrie t fuel (suc d) (Below t d Q s) c
          → Succeeds (find t fuel (suc d) (t.hash k) k c))
      → IsPlaced t (IsTrie t fuel) d Q s r
      → Succeeds (find_at t (find t fuel (suc d) (t.hash k) k) k r)
  unfolding find_at
  find_at-Succeeds fuel d s Q k none_ref ih placed = (none, refl)
  find_at-Succeeds fuel d s Q k (leaf_ref (key, val)) ih placed = (_, refl)
  find_at-Succeeds fuel d s Q k (node_ref c) ih placed = ih c placed

  -- The reading of a trie is a result.
  pub find-Succeeds :
      (fuel d : ℕ) (Q : K → Type 0) (k : K) (n : Hamt K V A)
      → Room t u fuel d
      → IsTrie t fuel d Q n
      → Succeeds (find t fuel d (t.hash k) k n)
  find-Succeeds zero d Q k n room i = absurd (omega arith)
  find-Succeeds (suc fuel) d Q k n room i =
      let (s, e) = u.lawful.has_slot k d room.0 in
      let (slot, g) = get_handle-some (children n) s (rw i.1 (u.lawful.slot_bound k d s e)) in
      let (r, p) = inner-Succeeds slot in
      rw (find-some t fuel d (t.hash k) k n s slot e g, p)
        (find_at-Succeeds fuel d s Q k r
          (λ c placed.
            find-Succeeds fuel (suc d) (Below t d Q s) k c
              (child-Room t u fuel d (Below t d Q s) c room placed) placed)
          (i.2 s slot r g p))
