-- ===== src/Handle/Laws.antt =====
-- Reading a handle after it was written, and what a mutable reference shows.
use kelvin.Prelude.{ℕ, zero, suc, ◌<◌, some, none, ◌≡◌, ◌≢◌, refl, ap, arith, ◌⊎◌, inl}
use kelvin.Prelude.Outcome.{Outcome, ok, failed, panicked, exhausted, ◌>>=◌}
use kelvin.Annotation.{Annotation}
use kelvin.Handle.{
  Digest, Handle, Node, Handles, empty, leaf, node, persisted, nil, cons, compound, children,
  get_handle, set_handle, set_child, count_handles, empty_handles, new_node, into_node, drop_mut,
  inner, handle_annotation, restored, inner_mut, HandleRef, HandleMut, none_ref, leaf_ref, node_ref,
  none_mut, leaf_mut, node_mut,
}

module _ {L A X : Type 0} where
  pub get_handle-set_self :
      (hs : Handles L A X) (i : ℕ) (v : Handle L A X) {w : Handle L A X}
      → get_handle hs i ≡ some w
      → get_handle (set_handle hs i v) i ≡ some v
  get_handle-set_self nil i v h = cc
  get_handle-set_self (cons x hs) zero v h = refl
  get_handle-set_self (cons x hs) (suc i) v h = get_handle-set_self hs i v h

  pub get_handle-set_ne :
      (hs : Handles L A X) (i j : ℕ) (v : Handle L A X)
      → i ≢ j
      → get_handle (set_handle hs i v) j ≡ get_handle hs j
  get_handle-set_ne nil i j v h = refl
  get_handle-set_ne (cons x hs) zero zero v h = absurd (h refl)
  get_handle-set_ne (cons x hs) zero (suc j) v h = refl
  get_handle-set_ne (cons x hs) (suc i) zero v h = refl
  get_handle-set_ne (cons x hs) (suc i) (suc j) v h = get_handle-set_ne hs i j v (λ e. h (ap suc e))

  pub set_handle-same :
      (hs : Handles L A X) (i : ℕ) (h : Handle L A X)
      → get_handle hs i ≡ some h
      → set_handle hs i h ≡ hs
  set_handle-same nil i h e = refl
  set_handle-same (cons g hs) zero h e = ap (λ x. cons x hs) (cc e)
  set_handle-same (cons g hs) (suc i) h e = ap (cons g) (set_handle-same hs i h e)

  pub count_handles-set :
      (hs : Handles L A X) (i : ℕ) (v : Handle L A X)
      → count_handles (set_handle hs i v) ≡ count_handles hs
  count_handles-set nil i v = refl
  count_handles-set (cons x hs) zero v = refl
  count_handles-set (cons x hs) (suc i) v = ap suc (count_handles-set hs i v)

  pub child-set_self :
      (n : Node L A X) (i : ℕ) (v : Handle L A X) {w : Handle L A X}
      → get_handle (children n) i ≡ some w
      → get_handle (children (set_child n i v)) i ≡ some v
  child-set_self (compound x hs) i v h = get_handle-set_self hs i v h

  pub child-set_ne :
      (n : Node L A X) (i j : ℕ) (v : Handle L A X)
      → i ≢ j
      → get_handle (children (set_child n i v)) j ≡ get_handle (children n) j
  child-set_ne (compound x hs) i j v h = get_handle-set_ne hs i j v h

  pub count-set_child :
      (n : Node L A X) (i : ℕ) (v : Handle L A X)
      → count_handles (children (set_child n i v)) ≡ count_handles (children n)
  count-set_child (compound x hs) i v = count_handles-set hs i v

module _ {L A X : Type 0} (ann : Annotation L A) (load : Digest → Outcome (Node L A X)) where
  pub inner-drop_mut : (n : Node L A X) (a : A) → inner load (drop_mut ann n a) ≡ ok (node_ref n)
  unfolding drop_mut inner
  inner-drop_mut n a = ground arith

  pub into_node-drop_mut : (n : Node L A X) (a : A) → into_node (drop_mut ann n a) ≡ ok n
  unfolding drop_mut into_node
  into_node-drop_mut n a = ground arith

  pub inner-new_node :
      (n : Node L A X) (h : Handle L A X) → new_node ann n ≡ ok h → inner load h ≡ ok (node_ref n)
  unfolding new_node inner
  inner-new_node n h e = ground arith

module _ {L A X : Type 0} (load : Digest → Outcome (Node L A X)) where
  -- What a mutable reference refers to, as an immutable one.
  abbrev pub shared : HandleMut L A X → HandleRef L A X
  shared none_mut = none_ref
  shared (leaf_mut l) = leaf_ref l
  shared (node_mut n a) = node_ref n

  -- `inner_mut` shows what `inner` shows.
  pub inner_mut-inner :
      (h : Handle L A X) (m : HandleMut L A X)
      → (inner_mut load h).1 ≡ ok m
      → inner load h ≡ ok (shared m)
  unfolding inner_mut inner
  inner_mut-inner empty m e = ground arith
  inner_mut-inner (leaf l) m e = ground arith
  inner_mut-inner (node n a c) m e = ground arith
  inner_mut-inner (persisted dg a) m e = ground arith

  -- The handle that `inner_mut` leaves shows the same.
  pub inner-inner_mut :
      (h : Handle L A X) (m : HandleMut L A X)
      → (inner_mut load h).1 ≡ ok m
      → inner load (inner_mut load h).0 ≡ ok (shared m)
  unfolding inner_mut inner
  inner-inner_mut empty m e = ground arith
  inner-inner_mut (leaf l) m e = ground arith
  inner-inner_mut (node n a c) m e = ground arith
  inner-inner_mut (persisted dg a) m e = ground arith

module _ {L A X : Type 0} where
  pub get_handle-empty :
      (n i : ℕ) → i < n → get_handle (empty_handles {L = L} {A = A} {X = X} n) i ≡ some empty
  get_handle-empty zero i h = absurd (omega arith)
  get_handle-empty (suc n) zero h = refl
  get_handle-empty (suc n) (suc i) h = get_handle-empty n i (omega arith)

  pub get_handle-empty_inv :
      (n i : ℕ) (h : Handle L A X)
      → get_handle (empty_handles {L = L} {A = A} {X = X} n) i ≡ some h
      → h ≡ empty
  get_handle-empty_inv zero i h e = absurd (cc)
  get_handle-empty_inv (suc n) zero h e = cc
  get_handle-empty_inv (suc n) (suc i) h e = get_handle-empty_inv n i h e

pub count_handles-empty :
    (L A X : Type 0) (n : ℕ) → count_handles (empty_handles {L = L} {A = A} {X = X} n) ≡ n
count_handles-empty L A X zero = refl
count_handles-empty L A X (suc n) = ap suc (count_handles-empty L A X n)

module _ {L A X : Type 0} (load : Digest → Outcome (Node L A X)) where
  -- What `inner_mut` leaves shows nothing else than the handle did, or nothing after an error.
  pub inner-inner_mut_inv :
      (h : Handle L A X) (r : HandleRef L A X)
      → inner load (inner_mut load h).0 ≡ ok r
      → (inner load h ≡ ok r) ⊎ (r ≡ none_ref)
  unfolding inner_mut inner
  inner-inner_mut_inv empty r e = inl e
  inner-inner_mut_inv (leaf l) r e = inl e
  inner-inner_mut_inv (node n a c) r e = inl e
  inner-inner_mut_inv (persisted dg a) r e = ground arith

module _ {L A X : Type 0} where
  pub get_handle-some :
      (hs : Handles L A X) (i : ℕ)
      → i < count_handles hs
      → (h : Handle L A X) × (get_handle hs i ≡ some h)
  get_handle-some nil i p = absurd (omega arith)
  get_handle-some (cons h hs) zero p = (h, refl)
  get_handle-some (cons h hs) (suc i) p = get_handle-some hs i (omega arith)

module _ {L A X : Type 0} (ann : Annotation L A) (load : Digest → Outcome (Node L A X)) where
  -- The mutable reference to a handle that shows a node.
  pub inner_mut-node :
      (h : Handle L A X) (n : Node L A X) (a : A)
      → inner load h ≡ ok (node_ref n)
      → handle_annotation ann h ≡ some a
      → (g : Handle L A X) × (inner_mut load h ≡ (g, ok (node_mut n a)))
  unfolding inner_mut inner handle_annotation restored
  inner_mut-node empty n a e f = absurd (cc)
  inner_mut-node (leaf l) n a e f = absurd (cc)
  inner_mut-node (node m b c) n a e f = (node m b c, ap (λ p. (node m b c, ok p)) (cc (e, f)))
  inner_mut-node (persisted d b) n a e f = by_load (load d) e (cc f)
    where
      by_load :
          (o : Outcome (Node L A X))
          → (do m ← o; ok (node_ref m)) ≡ ok (node_ref n)
          → b ≡ a
          → (g : Handle L A X) × (restored load b o ≡ (g, ok (node_mut n a)))
      by_load (ok m) e f = (node m b none, ap (λ p. (node m b none, ok p)) (cc (e, f)))
      by_load (failed x) e f = absurd (cc)
      by_load panicked e f = absurd (cc)
      by_load exhausted e f = absurd (cc)
