-- ===== src/Handle.antt =====
-- src/handle.rs and src/compound.rs: handles and the compound nodes that hold them.
pub mod Laws
use kelvin.Prelude.{ℕ, zero, suc, Option, none, some, List, [], ◌∷◌, Bool, true, false}
use kelvin.Prelude.Outcome.{Outcome, ok, failed, panicked, exhausted, ◌>>=◌}
use kelvin.Annotation.{Annotation}

-- The bytes of a digest.
abbrev pub Digest : Type 0
Digest = List ℕ

-- `HandleInner`: `L` the leaves, `A` the annotations, `X` what a node holds beside its handles. A
-- node carries its annotation and the cached hash, a persisted handle the digest of a snapshot.
-- A `Compound` is its handles and an `X`.
mutual
  pub data Handle (L A X : Type 0) : Type 0 where
    empty : Handle L A X
    leaf : L → Handle L A X
    node : Node L A X → A → Option Digest → Handle L A X
    persisted : Digest → A → Handle L A X

  pub data Node (L A X : Type 0) : Type 0 where
    compound : X → Handles L A X → Node L A X

  pub data Handles (L A X : Type 0) : Type 0 where
    nil : Handles L A X
    cons : Handle L A X → Handles L A X → Handles L A X

-- `HandleType`
pub data HandleType : Type 0 where
  none_type leaf_type node_type : HandleType

-- `HandleRef` and `HandleMut`: what a handle points at, a persisted node restored. `node_mut`
-- holds the annotation beside the node, which the drop of the reference replaces.
pub data HandleRef (L A X : Type 0) : Type 0 where
  none_ref : HandleRef L A X
  leaf_ref : L → HandleRef L A X
  node_ref : Node L A X → HandleRef L A X

pub data HandleMut (L A X : Type 0) : Type 0 where
  none_mut : HandleMut L A X
  leaf_mut : L → HandleMut L A X
  node_mut : Node L A X → A → HandleMut L A X

module _ {L A X : Type 0} where
  -- `children()` and `children_mut()`: the handles, read and written by index.
  abbrev pub children : Node L A X → Handles L A X
  children (compound x hs) = hs

  abbrev pub extra : Node L A X → X
  extra (compound x hs) = x

  abbrev pub get_handle : Handles L A X → ℕ → Option (Handle L A X)
  get_handle nil i = none
  get_handle (cons h hs) zero = some h
  get_handle (cons h hs) (suc i) = get_handle hs i

  abbrev pub set_handle : Handles L A X → ℕ → Handle L A X → Handles L A X
  set_handle nil i v = nil
  set_handle (cons h hs) zero v = cons v hs
  set_handle (cons h hs) (suc i) v = cons h (set_handle hs i v)

  abbrev pub set_child : Node L A X → ℕ → Handle L A X → Node L A X
  set_child (compound x hs) i v = compound x (set_handle hs i v)

  abbrev pub count_handles : Handles L A X → ℕ
  count_handles nil = 0
  count_handles (cons h hs) = suc (count_handles hs)

  -- `Default` for an array of `n` handles.
  abbrev pub empty_handles : ℕ → Handles L A X
  empty_handles zero = nil
  empty_handles (suc n) = cons empty (empty_handles n)

  unfoldable pub new_leaf : L → Handle L A X
  new_leaf l = leaf l

  unfoldable pub new_empty : Handle L A X
  new_empty = empty

  unfoldable pub try_into_leaf : Handle L A X → Option L
  try_into_leaf (leaf l) = some l
  try_into_leaf _ = none

  unfoldable pub into_leaf : Handle L A X → Outcome L
  unfolding try_into_leaf
  into_leaf h = elim (try_into_leaf h) [ some l ↦ ok l | none ↦ panicked ]

  -- A persisted handle is not converted: the code panics.
  unfoldable pub into_node : Handle L A X → Outcome (Node L A X)
  into_node (node n a c) = ok n
  into_node _ = panicked

  unfoldable pub leaf_of : Handle L A X → Option L
  leaf_of (leaf l) = some l
  leaf_of _ = none

  unfoldable pub is_none : Handle L A X → Bool
  is_none empty = true
  is_none _ = false

  unfoldable pub handle_type : Handle L A X → HandleType
  handle_type empty = none_type
  handle_type (leaf l) = leaf_type
  handle_type (node n a c) = node_type
  handle_type (persisted d a) = node_type

module _ {L A X : Type 0} (ann : Annotation L A) where
  -- `Handle::annotation`
  unfoldable pub handle_annotation : Handle L A X → Option A
  handle_annotation empty = none
  handle_annotation (leaf l) = some (ann.of_leaf l)
  handle_annotation (node n a c) = some a
  handle_annotation (persisted d a) = some a

  unfoldable pub handle_annotations : Handles L A X → List (Option A)
  handle_annotations nil = []
  handle_annotations (cons h hs) = handle_annotation h ∷ handle_annotations hs

  -- `Compound::annotation`
  unfoldable pub node_annotation : Node L A X → Option A
  unfolding handle_annotation handle_annotations
  node_annotation n = ann.combine (handle_annotations (children n))

  -- `Handle::new_node`, which expects the node to have an annotation.
  unfoldable pub new_node : Node L A X → Outcome (Handle L A X)
  unfolding node_annotation
  new_node n = elim (node_annotation n) [ some a ↦ ok (node n a none) | none ↦ panicked ]

  -- `Drop for HandleMut`: the handle left behind once a mutable reference to a node goes away. The
  -- cached hash is cleared, and the annotation renewed unless the node is empty.
  unfoldable pub drop_mut : Node L A X → A → Handle L A X
  unfolding node_annotation
  drop_mut n a = elim (node_annotation n) [ some a' ↦ node n a' none | none ↦ node n a none ]

-- `load` restores a node from the store that a snapshot refers to.
module _ {L A X : Type 0} (load : Digest → Outcome (Node L A X)) where
  -- `Handle::inner`
  unfoldable pub inner : Handle L A X → Outcome (HandleRef L A X)
  inner empty = ok none_ref
  inner (leaf l) = ok (leaf_ref l)
  inner (node n a c) = ok (node_ref n)
  inner (persisted d a) = do n ← load d; ok (node_ref n)

  -- `Handle::inner_mut`: the handle that is left in its place, and the reference. A persisted
  -- handle is taken out before it is restored, and an error leaves the place empty.
  unfoldable pub restored : A → Outcome (Node L A X) → Handle L A X × Outcome (HandleMut L A X)
  restored a (ok n) = (node n a none, ok (node_mut n a))
  restored a (failed e) = (empty, failed e)
  restored a panicked = (empty, panicked)
  restored a exhausted = (empty, exhausted)

  unfoldable pub inner_mut : Handle L A X → Handle L A X × Outcome (HandleMut L A X)
  unfolding restored
  inner_mut empty = (empty, ok none_mut)
  inner_mut (leaf l) = (leaf l, ok (leaf_mut l))
  inner_mut (node n a c) = (node n a c, ok (node_mut n a))
  inner_mut (persisted d a) = restored a (load d)
