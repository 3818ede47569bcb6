-- ===== src/Branch/Unlinks.antt =====
-- What relinking a branch leaves: the leaves before its last level, those below it, and those past it.
use native.Mathlib.Nat.{add-zero}
use kelvin.Prelude.{
  ℕ, zero, suc, ◌+◌, ◌<◌, none, some, Option, List, [], ◌∷◌, ◌++◌, ◌≡◌, refl, ap, ◌∙◌, sym, arith,
  length,
}
use kelvin.Prelude.Outcome.{Outcome, ok, ◌>>=◌}
use kelvin.Annotation.{Annotation}
use kelvin.Annotation.Laws.{IsAnnotation}
use kelvin.Handle.{
  Digest, Handle, Handles, nil, cons, node, Node, compound, children, set_child, set_handle,
  get_handle, count_handles, inner, node_ref, new_node, node_annotation, handle_annotation,
  handle_annotations,
}
use kelvin.Search.{Level}
use kelvin.Branch.{
  NodeRef, cached, mutable, owned, RefLevel, deref, written, plain, insert_child, relinked, unlink,
  put_child,
}
use kelvin.Iter.Walk.{
  Walk, ended, ◌then◌, then_assoc, then-ended, walk, walk_handle, walk_all, walk-under,
  take_handles, drop_handles, walk_all-split, walk_all-set, walk-inner, walk_past,
}

abbrev pub RefLevels : Type 0 → Type 0 → Type 0 → Type 0
RefLevels L A X = List (RefLevel (Node L A X))

abbrev pub plains : {L A X : Type 0} → RefLevels L A X → List (Level (Node L A X))
plains [] = []
plains (level ∷ up) = plain level ∷ plains up

module _ {L A X : Type 0} (ann : Annotation L A) where
  annotations-split :
      (hs : Handles L A X) (i : ℕ) (h : Handle L A X) (a : A)
      → get_handle hs i ≡ some h
      → handle_annotation ann h ≡ some a
      → (es : List (Option A)) × (fs : List (Option A)) × (handle_annotations ann hs
          ≡ es ++ some a ∷ fs)
  unfolding handle_annotations
  annotations-split nil i h a g e = absurd (cc)
  annotations-split (cons x hs) zero h a g e =
      ([], handle_annotations ann hs, ap (λ y. y ∷ handle_annotations ann hs) (cc))
  annotations-split (cons x hs) (suc i) h a g e =
      let (es, fs, p) = annotations-split hs i h a g e in
      (handle_annotation ann x ∷ es, fs, ap (λ y. handle_annotation ann x ∷ y) p)

  abbrev pub HasAnnotation : Node L A X → Type 0
  HasAnnotation n = (a : A) × (node_annotation ann n ≡ some a)

  -- A node has an annotation if one of its handles has.
  pub get_handle-HasAnnotation :
      (n : Node L A X) (i : ℕ) (h : Handle L A X) (a : A)
      → IsAnnotation ann
      → get_handle (children n) i ≡ some h
      → handle_annotation ann h ≡ some a
      → HasAnnotation n
  unfolding node_annotation
  get_handle-HasAnnotation n i h a law g e =
      let (es, fs, p) = annotations-split (children n) i h a g e in
      let (b, q) = law.combine_some es fs a in (b, ap ann.combine p ∙ q)

module _ {L A X : Type 0} (ann : Annotation L A) (load : Digest → Outcome (Node L A X)) where
  -- The node of each level is below the handle that the level above it is at, or is to be.
  abbrev pub IsLinked : NodeRef (Node L A X) → RefLevels L A X → Type 0
  IsLinked ref [] = Unit
  IsLinked (cached n) (last ∷ up) =
      (h : Handle L A X) × (get_handle (children (deref last.node)) last.ofs ≡ some h)
      × (inner load h ≡ ok (node_ref n))
      × IsLinked last.node up
  IsLinked (owned n) (last ∷ up) =
      (last.ofs < count_handles (children (deref last.node)))
      × HasAnnotation ann n
      × IsLinked last.node up
  IsLinked (mutable n) (last ∷ up) = ⊥

  pub get_handle-lt :
      (hs : Handles L A X) (i : ℕ) (h : Handle L A X)
      → get_handle hs i ≡ some h
      → i < count_handles hs
  get_handle-lt nil i h g = absurd (cc)
  get_handle-lt (cons x hs) zero h g = omega arith
  get_handle-lt (cons x hs) (suc i) h g = omega (arith, get_handle-lt hs i h g)

  get_handle-set :
      (hs : Handles L A X) (i : ℕ) (h : Handle L A X)
      → i < count_handles hs
      → get_handle (set_handle hs i h) i ≡ some h
  get_handle-set nil i h p = absurd (omega (arith, p))
  get_handle-set (cons x hs) zero h p = refl
  get_handle-set (cons x hs) (suc i) h p = get_handle-set hs i h (omega (arith, p))

  children-set :
      (n : Node L A X) (i : ℕ) (h : Handle L A X)
      → children (set_child n i h) ≡ set_handle (children n) i h
  children-set (compound x hs) i h = refl

  -- A write keeps the links.
  pub written-IsLinked :
      (ref : NodeRef (Node L A X)) (n : Node L A X) (up : RefLevels L A X)
      → HasAnnotation ann n
      → IsLinked ref up
      → IsLinked (written ref n) up
  written-IsLinked ref n [] a l = tt
  written-IsLinked (cached c) n (last ∷ up) a (h, g, e, l) =
      (get_handle-lt (children (deref last.node)) last.ofs h g, a, l)
  written-IsLinked (mutable c) n (last ∷ up) a l = absurd l
  written-IsLinked (owned c) n (last ∷ up) a (p, b, l) = (p, a, l)

  deref-written : (ref : NodeRef (Node L A X)) (n : Node L A X) → deref (written ref n) ≡ n
  deref-written (cached c) n = refl
  deref-written (mutable c) n = refl
  deref-written (owned c) n = refl

  -- The level that an owned node goes into.
  abbrev pub with_child : RefLevel (Node L A X) → Handle L A X → RefLevel (Node L A X)
  with_child last h = record last {
    node = written last.node (set_child (deref last.node) last.ofs h);
  }

  pub relinked-owned :
      (n : Node L A X) (a : A) (last : RefLevel (Node L A X))
      → node_annotation ann n ≡ some a
      → last.ofs < count_handles (children (deref last.node))
      → relinked ann (owned n) last ≡ ok (with_child last (node n a none))
  unfolding relinked insert_child new_node put_child
  relinked-owned n a last e p = ground (arith, e, p)

  pub with_child-shows :
      (last : RefLevel (Node L A X)) (h : Handle L A X)
      → last.ofs < count_handles (children (deref last.node))
      → get_handle (children (deref (with_child last h).node)) last.ofs ≡ some h
  with_child-shows last h p =
      ap (λ n. get_handle (children n) last.ofs) (deref-written last.node _)
      ∙ ap (λ hs. get_handle hs last.ofs) (children-set (deref last.node) last.ofs h)
      ∙ get_handle-set (children (deref last.node)) last.ofs h p

  pub with_child-IsLinked :
      (last : RefLevel (Node L A X)) (h : Handle L A X) (a : A) (up : RefLevels L A X)
      → IsAnnotation ann
      → last.ofs < count_handles (children (deref last.node))
      → handle_annotation ann h ≡ some a
      → IsLinked last.node up
      → IsLinked (with_child last h).node up
  with_child-IsLinked last h a up law p e l =
      let n = set_child (deref last.node) last.ofs h in
      written-IsLinked last.node n up
        (get_handle-HasAnnotation ann n last.ofs h a law
          (ap (λ hs. get_handle hs last.ofs) (children-set (deref last.node) last.ofs h)
            ∙ get_handle-set (children (deref last.node)) last.ofs h p)
          e)
        l

  pub with_child-walk :
      (below : Handles L A X → Walk L) (last : RefLevel (Node L A X)) (h : Handle L A X)
      → last.ofs < count_handles (children (deref last.node))
      → walk_all load below (children (deref (with_child last h).node)) ≡ (
          walk_all load below (take_handles last.ofs (children (deref last.node)))
          then walk_handle load below h
          then walk_all load below (drop_handles (last.ofs + 1) (children (deref last.node))))
  with_child-walk below last h p =
      ap (λ n. walk_all load below (children n)) (deref-written last.node _)
      ∙ ap (walk_all load below) (children-set (deref last.node) last.ofs h)
      ∙ walk_all-set load below last.ofs (children (deref last.node)) h p

  pub unlink-owned :
      (n : Node L A X) (last last' : RefLevel (Node L A X)) (up : RefLevels L A X)
      → relinked ann (owned n) last ≡ ok last'
      → unlink ann (owned n) (last ∷ up) ≡ unlink ann last'.node up
  unfolding unlink
  unlink-owned n last last' up e = ap (λ o. o >>= λ l. unlink ann l.node up) e

  -- The leaves before the handle that each level is at.
  abbrev pub before : ℕ → RefLevels L A X → Walk L
  before d [] = ended (ok tt)
  before d (level ∷ up) =
      before (suc d) up then walk load d (take_handles level.ofs (children (deref level.node)))

  abbrev pub past : ℕ → RefLevels L A X → Walk L
  past d levels = walk_past load d (plains levels)

  -- With a walk `w` below the handle at `i` in place of the handle's.
  pub regroup :
      (b t w r p : Walk L)
      → (b then ((t then w then r) then p)) ≡ ((b then t) then (w then (r then p)))
  regroup b t w r p =
      ap (λ x. b then x) (then_assoc t _ p ∙ ap (λ x. t then x) (then_assoc w r p))
      ∙ sym (then_assoc b t _)

  -- The walk over the handles of a level, with `w` at one of them.
  parts :
      (d i : ℕ) (hs : Handles L A X) (v w : Walk L)
      → v ≡ w
      → (walk_all load (walk load d) (take_handles i hs)
          then v
          then walk_all load (walk load d) (drop_handles (i + 1) hs))
        ≡ (walk load (suc d) (take_handles i hs)
            then w
            then walk load (suc d) (drop_handles (i + 1) hs))
  unfolding walk
  parts d i hs v w e = rw e refl

  -- Relinking succeeds and leaves a node with the leaves before the last level, below it, and past it.
  pub unlink-walk :
      (d : ℕ) (ref : NodeRef (Node L A X)) (levels : RefLevels L A X)
      → IsAnnotation ann
      → IsLinked ref levels
      → (n : Node L A X) × (unlink ann ref levels ≡ ok n)
        × (walk load (d + length levels) (children n) ≡ (
            before (suc d) levels
            then (walk load d (children (deref ref)) then past (suc d) levels)))
  unfolding unlink relinked
  unlink-walk d ref [] law l =
      (deref ref, refl, rw add-zero (sym (then-ended (walk load d (children (deref ref))))))
  unlink-walk d (cached c) (last ∷ up) law (h, g, e, l) =
      let (n, u, w) = unlink-walk (suc d) last.node up law l in
      let here : walk load (suc d) (children (deref last.node)) ≡ (
          walk load (suc d) (take_handles last.ofs (children (deref last.node)))
          then walk load d (children c)
          then walk load (suc d) (drop_handles (last.ofs + 1) (children (deref last.node)))) =
        walk-under load (suc d) _
        ∙ walk_all-split load (walk load d) last.ofs (children (deref last.node)) h g
        ∙ parts d last.ofs (children (deref last.node)) _ _ (walk-inner load (walk load d) h c e) in
      (
        n,
        u,
        ap (λ i. walk load i (children n)) (omega arith)
            ∙ w
            ∙ ap (λ x. before (suc (suc d)) up then (x then past (suc (suc d)) up)) here
            ∙ regroup (before (suc (suc d)) up) _ (walk load d (children c))
                (walk load (suc d) (drop_handles (last.ofs + 1) (children (deref last.node))))
                (past (suc (suc d)) up),
      )
  unlink-walk d (owned c) (last ∷ up) law (p, (a, e), l) =
      let last' = with_child last (node c a none) in
      let (n, u, w) =
        unlink-walk (suc d) last'.node up law
          (with_child-IsLinked last (node c a none) a up law p refl l) in
      (
        n,
        unlink-owned c last last' up (relinked-owned c a last e p) ∙ u,
        ap (λ i. walk load i (children n)) (omega arith)
            ∙ w
            ∙ ap (λ x. before (suc (suc d)) up then (x then past (suc (suc d)) up))
                (walk-under load (suc d) _
                  ∙ with_child-walk (walk load d) last (node c a none) p
                  ∙ parts d last.ofs (children (deref last.node)) _ _ refl)
            ∙ regroup (before (suc (suc d)) up) _ (walk load d (children c))
                (walk load (suc d) (drop_handles (last.ofs + 1) (children (deref last.node))))
                (past (suc (suc d)) up),
      )
  unlink-walk d (mutable c) (last ∷ up) law l = absurd l
