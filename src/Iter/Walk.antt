-- ===== src/Iter/Walk.antt =====
-- The leaves below a handle in their order, up to the first error of the store: the reference for the
-- iterators of src/iter.rs.
use native.Mathlib.Nat.{zero-add, suc-add}
use kelvin.Prelude.{
  ℕ, zero, suc, ◌+◌, ◌≤◌, List, [], ◌∷◌, ◌++◌, ◌≡◌, refl, ap, sym, ◌<◌, some, arith,
}
use kelvin.Prelude.Outcome.{Outcome, ok, failed, panicked, exhausted}
use kelvin.Handle.{
  Digest, Handle, empty, leaf, node, persisted, Node, Handles, nil, cons, children, get_handle,
  count_handles, inner, node_ref, set_handle,
}
use kelvin.Search.{Level}

some_inj : {B : Type 0} {a b : B} → some a ≡ some b → a ≡ b
some_inj e = cc

-- Leaves, and how their sequence ends: with a result, or with what stopped it.
pub data Walk (L : Type 0) : Type 0 where
  visit : L → Walk L → Walk L
  ended : Outcome (Unit {0}) → Walk L

module _ {L : Type 0} where
  -- One walk after another, unless the first was stopped.
  infixr 20 ◌then◌
  abbrev pub ◌then◌ : Walk L → Walk L → Walk L
  visit l w then w' = visit l (w then w')
  ended (ok x) then w' = w'
  ended (failed e) then w' = ended (failed e)
  ended panicked then w' = ended panicked
  ended exhausted then w' = ended exhausted

  pub then_assoc : (u v w : Walk L) → ((u then v) then w) ≡ (u then (v then w))
  then_assoc (visit l u) v w = ap (visit l) (then_assoc u v w)
  then_assoc (ended (ok x)) v w = refl
  then_assoc (ended (failed e)) v w = refl
  then_assoc (ended panicked) v w = refl
  then_assoc (ended exhausted) v w = refl

  pub then-ended : (u : Walk L) → (u then ended (ok tt)) ≡ u
  then-ended (visit l u) = ap (visit l) (then-ended u)
  then-ended (ended (ok tt)) = refl
  then-ended (ended (failed e)) = refl
  then-ended (ended panicked) = refl
  then-ended (ended exhausted) = refl

  -- A walk over a list of leaves.
  abbrev pub walk_of : List L → Walk L
  walk_of [] = ended (ok tt)
  walk_of (l ∷ ls) = visit l (walk_of ls)

module _ {L A X : Type 0} (load : Digest → Outcome (Node L A X)) where
  -- Below a node that the store gave, with the rounds that a search takes for it.
  abbrev pub restored_walk : (Handles L A X → Walk L) → Outcome (Node L A X) → Walk L
  restored_walk below (ok n) = below (children n)
  restored_walk below (failed e) = ended (failed e)
  restored_walk below panicked = ended panicked
  restored_walk below exhausted = ended exhausted

  abbrev pub restored_rounds : (Handles L A X → ℕ) → Outcome (Node L A X) → ℕ
  restored_rounds below (ok n) = 2 + below (children n)
  restored_rounds below other = 0

  abbrev pub walk_handle : (Handles L A X → Walk L) → Handle L A X → Walk L
  walk_handle below empty = ended (ok tt)
  walk_handle below (leaf l) = visit l (ended (ok tt))
  walk_handle below (node n a c) = below (children n)
  walk_handle below (persisted d a) = restored_walk below (load d)

  abbrev pub rounds_handle : (Handles L A X → ℕ) → Handle L A X → ℕ
  rounds_handle below empty = 0
  rounds_handle below (leaf l) = 0
  rounds_handle below (node n a c) = 2 + below (children n)
  rounds_handle below (persisted d a) = restored_rounds below (load d)

  -- Handles with at most `depth` levels below them, one after the other.
  abbrev pub walk_all : (Handles L A X → Walk L) → Handles L A X → Walk L
  walk_all below nil = ended (ok tt)
  walk_all below (cons h hs) = walk_handle below h then walk_all below hs

  abbrev pub rounds_all : (Handles L A X → ℕ) → Handles L A X → ℕ
  rounds_all below nil = 0
  rounds_all below (cons h hs) = rounds_handle below h + rounds_all below hs

  unfoldable pub walk : ℕ → Handles L A X → Walk L
  walk zero hs = walk_all (λ gs. ended exhausted) hs
  walk (suc depth) hs = walk_all (walk depth) hs

  -- The rounds of a search below handles: a level is entered and left.
  unfoldable pub rounds : ℕ → Handles L A X → ℕ
  rounds zero hs = rounds_all (λ gs. 0) hs
  rounds (suc depth) hs = rounds_all (rounds depth) hs

  -- Below the handles of a node at depth `d`.
  abbrev pub under : ℕ → Handles L A X → Walk L
  under zero = λ gs. ended exhausted
  under (suc d) = walk d

  abbrev pub rounds_under : ℕ → Handles L A X → ℕ
  rounds_under zero = λ gs. 0
  rounds_under (suc d) = rounds d

  pub walk-under : (d : ℕ) (hs : Handles L A X) → walk d hs ≡ walk_all (under d) hs
  unfolding walk
  walk-under zero hs = refl
  walk-under (suc d) hs = refl

  pub rounds-under : (d : ℕ) (hs : Handles L A X) → rounds d hs ≡ rounds_all (rounds_under d) hs
  unfolding rounds
  rounds-under zero hs = refl
  rounds-under (suc d) hs = refl

module _ {L A X : Type 0} where
  -- The handles from a position on.
  abbrev pub drop_handles : ℕ → Handles L A X → Handles L A X
  drop_handles zero hs = hs
  drop_handles (suc i) nil = nil
  drop_handles (suc i) (cons h hs) = drop_handles i hs

  pub drop-drop :
      (i j : ℕ) (hs : Handles L A X) → drop_handles j (drop_handles i hs) ≡ drop_handles (i + j) hs
  drop-drop zero j hs = rw zero-add refl
  drop-drop (suc i) zero nil = rw suc-add refl
  drop-drop (suc i) (suc j) nil = rw suc-add refl
  drop-drop (suc i) j (cons h hs) = rw suc-add (drop-drop i j hs)

  pub get-drop :
      (i j : ℕ) (hs : Handles L A X) → get_handle (drop_handles i hs) j ≡ get_handle hs (i + j)
  get-drop zero j hs = rw zero-add refl
  get-drop (suc i) j nil = refl
  get-drop (suc i) j (cons h hs) = rw suc-add (get-drop i j hs)

  pub drop-past : (i : ℕ) (hs : Handles L A X) → count_handles hs ≤ i → drop_handles i hs ≡ nil
  drop-past zero nil p = refl
  drop-past zero (cons h hs) p = absurd (omega (arith, p))
  drop-past (suc i) nil p = refl
  drop-past (suc i) (cons h hs) p = drop-past i hs (omega (arith, p))

module _ {L A X : Type 0} where
  -- The handles before a position.
  abbrev pub take_handles : ℕ → Handles L A X → Handles L A X
  take_handles zero hs = nil
  take_handles (suc i) nil = nil
  take_handles (suc i) (cons h hs) = cons h (take_handles i hs)

module _ {L A X : Type 0} (load : Digest → Outcome (Node L A X))
    (below : Handles L A X → Walk L) where
  -- The walk over handles, at one of them, and with another in its place.
  pub walk_all-split :
      (i : ℕ) (hs : Handles L A X) (h : Handle L A X)
      → get_handle hs i ≡ some h
      → walk_all load below hs ≡ (
          walk_all load below (take_handles i hs)
          then walk_handle load below h
          then walk_all load below (drop_handles (i + 1) hs))
  walk_all-split i nil h g = absurd (cc)
  walk_all-split zero (cons g hs) h e =
      ap (λ x. walk_handle load below x then walk_all load below hs) (some_inj e)
  walk_all-split (suc i) (cons g hs) h e =
      rw (suc-add, walk_all-split i hs h e) (sym (then_assoc (walk_handle load below g) _ _))

  pub walk_all-set :
      (i : ℕ) (hs : Handles L A X) (h : Handle L A X)
      → i < count_handles hs
      → walk_all load below (set_handle hs i h) ≡ (
          walk_all load below (take_handles i hs)
          then walk_handle load below h
          then walk_all load below (drop_handles (i + 1) hs))
  walk_all-set i nil h p = absurd (omega (arith, p))
  walk_all-set zero (cons g hs) h p = refl
  walk_all-set (suc i) (cons g hs) h p =
      rw (suc-add, walk_all-set i hs h (omega (arith, p)))
        (sym (then_assoc (walk_handle load below g) _ _))

-- The leaves that are left to a stack of levels, the last of which has depth `d` below it.
module _ {L A X : Type 0} (load : Digest → Outcome (Node L A X)) where
  -- From behind the handle that each level is at.
  abbrev pub walk_past : ℕ → List (Level (Node L A X)) → Walk L
  walk_past d [] = ended (ok tt)
  walk_past d (level ∷ up) =
      walk load d (drop_handles (level.ofs + 1) (children level.at)) then walk_past (suc d) up

  abbrev pub walk_stack : ℕ → List (Level (Node L A X)) → Walk L
  walk_stack d [] = ended (ok tt)
  walk_stack d (level ∷ up) =
      walk load d (drop_handles level.ofs (children level.at)) then walk_past (suc d) up

  abbrev pub rounds_past : ℕ → List (Level (Node L A X)) → ℕ
  rounds_past d [] = 0
  rounds_past d (level ∷ up) =
      suc
        (rounds load d (drop_handles (level.ofs + 1) (children level.at)) + rounds_past (suc d) up)

  abbrev pub rounds_stack : ℕ → List (Level (Node L A X)) → ℕ
  rounds_stack d [] = 0
  rounds_stack d (level ∷ up) =
      suc (rounds load d (drop_handles level.ofs (children level.at)) + rounds_past (suc d) up)

pub walk_of_inj : {L : Type 0} (xs ys : List L) → walk_of xs ≡ walk_of ys → xs ≡ ys
walk_of_inj [] [] e = refl
walk_of_inj [] (y ∷ ys) e = absurd (cc)
walk_of_inj (x ∷ xs) [] e = absurd (cc)
walk_of_inj (x ∷ xs) (y ∷ ys) e = let rest = walk_of_inj xs ys (cc e) in cc (e, rest)

pub walk_of-append :
    {L : Type 0} (xs ys : List L) → walk_of (xs ++ ys) ≡ (walk_of xs then walk_of ys)
walk_of-append [] ys = refl
walk_of-append (x ∷ xs) ys = ap (visit x) (walk_of-append xs ys)

module _ {L A X : Type 0} (load : Digest → Outcome (Node L A X)) where
  -- A handle that shows a node.
  pub walk-inner :
      (below : Handles L A X → Walk L) (h : Handle L A X) (c : Node L A X)
      → inner load h ≡ ok (node_ref c)
      → walk_handle load below h ≡ below (children c)
  unfolding inner
  walk-inner below empty c e = absurd (cc)
  walk-inner below (leaf l) c e = absurd (cc)
  walk-inner below (node n a x) c e = ground arith
  walk-inner below (persisted d a) c e = ground arith

  pub rounds-inner :
      (below : Handles L A X → ℕ) (h : Handle L A X) (c : Node L A X)
      → inner load h ≡ ok (node_ref c)
      → rounds_handle load below h ≡ 2 + below (children c)
  unfolding inner
  rounds-inner below empty c e = absurd (cc)
  rounds-inner below (leaf l) c e = absurd (cc)
  rounds-inner below (node n a x) c e = ground arith
  rounds-inner below (persisted d a) c e = ground arith
