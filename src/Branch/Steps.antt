-- ===== src/Branch/Steps.antt =====
-- A write at the leaf that a branch is at: the leaves before it are done, those past it are left.
use mathlib.Core.List.{append_cancel_right}
use kelvin.Prelude.{ℕ, suc, ◌+◌, some, List, [], ◌∷◌, ◌++◌, ◌≡◌, refl, ap, ◌∙◌, sym, false, length}
use kelvin.Prelude.Outcome.{Outcome, ok, failed, panicked, exhausted}
use kelvin.Annotation.{Annotation}
use kelvin.Annotation.Laws.{IsAnnotation}
use kelvin.Handle.{Digest, leaf, Node, children, get_handle, handle_annotation}
use kelvin.Nth.{first}
use kelvin.Iter.Walk.{
  Walk, visit, ended, ◌then◌, walk_of, walk_of-append, walk_of_inj, walk, walk_all, under,
  walk-under, take_handles, drop_handles, walk_all-split, walk_past,
}
use kelvin.Branch.{RefLevel, deref}
use kelvin.Branch.Unlinks.{
  RefLevels, plains, with_child, with_child-IsLinked, with_child-walk, unlink-walk, before, past,
  regroup, get_handle-lt,
}
use kelvin.Branch.Finds.{written-IsBorrowed}
use kelvin.Branch.Turns.{IsOpen}

module _ {L : Type 0} where
  not_ended : (zs : List L) (o : Outcome (Unit {0})) → ended o ≡ walk_of zs → o ≡ ok tt
  not_ended [] o e = cc
  not_ended (z ∷ zs) o e = absurd (cc)

  -- The first part of a walk over a list.
  cut :
      (u : Walk L) (ys zs : List L)
      → (u then walk_of ys) ≡ walk_of zs
      → (xs : List L) × (u ≡ walk_of xs) × (xs ++ ys ≡ zs)
  cut (visit a u) ys [] e = absurd (cc)
  cut (visit a u) ys (z ∷ zs) e =
      let (xs, p, q) = cut u ys zs (cc e) in (a ∷ xs, ap (visit a) p, cc (e, q))
  cut (ended (ok x)) ys zs e = ([], refl, walk_of_inj ys zs e)
  cut (ended (failed x)) ys zs e = absurd (cc (not_ended zs (failed x) e))
  cut (ended panicked) ys zs e = absurd (cc (not_ended zs panicked e))
  cut (ended exhausted) ys zs e = absurd (cc (not_ended zs exhausted e))

  before_rest :
      (u : Walk L) (done ys : List L)
      → (u then walk_of ys) ≡ walk_of (done ++ ys)
      → u ≡ walk_of done
  before_rest u done ys e =
      let (xs, p, q) = cut u ys (done ++ ys) e in p ∙ ap walk_of (append_cancel_right xs done ys q)

module _ {L A X : Type 0} (ann : Annotation L A) (load : Digest → Outcome (Node L A X))
    (law : IsAnnotation ann) (f : L → L) where
  -- The leaves before the handle that a level is at.
  abbrev prefix : ℕ → RefLevel (Node L A X) → RefLevels L A X → Walk L
  prefix d level up =
      before ann load (suc d) up
      then walk_all load (under load d) (take_handles level.ofs (children (deref level.node)))

  past-level :
      (d : ℕ) (level : RefLevel (Node L A X)) (up : RefLevels L A X)
      → (walk_all load (under load d) (drop_handles (level.ofs + 1) (children (deref level.node)))
          then past ann load (suc d) up)
        ≡ walk_past load d (plains (level ∷ up))
  past-level d level up =
      ap (λ w. w then past ann load (suc d) up)
        (sym (walk-under load d (drop_handles (level.ofs + 1) (children (deref level.node)))))

  -- The whole walk, by the leaf that a level is at, and with another leaf in its place.
  whole-at :
      (d : ℕ) (level : RefLevel (Node L A X)) (up : RefLevels L A X) (l : L) (m w : Walk L)
      → m ≡ (
          walk_all load (under load d) (take_handles level.ofs (children (deref level.node)))
          then visit l (ended (ok tt))
          then walk_all load
              (under load d)
              (drop_handles (level.ofs + 1) (children (deref level.node))))
      → w ≡ (before ann load (suc d) up then (m then past ann load (suc d) up))
      → w ≡ (prefix d level up then visit l (walk_past load d (plains (level ∷ up))))
  whole-at d level up l m w here e =
      e
      ∙ ap (λ x. before ann load (suc d) up then (x then past ann load (suc d) up)) here
      ∙ regroup ann load (before ann load (suc d) up) _ (visit l (ended (ok tt)))
          (walk_all load (under load d)
            (drop_handles (level.ofs + 1) (children (deref level.node))))
          (past ann load (suc d) up)
      ∙ ap (λ x. prefix d level up then visit l x) (past-level d level up)

  -- A write at the leaf that a branch is at.
  pub step :
      (root : Node L A X) (d : ℕ) (level : RefLevel (Node L A X)) (up : RefLevels L A X) (l : L)
      (ls done : List L)
      → IsOpen ann load law root (level ∷ up)
      → get_handle (children (deref level.node)) level.ofs ≡ some (leaf l)
      → walk_past load d (plains (level ∷ up)) ≡ walk_of ls
      → walk load (d + length up) (children root) ≡ walk_of (done ++ l ∷ ls)
      → (n : Node L A X) × IsOpen ann load law n (with_child ann load level (leaf (f l)) ∷ up)
        × (walk load (d + length up) (children n) ≡ walk_of (done ++ f l ∷ ls))
  unfolding handle_annotation
  step root d level up l ls done b here v whole =
      let hs = children (deref level.node) in
      let inside = get_handle-lt ann load hs level.ofs (leaf l) here in
      let (m, same, w) = unlink-walk ann load d level.node up law b.0 in
      let e : m ≡ root = inj (sym same ∙ b.1) in
      let split =
        whole-at d level up l (walk load d hs) (walk load (d + length up) (children m))
          (walk-under load d hs ∙ walk_all-split load (under load d) level.ofs hs (leaf l) here)
          w in
      let u : prefix d level up ≡ walk_of done = before_rest (prefix d level up) done (l ∷ ls) (
        ap (λ x. prefix d level up then visit l x) (sym v)
        ∙ sym split
        ∙ ap (λ c. walk load (d + length up) (children c)) e
        ∙ whole) in
      let linked =
        with_child-IsLinked ann load level (leaf (f l)) (ann.of_leaf (f l)) up law inside refl
          b.0 in
      let (n, made, w') =
        unlink-walk ann load d (with_child ann load level (leaf (f l))).node up law linked in
      let split' =
        whole-at d level up (f l)
          (walk load d (children (deref (with_child ann load level (leaf (f l))).node)))
          (walk load (d + length up) (children n))
          (walk-under load d _ ∙ with_child-walk ann load (under load d) level (leaf (f l)) inside)
          w' in
      (
        n,
        (linked, made, written-IsBorrowed ann load first law false n level.node _ tt, b.3, tt),
        split'
            ∙ ap (λ x. x then visit (f l) (walk_past load d (plains (level ∷ up)))) u
            ∙ ap (λ x. walk_of done then visit (f l) x) v
            ∙ sym (walk_of-append done (f l ∷ ls)),
      )
    where
      inj : {a b : Node L A X} → ok a ≡ ok b → a ≡ b
      inj e = cc
