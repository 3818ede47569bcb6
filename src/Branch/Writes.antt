-- ===== src/Branch/Writes.antt =====
-- A leaf written through a branch: what is left once the branch is dropped.
use kelvin.Prelude.{
  ℕ, suc, ◌+◌, none, some, Option, [], ◌∷◌, ◌≡◌, refl, ap, ◌∙◌, sym, subst, Bool, true, false,
  length, arith,
}
use kelvin.Prelude.Outcome.{Outcome, ok, failed, panicked, exhausted}
use kelvin.Annotation.{Annotation}
use kelvin.Annotation.Laws.{IsAnnotation}
use kelvin.Handle.{
  Digest, Handle, empty, leaf, node, persisted, Node, children, get_handle, handle_annotation,
  leaf_of,
}
use kelvin.Search.{Method, RawBranch, level_leaf}
use kelvin.Iter.{with_leaf, branch_open}
use kelvin.Iter.Walk.{
  Walk, visit, ended, ◌then◌, walk, walk_all, walk-under, take_handles, drop_handles,
  walk_all-split,
}
use kelvin.Branch.{
  deref, RefLevel, plain, level_leaf_mut, write_leaf, drop_branch, unlink, through, settled,
  modified, root_of, modify, opened, branch_mut_new, deref_mut,
}
use kelvin.Branch.Unlinks.{
  RefLevels, plains, IsLinked, with_child, with_child-IsLinked, with_child-walk, unlink-walk,
  before, past, regroup, get_handle-lt,
}
use kelvin.Branch.Finds.{IsBranch, IsKept, search_from-IsKept, new-IsBranch}
use kelvin.Branch.Plain.{plain_search, search_from-plain}

module _ {L A X : Type 0} (ann : Annotation L A) (load : Digest → Outcome (Node L A X))
    (law : IsAnnotation ann) (f : L → L) where
  pub level_leaf-handle :
      (level : RefLevel (Node L A X)) (l : L)
      → level_leaf (plain level) ≡ some l
      → get_handle (children (deref level.node)) level.ofs ≡ some (leaf l)
  unfolding level_leaf leaf_of
  level_leaf-handle level l e = by_handle (get_handle (children (deref level.node)) level.ofs) e
    where
      by_handle :
          (o : Option (Handle L A X))
          → elim o as (λ x. Option L) [ none ↦ none | some h ↦ leaf_of h ] ≡ some l
          → o ≡ some (leaf l)
      by_handle none e = absurd (cc)
      by_handle (some empty) e = absurd (cc)
      by_handle (some (leaf l')) e = cc
      by_handle (some (node n a c)) e = absurd (cc)
      by_handle (some (persisted d a)) e = absurd (cc)

  pub level_leaf_mut-leaf :
      (level : RefLevel (Node L A X)) (l : L)
      → get_handle (children (deref level.node)) level.ofs ≡ some (leaf l)
      → level_leaf_mut f level ≡ some (with_child ann load level (leaf (f l)))
  unfolding level_leaf_mut write_leaf
  level_leaf_mut-leaf level l e = rw (level_leaf_mut, e) refl

  -- One leaf is `f l` in place of `l`, at any depth past that of the branch.
  abbrev pub IsWritten : Node L A X → Node L A X → L → ℕ → Type 0
  IsWritten n n' l depth =
      (u : ℕ → Walk L) × (v : ℕ → Walk L) × ((d : ℕ)
        → walk load (d + depth) (children n) ≡ (u d then visit l (v d)))
      × ((d : ℕ) → walk load (d + depth) (children n') ≡ (u d then visit (f l) (v d)))

  write-lem :
      (n : Node L A X) (l : L) (level : RefLevel (Node L A X)) (up : RefLevels L A X)
      → IsLinked ann load level.node up
      → unlink ann level.node up ≡ ok n
      → get_handle (children (deref level.node)) level.ofs ≡ some (leaf l)
      → (n' : Node L A X) × (unlink ann (with_child ann load level (leaf (f l))).node up ≡ ok n')
        × IsWritten n n' l (length (level ∷ up))
  unfolding handle_annotation
  write-lem n l level up linked whole here =
      let hs = children (deref level.node) in
      let i = level.ofs in
      let inside = get_handle-lt ann load hs i (leaf l) here in
      let linked' =
        with_child-IsLinked ann load level (leaf (f l)) (ann.of_leaf (f l)) up law inside refl
          linked in
      let (n', whole', w') =
        unlink-walk ann load 0 (with_child ann load level (leaf (f l))).node up law linked' in
      (
        n',
        whole',
        (
          λ d.
              before ann load (suc (suc d)) up then walk_all load (walk load d) (take_handles i hs),
          λ d.
              walk_all load (walk load d) (drop_handles (i + 1) hs)
              then past ann load (suc (suc d)) up,
          λ d.
              let (m, same, w) = unlink-walk ann load (suc d) level.node up law linked in
              let e : m ≡ n = inj (sym same ∙ whole) in
              ap (λ j. walk load j (children n)) (omega arith)
              ∙ ap (λ c. walk load (suc d + length up) (children c)) (sym e)
              ∙ w
              ∙ ap
                  (λ x.
                    before ann load (suc (suc d)) up then (x then past ann load (suc (suc d)) up))
                  (walk-under load (suc d) hs
                    ∙ walk_all-split load (walk load d) i hs (leaf l) here)
              ∙ regroup ann load (before ann load (suc (suc d)) up) _ (visit l (ended (ok tt)))
                  (walk_all load (walk load d) (drop_handles (i + 1) hs))
                  (past ann load (suc (suc d)) up),
          λ d.
              let (m, same, w) =
                unlink-walk ann load (suc d) (with_child ann load level (leaf (f l))).node up law
                  linked' in
              let e : m ≡ n' = inj (sym same ∙ whole') in
              ap (λ j. walk load j (children n')) (omega arith)
              ∙ ap (λ c. walk load (suc d + length up) (children c)) (sym e)
              ∙ w
              ∙ ap
                  (λ x.
                    before ann load (suc (suc d)) up then (x then past ann load (suc (suc d)) up))
                  (walk-under load (suc d) _
                    ∙ with_child-walk ann load (walk load d) level (leaf (f l)) inside)
              ∙ regroup ann load (before ann load (suc (suc d)) up) _ (visit (f l) (ended (ok tt)))
                  (walk_all load (walk load d) (drop_handles (i + 1) hs))
                  (past ann load (suc (suc d)) up),
        ),
      )
    where
      inj : {a b : Node L A X} → ok a ≡ ok b → a ≡ b
      inj e = cc

module _ {L A X S : Type 0} (ann : Annotation L A) (load : Digest → Outcome (Node L A X))
    (m : Method (Node L A X) S) (law : IsAnnotation ann) (f : L → L) (n : Node L A X) where
  -- What is left of a write, by what a search of an immutable branch comes to.
  abbrev pub IsModified :
      Node L A X × Outcome (Option L) → Outcome (Option (RawBranch (Node L A X) × L) × S) → Type 0
  IsModified (n', o) (ok (some (b, l), s)) =
      (o ≡ ok (some l)) × IsWritten ann load law f n n' l (length b.levels)
  IsModified r (ok (none, s)) = r ≡ (n, ok none)
  IsModified r (failed e) = r ≡ (n, failed e)
  IsModified r panicked = r ≡ (n, panicked)
  IsModified r exhausted = r ≡ (n, exhausted)

  abbrev FromSearch : ℕ → RefLevels L A X × Outcome (Bool × S) → Type 0
  FromSearch fuel o =
      IsModified (modified ann load m f (opened ann load m n o))
        (with_leaf load m fuel (plain_search ann load m law n o))

  length-plains : (up : RefLevels L A X) → length (plains up) ≡ length up
  length-plains [] = refl
  length-plains (level ∷ up) = ap suc (length-plains up)

  abbrev deref_root : RefLevel (Node L A X) → RefLevels L A X → Node L A X
  deref_root level up = root_of (deref level.node) up

  through-lem :
      (c n' : Node L A X) (l : L) (level : RefLevel (Node L A X)) (up : RefLevels L A X)
      → level_leaf_mut f level ≡ some (with_child ann load level (leaf (f l)))
      → unlink ann (with_child ann load level (leaf (f l))).node up ≡ ok n'
      → through ann load m f c (record { levels = level ∷ up; exact = true }) l ≡ ok (n', some l)
  unfolding through deref_mut drop_branch
  through-lem c n' l level up e whole = rw (e, whole) refl

  exact_branch :
      (fuel : ℕ) (level : RefLevel (Node L A X)) (up : RefLevels L A X) (s : S) (o : Option L)
      → IsBranch ann load m law true n (level ∷ up)
      → level_leaf (plain level) ≡ o
      → FromSearch fuel (level ∷ up, ok (true, s))
  unfolding with_leaf opened modified
  exact_branch fuel level up s none b e = rw e (ap (λ c. (c, ok none)) b.4)
  exact_branch fuel level up s (some l) b e =
      let here = level_leaf-handle ann load law f level l e in
      let (n', whole, w) = write-lem ann load law f n l level up b.0 b.1 here in
      rw e (
        subst
          (λ o.
            ((settled ann load m (deref_root level up) o).1 ≡ ok (some l))
            × IsWritten ann load law f n (settled ann load m (deref_root level up) o).0 l
                (suc (length (plains up))))
          (sym (
            through-lem (deref_root level up) n' l level up
              (level_leaf_mut-leaf ann load law f level l here) whole))
          (refl, subst (λ k. IsWritten ann load law f n n' l (suc k)) (sym (length-plains up)) w))

  by_search :
      (fuel : ℕ) (o : RefLevels L A X × Outcome (Bool × S))
      → IsKept ann load m law true n o
      → FromSearch fuel o
  unfolding with_leaf opened modified
  by_search fuel ([], ok (exact, s)) b = absurd b
  by_search fuel (level ∷ up, ok (false, s)) b = ap (λ c. (c, ok none)) b.4
  by_search fuel (level ∷ up, ok (true, s)) b = exact_branch fuel level up s _ b refl
  by_search fuel (levels, failed e) b = ap (λ c. (c, failed e)) b
  by_search fuel (levels, panicked) b = ap (λ c. (c, panicked)) b
  by_search fuel (levels, exhausted) b = ap (λ c. (c, exhausted)) b

  -- Over an annotation that a node with an annotated child has, for any search method: writing through a
  -- mutable path changes exactly the leaf that the same search finds by an immutable one, and returns it;
  -- where that finds none, fails, panics or runs out of fuel, so does this, and leaves the node as it was.
  pub modify-IsModified :
      (fuel : ℕ) (s : S) → IsModified (modify ann load m fuel f n s) (branch_open load m fuel n s)
  unfolding modify branch_mut_new branch_open
  modify-IsModified fuel s =
      let start = new-IsBranch ann load m law true n refl in
      subst (λ o. IsModified (modify ann load m fuel f n s) (with_leaf load m fuel o))
        (sym (search_from-plain ann load m law n fuel _ s start))
        (by_search fuel _ (search_from-IsKept ann load m law true n fuel _ s start))
