-- ===== src/Branch/Maps.antt =====
-- `iter_mut`: every leaf is written once, and nothing else changes.
use kelvin.Prelude.{
  ℕ, zero, suc, ◌<◌, ◌≤◌, none, some, Option, List, [], ◌∷◌, ◌≡◌, refl, ap, ◌∙◌, sym, Bool, true,
  false, arith, length, map,
}
use kelvin.Prelude.Outcome.{Outcome, ok, failed, panicked, exhausted}
use kelvin.Annotation.{Annotation}
use kelvin.Annotation.Laws.{IsAnnotation}
use kelvin.Handle.{Digest, Node, children}
use kelvin.Nth.{first}
use kelvin.Iter.Walk.{walk_of, walk, rounds, then-ended}
use kelvin.Branch.{BranchMut, branch_leaf, search_from, mutable, root_of, opened, branch_mut_new}
use kelvin.Branch.Iter.{branch, finished, started, next_mut, for_each, update_all, iter_mut}
use kelvin.Branch.Unlinks.{RefLevels}
use kelvin.Branch.Finds.{IsKept, search_from-IsKept, new-IsBranch}
use kelvin.Branch.Turns.{IsHit, search_from-IsHit}
use kelvin.Branch.Updates.{
  Search, Leaves, from_search, Iter, loop-Goes, for_each-end, after_hit, resumed-by,
}

module _ {L A X : Type 0} (ann : Annotation L A) (load : Digest → Outcome (Node L A X))
    (law : IsAnnotation ann) (f : L → L) (fuel : ℕ) where
  opened-by :
      (n : Node L A X) (levels : RefLevels L A X) (exact : Bool) (s : Unit {0}) (o : Option L)
      → branch_leaf (record { levels = levels; exact = exact }) ≡ o
      → started ann load first fuel (opened ann load first n (levels, ok (exact, s)))
        ≡ elim o as (λ x. Iter ann load law f fuel × Outcome (Option L)) [
          | some l ↦
              (branch (root_of n levels) (record { levels = levels; exact = exact }) s, ok (some l))
          | none ↦ (finished (root_of n levels), ok none)
        ]
  unfolding opened started
  opened-by n levels exact s o e =
      ap
        (λ (x : Option L). started ann load first fuel (
          root_of n levels,
          ok (
            elim x as (λ x. Option (BranchMut (Node L A X) × L)) [
              | none ↦ none
              | some l ↦ some (record { levels = levels; exact = exact }, l)
            ],
            s,
          ),
        ))
        e
      ∙ by_leaf o
    where
      by_leaf :
          (o : Option L)
          → started ann load first fuel (
            root_of n levels,
            ok (
              elim o as (λ x. Option (BranchMut (Node L A X) × L)) [
                | none ↦ none
                | some l ↦ some (record { levels = levels; exact = exact }, l)
              ],
              s,
            ),
          )
            ≡ elim o as (λ x. Iter ann load law f fuel × Outcome (Option L)) [
              | some l ↦ (
                branch (root_of n levels) (record { levels = levels; exact = exact }) s,
                ok (some l),
              )
              | none ↦ (finished (root_of n levels), ok none)
            ]
      by_leaf none = refl
      by_leaf (some l) = refl

  -- From the first search on, as from any other.
  abbrev from_start : ℕ → Node L A X → Search ann load law f fuel → Outcome (Node L A X)
  from_start count n r =
      for_each ann load first fuel (update_all ann load first fuel count f) f
        (started ann load first fuel (opened ann load first n r))

  start-hit :
      (count : ℕ) (n : Node L A X) (levels : RefLevels L A X) (exact : Bool) (s : Unit {0}) (l : L)
      → branch_leaf (record { levels = levels; exact = exact }) ≡ some l
      → from_start count n (levels, ok (exact, s))
        ≡ from_search ann load law f fuel count (root_of n levels) (levels, ok (exact, s))
  start-hit count n levels exact s l e =
      ap (for_each ann load first fuel (update_all ann load first fuel count f) f) (
        opened-by n levels exact s (some l) e
        ∙ sym (resumed-by ann load law f fuel (root_of n levels) levels exact s (some l) e))

  start-miss :
      (count : ℕ) (n : Node L A X) (levels : RefLevels L A X) (exact : Bool) (s : Unit {0})
      → branch_leaf (record { levels = levels; exact = exact }) ≡ none
      → root_of n levels ≡ n
      → from_start count n (levels, ok (exact, s)) ≡ ok n
  start-miss count n levels exact s e same =
      ap (for_each ann load first fuel (update_all ann load first fuel count f) f)
        (opened-by n levels exact s none e)
      ∙ for_each-end ann load law f fuel count (root_of n levels)
      ∙ ap (λ c. ok c) same

  -- `update_all` on a new iterator.
  start :
      (count : ℕ) (n : Node L A X)
      → update_all ann load first fuel (suc count) f (iter_mut n)
        ≡ from_start count n
            (search_from ann load first fuel (record { ofs = 0; node = mutable n } ∷ []) tt)
  unfolding update_all next_mut iter_mut branch_mut_new
  start count n = refl

  by_start :
      (rest : List L) (count depth : ℕ) (n : Node L A X) (r : Search ann load law f fuel)
      → IsHit ann load law n rest fuel (suc depth) r
      → IsKept ann load first law true n r
      → length rest ≤ count
      → walk load depth (children n) ≡ walk_of rest
      → Leaves ann load law f fuel depth [] rest (from_start count n r)
  by_start [] count depth n ([], ok (exact, s)) (b, miss) k c w = absurd b
  by_start [] count depth n (level ∷ up, ok (exact, s)) (b, miss) k c w =
      (n, start-miss count n (level ∷ up) exact s miss k.4, w)
  by_start [] count depth n (levels, failed x) h k c w = absurd h
  by_start [] count depth n (levels, panicked) h k c w = absurd h
  by_start [] count depth n (levels, exhausted) h k c w = absurd h
  by_start (l ∷ ls) zero depth n r h k c w = absurd (omega (arith, c))
  by_start (l ∷ ls) (suc count) depth n (levels, ok (exact, s)) h k c w =
      let hit : branch_leaf (record { levels = levels; exact = exact }) ≡ some l = h.1 in
      let (n', e, all) =
        after_hit ann load law f fuel l ls count depth (root_of n levels) n []
          (levels, ok (exact, s)) h w
          (loop-Goes ann load law f fuel ls count depth (omega (arith, c))) in
      (n', start-hit (suc count) n levels exact s l hit ∙ e, all)
  by_start (l ∷ ls) (suc count) depth n (levels, failed x) h k c w = absurd h
  by_start (l ∷ ls) (suc count) depth n (levels, panicked) h k c w = absurd h
  by_start (l ∷ ls) (suc count) depth n (levels, exhausted) h k c w = absurd h

  -- Over an annotation that a node with an annotated child has, on a tree of no more levels than `depth`
  -- whose nodes the store restores, with a round of fuel for every node entered or left: a loop over the
  -- mutable iterator that writes `f l` over every leaf `l` ends, with no error, and once the iterator is
  -- dropped the leaves of the tree are those it had, with `f` applied to each, in their order.
  pub update_all-map :
      (depth count : ℕ) (n : Node L A X) (ls : List L)
      → walk load depth (children n) ≡ walk_of ls
      → rounds load depth (children n) < fuel
      → length ls < count
      → (n' : Node L A X) × (update_all ann load first fuel count f (iter_mut n) ≡ ok n')
        × (walk load depth (children n') ≡ walk_of (map f ls))
  update_all-map depth zero n ls w p c = absurd (omega (arith, c))
  update_all-map depth (suc count) n ls w p c =
      let levels : RefLevels L A X = record { ofs = 0; node = mutable n } ∷ [] in
      let (n', e, all) =
        by_start ls count depth n (search_from ann load first fuel levels tt)
          (search_from-IsHit ann load law n fuel depth fuel (suc depth) levels ls
            (new-IsBranch ann load first law false n tt)
            (then-ended (walk load depth (children n)) ∙ w) (omega arith) (omega (arith, p))
            (omega (arith, p)) (omega arith))
          (search_from-IsKept ann load first law true n fuel levels tt
            (new-IsBranch ann load first law true n refl))
          (omega (arith, c)) w in
      (n', start count n ∙ e, all)
