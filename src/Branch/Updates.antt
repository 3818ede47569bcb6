-- ===== src/Branch/Updates.antt =====
-- The mutable iterator: a loop that writes every leaf.
use kelvin.Prelude.{
  ℕ, zero, suc, ◌+◌, ◌<◌, ◌≤◌, none, some, Option, List, [], ◌∷◌, ◌++◌, ◌≡◌, refl, ap, ◌∙◌, sym,
  subst, Bool, true, arith, length, map, append_assoc,
}
use kelvin.Prelude.Outcome.{Outcome, ok, failed, panicked, exhausted, ◌>>=◌}
use kelvin.Annotation.{Annotation}
use kelvin.Annotation.Laws.{IsAnnotation}
use kelvin.Handle.{Digest, leaf, Node, children}
use kelvin.Nth.{first}
use kelvin.Iter.Walk.{◌then◌, walk_of, walk, rounds, walk_past, walk_stack, rounds_stack}
use kelvin.Branch.{
  RefLevel, BranchMut, unlink, level_leaf_mut, deref_mut, drop_branch, branch_leaf, advance,
  search_from,
}
use kelvin.Branch.Iter.{
  LeafIterMut, branch, finished, closed, resumed, next_mut, assign, drop_iter, for_each, update_all,
}
use kelvin.Branch.Unlinks.{RefLevels, plains, with_child}
use kelvin.Branch.Writes.{level_leaf-handle, level_leaf_mut-leaf}
use kelvin.Branch.Turns.{IsOpen, IsHit, search_from-IsHit, drop-with_child}
use kelvin.Branch.Steps.{step}

module _ {L A X : Type 0} (ann : Annotation L A) (load : Digest → Outcome (Node L A X))
    (law : IsAnnotation ann) (f : L → L) (fuel : ℕ) where
  abbrev pub Search : Type 0
  Search = RefLevels L A X × Outcome (Bool × Unit {0})

  -- What the loop leaves: the leaves done, and the rest with `f` applied to each.
  abbrev pub Leaves : ℕ → List L → List L → Outcome (Node L A X) → Type 0
  Leaves depth done rest o =
      (n : Node L A X) × (o ≡ ok n) × (walk load depth (children n) ≡ walk_of (done ++ map f rest))

  -- The loop from a search that `next` has made.
  abbrev pub from_search : ℕ → Node L A X → Search → Outcome (Node L A X)
  from_search count n₀ r =
      for_each ann load first fuel (update_all ann load first fuel count f) f
        (resumed ann load first fuel n₀ r)

  abbrev pub Iter : Type 0
  Iter = LeafIterMut (Node L A X) (Unit {0})

  pub resumed-by :
      (n₀ : Node L A X) (levels : RefLevels L A X) (exact : Bool) (s : Unit {0}) (o : Option L)
      → branch_leaf (record { levels = levels; exact = exact }) ≡ o
      → resumed ann load first fuel n₀ (levels, ok (exact, s))
        ≡ elim o as (λ x. Iter × Outcome (Option L)) [
          | some l ↦ (branch n₀ (record { levels = levels; exact = exact }) s, ok (some l))
          | none ↦ closed ann load first fuel n₀ levels (ok none)
        ]
  unfolding resumed
  resumed-by n₀ levels exact s o e =
      ap
        (λ (x : Option L). elim x as (λ x. Iter × Outcome (Option L)) [
          | some l ↦ (branch n₀ (record { levels = levels; exact = exact }) s, ok (some l))
          | none ↦ closed ann load first fuel n₀ levels (ok none)
        ])
        e

  closed-by :
      (n₀ root : Node L A X) (levels : RefLevels L A X) (r : Outcome (Option L))
      → drop_branch ann n₀ levels ≡ ok root
      → closed ann load first fuel n₀ levels r ≡ (finished root, r)
  unfolding closed
  closed-by n₀ root levels r e =
      ap
        (λ (x : Outcome (Node L A X)). elim x as (λ x. Iter × Outcome (Option L)) [
          | ok n' ↦ (finished n', r)
          | failed e ↦ (finished n₀, failed e)
          | panicked ↦ (finished n₀, panicked)
          | exhausted ↦ (finished n₀, exhausted)
        ])
        e

  dropped :
      (n₀ : Node L A X) (level : RefLevel (Node L A X)) (up : RefLevels L A X)
      → drop_branch ann n₀ (level ∷ up) ≡ unlink ann level.node up
  unfolding drop_branch
  dropped n₀ level up = refl

  pub for_each-end :
      (count : ℕ) (root : Node L A X)
      → for_each ann load first fuel
          (update_all ann load first fuel count f)
          f
          (finished root, ok none)
        ≡ ok root
  unfolding for_each drop_iter
  for_each-end count root = refl

  at_end :
      (count depth : ℕ) (n₀ root : Node L A X) (level : RefLevel (Node L A X))
      (up : RefLevels L A X) (exact : Bool) (s : Unit {0}) (done : List L)
      → unlink ann level.node up ≡ ok root
      → branch_leaf (record { levels = level ∷ up; exact = exact }) ≡ none
      → walk load depth (children root) ≡ walk_of (done ++ [])
      → Leaves depth done [] (from_search count n₀ (level ∷ up, ok (exact, s)))
  at_end count depth n₀ root level up exact s done whole miss w = (
    root,
    ap (for_each ann load first fuel (update_all ann load first fuel count f) f) (
          resumed-by n₀ (level ∷ up) exact s none miss
          ∙ closed-by n₀ root (level ∷ up) (ok none) (dropped n₀ level up ∙ whole))
        ∙ for_each-end count root,
    w,
  )

  pub assign-by :
      (count : ℕ) (n₀ : Node L A X) (level level' : RefLevel (Node L A X)) (up : RefLevels L A X)
      (s : Unit {0}) (l : L)
      → level_leaf_mut f level ≡ some level'
      → for_each ann load first fuel
          (update_all ann load first fuel (suc count) f)
          f
          (branch n₀ (record { levels = level ∷ up; exact = true }) s, ok (some l))
        ≡ from_search count n₀ (search_from ann load first fuel (advance (level' ∷ up)) s)
  unfolding for_each assign deref_mut update_all next_mut
  assign-by count n₀ level level' up s l e =
      ap
        (λ (x : Option (RefLevel (Node L A X))).
          (elim x as (λ x. Outcome (BranchMut (Node L A X))) [
            | none ↦ panicked
            | some level' ↦ ok (record { levels = level' ∷ up; exact = true })
          ]
            >>= λ b'. ok (branch n₀ b' s))
          >>= update_all ann load first fuel (suc count) f)
        e

  -- The leaf is written, and the search goes on from the level past it.
  pub at_hit :
      (count : ℕ) (n₀ : Node L A X) (level : RefLevel (Node L A X)) (up : RefLevels L A X)
      (s : Unit {0}) (l : L)
      → branch_leaf (record { levels = level ∷ up; exact = true }) ≡ some l
      → from_search (suc count) n₀ (level ∷ up, ok (true, s))
        ≡ from_search count n₀ (
            search_from ann load first fuel
              (advance (with_child ann load level (leaf (f l)) ∷ up))
              s)
  unfolding branch_leaf
  at_hit count n₀ level up s l hit =
      ap (for_each ann load first fuel (update_all ann load first fuel (suc count) f) f)
        (resumed-by n₀ (level ∷ up) true s (some l) hit)
      ∙ assign-by count n₀ level _ up s l (
          level_leaf_mut-leaf ann load law f level l (level_leaf-handle ann load law f level l hit))

  ended_search :
      (count depth : ℕ) (n₀ root : Node L A X) (done : List L) (r : Search)
      → IsHit ann load law root [] fuel (suc depth) r
      → walk load depth (children root) ≡ walk_of (done ++ [])
      → Leaves depth done [] (from_search count n₀ r)
  ended_search count depth n₀ root done ([], ok (exact, s)) (b, miss) w = absurd b
  ended_search count depth n₀ root done (level ∷ up, ok (exact, s)) (b, miss) w =
      at_end count depth n₀ root level up exact s done b.1 miss w
  ended_search count depth n₀ root done (levels, failed x) h w = absurd h
  ended_search count depth n₀ root done (levels, panicked) h w = absurd h
  ended_search count depth n₀ root done (levels, exhausted) h w = absurd h

  -- The rest of the loop, from levels that have yet to move on.
  abbrev pub Goes : ℕ → ℕ → List L → Type 0
  Goes count depth ls =
      (d : ℕ) (n₀ root : Node L A X) (levels : RefLevels L A X) (done : List L)
      → IsOpen ann load law root levels
      → walk_stack load d (plains levels) ≡ walk_of ls
      → 0 < rounds_stack load d (plains levels)
      → rounds_stack load d (plains levels) ≤ fuel
      → d + length levels ≡ suc depth
      → walk load depth (children root) ≡ walk_of (done ++ ls)
      → Leaves depth done ls (from_search count n₀ (search_from ann load first fuel levels tt))

  pub after_hit :
      (l : L) (ls : List L) (count depth : ℕ) (n₀ root : Node L A X) (done : List L) (r : Search)
      → IsHit ann load law root (l ∷ ls) fuel (suc depth) r
      → walk load depth (children root) ≡ walk_of (done ++ l ∷ ls)
      → Goes count depth ls
      → Leaves depth done (l ∷ ls) (from_search (suc count) n₀ r)
  unfolding advance branch_leaf
  after_hit l ls count depth n₀ root done ([], ok (exact, s)) (b, _, _, _, _, _, _) w go = absurd b
  after_hit l ls count depth n₀ root done (level ∷ up, ok (exact, s)) (b, hit, sure, d, v, r, k) w
        go =
      let hit' =
        subst (λ x. branch_leaf (record { levels = level ∷ up; exact = x }) ≡ some l) sure hit in
      let level' = with_child ann load level (leaf (f l)) in
      let at : depth ≡ d + length up = omega (arith, k) in
      let (n, b', w') =
        step ann load law f root d level up l ls done b
          (level_leaf-handle ann load law f level l hit') v
          (subst (λ x. walk load x (children root) ≡ walk_of (done ++ l ∷ ls)) at w) in
      let same = drop-with_child ann load level (leaf (f l)) in
      let fewer = ap (rounds load d) same in
      let (n', end, all) =
        go d n₀ n (advance (level' ∷ up)) (done ++ f l ∷ []) b'
          (ap (λ hs. walk load d hs then walk_past load (suc d) (plains up)) same ∙ v) (omega arith)
          (omega (arith, fewer, r)) k
          (subst (λ x. walk load x (children n) ≡ walk_of ((done ++ f l ∷ []) ++ ls)) (sym at)
            (w' ∙ ap walk_of (sym (append_assoc done (f l ∷ []) ls)))) in
      (
        n',
        ap (λ x. from_search (suc count) n₀ (level ∷ up, ok (x, s))) sure
            ∙ at_hit count n₀ level up s l hit'
            ∙ end,
        all ∙ ap walk_of (append_assoc done (f l ∷ []) (map f ls)),
      )
  after_hit l ls count depth n₀ root done (levels, failed x) h w go = absurd h
  after_hit l ls count depth n₀ root done (levels, panicked) h w go = absurd h
  after_hit l ls count depth n₀ root done (levels, exhausted) h w go = absurd h

  pub loop-Goes : (rest : List L) (count depth : ℕ) → length rest ≤ count → Goes count depth rest
  loop-Goes [] count depth c d n₀ root levels done b v p q k w =
      ended_search count depth n₀ root done _
        (search_from-IsHit ann load law root fuel d fuel (suc depth) levels [] b v p q q k) w
  loop-Goes (l ∷ ls) zero depth c d n₀ root levels done b v p q k w = absurd (omega (arith, c))
  loop-Goes (l ∷ ls) (suc count) depth c d n₀ root levels done b v p q k w =
      after_hit l ls count depth n₀ root done _
        (search_from-IsHit ann load law root fuel d fuel (suc depth) levels (l ∷ ls) b v p q q k) w
        (loop-Goes ls count depth (omega (arith, c)))
