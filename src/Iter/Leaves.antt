-- ===== src/Iter/Leaves.antt =====
-- The iterator over the leaves answers as the walk over them.
use mathlib.Core.Option
use kelvin.Prelude.{
  ℕ, zero, suc, ◌+◌, ◌<◌, ◌≤◌, none, some, List, [], ◌∷◌, true, false, ◌≡◌, refl, ap, ◌∙◌, sym,
  Option, ◌⊎◌, inl, inr, arith, replicate, subst, Bool,
}
use kelvin.Prelude.Outcome.{Outcome, ok, failed, panicked, exhausted, ◌>>=◌}
use kelvin.Handle.{Digest, Node, children}
use kelvin.Search.{Round, stop, go_on, RawBranch, search_from, branch_leaf, level_leaf, advance}
use kelvin.Nth.{first}
use kelvin.Iter.{
  branch, finished, next, next_part, calls, iter, resumed, with_leaf, branch_open, branch_search,
}
use kelvin.Iter.Walk.{
  Walk, visit, ended, walk_of, then-ended, walk, rounds, walk_past, walk_stack, rounds_past,
  rounds_stack,
}
use kelvin.Iter.Rounds.{Levels, top_leaf, IsTurn, round-IsTurn}

-- What a number of calls of `next` returns of a walk: its leaves, what stopped it, and then nothing.
abbrev pub answers : {L P : Type 0} → (L → P) → ℕ → Walk L → List (Outcome (Option P))
answers part zero w = []
answers part (suc n) (visit l w) = ok (some (part l)) ∷ answers part n w
answers part (suc n) (ended o) = (o >>= λ x. ok none) ∷ replicate n (ok none)

-- The walk is not cut short by its depth.
abbrev pub IsWhole : {L : Type 0} → Walk L → Type 0
IsWhole (visit l w) = IsWhole w
IsWhole (ended exhausted) = ⊥
IsWhole (ended (ok x)) = Unit
IsWhole (ended (failed e)) = Unit
IsWhole (ended panicked) = Unit

pub walk_of-IsWhole : {L : Type 0} (ls : List L) → IsWhole (walk_of ls)
walk_of-IsWhole [] = tt
walk_of-IsWhole (l ∷ ls) = walk_of-IsWhole ls

not_whole : {L : Type 0} (w : Walk L) → IsWhole w → w ≡ ended exhausted → ⊥
not_whole w i e = subst IsWhole e i

module _ {L A X : Type 0} (load : Digest → Outcome (Node L A X)) where
  -- What a search that comes to `o` says of the leaves left.
  abbrev IsHit : ℕ → Levels load → Outcome (RawBranch (Node L A X) × Unit {0}) → Type 0
  IsHit d levels (ok (b, s)) =
      ((l : L) × (branch_leaf b ≡ some l)
        × (e : ℕ) × (walk_stack load d levels ≡ visit l (walk_past load e b.levels))
        × (rounds_past load e b.levels ≤ rounds_stack load d levels))
      ⊎ ((branch_leaf b ≡ none) × (walk_stack load d levels ≡ ended (ok tt)))
  IsHit d levels (failed x) = walk_stack load d levels ≡ ended (failed x)
  IsHit d levels panicked = walk_stack load d levels ≡ ended panicked
  IsHit d levels exhausted = ⊥

  top_leaf-branch_leaf :
      (after : Levels load) (l : L)
      → top_leaf load after ≡ some l
      → branch_leaf (record { levels = after; exact = true }) ≡ some l
  unfolding branch_leaf level_leaf
  top_leaf-branch_leaf [] l e = absurd (cc)
  top_leaf-branch_leaf (level ∷ up) l e = e

  no_leaf : (after : Levels load) → branch_leaf (record { levels = after; exact = false }) ≡ none
  unfolding branch_leaf
  no_leaf [] = refl
  no_leaf (level ∷ up) = refl

  IsHit-later :
      (d e : ℕ) (levels after : Levels load) (o : Outcome (RawBranch (Node L A X) × Unit {0}))
      → walk_stack load d levels ≡ walk_stack load e after
      → rounds_stack load e after < rounds_stack load d levels
      → IsHit e after o
      → IsHit d levels o
  IsHit-later d e levels after (ok (b, s)) w r (inl (l, hit, c, v, q)) =
      inl (l, hit, c, w ∙ v, omega (arith, r, q))
  IsHit-later d e levels after (ok (b, s)) w r (inr (miss, v)) = inr (miss, w ∙ v)
  IsHit-later d e levels after (failed x) w r v = w ∙ v
  IsHit-later d e levels after panicked w r v = w ∙ v
  IsHit-later d e levels after exhausted w r v = v

  after_round :
      (fuel d : ℕ) (levels : Levels load) (o : Outcome (Round load first))
      → IsWhole (walk_stack load d levels)
      → IsTurn load d levels o
      → ((e : ℕ) (after : Levels load)
          → 0 < rounds_stack load e after
          → rounds_stack load e after < rounds_stack load d levels
          → IsWhole (walk_stack load e after)
          → IsHit e after (search_from load first fuel after tt))
      → IsHit d levels (
          o >>= λ r. elim r [
            | stop levels' exact s' ↦ ok (record { levels = levels'; exact = exact }, s')
            | go_on levels' s' ↦ search_from load first fuel levels' s'
          ])
  after_round fuel d levels (ok (stop after true s)) i (l, top, w, n, k) rec =
      inl (l, top_leaf-branch_leaf after l top, d, w, n)
  after_round fuel d levels (ok (stop after false s)) i w rec = inr (no_leaf after, w)
  after_round fuel d levels (ok (go_on after s)) i (inl w) rec = absurd (not_whole _ i w)
  after_round fuel d levels (ok (go_on after s)) i (inr (e, w, r, p, k)) rec =
      IsHit-later d e levels after _ w r (rec e after p r (subst IsWhole w i))
  after_round fuel d levels (failed x) i w rec = w
  after_round fuel d levels panicked i w rec = w
  after_round fuel d levels exhausted i w rec = absurd (not_whole _ i w)

  search_from-IsHit :
      (fuel d : ℕ) (levels : Levels load)
      → 0 < rounds_stack load d levels
      → rounds_stack load d levels ≤ fuel
      → IsWhole (walk_stack load d levels)
      → IsHit d levels (search_from load first fuel levels tt)
  unfolding search_from
  search_from-IsHit zero d levels p q i = absurd (omega (arith, p, q))
  search_from-IsHit (suc fuel) d [] p q i = absurd (omega (arith, p))
  search_from-IsHit (suc fuel) d (level ∷ up) p q i =
      after_round fuel d (level ∷ up) _ i (round-IsTurn load d level up)
        λ e after p' r i'. search_from-IsHit fuel e after p' (omega (arith, q, r)) i'

module _ {L A X P : Type 0} (load : Digest → Outcome (Node L A X)) (part : L → P) (fuel : ℕ) where
  finished-calls : (n : ℕ) → calls load first fuel part n finished ≡ replicate n (ok none)
  unfolding calls next_part next
  finished-calls zero = refl
  finished-calls (suc n) = ap (λ os. ok none ∷ os) (finished-calls n)

  -- Calls after a search with a given outcome.
  abbrev onward : ℕ → Outcome (RawBranch (Node L A X) × Unit {0}) → List (Outcome (Option P))
  unfolding resumed with_leaf
  onward n o =
      let (it, r) = resumed load first fuel (with_leaf load first fuel o) in
      (r >>= λ leaf. ok (Option.map part leaf)) ∷ calls load first fuel part n it

  abbrev from_stack : ℕ → Levels load → List (Outcome (Option P))
  from_stack n levels = onward n (search_from load first fuel levels tt)

  after_branch :
      (n : ℕ) (b : RawBranch (Node L A X)) (s : Unit {0})
      → calls load first fuel part (suc n) (branch b s) ≡ from_stack n (advance load first b.levels)
  unfolding calls next_part next branch_search with_leaf resumed
  after_branch n b s = refl

  hit-answers :
      (n d : ℕ) (levels : Levels load) (o : Outcome (RawBranch (Node L A X) × Unit {0}))
      → IsHit load d levels o
      → IsWhole (walk_stack load d levels)
      → ((b : RawBranch (Node L A X)) (s : Unit {0}) (l : L) (e : ℕ)
          → branch_leaf b ≡ some l
          → IsWhole (walk_past load e b.levels)
          → rounds_past load e b.levels ≤ rounds_stack load d levels
          → calls load first fuel part n (branch b s) ≡ answers part n (walk_past load e b.levels))
      → onward n o ≡ answers part (suc n) (walk_stack load d levels)
  unfolding with_leaf resumed
  hit-answers n d levels (ok (b, s)) (inl (l, hit, e, w, r)) i rec =
      rw (hit, w) (ap (λ os. ok (some (part l)) ∷ os) (rec b s l e hit (subst IsWhole w i) r))
  hit-answers n d levels (ok (b, s)) (inr (miss, w)) i rec =
      rw (miss, w) (ap (λ os. ok none ∷ os) (finished-calls n))
  hit-answers n d levels (failed x) w i rec = rw w (ap (λ os. failed x ∷ os) (finished-calls n))
  hit-answers n d levels panicked w i rec = rw w (ap (λ os. panicked ∷ os) (finished-calls n))
  hit-answers n d levels exhausted w i rec = absurd w

  next_stack :
      (n e : ℕ) (b : RawBranch (Node L A X)) (s : Unit {0}) (l : L)
      → branch_leaf b ≡ some l
      → ((levels : Levels load)
          → walk_stack load e levels ≡ walk_past load e b.levels
          → rounds_stack load e levels ≡ rounds_past load e b.levels
          → 0 < rounds_stack load e levels
          → from_stack n levels ≡ answers part (suc n) (walk_stack load e levels))
      → calls load first fuel part (suc n) (branch b s)
        ≡ answers part (suc n) (walk_past load e b.levels)
  unfolding advance branch_leaf
  next_stack n e b s l hit rec = after_branch n b s ∙ by_levels b.levels b.exact hit rec
    where
      by_levels :
          (levels : Levels load) (exact : Bool)
          → branch_leaf (record { levels = levels; exact = exact }) ≡ some l
          → ((levels' : Levels load)
              → walk_stack load e levels' ≡ walk_past load e levels
              → rounds_stack load e levels' ≡ rounds_past load e levels
              → 0 < rounds_stack load e levels'
              → from_stack n levels' ≡ answers part (suc n) (walk_stack load e levels'))
          → from_stack n (advance load first levels)
            ≡ answers part (suc n) (walk_past load e levels)
      by_levels [] exact hit rec = absurd (cc)
      by_levels (level ∷ up) exact hit rec =
          rec (record level { ofs = level.ofs + 1 } ∷ up) refl refl (omega arith)

  from_stack-answers :
      (n d : ℕ) (levels : Levels load)
      → 0 < rounds_stack load d levels
      → rounds_stack load d levels ≤ fuel
      → IsWhole (walk_stack load d levels)
      → from_stack n levels ≡ answers part (suc n) (walk_stack load d levels)
  unfolding calls
  from_stack-answers zero d levels p q i =
      hit-answers zero d levels _ (search_from-IsHit load fuel d levels p q i) i
        λ b s l e hit i' r. refl
  from_stack-answers (suc n) d levels p q i =
      hit-answers (suc n) d levels _ (search_from-IsHit load fuel d levels p q i) i
        λ b s l e hit i' r. next_stack n e b s l hit λ levels' w same p'.
          from_stack-answers n e levels' p' (omega (arith, same, r, q)) (subst IsWhole (sym w) i')

  -- On a tree of no more levels than `depth`, with a round of fuel for every node entered or left, any
  -- number of calls of `next` returns the leaves of the tree in their order, as its recursive walk has
  -- them, then the error of the store that stopped it, if any, and from then on nothing.
  pub iter-walk :
      (depth : ℕ) (n : Node L A X)
      → IsWhole (walk load depth (children n))
      → rounds load depth (children n) < fuel
      → (count : ℕ)
      → calls load first fuel part count (iter n)
        ≡ answers part count (walk load depth (children n))
  unfolding calls next_part next branch_open iter with_leaf resumed
  iter-walk depth n i p zero = refl
  iter-walk depth n i p (suc count) =
      let whole = then-ended (walk load depth (children n)) in
      from_stack-answers count depth (record { ofs = 0; at = n } ∷ []) (omega arith)
        (omega (arith, p)) (subst IsWhole (sym whole) i)
      ∙ ap (answers part (suc count)) whole
