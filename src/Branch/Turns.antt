-- ===== src/Branch/Turns.antt =====
-- The search for the next leaf on a mutable branch, against the leaves that are left to its levels.
use native.Mathlib.Nat.{suc-add}
use kelvin.Prelude.{
  ℕ, zero, suc, ◌+◌, ◌<◌, ◌≤◌, none, some, List, [], ◌∷◌, ◌≡◌, refl, ap, ◌∙◌, sym, subst, Bool,
  true, false, inl, inr, arith, length,
}
use kelvin.Prelude.Outcome.{Outcome, ok, failed, panicked, exhausted, ◌>>=◌}
use kelvin.Annotation.{Annotation}
use kelvin.Annotation.Laws.{IsAnnotation}
use kelvin.Handle.{
  Digest, Handle, Handles, nil, cons, node, Node, children, set_handle, set_child, compound,
}
use kelvin.Search
use kelvin.Search.{
  Level, level_leaf, Found, found_leaf, found_path, found_none, search_level, referencing, Round,
  stop, go_on, after_path,
}
use kelvin.Nth.{first}
use kelvin.Iter.Walk.{
  visit, ended, ◌then◌, walk, rounds, drop_handles, walk_past, walk_stack, rounds_past,
  rounds_stack, walk_of,
}
use kelvin.Iter.Rounds.{IsTurn, round-IsTurn, top_leaf}
use kelvin.Branch.{
  NodeRef, cached, mutable, owned, RefLevel, deref, written, plain, pop_level, branch_leaf, Turn,
  halt, again, popped, after_search, round, onward, search_from,
}
use kelvin.Branch.Unlinks.{RefLevels, plains, with_child}
use kelvin.Branch.Finds.{IsBranch, IsKept, IsAt, search_level-IsAt, round-IsKept, put_back}
use kelvin.Branch.Plain.{plain_round, pushed-plain}

drop-set :
    {L A X : Type 0} (i : ℕ) (hs : Handles L A X) (h : Handle L A X)
    → drop_handles (i + 1) (set_handle hs i h) ≡ drop_handles (i + 1) hs
drop-set i nil h = refl
drop-set zero (cons g hs) h = refl
drop-set (suc i) (cons g hs) h = rw suc-add (drop-set i hs h)

module _ {L A X : Type 0} (ann : Annotation L A) (load : Digest → Outcome (Node L A X)) where
  -- What is past a level does not change with its child.
  pub drop-with_child :
      (last : RefLevel (Node L A X)) (h : Handle L A X)
      → drop_handles (last.ofs + 1) (children (deref (with_child ann load last h).node))
        ≡ drop_handles (last.ofs + 1) (children (deref last.node))
  drop-with_child last h = by_node last.node last.ofs
    where
      by_child :
          (n : Node L A X) (i : ℕ)
          → drop_handles (i + 1) (children (set_child n i h)) ≡ drop_handles (i + 1) (children n)
      by_child (compound x hs) i = drop-set i hs h

      by_node :
          (ref : NodeRef (Node L A X)) (i : ℕ)
          → drop_handles (i + 1) (children (deref (written ref (set_child (deref ref) i h))))
            ≡ drop_handles (i + 1) (children (deref ref))
      by_node (cached n) i = by_child n i
      by_node (mutable n) i = by_child n i
      by_node (owned n) i = by_child n i

module _ {L A X : Type 0} (ann : Annotation L A) (load : Digest → Outcome (Node L A X))
    (law : IsAnnotation ann) (root : Node L A X) where
  -- The levels of a branch, whose relinking gives `root`.
  abbrev pub IsOpen : RefLevels L A X → Type 0
  IsOpen levels = IsBranch ann load first law false root levels

  abbrev turned :
      RefLevels L A X × Outcome (Turn ann load (first {L = L} {A = A} {X = X}))
      → Outcome (Round load (first {L = L} {A = A} {X = X}))
  turned o = plain_round ann load first law root o

  -- The level above has another child, which it has passed.
  go_on-IsTurn :
      (d : ℕ) (levels : List (Level (Node L A X))) (last : RefLevel (Node L A X)) (h : Handle L A X)
      (up : RefLevels L A X) (s : Unit {0})
      → IsTurn load d levels
          (ok (go_on (record { ofs = last.ofs + 1; at = deref last.node } ∷ plains up) s))
      → IsTurn load d levels (
          ok (
            go_on
              (record { ofs = last.ofs + 1; at = deref (with_child ann load last h).node }
                ∷ plains up)
              s))
  go_on-IsTurn d levels last h up s (inl w) = inl w
  go_on-IsTurn d levels last h up s (inr (e, w, r, p, k)) =
      let same = drop-with_child ann load last h in
      let fewer = ap (rounds load e) same in
      inr (
        e,
        w ∙ ap (λ hs. walk load e hs then walk_past load (suc e) (plains up)) (sym same),
        omega (arith, fewer, r),
        omega (arith, fewer, p),
        k,
      )

  popped-IsTurn :
      (d : ℕ) (levels : List (Level (Node L A X))) (ref : NodeRef (Node L A X)) (i : ℕ)
      (last : RefLevel (Node L A X)) (up : RefLevels L A X)
      → IsOpen (record { ofs = i; node = ref } ∷ last ∷ up)
      → IsTurn load d levels (ok (go_on (Search.advance load first (plains (last ∷ up))) tt))
      → IsTurn load d levels (
          turned
            (popped ann load first tt (pop_level ann (record { ofs = i; node = ref } ∷ last ∷ up))))
  unfolding popped pop_level Search.advance
  popped-IsTurn d levels (cached n) i last up b t = t
  popped-IsTurn d levels (mutable n) i last up b t = absurd b.0
  popped-IsTurn d levels (owned n) i last up b t =
      let (a, placed, _, _) = put_back ann load first law false root n last up b.0 b.1 in
      subst
        (λ r.
          IsTurn load d levels (turned (popped ann load first tt (r >>= λ last'. ok (last' ∷ up)))))
        (sym placed) (go_on-IsTurn d levels last (node n a none) up tt t)

  after_search-IsTurn :
      (d : ℕ) (levels : List (Level (Node L A X))) (level : RefLevel (Node L A X))
      (up : RefLevels L A X) (found : Found) (lv : Level (Node L A X))
      → record { ofs = lv.ofs; at = deref level.node } ≡ lv
      → IsOpen (level ∷ up)
      → IsTurn load d levels (Search.after_search load first (plains up) (found, lv, tt))
      → IsTurn load d levels (turned (after_search ann load first level up (found, lv, tt)))
  unfolding Search.after_search after_search
  after_search-IsTurn d levels level up found_leaf lv e b t =
      subst (λ l. IsTurn load d levels (ok (stop (l ∷ plains up) true tt))) (sym e) t
  after_search-IsTurn d levels level up found_path lv e b t =
      subst (IsTurn load d levels)
        (ap
            (λ l.
              referencing load first lv >>= λ r. ok (after_path load first (l ∷ plains up) tt r))
            (sym e)
          ∙ pushed-plain ann load first law root (record level { ofs = lv.ofs } ∷ up) tt
              (referencing load first lv))
        t
  after_search-IsTurn d levels level [] found_none lv e b t =
      subst (λ l. IsTurn load d levels (ok (stop (l ∷ []) false tt))) (sym e) t
  after_search-IsTurn d levels level (last ∷ up) found_none lv e b t =
      popped-IsTurn d levels level.node lv.ofs last up b t

  mutable_round-IsTurn :
      (d : ℕ) (level : RefLevel (Node L A X)) (up : RefLevels L A X)
      → IsOpen (level ∷ up)
      → IsTurn load d (plains (level ∷ up)) (turned (round ann load first (level ∷ up) tt))
  unfolding Search.round round
  mutable_round-IsTurn d level up b =
      by_level (search_level load first (plain level) tt)
        (search_level-IsAt ann load first law false root (plain level) tt)
        (round-IsTurn load d (plain level) (plains up))
    where
      by_level :
          (o : Outcome (Found × Level (Node L A X) × Unit {0}))
          → IsAt ann load first law false root (plain level) o
          → IsTurn load d (plains (level ∷ up)) (o >>= Search.after_search load first (plains up))
          → IsTurn load d (plains (level ∷ up)) (
              turned (elim o as (λ x. RefLevels L A X × Outcome (Turn ann load first)) [
                | ok r ↦ after_search ann load first level up r
                | failed e ↦ (level ∷ up, failed e)
                | panicked ↦ (level ∷ up, panicked)
                | exhausted ↦ (level ∷ up, exhausted)
              ]))
      by_level (ok (found, lv, s')) e t =
          after_search-IsTurn d (plains (level ∷ up)) level up found lv
            (ap (λ n. record { ofs = lv.ofs; at = n }) (sym e)) b t
      by_level (failed x) e t = t
      by_level panicked e t = t
      by_level exhausted e t = t

  -- What a search comes to where the leaves `rest` are left: at the first of them, or at none.
  abbrev pub IsHit : List L → ℕ → ℕ → RefLevels L A X × Outcome (Bool × Unit {0}) → Type 0
  IsHit [] bound depth (levels, ok (exact, s)) =
      IsOpen levels × (branch_leaf (record { levels = levels; exact = exact }) ≡ none)
  IsHit (l ∷ ls) bound depth (levels, ok (exact, s)) =
      IsOpen levels
      × (branch_leaf (record { levels = levels; exact = exact }) ≡ some l)
      × (exact ≡ true)
      × (e : ℕ) × (walk_past load e (plains levels) ≡ walk_of ls)
      × (rounds_past load e (plains levels) ≤ bound)
      × (e + length levels ≡ depth)
  IsHit rest bound depth (levels, failed x) = ⊥
  IsHit rest bound depth (levels, panicked) = ⊥
  IsHit rest bound depth (levels, exhausted) = ⊥

  length-plains : (levels : RefLevels L A X) → length (plains levels) ≡ length levels
  length-plains [] = refl
  length-plains (level ∷ up) = ap suc (length-plains up)

  at_leaf :
      (levels : RefLevels L A X) (rest : List L) (bound depth e : ℕ) (l : L)
      → IsOpen levels
      → top_leaf load (plains levels) ≡ some l
      → walk_of rest ≡ visit l (walk_past load e (plains levels))
      → rounds_past load e (plains levels) ≤ bound
      → e + length levels ≡ depth
      → IsHit rest bound depth (levels, ok (true, tt))
  unfolding branch_leaf level_leaf
  at_leaf [] rest bound depth e l b top v r k = absurd b
  at_leaf (level ∷ up) [] bound depth e l b top v r k = absurd (cc)
  at_leaf (level ∷ up) (x ∷ ls) bound depth e l b top v r k = (b, cc (top, v), refl, e, cc v, r, k)

  no_leaf :
      (levels : RefLevels L A X) (rest : List L) (bound depth : ℕ)
      → IsOpen levels
      → walk_of rest ≡ ended (ok tt)
      → IsHit rest bound depth (levels, ok (false, tt))
  unfolding branch_leaf
  no_leaf [] rest bound depth b v = absurd b
  no_leaf (level ∷ up) [] bound depth b v = (b, refl)
  no_leaf (level ∷ up) (x ∷ ls) bound depth b v = absurd (cc)

  not_ended : (rest : List L) (o : Outcome (Unit {0})) → walk_of rest ≡ ended o → o ≡ ok tt
  not_ended [] o e = cc
  not_ended (l ∷ rest) o e = absurd (cc)

  after_round :
      (fuel d bound depth : ℕ) (levels : RefLevels L A X) (rest : List L)
      (o : RefLevels L A X × Outcome (Turn ann load (first {L = L} {A = A} {X = X})))
      → walk_stack load d (plains levels) ≡ walk_of rest
      → rounds_stack load d (plains levels) ≤ bound
      → d + length levels ≡ depth
      → IsKept ann load first law false root o
      → IsTurn load d (plains levels) (turned o)
      → ((e : ℕ) (after : RefLevels L A X)
          → IsOpen after
          → walk_stack load e (plains after) ≡ walk_of rest
          → 0 < rounds_stack load e (plains after)
          → rounds_stack load e (plains after) < rounds_stack load d (plains levels)
          → e + length after ≡ depth
          → IsHit rest bound depth (search_from ann load first fuel after tt))
      → IsHit rest bound depth (onward ann load first (search_from ann load first fuel) o)
  unfolding onward
  after_round fuel d bound depth levels rest (after, ok (halt true s)) w r k b (l, top, v, n, same)
        rec =
      at_leaf after rest bound depth d l b top (sym w ∙ v) (omega (arith, n, r))
        (omega (arith, same, k, length-plains after, length-plains levels))
  after_round fuel d bound depth levels rest (after, ok (halt false s)) w r k b t rec =
      no_leaf after rest bound depth b (sym w ∙ t)
  after_round fuel d bound depth levels rest (after, ok (again s)) w r k b (inl v) rec =
      absurd (cc (not_ended rest exhausted (sym w ∙ v)))
  after_round fuel d bound depth levels rest (after, ok (again s)) w r k b (inr (e, v, n, p, same))
        rec =
      rec e after b (sym v ∙ w) p n
        (omega (arith, same, k, length-plains after, length-plains levels))
  after_round fuel d bound depth levels rest (after, failed x) w r k b t rec =
      absurd (cc (not_ended rest (failed x) (sym w ∙ t)))
  after_round fuel d bound depth levels rest (after, panicked) w r k b t rec =
      absurd (cc (not_ended rest panicked (sym w ∙ t)))
  after_round fuel d bound depth levels rest (after, exhausted) w r k b t rec =
      absurd (cc (not_ended rest exhausted (sym w ∙ t)))

  -- With a round of fuel for every node entered or left the search finds the next leaf, or that there is
  -- none.
  pub search_from-IsHit :
      (fuel d bound depth : ℕ) (levels : RefLevels L A X) (rest : List L)
      → IsOpen levels
      → walk_stack load d (plains levels) ≡ walk_of rest
      → 0 < rounds_stack load d (plains levels)
      → rounds_stack load d (plains levels) ≤ fuel
      → rounds_stack load d (plains levels) ≤ bound
      → d + length levels ≡ depth
      → IsHit rest bound depth (search_from ann load first fuel levels tt)
  unfolding search_from
  search_from-IsHit zero d bound depth levels rest b w p q r k = absurd (omega (arith, p, q))
  search_from-IsHit (suc fuel) d bound depth [] rest b w p q r k = absurd b
  search_from-IsHit (suc fuel) d bound depth (level ∷ up) rest b w p q r k =
      after_round fuel d bound depth (level ∷ up) rest (round ann load first (level ∷ up) tt) w r k
        (round-IsKept ann load first law false root (level ∷ up) tt b)
        (mutable_round-IsTurn d level up b)
        (λ e after b' w' p' n k'.
          search_from-IsHit fuel e bound depth after rest b' w' p' (omega (arith, q, n))
            (omega (arith, r, n)) k')
