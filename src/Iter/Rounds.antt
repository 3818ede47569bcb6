-- ===== src/Iter/Rounds.antt =====
-- One round of the search for the next leaf, against the leaves that are left to the stack of levels.
use native.Mathlib.Nat.{zero-add}
use kelvin.Prelude.{
  ℕ, zero, suc, ◌+◌, ◌<◌, ◌≤◌, none, some, List, [], ◌∷◌, true, false, ◌≡◌, refl, ap, ◌∙◌, sym, ◌⊎◌,
  inl, inr, arith, Bool-cases, ltb, Option, length,
}
use kelvin.Prelude.Outcome.{Outcome, ok, failed, panicked, exhausted, ◌>>=◌}
use kelvin.Handle.{
  Digest, Handle, empty, leaf, node, persisted, Node, children, get_handle, handle_type,
  count_handles, inner, leaf_of, node_ref,
}
use kelvin.Search.{
  SearchResult, leaf_at, path_at, no_result, Level, Round, stop, go_on, round, search_level,
  after_search, after_path, moved, referencing, advance, level_leaf, found_none,
}
use kelvin.Nth.{first, first_from}
use kelvin.Iter.Walk.{
  visit, ended, ◌then◌, then_assoc, walk, rounds, walk_all, rounds_all, under, restored_walk,
  restored_rounds, rounds_under, walk-under, rounds-under, drop_handles, drop-drop, get-drop,
  drop-past, walk_past, walk_stack, rounds_past, rounds_stack,
}
use kelvin.Iter.Firsts.{Sees, first_from-Sees, skip-drop}

module _ {L A X : Type 0} (load : Digest → Outcome (Node L A X)) where
  abbrev pub Levels : Type 0
  Levels = List (Level (Node L A X))

  abbrev pub top_leaf : Levels → Option L
  unfolding level_leaf
  top_leaf [] = none
  top_leaf (level ∷ up) = level_leaf level

  -- What a round that comes to `o` says of the leaves left.
  abbrev pub IsTurn : ℕ → Levels → Outcome (Round load (first {L = L} {A = A} {X = X})) → Type 0
  IsTurn d levels (ok (stop after true s)) =
      (l : L) × (top_leaf after ≡ some l)
      × (walk_stack load d levels ≡ visit l (walk_past load d after))
      × (rounds_past load d after ≤ rounds_stack load d levels)
      × (length after ≡ length levels)
  IsTurn d levels (ok (stop after false s)) = walk_stack load d levels ≡ ended (ok tt)
  IsTurn d levels (ok (go_on after s)) =
      (walk_stack load d levels ≡ ended exhausted)
      ⊎ ((e : ℕ) × (walk_stack load d levels ≡ walk_stack load e after)
          × (rounds_stack load e after < rounds_stack load d levels)
          × (0 < rounds_stack load e after)
          × (e + length after ≡ d + length levels))
  IsTurn d levels (failed x) = walk_stack load d levels ≡ ended (failed x)
  IsTurn d levels panicked = walk_stack load d levels ≡ ended panicked
  IsTurn d levels exhausted = walk_stack load d levels ≡ ended exhausted

module _ {L A X : Type 0} (load : Digest → Outcome (Node L A X)) (d : ℕ)
    (level : Level (Node L A X)) (up : Levels load) where
  after_all :
      (q j : ℕ)
      → j ≡ 0 + q
      → drop_handles (suc q) (drop_handles level.ofs (children level.at))
        ≡ drop_handles (level.ofs + j + 1) (children level.at)
  after_all q j e =
      drop-drop level.ofs (suc q) (children level.at)
      ∙ ap (λ i. drop_handles i (children level.at)) (omega (arith, e))

  here_at :
      (q j : ℕ) (h : Handle L A X)
      → j ≡ 0 + q
      → get_handle (drop_handles level.ofs (children level.at)) q ≡ some h
      → get_handle (children level.at) (level.ofs + j) ≡ some h
  here_at q j h e g =
      ap (λ i. get_handle (children level.at) (level.ofs + i)) (e ∙ zero-add q)
      ∙ sym (get-drop level.ofs q (children level.at))
      ∙ g

  abbrev turned : SearchResult → Outcome (Round load (first {L = L} {A = A} {X = X}))
  turned r = after_search load first up (moved load first level (r, tt))

  at_leaf :
      (j : ℕ)
      → Sees load
          (under load d)
          (rounds_under load d)
          (drop_handles level.ofs (children level.at))
          0
          (leaf_at j)
      → IsTurn load d (level ∷ up) (turned (leaf_at j))
  unfolding after_search moved level_leaf leaf_of
  at_leaf j (q, l, e, g, w, n) = (
    l,
    rw (here_at q j (leaf l) e g) refl,
    ap (λ x. x then walk_past load (suc d) up)
        (walk-under load d _
          ∙ w
          ∙ ap (visit l) (sym (walk-under load d _) ∙ ap (walk load d) (after_all q j e))),
    let same : rounds load d (drop_handles level.ofs (children level.at))
            ≡ rounds load d (drop_handles (level.ofs + j + 1) (children level.at)) =
          rounds-under load d _
          ∙ n
          ∙ sym (rounds-under load d _)
          ∙ ap (rounds load d) (after_all q j e) in
        omega (arith, same),
    refl,
  )

  -- Into a node that a handle shows.
  into :
      (q j : ℕ) (n : Node L A X)
      → j ≡ 0 + q
      → walk_all load (under load d) (drop_handles level.ofs (children level.at)) ≡ (
          under load d (children n)
          then walk_all load
              (under load d)
              (drop_handles (suc q) (drop_handles level.ofs (children level.at))))
      → rounds_all load (rounds_under load d) (drop_handles level.ofs (children level.at))
        ≡ (2 + rounds_under load d (children n))
          + rounds_all load
              (rounds_under load d)
              (drop_handles (suc q) (drop_handles level.ofs (children level.at)))
      → IsTurn load d
          (level ∷ up)
          (ok (go_on (record { ofs = 0; at = n } ∷ record level { ofs = level.ofs + j } ∷ up) tt))
  into q j n e w r = by_depth d w r
    where
      by_depth :
          (c : ℕ)
          → walk_all load (under load c) (drop_handles level.ofs (children level.at)) ≡ (
              under load c (children n)
              then walk_all load
                  (under load c)
                  (drop_handles (suc q) (drop_handles level.ofs (children level.at))))
          → rounds_all load (rounds_under load c) (drop_handles level.ofs (children level.at))
            ≡ (2 + rounds_under load c (children n))
              + rounds_all load
                  (rounds_under load c)
                  (drop_handles (suc q) (drop_handles level.ofs (children level.at)))
          → IsTurn load c (level ∷ up) (
              ok
                (go_on (record { ofs = 0; at = n } ∷ record level { ofs = level.ofs + j } ∷ up) tt))
      by_depth zero w r = inl (ap (λ x. x then walk_past load 1 up) (walk-under load 0 _ ∙ w))
      by_depth (suc c) w r = inr (
        c,
        ap (λ x. x then walk_past load (suc (suc c)) up)
              (walk-under load (suc c) _
                ∙ w
                ∙ ap (λ x. walk load c (children n) then x)
                    (sym (walk-under load (suc c) _) ∙ ap (walk load (suc c)) (after_all q j e)))
            ∙ then_assoc (walk load c (children n)) _ _,
        let now = rounds-under load (suc c) (drop_handles level.ofs (children level.at)) in
            let later =
              rounds-under load (suc c)
                (drop_handles (suc q) (drop_handles level.ofs (children level.at))) in
            let moved_on = ap (rounds load (suc c)) (after_all q j e) in
            omega (arith, now, later, moved_on, r),
        omega arith,
        omega arith,
      )

  -- The store has been asked for the node.
  from_store :
      (q j : ℕ) (o : Outcome (Node L A X))
      → j ≡ 0 + q
      → walk_all load (under load d) (drop_handles level.ofs (children level.at)) ≡ (
          restored_walk load (under load d) o
          then walk_all load
              (under load d)
              (drop_handles (suc q) (drop_handles level.ofs (children level.at))))
      → rounds_all load (rounds_under load d) (drop_handles level.ofs (children level.at))
        ≡ restored_rounds load (rounds_under load d) o
          + rounds_all load
              (rounds_under load d)
              (drop_handles (suc q) (drop_handles level.ofs (children level.at)))
      → IsTurn load d (level ∷ up) (
          (o >>= λ n. ok (node_ref n)) >>= λ r.
          ok (after_path load first (record level { ofs = level.ofs + j } ∷ up) tt r))
  unfolding after_path
  from_store q j (ok n) e w r = into q j n e w r
  from_store q j (failed x) e w r =
      ap (λ x. x then walk_past load (suc d) up) (walk-under load d _ ∙ w)
  from_store q j panicked e w r =
      ap (λ x. x then walk_past load (suc d) up) (walk-under load d _ ∙ w)
  from_store q j exhausted e w r =
      ap (λ x. x then walk_past load (suc d) up) (walk-under load d _ ∙ w)

  at_path :
      (j : ℕ)
      → Sees load
          (under load d)
          (rounds_under load d)
          (drop_handles level.ofs (children level.at))
          0
          (path_at j)
      → IsTurn load d (level ∷ up) (turned (path_at j))
  unfolding after_search after_path moved referencing inner handle_type
  at_path j (q, empty, e, g, ty, w, n) = absurd (cc)
  at_path j (q, leaf l, e, g, ty, w, n) = absurd (cc)
  at_path j (q, node c a x, e, g, ty, w, n) = rw (here_at q j (node c a x) e g) (into q j c e w n)
  at_path j (q, persisted b a, e, g, ty, w, n) =
      rw (here_at q j (persisted b a) e g) (from_store q j (load b) e w n)

-- Nothing is left at the last level: it is popped, and the one above moves on.
at_end :
    {L A X : Type 0} (load : Digest → Outcome (Node L A X)) (d : ℕ) (level : Level (Node L A X))
    (up : Levels load)
    → walk load d (drop_handles level.ofs (children level.at)) ≡ ended (ok tt)
    → IsTurn load d (level ∷ up) (after_search load first up (found_none, level, tt))
unfolding after_search advance
at_end load d level [] w = rw w refl
at_end load d level (b ∷ up) w = inr (
  suc d,
  ap (λ x. x then walk_past load (suc d) (b ∷ up)) w,
  omega arith,
  omega arith,
  omega arith,
)

module _ {L A X : Type 0} (load : Digest → Outcome (Node L A X)) where
  selected :
      (d : ℕ) (level : Level (Node L A X)) (up : Levels load) (r : SearchResult)
      → Sees load
          (under load d)
          (rounds_under load d)
          (drop_handles level.ofs (children level.at))
          0
          r
      → IsTurn load d (level ∷ up) (turned load d level up r)
  unfolding moved
  selected d level up (leaf_at j) w = at_leaf load d level up j w
  selected d level up (path_at j) w = at_path load d level up j w
  selected d level up no_result w = at_end load d level up (walk-under load d _ ∙ w)

  -- A round of the search with `First` does to the leaves left what its outcome says.
  pub round-IsTurn :
      (d : ℕ) (level : Level (Node L A X)) (up : Levels load)
      → IsTurn load d (level ∷ up) (round load first (level ∷ up) tt)
  unfolding round search_level first
  round-IsTurn d level up =
      elim (Bool-cases (ltb (count_handles (children level.at)) (level.ofs + 1))) [
        | inl past ↦ rw past (
            at_end load d level up (
              ap (walk load d) (drop-past level.ofs (children level.at) (ground (arith, past)))
              ∙ walk-under load d _))
        | inr within ↦
            rw (within, skip-drop level.ofs (children level.at) (ground (arith, within)))
              (selected d level up (first_from (drop_handles level.ofs (children level.at)) 0) (
                first_from-Sees load (under load d) (rounds_under load d)
                  (drop_handles level.ofs (children level.at)) 0))
      ]
