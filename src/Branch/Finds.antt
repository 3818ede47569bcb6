-- ===== src/Branch/Finds.antt =====
-- What a search leaves of a branch: the levels are linked, and relinking them gives the node as it was.
use kelvin.Prelude.{
  ℕ, zero, suc, ◌+◌, none, some, Option, [], ◌∷◌, ◌≡◌, refl, ap, ◌∙◌, sym, subst, Bool, true, false,
  ltb, Bool-cases, inl, inr,
}
use kelvin.Prelude.Outcome.{Outcome, ok, failed, panicked, exhausted, ◌>>=◌}
use kelvin.Annotation.{Annotation}
use kelvin.Annotation.Laws.{IsAnnotation}
use kelvin.Handle.{
  Digest, Handle, Node, children, get_handle, count_handles, inner, node, handle_annotation,
  HandleRef, none_ref, leaf_ref, node_ref,
}
use kelvin.Search.{
  Method, SearchResult, leaf_at, path_at, no_result, Level, Found, found_leaf, found_path,
  found_none, search_level, moved, referencing,
}
use kelvin.Branch.{
  NodeRef, cached, mutable, owned, RefLevel, deref, plain, root_of, pop_level, unlink, relinked,
  written, Turn, halt, again, pushed, popped, after_search, round, onward, search_from,
}
use kelvin.Branch.Unlinks.{
  RefLevels, IsLinked, with_child, with_child-IsLinked, relinked-owned, unlink-owned,
}

abbrev pub MayOwn : Bool → Type 0
MayOwn true = ⊥
MayOwn false = Unit

module _ {L A X S : Type 0} (ann : Annotation L A) (load : Digest → Outcome (Node L A X))
    (m : Method (Node L A X) S) (law : IsAnnotation ann) (clean : Bool) (root : Node L A X) where
  -- No level owns its node, for a clean branch.
  abbrev pub IsBorrowed : NodeRef (Node L A X) → Type 0
  IsBorrowed (owned n) = MayOwn clean
  IsBorrowed (cached n) = Unit
  IsBorrowed (mutable n) = Unit

  -- The node that a clean branch is into is as it was.
  abbrev pub IsRoot : Bool → Node L A X → Type 0
  IsRoot true n = n ≡ root
  IsRoot false n = Unit

  abbrev pub AllBorrowed : RefLevels L A X → Type 0
  AllBorrowed [] = Unit
  AllBorrowed (level ∷ up) = IsBorrowed level.node × AllBorrowed up

  -- The levels of a branch whose relinking gives `root`; a clean one, through which nothing has been
  -- written, is into `root`.
  abbrev pub IsBranch : RefLevels L A X → Type 0
  IsBranch [] = ⊥
  IsBranch (level ∷ up) =
      IsLinked ann load level.node up
      × (unlink ann level.node up ≡ ok root)
      × IsBorrowed level.node
      × AllBorrowed up
      × IsRoot clean (root_of (deref level.node) up)

  -- What a round and a search leave: a branch if there is a result; the root is as it was in any case.
  abbrev pub IsKept : {R : Type 0} → RefLevels L A X × Outcome R → Type 0
  IsKept (levels, ok r) = IsBranch levels
  IsKept (levels, failed e) = IsRoot clean (root_of root levels)
  IsKept (levels, panicked) = IsRoot clean (root_of root levels)
  IsKept (levels, exhausted) = IsRoot clean (root_of root levels)

  IsBranch-IsRoot :
      (levels : RefLevels L A X) → IsBranch levels → IsRoot clean (root_of root levels)
  IsBranch-IsRoot [] b = absurd b
  IsBranch-IsRoot (level ∷ up) b = b.4

  -- A level stays at its node.
  abbrev pub IsAt : Level (Node L A X) → Outcome (Found × Level (Node L A X) × S) → Type 0
  IsAt level (ok (found, lv, s)) = lv.at ≡ level.at
  IsAt level (failed e) = Unit
  IsAt level panicked = Unit
  IsAt level exhausted = Unit

  moved-IsAt :
      (level : Level (Node L A X)) (o : Outcome (SearchResult × S))
      → IsAt level (o >>= λ r. ok (moved load m level r))
  unfolding moved
  moved-IsAt level (ok (leaf_at i, s)) = refl
  moved-IsAt level (ok (path_at i, s)) = refl
  moved-IsAt level (ok (no_result, s)) = refl
  moved-IsAt level (failed e) = tt
  moved-IsAt level panicked = tt
  moved-IsAt level exhausted = tt

  pub search_level-IsAt :
      (level : Level (Node L A X)) (s : S) → IsAt level (search_level load m level s)
  unfolding search_level
  search_level-IsAt level s =
      elim (Bool-cases (ltb (count_handles (children level.at)) (level.ofs + 1))) [
        | inl p ↦ rw p refl
        | inr p ↦ rw p (moved-IsAt level (m.select level.at level.ofs s))
      ]

  -- What a level refers to is below the handle that it is at.
  referencing-handle :
      (lv : Level (Node L A X)) (n : Node L A X)
      → referencing load m lv ≡ ok (node_ref n)
      → (h : Handle L A X) × (get_handle (children lv.at) lv.ofs ≡ some h)
        × (inner load h ≡ ok (node_ref n))
  unfolding referencing
  referencing-handle lv n e = by_handle (get_handle (children lv.at) lv.ofs) refl e
    where
      by_handle :
          (o : Option (Handle L A X))
          → get_handle (children lv.at) lv.ofs ≡ o
          → elim o as (λ x. Outcome (HandleRef L A X)) [
            | none ↦ ok none_ref
            | some h ↦ inner load h
          ]
            ≡ ok (node_ref n)
          → (h : Handle L A X) × (get_handle (children lv.at) lv.ofs ≡ some h)
            × (inner load h ≡ ok (node_ref n))
      by_handle none g e = absurd (cc)
      by_handle (some h) g e = (h, g, e)

  -- The level has moved along its node's handles.
  pushed-IsKept :
      (level : RefLevel (Node L A X)) (up : RefLevels L A X) (s : S) (lv : Level (Node L A X))
      → lv.at ≡ deref level.node
      → IsBranch (level ∷ up)
      → (o : Outcome (HandleRef L A X)) → referencing load m lv ≡ o
      → IsKept (pushed ann load m (record level { ofs = lv.ofs } ∷ up) s o)
  unfolding pushed unlink
  pushed-IsKept level up s lv e b (ok (node_ref n)) shows =
      let (h, g, i) = referencing-handle lv n shows in
      ((h, ap (λ c. get_handle (children c) lv.ofs) (sym e) ∙ g, i, b.0), b.1, tt, (b.2, b.3), b.4)
  pushed-IsKept level up s lv e b (ok none_ref) shows = b
  pushed-IsKept level up s lv e b (ok (leaf_ref l)) shows = b
  pushed-IsKept level up s lv e b (failed x) shows = b.4
  pushed-IsKept level up s lv e b panicked shows = b.4
  pushed-IsKept level up s lv e b exhausted shows = b.4

  -- An owned level is put back into the level above it.
  pub put_back :
      (n : Node L A X) (last : RefLevel (Node L A X)) (up : RefLevels L A X)
      → IsLinked ann load (owned n) (last ∷ up)
      → unlink ann (owned n) (last ∷ up) ≡ ok root
      → (a : A) × (relinked ann (owned n) last ≡ ok (with_child ann load last (node n a none)))
        × IsLinked ann load (with_child ann load last (node n a none)).node up
        × (unlink ann (with_child ann load last (node n a none)).node up ≡ ok root)
  unfolding handle_annotation
  put_back n last up (p, (a, e), l) whole =
      let placed = relinked-owned ann load n a last e p in
      (
        a,
        placed,
        with_child-IsLinked ann load last (node n a none) a up law p refl l,
        sym (unlink-owned ann load n last _ up placed) ∙ whole,
      )

  pub written-IsBorrowed :
      (ref : NodeRef (Node L A X)) (n : Node L A X) → MayOwn clean → IsBorrowed (written ref n)
  written-IsBorrowed (cached c) n o = o
  written-IsBorrowed (mutable c) n o = tt
  written-IsBorrowed (owned c) n o = o

  any-IsRoot : (b : Bool) (c : Node L A X) → MayOwn b → IsRoot b c
  any-IsRoot true c o = absurd o
  any-IsRoot false c o = tt

  -- A level is popped.
  popped-IsKept :
      (ref : NodeRef (Node L A X)) (i : ℕ) (last : RefLevel (Node L A X)) (up : RefLevels L A X)
      (s : S)
      → IsBranch (record { ofs = i; node = ref } ∷ last ∷ up)
      → IsKept (popped ann load m s (pop_level ann (record { ofs = i; node = ref } ∷ last ∷ up)))
  unfolding popped pop_level unlink
  popped-IsKept (cached n) i last up s (linked, whole, _, (b, bs), bottom) =
      (linked.3, whole, b, bs, bottom)
  popped-IsKept (mutable n) i last up s (linked, _, _, _, _) = absurd linked
  popped-IsKept (owned n) i last up s (linked, whole, o, (b, bs), bottom) =
      let (a, placed, linked', whole') = put_back n last up linked whole in
      subst (λ r. IsKept (popped ann load m s (r >>= λ last'. ok (last' ∷ up)))) (sym placed)
        (linked', whole', written-IsBorrowed last.node _ o, bs, any-IsRoot clean _ o)

  after_search-IsKept :
      (level : RefLevel (Node L A X)) (up : RefLevels L A X) (found : Found)
      (lv : Level (Node L A X)) (s : S)
      → lv.at ≡ deref level.node
      → IsBranch (level ∷ up)
      → IsKept (after_search ann load m level up (found, lv, s))
  unfolding after_search
  after_search-IsKept level up found_leaf lv s e b = b
  after_search-IsKept level up found_path lv s e b = pushed-IsKept level up s lv e b _ refl
  after_search-IsKept level [] found_none lv s e b = b
  after_search-IsKept level (last ∷ up) found_none lv s e b =
      popped-IsKept level.node lv.ofs last up s b

  pub round-IsKept :
      (levels : RefLevels L A X) (s : S) → IsBranch levels → IsKept (round ann load m levels s)
  unfolding round
  round-IsKept [] s b = absurd b
  round-IsKept (level ∷ up) s b =
      by_level (search_level load m (plain level) s) (search_level-IsAt (plain level) s)
    where
      by_level :
          (o : Outcome (Found × Level (Node L A X) × S))
          → IsAt (plain level) o
          → IsKept (elim o as (λ x. RefLevels L A X × Outcome (Turn ann load m)) [
            | ok r ↦ after_search ann load m level up r
            | failed e ↦ (level ∷ up, failed e)
            | panicked ↦ (level ∷ up, panicked)
            | exhausted ↦ (level ∷ up, exhausted)
          ])
      by_level (ok (found, lv, s')) e = after_search-IsKept level up found lv s' e b
      by_level (failed x) e = b.4
      by_level panicked e = b.4
      by_level exhausted e = b.4

  onward-IsKept :
      (search : RefLevels L A X → S → RefLevels L A X × Outcome (Bool × S))
      → ((levels : RefLevels L A X) (s : S) → IsBranch levels → IsKept (search levels s))
      → (o : RefLevels L A X × Outcome (Turn ann load m)) → IsKept o
      → IsKept (onward ann load m search o)
  unfolding onward
  onward-IsKept search later (levels, ok (halt exact s)) k = k
  onward-IsKept search later (levels, ok (again s)) k = later levels s k
  onward-IsKept search later (levels, failed e) k = k
  onward-IsKept search later (levels, panicked) k = k
  onward-IsKept search later (levels, exhausted) k = k

  -- A search on a branch leaves a branch into the same node, and leaves that node as it was.
  pub search_from-IsKept :
      (fuel : ℕ) (levels : RefLevels L A X) (s : S)
      → IsBranch levels
      → IsKept (search_from ann load m fuel levels s)
  unfolding search_from
  search_from-IsKept zero levels s b = IsBranch-IsRoot levels b
  search_from-IsKept (suc fuel) levels s b =
      onward-IsKept (search_from ann load m fuel) (λ levels' s'. search_from-IsKept fuel levels' s')
        (round ann load m levels s) (round-IsKept levels s b)

  pub new-IsBranch : IsRoot clean root → IsBranch (record { ofs = 0; node = mutable root } ∷ [])
  unfolding unlink
  new-IsBranch r = (tt, refl, tt, tt, r)
