-- ===== src/Branch/Plain.antt =====
-- A search on a mutable branch through which nothing has been written is the search on an immutable one.
use kelvin.Prelude.{ℕ, zero, suc, [], ◌∷◌, ◌≡◌, refl, ap, ◌∙◌, sym, Bool, true, false}
use kelvin.Prelude.Outcome.{Outcome, ok, failed, panicked, exhausted, ◌>>=◌}
use kelvin.Annotation.{Annotation}
use kelvin.Annotation.Laws.{IsAnnotation}
use kelvin.Handle.{Digest, Node, HandleRef, none_ref, leaf_ref, node_ref}
use kelvin.Search
use kelvin.Search.{
  Method, Level, Found, found_leaf, found_path, found_none, RawBranch, search_level, referencing,
  Round, stop, go_on, after_path,
}
use kelvin.Branch.{
  NodeRef, cached, mutable, owned, RefLevel, deref, plain, pop_level, Turn, halt, again, pushed,
  popped, after_search, round, onward, search_from,
}
use kelvin.Branch.Unlinks.{RefLevels, plains}
use kelvin.Branch.Finds.{IsBranch, IsKept, IsAt, search_level-IsAt, round-IsKept}

module _ {L A X S : Type 0} (ann : Annotation L A) (load : Digest → Outcome (Node L A X))
    (m : Method (Node L A X) S) (law : IsAnnotation ann) (root : Node L A X) where
  -- What a round, and a search, comes to on the immutable branch.
  abbrev pub plain_round : RefLevels L A X × Outcome (Turn ann load m) → Outcome (Round load m)
  plain_round (levels, ok (halt exact s)) = ok (stop (plains levels) exact s)
  plain_round (levels, ok (again s)) = ok (go_on (plains levels) s)
  plain_round (levels, failed e) = failed e
  plain_round (levels, panicked) = panicked
  plain_round (levels, exhausted) = exhausted

  abbrev pub plain_search :
      RefLevels L A X × Outcome (Bool × S) → Outcome (RawBranch (Node L A X) × S)
  plain_search (levels, ok (exact, s)) = ok (record { levels = plains levels; exact = exact }, s)
  plain_search (levels, failed e) = failed e
  plain_search (levels, panicked) = panicked
  plain_search (levels, exhausted) = exhausted

  pub pushed-plain :
      (levels : RefLevels L A X) (s : S) (o : Outcome (HandleRef L A X))
      → (o >>= λ r. ok (after_path load m (plains levels) s r))
        ≡ plain_round (pushed ann load m levels s o)
  unfolding after_path pushed
  pushed-plain levels s (ok (node_ref n)) = refl
  pushed-plain levels s (ok none_ref) = refl
  pushed-plain levels s (ok (leaf_ref l)) = refl
  pushed-plain levels s (failed e) = refl
  pushed-plain levels s panicked = refl
  pushed-plain levels s exhausted = refl

  popped-plain :
      (ref : NodeRef (Node L A X)) (i : ℕ) (last : RefLevel (Node L A X)) (up : RefLevels L A X)
      (s : S)
      → IsBranch ann load m law true root (record { ofs = i; node = ref } ∷ last ∷ up)
      → ok (go_on (Search.advance load m (plains (last ∷ up))) s)
        ≡ plain_round
            (popped ann load m s (pop_level ann (record { ofs = i; node = ref } ∷ last ∷ up)))
  unfolding popped pop_level Search.advance
  popped-plain (cached n) i last up s b = refl
  popped-plain (mutable n) i last up s b = absurd b.0
  popped-plain (owned n) i last up s b = absurd b.2

  after_search-plain :
      (level : RefLevel (Node L A X)) (up : RefLevels L A X) (found : Found)
      (lv : Level (Node L A X)) (s : S)
      → record { ofs = lv.ofs; at = deref level.node } ≡ lv
      → IsBranch ann load m law true root (level ∷ up)
      → Search.after_search load m (plains up) (found, lv, s)
        ≡ plain_round (after_search ann load m level up (found, lv, s))
  unfolding Search.after_search after_search
  after_search-plain level up found_leaf lv s e b =
      ap (λ l. ok (stop (l ∷ plains up) true s)) (sym e)
  after_search-plain level up found_path lv s e b =
      ap (λ l. referencing load m lv >>= λ r. ok (after_path load m (l ∷ plains up) s r)) (sym e)
      ∙ pushed-plain (record level { ofs = lv.ofs } ∷ up) s (referencing load m lv)
  after_search-plain level [] found_none lv s e b = ap (λ l. ok (stop (l ∷ []) false s)) (sym e)
  after_search-plain level (last ∷ up) found_none lv s e b =
      popped-plain level.node lv.ofs last up s b

  round-plain :
      (levels : RefLevels L A X) (s : S)
      → IsBranch ann load m law true root levels
      → Search.round load m (plains levels) s ≡ plain_round (round ann load m levels s)
  unfolding Search.round round
  round-plain [] s b = absurd b
  round-plain (level ∷ up) s b =
      by_level (search_level load m (plain level) s)
        (search_level-IsAt ann load m law true root (plain level) s)
    where
      by_level :
          (o : Outcome (Found × Level (Node L A X) × S))
          → IsAt ann load m law true root (plain level) o
          → (o >>= Search.after_search load m (plains up))
            ≡ plain_round (elim o as (λ x. RefLevels L A X × Outcome (Turn ann load m)) [
              | ok r ↦ after_search ann load m level up r
              | failed e ↦ (level ∷ up, failed e)
              | panicked ↦ (level ∷ up, panicked)
              | exhausted ↦ (level ∷ up, exhausted)
            ])
      by_level (ok (found, lv, s')) e =
          after_search-plain level up found lv s'
            (ap (λ n. record { ofs = lv.ofs; at = n }) (sym e)) b
      by_level (failed x) e = refl
      by_level panicked e = refl
      by_level exhausted e = refl

  onward-plain :
      (fuel : ℕ) (o : RefLevels L A X × Outcome (Turn ann load m))
      → IsKept ann load m law true root o
      → ((levels : RefLevels L A X) (s : S)
          → IsBranch ann load m law true root levels
          → Search.search_from load m fuel (plains levels) s
            ≡ plain_search (search_from ann load m fuel levels s))
      → (plain_round o >>= λ r. elim r [
        | stop levels' exact s' ↦ ok (record { levels = levels'; exact = exact }, s')
        | go_on levels' s' ↦ Search.search_from load m fuel levels' s'
      ])
        ≡ plain_search (onward ann load m (search_from ann load m fuel) o)
  unfolding onward
  onward-plain fuel (levels, ok (halt exact s)) k later = refl
  onward-plain fuel (levels, ok (again s)) k later = later levels s k
  onward-plain fuel (levels, failed e) k later = refl
  onward-plain fuel (levels, panicked) k later = refl
  onward-plain fuel (levels, exhausted) k later = refl

  pub search_from-plain :
      (fuel : ℕ) (levels : RefLevels L A X) (s : S)
      → IsBranch ann load m law true root levels
      → Search.search_from load m fuel (plains levels) s
        ≡ plain_search (search_from ann load m fuel levels s)
  unfolding Search.search_from search_from
  search_from-plain zero levels s b = refl
  search_from-plain (suc fuel) levels s b =
      ap
        (λ o. o >>= λ r. elim r [
          | stop levels' exact s' ↦ ok (record { levels = levels'; exact = exact }, s')
          | go_on levels' s' ↦ Search.search_from load m fuel levels' s'
        ])
        (round-plain levels s b)
      ∙ onward-plain fuel (round ann load m levels s)
          (round-IsKept ann load m law true root levels s b)
          (λ levels' s' b'. search_from-plain fuel levels' s' b')
