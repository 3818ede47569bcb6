-- ===== src/Iter/Firsts.antt =====
-- src/search.rs: what the method `First` selects, against the walk over the handles.
use kelvin.Prelude.{ℕ, zero, suc, ◌+◌, ◌≤◌, some, ◌≡◌, refl, arith}
use kelvin.Prelude.Outcome.{Outcome, ok}
use kelvin.Handle.{
  Digest, Handle, Handles, nil, cons, empty, leaf, node, persisted, Node, get_handle, handle_type,
  node_type, count_handles,
}
use kelvin.Search.{SearchResult, leaf_at, path_at, no_result}
use kelvin.Nth.{first_from, first_at, skip_handles}
use kelvin.Iter.Walk.{
  Walk, visit, ended, ◌then◌, walk_all, walk_handle, rounds_all, rounds_handle, drop_handles,
}

pub skip-drop :
    {L A X : Type 0} (i : ℕ) (hs : Handles L A X)
    → i ≤ count_handles hs
    → skip_handles i hs ≡ ok (drop_handles i hs)
unfolding skip_handles
skip-drop zero hs p = refl
skip-drop (suc i) nil p = absurd (omega (arith, p))
skip-drop (suc i) (cons h hs) p = skip-drop i hs (omega (arith, p))

module _ {L A X : Type 0} (load : Digest → Outcome (Node L A X)) (below : Handles L A X → Walk L)
    (inside : Handles L A X → ℕ) where
  -- What a selection from position `i` on says of the walk over the handles there.
  abbrev pub Sees : Handles L A X → ℕ → SearchResult → Type 0
  Sees hs i (leaf_at j) =
      (q : ℕ) × (l : L) × (j ≡ i + q)
      × (get_handle hs q ≡ some (leaf l))
      × (walk_all load below hs ≡ visit l (walk_all load below (drop_handles (suc q) hs)))
      × (rounds_all load inside hs ≡ rounds_all load inside (drop_handles (suc q) hs))
  Sees hs i (path_at j) =
      (q : ℕ) × (h : Handle L A X) × (j ≡ i + q)
      × (get_handle hs q ≡ some h)
      × (handle_type h ≡ node_type)
      × (walk_all load below hs
          ≡ (walk_handle load below h then walk_all load below (drop_handles (suc q) hs)))
      × (rounds_all load inside hs
          ≡ rounds_handle load inside h + rounds_all load inside (drop_handles (suc q) hs))
  Sees hs i no_result = walk_all load below hs ≡ ended (ok tt)

  -- An empty handle is passed over.
  later :
      (hs : Handles L A X) (i : ℕ) (r : SearchResult) → Sees hs (suc i) r → Sees (cons empty hs) i r
  later hs i (leaf_at j) (q, l, e, g, w, n) = (suc q, l, omega (arith, e), g, w, omega (arith, n))
  later hs i (path_at j) (q, h, e, g, ty, w, n) =
      (suc q, h, omega (arith, e), g, ty, w, omega (arith, n))
  later hs i no_result w = w

  -- `First` finds the first leaf or node, with nothing before it.
  pub first_from-Sees : (hs : Handles L A X) (i : ℕ) → Sees hs i (first_from hs i)
  unfolding first_from first_at handle_type
  first_from-Sees nil i = refl
  first_from-Sees (cons empty hs) i =
      later hs i (first_from hs (suc i)) (first_from-Sees hs (suc i))
  first_from-Sees (cons (leaf l) hs) i = (0, l, omega arith, refl, refl, omega arith)
  first_from-Sees (cons (node n a c) hs) i = (0, node n a c, omega arith, refl, refl, refl, refl)
  first_from-Sees (cons (persisted d a) hs) i =
      (0, persisted d a, omega arith, refl, refl, refl, refl)
