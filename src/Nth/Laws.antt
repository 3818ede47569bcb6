-- ===== src/Nth/Laws.antt =====
-- `Nth` finds the child below which the leaf of a number lies.
use kelvin.Prelude.{
  ℕ, zero, suc, ◌+◌, ◌-◌, ◌<◌, ◌≡◌, refl, arith, some, Bool-cases, inl, inr, leb, ◌==◌,
}
use kelvin.Annotation.{Annotation}
use kelvin.Handle.{
  Handle, leaf_type, node_type, Handles, nil, cons, empty, leaf, node, persisted, get_handle,
  handle_type, handle_annotation,
}
use kelvin.Search.{SearchResult, leaf_at, path_at, no_result}
use kelvin.Nth.{nth_at, nth_from}

module _ {L A X : Type 0} (ann : Annotation L A) (borrow : A → ℕ) where
  -- How many leaves a handle stands for, by its annotation.
  abbrev pub weight : Handle L A X → ℕ
  weight empty = 0
  weight (leaf l) = 1
  weight (node n a c) = borrow a
  weight (persisted d a) = borrow a

  -- The leaves of the first `q` handles.
  abbrev pub weight_before : ℕ → Handles L A X → ℕ
  weight_before zero hs = 0
  weight_before (suc q) nil = 0
  weight_before (suc q) (cons h hs) = weight h + weight_before q hs

  abbrev pub total : Handles L A X → ℕ
  total nil = 0
  total (cons h hs) = weight h + total hs

  -- A leaf is the one of the number; a node has it, by the number that is left, among its own; and
  -- there is no result if all leaves come before it.
  abbrev pub IsNth : Handles L A X → ℕ → ℕ → SearchResult × ℕ → Type 0
  IsNth hs i n (leaf_at p, left) =
      (q : ℕ) × (p ≡ i + q)
      × (h : Handle L A X) × (get_handle hs q ≡ some h)
      × (handle_type h ≡ leaf_type)
      × (n ≡ weight_before q hs)
  IsNth hs i n (path_at p, left) =
      (q : ℕ) × (p ≡ i + q)
      × (h : Handle L A X) × (get_handle hs q ≡ some h)
      × (handle_type h ≡ node_type)
      × (n ≡ weight_before q hs + left)
      × (left < weight h)
  IsNth hs i n (no_result, left) = n ≡ total hs + left

  -- One more handle in front.
  later :
      (h : Handle L A X) (hs : Handles L A X) (i n m : ℕ) (r : SearchResult × ℕ)
      → n ≡ weight h + m
      → IsNth hs (suc i) m r
      → IsNth (cons h hs) i n r
  later h hs i n m (leaf_at p, left) e (q, at, h', g, t, w) =
      (suc q, omega (arith, at), h', g, t, omega (arith, e, w))
  later h hs i n m (path_at p, left) e (q, at, h', g, t, w, lt) =
      (suc q, omega (arith, at), h', g, t, omega (arith, e, w), lt)
  later h hs i n m (no_result, left) e w = omega (arith, e, w)

  reference :
      (h : Handle L A X) (a : A) (hs : Handles L A X) (i n : ℕ)
      → handle_type h ≡ node_type
      → weight h ≡ borrow a
      → ((m : ℕ) → IsNth hs (suc i) m (nth_from ann borrow hs (suc i) m))
      → IsNth
          (cons h hs)
          i
          n
          (nth_at borrow (nth_from ann borrow hs (suc i)) i n node_type (some a))
  unfolding nth_at
  reference h a hs i n t w rest = elim (Bool-cases (leb (borrow a) n)) [
    | inl past ↦
        rw past (later h hs i n (n - borrow a) _ (ground (arith, past, w)) (rest (n - borrow a)))
    | inr here ↦ rw here (0, omega arith, h, refl, t, omega arith, ground (arith, here, w))
  ]

  -- From child `i` on, for the number `n`: if `Nth` returns a leaf, exactly `n` leaves come before it;
  -- if it returns a node, `n` is the leaves before it and the number left, which is below the leaves of
  -- the node; and if it returns no result, all leaves are no more than `n`.
  pub nth_from-IsNth : (hs : Handles L A X) (i n : ℕ) → IsNth hs i n (nth_from ann borrow hs i n)
  unfolding nth_from handle_type handle_annotation
  nth_from-IsNth nil i n = omega arith
  nth_from-IsNth (cons empty hs) i n =
      later empty hs i n n _ (omega arith) (nth_from-IsNth hs (suc i) n)
  nth_from-IsNth (cons (leaf l) hs) i n = elim (Bool-cases (n == 0)) [
    | inl here ↦ rw here (0, omega arith, leaf l, refl, refl, ground (arith, here))
    | inr past ↦
        rw past (
          later (leaf l) hs i n (n - 1) _ (ground (arith, past))
            (nth_from-IsNth hs (suc i) (n - 1)))
  ]
  nth_from-IsNth (cons (node c a d) hs) i n =
      reference (node c a d) a hs i n refl refl (nth_from-IsNth hs (suc i))
  nth_from-IsNth (cons (persisted d a) hs) i n =
      reference (persisted d a) a hs i n refl refl (nth_from-IsNth hs (suc i))
