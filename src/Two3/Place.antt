-- ===== src/Two3/Place.antt =====
-- A handle put into a node, which splits when it is full.
use kelvin.Prelude.{
  ℕ, zero, suc, ◌<◌, ◌≤◌, ◌+◌, ◌-◌, none, some, false, ltb, ltb→lt, tests, List, [], ◌++◌, ◌≡◌,
  refl, sym, ap, ◌∙◌, subst, append_assoc, append-nil, ◌⊎◌, inl, inr, Bool-cases, arith,
}
use kelvin.Prelude.Outcome.{Outcome, ok, failed, panicked, exhausted}
use kelvin.Handle.{Handle, Handles, compound, nil, cons, children, count_handles}
use kelvin.Two3.{
  Two3, Slot, Slots, Two3Tree, InsertResult, inserted, replaced, split, split_low, split_high,
  split_handles, new_root, finish_root, finish_split, split_node, finish_insert, place,
}
use kelvin.Two3.Entries.{lookup, put, IsSorted, IsSorted-append}
use kelvin.Two3.Update.{put-IsSorted}
use kelvin.Two3.Invariant.{IsUsable, insert_handle, Reads, IsHandle, IsNode}
use kelvin.Two3.Greatest.{new_node-IsHandle}

module _ {L A X : Type 0} where
  pub count_handles-insert :
      (hs : Handles L A X) (i : ℕ) (h : Handle L A X)
      → count_handles (insert_handle hs i h) ≡ suc (count_handles hs)
  count_handles-insert nil i h = refl
  count_handles-insert (cons g hs) zero h = refl
  count_handles-insert (cons g hs) (suc i) h = ap suc (count_handles-insert hs i h)

  -- The first two handles, and those after them.
  abbrev pub first_two : Handles L A X → Handles L A X
  first_two (cons a (cons b hs)) = cons a (cons b nil)
  first_two hs = hs

  abbrev pub after_two : Handles L A X → Handles L A X
  after_two (cons a (cons b hs)) = hs
  after_two hs = nil

  first_two-count : (hs : Handles L A X) → 1 < count_handles hs → count_handles (first_two hs) ≡ 2
  first_two-count nil p = absurd (omega (arith, p))
  first_two-count (cons a nil) p = absurd (omega (arith, p))
  first_two-count (cons a (cons b hs)) p = refl

  after_two-count : (hs : Handles L A X) → count_handles hs ≡ 4 → count_handles (after_two hs) ≡ 2
  after_two-count nil p = absurd (omega (arith, p))
  after_two-count (cons a nil) p = absurd (omega (arith, p))
  after_two-count (cons a (cons b hs)) p = omega (arith, p)

  -- A list of three handles, if it has three.
  pub three :
      (hs : Handles L A X)
      → count_handles hs ≡ 3
      → (a b c : Handle L A X) × (hs ≡ cons a (cons b (cons c nil)))
  three nil e = absurd (cc)
  three (cons a nil) e = absurd (omega (arith, e))
  three (cons a (cons b nil)) e = absurd (omega (arith, e))
  three (cons a (cons b (cons c nil))) e = (a, b, c, refl)
  three (cons a (cons b (cons c (cons d hs)))) e = absurd (omega (arith, e))

module _ {K V A : Type 0} (t : Two3 K V A) (u : IsUsable t) where
  low_halves :
      (a b c h : Slot K V A) (i : ℕ)
      → i < 2
      → split_low t (cons a (cons b nil)) i h c
        ≡ ok (insert_handle (cons a nil) i h, cons b (cons c nil))
  unfolding split_low
  low_halves a b c h i p =
      rw
        (
          split_low,
          u.vec.pop_lem (cons a nil) b,
          u.vec.push_lem nil b (omega arith),
          u.vec.push_lem (cons b nil) c (omega arith),
          u.vec.insert_lem (cons a nil) i h (omega (arith, p)) (omega arith),
        )
        refl

  high_halves :
      (a b c h : Slot K V A) (i : ℕ)
      → i < 2
      → split_high t (cons a (cons b nil)) (2 + i) h c
        ≡ ok (cons a (cons b nil), insert_handle (cons c nil) i h)
  unfolding split_high
  high_halves a b c h i p =
      let z : (2 + i) - 2 ≡ i = omega arith in
      rw
        (
          split_high,
          u.vec.push_lem nil c (omega arith),
          z,
          u.vec.insert_lem (cons c nil) i h (omega (arith, p)) (omega arith),
        )
        refl

  -- A full node splits into the first two and the last two of its handles with the new one.
  split_handles-halves :
      (a b c h : Slot K V A) (i : ℕ)
      → i < 4
      → split_handles t (cons a (cons b (cons c nil))) i h
        ≡ ok (
          first_two (insert_handle (cons a (cons b (cons c nil))) i h),
          after_two (insert_handle (cons a (cons b (cons c nil))) i h),
        )
  unfolding split_handles
  split_handles-halves a b c h zero p =
      rw (split_handles, u.vec.pop_lem (cons a (cons b nil)) c) (low_halves a b c h 0 (omega arith))
  split_handles-halves a b c h (suc zero) p =
      rw (split_handles, u.vec.pop_lem (cons a (cons b nil)) c) (low_halves a b c h 1 (omega arith))
  split_handles-halves a b c h (suc (suc zero)) p =
      rw (split_handles, u.vec.pop_lem (cons a (cons b nil)) c)
        (high_halves a b c h 0 (omega arith))
  split_handles-halves a b c h (suc (suc (suc zero))) p =
      rw (split_handles, u.vec.pop_lem (cons a (cons b nil)) c)
        (high_halves a b c h 1 (omega arith))
  split_handles-halves a b c h (suc (suc (suc (suc i)))) p = absurd (omega (arith, p))

  -- A node with the entries, of `lo` to three handles.
  abbrev pub Holds : ℕ → ℕ → Two3Tree K V A → List (K × V) → Type 0
  Holds lo ht n kvs =
      IsNode t ht n kvs × (lo ≤ count_handles (children n)) × (count_handles (children n) < 4)

  -- What an insertion into a node with entries `kvs` leaves and returns. The split of a root makes the
  -- tree higher, that of another node leaves the rest of the entries for the node above.
  abbrev pub IsInserted :
      ℕ → ℕ → ℕ → K → V → List (K × V) → Two3Tree K V A → Outcome (InsertResult K V A) → Type 0
  IsInserted depth lo ht k v kvs n (ok inserted) =
      (lookup t.eq t.lt k kvs ≡ none)
      × (Holds lo ht n (put t.eq t.lt k v kvs)
          ⊎ ((depth ≡ 0) × Holds 2 (suc ht) n (put t.eq t.lt k v kvs)))
  IsInserted depth lo ht k v kvs n (ok (replaced (j, w))) =
      (lookup t.eq t.lt k kvs ≡ some w) × Holds lo ht n (put t.eq t.lt k v kvs)
  IsInserted depth lo ht k v kvs n (ok (split h)) =
      (depth ≡ 0 → ⊥)
      × (lookup t.eq t.lt k kvs ≡ none)
      × (xs ys : List (K × V)) × (put t.eq t.lt k v kvs ≡ xs ++ ys)
      × Holds lo ht n xs
      × IsHandle t (suc ht) h ys
  IsInserted depth lo ht k v kvs n (failed e) = ⊥
  IsInserted depth lo ht k v kvs n panicked = ⊥
  IsInserted depth lo ht k v kvs n exhausted = ⊥

  Reads-halves :
      (P : Slot K V A → List (K × V) → Type 0) (hs : Slots K V A) (kvs : List (K × V))
      → Reads P hs kvs
      → 1 < count_handles hs
      → (xs ys : List (K × V)) × (kvs ≡ xs ++ ys)
        × Reads P (first_two hs) xs
        × Reads P (after_two hs) ys
  Reads-halves P nil kvs r p = absurd (omega (arith, p))
  Reads-halves P (cons a nil) kvs r p = absurd (omega (arith, p))
  Reads-halves P (cons a (cons b hs)) kvs (x, ys, e, pa, (y, zs, e', pb, r)) p = (
    x ++ y,
    zs,
    rw (e, e') (sym (append_assoc x y zs)),
    (x, y, refl, pa, (y, [], sym (append-nil y), pb, refl)),
    r,
  )

  module _ (depth lo ht : ℕ) (k : K) (v : V) (kvs : List (K × V)) where
    finish_split-IsInserted :
        (hs : Slots K V A) (g : Slot K V A) (xs ys : List (K × V))
        → lo ≤ 2
        → lookup t.eq t.lt k kvs ≡ none
        → put t.eq t.lt k v kvs ≡ xs ++ ys
        → IsSorted t.lt xs
        → Reads (IsHandle t ht) hs xs
        → count_handles hs ≡ 2
        → IsHandle t (suc ht) g ys
        → IsInserted depth lo ht k v kvs
            (finish_split t depth (compound tt hs) (ok g)).0
            (finish_split t depth (compound tt hs) (ok g)).1
    unfolding finish_split finish_root new_root
    finish_split-IsInserted hs g xs ys low missing e sx r c pg = by_depth depth
      where
        by_depth :
            (d : ℕ)
            → IsInserted d lo ht k v kvs
                (finish_split t d (compound tt hs) (ok g)).0
                (finish_split t d (compound tt hs) (ok g)).1
        by_depth zero =
            let (f, ef, pf) =
              new_node-IsHandle t u ht hs xs r sx (omega (arith, c)) (omega (arith, c)) in
            rw
              (
                finish_split,
                new_root,
                ef,
                u.vec.push_lem nil f (omega arith),
                u.vec.push_lem (cons f nil) g (omega arith),
              )
              (
                missing,
                inr (
                  refl,
                  (
                    (xs, ys, e, pf, (ys, [], sym (append-nil ys), pg, refl)),
                    omega arith,
                    omega arith,
                  ),
                ),
              )
        by_depth (suc d) =
            (λ z. absurd (cc), missing, xs, ys, e, (r, omega (arith, c, low), omega (arith, c)), pg)

    split_node-IsInserted :
        (n : Two3Tree K V A) (hs gs : Slots K V A) (xs ys : List (K × V))
        → lo ≤ 2
        → lookup t.eq t.lt k kvs ≡ none
        → IsSorted t.lt (put t.eq t.lt k v kvs)
        → put t.eq t.lt k v kvs ≡ xs ++ ys
        → Reads (IsHandle t ht) hs xs
        → Reads (IsHandle t ht) gs ys
        → count_handles hs ≡ 2
        → count_handles gs ≡ 2
        → IsInserted depth lo ht k v kvs
            (split_node t depth n (ok (hs, gs))).0
            (split_node t depth n (ok (hs, gs))).1
    unfolding split_node
    split_node-IsInserted n hs gs xs ys low missing s e r r' c c' =
        let (sx, sy, _) = IsSorted-append t.lt xs ys (subst (λ l. IsSorted t.lt l) e s) in
        let (g, eg, pg) =
          new_node-IsHandle t u ht gs ys r' sy (omega (arith, c')) (omega (arith, c')) in
        rw (split_node, eg) (finish_split-IsInserted hs g xs ys low missing e sx r c pg)

    -- A handle put where it belongs is an insertion.
    pub place-IsInserted :
        (hs : Slots K V A) (i : ℕ) (h : Slot K V A)
        → lo ≤ 2
        → lo ≤ count_handles hs
        → count_handles hs < 4
        → i ≤ count_handles hs
        → lookup t.eq t.lt k kvs ≡ none
        → IsSorted t.lt kvs
        → Reads (IsHandle t ht) (insert_handle hs i h) (put t.eq t.lt k v kvs)
        → IsInserted depth lo ht k v kvs
            (place t depth (compound tt hs) i h).0
            (place t depth (compound tt hs) i h).1
    unfolding place finish_insert
    place-IsInserted hs i h low many few at missing s r =
        let more : count_handles (insert_handle hs i h) ≡ suc (count_handles hs) =
          count_handles-insert hs i h in
        elim (Bool-cases (ltb (count_handles hs) 3)) [
          | inl room ↦
              let room' : count_handles hs < 3 = ltb→lt (count_handles hs) 3 room in
              rw (place, room, u.vec.insert_lem hs i h at room')
                (missing, inl (r, omega (arith, more, many), omega (arith, more, room')))
          | inr full ↦ full_lem full
        ]
      where
        full_lem :
            ltb (count_handles hs) 3 ≡ false
            → IsInserted depth lo ht k v kvs
                (place t depth (compound tt hs) i h).0
                (place t depth (compound tt hs) i h).1
        full_lem full =
            let full' : ltb (count_handles hs) 3 ≡ false = full in
            let size : count_handles hs ≡ 3 = grind (arith, tests) in
            let (a, b, c, e) = three hs size in
            let gs = insert_handle hs i h in
            let four : count_handles gs ≡ 4 = count_handles-insert hs i h ∙ ap suc size in
            let (xs, ys, e', r₁, r₂) =
              Reads-halves (IsHandle t ht) gs (put t.eq t.lt k v kvs) r (omega (arith, four)) in
            let halves : split_handles t hs i h ≡ ok (first_two gs, after_two gs) =
              subst
                (λ z.
                  split_handles t z i h
                  ≡ ok (first_two (insert_handle z i h), after_two (insert_handle z i h)))
                (sym e) (split_handles-halves a b c h i (omega (arith, at, size))) in
            rw (place, full, halves)
              (split_node-IsInserted (compound tt hs) (first_two gs) (after_two gs) xs ys low
                missing (put-IsSorted t.eq t.lt u.order k v kvs s) e' r₁ r₂
                (first_two-count gs (omega (arith, four))) (after_two-count gs four))
