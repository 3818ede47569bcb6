-- ===== src/Two3/Merges.antt =====
-- Two neighbours, one of them with a single handle, share their handles.
use kelvin.Prelude.{
  ℕ, zero, suc, ◌<◌, some, List, [], ◌++◌, ◌≡◌, refl, sym, ap, ◌∙◌, append_assoc, append-nil, arith,
  ◌⊎◌, inl, inr,
}
use kelvin.Prelude.Outcome.{ok}
use kelvin.Handle.{Handle, Handles, nil, cons, get_handle, set_handle, count_handles}
use kelvin.Two3.{Two3, Slot, Slots}
use kelvin.Two3.Removal.{merge_prev, merge_next}
use kelvin.Two3.Invariant.{IsUsable, Reads, Around, Reads-append, remove_handle}

module _ {L A X E : Type 0} (P : Handle L A X → List E → Type 0) where
  -- The handles before positions `i` and `i + 1` stand for `xs`, those after them for `zs`.
  abbrev pub AroundTwo : Handles L A X → ℕ → List E → List E → Type 0
  AroundTwo nil i xs zs = ⊥
  AroundTwo (cons h nil) zero xs zs = ⊥
  AroundTwo (cons g (cons h hs)) zero xs zs = (xs ≡ []) × Reads P hs zs
  AroundTwo (cons h hs) (suc i) xs zs =
      (x xs' : List E) × (xs ≡ x ++ xs') × P h x × AroundTwo hs i xs' zs

  -- A handle with the one before it.
  pub Around-prev :
      (hs : Handles L A X) (i : ℕ) (xs zs : List E)
      → Around P hs (suc i) xs zs
      → (m : Handle L A X) × (ws ms : List E) × (xs ≡ ws ++ ms)
        × (get_handle hs i ≡ some m)
        × P m ms
        × AroundTwo hs i ws zs
  Around-prev nil i xs zs w = absurd w
  Around-prev (cons g nil) zero xs zs (x, xs', e, p, w) = absurd w
  Around-prev (cons g (cons h hs)) zero xs zs (x, xs', e, p, (e', r)) =
      (g, [], x, rw (e, e') (append-nil x), refl, p, (refl, r))
  Around-prev (cons g hs) (suc i) xs zs (x, xs', e, p, w) =
      let (m, ws, ms, e', here, q, w') = Around-prev hs i xs' zs w in
      (m, x ++ ws, ms, rw (e, e') (sym (append_assoc x ws ms)), here, q, (x, ws, refl, p, w'))

  -- The first handle with the one after it.
  pub Around-next :
      (hs : Handles L A X) (xs zs : List E)
      → Around P hs 0 xs zs
      → 1 < count_handles hs
      → (m : Handle L A X) × (ms ws : List E) × (zs ≡ ms ++ ws)
        × (get_handle hs 1 ≡ some m)
        × P m ms
        × AroundTwo hs 0 xs ws
  Around-next nil xs zs w c = absurd w
  Around-next (cons g nil) xs zs w c = absurd (omega (arith, c))
  Around-next (cons g (cons h hs)) xs zs (e, (x, ys, e', p, r)) c = (h, x, ys, e', refl, p, (e, r))

  pub AroundTwo-left :
      (hs : Handles L A X) (i : ℕ) (v : Handle L A X) (xs zs : List E)
      → AroundTwo hs i xs zs
      → AroundTwo (set_handle hs i v) i xs zs
  AroundTwo-left nil i v xs zs w = w
  AroundTwo-left (cons h nil) zero v xs zs w = w
  AroundTwo-left (cons g (cons h hs)) zero v xs zs w = w
  AroundTwo-left (cons h hs) (suc i) v xs zs (x, xs', e, p, w) =
      (x, xs', e, p, AroundTwo-left hs i v xs' zs w)

  pub AroundTwo-right :
      (hs : Handles L A X) (i : ℕ) (v : Handle L A X) (xs zs : List E)
      → AroundTwo hs i xs zs
      → AroundTwo (set_handle hs (suc i) v) i xs zs
  AroundTwo-right nil i v xs zs w = w
  AroundTwo-right (cons h nil) zero v xs zs w = w
  AroundTwo-right (cons g (cons h hs)) zero v xs zs w = w
  AroundTwo-right (cons h hs) (suc i) v xs zs (x, xs', e, p, w) =
      (x, xs', e, p, AroundTwo-right hs i v xs' zs w)

  module _ (g h : Handle L A X) (ps qs : List E) where
    pub Reads-set_two :
        (hs : Handles L A X) (i : ℕ) (xs zs : List E)
        → AroundTwo hs i xs zs
        → P g ps
        → P h qs
        → Reads P (set_handle (set_handle hs i g) (suc i) h) (xs ++ (ps ++ (qs ++ zs)))
    Reads-set_two nil i xs zs w p q = absurd w
    Reads-set_two (cons a nil) zero xs zs w p q = absurd w
    Reads-set_two (cons a (cons b hs)) zero xs zs (e, r) p q =
        (ps, qs ++ zs, rw e refl, p, (qs, zs, refl, q, r))
    Reads-set_two (cons a hs) (suc i) xs zs (x, xs', e, px, w) p q = (
      x,
      xs' ++ (ps ++ (qs ++ zs)),
      rw e (append_assoc x xs' (ps ++ (qs ++ zs))),
      px,
      Reads-set_two hs i xs' zs w p q,
    )

  pub Reads-keep_left :
      (g : Handle L A X) (ps : List E) (hs : Handles L A X) (i : ℕ) (xs zs : List E)
      → AroundTwo hs i xs zs
      → P g ps
      → Reads P (remove_handle (set_handle hs i g) (suc i)) (xs ++ (ps ++ zs))
  Reads-keep_left g ps nil i xs zs w p = absurd w
  Reads-keep_left g ps (cons a nil) zero xs zs w p = absurd w
  Reads-keep_left g ps (cons a (cons b hs)) zero xs zs (e, r) p = (ps, zs, rw e refl, p, r)
  Reads-keep_left g ps (cons a hs) (suc i) xs zs (x, xs', e, px, w) p = (
    x,
    xs' ++ (ps ++ zs),
    rw e (append_assoc x xs' (ps ++ zs)),
    px,
    Reads-keep_left g ps hs i xs' zs w p,
  )

module _ {K V A : Type 0} (t : Two3 K V A) (u : IsUsable t)
    (P : Slot K V A → List (K × V) → Type 0) where
  -- What neighbours come to: one takes all and the other nothing, or both have two.
  abbrev pub IsShared : Slots K V A → Slots K V A → Slots K V A → List (K × V) → Type 0
  IsShared to_merge left right kvs =
      (xs ys : List (K × V)) × (kvs ≡ xs ++ ys)
      × Reads P left xs
      × Reads P right ys
      × (count_handles left ≡ 2)
      × (count_handles right ≡ 2)

  abbrev pub IsTaken : Slots K V A → Slots K V A → List (K × V) → Type 0
  IsTaken to_merge neighbour kvs =
      (to_merge ≡ nil) × Reads P neighbour kvs × (count_handles neighbour ≡ 3)

  two : (hs : Slots K V A) → count_handles hs ≡ 2 → (a b : Slot K V A) × (hs ≡ cons a (cons b nil))
  two nil e = absurd (omega (arith, e))
  two (cons a nil) e = absurd (omega (arith, e))
  two (cons a (cons b nil)) e = (a, b, refl)
  two (cons a (cons b (cons c hs))) e = absurd (omega (arith, e))

  pub merge_prev-shares :
      (h : Slot K V A) (prev : Slots K V A) (ms ys : List (K × V))
      → Reads P prev ms
      → Reads P (cons h nil) ys
      → 1 < count_handles prev
      → count_handles prev < 4
      → (to_merge prev' : Slots K V A) × (merge_prev t (cons h nil) prev ≡ ok (to_merge, prev'))
        × (IsTaken to_merge prev' (ms ++ ys) ⊎ IsShared to_merge prev' to_merge (ms ++ ys))
  unfolding merge_prev
  merge_prev-shares h nil ms ys r s c d = absurd (omega (arith, c))
  merge_prev-shares h (cons a nil) ms ys r s c d = absurd (omega (arith, c))
  merge_prev-shares h (cons a (cons b nil)) ms ys r (y, e, ey, p, en) c d =
      let z : ys ≡ y = rw (ey, en) (append-nil y) in
      (
        nil,
        cons a (cons b (cons h nil)),
        rw (merge_prev, u.vec.pop_lem nil h, u.vec.push_lem (cons a (cons b nil)) h (omega arith))
            refl,
        inl (refl, rw z (Reads-append P (cons a (cons b nil)) h ms y r p), refl),
      )
  merge_prev-shares h (cons a (cons b (cons f nil))) ms ys
        (x₁, r₁, e₁, p₁, (x₂, r₂, e₂, p₂, (x₃, r₃, e₃, p₃, e₄))) s c d =
      (
        cons f (cons h nil),
        cons a (cons b nil),
        rw
            (
              merge_prev,
              u.vec.pop_lem (cons a (cons b nil)) f,
              u.vec.insert_lem (cons h nil) 0 f (omega arith) (omega arith),
            )
            refl,
        inr (
          x₁ ++ x₂,
          x₃ ++ ys,
          rw (e₁, e₂, e₃, e₄, append-nil x₃)
              (append_assoc x₁ (x₂ ++ x₃) ys
                ∙ ap (λ l. x₁ ++ l) (append_assoc x₂ x₃ ys)
                ∙ sym (append_assoc x₁ x₂ (x₃ ++ ys))),
          (x₁, x₂, refl, p₁, (x₂, [], sym (append-nil x₂), p₂, refl)),
          (x₃, ys, refl, p₃, s),
          refl,
          refl,
        ),
      )
  merge_prev-shares h (cons a (cons b (cons f (cons g hs)))) ms ys r s c d =
      absurd (omega (arith, d))

  pub merge_next-shares :
      (h : Slot K V A) (next : Slots K V A) (ys ms : List (K × V))
      → Reads P (cons h nil) ys
      → Reads P next ms
      → 1 < count_handles next
      → count_handles next < 4
      → (to_merge next' : Slots K V A) × (merge_next t (cons h nil) next ≡ ok (to_merge, next'))
        × (IsTaken to_merge next' (ys ++ ms) ⊎ IsShared to_merge to_merge next' (ys ++ ms))
  unfolding merge_next
  merge_next-shares h nil ys ms s r c d = absurd (omega (arith, c))
  merge_next-shares h (cons a nil) ys ms s r c d = absurd (omega (arith, c))
  merge_next-shares h (cons a (cons b nil)) ys ms (y, e, ey, p, en) r c d = (
    nil,
    cons h (cons a (cons b nil)),
    rw
        (
          merge_next,
          u.vec.pop_lem nil h,
          u.vec.insert_lem (cons a (cons b nil)) 0 h (omega arith) (omega arith),
        )
        refl,
    inl (refl, (y, ms, rw (ey, en, append-nil y) refl, p, r), refl),
  )
  merge_next-shares h (cons a (cons b (cons f nil))) ys ms s (x₁, r₁, e₁, p₁, r) c d = (
    cons h (cons a nil),
    cons b (cons f nil),
    rw
        (
          merge_next,
          u.vec.remove_lem (cons a (cons b (cons f nil))) 0 a refl,
          u.vec.push_lem (cons h nil) a (omega arith),
        )
        refl,
    inr (
      ys ++ x₁,
      r₁,
      rw e₁ (sym (append_assoc ys x₁ r₁)),
      Reads-append P (cons h nil) a ys x₁ s p₁,
      r,
      refl,
      refl,
    ),
  )
  merge_next-shares h (cons a (cons b (cons f (cons g hs)))) ys ms s r c d =
      absurd (omega (arith, d))
