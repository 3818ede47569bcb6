-- ===== src/Two3/Invariant.antt =====
-- The well-formed 2-3 trees: what they rely on, and what they stand for.
use mathlib.Core.List.{map}
use kelvin.Prelude.{
  ℕ, zero, suc, ◌<◌, ◌≤◌, some, Bool, true, List, [], ◌∷◌, ◌++◌, ◌≡◌, refl, sym, ap, ◌∙◌,
  append_assoc, append-nil, subst,
}
use kelvin.Prelude.Outcome.{ok}
use kelvin.Handle.{
  Handle, Handles, nil, cons, leaf, children, get_handle, set_handle, count_handles,
  handle_annotation, inner, node_ref,
}
use kelvin.Two3.{Two3, ArrayVec, Slot, Two3Tree}
use kelvin.Two3.Entries.{IsOrder, IsLast}

-- Handles with one more, or one less.
module _ {L A X : Type 0} where
  abbrev pub insert_handle : Handles L A X → ℕ → Handle L A X → Handles L A X
  insert_handle nil i h = cons h nil
  insert_handle (cons g hs) zero h = cons h (cons g hs)
  insert_handle (cons g hs) (suc i) h = cons g (insert_handle hs i h)

  abbrev pub append_handle : Handles L A X → Handle L A X → Handles L A X
  append_handle nil h = cons h nil
  append_handle (cons g hs) h = cons g (append_handle hs h)

  abbrev pub remove_handle : Handles L A X → ℕ → Handles L A X
  remove_handle nil i = nil
  remove_handle (cons g hs) zero = hs
  remove_handle (cons g hs) (suc i) = cons g (remove_handle hs i)

  -- `ArrayVec` of capacity three, as its documentation has it.
  pub record IsVec (vec : ArrayVec (Handle L A X) (Handles L A X)) : Type 0 where
    pub insert_lem :
        (hs : Handles L A X) (i : ℕ) (h : Handle L A X)
        → i ≤ count_handles hs
        → count_handles hs < 3
        → vec.insert hs i h ≡ ok (insert_handle hs i h)
    pub push_lem :
        (hs : Handles L A X) (h : Handle L A X)
        → count_handles hs < 3
        → vec.push hs h ≡ ok (append_handle hs h)
    pub pop_lem :
        (hs : Handles L A X) (h : Handle L A X) → vec.pop (append_handle hs h) ≡ some (h, hs)
    pub remove_lem :
        (hs : Handles L A X) (i : ℕ) (h : Handle L A X)
        → get_handle hs i ≡ some h
        → vec.remove hs i ≡ ok (h, remove_handle hs i)

abbrev pub AllLess : {K A : Type 0} → (K → K → Bool) → (A → K) → List A → A → Type 0
AllLess lt key [] b = Unit
AllLess lt key (a ∷ rest) b = (lt (key a) (key b) ≡ true) × AllLess lt key rest b

-- What the tree relies on of its parameters. The annotation of children in the order of their keys has
-- the key of the last.
pub record IsUsable {K V A : Type 0} (t : Two3 K V A) : Type 0 where
  pub order : IsOrder t.eq t.lt
  pub vec : IsVec t.vec
  pub leaf_key : (k : K) (v : V) → t.max_key (t.annotation.of_leaf (k, v)) ≡ k
  pub combine_greatest :
      (rest : List A) (b : A)
      → AllLess t.lt t.max_key rest b
      → (c : A) × (t.annotation.combine (map (λ a. some a) rest ++ some b ∷ []) ≡ some c)
        × (t.max_key c ≡ t.max_key b)

-- Handles that stand for the parts of a list, one after the other.
module _ {L A X E : Type 0} (P : Handle L A X → List E → Type 0) where
  abbrev pub Reads : Handles L A X → List E → Type 0
  Reads nil kvs = kvs ≡ []
  Reads (cons h hs) kvs = (xs ys : List E) × (kvs ≡ xs ++ ys) × P h xs × Reads hs ys

  -- The handles before position `i` stand for `xs`, those after it for `zs`.
  abbrev pub Around : Handles L A X → ℕ → List E → List E → Type 0
  Around nil i xs zs = ⊥
  Around (cons h hs) zero xs zs = (xs ≡ []) × Reads hs zs
  Around (cons h hs) (suc i) xs zs = (x xs' : List E) × (xs ≡ x ++ xs') × P h x × Around hs i xs' zs

  pub Reads-set :
      (hs : Handles L A X) (i : ℕ) (h : Handle L A X) (xs ys zs : List E)
      → Around hs i xs zs
      → P h ys
      → Reads (set_handle hs i h) (xs ++ (ys ++ zs))
  Reads-set nil i h xs ys zs w p = absurd w
  Reads-set (cons g hs) zero h xs ys zs (e, r) p = (ys, zs, rw e refl, p, r)
  Reads-set (cons g hs) (suc i) h xs ys zs (x, xs', e, q, w) p = (
    x,
    xs' ++ (ys ++ zs),
    rw e (append_assoc x xs' (ys ++ zs)),
    q,
    Reads-set hs i h xs' ys zs w p,
  )

  -- A handle, and a new one after it.
  pub Reads-insert_after :
      (hs : Handles L A X) (i : ℕ) (h h' : Handle L A X) (xs ys ys' zs : List E)
      → Around hs i xs zs
      → P h ys
      → P h' ys'
      → Reads (insert_handle (set_handle hs i h) (suc i) h') (xs ++ (ys ++ (ys' ++ zs)))
  Reads-insert_after nil i h h' xs ys ys' zs w p p' = absurd w
  Reads-insert_after (cons g nil) zero h h' xs ys ys' zs (e, r) p p' =
      (ys, ys' ++ zs, rw e refl, p, (ys', zs, refl, p', r))
  Reads-insert_after (cons g (cons f hs)) zero h h' xs ys ys' zs (e, r) p p' =
      (ys, ys' ++ zs, rw e refl, p, (ys', zs, refl, p', r))
  Reads-insert_after (cons g hs) (suc i) h h' xs ys ys' zs (x, xs', e, q, w) p p' = (
    x,
    xs' ++ (ys ++ (ys' ++ zs)),
    rw e (append_assoc x xs' (ys ++ (ys' ++ zs))),
    q,
    Reads-insert_after hs i h h' xs' ys ys' zs w p p',
  )

  -- A new handle before another.
  pub Reads-insert :
      (hs : Handles L A X) (i : ℕ) (h h' : Handle L A X) (xs ys ys' zs : List E)
      → Around hs i xs zs
      → get_handle hs i ≡ some h
      → P h ys
      → P h' ys'
      → Reads (insert_handle hs i h') (xs ++ (ys' ++ (ys ++ zs)))
  Reads-insert nil i h h' xs ys ys' zs w g p p' = absurd w
  Reads-insert (cons f hs) zero h h' xs ys ys' zs (e, r) g p p' =
      (ys', ys ++ zs, rw e refl, p', (ys, zs, refl, subst (λ x. P x ys) (cc) p, r))
  Reads-insert (cons f hs) (suc i) h h' xs ys ys' zs (x, xs', e, q, w) g p p' = (
    x,
    xs' ++ (ys' ++ (ys ++ zs)),
    rw e (append_assoc x xs' (ys' ++ (ys ++ zs))),
    q,
    Reads-insert hs i h h' xs' ys ys' zs w g p p',
  )

  pub Reads-append :
      (hs : Handles L A X) (h : Handle L A X) (kvs ys : List E)
      → Reads hs kvs
      → P h ys
      → Reads (append_handle hs h) (kvs ++ ys)
  Reads-append nil h kvs ys e p = (ys, [], rw (e, append-nil ys) refl, p, refl)
  Reads-append (cons g hs) h kvs ys (x, xs, e, q, r) p =
      (x, xs ++ ys, rw e (append_assoc x xs ys), q, Reads-append hs h xs ys r p)

  pub Reads-remove :
      (hs : Handles L A X) (i : ℕ) (xs zs : List E)
      → Around hs i xs zs
      → Reads (remove_handle hs i) (xs ++ zs)
  Reads-remove nil i xs zs w = absurd w
  Reads-remove (cons g hs) zero xs zs (e, r) = rw e r
  Reads-remove (cons g hs) (suc i) xs zs (x, xs', e, q, w) =
      (x, xs' ++ zs, rw e (append_assoc x xs' zs), q, Reads-remove hs i xs' zs w)

  -- Every handle has its part.
  pub Reads-focus :
      (hs : Handles L A X) (i : ℕ) (h : Handle L A X) (kvs : List E)
      → Reads hs kvs
      → get_handle hs i ≡ some h
      → (xs ys zs : List E) × (kvs ≡ xs ++ (ys ++ zs)) × Around hs i xs zs × P h ys
  Reads-focus nil i h kvs r g = absurd (cc)
  Reads-focus (cons f hs) zero h kvs (x, xs, e, q, r) g =
      ([], x, xs, e, (refl, r), subst (λ y. P y x) (cc) q)
  Reads-focus (cons f hs) (suc i) h kvs (x, xs, e, q, r) g =
      let (xs', ys, zs, e', w, p) = Reads-focus hs i h xs r g in
      (
        x ++ xs',
        ys,
        zs,
        e ∙ ap (λ l. x ++ l) e' ∙ sym (append_assoc x xs' (ys ++ zs)),
        (x, xs', refl, q, w),
        p,
      )

module _ {K V A : Type 0} (t : Two3 K V A) where
  -- A handle at height `ht` over the entries: at the bottom a leaf, elsewhere a node of two or three
  -- handles, in memory or in the store, whose annotation has the key of the last entry.
  abbrev pub IsHandle : ℕ → Slot K V A → List (K × V) → Type 0
  IsHandle zero h kvs = (k : K) × (v : V) × (h ≡ leaf (k, v)) × (kvs ≡ (k, v) ∷ [])
  IsHandle (suc ht) h kvs =
      (c : Two3Tree K V A) × (a : A) × (inner t.load h ≡ ok (node_ref c))
      × (handle_annotation t.annotation h ≡ some a)
      × IsLast (t.max_key a) kvs
      × Reads (IsHandle ht) (children c) kvs
      × (1 < count_handles (children c))
      × (count_handles (children c) < 4)

  -- A node whose handles are all at height `ht`.
  abbrev pub IsNode : ℕ → Two3Tree K V A → List (K × V) → Type 0
  IsNode ht n kvs = Reads (IsHandle ht) (children n) kvs
