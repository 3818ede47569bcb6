-- ===== src/Hamt/Singleton.antt =====
-- `remove_singleton`: what it takes to collapse a node.
use kelvin.Prelude.{ℕ, zero, suc, ◌+◌, Option, none, some, ◌≡◌, ◌≢◌, refl, arith, ◌∙◌, ap, subst}
use kelvin.Prelude.Outcome.{Outcome, ok, failed, panicked, exhausted}
use kelvin.Handle.{
  Handles, nil, cons, children, none_ref, get_handle, inner, empty, leaf, node, persisted,
  into_leaf, try_into_leaf,
}
use kelvin.Hamt.{
  Trie, Hamt, Slot, scan_singleton, take_leaf, finish_take, finish_singleton, remove_singleton,
}

module _ {K V A : Type 0} (t : Trie K V A) where
  abbrev Slots : Type 0
  Slots = Handles (K × V) A (Unit {0})

  -- Every handle but the one at `p` is empty, and that one is the leaf `l`.
  abbrev pub IsEmpty : Slots → Type 0
  IsEmpty hs =
      (q : ℕ) (slot : Slot K V A) → get_handle hs q ≡ some slot → inner t.load slot ≡ ok none_ref

  abbrev pub IsSingleton : Slots → ℕ → K × V → Type 0
  IsSingleton hs p l =
      (get_handle hs p ≡ some (leaf l))
      × ((q : ℕ) (slot : Slot K V A)
          → p ≢ q
          → get_handle hs q ≡ some slot
          → inner t.load slot ≡ ok none_ref)

  scan-found :
      (hs : Slots) (i f idx : ℕ)
      → scan_singleton t hs i (some f) ≡ ok (some idx)
      → (idx ≡ f) × IsEmpty hs
  unfolding scan_singleton inner
  scan-found nil i f idx e = (cc, λ q slot g. absurd (cc))
  scan-found (cons empty hs) i f idx e =
      let (same, rest) = scan-found hs (suc i) f idx e in
      (same, elim [ zero ↦ λ slot g. cc | suc q ↦ λ slot g. rest q slot g ])
  scan-found (cons (leaf l) hs) i f idx e = absurd (cc)
  scan-found (cons (node n a c) hs) i f idx e = absurd (cc)
  scan-found (cons (persisted dg a) hs) i f idx e = absurd (ground arith)

  pub scan-fresh :
      (hs : Slots) (i idx : ℕ)
      → scan_singleton t hs i none ≡ ok (some idx)
      → (p : ℕ) × (idx ≡ i + p) × ((l : K × V) × IsSingleton hs p l)
  unfolding scan_singleton inner
  scan-fresh nil i idx e = absurd (cc)
  scan-fresh (cons empty hs) i idx e =
      let (p, at, (l, (here, others))) = scan-fresh hs (suc i) idx e in
      (
        suc p,
        omega arith,
        (
          l,
          (
            here,
            elim [
              | zero ↦ λ slot ne g. cc
              | suc q ↦ λ slot ne g. others q slot (λ same. ne (ap suc same)) g
            ],
          ),
        ),
      )
  scan-fresh (cons (leaf l) hs) i idx e =
      let (same, rest) = scan-found hs (suc i) i idx e in
      (
        0,
        omega arith,
        (
          l,
          (
            refl,
            elim [ zero ↦ λ slot ne g. absurd (ne refl) | suc q ↦ λ slot ne g. rest q slot g ],
          ),
        ),
      )
  scan-fresh (cons (node n a c) hs) i idx e = absurd (cc)
  scan-fresh (cons (persisted dg a) hs) i idx e = absurd (ground arith)

  -- What `remove_singleton` found, if anything.
  finish_singleton-ok :
      (n : Hamt K V A) (o : Outcome (Option ℕ)) (kv : K × V)
      → ((idx : ℕ) → o ≡ ok (some idx) → (l : K × V) × IsSingleton (children n) idx l)
      → (finish_singleton t n o).1 ≡ ok (some kv)
      → (p : ℕ) × IsSingleton (children n) p kv
  unfolding finish_singleton finish_take take_leaf into_leaf try_into_leaf
  finish_singleton-ok n (ok none) kv found e = absurd (cc)
  finish_singleton-ok n (ok (some idx)) kv found e =
      let (l, (here, others)) = found idx refl in
      (
        idx,
        (
          here
              ∙ ap (λ x. some (leaf x))
                  (cc (rw (finish_singleton, finish_take, take_leaf, here) at e)),
          others,
        ),
      )
  finish_singleton-ok n (failed x) kv found e = absurd (cc)
  finish_singleton-ok n panicked kv found e = absurd (cc)
  finish_singleton-ok n exhausted kv found e = absurd (cc)

  pub remove_singleton-ok :
      (n : Hamt K V A) (kv : K × V)
      → (remove_singleton t n).1 ≡ ok (some kv)
      → (p : ℕ) × IsSingleton (children n) p kv
  unfolding remove_singleton
  remove_singleton-ok n kv = finish_singleton-ok n _ kv λ idx e.
      let (p, at, single) = scan-fresh (children n) 0 idx e in
      subst (λ x. (l : K × V) × IsSingleton (children n) x l) (omega arith) single

  finish_singleton-none :
      (n : Hamt K V A) (o : Outcome (Option ℕ))
      → (finish_singleton t n o).1 ≡ ok none
      → (finish_singleton t n o).0 ≡ n
  unfolding finish_singleton finish_take
  finish_singleton-none n (ok none) e = refl
  finish_singleton-none n (ok (some idx)) e = ground arith
  finish_singleton-none n _ e = refl

  pub remove_singleton-none :
      (n : Hamt K V A) → (remove_singleton t n).1 ≡ ok none → (remove_singleton t n).0 ≡ n
  unfolding remove_singleton
  remove_singleton-none n = finish_singleton-none n _
