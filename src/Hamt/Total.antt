-- ===== src/Hamt/Total.antt =====
-- `insert`, `remove` and `get` return: no outcome is a panic, an error or spent fuel, where the store
-- restores every node and the digests of the keys at hand differ at some slot.
use kelvin.Prelude.{
  ℕ, zero, suc, ◌+◌, ◌<◌, ◌≤◌, Option, none, some, false, ◌≡◌, ◌≢◌, refl, arith, sym, ◌∙◌, ap,
  subst, Option-cases, Bool-cases, inl, inr, ℕ_discrete, List, [], ◌∷◌, ◌++◌,
}
use kelvin.Prelude.Outcome.{Outcome, ok, ◌>>=◌}
use kelvin.Annotation.Laws.{IsAnnotation}
use kelvin.Handle.{
  Digest, Handles, nil, cons, children, get_handle, inner, inner_mut, empty, leaf, node, persisted,
  HandleMut, none_mut, leaf_mut, node_mut, new_node, node_annotation, handle_annotation,
  handle_annotations,
}
use kelvin.Hamt.{Trie, Hamt, Slot, new, sub_insert, insert_at, split_leaf, finish_split}
use kelvin.Hamt.Get.{find, find_at, find-none, find-out, find-some}
use kelvin.Hamt.Steps.{sub_insert-some}
use kelvin.Hamt.Keeps.{Below, new-IsTrie, sub_insert-IsTrie}
use kelvin.Hamt.Insert.{sub_insert-find}
use kelvin.Handle.Laws.{get_handle-some, inner_mut-inner}
use kelvin.Hamt.Invariant.{IsLawful, IsTrie}

-- The store restores every node that a snapshot refers to.
abbrev pub Restores : {K V A : Type 0} → Trie K V A → Type 0
Restores {K} {V} {A} t = (dg : Digest) → (c : Hamt K V A) × (t.load dg ≡ ok c)

-- The outcome is a result.
abbrev pub Succeeds {ℓ} : {R : Type ℓ} → Outcome R → Type ℓ
Succeeds {R = R} o = (r : R) × (o ≡ ok r)

module _ {K V A : Type 0} (t : Trie K V A) where
  -- The digests of two keys name different slots at some depth.
  abbrev pub Separated : K → K → Type 0
  Separated j k = (e : ℕ) × (e < t.fuel) × (t.select_slot (t.hash j) e ≢ t.select_slot (t.hash k) e)

  pub inner_mut-Succeeds : Restores t → (h : Slot K V A) → Succeeds (inner_mut t.load h).1
  unfolding inner_mut
  inner_mut-Succeeds loads empty = (none_mut, refl)
  inner_mut-Succeeds loads (leaf l) = (leaf_mut l, refl)
  inner_mut-Succeeds loads (node n a c) = (node_mut n a, refl)
  inner_mut-Succeeds loads (persisted dg a) = let (c, e) = loads dg in (node_mut c a, rw e)

  -- A node with a child that is not empty has an annotation.
  annotations-split :
      (hs : Handles (K × V) A (Unit {0})) (s : ℕ) (h : Slot K V A) (a : A)
      → get_handle hs s ≡ some h
      → handle_annotation t.annotation h ≡ some a
      → (es : List (Option A)) × (fs : List (Option A)) × (handle_annotations t.annotation hs
          ≡ es ++ some a ∷ fs)
  unfolding handle_annotations
  annotations-split nil s h a g e = absurd (cc)
  annotations-split (cons x hs) zero h a g e = (
    [],
    handle_annotations t.annotation hs,
    ap (λ y. y ∷ handle_annotations t.annotation hs) (cc),
  )
  annotations-split (cons x hs) (suc s) h a g e =
      let (es, fs, p) = annotations-split hs s h a g e in
      (handle_annotation t.annotation x ∷ es, fs, ap (λ y. handle_annotation t.annotation x ∷ y) p)

  new_node-Succeeds :
      (n : Hamt K V A) (s : ℕ) (h : Slot K V A) (a : A)
      → IsAnnotation t.annotation
      → get_handle (children n) s ≡ some h
      → handle_annotation t.annotation h ≡ some a
      → Succeeds (new_node t.annotation n)
  unfolding new_node node_annotation
  new_node-Succeeds n s h a law g e =
      let (es, fs, p) = annotations-split (children n) s h a g e in
      let (b, q) = law.combine_some es fs a in (node n b none, rw (new_node, p, q))

  -- Where a key is read, some child is not empty.
  annotated-find :
      (fuel d : ℕ) (h : Digest) (k : K) (n : Hamt K V A) (v : V)
      → find t fuel d h k n ≡ ok (some v)
      → (s : ℕ) × (slot : Slot K V A) × (a : A) × (get_handle (children n) s ≡ some slot)
        × (handle_annotation t.annotation slot ≡ some a)
  unfolding find handle_annotation inner find_at
  annotated-find zero d h k n v e = absurd (cc)
  annotated-find (suc fuel) d h k n v e = elim (Option-cases (t.select_slot h d)) [
    | inl p ↦ absurd (cc (find-none t fuel d h k n p))
    | inr (s, p) ↦ elim (Option-cases (get_handle (children n) s)) [
      | inl g ↦ absurd (cc (find-out t fuel d h k n s p g))
      | inr (slot, g) ↦ at s p slot g (sym (find-some t fuel d h k n s slot p g) ∙ e)
    ]
  ]
    where
      at :
          (s : ℕ)
          → t.select_slot h d ≡ some s
          → (slot : Slot K V A) → get_handle (children n) s ≡ some slot
          → (inner t.load slot >>= find_at t (find t fuel (suc d) h k) k) ≡ ok (some v)
          → (s : ℕ) × (slot : Slot K V A) × (a : A) × (get_handle (children n) s ≡ some slot)
            × (handle_annotation t.annotation slot ≡ some a)
      at s p empty g q = absurd (cc)
      at s p (leaf l) g q = (s, leaf l, t.annotation.of_leaf l, g, refl)
      at s p (node c a cached) g q = (s, node c a cached, a, g, refl)
      at s p (persisted dg a) g q = (s, persisted dg a, a, g, refl)

-- What the results below rest on: a lawful trie over a store that restores its nodes.
pub record IsUsable {K V A : Type 0} (t : Trie K V A) : Type 0 where
  pub lawful : IsLawful t
  pub annotation_law : IsAnnotation t.annotation
  pub loads : Restores t
  pub wide : 0 < t.width
  pub deep : 0 < t.fuel

module _ {K V A : Type 0} (t : Trie K V A) (u : IsUsable t) where
  -- From depth `d` on the digests of two keys differ at some slot.
  abbrev pub Apart : ℕ → K → K → Type 0
  Apart d j k =
      (e : ℕ) × (d ≤ e) × (e < t.fuel) × (t.select_slot (t.hash j) e ≢ t.select_slot (t.hash k) e)

  abbrev pub Room : ℕ → ℕ → Type 0
  Room fuel d = (d < t.fuel) × (t.fuel < fuel + d)

  pub child-Room :
      (fuel d : ℕ) (Q : K → Type 0) (c : Hamt K V A)
      → Room (suc fuel) d
      → IsTrie t fuel (suc d) Q c
      → Room fuel (suc d)
  child-Room zero d Q c r i = absurd (omega arith)
  child-Room (suc fuel) d Q c r i = (i.0, omega arith)

  Apart-suc :
      (d s : ℕ) (j k : K)
      → t.select_slot (t.hash j) d ≡ some s
      → t.select_slot (t.hash k) d ≡ some s
      → Apart d j k
      → Apart (suc d) j k
  Apart-suc d s j k p q (e, le, lt, ne) = elim (ℕ_discrete d e) [
    | yes same ↦
        absurd (
          ne
            (subst (λ x. t.select_slot (t.hash j) x ≡ t.select_slot (t.hash k) x) same (p ∙ sym q)))
    | no differ ↦ (e, omega arith, lt, ne)
  ]

  abbrev Rec : ℕ → Type 1
  Rec fuel =
      (d : ℕ) (Q : K → Type 0) (k : K) (v : V) (n : Hamt K V A)
      → Room fuel d
      → IsTrie t fuel d Q n
      → ((j : K) → Q j → t.eq j k ≡ false → Apart d j k)
      → Succeeds (sub_insert t fuel d (t.hash k) k v n).1

  split_leaf-Succeeds :
      (fuel d : ℕ) (k : K) (v : V) (key : K) (val : V)
      → Rec fuel
      → Room (suc fuel) d
      → t.eq key k ≡ false
      → Apart (suc d) key k
      → Succeeds (split_leaf t (sub_insert t fuel) d (t.hash k) k v key val)
  unfolding split_leaf
  split_leaf-Succeeds fuel d k v key val ih r differ (e, le, lt, ne) =
      let room : Room fuel (suc d) = (omega arith, omega arith) in
      let fresh = new-IsTrie t fuel (suc d) (λ j. j ≡ k) room.0 in
      let (_, first_ok) =
        ih (suc d) (λ j. j ≡ k) k v (new t) room fresh
          (λ j same no_match. absurd (cc ((u.lawful.eq_iff j k).1 same))) in
      let first = sub_insert t fuel (suc d) (t.hash k) k v (new t) in
      let kept = sub_insert-IsTrie t u.lawful fuel (suc d) (λ j. j ≡ k) k v (new t) refl fresh in
      let (_, second_ok) =
        ih (suc d) (λ j. j ≡ k) key val first.0 room kept
          (λ j same no_match. (e, le, lt, λ p. ne (cc (ap t.hash same)))) in
      let second = sub_insert t fuel (suc d) (t.hash key) key val first.0 in
      let reading = (sub_insert-find t u.lawful fuel (suc d) key val first.0 _ second_ok).1 key in
      let (s, slot, a, g, ann) =
        annotated-find t fuel (suc d) (t.hash key) key second.0 val
          (rw ((u.lawful.eq_iff key key).1 refl) at reading) in
      rw first_ok (rw second_ok (new_node-Succeeds t second.0 s slot a u.annotation_law g ann))

  insert_at-Succeeds :
      (fuel d s : ℕ) (Q : K → Type 0) (k : K) (v : V) (n : Hamt K V A) (slot slot' : Slot K V A)
      (m : HandleMut (K × V) A (Unit {0}))
      → Rec fuel
      → Room (suc fuel) d
      → IsTrie t (suc fuel) d Q n
      → ((j : K) → Q j → t.eq j k ≡ false → Apart d j k)
      → t.select_slot (t.hash k) d ≡ some s
      → get_handle (children n) s ≡ some slot
      → (inner_mut t.load slot).1 ≡ ok m
      → Succeeds (insert_at t (sub_insert t fuel) d (t.hash k) k v n s slot' (ok m)).1
  unfolding insert_at finish_split
  insert_at-Succeeds fuel d s Q k v n slot slot' none_mut ih room i far e g r = (none, refl)
  insert_at-Succeeds fuel d s Q k v n slot slot' (leaf_mut (key, val)) ih room i far e g r =
      let (belongs, at) = i.2 s slot _ g (inner_mut-inner t.load slot _ r) in
      elim (Bool-cases (t.eq key k)) [
        | inl same ↦ rw same (some val, refl)
        | inr differ ↦
            let (_, split_ok) =
              split_leaf-Succeeds fuel d k v key val ih room differ
                (Apart-suc d s key k at e (far key belongs differ)) in
            rw (differ, split_ok) (none, refl)
      ]
  insert_at-Succeeds fuel d s Q k v n slot slot' (node_mut c a) ih room i far e g r =
      let placed = i.2 s slot _ g (inner_mut-inner t.load slot _ r) in
      ih (suc d) (Below t d Q s) k v c (child-Room fuel d (Below t d Q s) c room placed) placed
        (λ j (belongs, at) differ. Apart-suc d s j k at e (far j belongs differ))

  -- At any depth within the digest, with fuel for the slots that are left, an insertion into a trie
  -- returns a result if the key's digest differs at a slot from here on from that of every other
  -- key that may stand below.
  pub sub_insert-Succeeds :
      (fuel d : ℕ) (Q : K → Type 0) (k : K) (v : V) (n : Hamt K V A)
      → Room fuel d
      → IsTrie t fuel d Q n
      → ((j : K) → Q j → t.eq j k ≡ false → Apart d j k)
      → Succeeds (sub_insert t fuel d (t.hash k) k v n).1
  sub_insert-Succeeds zero d Q k v n room i far = absurd (omega arith)
  sub_insert-Succeeds (suc fuel) d Q k v n room i far =
      let (s, e) = u.lawful.has_slot k d room.0 in
      let (slot, g) = get_handle-some (children n) s (rw i.1 (u.lawful.slot_bound k d s e)) in
      let (m, r) = inner_mut-Succeeds t u.loads slot in
      rw (sub_insert-some t fuel d (t.hash k) k n v s slot e g, r)
        (insert_at-Succeeds fuel d s Q k v n slot _ m (sub_insert-Succeeds fuel) room i far e g r)
