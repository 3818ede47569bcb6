-- ===== src/Hamt/Entries.antt =====
-- Entries as src/iter.rs meets them: what a list of them binds a key to.
use kelvin.Prelude.{
  ℕ, Option, none, some, if◌then◌else◌, List, [], ◌∷◌, ◌++◌, ◌≡◌, ◌≢◌, refl, ap, ◌∙◌, Bool-cases,
  inl, inr,
}
use kelvin.Prelude.Outcome.{ok, failed, panicked, exhausted}
use kelvin.Iter.Walk.{Walk, visit, ended, ◌then◌, walk_of}
use kelvin.Hamt.{Trie}
use kelvin.Hamt.Invariant.{IsLawful}

-- Two walks over a list, one after the other.
pub divide :
    {L : Type 0} (u v : Walk L) (zs : List L)
    → (u then v) ≡ walk_of zs
    → (xs ys : List L) × (u ≡ walk_of xs) × (v ≡ walk_of ys) × (zs ≡ xs ++ ys)
divide (visit a u) v [] e = absurd (cc)
divide (visit a u) v (z ∷ zs) e =
    let (xs, ys, p, q, r) = divide u v zs (cc e) in (a ∷ xs, ys, ap (visit a) p, q, cc (e, r))
divide (ended (ok x)) v zs e = ([], zs, refl, e, refl)
divide (ended (failed x)) v [] e = absurd (cc)
divide (ended (failed x)) v (z ∷ zs) e = absurd (cc)
divide (ended panicked) v [] e = absurd (cc)
divide (ended panicked) v (z ∷ zs) e = absurd (cc)
divide (ended exhausted) v [] e = absurd (cc)
divide (ended exhausted) v (z ∷ zs) e = absurd (cc)

abbrev pub AllKeys : {K V : Type 0} → (K → Type 0) → List (K × V) → Type 0
AllKeys P [] = Unit
AllKeys P ((k, v) ∷ kvs) = P k × AllKeys P kvs

pub AllKeys-append :
    {K V : Type 0} (P : K → Type 0) (xs ys : List (K × V))
    → AllKeys P xs
    → AllKeys P ys
    → AllKeys P (xs ++ ys)
AllKeys-append P [] ys a b = b
AllKeys-append P ((k, v) ∷ xs) ys (p, a) b = (p, AllKeys-append P xs ys a b)

pub AllKeys-map :
    {K V : Type 0} (P R : K → Type 0) (kvs : List (K × V))
    → ((k : K) → P k → R k)
    → AllKeys P kvs
    → AllKeys R kvs
AllKeys-map P R [] f a = tt
AllKeys-map P R ((k, v) ∷ kvs) f (p, a) = (f k p, AllKeys-map P R kvs f a)

module _ {K V A : Type 0} (t : Trie K V A) where
  -- The value of the first entry with a key.
  abbrev pub lookup : K → List (K × V) → Option V
  lookup j [] = none
  lookup j ((k, v) ∷ kvs) = if t.eq k j then some v else lookup j kvs

  -- No key stands there twice.
  abbrev pub IsOnce : List (K × V) → Type 0
  IsOnce [] = Unit
  IsOnce ((k, v) ∷ kvs) = (lookup k kvs ≡ none) × IsOnce kvs

  pub lookup-left :
      (j : K) (xs ys : List (K × V)) → lookup j ys ≡ none → lookup j (xs ++ ys) ≡ lookup j xs
  lookup-left j [] ys e = e
  lookup-left j ((k, v) ∷ xs) ys e =
      ap (λ o. if t.eq k j then some v else o) (lookup-left j xs ys e)

  pub lookup-right :
      (j : K) (xs ys : List (K × V)) → lookup j xs ≡ none → lookup j (xs ++ ys) ≡ lookup j ys
  lookup-right j [] ys e = refl
  lookup-right j ((k, v) ∷ xs) ys e = elim (Bool-cases (t.eq k j)) [
    | inl p ↦ absurd (cc (rw p at e))
    | inr p ↦ rw p (lookup-right j xs ys (rw p at e))
  ]

  module _ (lawful : IsLawful t) where
    -- Entries whose keys have another slot do not have the key.
    pub lookup-other :
        (j : K) (d s : ℕ) (kvs : List (K × V))
        → t.select_slot (t.hash j) d ≡ some s
        → AllKeys (λ k. t.select_slot (t.hash k) d ≢ some s) kvs
        → lookup j kvs ≡ none
    lookup-other j d s [] e a = refl
    lookup-other j d s ((k, v) ∷ kvs) e (p, a) = elim (Bool-cases (t.eq k j)) [
      | inl same ↦
          absurd (p (ap (λ x. t.select_slot (t.hash x) d) ((lawful.eq_iff k j).0 same) ∙ e))
      | inr other ↦ rw other (lookup-other j d s kvs e a)
    ]

    pub IsOnce-append :
        (xs ys : List (K × V))
        → IsOnce xs
        → IsOnce ys
        → AllKeys (λ k. lookup k ys ≡ none) xs
        → IsOnce (xs ++ ys)
    IsOnce-append [] ys a b e = b
    IsOnce-append ((k, v) ∷ xs) ys (p, a) b (q, e) =
        (lookup-left k xs ys q ∙ p, IsOnce-append xs ys a b e)
