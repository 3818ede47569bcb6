-- ===== src/Two3/Annotated.antt =====
-- `Two3TreeAnnotation` in structures/two3/src/lib.rs: the greatest key, beside another annotation.
use mathlib.Core.Option
use kelvin.Prelude.{ℕ, Bool, some, List, [], ◌∷◌, ◌++◌, map, ◌≡◌, refl, ap, ◌∙◌}
use kelvin.Prelude.Outcome.{Outcome}
use kelvin.Annotation.{Annotation, max_key}
use kelvin.Annotation.Laws.{IsAnnotation}
use kelvin.Annotation.Product.{product, product-combine, map-append_one}
use kelvin.Handle.{Digest, Handle, Handles}
use kelvin.Two3.{Two3, ArrayVec, Two3Tree}
use kelvin.Two3.Entries.{IsOrder}
use kelvin.Two3.Invariant.{IsVec, IsUsable, AllLess}
use kelvin.Two3.MaxKey.{max_key-greatest}

-- `Two3TreeAnnotation<K, U>`: `q` is the annotation `Cardinality<U>`.
unfoldable pub two3_annotation :
    {K V B : Type 0} → (K → K → Bool) → Annotation (K × V) B → Annotation (K × V) (K × B)
unfolding product
two3_annotation lt q = product (max_key lt (λ kv. kv.0)) q

module _ {K V B : Type 0} (eq lt : K → K → Bool) (q : Annotation (K × V) B)
    (load : Digest → Outcome (Two3Tree K V (K × B)))
    (vec : ArrayVec (Handle (K × V) (K × B) (Unit {0})) (Handles (K × V) (K × B) (Unit {0})))
    (fuel : ℕ) where
  -- The tree with this annotation.
  unfoldable pub annotated : Two3 K V (K × B)
  unfolding two3_annotation
  annotated = record {
    eq = eq;
    lt = lt;
    annotation = two3_annotation lt q;
    max_key = λ a. a.0;
    load = load;
    vec = vec;
    fuel = fuel;
  }

  keys : List (K × B) → List K
  keys rest = map (λ a. a.0) rest

  keys-AllLess :
      (rest : List (K × B)) (b : K × B)
      → AllLess lt (λ a. a.0) rest b
      → AllLess lt (λ k. k) (keys rest) b.0
  unfolding keys
  keys-AllLess [] b less = tt
  keys-AllLess (a ∷ rest) b (p, less) = (p, keys-AllLess rest b less)

  some-keys :
      (rest : List (K × B))
      → map (Option.map (λ x. x.0)) (map (λ a. some a) rest) ≡ map (λ k. some k) (keys rest)
  unfolding keys
  some-keys [] = refl
  some-keys (a ∷ rest) = ap (λ l. some a.0 ∷ l) (some-keys rest)

  -- Children in the order of their keys come to the key of the last.
  annotation-greatest :
      IsAnnotation q
      → (rest : List (K × B)) (b : K × B) → AllLess lt (λ a. a.0) rest b
      → (c : K × B) × ((two3_annotation lt q).combine (map (λ a. some a) rest ++ some b ∷ [])
          ≡ some c)
        × (c.0 ≡ b.0)
  unfolding two3_annotation
  annotation-greatest law rest b less =
      let (u, e) = law.combine_some (map (Option.map (λ x. x.1)) (map (λ a. some a) rest)) [] b.1 in
      (
        (b.0, u),
        product-combine (max_key lt (λ kv. kv.0)) q (map (λ a. some a) rest ++ some b ∷ []) b.0 u
            (ap (max_key lt (λ kv. kv.0)).combine (
                map-append_one (Option.map (λ x. x.0)) (map (λ a. some a) rest) [] (some b)
                ∙ ap (λ l. l ++ some b.0 ∷ []) (some-keys rest))
              ∙ max_key-greatest {L = K × V} lt (λ kv. kv.0) (keys rest) b.0
                  (keys-AllLess rest b less))
            (ap q.combine
                (map-append_one (Option.map (λ x. x.1)) (map (λ a. some a) rest) [] (some b))
              ∙ e),
        refl,
      )

  -- Over an order of the keys, an array as its documentation has it, and any annotation that nodes with
  -- an annotated child have, the tree with `Two3TreeAnnotation` has all that the 2-3 tree relies on.
  pub annotated-IsUsable : IsOrder eq lt → IsVec vec → IsAnnotation q → IsUsable annotated
  unfolding annotated two3_annotation product max_key
  annotated-IsUsable order vec_lem law = record {
    order = order;
    vec = vec_lem;
    leaf_key = λ k v. refl;
    combine_greatest = annotation-greatest law;
  }
