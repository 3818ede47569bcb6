-- ===== src/Annotation/Product.antt =====
-- src/annotations/annotation_macro.rs: the annotation that `annotation!` makes of two others, by its
-- fields. More fields are pairs of pairs.
use mathlib.Core.Option
use kelvin.Prelude.{Option, none, some, List, [], ◌∷◌, ◌++◌, map, ◌≡◌, refl, ap, ◌∙◌}
use kelvin.Annotation.{Annotation}
use kelvin.Content.{Content, pair}
use kelvin.Annotation.Laws.{IsAnnotation}

module _ {L A B : Type 0} (p : Annotation L A) (q : Annotation L B) where
  -- `From<&T>`
  unfoldable pub leaf_fields : L → A × B
  leaf_fields l = (p.of_leaf l, q.of_leaf l)

  -- The literal of `combine`, whose fields return early.
  unfoldable pub fields : Option A → Option B → Option (A × B)
  fields none b = none
  fields (some a) none = none
  fields (some a) (some b) = some (a, b)

  -- `Combine`; each field's type combines the elements by `Borrow`.
  unfoldable pub product : Annotation L (A × B)
  unfolding fields leaf_fields
  product = record {
    of_leaf = leaf_fields;
    combine = λ elements.
        fields (p.combine (map (Option.map (λ ab. ab.0)) elements))
          (q.combine (map (Option.map (λ ab. ab.1)) elements));
  }

  -- The fields are combined each on its own.
  pub product-combine :
      (es : List (Option (A × B))) (a : A) (b : B)
      → p.combine (map (Option.map (λ ab. ab.0)) es) ≡ some a
      → q.combine (map (Option.map (λ ab. ab.1)) es) ≡ some b
      → product.combine es ≡ some (a, b)
  unfolding product
  product-combine es a b e f = rw (e, f) refl

pub map-append_one :
    {E F : Type 0} (f : E → F) (es fs : List E) (e : E)
    → map f (es ++ e ∷ fs) ≡ map f es ++ f e ∷ map f fs
map-append_one f [] fs e = refl
map-append_one f (x ∷ es) fs e = ap (λ l. f x ∷ l) (map-append_one f es fs e)

module _ {L A B : Type 0} (p : Annotation L A) (q : Annotation L B) where
  pub product-IsAnnotation : IsAnnotation p → IsAnnotation q → IsAnnotation (product p q)
  product-IsAnnotation lp lq = record {
    combine_some = λ es fs ab.
        let (a, e) =
          lp.combine_some (map (Option.map (λ x. x.0)) es) (map (Option.map (λ x. x.0)) fs) ab.0 in
        let (b, f) =
          lq.combine_some (map (Option.map (λ x. x.1)) es) (map (Option.map (λ x. x.1)) fs) ab.1 in
        (
          (a, b),
          product-combine p q (es ++ some ab ∷ fs) a b
              (ap p.combine (map-append_one (Option.map (λ x. x.0)) es fs (some ab)) ∙ e)
              (ap q.combine (map-append_one (Option.map (λ x. x.1)) es fs (some ab)) ∙ f),
        );
  }

-- `Content`: the fields are written one after the other.
unfoldable pub product_content :
    {S B T U : Type 0} → Content S B T → Content S B U → Content S B (T × U)
unfolding pair
product_content c d = pair c d
