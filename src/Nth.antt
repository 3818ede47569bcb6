-- ===== src/Nth.antt =====
-- src/annotations/cardinality.rs: `Count` and the search method `Nth`, and src/search.rs: `First`.
--
-- The counters are numbers of the counter type, which `>=` guards before each `-=`.
pub mod Laws
mod Tests
use kelvin.Prelude.{ℕ, zero, suc, ◌+◌, ◌-◌, Option, none, some, if◌then◌else◌, ◌==◌, leb}
use kelvin.Prelude.Outcome.{Outcome, ok, panicked, ◌>>=◌}
use kelvin.Annotation.{Annotation}
use kelvin.Handle.{
  Handle, HandleType, none_type, leaf_type, node_type, Node, Handles, nil, cons, children,
  handle_type, handle_annotation, node_annotation,
}
use kelvin.Search.{SearchResult, leaf_at, path_at, no_result, Method}

module _ {A : Type 0} (borrow : A → ℕ) where
  -- The match in the loop of `Nth::select`, on child `i`: `further` is the loop from the next child
  -- on, for a counter.
  unfoldable pub nth_at : (ℕ → SearchResult × ℕ) → ℕ → ℕ → HandleType → Option A → SearchResult × ℕ
  nth_at further i n leaf_type a =
      let rest = further (n - 1) in if n == 0 then (leaf_at i, n) else rest
  nth_at further i n node_type none = further n
  nth_at further i n node_type (some a) =
      let rest = further (n - borrow a) in if leb (borrow a) n then rest else (path_at i, n)
  nth_at further i n none_type a = further n

-- `borrow` is `Borrow<Cardinality<U>>` of the annotation.
module _ {L A X : Type 0} (ann : Annotation L A) (borrow : A → ℕ) where
  -- `Count::count`
  unfoldable pub count : Node L A X → ℕ
  count n = elim (node_annotation ann n) [ some a ↦ borrow a | none ↦ 0 ]

  -- The loop of `Nth::select`
  unfoldable pub nth_from : Handles L A X → ℕ → ℕ → SearchResult × ℕ
  unfolding nth_at
  nth_from nil i n = (no_result, n)
  nth_from (cons h hs) i n =
      nth_at borrow (nth_from hs (suc i)) i n (handle_type h) (handle_annotation ann h)

  -- `Method for Nth`; the offset is not looked at.
  unfoldable pub nth : Method (Node L A X) ℕ
  unfolding nth_from
  nth = record { select = λ node ofs n. ok (nth_from (children node) 0 n) }

-- The match in the loop of `First::select`.
unfoldable pub first_at : SearchResult → ℕ → HandleType → SearchResult
first_at further i leaf_type = leaf_at i
first_at further i node_type = path_at i
first_at further i none_type = further

module _ {L A X : Type 0} where
  unfoldable pub first_from : Handles L A X → ℕ → SearchResult
  unfolding first_at
  first_from nil i = no_result
  first_from (cons h hs) i = first_at (first_from hs (suc i)) i (handle_type h)

  -- `children()[offset..]`, which panics past the end.
  unfoldable pub skip_handles : ℕ → Handles L A X → Outcome (Handles L A X)
  skip_handles zero hs = ok hs
  skip_handles (suc ofs) nil = panicked
  skip_handles (suc ofs) (cons h hs) = skip_handles ofs hs

  -- `Method for First`, which has no state; the result counts from the offset.
  unfoldable pub first : Method (Node L A X) (Unit {0})
  unfolding first_from skip_handles
  first = record {
    select = λ n ofs s. skip_handles ofs (children n) >>= λ hs. ok (first_from hs 0, s);
  }
