-- ===== src/Nth/Tests.antt =====
-- Children at hand.
use kelvin.Prelude.{ℕ, [], ◌≡◌, refl}
use kelvin.Annotation.{cardinality}
use kelvin.Handle.{Handles, nil, cons, empty, leaf, persisted}
use kelvin.Search.{path_at}
use kelvin.Nth.{nth_from}
use kelvin.Nth.Laws.{IsNth, nth_from-IsNth}

abbrev four : Handles ℕ ℕ (Unit {0})
four = cons (leaf 8) (cons empty (cons (persisted [] 3) nil))

third-path : nth_from cardinality (λ a. a) four 0 2 ≡ (path_at 2, 1)
unfolding nth_from kelvin.Handle.handle_type kelvin.Handle.handle_annotation cardinality
third-path = refl

nth_from-IsNth_example :
    IsNth cardinality (λ a. a) four 0 2 (nth_from cardinality (λ a. a) four 0 2)
nth_from-IsNth_example = nth_from-IsNth cardinality (λ a. a) four 0 2
