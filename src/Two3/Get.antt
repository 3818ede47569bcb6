-- ===== src/Two3/Get.antt =====
-- structures/two3/src/lib.rs: `Two3TreeSearch` as a search method, and `get`.
use mathlib.Core.Option
use kelvin.Prelude.{◌*◌, Option}
use kelvin.Prelude.Outcome.{Outcome, ok, ◌>>=◌}
use kelvin.Handle.{children}
use kelvin.Search.{Method, branch_new}
use kelvin.Two3.{Two3, Two3Tree, select}

module _ {K V A : Type 0} (t : Two3 K V A) where
  -- `Method for Two3TreeSearch`; it has no state and does not look at the offset.
  unfoldable pub two3_search : K → Method (Two3Tree K V A) (Unit {0})
  unfolding select
  two3_search k = record { select = λ n ofs s. ok (select t k (children n), s) }

  -- `Two3Tree::get` and `ValPath::new`, with the value that the path shows; the search goes down and up
  -- once.
  unfoldable pub get : K → Two3Tree K V A → Outcome (Option V)
  unfolding two3_search
  get k n = branch_new t.load (two3_search k) (2 * t.fuel) n tt >>= λ r.
      ok (Option.map (λ found. found.1.1) r)
