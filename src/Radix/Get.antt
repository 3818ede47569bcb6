-- ===== src/Radix/Get.antt =====
-- structures/radix/src/lib.rs: `get`.
use mathlib.Core.Option
use kelvin.Prelude.{ℕ, List, Option}
use kelvin.Prelude.Outcome.{Outcome, ok, ◌>>=◌}
use kelvin.Search.{Method, branch_new}
use kelvin.Nibbles.{Nibbles, nibbles_new}
use kelvin.Radix.{Radix, Tree, select}

module _ {V A : Type 0} (t : Radix V A) where
  -- `Method for Nibbles`: the search is its own state.
  unfoldable pub radix_search : Method (Tree V A) Nibbles
  unfolding select
  radix_search = record { select = λ n ofs s. select n s }

  -- `Radix::get` and `ValPath::new`, with the value that the path shows.
  unfoldable pub get : List ℕ → Tree V A → Outcome (Option V)
  unfolding radix_search nibbles_new
  get key n = branch_new t.load radix_search t.fuel n (nibbles_new key) >>= λ r.
      ok (Option.map (λ found. found.1) r)
