-- ===== src/Calls.antt =====
-- src/tests/quickcheck_map.rs: the calls that a client of a map makes, and the same calls on a function
-- from keys to values.
use kelvin.Prelude.{ℕ, suc, Bool, Option, none, some, List, [], ◌∷◌, if◌then◌else◌}

-- The operations that a client of a map calls.
pub data Op (K V : Type 0) : Type 0 where
  insert_op : K → V → Op K V
  remove_op get_op : K → Op K V

abbrev pub key_of : {K V : Type 0} → Op K V → K
key_of (insert_op k v) = k
key_of (remove_op k) = k
key_of (get_op k) = k

abbrev pub count_calls : {K V : Type 0} → List (Op K V) → ℕ
count_calls [] = 0
count_calls (op ∷ ops) = suc (count_calls ops)

module _ {K V : Type 0} (eq : K → K → Bool) where
  -- A function, changed at one key.
  abbrev pub update : (K → Option V) → K → Option V → K → Option V
  update f k w j = if eq k j then w else f j

  abbrev pub changed : Op K V → (K → Option V) → K → Option V
  changed (insert_op k v) f = update f k (some v)
  changed (remove_op k) f = update f k none
  changed (get_op k) f = f

  unfoldable pub replay : List (Op K V) → (K → Option V) → List (Option V)
  replay [] f = []
  replay (op ∷ ops) f = f (key_of op) ∷ replay ops (changed op f)
