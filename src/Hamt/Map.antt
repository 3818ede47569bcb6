-- ===== src/Hamt/Map.antt =====
-- The trie as a map: the public operations, and sequences of them, against a function from keys to
-- values, as in the model test of src/tests/quickcheck_map.rs.
use kelvin.Prelude.{
  suc, Option, none, some, if◌then◌else◌, ◌≡◌, refl, arith, sym, ◌∙◌, List, [], ◌∷◌, Bool, true,
  false, ap,
}
use kelvin.Prelude.Outcome.{Outcome, ok, ◌>>=◌}
use kelvin.Calls.{Op, insert_op, remove_op, get_op, key_of, update, changed, replay}
use kelvin.Hamt.{
  Trie, Hamt, new, insert, remove, Removed, nothing, removed, collapse, removed_value, sub_remove,
}
use kelvin.Hamt.Get.{get, find}
use kelvin.Hamt.Search.{get-find}
use kelvin.Hamt.Invariant.{IsTrie}
use kelvin.Hamt.Keeps.{new-IsTrie, sub_insert-IsTrie}
use kelvin.Hamt.KeepsRemove.{sub_remove-Keeps}
use kelvin.Hamt.Insert.{sub_insert-find, find-new}
use kelvin.Hamt.Remove.{Removes, sub_remove-Removes}
use kelvin.Hamt.Total.{IsUsable, Apart, sub_insert-Succeeds}
use kelvin.Hamt.TotalRemove.{sub_remove-Succeeds, find-Succeeds}
use kelvin.Hamt.Root.{sub_remove-root}

module _ {K V A : Type 0} (t : Trie K V A) where
  -- A trie whose keys are among `S`.
  abbrev pub IsMap : (K → Type 0) → Hamt K V A → Type 0
  IsMap S n = IsTrie t (suc t.fuel) 0 S n

  -- The map that a trie stands for.
  pub record Shows (n : Hamt K V A) (f : K → Option V) : Type 0 where
    pub reads : (j : K) → get t j n ≡ ok (f j)

pull_ok : {B : Type 0} (b : Bool) (x y : B) → (if b then ok x else ok y) ≡ ok (if b then x else y)
pull_ok true x y = refl
pull_ok false x y = refl

module _ {K V A : Type 0} (t : Trie K V A) (u : IsUsable t) where
  -- The keys of `S` have digests that differ at some slot.
  abbrev pub AreApart : (K → Type 0) → Type 0
  AreApart S = (j k : K) → S j → S k → t.eq j k ≡ false → Apart t u 0 j k

  -- The new trie is well formed, over a usable one, and stands for the empty map.
  pub new-Shows : (S : K → Type 0) → IsMap t S (new t) × Shows t (new t) (λ j. none)
  new-Shows S =
      let i = new-IsTrie t (suc t.fuel) 0 S u.deep in
      (
        i,
        record {
          reads = λ j.
              let (o, e) = find-Succeeds t u (suc t.fuel) 0 S j (new t) (u.deep, omega arith) i in
              get-find t (new t) j S u.wide i ∙ (find-new t u.lawful (suc t.fuel) 0 j e).1 j;
        },
      )

  -- On a usable trie that stands for `f`, whose keys and the one inserted are in `S`, where different
  -- keys have digests that differ at a slot, `insert` returns what the key was bound to, and leaves a
  -- well-formed trie in which the key is bound to the value and every other as before.
  pub insert_refines :
      (S : K → Type 0) (n : Hamt K V A) (f : K → Option V) (k : K) (v : V)
      → AreApart S
      → S k
      → IsMap t S n
      → Shows t n f
      → ((insert t k v n).1 ≡ ok (f k))
        × IsMap t S (insert t k v n).0
        × Shows t (insert t k v n).0 (update t.eq f k (some v))
  unfolding insert
  insert_refines S n f k v apart member i shows =
      let (old, done) =
        sub_insert-Succeeds t u (suc t.fuel) 0 S k v n (u.deep, omega arith) i
          (λ j belongs. apart j k belongs member) in
      let (was, put) = sub_insert-find t u.lawful (suc t.fuel) 0 k v n old done in
      let kept = sub_insert-IsTrie t u.lawful (suc t.fuel) 0 S k v n member i in
      (
        done ∙ sym was ∙ reading k,
        kept,
        record {
          reads = λ j.
              get-find t _ j S u.wide kept
              ∙ put j
              ∙ rw (reading j) (pull_ok (t.eq k j) (some v) (f j));
        },
      )
    where
      reading : (j : K) → find t (suc t.fuel) 0 (t.hash j) j n ≡ ok (f j)
      reading j = sym (get-find t n j S u.wide i) ∙ shows.reads j

  -- On a usable trie that stands for `f`, `remove` returns what the key was bound to, and leaves a
  -- well-formed trie in which the key is unbound and every other is bound as before. It does not reach
  -- the `unreachable!()` for a collapse at the root.
  pub remove_refines :
      (S : K → Type 0) (n : Hamt K V A) (f : K → Option V) (k : K)
      → IsMap t S n
      → Shows t n f
      → ((remove t k n).1 ≡ ok (f k))
        × IsMap t S (remove t k n).0
        × Shows t (remove t k n).0 (update t.eq f k none)
  unfolding remove
  remove_refines S n f k i shows =
      let (res, done) = sub_remove-Succeeds t u (suc t.fuel) 0 S k n (u.deep, omega arith) i in
      let kept = (sub_remove-Keeps t (suc t.fuel) 0 S (t.hash k) k n i).0 in
      let (value, put) =
        by_result res done (sub_remove-Removes t u.lawful (suc t.fuel) 0 S k n res i done) in
      (value, kept, record { reads = λ j. get-find t _ j S u.wide kept ∙ put j })
    where
      reading : (j : K) → find t (suc t.fuel) 0 (t.hash j) j n ≡ ok (f j)
      reading j = sym (get-find t n j S u.wide i) ∙ shows.reads j

      after : Hamt K V A
      after = (sub_remove t (suc t.fuel) 0 (t.hash k) k n).0

      by_result :
          (res : Removed (K × V))
          → (sub_remove t (suc t.fuel) 0 (t.hash k) k n).1 ≡ ok res
          → Removes t u.lawful (suc t.fuel) 0 k n after res
          → (((sub_remove t (suc t.fuel) 0 (t.hash k) k n).1 >>= removed_value t) ≡ ok (f k))
            × ((j : K) → find t (suc t.fuel) 0 (t.hash j) j after ≡ ok (update t.eq f k none j))
      by_result nothing done (was, same) = (
        rw done (sym was ∙ reading k),
        λ j.
            same j
            ∙ reading j
            ∙ ap ok (ground (arith, (u.lawful.eq_iff k j).0, sym was ∙ reading k)),
      )
      by_result (removed (key, val)) done (was, put) = (
        rw done (sym was ∙ reading k),
        λ j. put j ∙ rw (reading j) (pull_ok (t.eq k j) none (f j)),
      )
      by_result (collapse l kv) done _ = absurd (sub_remove-root t t.fuel (t.hash k) k n l kv done)

module _ {K V A : Type 0} (t : Trie K V A) where
  abbrev pub KeysIn : (K → Type 0) → List (Op K V) → Type 0
  KeysIn S [] = Unit
  KeysIn S (op ∷ ops) = S (key_of op) × KeysIn S ops

  unfoldable pub step : Op K V → Hamt K V A → Hamt K V A × Outcome (Option V)
  step (insert_op k v) n = insert t k v n
  step (remove_op k) n = remove t k n
  step (get_op k) n = (n, get t k n)

  -- The answers of a run, up to the first that is no result.
  unfoldable pub run : List (Op K V) → Hamt K V A → Outcome (List (Option V))
  unfolding step
  run [] n = ok []
  run (op ∷ ops) n =
      let (n', r) = step op n in r >>= λ answer. run ops n' >>= λ rest. ok (answer ∷ rest)

module _ {K V A : Type 0} (t : Trie K V A) (u : IsUsable t) where
  step_refines :
      (S : K → Type 0) (op : Op K V) (n : Hamt K V A) (f : K → Option V)
      → AreApart t u S
      → S (key_of op)
      → IsMap t S n
      → Shows t n f
      → ((step t op n).1 ≡ ok (f (key_of op)))
        × IsMap t S (step t op n).0
        × Shows t (step t op n).0 (changed t.eq op f)
  unfolding step
  step_refines S (insert_op k v) n f apart s i shows = insert_refines t u S n f k v apart s i shows
  step_refines S (remove_op k) n f apart s i shows = remove_refines t u S n f k i shows
  step_refines S (get_op k) n f apart s i shows = (shows.reads k, i, shows)

  pub run-replay :
      (S : K → Type 0) (ops : List (Op K V)) (n : Hamt K V A) (f : K → Option V)
      → AreApart t u S
      → KeysIn t S ops
      → IsMap t S n
      → Shows t n f
      → run t ops n ≡ ok (replay t.eq ops f)
  unfolding run replay
  run-replay S [] n f apart s i shows = refl
  run-replay S (op ∷ ops) n f apart s i shows =
      let (answer, i', shows') = step_refines S op n f apart s.0 i shows in
      rw (answer, run-replay S ops (step t op n).0 (changed t.eq op f) apart s.1 i' shows')

  -- On a new usable trie any sequence of insertions, removals and lookups, at keys of `S`, where different
  -- keys have digests that differ at a slot, returns a result for each, and answers as a map that
  -- starts empty.
  pub run-new_refines :
      (S : K → Type 0) (ops : List (Op K V))
      → AreApart t u S
      → KeysIn t S ops
      → run t ops (new t) ≡ ok (replay t.eq ops (λ j. none))
  run-new_refines S ops apart s =
      let (i, shows) = new-Shows t u S in run-replay S ops (new t) (λ j. none) apart s i shows
