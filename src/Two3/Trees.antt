-- ===== src/Two3/Trees.antt =====
-- The 2-3 trees and their insertion: the entries are those of a sorted list.
use kelvin.Prelude.{ℕ, zero, suc, ◌<◌, ◌≤◌, List, [], ◌≡◌, refl, ◌⊎◌, inl, inr, arith}
use kelvin.Prelude.Outcome.{Outcome, ok, failed, panicked, exhausted, ◌>>=◌}
use kelvin.Handle.{compound, leaf, handle_annotation, new_leaf}
use kelvin.Two3.{
  Two3, Two3Tree, InsertResult, inserted, replaced, split, sub_insert, insert, inserted_value,
  select, new,
}
use kelvin.Two3.Entries.{lookup, put, IsSorted}
use kelvin.Two3.Update.{put-IsSorted}
use kelvin.Two3.Invariant.{IsUsable}
use kelvin.Two3.Selects.{select-IsFound}
use kelvin.Two3.Place.{Holds, IsInserted}
use kelvin.Two3.Insertion.{at_bottom, above}

-- The fewest handles of a root at a height: only the bottom may have fewer than two.
abbrev pub root_low : ℕ → ℕ
root_low zero = 0
root_low (suc ht) = 2

module _ {K V A : Type 0} (t : Two3 K V A) (u : IsUsable t) where
  -- A tree of a height with the entries of a sorted list: all leaves are at the bottom, every node
  -- has two or three handles, the root up to three.
  abbrev pub IsTree : ℕ → Two3Tree K V A → List (K × V) → Type 0
  IsTree ht n kvs = Holds t u (root_low ht) ht n kvs × IsSorted t.lt kvs

  pub new-IsTree : IsTree 0 (new t) []
  unfolding new
  new-IsTree = ((refl, omega arith, omega arith), tt)

  module _ (k : K) (v : V) where
    -- `_insert` never fails, and puts the entry among those of its node.
    sub_insert-IsInserted :
        (fuel depth lo ht : ℕ) (n : Two3Tree K V A) (kvs : List (K × V))
        → ht < fuel
        → lo ≤ 2
        → (ht ≡ 0) ⊎ (0 < lo)
        → Holds t u lo ht n kvs
        → IsSorted t.lt kvs
        → IsInserted t u depth lo ht k v kvs
            (sub_insert t fuel depth (leaf (k, v)) n).0
            (sub_insert t fuel depth (leaf (k, v)) n).1
    unfolding sub_insert handle_annotation
    sub_insert-IsInserted zero depth lo ht n kvs p low pos holds s = absurd (omega (arith, p))
    sub_insert-IsInserted (suc fuel) depth lo zero (compound x hs) kvs p low pos (r, many, few) s =
        rw (sub_insert, u.leaf_key k v)
          (at_bottom t u k v (sub_insert t fuel) depth lo hs kvs low many few s (select t k hs) r
            (select-IsFound t u 0 k hs kvs r s))
    sub_insert-IsInserted (suc fuel) depth lo (suc ht) (compound x hs) kvs p low (inl z) holds s =
        absurd (cc)
    sub_insert-IsInserted (suc fuel) depth lo (suc ht) (compound x hs) kvs p low (inr pos)
          (r, many, few) s =
        rw (sub_insert, u.leaf_key k v)
          (above t u k v (sub_insert t fuel) depth lo hs kvs low many few s ht (select t k hs) r
            (λ c ys holds sy.
              sub_insert-IsInserted fuel (suc depth) 2 ht c ys (omega (arith, p)) (omega arith)
                (inr (omega arith)) holds sy)
            pos (select-IsFound t u (suc ht) k hs kvs r s))

    root_low-above : (ht : ℕ) → (ht ≡ 0) ⊎ (0 < root_low ht)
    root_low-above zero = inl refl
    root_low-above (suc ht) = inr (omega arith)

    root_low-le : (ht : ℕ) → root_low ht ≤ 2
    root_low-le zero = omega arith
    root_low-le (suc ht) = omega arith

    inserted_root :
        (ht : ℕ) (kvs : List (K × V)) (n : Two3Tree K V A) (r : Outcome (InsertResult K V A))
        → IsSorted t.lt kvs
        → IsInserted t u 0 (root_low ht) ht k v kvs n r
        → ((r >>= inserted_value t) ≡ ok (lookup t.eq t.lt k kvs))
          × (ht' : ℕ) × IsTree ht' n (put t.eq t.lt k v kvs)
          × (ht' ≤ suc ht)
    unfolding inserted_value
    inserted_root ht kvs n (ok inserted) s (missing, inl holds) =
        (rw missing refl, ht, (holds, put-IsSorted t.eq t.lt u.order k v kvs s), omega arith)
    inserted_root ht kvs n (ok inserted) s (missing, inr (_, holds)) =
        (rw missing refl, suc ht, (holds, put-IsSorted t.eq t.lt u.order k v kvs s), omega arith)
    inserted_root ht kvs n (ok (replaced (j, w))) s (found, holds) =
        (rw found refl, ht, (holds, put-IsSorted t.eq t.lt u.order k v kvs s), omega arith)
    inserted_root ht kvs n (ok (split h)) s (top, _, _, _, _, _, _) = absurd (top refl)
    inserted_root ht kvs n (failed e) s r = absurd r
    inserted_root ht kvs n panicked s r = absurd r
    inserted_root ht kvs n exhausted s r = absurd r

    -- An insertion into a tree with fuel past its height succeeds. It returns the value the key had,
    -- and leaves a tree with the entry put among the others, at most one higher.
    pub insert-put :
        (ht : ℕ) (n : Two3Tree K V A) (kvs : List (K × V))
        → IsTree ht n kvs
        → ht < t.fuel
        → ((insert t k v n).1 ≡ ok (lookup t.eq t.lt k kvs))
          × (ht' : ℕ) × IsTree ht' (insert t k v n).0 (put t.eq t.lt k v kvs)
          × (ht' ≤ suc ht)
    unfolding insert new_leaf
    insert-put ht n kvs (holds, s) p =
        inserted_root ht kvs (sub_insert t t.fuel 0 (leaf (k, v)) n).0
          (sub_insert t t.fuel 0 (leaf (k, v)) n).1 s
          (sub_insert-IsInserted t.fuel 0 (root_low ht) ht n kvs p (root_low-le ht)
            (root_low-above ht) holds s)
