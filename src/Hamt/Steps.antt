-- ===== src/Hamt/Steps.antt =====
-- One level of `sub_insert` and of `sub_remove`, by what the digest and the node hold at it.
use kelvin.Prelude.{ℕ, suc, none, some, ◌≡◌}
use kelvin.Prelude.Outcome.{panicked}
use kelvin.Handle.{Digest, children, get_handle, inner_mut}
use kelvin.Hamt.{Trie, Hamt, Slot, sub_insert, insert_at, sub_remove, remove_at}

module _ {K V A : Type 0} (t : Trie K V A) (fuel d : ℕ) (h : Digest) (k : K) (n : Hamt K V A) where
  pub sub_insert-none :
      (v : V) → t.select_slot h d ≡ none → sub_insert t (suc fuel) d h k v n ≡ (n, panicked)
  unfolding sub_insert
  sub_insert-none v e = rw (e, sub_insert)

  pub sub_insert-out :
      (v : V) (s : ℕ)
      → t.select_slot h d ≡ some s
      → get_handle (children n) s ≡ none
      → sub_insert t (suc fuel) d h k v n ≡ (n, panicked)
  unfolding sub_insert
  sub_insert-out v s e g = rw (e, sub_insert, g)

  pub sub_insert-some :
      (v : V) (s : ℕ) (slot : Slot K V A)
      → t.select_slot h d ≡ some s
      → get_handle (children n) s ≡ some slot
      → sub_insert t (suc fuel) d h k v n
        ≡ insert_at t
            (sub_insert t fuel)
            d
            h
            k
            v
            n
            s
            (inner_mut t.load slot).0
            (inner_mut t.load slot).1
  unfolding sub_insert
  sub_insert-some v s slot e g = rw (e, sub_insert, g)

  pub sub_remove-none : t.select_slot h d ≡ none → sub_remove t (suc fuel) d h k n ≡ (n, panicked)
  unfolding sub_remove
  sub_remove-none e = rw (e, sub_remove)

  pub sub_remove-out :
      (s : ℕ)
      → t.select_slot h d ≡ some s
      → get_handle (children n) s ≡ none
      → sub_remove t (suc fuel) d h k n ≡ (n, panicked)
  unfolding sub_remove
  sub_remove-out s e g = rw (e, sub_remove, g)

  pub sub_remove-some :
      (s : ℕ) (slot : Slot K V A)
      → t.select_slot h d ≡ some s
      → get_handle (children n) s ≡ some slot
      → sub_remove t (suc fuel) d h k n
        ≡ remove_at t
            (sub_remove t fuel)
            d
            h
            k
            n
            s
            (inner_mut t.load slot).0
            (inner_mut t.load slot).1
  unfolding sub_remove
  sub_remove-some s slot e g = rw (e, sub_remove, g)
