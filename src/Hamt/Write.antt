-- ===== src/Hamt/Write.antt =====
-- The reading of a trie after one slot of its root was written.
use kelvin.Prelude.{
  ℕ, suc, Option, some, Bool, true, false, if◌then◌else◌, ◌≡◌, ◌≢◌, sym, ◌∙◌, ap, Option-cases,
  Bool-cases, inl, inr, ℕ_discrete,
}
use kelvin.Prelude.Outcome.{Outcome, ok, ◌>>=◌}
use kelvin.Handle.{children, get_handle, inner, set_child}
use kelvin.Handle.Laws.{child-set_self, child-set_ne}
use kelvin.Hamt.{Trie, Hamt, Slot}
use kelvin.Hamt.Get.{find, find_at, find-some, find-same}
use kelvin.Hamt.Invariant.{IsLawful, same_depth}

module _ {K V A : Type 0} (t : Trie K V A) (lawful : IsLawful t) where
  -- The reading of key `j` below a slot.
  abbrev pub below : ℕ → ℕ → K → Slot K V A → Outcome (Option V)
  below fuel d j slot = inner t.load slot >>= find_at t (find t fuel (suc d) (t.hash j) j) j

  -- Writing slot `s`, which is that of `k`, changes the reading at the keys `hit` alone, to `w`, if
  -- these have that slot and the write does so below it.
  pub find-set_child :
      (fuel d s : ℕ) (slot slot' : Slot K V A) (n : Hamt K V A) (k : K) (hit : K → Bool)
      (w : Option V)
      → t.select_slot (t.hash k) d ≡ some s
      → get_handle (children n) s ≡ some slot
      → ((j : K) → hit j ≡ true → t.select_slot (t.hash j) d ≡ some s)
      → ((j : K) → below fuel d j slot' ≡ (if hit j then ok w else below fuel d j slot))
      → (j : K)
      → find t (suc fuel) d (t.hash j) j (set_child n s slot')
        ≡ (if hit j then ok w else find t (suc fuel) d (t.hash j) j n)
  find-set_child fuel d s slot slot' n k hit w e g only local j =
      elim (Option-cases (t.select_slot (t.hash j) d)) [
        | inl no_slot ↦ absurd (cc (e, same_depth t lawful j k d no_slot))
        | inr (s', e') ↦ elim (ℕ_discrete s s') [
          | yes p ↦
              let ej = e' ∙ ap (λ x. some x) (sym p) in
              find-some t fuel d (t.hash j) j _ s slot' ej (child-set_self n s slot' g)
              ∙ rw (find-some t fuel d (t.hash j) j n s slot ej g) (local j)
          | no p ↦
              rw (other s' e' p)
                (find-same t fuel d (t.hash j) j n s' _ e' (child-set_ne n s s' slot' p))
        ]
      ]
    where
      other : (s' : ℕ) → t.select_slot (t.hash j) d ≡ some s' → s ≢ s' → hit j ≡ false
      other s' e' p = elim (Bool-cases (hit j)) [
        | inl same ↦ absurd (p (cc (e', only j same)))
        | inr differ ↦ differ
      ]

  -- A key that is `k` has the slots of `k`.
  pub same_slot :
      (d s : ℕ) (k j : K)
      → t.select_slot (t.hash k) d ≡ some s
      → t.eq k j ≡ true
      → t.select_slot (t.hash j) d ≡ some s
  same_slot d s k j e same = cc (ap t.hash ((lawful.eq_iff k j).0 same))
