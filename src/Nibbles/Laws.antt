-- ===== src/Nibbles/Laws.antt =====
-- The loop of `common_prefix_len` of structures/radix/src/nibbles.rs, and what a nibble is read from.
use kelvin.Prelude.{
  ℕ, zero, suc, ◌+◌, ◌*◌, ◌/◌, ◌≤◌, ◌<◌, ◌≡◌, ◌≢◌, refl, arith, length, get_elem?-within, ◌==◌,
  ==_iff, ℕ_discrete, sym, ap, Bool-cases, inl, inr,
}
use kelvin.Prelude.Outcome.{ok}
use kelvin.Nibbles.{Nibbles, nibble, half, half_of, nibbles_len, common_from}

-- The offsets are in order, and within the bytes.
pub record IsNibbles (n : Nibbles) : Type 0 where
  pub ordered : n.ofs_front ≤ n.ofs_back
  pub within : n.ofs_back ≤ length n.bytes * 2

pub nibble-ok :
    (n : Nibbles) (i : ℕ) → IsNibbles n → i < nibbles_len n → (x : ℕ) × (nibble n i ≡ ok x)
unfolding nibble nibbles_len half_of
nibble-ok n i w p =
    let before : n.ofs_front ≤ n.ofs_back = w.ordered in
    let inside : n.ofs_back ≤ length n.bytes * 2 = w.within in
    let (byte, e) = get_elem?-within n.bytes ((n.ofs_front + i) / 2) (omega arith) in
    (half (i + n.ofs_front) byte, rw e refl)

-- A result of the loop: the nibbles agree from `i` up to it, and it is the end or a difference.
abbrev pub IsCommon : ℕ → ℕ → Nibbles → Nibbles → ℕ → Type 0
IsCommon i end a b len =
    (i ≤ len)
    × (len ≤ end)
    × ((j : ℕ) → i ≤ j → j < len → nibble a j ≡ nibble b j)
    × (len < end → nibble a len ≢ nibble b len)

pub common_from-IsCommon :
    (left i end : ℕ) (a b : Nibbles)
    → IsNibbles a
    → IsNibbles b
    → left + i ≡ end
    → end ≤ nibbles_len a
    → end ≤ nibbles_len b
    → (len : ℕ) × (common_from left i a b ≡ ok len) × IsCommon i end a b len
unfolding common_from
common_from-IsCommon zero i end a b v w o p q =
    (i, refl, (omega arith, omega arith, λ j r s. absurd (omega arith), λ r. absurd (omega arith)))
common_from-IsCommon (suc left) i end a b v w o p q =
    let (x, e) = nibble-ok a i v (omega arith) in
    let (y, g) = nibble-ok b i w (omega arith) in
    elim (Bool-cases (x == y)) [
      | inl same ↦
          let xy : x ≡ y = (==_iff x y).0 same in
          let (len, done, (low, high, agree, differ)) =
            common_from-IsCommon left (suc i) end a b v w (omega arith) p q in
          (
            len,
            rw (e, g, same) done,
            (
              omega (arith, low),
              omega (arith, high),
              λ j r s. elim (ℕ_discrete i j) [
                | yes here ↦ rw (sym here, e, g) (ap ok xy)
                | no past ↦ agree j (omega (arith, past, r)) s
              ],
              λ r. differ (omega (arith, r)),
            ),
          )
      | inr other ↦ (
        i,
        rw (e, g, other) refl,
        (
          omega arith,
          omega arith,
          λ j r s. absurd (omega arith),
          λ r. λ same. absurd (grind (arith, e, g, other, same)),
        ),
      )
    ]
