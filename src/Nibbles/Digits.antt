-- ===== src/Nibbles/Digits.antt =====
-- `get` of structures/radix/src/nibbles.rs reads the bytes as digits in base 16.
use native.Mathlib.Nat.{add_comm}
use kelvin.Prelude.{
  ℕ, zero, suc, ◌+◌, ◌/◌, ◌%◌, ◌<◌, Option, none, some, List, [], ◌∷◌, true, ◌==◌, ==_iff, ◌&&◌,
  ◌≡◌, refl, ap, ◌∙◌, get_elem?, arith,
}
use kelvin.Prelude.Outcome.{Outcome, ok, panicked}
use kelvin.Nibbles.{Nibbles, nibble, half, half_of}
use kelvin.Nibbles.Halves.{holds, holds-below, and_parts}

abbrev pub AreBytes : List ℕ → Type 0
AreBytes [] = Unit
AreBytes (x ∷ xs) = (x < 256) × AreBytes xs

-- The digits of the bytes in base 16, the higher one of a byte first.
abbrev pub digits : List ℕ → List ℕ
digits [] = []
digits (x ∷ xs) = x / 16 ∷ x % 16 ∷ digits xs

-- An element, or the panic of an index past the last.
abbrev pub at_index : Option ℕ → Outcome ℕ
at_index none = panicked
at_index (some x) = ok x

halves_table : holds (λ x. (half 0 x == x / 16) && (half 1 x == x % 16)) 256 ≡ true
unfolding holds half
halves_table = refl

half-digits : (x : ℕ) → x < 256 → (half 0 x ≡ x / 16) × (half 1 x ≡ x % 16)
half-digits x p =
    let (high, low) =
      and_parts _ _
        (holds-below (λ x. (half 0 x == x / 16) && (half 1 x == x % 16)) 256 x halves_table p) in
    ((==_iff _ _).0 high, (==_iff _ _).0 low)

half_of-suc-suc : (p : ℕ) (o : Option ℕ) → half_of (suc (suc p)) o ≡ half_of p o
unfolding half_of half
half_of-suc-suc p none = refl
half_of-suc-suc p (some x) = let same : suc (suc p) % 2 ≡ p % 2 = omega arith in rw same refl

half_of-digits :
    (p : ℕ) (xs : List ℕ)
    → AreBytes xs
    → half_of p (get_elem? xs (p / 2)) ≡ at_index (get_elem? (digits xs) p)
unfolding half_of
half_of-digits p [] w = refl
half_of-digits zero (x ∷ xs) (small, w) = ap ok (half-digits x small).0
half_of-digits (suc zero) (x ∷ xs) (small, w) = ap ok (half-digits x small).1
half_of-digits (suc (suc p)) (x ∷ xs) (small, w) =
    let next : suc (suc p) / 2 ≡ suc (p / 2) = omega arith in
    rw next (half_of-suc-suc p (get_elem? xs (p / 2)) ∙ half_of-digits p xs w)

-- The nibble at an index is the digit behind the front.
pub nibble-digits :
    (n : Nibbles) (i : ℕ)
    → AreBytes n.bytes
    → nibble n i ≡ at_index (get_elem? (digits n.bytes) (n.ofs_front + i))
unfolding nibble
nibble-digits n i w = rw (add_comm i n.ofs_front) (half_of-digits (n.ofs_front + i) n.bytes w)
