-- ===== src/Nibbles/Halves.antt =====
-- The half of a byte that is replaced, and the other half.
use kelvin.Prelude.{
  ℕ, zero, suc, ◌%◌, ◌<◌, Bool, true, false, ◌&&◌, ◌==◌, ==_iff, ltb, ltb→lt, ◌≡◌, refl, sym, ap,
  ◌∙◌, arith, Bool-cases, inl, inr,
}
use kelvin.Nibbles.{half}
use kelvin.Nibbles.Buf.{set_half}

-- A test that holds of every number below `count`.
unfoldable pub holds : (ℕ → Bool) → ℕ → Bool
holds test zero = true
holds test (suc count) = holds test count && test count

pub holds-below :
    (test : ℕ → Bool) (count x : ℕ) → holds test count ≡ true → x < count → test x ≡ true
unfolding holds
holds-below test zero x all p = absurd (omega arith)
holds-below test (suc count) x all p = ground (arith, holds-below test count x)

-- The test of one byte and one half: it is read back, and the other half is as it was.
abbrev keeps : ℕ → ℕ → Bool
keeps byte to =
    (half 0 (set_half 0 to byte) == to)
    && (half 1 (set_half 0 to byte) == half 1 byte)
    && (half 1 (set_half 1 to byte) == to)
    && (half 0 (set_half 1 to byte) == half 0 byte)
    && ltb (set_half 0 to byte) 256
    && ltb (set_half 1 to byte) 256

table : holds (λ byte. holds (λ to. keeps byte to) 16) 256 ≡ true
unfolding holds half set_half
table = refl

keeps-lem : (byte to : ℕ) → byte < 256 → to < 16 → keeps byte to ≡ true
keeps-lem byte to p q =
    holds-below (λ x. keeps byte x) 16 to
      (holds-below (λ x. holds (λ y. keeps x y) 16) 256 byte table p) q

pub and_parts : (a b : Bool) → (a && b) ≡ true → (a ≡ true) × (b ≡ true)
and_parts true true e = (refl, refl)
and_parts true false e = absurd (cc)
and_parts false true e = absurd (cc)
and_parts false false e = absurd (cc)

-- A half depends on the parity of the position alone.
half-even : (p y : ℕ) → p % 2 == 0 ≡ true → half p y ≡ half 0 y
unfolding half
half-even p y e = rw e refl

half-odd : (p y : ℕ) → p % 2 == 0 ≡ false → half p y ≡ half 1 y
unfolding half
half-odd p y e = rw e refl

set_half-even : (p to y : ℕ) → p % 2 == 0 ≡ true → set_half p to y ≡ set_half 0 to y
unfolding set_half
set_half-even p to y e = rw e refl

set_half-odd : (p to y : ℕ) → p % 2 == 0 ≡ false → set_half p to y ≡ set_half 1 to y
unfolding set_half
set_half-odd p to y e = rw e refl

module _ (p to byte : ℕ) (small : byte < 256) (nibble_of : to < 16) where
  facts :
      (half 0 (set_half 0 to byte) ≡ to)
      × (half 1 (set_half 0 to byte) ≡ half 1 byte)
      × (half 1 (set_half 1 to byte) ≡ to)
      × (half 0 (set_half 1 to byte) ≡ half 0 byte)
      × (set_half 0 to byte < 256)
      × (set_half 1 to byte < 256)
  facts =
      let (r₁, e₁) = and_parts _ _ (keeps-lem byte to small nibble_of) in
      let (r₂, e₂) = and_parts _ _ r₁ in
      let (r₃, e₃) = and_parts _ _ r₂ in
      let (r₄, e₄) = and_parts _ _ r₃ in
      let (e₆, e₅) = and_parts _ _ r₄ in
      (
        (==_iff _ _).0 e₆,
        (==_iff _ _).0 e₅,
        (==_iff _ _).0 e₄,
        (==_iff _ _).0 e₃,
        ltb→lt _ 256 e₂,
        ltb→lt _ 256 e₁,
      )

  pub set_half-lt : set_half p to byte < 256
  set_half-lt = elim (Bool-cases (p % 2 == 0)) [
    | inl even ↦ rw (set_half-even p to byte even) facts.4
    | inr odd ↦ rw (set_half-odd p to byte odd) facts.5
  ]

  -- The half that was set is read back.
  pub half-set_half : half p (set_half p to byte) ≡ to
  half-set_half = elim (Bool-cases (p % 2 == 0)) [
    | inl even ↦
        half-even p (set_half p to byte) even ∙ ap (half 0) (set_half-even p to byte even) ∙ facts.0
    | inr odd ↦
        half-odd p (set_half p to byte) odd ∙ ap (half 1) (set_half-odd p to byte odd) ∙ facts.2
  ]

  -- The other half is as it was.
  pub half-set_other : (q : ℕ) → p ≡ suc q → half q (set_half p to byte) ≡ half q byte
  half-set_other q next = elim (Bool-cases (p % 2 == 0)) [
    | inl even ↦
        let odd_q : q % 2 == 0 ≡ false = ground (arith, even, next) in
        half-odd q (set_half p to byte) odd_q
        ∙ ap (half 1) (set_half-even p to byte even)
        ∙ facts.1
        ∙ sym (half-odd q byte odd_q)
    | inr odd ↦
        let even_q : q % 2 == 0 ≡ true = ground (arith, odd, next) in
        half-even q (set_half p to byte) even_q
        ∙ ap (half 0) (set_half-odd p to byte odd)
        ∙ facts.3
        ∙ sym (half-even q byte even_q)
  ]

half_table : holds (λ y. ltb (half 0 y) 16 && ltb (half 1 y) 16) 256 ≡ true
unfolding holds half
half_table = refl

pub half-lt : (p y : ℕ) → y < 256 → half p y < 16
half-lt p y small =
    let (even_lt, odd_lt) =
      and_parts _ _
        (holds-below (λ y. ltb (half 0 y) 16 && ltb (half 1 y) 16) 256 y half_table small) in
    elim (Bool-cases (p % 2 == 0)) [
      | inl even ↦ rw (half-even p y even) (ltb→lt _ 16 even_lt)
      | inr odd ↦ rw (half-odd p y odd) (ltb→lt _ 16 odd_lt)
    ]
