-- ===== src/Hamt/Widths.antt =====
-- structures/hamt/src/lib.rs: `HAMT` and `NarrowHAMT`, the two tries that `HAMTTrait` is for.
use Prim.Native.Nat.{bit_and}
use mathlib.Core.Option
use kelvin.Prelude.{
  get_elem?-within, ℕ, zero, suc, ◌+◌, ◌*◌, ◌/◌, ◌<◌, ◌≤◌, ◌^◌, subst, fun_ext, Bool, true, false,
  none, some, List, [], ◌∷◌, ◌≡◌, ◌↔◌, refl, arith, if◌then◌else◌, ltb, ltb→lt, length, get_elem?,
  ◌&&◌, ap, Option-cases, inl, inr,
}
use kelvin.Prelude.Outcome.{Outcome}
use kelvin.Annotation.{Annotation}
use kelvin.Handle.{Digest, Node}
use kelvin.Hamt.{Trie, wide_slot, narrow_slot, select_slot_wide, select_slot_narrow}
use kelvin.Hamt.Invariant.{IsLawful}

-- A digest is `len` bytes.
abbrev pub IsBytes : List ℕ → Type 0
IsBytes [] = Unit
IsBytes (b ∷ bs) = (b < 256) × IsBytes bs

-- What the code uses of a hash and of `==` on keys.
pub record IsHash {K : Type 0} (eq : K → K → Bool) (hash : K → Digest) (len : ℕ) : Type 0 where
  pub eq_iff : (j k : K) → (eq j k ≡ true) ↔ (j ≡ k)
  pub length_lem : (k : K) → length (hash k) ≡ len
  pub bytes : (k : K) → IsBytes (hash k)

get_elem?-byte : (h : Digest) (i b : ℕ) → IsBytes h → get_elem? h i ≡ some b → b < 256
get_elem?-byte [] i b bs e = absurd (cc)
get_elem?-byte (x ∷ h) zero b bs e = subst (λ y. y < 256) (cc) bs.0
get_elem?-byte (x ∷ h) (suc i) b bs e = get_elem?-byte h i b bs.1 e

get_elem?-past : (h : Digest) (i : ℕ) → length h ≤ i → get_elem? h i ≡ none
get_elem?-past [] i p = refl
get_elem?-past (x ∷ h) zero p = absurd (omega arith)
get_elem?-past (x ∷ h) (suc i) p = get_elem?-past h i (omega arith)

-- A test that gives a slot below `bound`, of every byte below `count`.
fits : (ℕ → ℕ) → ℕ → ℕ → Bool
fits slot bound zero = true
fits slot bound (suc count) = fits slot bound count && ltb (slot count) bound

lt_of_fits :
    (slot : ℕ → ℕ) (bound count byte : ℕ)
    → fits slot bound count ≡ true
    → byte < count
    → slot byte < bound
unfolding fits
lt_of_fits slot bound zero byte all p = absurd (omega arith)
lt_of_fits slot bound (suc count) byte all p =
    ground (arith, lt_of_fits slot bound count byte, ltb→lt (slot count) bound)

high_table : fits (λ x. bit_and x 0xf0 / 2 ^ 4) 16 256 ≡ true
unfolding fits
high_table = refl

low_table : fits (λ x. bit_and x 0x0f) 16 256 ≡ true
unfolding fits
low_table = refl

narrow_table : fits (λ x. bit_and x 3) 4 256 ≡ true
unfolding fits
narrow_table = refl

if_same : {A : Type 0} (b : Bool) (x : A) → (if b then x else x) ≡ x
if_same true x = refl
if_same false x = refl

narrow_slot_lem : (ofs b : ℕ) → narrow_slot ofs b ≡ bit_and b 3
unfolding narrow_slot
narrow_slot_lem ofs b = simp if_same

-- Every slot of the narrow trie is the two low bits of a byte, whichever two the depth should pick.
pub select_slot_narrow-low_bits :
    (h : Digest) (d : ℕ)
    → select_slot_narrow h d ≡ Option.map (λ b. bit_and b 3) (get_elem? h (d / 4))
unfolding select_slot_narrow
select_slot_narrow-low_bits h d =
    ap (λ f. Option.map f (get_elem? h (d / 4))) (fun_ext (λ b. narrow_slot_lem (d / 4) b))

-- Two successive depths of the wide trie name the same slot, so half of the digest is never used.
pub select_slot_wide_repeats :
    (h : Digest) (i : ℕ) → select_slot_wide h (2 * i) ≡ select_slot_wide h (2 * i + 1)
unfolding select_slot_wide
select_slot_wide_repeats h i =
    let even : 2 * i / 2 ≡ i = omega arith in
    let odd : (2 * i + 1) / 2 ≡ i = omega arith in rw (even, odd, select_slot_wide)

-- `HAMT` and `NarrowHAMT` over a hash of `len` bytes.
module _ {K V A : Type 0} (eq : K → K → Bool) (hash : K → Digest)
    (annotation : Annotation (K × V) A) (load : Digest → Outcome (Node (K × V) A (Unit {0})))
    (len : ℕ) where
  abbrev pub wide : Trie K V A
  wide = record {
    eq = eq;
    hash = hash;
    annotation = annotation;
    load = load;
    width = 16;
    select_slot = select_slot_wide;
    fuel = 2 * len;
  }

  abbrev pub narrow : Trie K V A
  narrow = record {
    eq = eq;
    hash = hash;
    annotation = annotation;
    load = load;
    width = 4;
    select_slot = select_slot_narrow;
    fuel = 4 * len;
  }

  module _ (hashed : IsHash eq hash len) where
    wide_bound : (k : K) (d s : ℕ) → select_slot_wide (hash k) d ≡ some s → s < 16
    unfolding wide_slot select_slot_wide
    wide_bound k d s e = elim (Option-cases (get_elem? (hash k) (d / 2))) [
      | inl g ↦ absurd (cc (rw (select_slot_wide, g) at e))
      | inr (b, g) ↦
          let byte = get_elem?-byte (hash k) (d / 2) b (hashed.bytes k) g in
          let high = lt_of_fits (λ x. bit_and x 0xf0 / 2 ^ 4) 16 256 b high_table byte in
          let low = lt_of_fits (λ x. bit_and x 0x0f) 16 256 b low_table byte in
          let in_range : wide_slot (d / 2) b < 16 = ground arith in
          subst (λ y. y < 16) (cc (rw (select_slot_wide, g) at e)) in_range
    ]

    narrow_bound : (k : K) (d s : ℕ) → select_slot_narrow (hash k) d ≡ some s → s < 4
    narrow_bound k d s e = elim (Option-cases (get_elem? (hash k) (d / 4))) [
      | inl g ↦ absurd (cc (e, rw g at (select_slot_narrow-low_bits (hash k) d)))
      | inr (b, g) ↦
          let byte = get_elem?-byte (hash k) (d / 4) b (hashed.bytes k) g in
          let low = lt_of_fits (λ x. bit_and x 3) 4 256 b narrow_table byte in
          let at = rw g at (select_slot_narrow-low_bits (hash k) d) in subst (λ y. y < 4) (cc) low
    ]

    -- The wide trie over a hash of `len` bytes meets what the trie relies on.
    pub wide-IsLawful : IsLawful wide
    unfolding select_slot_wide
    wide-IsLawful = record {
      eq_iff = hashed.eq_iff;
      slot_bound = wide_bound;
      no_slot = λ k d p. rw (
        get_elem?-past (hash k) (d / 2) (rw (hashed.length_lem k) (omega arith)),
        select_slot_wide,
      );
      has_slot = λ k d p.
          let (b, g) = get_elem?-within (hash k) (d / 2) (rw (hashed.length_lem k) (omega arith)) in
          (wide_slot (d / 2) b, rw (g, select_slot_wide));
    }

    -- So does the narrow one.
    pub narrow-IsLawful : IsLawful narrow
    unfolding select_slot_narrow
    narrow-IsLawful = record {
      eq_iff = hashed.eq_iff;
      slot_bound = narrow_bound;
      no_slot = λ k d p. rw (
        get_elem?-past (hash k) (d / 4) (rw (hashed.length_lem k) (omega arith)),
        select_slot_narrow,
      );
      has_slot = λ k d p.
          let (b, g) = get_elem?-within (hash k) (d / 4) (rw (hashed.length_lem k) (omega arith)) in
          (narrow_slot (d / 4) b, rw (g, select_slot_narrow));
    }
