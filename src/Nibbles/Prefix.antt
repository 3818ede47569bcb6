-- ===== src/Nibbles/Prefix.antt =====
-- `common_prefix` of structures/radix/src/nibbles.rs: the longest prefix that two sequences share.
use kelvin.Prelude.{
  ℕ, ◌+◌, ◌≤◌, ◌<◌, ◌≡◌, refl, sym, ap, ◌∙◌, arith, dec_lt, Option, none, some, get_elem?,
}
use kelvin.Prelude.Outcome.{ok}
use kelvin.Nibbles.{
  Nibbles, nibble, nibbles_len, common_prefix_len, common_prefix, shorter, trim_back,
}
use kelvin.Nibbles.Digits.{AreBytes, digits, at_index, nibble-digits}
use kelvin.Nibbles.Laws.{IsNibbles, IsCommon, common_from-IsCommon}

at_index_inj : (o p : Option ℕ) → at_index o ≡ at_index p → o ≡ p
at_index_inj none none e = refl
at_index_inj none (some y) e = absurd (cc)
at_index_inj (some x) none e = absurd (cc)
at_index_inj (some x) (some y) e = cc

-- The first `len` digits of each sequence, which has as many, are the same.
abbrev pub IsCommonPrefix : Nibbles → Nibbles → ℕ → Type 0
IsCommonPrefix a b len =
    (a.ofs_front + len ≤ a.ofs_back)
    × (b.ofs_front + len ≤ b.ofs_back)
    × ((j : ℕ)
        → j < len
        → get_elem? (digits a.bytes) (a.ofs_front + j)
          ≡ get_elem? (digits b.bytes) (b.ofs_front + j))

abbrev pub IsLongest : Nibbles → Nibbles → ℕ → Type 0
IsLongest a b len = IsCommonPrefix a b len × ((k : ℕ) → IsCommonPrefix a b k → k ≤ len)

IsCommon-IsLongest :
    (a b : Nibbles) (len : ℕ)
    → IsNibbles a
    → IsNibbles b
    → AreBytes a.bytes
    → AreBytes b.bytes
    → IsCommon 0 (shorter a b) a b len
    → IsLongest a b len
unfolding shorter nibbles_len
IsCommon-IsLongest a b len v w bytes_a bytes_b (low, high, agree, differ) =
    let ordered_a : a.ofs_front ≤ a.ofs_back = v.ordered in
    let ordered_b : b.ofs_front ≤ b.ofs_back = w.ordered in
    (
      (ground arith, ground arith, λ j r. same_digits j (agree j (omega arith) r)),
      λ k (in_a, in_b, same). elim (dec_lt len k) [
        | no p ↦ omega (arith, p)
        | yes p ↦ absurd (differ (ground arith) (same_nibble len (same len p)))
      ],
    )
  where
    same_digits :
        (j : ℕ)
        → nibble a j ≡ nibble b j
        → get_elem? (digits a.bytes) (a.ofs_front + j)
          ≡ get_elem? (digits b.bytes) (b.ofs_front + j)
    same_digits j e =
        at_index_inj _ _ (sym (nibble-digits a j bytes_a) ∙ e ∙ nibble-digits b j bytes_b)

    same_nibble :
        (j : ℕ)
        → get_elem? (digits a.bytes) (a.ofs_front + j)
          ≡ get_elem? (digits b.bytes) (b.ofs_front + j)
        → nibble a j ≡ nibble b j
    same_nibble j e = nibble-digits a j bytes_a ∙ ap at_index e ∙ sym (nibble-digits b j bytes_b)

-- On sequences of bytes below 256, with offsets in order and within them, `common_prefix_len` and
-- `common_prefix` do not panic, and give the longest common prefix: both sequences have that many
-- nibbles, and these are the same digits of the bytes in base 16; where both have any number of nibbles
-- that are the same from the front on, it is no greater; and the prefix is the first sequence cut to
-- that length.
pub common_prefix-IsLongest :
    (a b : Nibbles)
    → IsNibbles a
    → IsNibbles b
    → AreBytes a.bytes
    → AreBytes b.bytes
    → (len : ℕ) × (common_prefix_len a b ≡ ok len)
      × (common_prefix a b ≡ ok (record a { ofs_back = a.ofs_front + len }))
      × IsLongest a b len
unfolding common_prefix common_prefix_len shorter trim_back nibbles_len
common_prefix-IsLongest a b v w bytes_a bytes_b =
    let ordered : a.ofs_front ≤ a.ofs_back = v.ordered in
    let (len, e, common) =
      common_from-IsCommon (shorter a b) 0 (shorter a b) a b v w (omega arith) (ground arith)
        (ground arith) in
    let longest = IsCommon-IsLongest a b len v w bytes_a bytes_b common in
    let inside : a.ofs_front + len ≤ a.ofs_back = longest.0.0 in
    (
      len,
      e,
      rw e (ap (λ x. ok (record a { ofs_back = x })) (omega (arith, ordered, inside))),
      longest,
    )
