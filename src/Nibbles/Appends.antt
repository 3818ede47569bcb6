-- ===== src/Nibbles/Appends.antt =====
-- `append` on a `NibbleBuf`.
use kelvin.Prelude.{
  ℕ, zero, suc, ◌+◌, ◌/◌, ◌<◌, ◌≤◌, ◌*◌, ◌≡◌, refl, ◌∙◌, arith, length, get_elem?-within,
}
use kelvin.Prelude.Outcome.{ok}
use kelvin.Nibbles.{Nibbles, nibble, half, half_of, nibbles_len}
use kelvin.Nibbles.Laws.{IsNibbles}
use kelvin.Nibbles.Buf.{NibbleBuf, get, len, append_from, append}
use kelvin.Nibbles.Halves.{half-lt}
use kelvin.Nibbles.Digits.{AreBytes}
use kelvin.Nibbles.Growth.{IsBuf, push-IsPushed, get_elem?-AreBytes}

-- A nibble that is read is below 16.
nibble-lt :
    (n : Nibbles) (i : ℕ)
    → IsNibbles n
    → AreBytes n.bytes
    → i < nibbles_len n
    → (x : ℕ) × (nibble n i ≡ ok x) × (x < 16)
unfolding nibble nibbles_len half_of
nibble-lt n i w bytes_w p =
    let before : n.ofs_front ≤ n.ofs_back = w.ordered in
    let inside : n.ofs_back ≤ length n.bytes * 2 = w.within in
    let (byte, e) = get_elem?-within n.bytes ((n.ofs_front + i) / 2) (omega arith) in
    (
      half (i + n.ofs_front) byte,
      rw e refl,
      half-lt (i + n.ofs_front) byte
          (get_elem?-AreBytes n.bytes ((n.ofs_front + i) / 2) byte bytes_w e),
    )

-- The nibbles from `i` on behind those of the buffer.
abbrev pub IsAppended : NibbleBuf → Nibbles → ℕ → ℕ → NibbleBuf → Type 0
IsAppended b n left i b' =
    IsBuf b'
    × (len b' ≡ len b + left)
    × ((j : ℕ) → j < len b → get b' j ≡ get b j)
    × ((j : ℕ) → j < left → get b' (len b + j) ≡ nibble n (i + j))

append_from-IsAppended :
    (left i : ℕ) (b : NibbleBuf) (n : Nibbles)
    → IsBuf b
    → IsNibbles n
    → AreBytes n.bytes
    → i + left ≡ nibbles_len n
    → (b' : NibbleBuf) × (append_from left i b n ≡ ok b') × IsAppended b n left i b'
unfolding append_from
append_from-IsAppended zero i b n w v bytes_v e =
    (b, refl, (w, omega arith, λ j p. refl, λ j p. absurd (omega (arith, p))))
append_from-IsAppended (suc left) i b n w v bytes_v e =
    let (x, read, small) = nibble-lt n i v bytes_v (omega (arith, e)) in
    let (b₁, done₁, (w₁, size₁, last₁, before₁)) = push-IsPushed b x w small in
    let (b₂, done₂, (w₂, size₂, before₂, after₂)) =
      append_from-IsAppended left (suc i) b₁ n w₁ v bytes_v (omega (arith, e)) in
    (
      b₂,
      rw (append_from, read, done₁) done₂,
      (
        w₂,
        omega (arith, size₁, size₂),
        λ j p. before₂ j (omega (arith, size₁, p)) ∙ before₁ j p,
        λ j p. later b n b₁ b₂ left i x read size₁ last₁ before₂ after₂ j p,
      ),
    )
  where
    later :
        (b : NibbleBuf) (n : Nibbles) (b₁ b₂ : NibbleBuf) (left i x : ℕ)
        → nibble n i ≡ ok x
        → len b₁ ≡ suc (len b)
        → get b₁ (len b) ≡ ok x
        → ((j : ℕ) → j < len b₁ → get b₂ j ≡ get b₁ j)
        → ((j : ℕ) → j < left → get b₂ (len b₁ + j) ≡ nibble n (suc i + j))
        → (j : ℕ) → j < suc left
        → get b₂ (len b + j) ≡ nibble n (i + j)
    later b n b₁ b₂ left i x read size last before after zero p =
        let z : len b + 0 ≡ len b = omega arith in
        let y : i + 0 ≡ i = omega arith in
        rw (z, y, read) (before (len b) (omega (arith, size)) ∙ last)
    later b n b₁ b₂ left i x read size last before after (suc j) p =
        let z : len b + suc j ≡ len b₁ + j = omega (arith, size) in
        let y : i + suc j ≡ suc i + j = omega arith in rw (z, y) (after j (omega (arith, p)))

-- On a well-formed buffer and well-formed nibbles over bytes `append` does not panic. It leaves a
-- well-formed buffer with its own nibbles and then the others.
pub append-IsAppended :
    (b : NibbleBuf) (n : Nibbles)
    → IsBuf b
    → IsNibbles n
    → AreBytes n.bytes
    → (b' : NibbleBuf) × (append b n ≡ ok b') × IsAppended b n (nibbles_len n) 0 b'
unfolding append
append-IsAppended b n w v bytes_v =
    append_from-IsAppended (nibbles_len n) 0 b n w v bytes_v (omega arith)
