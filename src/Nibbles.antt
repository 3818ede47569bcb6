-- ===== src/Nibbles.antt =====
-- structures/radix/src/nibbles.rs: the keys of the radix tree as sequences of half bytes.
pub mod Laws
pub mod Buf
mod Halves
pub mod Digits
pub mod Prefix
pub mod Growth
pub mod Appends
pub mod Written
mod Tests
use Prim.Native.Nat.{bit_and}
use kelvin.Prelude.{
  ℕ, zero, suc, ◌+◌, ◌-◌, ◌*◌, ◌/◌, ◌%◌, ◌^◌, Option, none, some, List, if◌then◌else◌, ◌==◌, ltb,
  length, get_elem?,
}
use kelvin.Prelude.Outcome.{Outcome, ok, panicked, ◌>>=◌}

-- `Nibbles`
pub record Nibbles : Type 0 where
  pub bytes : List ℕ
  pub ofs_front : ℕ
  pub ofs_back : ℕ

-- `Nibbles::new` and `From<&A>`
unfoldable pub nibbles_new : List ℕ → Nibbles
nibbles_new bytes = record { bytes = bytes; ofs_front = 0; ofs_back = length bytes * 2 }

-- The half of a byte: the first where the position is even.
unfoldable pub half : ℕ → ℕ → ℕ
half position byte = if position % 2 == 0 then bit_and byte 0xf0 / 2 ^ 4 else bit_and byte 0x0f

unfoldable pub half_of : ℕ → Option ℕ → Outcome ℕ
unfolding half
half_of position none = panicked
half_of position (some byte) = ok (half position byte)

-- `Nibbles::get`; an index past the bytes panics.
unfoldable pub nibble : Nibbles → ℕ → Outcome ℕ
unfolding half_of
nibble n idx = half_of (idx + n.ofs_front) (get_elem? n.bytes ((n.ofs_front + idx) / 2))

-- `Nibbles::len`, on offsets that are in order.
unfoldable pub nibbles_len : Nibbles → ℕ
nibbles_len n = n.ofs_back - n.ofs_front

-- `Nibbles::pop_nibble`; the assertion is one of debug builds.
unfoldable pub pop_nibble : Nibbles → Outcome (ℕ × Nibbles)
unfolding nibble
pop_nibble n = nibble n 0 >>= λ x. ok (x, record n { ofs_front = n.ofs_front + 1 })

unfoldable pub trim_front : Nibbles → ℕ → Nibbles
trim_front n by = record n { ofs_front = n.ofs_front + by }

unfoldable pub trim_back : Nibbles → ℕ → Nibbles
trim_back n by = record n { ofs_back = n.ofs_back - by }

-- The loop of `common_prefix_len`, from `i` on over what is left of the shorter sequence.
unfoldable pub common_from : ℕ → ℕ → Nibbles → Nibbles → Outcome ℕ
unfolding nibble
common_from zero i a b = ok i
common_from (suc left) i a b = nibble a i >>= λ x. nibble b i >>= λ y.
    let further = common_from left (suc i) a b in if x == y then further else ok i

unfoldable pub shorter : Nibbles → Nibbles → ℕ
unfolding nibbles_len
shorter a b = if ltb (nibbles_len b) (nibbles_len a) then nibbles_len b else nibbles_len a

-- `Nibbles::common_prefix_len`
unfoldable pub common_prefix_len : Nibbles → Nibbles → Outcome ℕ
unfolding common_from shorter
common_prefix_len a b = common_from (shorter a b) 0 a b

-- `Nibbles::common_prefix`
unfoldable pub common_prefix : Nibbles → Nibbles → Outcome Nibbles
unfolding common_prefix_len trim_back nibbles_len
common_prefix a b = common_prefix_len a b >>= λ len. ok (trim_back a (nibbles_len a - len))
