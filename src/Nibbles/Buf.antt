-- ===== src/Nibbles/Buf.antt =====
-- structures/radix/src/nibbles.rs: `NibbleBuf`, the sequences of half bytes that grow.
use Prim.Native.Nat.{bit_and, bit_or}
use kelvin.Prelude.{
  ℕ, zero, suc, ◌+◌, ◌-◌, ◌*◌, ◌/◌, ◌%◌, ◌^◌, none, some, List, [], ◌∷◌, ◌++◌, Bool, true, false,
  if◌then◌else◌, ◌==◌, ltb, length, get_elem?, take, drop,
}
use kelvin.Prelude.Outcome.{Outcome, ok, panicked, ◌>>=◌}
use kelvin.Content.{Bytes, ByteHash, ByteOrder, Sink, Content, write_all, number, u8, restore_each}
use kelvin.Nibbles.{Nibbles, nibble, nibbles_len}

-- `NibbleBuf`
pub record NibbleBuf : Type 0 where
  pub bytes : List ℕ
  pub ofs_front : ℕ
  pub ofs_back : ℕ

-- `AsNibbles for NibbleBuf`
abbrev pub as_nibbles : NibbleBuf → Nibbles
as_nibbles b = record { bytes = b.bytes; ofs_front = b.ofs_front; ofs_back = b.ofs_back }

-- `Into<NibbleBuf> for Nibbles`
abbrev pub into_buf : Nibbles → NibbleBuf
into_buf n = record { bytes = n.bytes; ofs_front = n.ofs_front; ofs_back = n.ofs_back }

unfoldable pub get : NibbleBuf → ℕ → Outcome ℕ
unfolding nibble
get b i = nibble (as_nibbles b) i

-- `len`, on offsets that are in order.
unfoldable pub len : NibbleBuf → ℕ
len b = b.ofs_back - b.ofs_front

unfoldable pub trim_front : NibbleBuf → ℕ → NibbleBuf
trim_front b by = record b { ofs_front = b.ofs_front + by }

-- `pop_nibble`; the assertion is one of debug builds.
unfoldable pub pop_nibble : NibbleBuf → Outcome (ℕ × NibbleBuf)
unfolding get
pop_nibble b = get b 0 >>= λ x. ok (x, record b { ofs_front = b.ofs_front + 1 })

abbrev pub set_elem : List ℕ → ℕ → ℕ → List ℕ
set_elem [] i x = []
set_elem (y ∷ ys) zero x = x ∷ ys
set_elem (y ∷ ys) (suc i) x = y ∷ set_elem ys i x

-- The byte with its first or its second half replaced; `as u8` and the shift drop what is past a byte.
unfoldable pub set_half : ℕ → ℕ → ℕ → ℕ
set_half position to byte =
    if position % 2 == 0
    then bit_or (bit_and byte 0x0f) (bit_and (to % 2 ^ 8 * 2 ^ 4 % 2 ^ 8) 0xf0)
    else bit_or (bit_and byte 0xf0) (bit_and (to % 2 ^ 8) 0x0f)

unfoldable pub padded : List ℕ → ℕ → List ℕ
padded bytes i = if ltb i (length bytes) then bytes else bytes ++ 0 ∷ []

-- `set`; one byte is added where the index is past the bytes.
unfoldable pub set : NibbleBuf → ℕ → ℕ → Outcome NibbleBuf
unfolding set_half padded
set b idx to =
    let i = (b.ofs_front + idx) / 2 in
    let bytes = padded b.bytes i in
    elim (get_elem? bytes i) [
      | none ↦ panicked
      | some byte ↦
          ok (record b { bytes = set_elem bytes i (set_half (idx + b.ofs_front) to byte) })
    ]

unfoldable pub push : NibbleBuf → ℕ → Outcome NibbleBuf
unfolding len set
push b x = set (record b { ofs_back = b.ofs_back + 1 }) (len b) x

-- The loop of `append`, from `i` on.
unfoldable pub append_from : ℕ → ℕ → NibbleBuf → Nibbles → Outcome NibbleBuf
unfolding push nibble
append_from zero i b n = ok b
append_from (suc left) i b n = nibble n i >>= λ x. push b x >>= λ b'. append_from left (suc i) b' n

unfoldable pub append : NibbleBuf → Nibbles → Outcome NibbleBuf
unfolding append_from nibbles_len
append b n = append_from (nibbles_len n) 0 b n

-- `PartialEq for NibbleBuf`, from `i` on.
unfoldable pub same_from : ℕ → ℕ → NibbleBuf → NibbleBuf → Outcome Bool
unfolding get
same_from zero i a b = ok true
same_from (suc left) i a b = get a i >>= λ x.
    get b i >>= λ y. let rest = same_from left (suc i) a b in if x == y then rest else ok false

unfoldable pub eq : NibbleBuf → NibbleBuf → Outcome Bool
unfolding same_from len
eq a b = if len a == len b then same_from (len a) 0 a b else ok false

-- The bytes that `persist` writes: those before the first nibble and past the last are left out.
unfoldable pub buf_bytes : NibbleBuf → Bytes
buf_bytes b =
    let start = b.ofs_front / 2 in take ((b.ofs_back + 1) / 2 - start) (drop start b.bytes)

module _ {S : Type 0} (hash : ByteHash S) (order : ByteOrder) where
  unfoldable pub restore_buf : Bytes → Outcome (NibbleBuf × Bytes)
  unfolding number u8 restore_each
  restore_buf source =
      let u16 = number {B = Unit {0}} hash order 2 in
      u16.restore source >>= λ p. u16.restore p.1 >>= λ q.
      restore_each (u8 {B = Unit {0}} hash) ((q.0 + 1) / 2) q.1 >>= λ r.
      ok (record { bytes = r.0; ofs_front = p.0; ofs_back = q.0 }, r.1)

module _ {S B : Type 0} (hash : ByteHash S) (order : ByteOrder) where
  -- `Content for NibbleBuf`. The offsets, counted from the first byte written, are cast to `u16`.
  unfoldable pub persist_buf : NibbleBuf → Sink S → B → Outcome (NibbleBuf × Sink S × B)
  unfolding number write_all buf_bytes
  persist_buf b sink store =
      let start = b.ofs_front / 2 in
      let u16 = number {B = B} hash order 2 in
      u16.persist ((b.ofs_front - start * 2) % 2 ^ 16) sink store >>= λ p.
      u16.persist ((b.ofs_back - start * 2) % 2 ^ 16) p.1 p.2 >>= λ q.
      if ltb (length b.bytes) ((b.ofs_back + 1) / 2)
      then panicked
      else ok (b, write_all hash (buf_bytes b) q.1, q.2)

  unfoldable pub buf_content : Content S B NibbleBuf
  unfolding persist_buf restore_buf
  buf_content = record { persist = persist_buf; restore = restore_buf hash order }
