-- ===== src/Content/Samples.antt =====
-- A hash, a byte order and codecs with which the results on contents are applied.
use kelvin.Prelude.{
  ℕ, zero, suc, ◌+◌, ◌*◌, ◌/◌, ◌%◌, ◌^◌, ◌<◌, ◌++◌, [], ◌∷◌, ◌≡◌, refl, arith, length, append_assoc,
  ap,
}
use kelvin.Prelude.Outcome.{Outcome, ok, failed, unexpected_eof, ◌>>=◌}
use kelvin.Content.{Bytes, ByteHash, ByteOrder}
use kelvin.Content.Laws.{IsHasher, IsByteOrder}

abbrev total : Bytes → ℕ
total [] = 0
total (byte ∷ bytes) = byte + 3 * total bytes

-- A digest of two bytes.
abbrev pub sample_hash : ByteHash Bytes
sample_hash = record {
  state = [];
  write = λ s bytes. s ++ bytes;
  fin = λ s. (length s % 256) ∷ (total s % 256) ∷ [];
  len = 2;
}

pub sample_hash-IsHasher : IsHasher sample_hash
sample_hash-IsHasher = record {
  write_append = λ s xs ys. append_assoc s xs ys;
  length_fin = λ s. refl;
}

unfoldable pub write_be : ℕ → ℕ → Bytes
write_be zero x = []
write_be (suc width) x = write_be width (x / 256) ++ (x % 256) ∷ []

unfoldable last_byte : ℕ × Bytes → Outcome (ℕ × Bytes)
last_byte (y, []) = failed unexpected_eof
last_byte (y, byte ∷ rest) = ok (y * 256 + byte, rest)

unfoldable pub read_be : ℕ → Bytes → Outcome (ℕ × Bytes)
unfolding last_byte
read_be zero source = ok (0, source)
read_be (suc width) source = read_be width source >>= last_byte

abbrev pub big_endian : ByteOrder
big_endian = record { write_uint = write_be; read_uint = read_be }

read_be-write_be :
    (width x : ℕ) (rest : Bytes)
    → x < 256 ^ width
    → read_be width (write_be width x ++ rest) ≡ ok (x, rest)
unfolding read_be write_be
read_be-write_be zero x rest p = ap (λ y. ok (y, rest)) (omega arith)
read_be-write_be (suc width) x rest p =
    rw
      (
        append_assoc (write_be width (x / 256)) ((x % 256) ∷ []) rest,
        read_be-write_be width (x / 256) ((x % 256) ∷ rest) (omega arith),
      )
      (ap (λ y. ok (y, rest)) (omega arith))

pub big_endian-IsByteOrder : IsByteOrder big_endian
big_endian-IsByteOrder = record { read_write = read_be-write_be }
