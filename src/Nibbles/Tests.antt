-- ===== src/Nibbles/Tests.antt =====
-- Sequences of nibbles at hand.
use kelvin.Prelude.{ℕ, ◌+◌, [], ◌∷◌, ◌++◌, true, ◌≡◌, refl, arith}
use kelvin.Prelude.Outcome.{ok, panicked}
use kelvin.Nibbles.{Nibbles, nibbles_new, nibble, nibbles_len, common_prefix_len, common_prefix}
use kelvin.Content.{Bytes, writing, write_all}
use kelvin.Content.Samples.{sample_hash, sample_hash-IsHasher, big_endian, big_endian-IsByteOrder}
use kelvin.Nibbles.Buf.{NibbleBuf, push, append, persist_buf, restore_buf, eq}
use kelvin.Nibbles.Growth.{IsBuf, IsPushed, push-IsPushed}
use kelvin.Nibbles.Appends.{IsAppended, append-IsAppended}
use kelvin.Nibbles.Written.{persist_buf-restore_buf}
use kelvin.Nibbles.Prefix.{IsLongest, common_prefix-IsLongest}

abbrev long : Nibbles
long = record { bytes = 0x12 ∷ 0x34 ∷ 0x56 ∷ []; ofs_front = 0; ofs_back = 6 }

abbrev short : Nibbles
short = record { bytes = 0x51 ∷ 0x23 ∷ 0x99 ∷ []; ofs_front = 1; ofs_back = 5 }

second-nibble : nibble (nibbles_new (0x12 ∷ [])) 1 ≡ ok 2
unfolding nibble nibbles_new
second-nibble = refl

past-nibble : nibble (nibbles_new (0x12 ∷ [])) 2 ≡ panicked
unfolding nibble nibbles_new
past-nibble = refl

common-len : common_prefix_len long short ≡ ok 3
unfolding common_prefix_len
common-len = refl

common_prefix-IsLongest_example :
    (len : ℕ) × (common_prefix_len long short ≡ ok len)
    × (common_prefix long short ≡ ok (record long { ofs_back = long.ofs_front + len }))
    × IsLongest long short len
common_prefix-IsLongest_example =
    common_prefix-IsLongest long short (record { ordered = omega arith; within = omega arith })
      (record { ordered = omega arith; within = omega arith }) (omega arith) (omega arith)

-- The nibbles 1, 2, 3, in one byte and a half.
abbrev three : NibbleBuf
three = record { bytes = 0x01 ∷ 0x23 ∷ []; ofs_front = 1; ofs_back = 4 }

three-IsBuf : IsBuf three
three-IsBuf =
    (record { ordered = omega arith; within = omega arith }, (omega arith, (omega arith, tt)))

pushes : push three 7 ≡ ok (record { bytes = 0x01 ∷ 0x23 ∷ 0x70 ∷ []; ofs_front = 1; ofs_back = 5 })
unfolding push
pushes = refl

push-IsPushed_example : (b' : NibbleBuf) × (push three 7 ≡ ok b') × IsPushed three 7 b'
push-IsPushed_example = push-IsPushed three 7 three-IsBuf (omega arith)

append-IsAppended_example :
    (b' : NibbleBuf) × (append three short ≡ ok b')
    × IsAppended three short (nibbles_len short) 0 b'
append-IsAppended_example =
    append-IsAppended three short three-IsBuf
      (record { ordered = omega arith; within = omega arith })
      (omega arith, (omega arith, (omega arith, tt)))

persist_buf-restore_buf_example :
    (bytes : Bytes) × (b' : NibbleBuf) × (persist_buf sample_hash big_endian three (writing []) tt
      ≡ ok (three, write_all sample_hash bytes (writing []), tt))
    × (restore_buf sample_hash big_endian (bytes ++ 9 ∷ []) ≡ ok (b', 9 ∷ []))
    × (eq b' three ≡ ok true)
persist_buf-restore_buf_example =
    persist_buf-restore_buf {B = Unit {0}} sample_hash big_endian sample_hash-IsHasher
      big_endian-IsByteOrder three three-IsBuf.0 (omega arith) (writing []) tt (9 ∷ [])
