-- ===== src/Content/Laws.antt =====
-- What a type promises that writes its own bytes and nothing to the store, and what the hash does.
use kelvin.Prelude.{
  length, ltb, false, arith, length-append, take-append, drop-append, ℕ, ◌++◌, ◌≡◌, refl, ap, sym,
  append_assoc, ◌<◌, ◌^◌,
}
use kelvin.Prelude.Outcome.{ok}
use kelvin.Content.{
  Bytes, ByteHash, ByteOrder, Sink, dry_run, writing, writing_cached, Content, write_all,
  read_exact,
}

-- A hash reads its input in pieces of any size, and its digests have one length.
pub record IsHasher {S : Type 0} (hash : ByteHash S) : Type 0 where
  pub write_append :
      (s : S) (xs ys : Bytes) → hash.write (hash.write s xs) ys ≡ hash.write s (xs ++ ys)
  pub length_fin : (s : S) → length (hash.fin s) ≡ hash.len

-- A number of `width` bytes is read back, and the rest of the source left alone.
pub record IsByteOrder (order : ByteOrder) : Type 0 where
  pub read_write :
      (width x : ℕ) (rest : Bytes)
      → x < 256 ^ width
      → order.read_uint width (order.write_uint width x ++ rest) ≡ ok (x, rest)

-- The values that fit are written as `bytes`, and read back from in front of anything.
pub record IsPlain {S B T : Type 0} (hash : ByteHash S) (c : Content S B T) (fits : T → Type 0)
    : Type 0 where
  pub bytes : T → Bytes
  pub persist_lem :
      (t : T) (sink : Sink S) (b : B)
      → fits t
      → c.persist t sink b ≡ ok (t, write_all hash (bytes t) sink, b)
  pub restore_lem : (t : T) (rest : Bytes) → fits t → c.restore (bytes t ++ rest) ≡ ok (t, rest)

module _ {S : Type 0} (hash : ByteHash S) (hasher : IsHasher hash) where
  pub write_all-append :
      (xs ys : Bytes) (sink : Sink S)
      → write_all hash ys (write_all hash xs sink) ≡ write_all hash (xs ++ ys) sink
  unfolding write_all
  write_all-append xs ys (dry_run s) = ap dry_run (hasher.write_append s xs ys)
  write_all-append xs ys (writing bs) = ap writing (append_assoc bs xs ys)
  write_all-append xs ys (writing_cached bs d) =
      ap (λ w. writing_cached w d) (append_assoc bs xs ys)

-- Reading as many bytes as were written in front.
pub read_exact-append :
    (xs rest : Bytes) (n : ℕ) → length xs ≡ n → read_exact n (xs ++ rest) ≡ ok (xs, rest)
unfolding read_exact
read_exact-append xs rest n e =
    let enough : ltb (length (xs ++ rest)) n ≡ false = ground (arith, length-append xs rest) in
    rw (enough, sym e, take-append xs rest, drop-append xs rest) refl
