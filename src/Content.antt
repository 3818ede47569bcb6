-- ===== src/Content.antt =====
-- src/content.rs, src/sink.rs and src/source.rs: values written as bytes and read back.
--
-- A source is the bytes that are left of its reader. `byteorder` and the hash are parameters. The
-- store behind a sink is passed along; once it fails, what it holds is not returned.
pub mod Laws
pub mod Codecs
pub mod Samples
mod Tests
use kelvin.Prelude.{
  ℕ, zero, suc, ◌++◌, Option, none, some, List, [], ◌∷◌, Bool, true, false, if◌then◌else◌, ltb,
  length, take, drop, ◌==◌, ◌^◌, ◌%◌,
}
use kelvin.Prelude.Outcome.{Outcome, ok, failed, ◌>>=◌, invalid_data, unexpected_eof}

abbrev pub Bytes : Type 0
Bytes = List ℕ

-- `ByteHash`: `S` is `H::State`, a `Hasher`.
pub record ByteHash (S : Type 0) : Type 0 where
  pub state : S
  pub write : S → Bytes → S
  pub fin : S → Bytes
  -- the length of a digest
  pub len : ℕ

-- `ReadBytesExt` and `WriteBytesExt` at `BigEndian`, by the width in bytes.
pub record ByteOrder : Type 0 where
  pub write_uint : ℕ → ℕ → Bytes
  pub read_uint : ℕ → Bytes → Outcome (ℕ × Bytes)

-- `Sink`; its store is the one that `persist` is given.
pub data Sink (S : Type 0) : Type 0 where
  dry_run : S → Sink S
  writing : Bytes → Sink S
  writing_cached : Bytes → Bytes → Sink S

-- `Content`: `B` is the store.
pub record Content (S B T : Type 0) : Type 0 where
  pub persist : T → Sink S → B → Outcome (T × Sink S × B)
  pub restore : Bytes → Outcome (T × Bytes)

-- `Read::read_exact` into a buffer of `n` bytes.
unfoldable pub read_exact : ℕ → Bytes → Outcome (Bytes × Bytes)
read_exact n source =
    if ltb (length source) n then failed unexpected_eof else ok (take n source, drop n source)

-- The byte that `read_exact` has put into a buffer of one.
unfoldable pub read_byte : Bytes → Outcome (ℕ × Bytes)
read_byte [] = failed unexpected_eof
read_byte (byte ∷ rest) = ok (byte, rest)

unfoldable pub restore_bool : Bytes → ℕ → Outcome (Bool × Bytes)
restore_bool rest zero = ok (false, rest)
restore_bool rest (suc zero) = ok (true, rest)
restore_bool rest _ = failed invalid_data

module _ {S B : Type 0} where
  -- `Content for ()`, `PhantomData<X>` and `Void`
  unfoldable pub unit : Content S B (Unit {0})
  unit = record { persist = λ t sink b. ok (t, sink, b); restore = λ source. ok (tt, source) }

  unfoldable pub restore_option :
      {T : Type 0} → Content S B T → Bytes → ℕ → Outcome (Option T × Bytes)
  restore_option c rest zero = ok (none, rest)
  restore_option c rest (suc zero) = c.restore rest >>= λ r. ok (some r.0, r.1)
  restore_option c rest _ = failed invalid_data

  -- `for t in self.iter_mut() { t.persist(sink)? }`
  unfoldable pub persist_each :
      {T : Type 0} → Content S B T → List T → Sink S → B → Outcome (List T × Sink S × B)
  persist_each c [] sink b = ok ([], sink, b)
  persist_each c (t ∷ ts) sink b =
      c.persist t sink b >>= λ r. persist_each c ts r.1 r.2 >>= λ q. ok (r.0 ∷ q.0, q.1, q.2)

  -- `for _ in 0..len { vec.push(T::restore(source)?) }`
  unfoldable pub restore_each : {T : Type 0} → Content S B T → ℕ → Bytes → Outcome (List T × Bytes)
  restore_each c zero source = ok ([], source)
  restore_each c (suc len) source =
      c.restore source >>= λ r. restore_each c len r.1 >>= λ q. ok (r.0 ∷ q.0, q.1)

  -- `array!`: an array of `len` values. The vector is full after the loop, so `into_inner` succeeds.
  unfoldable pub array : {T : Type 0} → ℕ → Content S B T → Content S B (List T)
  unfolding persist_each restore_each
  array len c = record { persist = persist_each c; restore = restore_each c len }

  -- `Content for (A, B)` and for `KV<K, V>`
  unfoldable pub pair : {T U : Type 0} → Content S B T → Content S B U → Content S B (T × U)
  pair c d = record {
    persist = λ (t, u) sink b.
        c.persist t sink b >>= λ r. d.persist u r.1 r.2 >>= λ q. ok ((r.0, q.0), q.1, q.2);
    restore = λ source. c.restore source >>= λ r. d.restore r.1 >>= λ q. ok ((r.0, q.0), q.1);
  }

module _ {S : Type 0} (hash : ByteHash S) where
  -- `Write for Sink`
  unfoldable pub write_all : Bytes → Sink S → Sink S
  write_all buf (dry_run state) = dry_run (hash.write state buf)
  write_all buf (writing bytes) = writing (bytes ++ buf)
  write_all buf (writing_cached bytes digest) = writing_cached (bytes ++ buf) digest

module _ {S B : Type 0} (hash : ByteHash S) where
  unfoldable pub persist_option :
      {T : Type 0} → Content S B T → Option T → Sink S → B → Outcome (Option T × Sink S × B)
  unfolding write_all
  persist_option c (some content) sink b =
      c.persist content (write_all hash (1 ∷ []) sink) b >>= λ r. ok (some r.0, r.1, r.2)
  persist_option c none sink b = ok (none, write_all hash (0 ∷ []) sink, b)

  -- `Content for Option<T>`
  unfoldable pub option : {T : Type 0} → Content S B T → Content S B (Option T)
  unfolding persist_option restore_option read_byte
  option c = record {
    persist = persist_option c;
    restore = λ source. read_byte source >>= λ r. restore_option c r.1 r.0;
  }

  -- `Content for u8`
  unfoldable pub u8 : Content S B ℕ
  unfolding write_all read_byte
  u8 = record { persist = λ t sink b. ok (t, write_all hash (t ∷ []) sink, b); restore = read_byte }

  -- `Content for bool`
  unfoldable pub bool : Content S B Bool
  unfolding write_all read_byte restore_bool
  bool = record {
    persist = λ t sink b. ok (t, write_all hash ((if t then 1 else 0) ∷ []) sink, b);
    restore = λ source. read_byte source >>= λ r. restore_bool r.1 r.0;
  }

  -- `number!`, by the width in bytes
  unfoldable pub number : ByteOrder → ℕ → Content S B ℕ
  unfolding write_all
  number order width = record {
    persist = λ t sink b. ok (t, write_all hash (order.write_uint width t) sink, b);
    restore = order.read_uint width;
  }

  -- `Content for Vec<T>`; the length is cast to a `u64`.
  unfoldable pub vec : {T : Type 0} → ByteOrder → Content S B T → Content S B (List T)
  unfolding write_all persist_each restore_each
  vec order c = record {
    persist = λ ts sink b.
        persist_each c ts (write_all hash (order.write_uint 8 (length ts % 2 ^ 64)) sink) b;
    restore = λ source. order.read_uint 8 source >>= λ r. restore_each c r.0 r.1;
  }
