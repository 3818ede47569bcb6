-- ===== src/Content/Codecs.antt =====
-- Round trips of the types that src/content.rs writes.
use kelvin.Prelude.{
  ℕ, ◌++◌, ◌<◌, ◌^◌, ◌%◌, Option, none, some, List, [], ◌∷◌, Bool, true, false, ◌≡◌, refl, ap,
  if◌then◌else◌, length, arith, append_assoc, append-nil,
}
use kelvin.Prelude.Outcome.{ok}
use kelvin.Content.{
  Bytes, ByteHash, ByteOrder, Sink, Content, write_all, option, persist_option, restore_option,
  read_byte, u8, bool, restore_bool, number, persist_each, restore_each, vec, pair,
}
use kelvin.Content.Laws.{IsHasher, IsByteOrder, IsPlain, write_all-append}

abbrev pub FitsOption : {T : Type 0} → (T → Type 0) → Option T → Type 0
FitsOption fits none = Unit
FitsOption fits (some t) = fits t

abbrev pub FitsEach : {T : Type 0} → (T → Type 0) → List T → Type 0
FitsEach fits [] = Unit
FitsEach fits (t ∷ ts) = fits t × FitsEach fits ts

abbrev option_bytes : {T : Type 0} → (T → Bytes) → Option T → Bytes
option_bytes bytes none = 0 ∷ []
option_bytes bytes (some t) = 1 ∷ bytes t

abbrev each_bytes : {T : Type 0} → (T → Bytes) → List T → Bytes
each_bytes bytes [] = []
each_bytes bytes (t ∷ ts) = bytes t ++ each_bytes bytes ts

module _ {S B : Type 0} (hash : ByteHash S) (hasher : IsHasher hash) where
  -- An optional value of a plain type is plain.
  pub option-IsPlain :
      {T : Type 0} (c : Content S B T) (fits : T → Type 0)
      → IsPlain hash c fits
      → IsPlain hash (option hash c) (FitsOption fits)
  unfolding option persist_option restore_option read_byte
  option-IsPlain c fits p = record {
    bytes = option_bytes p.bytes;
    persist_lem = writes;
    restore_lem = reads;
  }
    where
      writes :
          (t : Option _) (sink : Sink S) (b : B)
          → FitsOption fits t
          → (option hash c).persist t sink b
            ≡ ok (t, write_all hash (option_bytes p.bytes t) sink, b)
      writes none sink b f = refl
      writes (some t) sink b f =
          rw (p.persist_lem t (write_all hash (1 ∷ []) sink) b f)
            (ap (λ w. ok (some t, w, b)) (write_all-append hash hasher (1 ∷ []) (p.bytes t) sink))

      reads :
          (t : Option _) (rest : Bytes)
          → FitsOption fits t
          → (option hash c).restore (option_bytes p.bytes t ++ rest) ≡ ok (t, rest)
      reads none rest f = refl
      reads (some t) rest f = rw (p.restore_lem t rest f) refl

  -- A pair of plain types is plain.
  pub pair-IsPlain :
      {T U : Type 0} (c : Content S B T) (d : Content S B U) (fits : T → Type 0)
      (fits' : U → Type 0)
      → IsPlain hash c fits
      → IsPlain hash d fits'
      → IsPlain hash (pair c d) (λ (t, u). fits t × fits' u)
  unfolding pair
  pair-IsPlain c d fits fits' p q = record {
    bytes = λ (t, u). p.bytes t ++ q.bytes u;
    persist_lem = λ (t, u) sink b (f, g).
        rw (p.persist_lem t sink b f, q.persist_lem u (write_all hash (p.bytes t) sink) b g)
          (ap (λ w. ok ((t, u), w, b)) (write_all-append hash hasher (p.bytes t) (q.bytes u) sink));
    restore_lem = λ (t, u) rest (f, g).
        rw
          (
            append_assoc (p.bytes t) (q.bytes u) rest,
            p.restore_lem t (q.bytes u ++ rest) f,
            q.restore_lem u rest g,
          )
          refl;
  }

  pub u8-IsPlain : IsPlain {B = B} hash (u8 hash) (λ t. Unit {0})
  unfolding u8 read_byte
  u8-IsPlain = record {
    bytes = λ t. t ∷ [];
    persist_lem = λ t sink b f. refl;
    restore_lem = λ t rest f. refl;
  }

  pub bool-IsPlain : IsPlain {B = B} hash (bool hash) (λ t. Unit {0})
  unfolding bool read_byte restore_bool
  bool-IsPlain = record {
    bytes = λ t. (if t then 1 else 0) ∷ [];
    persist_lem = λ t sink b f. refl;
    restore_lem = reads;
  }
    where
      reads :
          (t : Bool) (rest : Bytes)
          → Unit {0}
          → (bool {B = B} hash).restore ((if t then 1 else 0) ∷ rest) ≡ ok (t, rest)
      reads true rest f = refl
      reads false rest f = refl

  pub number-IsPlain :
      (order : ByteOrder) (width : ℕ)
      → IsByteOrder order
      → IsPlain {B = B} hash (number hash order width) (λ x. x < 256 ^ width)
  unfolding number
  number-IsPlain order width o = record {
    bytes = order.write_uint width;
    persist_lem = λ t sink b f. refl;
    restore_lem = λ t rest f. o.read_write width t rest f;
  }

  module _ {T : Type 0} (c : Content S B T) (fits : T → Type 0) (p : IsPlain hash c fits) where
    persist_each-IsPlain :
        (ts : List T) (before : Bytes) (sink : Sink S) (b : B)
        → FitsEach fits ts
        → persist_each c ts (write_all hash before sink) b
          ≡ ok (ts, write_all hash (before ++ each_bytes p.bytes ts) sink, b)
    unfolding persist_each
    persist_each-IsPlain [] before sink b f = rw (append-nil before) refl
    persist_each-IsPlain (t ∷ ts) before sink b f =
        rw
          (
            p.persist_lem t (write_all hash before sink) b f.0,
            write_all-append hash hasher before (p.bytes t) sink,
            persist_each-IsPlain ts (before ++ p.bytes t) sink b f.1,
            append_assoc before (p.bytes t) (each_bytes p.bytes ts),
          )
          refl

    restore_each-IsPlain :
        (ts : List T) (rest : Bytes)
        → FitsEach fits ts
        → restore_each c (length ts) (each_bytes p.bytes ts ++ rest) ≡ ok (ts, rest)
    unfolding restore_each
    restore_each-IsPlain [] rest f = refl
    restore_each-IsPlain (t ∷ ts) rest f =
        rw
          (
            append_assoc (p.bytes t) (each_bytes p.bytes ts) rest,
            p.restore_lem t (each_bytes p.bytes ts ++ rest) f.0,
            restore_each-IsPlain ts rest f.1,
          )
          refl

    -- A vector shorter than 2 ^ 64 of values of a plain type is plain.
    pub vec-IsPlain :
        (order : ByteOrder)
        → IsByteOrder order
        → IsPlain hash (vec hash order c) (λ ts. (length ts < 2 ^ 64) × FitsEach fits ts)
    unfolding vec
    vec-IsPlain order o = record {
      bytes = λ ts. order.write_uint 8 (length ts % 2 ^ 64) ++ each_bytes p.bytes ts;
      persist_lem = λ ts sink b f.
          persist_each-IsPlain ts (order.write_uint 8 (length ts % 2 ^ 64)) sink b f.1;
      restore_lem = λ ts rest f.
          let small : length ts % 2 ^ 64 ≡ length ts = omega arith in
          rw
            (
              append_assoc (order.write_uint 8 (length ts % 2 ^ 64)) (each_bytes p.bytes ts) rest,
              small,
              o.read_write 8 (length ts) (each_bytes p.bytes ts ++ rest) (omega arith),
            )
            (restore_each-IsPlain ts rest f.1);
    }
