-- ===== src/Nibbles/Written.antt =====
-- A `NibbleBuf` that is written and read back has the same nibbles.
use kelvin.Prelude.{
  ℕ, zero, suc, ◌+◌, ◌-◌, ◌*◌, ◌/◌, ◌%◌, ◌^◌, ◌<◌, ◌≤◌, ◌≡◌, refl, ap, ◌∙◌, arith, tests, Option,
  none, some, ==_iff, List, [], ◌∷◌, ◌++◌, append_assoc, length, get_elem?, take, drop, ltb, true,
  false, ◌==◌,
}
use kelvin.Prelude.Outcome.{ok}
use kelvin.Content.{
  Bytes, ByteHash, ByteOrder, Sink, write_all, number, u8, restore_each, read_byte,
}
use kelvin.Content.Laws.{IsHasher, IsByteOrder, write_all-append}
use kelvin.Nibbles.{nibble, half, half_of, nibbles_len}
use kelvin.Nibbles.Laws.{IsNibbles, nibble-ok}
use kelvin.Nibbles.Buf.{
  NibbleBuf, as_nibbles, get, len, eq, same_from, buf_bytes, persist_buf, restore_buf,
}

length-drop : (n : ℕ) (xs : List ℕ) → length (drop n xs) ≡ length xs - n
length-drop zero xs = omega arith
length-drop (suc n) [] = omega arith
length-drop (suc n) (x ∷ xs) = omega (arith, length-drop n xs)

length-take : (n : ℕ) (xs : List ℕ) → n ≤ length xs → length (take n xs) ≡ n
length-take zero xs p = refl
length-take (suc n) [] p = absurd (omega (arith, p))
length-take (suc n) (x ∷ xs) p = ap suc (length-take n xs (omega (arith, p)))

get_elem?-take : (n : ℕ) (xs : List ℕ) (i : ℕ) → i < n → get_elem? (take n xs) i ≡ get_elem? xs i
get_elem?-take zero xs i p = absurd (omega (arith, p))
get_elem?-take (suc n) [] i p = refl
get_elem?-take (suc n) (x ∷ xs) zero p = refl
get_elem?-take (suc n) (x ∷ xs) (suc i) p = get_elem?-take n xs i (omega (arith, p))

get_elem?-drop : (n : ℕ) (xs : List ℕ) (i : ℕ) → get_elem? (drop n xs) i ≡ get_elem? xs (n + i)
get_elem?-drop zero xs i = let z : 0 + i ≡ i = omega arith in rw z refl
get_elem?-drop (suc n) [] i = refl
get_elem?-drop (suc n) (x ∷ xs) i =
    let z : suc n + i ≡ suc (n + i) = omega arith in rw z (get_elem?-drop n xs i)

-- The buffer that is read back: the offsets are counted from the first byte with a nibble.
abbrev pub normal : NibbleBuf → NibbleBuf
normal b = record {
  bytes = buf_bytes b;
  ofs_front = b.ofs_front - b.ofs_front / 2 * 2;
  ofs_back = b.ofs_back - b.ofs_front / 2 * 2;
}

module _ (b : NibbleBuf) (w : IsNibbles (as_nibbles b)) where
  length-buf_bytes : length (buf_bytes b) ≡ (b.ofs_back + 1) / 2 - b.ofs_front / 2
  unfolding buf_bytes
  length-buf_bytes =
      let ordered : b.ofs_front ≤ b.ofs_back = w.ordered in
      let within : b.ofs_back ≤ length b.bytes * 2 = w.within in
      let size = length-drop (b.ofs_front / 2) b.bytes in
      length-take ((b.ofs_back + 1) / 2 - b.ofs_front / 2) (drop (b.ofs_front / 2) b.bytes)
        (omega (arith, ordered, within, size))

  len-normal : len (normal b) ≡ len b
  unfolding len
  len-normal = let ordered : b.ofs_front ≤ b.ofs_back = w.ordered in omega (arith, ordered)

  half_of_parity : (p q : ℕ) → p % 2 ≡ q % 2 → (o : Option ℕ) → half_of p o ≡ half_of q o
  unfolding half_of half
  half_of_parity p q e none = refl
  half_of_parity p q e (some x) = rw e refl

  get-normal : (i : ℕ) → i < len b → get (normal b) i ≡ get b i
  unfolding get nibble len buf_bytes
  get-normal i p =
      let ordered : b.ofs_front ≤ b.ofs_back = w.ordered in
      let at : b.ofs_front / 2 + (b.ofs_front - b.ofs_front / 2 * 2 + i) / 2
          ≡ (b.ofs_front + i) / 2 =
        omega arith in
      let inside : (b.ofs_front - b.ofs_front / 2 * 2 + i) / 2
          < (b.ofs_back + 1) / 2 - b.ofs_front / 2 =
        omega (arith, p, ordered) in
      let parity : (i + (b.ofs_front - b.ofs_front / 2 * 2)) % 2 ≡ (i + b.ofs_front) % 2 =
        omega arith in
      ap (half_of (i + (b.ofs_front - b.ofs_front / 2 * 2))) (
        get_elem?-take ((b.ofs_back + 1) / 2 - b.ofs_front / 2) (drop (b.ofs_front / 2) b.bytes)
          ((b.ofs_front - b.ofs_front / 2 * 2 + i) / 2) inside
        ∙ get_elem?-drop (b.ofs_front / 2) b.bytes ((b.ofs_front - b.ofs_front / 2 * 2 + i) / 2)
        ∙ ap (get_elem? b.bytes) at)
      ∙ half_of_parity _ _ parity (get_elem? b.bytes ((b.ofs_front + i) / 2))

  same_from-normal : (left i : ℕ) → i + left ≡ len b → same_from left i (normal b) b ≡ ok true
  unfolding same_from len nibbles_len get
  same_from-normal zero i e = refl
  same_from-normal (suc left) i e =
      let (x, read) = nibble-ok (as_nibbles b) i w (in_range i left e) in
      let same : (x == x) ≡ true = (==_iff x x).1 refl in
      rw (get-normal i (omega (arith, e)), get_nibble i x read, same)
        (same_from-normal left (suc i) (omega (arith, e)))
    where
      in_range : (i left : ℕ) → i + suc left ≡ len b → i < nibbles_len (as_nibbles b)
      in_range i left e = omega (arith, e)

      get_nibble : (i x : ℕ) → nibble (as_nibbles b) i ≡ ok x → get b i ≡ ok x
      get_nibble i x read = read

restore_each-bytes :
    {S : Type 0} (hash : ByteHash S) (bs rest : Bytes)
    → restore_each (u8 {B = Unit {0}} hash) (length bs) (bs ++ rest) ≡ ok (bs, rest)
unfolding restore_each u8 read_byte
restore_each-bytes hash [] rest = refl
restore_each-bytes hash (x ∷ bs) rest = rw (restore_each-bytes hash bs rest) refl

abbrev encoded : ByteOrder → NibbleBuf → Bytes
encoded order b =
    order.write_uint 2 (normal b).ofs_front
    ++ (order.write_uint 2 (normal b).ofs_back ++ buf_bytes b)

module _ {S : Type 0} (hash : ByteHash S) (order : ByteOrder) (o : IsByteOrder order)
    (b : NibbleBuf) (w : IsNibbles (as_nibbles b))
    (small : b.ofs_back - b.ofs_front / 2 * 2 < 2 ^ 16) where
  restore_buf-encoded :
      (rest : Bytes) → restore_buf hash order (encoded order b ++ rest) ≡ ok (normal b, rest)
  unfolding restore_buf number
  restore_buf-encoded rest =
      let ordered : b.ofs_front ≤ b.ofs_back = w.ordered in
      let size : (b.ofs_back - b.ofs_front / 2 * 2 + 1) / 2 ≡ length (buf_bytes b) =
        omega (arith, ordered, length-buf_bytes b w) in
      rw
        (
          append_assoc (order.write_uint 2 (normal b).ofs_front)
              (order.write_uint 2 (normal b).ofs_back ++ buf_bytes b) rest,
          o.read_write 2 (normal b).ofs_front
              ((order.write_uint 2 (normal b).ofs_back ++ buf_bytes b) ++ rest) (omega arith),
          append_assoc (order.write_uint 2 (normal b).ofs_back) (buf_bytes b) rest,
          o.read_write 2 (normal b).ofs_back (buf_bytes b ++ rest) (omega (arith, small)),
          size,
          restore_each-bytes hash (buf_bytes b) rest,
        )
        refl

module _ {S B : Type 0} (hash : ByteHash S) (order : ByteOrder) (hasher : IsHasher hash)
    (o : IsByteOrder order) (b : NibbleBuf) (w : IsNibbles (as_nibbles b))
    (small : b.ofs_back - b.ofs_front / 2 * 2 < 2 ^ 16) where
  persist_buf-encoded :
      (sink : Sink S) (store : B)
      → persist_buf hash order b sink store ≡ ok (b, write_all hash (encoded order b) sink, store)
  unfolding persist_buf number
  persist_buf-encoded sink store =
      let ordered : b.ofs_front ≤ b.ofs_back = w.ordered in
      let within : b.ofs_back ≤ length b.bytes * 2 = w.within in
      let first : (b.ofs_front - b.ofs_front / 2 * 2) % 2 ^ 16 ≡ b.ofs_front - b.ofs_front / 2 * 2 =
        omega (arith, ordered) in
      let second : (b.ofs_back - b.ofs_front / 2 * 2) % 2 ^ 16 ≡ b.ofs_back - b.ofs_front / 2 * 2 =
        omega (arith, small) in
      let enough : ltb (length b.bytes) ((b.ofs_back + 1) / 2) ≡ false = grind (arith, tests) in
      rw (first, second, enough)
        (ap (λ s. ok (b, s, store))
          (ap (write_all hash (buf_bytes b)) (
              write_all-append hash hasher (order.write_uint 2 (normal b).ofs_front)
                (order.write_uint 2 (normal b).ofs_back) sink)
            ∙ write_all-append hash hasher
                (order.write_uint 2 (normal b).ofs_front ++ order.write_uint 2 (normal b).ofs_back)
                (buf_bytes b) sink
            ∙ ap (λ xs. write_all hash xs sink)
                (append_assoc (order.write_uint 2 (normal b).ofs_front)
                  (order.write_uint 2 (normal b).ofs_back) (buf_bytes b))))

  -- A well-formed buffer whose offsets, counted from its first byte, fit into 16 bits, is written and
  -- read back, from in front of anything, as a buffer that is equal to it, nibble by nibble.
  pub persist_buf-restore_buf :
      (sink : Sink S) (store : B) (rest : Bytes)
      → (bytes : Bytes) × (b' : NibbleBuf) × (persist_buf hash order b sink store
          ≡ ok (b, write_all hash bytes sink, store))
        × (restore_buf hash order (bytes ++ rest) ≡ ok (b', rest))
        × (eq b' b ≡ ok true)
  unfolding eq
  persist_buf-restore_buf sink store rest =
      let lens = len-normal b w in
      let same : (len b == len b) ≡ true = (==_iff (len b) (len b)).1 refl in
      (
        encoded order b,
        normal b,
        persist_buf-encoded sink store,
        restore_buf-encoded hash order o b w small rest,
        rw (eq, lens, same) (same_from-normal b w (len b) 0 (omega arith)),
      )
