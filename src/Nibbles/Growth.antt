-- ===== src/Nibbles/Growth.antt =====
-- `push` and `append` on a `NibbleBuf`.
use kelvin.Prelude.{
  ℕ, zero, suc, ◌+◌, ◌*◌, ◌/◌, ◌<◌, ◌≤◌, ◌≡◌, ◌≢◌, refl, sym, ap, subst, ◌∙◌, arith, tests, List,
  [], ◌∷◌, ◌++◌, some, length, get_elem?, get_elem?-within, length-append, ltb, Bool-cases, inl,
  inr, ℕ_discrete,
}
use kelvin.Prelude.Outcome.{ok}
use kelvin.Nibbles.{nibble, half_of}
use kelvin.Nibbles.Digits.{AreBytes}
use kelvin.Nibbles.Laws.{IsNibbles}
use kelvin.Nibbles.Buf.{NibbleBuf, as_nibbles, get, len, set_elem, set_half, padded, set, push}
use kelvin.Nibbles.Halves.{set_half-lt, half-set_half, half-set_other}

abbrev pub IsBuf : NibbleBuf → Type 0
IsBuf b = IsNibbles (as_nibbles b) × AreBytes b.bytes

pub get_elem?-AreBytes : (xs : List ℕ) (i x : ℕ) → AreBytes xs → get_elem? xs i ≡ some x → x < 256
get_elem?-AreBytes [] i x w e = absurd (cc)
get_elem?-AreBytes (y ∷ ys) zero x (p, w) e = subst (λ z. z < 256) (cc e) p
get_elem?-AreBytes (y ∷ ys) (suc i) x (p, w) e = get_elem?-AreBytes ys i x w e

set_elem-AreBytes : (xs : List ℕ) (i x : ℕ) → AreBytes xs → x < 256 → AreBytes (set_elem xs i x)
set_elem-AreBytes [] i x w p = tt
set_elem-AreBytes (y ∷ ys) zero x (q, w) p = (p, w)
set_elem-AreBytes (y ∷ ys) (suc i) x (q, w) p = (q, set_elem-AreBytes ys i x w p)

length-set_elem : (xs : List ℕ) (i x : ℕ) → length (set_elem xs i x) ≡ length xs
length-set_elem [] i x = refl
length-set_elem (y ∷ ys) zero x = refl
length-set_elem (y ∷ ys) (suc i) x = ap suc (length-set_elem ys i x)

get_elem?-set_self :
    (xs : List ℕ) (i x : ℕ) → i < length xs → get_elem? (set_elem xs i x) i ≡ some x
get_elem?-set_self [] i x p = absurd (omega (arith, p))
get_elem?-set_self (y ∷ ys) zero x p = refl
get_elem?-set_self (y ∷ ys) (suc i) x p = get_elem?-set_self ys i x (omega (arith, p))

get_elem?-set_ne :
    (xs : List ℕ) (i j x : ℕ) → i ≢ j → get_elem? (set_elem xs i x) j ≡ get_elem? xs j
get_elem?-set_ne [] i j x p = refl
get_elem?-set_ne (y ∷ ys) zero zero x p = absurd (p refl)
get_elem?-set_ne (y ∷ ys) zero (suc j) x p = refl
get_elem?-set_ne (y ∷ ys) (suc i) zero x p = refl
get_elem?-set_ne (y ∷ ys) (suc i) (suc j) x p = get_elem?-set_ne ys i j x (λ e. p (ap suc e))

get_elem?-lt : (xs : List ℕ) (i x : ℕ) → get_elem? xs i ≡ some x → i < length xs
get_elem?-lt [] i x e = absurd (cc)
get_elem?-lt (y ∷ ys) zero x e = omega arith
get_elem?-lt (y ∷ ys) (suc i) x e = omega (arith, get_elem?-lt ys i x e)

append-AreBytes : (xs ys : List ℕ) → AreBytes xs → AreBytes ys → AreBytes (xs ++ ys)
append-AreBytes [] ys w v = v
append-AreBytes (x ∷ xs) ys (p, w) v = (p, append-AreBytes xs ys w v)

get_elem?-append :
    (xs ys : List ℕ) (i : ℕ) → i < length xs → get_elem? (xs ++ ys) i ≡ get_elem? xs i
get_elem?-append [] ys i p = absurd (omega (arith, p))
get_elem?-append (x ∷ xs) ys zero p = refl
get_elem?-append (x ∷ xs) ys (suc i) p = get_elem?-append xs ys i (omega (arith, p))

-- The bytes with room for one more nibble.
module _ (xs : List ℕ) (i : ℕ) (fits : i ≤ length xs) where
  length-padded : (i < length (padded xs i)) × (length xs ≤ length (padded xs i))
  unfolding padded
  length-padded = elim (Bool-cases (ltb i (length xs))) [
    | inl room ↦ rw room (grind (arith, tests), omega arith)
    | inr full ↦
        let more = length-append xs (0 ∷ []) in
        rw full (omega (arith, fits, more), omega (arith, more))
  ]

  padded-AreBytes : AreBytes xs → AreBytes (padded xs i)
  unfolding padded
  padded-AreBytes w = elim (Bool-cases (ltb i (length xs))) [
    | inl room ↦ rw room w
    | inr full ↦ rw full (append-AreBytes xs (0 ∷ []) w (omega arith, tt))
  ]

  get_elem?-padded : (j : ℕ) → j < length xs → get_elem? (padded xs i) j ≡ get_elem? xs j
  unfolding padded
  get_elem?-padded j p = elim (Bool-cases (ltb i (length xs))) [
    | inl room ↦ rw room refl
    | inr full ↦ rw full (get_elem?-append xs (0 ∷ []) j p)
  ]

-- The nibbles before the one that is set, which stand in other bytes or in the other half.
before_set :
    (zs : List ℕ) (byte x front l j : ℕ)
    → get_elem? zs ((front + l) / 2) ≡ some byte
    → byte < 256
    → x < 16
    → j < l
    → half_of
        (j + front)
        (get_elem? (set_elem zs ((front + l) / 2) (set_half (l + front) x byte)) ((front + j) / 2))
      ≡ half_of (j + front) (get_elem? zs ((front + j) / 2))
unfolding half_of
before_set zs byte x front l j e small nibble_of before =
    elim (ℕ_discrete ((front + l) / 2) ((front + j) / 2)) [
      | yes same ↦
          let inside : (front + l) / 2 < length zs = get_elem?-lt zs ((front + l) / 2) byte e in
          let next : l + front ≡ suc (j + front) = omega (arith, same, before) in
          rw
            (
              sym same,
              e,
              get_elem?-set_self zs ((front + l) / 2) (set_half (l + front) x byte) inside,
            )
            (ap ok (half-set_other (l + front) x byte small nibble_of (j + front) next))
      | no other ↦ ap (half_of (j + front)) (
          get_elem?-set_ne zs ((front + l) / 2) ((front + j) / 2) (set_half (l + front) x byte)
            other)
    ]

set-ok :
    (b : NibbleBuf) (idx to byte : ℕ)
    → get_elem? (padded b.bytes ((b.ofs_front + idx) / 2)) ((b.ofs_front + idx) / 2) ≡ some byte
    → set b idx to
      ≡ ok record {
        bytes =
            set_elem
              (padded b.bytes ((b.ofs_front + idx) / 2))
              ((b.ofs_front + idx) / 2)
              (set_half (idx + b.ofs_front) to byte);
        ofs_front = b.ofs_front;
        ofs_back = b.ofs_back;
      }
unfolding set
set-ok b idx to byte e = rw (set, e) refl

-- A nibble more, with those before it as they were.
abbrev pub IsPushed : NibbleBuf → ℕ → NibbleBuf → Type 0
IsPushed b x b' =
    IsBuf b'
    × (len b' ≡ suc (len b))
    × (get b' (len b) ≡ ok x)
    × ((j : ℕ) → j < len b → get b' j ≡ get b j)

pushed :
    (b : NibbleBuf) (x : ℕ) (zs : List ℕ) (byte : ℕ)
    → IsNibbles (as_nibbles b)
    → AreBytes zs
    → x < 16
    → get_elem? zs ((b.ofs_front + len b) / 2) ≡ some byte
    → (b.ofs_front + len b) / 2 < length zs
    → ((j : ℕ) → j < length b.bytes → get_elem? zs j ≡ get_elem? b.bytes j)
    → push b x
      ≡ ok record {
        bytes = set_elem zs ((b.ofs_front + len b) / 2) (set_half (len b + b.ofs_front) x byte);
        ofs_front = b.ofs_front;
        ofs_back = b.ofs_back + 1;
      }
    → (b' : NibbleBuf) × (push b x ≡ ok b') × IsPushed b x b'
unfolding len get nibble half_of
pushed b x zs byte w bytes_w small e inside same done =
    let ordered : b.ofs_front ≤ b.ofs_back = w.ordered in
    let within : b.ofs_back ≤ length b.bytes * 2 = w.within in
    let i = (b.ofs_front + len b) / 2 in
    let byte_p = get_elem?-AreBytes zs i byte bytes_w e in
    let p = len b + b.ofs_front in
    let size = length-set_elem zs i (set_half p x byte) in
    (
      record {
        bytes = set_elem zs i (set_half p x byte);
        ofs_front = b.ofs_front;
        ofs_back = b.ofs_back + 1;
      },
      done,
      (
        (
          record {
            ordered = omega (arith, ordered);
            within = omega (arith, size, inside, ordered);
          },
          set_elem-AreBytes zs i (set_half p x byte) bytes_w (set_half-lt p x byte byte_p small),
        ),
        omega (arith, ordered),
        rw (get_elem?-set_self zs i (set_half p x byte) inside)
            (ap ok (half-set_half p x byte byte_p small)),
        λ j q.
            before_set zs byte x b.ofs_front (len b) j e byte_p small q
            ∙ ap (half_of (j + b.ofs_front))
                (same ((b.ofs_front + j) / 2) (omega (arith, within, ordered, q))),
      ),
    )

-- On a well-formed buffer `push` of a nibble does not panic. It leaves a well-formed buffer with the
-- nibble behind the others.
pub push-IsPushed :
    (b : NibbleBuf) (x : ℕ)
    → IsBuf b
    → x < 16
    → (b' : NibbleBuf) × (push b x ≡ ok b') × IsPushed b x b'
unfolding push len
push-IsPushed b x (w, bytes_w) small =
    let ordered : b.ofs_front ≤ b.ofs_back = w.ordered in
    let within : b.ofs_back ≤ length b.bytes * 2 = w.within in
    let fits : (b.ofs_front + len b) / 2 ≤ length b.bytes = omega (arith, ordered, within) in
    let (inside, longer) = length-padded b.bytes ((b.ofs_front + len b) / 2) fits in
    let (byte, e) =
      get_elem?-within (padded b.bytes ((b.ofs_front + len b) / 2)) ((b.ofs_front + len b) / 2)
        inside in
    pushed b x (padded b.bytes ((b.ofs_front + len b) / 2)) byte w
      (padded-AreBytes b.bytes ((b.ofs_front + len b) / 2) fits bytes_w) small e inside
      (λ j. get_elem?-padded b.bytes ((b.ofs_front + len b) / 2) fits j)
      (set-ok (record b { ofs_back = b.ofs_back + 1 }) (len b) x byte e)
