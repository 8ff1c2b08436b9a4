-- ===== src/ChainPack/UintRoundTrip.antt =====
-- A number that `pack_uint_data_helper` packs is read back by `unpack_uint`, with the bits that its
-- bytes have room for.
use libshv.Base.{
  ℕ, zero, suc, ◌+◌, ◌-◌, ◌*◌, ◌/◌, ◌%◌, ◌^◌, ◌≤◌, ◌<◌, ◌≡◌, inl, inr, refl, ap, ◌∙◌, true, false,
  leb, ltb, if◌then◌else◌, Option, some, List, [], ◌∷◌, ◌++◌, arith, Bool-cases,
}
use libshv.ChainPack.Bits.{
  significant_bits_part_length, bytes_needed, significant_bits_part_length-digits, digits-bound,
}
use libshv.ChainPack.Uint.{
  low_bytes, marked, pack_uint_data_helper, pack_uint_data, read_bytes, head_info, unpack_uint,
}
use native.Mathlib.Omega.{pow_step}
use native.Mathlib.Nat.{pow-le-pow_right, lt_of_lt_of_le}

-- What is left of a number above its `k` low bytes.
shifted : ℕ → ℕ → ℕ
shifted zero n = n
shifted (suc k) n = shifted k (n / 256)

shifted-low_bytes :
    (k n : ℕ) (bytes : List ℕ) → low_bytes (suc k) n bytes ≡ shifted k n % 256 ∷ low_bytes k n bytes
unfolding low_bytes shifted
shifted-low_bytes zero n bytes = refl
shifted-low_bytes (suc k) n bytes = shifted-low_bytes k (n / 256) (n % 256 ∷ bytes)

read-one-more :
    (k num n b : ℕ) (bytes rest : List ℕ)
    → read_bytes k num bytes ≡ some (n, b ∷ rest)
    → read_bytes (suc k) num bytes ≡ some ((n * 256 + b) % 2 ^ 64, rest)
unfolding read_bytes
read-one-more zero num n b [] rest h = cc
read-one-more zero num n b (x ∷ bytes) rest h = cc
read-one-more (suc k) num n b [] rest h = cc
read-one-more (suc k) num n b (x ∷ bytes) rest h =
    read-one-more k ((num * 256 + x) % 2 ^ 64) n b bytes rest h

read_bytes-low_bytes :
    (k n : ℕ) (rest : List ℕ)
    → n < 2 ^ 64
    → read_bytes k (shifted k n) (low_bytes k n rest) ≡ some (n, rest)
unfolding read_bytes low_bytes shifted
read_bytes-low_bytes zero n rest h = refl
read_bytes-low_bytes (suc k) n rest h =
    let whole : (n / 256 * 256 + n % 256) % 2 ^ 64 ≡ n = omega arith in
    read-one-more k (shifted k (n / 256)) (n / 256) (n % 256) _ rest
      (read_bytes-low_bytes k (n / 256) (n % 256 ∷ rest) (omega arith))
    ∙ ap (λ t. some (t, rest)) whole

low_bytes-append :
    (k n : ℕ) (bytes rest : List ℕ) → low_bytes k n bytes ++ rest ≡ low_bytes k n (bytes ++ rest)
unfolding low_bytes
low_bytes-append zero n bytes rest = refl
low_bytes-append (suc k) n bytes rest = low_bytes-append k (n / 256) (n % 256 ∷ bytes) rest

shifted-zero : (k n : ℕ) → n < 256 ^ k → shifted k n ≡ 0
unfolding shifted
shifted-zero zero n h = omega (arith, h)
shifted-zero (suc k) n h = shifted-zero k (n / 256) (omega (arith, h, pow_step 256 k))

-- The bits that the bytes for `bit_len` bits have room for.
abbrev pub room : ℕ → ℕ
room bit_len = if leb bit_len 28 then bytes_needed bit_len * 7 else (bytes_needed bit_len - 1) * 8

unpack-head :
    (head more bits num : ℕ) (rest : List ℕ)
    → head_info head ≡ (more, shifted more num, bits)
    → bits ≤ 64
    → num < 2 ^ 64
    → unpack_uint (head ∷ low_bytes more num rest) ≡ some (num, bits, rest)
unfolding unpack_uint
unpack-head head more bits num rest h few small =
    let fits : ltb 64 bits ≡ false = ground arith in
    rw (h, read_bytes-low_bytes more num rest small, fits) refl

marked_1 : (x : ℕ) → x < 128 → head_info (marked 1 (x % 256)) ≡ (0, x, 7)
marked_1 x h = ground arith

marked_2 : (x : ℕ) → x < 64 → head_info (marked 2 (x % 256)) ≡ (1, x, 14)
marked_2 x h = ground arith

marked_3 : (x : ℕ) → x < 32 → head_info (marked 3 (x % 256)) ≡ (2, x, 21)
marked_3 x h = ground arith

marked_4 : (x : ℕ) → x < 16 → head_info (marked 4 (x % 256)) ≡ (3, x, 28)
marked_4 x h = ground arith

long_head : (j : ℕ) → 4 ≤ j → j ≤ 8 → head_info (240 + (suc j - 5)) ≡ (j, 0, j * 8)
long_head j h k = ground arith

-- The bytes that a number is packed into and what they are read back as.
abbrev pub IsReadBack : ℕ → ℕ → Option (List ℕ) → Type 0
IsReadBack num bits packed =
    (bytes : List ℕ) × (packed ≡ some bytes)
    × ((rest : List ℕ) → unpack_uint (bytes ++ rest) ≡ some (num, bits, rest))

head_of : ℕ → ℕ → ℕ → ℕ
head_of bit_len j num =
    if leb bit_len 28 then marked (suc j) (shifted j num % 256) else 240 + (suc j - 5)

packed-IsReadBack :
    (num bit_len j bits : ℕ)
    → bytes_needed bit_len ≡ suc j
    → j ≤ 8
    → num < 2 ^ 64
    → bits ≤ 64
    → head_info (head_of bit_len j num) ≡ (j, shifted j num, bits)
    → IsReadBack num bits (pack_uint_data_helper num bit_len)
unfolding pack_uint_data_helper head_of
packed-IsReadBack num bit_len j bits k few small fits info =
    let not_many : ltb 32 (suc j) ≡ false = ground arith in
    (
      head_of bit_len j num ∷ low_bytes j num [],
      rw (k, not_many, shifted-low_bytes j num []) refl,
      λ rest.
          rw (low_bytes-append j num [] rest)
            (unpack-head (head_of bit_len j num) j bits num rest info fits small),
    )

pub bytes_needed-short :
    (bit_len : ℕ) → leb bit_len 28 ≡ true → bytes_needed bit_len ≡ (bit_len - 1) / 7 + 1
unfolding bytes_needed
bytes_needed-short bit_len h = rw h refl

pub bytes_needed-long :
    (bit_len : ℕ) → leb bit_len 28 ≡ false → bytes_needed bit_len ≡ (bit_len - 1) / 8 + 2
unfolding bytes_needed
bytes_needed-long bit_len h = rw h refl

short-IsReadBack :
    (num bit_len j : ℕ)
    → leb bit_len 28 ≡ true
    → bytes_needed bit_len ≡ suc j
    → j ≤ 3
    → num < 2 ^ (suc j * 7)
    → IsReadBack num (suc j * 7) (pack_uint_data_helper num bit_len)
unfolding head_of shifted
short-IsReadBack num bit_len zero s k few h =
    packed-IsReadBack num bit_len 0 7 k (omega arith) (omega arith) (omega arith)
      (rw s (marked_1 num (omega arith)))
short-IsReadBack num bit_len (suc zero) s k few h =
    packed-IsReadBack num bit_len 1 14 k (omega arith) (omega arith) (omega arith)
      (rw s (marked_2 (num / 256) (omega arith)))
short-IsReadBack num bit_len (suc (suc zero)) s k few h =
    packed-IsReadBack num bit_len 2 21 k (omega arith) (omega arith) (omega arith)
      (rw s (marked_3 (num / 256 / 256) (omega arith)))
short-IsReadBack num bit_len (suc (suc (suc zero))) s k few h =
    packed-IsReadBack num bit_len 3 28 k (omega arith) (omega arith) (omega arith)
      (rw s (marked_4 (num / 256 / 256 / 256) (omega arith)))
short-IsReadBack num bit_len (suc (suc (suc (suc j)))) s k few h = absurd (omega (arith, few))

long-IsReadBack :
    (num bit_len j : ℕ)
    → leb bit_len 28 ≡ false
    → bytes_needed bit_len ≡ suc j
    → 4 ≤ j
    → j ≤ 8
    → num < 2 ^ 64
    → num < 256 ^ j
    → IsReadBack num (j * 8) (pack_uint_data_helper num bit_len)
unfolding head_of
long-IsReadBack num bit_len j s k some_bytes few small h =
    packed-IsReadBack num bit_len j (j * 8) k few small (omega arith)
      (rw (s, shifted-zero j num h) (long_head j some_bytes few))

pow_256 : (j : ℕ) → 256 ^ j ≡ 2 ^ (j * 8)
pow_256 zero = refl
pow_256 (suc j) =
    let m = j * 8 in
    let e : suc j * 8 ≡ suc (suc (suc (suc (suc (suc (suc (suc m))))))) = omega arith in
    rw
      (
        e,
        pow_step 256 j,
        pow_step 2 (suc (suc (suc (suc (suc (suc (suc m))))))),
        pow_step 2 (suc (suc (suc (suc (suc (suc m)))))),
        pow_step 2 (suc (suc (suc (suc (suc m))))),
        pow_step 2 (suc (suc (suc (suc m)))),
        pow_step 2 (suc (suc (suc m))),
        pow_step 2 (suc (suc m)),
        pow_step 2 (suc m),
        pow_step 2 m,
      )
      (omega (arith, pow_256 j))

pub room-wide : (bit_len : ℕ) → bit_len ≤ room bit_len
room-wide bit_len = elim (Bool-cases (leb bit_len 28)) [
  | inl s ↦ rw s (omega (arith, bytes_needed-short bit_len s))
  | inr s ↦ rw s (omega (arith, bytes_needed-long bit_len s))
]

-- What fits into the room that a bit length makes is read back.
pub pack_uint_data_helper-IsReadBack :
    (num bit_len : ℕ)
    → bit_len ≤ 64
    → num < 2 ^ 64
    → num < 2 ^ room bit_len
    → IsReadBack num (room bit_len) (pack_uint_data_helper num bit_len)
pack_uint_data_helper-IsReadBack num bit_len few small h = elim (Bool-cases (leb bit_len 28)) [
  | inl s ↦
      let j = (bit_len - 1) / 7 in
      let k : bytes_needed bit_len ≡ suc j = omega (arith, bytes_needed-short bit_len s) in
      let r : room bit_len ≡ suc j * 7 = rw (s, k) refl in
      rw r (short-IsReadBack num bit_len j s k (ground arith) (rw r at (h)))
  | inr s ↦
      let j = (bit_len - 1) / 8 + 1 in
      let k : bytes_needed bit_len ≡ suc j = omega (arith, bytes_needed-long bit_len s) in
      let r : room bit_len ≡ j * 8 = rw (s, k) (omega arith) in
      let p : 256 ^ j ≡ 2 ^ (j * 8) = pow_256 j in
      rw r
        (long-IsReadBack num bit_len j s k (ground arith) (omega arith) small (rw p (rw r at (h))))
]

-- An unsigned number below 2 ^ 64 is packed, and unpack_uint reads it back from in front of any
-- other bytes, with the bits that the bytes needed for its digits have room for.
pub unpack_uint-pack_uint_data :
    (n : ℕ) → n < 2 ^ 64 → IsReadBack n (room (significant_bits_part_length n)) (pack_uint_data n)
unfolding pack_uint_data
unpack_uint-pack_uint_data n h =
    let (below, few) = digits-bound 64 n h in
    pack_uint_data_helper-IsReadBack n (significant_bits_part_length n)
      (rw (significant_bits_part_length-digits n h) few) h
      (lt_of_lt_of_le (rw (significant_bits_part_length-digits n h) below)
        (pow-le-pow_right (omega arith) (room-wide (significant_bits_part_length n))))
