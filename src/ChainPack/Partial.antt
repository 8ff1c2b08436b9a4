-- ===== src/ChainPack/Partial.antt =====
-- A ChainPack number that is not whole is not read, and what follows a whole one is left.
use libshv.Base.{
  ℕ, zero, suc, ◌+◌, ◌*◌, ◌%◌, ◌/◌, ◌^◌, ◌<◌, ◌≤◌, ltb, Bool-cases, ◌≡◌, ◌⊎◌, inl, inr, refl, sym,
  ap, ◌∙◌, Option, none, some, [], ◌∷◌, ◌++◌, Str, length, length-append, append-nil, arith,
  Option-cases,
}
use libshv.ChainPack.Bits.{significant_bits_part_length, bytes_needed}
use libshv.ChainPack.Uint.{
  low_bytes, set_head, pack_uint_data_helper, pack_uint_data, read_bytes, head_info, with_bit_len,
  read_number, unpack_uint,
}
use libshv.ChainPack.UintRoundTrip.{room, unpack_uint-pack_uint_data}

-- A list is put together in two ways: one of the cuts is not behind the other.
pub append-split :
    (b z x y : Str)
    → b ++ z ≡ x ++ y
    → ((c : ℕ) × (w : Str) × (b ++ (c ∷ w) ≡ x) × (z ≡ c ∷ w ++ y))
      ⊎ ((w : Str) × (b ≡ x ++ w) × (w ++ z ≡ y))
append-split b z [] y h = inr (b, refl, h)
append-split [] z (c ∷ x) y h = inl (c, x, refl, h)
append-split (a ∷ b) z (c ∷ x) y h =
    let same : a ≡ c = cc in
    let rest : b ++ z ≡ x ++ y = cc in
    elim (append-split b z x y rest) [
      | inl (d, w, e, f) ↦ inl (d, w, rw (same, e) refl, f)
      | inr (w, e, f) ↦ inr (w, rw (same, e) refl, f)
    ]

read_bytes-append :
    (k num n : ℕ) (b r x : Str)
    → read_bytes k num b ≡ some (n, r)
    → read_bytes k num (b ++ x) ≡ some (n, r ++ x)
unfolding read_bytes
read_bytes-append zero num n b r x h = cc
read_bytes-append (suc k) num n [] r x h = cc
read_bytes-append (suc k) num n (c ∷ b) r x h =
    read_bytes-append k ((num * 256 + c) % 2 ^ 64) n b r x h

abbrev with_rest : Str → Option (ℕ × ℕ × Str) → Option (ℕ × ℕ × Str)
with_rest x none = none
with_rest x (some (n, bits, r)) = some (n, bits, r ++ x)

abbrev rest_of : Option (ℕ × ℕ × Str) → Str
rest_of none = []
rest_of (some (n, bits, r)) = r

read_number-append :
    (more num len n bits : ℕ) (b r x : Str)
    → read_number (more, num, len) b ≡ some (n, bits, r)
    → read_number (more, num, len) (b ++ x) ≡ some (n, bits, r ++ x)
read_number-append more num len n bits b r x h = elim (Option-cases (read_bytes more num b)) [
  | inl m ↦
      let clash : ◌≡◌ {A = Option (ℕ × ℕ × Str)} none (some (n, bits, r)) = sym (rw m refl) ∙ h in
      absurd cc
  | inr ((v, r'), m) ↦
      rw (read_bytes-append more num v b r' x m)
        (ap (with_rest x) (sym (ap (with_bit_len len) m) ∙ h))
]

pub unpack_uint-append :
    (n bits : ℕ) (b r x : Str)
    → unpack_uint b ≡ some (n, bits, r)
    → unpack_uint (b ++ x) ≡ some (n, bits, r ++ x)
unfolding unpack_uint
unpack_uint-append n bits [] r x h = cc
unpack_uint-append n bits (c ∷ b) r x h =
    let (more, num, len) = head_info c in read_number-append more num len n bits b r x h

-- The length in front of a frame.
abbrev pub or_nothing : Option Str → Str
or_nothing none = []
or_nothing (some s) = s

unfoldable pub length_bytes : ℕ → Str
length_bytes n = or_nothing (pack_uint_data n)

pub length_bytes-pack : (n : ℕ) → n < 2 ^ 64 → pack_uint_data n ≡ some (length_bytes n)
unfolding length_bytes
length_bytes-pack n h = let (bytes, e, f) = unpack_uint-pack_uint_data n h in rw e refl

pub unpack-length_bytes :
    (n : ℕ) (rest : Str)
    → n < 2 ^ 64
    → unpack_uint (length_bytes n ++ rest) ≡ some (n, room (significant_bits_part_length n), rest)
unfolding length_bytes
unpack-length_bytes n rest h = let (bytes, e, f) = unpack_uint-pack_uint_data n h in rw e (f rest)

-- A part of the length is not read.
pub unpack-part :
    (n c : ℕ) (b w : Str) → n < 2 ^ 64 → b ++ (c ∷ w) ≡ length_bytes n → unpack_uint b ≡ none
unpack-part n c b w h e = elim (Option-cases (unpack_uint b)) [
  | inl m ↦ m
  | inr ((m, bits, r), g) ↦
      let two : some (m, bits, r ++ (c ∷ w)) ≡ some (n, room (significant_bits_part_length n), []) =
        sym (unpack_uint-append m bits b r (c ∷ w) g)
        ∙ rw e (rw (append-nil (length_bytes n)) at (unpack-length_bytes n [] h)) in
      absurd (omega (arith, length-append r (c ∷ w), ap (λ o. length (rest_of o)) two))
]

length-low_bytes : (k n : ℕ) (bytes : Str) → length (low_bytes k n bytes) ≡ k + length bytes
unfolding low_bytes
length-low_bytes zero n bytes = omega arith
length-low_bytes (suc k) n bytes = omega (arith, length-low_bytes k (n / 256) (n % 256 ∷ bytes))

length-set_head :
    (bit_len byte_cnt : ℕ) (bytes : Str) → length (set_head bit_len byte_cnt bytes) ≡ length bytes
length-set_head bit_len byte_cnt [] = refl
length-set_head bit_len byte_cnt (c ∷ bytes) = refl

-- No more than 32 bytes are packed.
pub length-length_bytes : (n : ℕ) → length (length_bytes n) ≤ 32
unfolding length_bytes pack_uint_data pack_uint_data_helper
length-length_bytes n = elim (Bool-cases (ltb 32 (bytes_needed (significant_bits_part_length n)))) [
  | inl e ↦ rw e (omega arith)
  | inr e ↦
      let bits = significant_bits_part_length n in
      let cnt = bytes_needed bits in
      rw e
        (ground (arith, length-set_head bits cnt (low_bytes cnt n []), length-low_bytes cnt n []))
]
