-- ===== src/ChainPack/IntRoundTrip.antt =====
-- A signed number that `cchainpack_pack_int_data` packs is read back by `unpack_int`.
use libshv.Base.{
  ℕ, suc, ◌+◌, ◌-◌, ◌/◌, ◌^◌, ◌≤◌, ◌<◌, ◌≡◌, inl, inr, refl, sym, ◌∙◌, true, false, leb, ltb,
  Option, some, List, ◌++◌, arith, Bool-cases,
}
use libshv.Base.Int.{ℤ, pos, negsuc}
use libshv.ChainPack.Bits.{
  significant_bits_part_length, binary_digits, significant_bits_part_length-digits, digits-bound,
  digits-63,
}
use libshv.ChainPack.Uint.{pack_uint_data_helper}
use libshv.ChainPack.UintRoundTrip.{
  room, room-wide, IsReadBack, pack_uint_data_helper-IsReadBack, bytes_needed-short,
  bytes_needed-long,
}
use libshv.ChainPack.Int.{
  expand_bit_len, magnitude, has_bit, pack_int_data, negated, signed_number, unpack_int,
}
use native.Mathlib.Omega.{pow_step}
use native.Mathlib.Nat.{pow-le-pow_right, lt_of_lt_of_le, div-eq_of_lt, div-eq_of_lt-le}

two_pow_le : (i j : ℕ) → i ≤ j → 2 ^ i ≤ 2 ^ j
two_pow_le i j h = pow-le-pow_right (omega arith) h

expand_bit_len_lem : (bit_len : ℕ) → expand_bit_len bit_len ≡ room bit_len - 1
unfolding expand_bit_len
expand_bit_len_lem bit_len = elim (Bool-cases (leb bit_len 28)) [
  | inl s ↦ rw s refl
  | inr s ↦ rw s refl
]

room-most : (bit_len : ℕ) → bit_len ≤ 64 → room bit_len ≤ 64
room-most bit_len h = elim (Bool-cases (leb bit_len 28)) [
  | inl s ↦ rw s (ground (arith, bytes_needed-short bit_len s))
  | inr s ↦ rw s (omega (arith, bytes_needed-long bit_len s))
]

no_top_bit : (at num : ℕ) → num < 2 ^ at → has_bit at num ≡ false
no_top_bit at num h = rw (div-eq_of_lt h) refl

top_bit : (at num : ℕ) → num < 2 ^ at → has_bit at (num + 2 ^ at) ≡ true
top_bit at num h =
    let one : (num + 2 ^ at) / 2 ^ at ≡ 1 =
      div-eq_of_lt-le {k = 1} (2 ^ at) (omega arith) (omega arith) in
    rw one refl

-- What a packed number of such bits is read back as.
unpack_int-read :
    (num bits : ℕ) (packed : Option (List ℕ))
    → IsReadBack num bits packed
    → (bytes : List ℕ) × (packed ≡ some bytes)
      × ((rest : List ℕ) → unpack_int (bytes ++ rest) ≡ some (signed_number num bits, rest))
unfolding unpack_int
unpack_int-read num bits packed (bytes, e, f) = (bytes, e, λ rest. rw (f rest) refl)

signed_number-low : (num at : ℕ) → at < 64 → num < 2 ^ at → signed_number num (suc at) ≡ pos num
signed_number-low num at few h =
    let fits : ltb 64 (suc at) ≡ false = ground arith in
    let p : suc at - 1 ≡ at = omega arith in rw (fits, p, no_top_bit at num h) refl

signed_number-high :
    (num at : ℕ) → at < 64 → num < 2 ^ at → signed_number (num + 2 ^ at) (suc at) ≡ negated num
signed_number-high num at few h =
    let fits : ltb 64 (suc at) ≡ false = ground arith in
    let p : suc at - 1 ≡ at = omega arith in
    let q : num + 2 ^ at - 2 ^ at ≡ num = omega arith in rw (fits, p, top_bit at num h, q) refl

-- The position of the sign bit above a number.
record HasSign (num at : ℕ) : Type 0 where
  at-bound : at < 64
  below : num < 2 ^ at
  made : room (significant_bits_part_length num + 1) ≡ suc at
  expanded : expand_bit_len (significant_bits_part_length num + 1) ≡ at
  fits : significant_bits_part_length num + 1 ≤ 64

sign_position : (num : ℕ) → num < 2 ^ 63 → (at : ℕ) × HasSign num at
sign_position num h =
    let len = significant_bits_part_length num in
    let same : len ≡ binary_digits 63 num =
      significant_bits_part_length-digits num (omega arith) ∙ digits-63 num h in
    let (below, few) = digits-bound 63 num h in
    let most : room (len + 1) ≤ 64 = room-most (len + 1) (omega (arith, same, few)) in
    let wide = room-wide (len + 1) in
    (
      room (len + 1) - 1,
      record {
        at-bound = omega arith;
        below =
            lt_of_lt_of_le below
              (two_pow_le (binary_digits 63 num) (room (len + 1) - 1) (omega (arith, same, wide)));
        made = omega arith;
        expanded = expand_bit_len_lem (len + 1);
        fits = omega (arith, same, few);
      },
    )

abbrev IsPacked : ℤ → Type 0
IsPacked i =
    (bytes : List ℕ) × (pack_int_data i ≡ some bytes)
    × ((rest : List ℕ) → unpack_int (bytes ++ rest) ≡ some (i, rest))

IsPacked-low : (num at : ℕ) → HasSign num at → IsPacked (pos num)
unfolding pack_int_data
IsPacked-low num at s =
    let len = significant_bits_part_length num + 1 in
    let wide : num < 2 ^ suc at = omega (arith, pow_step 2 at, s.below) in
    let top : 2 ^ suc at ≤ 2 ^ 64 = two_pow_le (suc at) 64 (ground (arith, s.at-bound)) in
    let (bytes, e, f) = unpack_int-read num (suc at) _ (
      rw (sym s.made) (
        pack_uint_data_helper-IsReadBack num len s.fits (lt_of_lt_of_le wide top)
          (rw s.made wide))) in
    (bytes, e, λ rest. rw (f rest, signed_number-low num at s.at-bound s.below) refl)

IsPacked-high : (num at : ℕ) → HasSign (suc num) at → IsPacked (negsuc num)
unfolding pack_int_data
IsPacked-high num at s =
    let len = significant_bits_part_length (suc num) + 1 in
    let wide : suc num + 2 ^ at < 2 ^ suc at = omega (arith, pow_step 2 at, s.below) in
    let top : 2 ^ suc at ≤ 2 ^ 64 = two_pow_le (suc at) 64 (ground (arith, s.at-bound)) in
    let few : leb 64 at ≡ false = ground (arith, s.at-bound) in
    let (bytes, e, f) =
      unpack_int-read (suc num + 2 ^ at) (suc at) (pack_uint_data_helper (suc num + 2 ^ at) len) (
        rw (sym s.made) (
          pack_uint_data_helper-IsReadBack (suc num + 2 ^ at) len s.fits (lt_of_lt_of_le wide top)
            (rw s.made wide))) in
    (
      bytes,
      rw (s.expanded, few, no_top_bit at (suc num) s.below) e,
      λ rest. rw (f rest, signed_number-high (suc num) at s.at-bound s.below) refl,
    )

-- A signed number of 64 bits, but the least one, is packed, and unpack_int reads it back from in
-- front of any other bytes.
pub unpack_int-pack_int_data :
    (i : ℤ)
    → magnitude i < 2 ^ 63
    → (bytes : List ℕ) × (pack_int_data i ≡ some bytes)
      × ((rest : List ℕ) → unpack_int (bytes ++ rest) ≡ some (i, rest))
unpack_int-pack_int_data (pos n) h = let (at, s) = sign_position n h in IsPacked-low n at s
unpack_int-pack_int_data (negsuc n) h =
    let (at, s) = sign_position (suc n) h in IsPacked-high n at s
