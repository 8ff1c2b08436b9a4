-- ===== src/ChainPack/Int.antt =====
-- `expand_bit_len`, `cchainpack_pack_int_data` and `unpack_int` of libshvchainpack/c/cchainpack.c.
use libshv.Base.{
  ℕ, zero, suc, ◌+◌, ◌-◌, ◌*◌, ◌/◌, ◌%◌, ◌^◌, Bool, true, false, ◌==◌, leb, ltb, if◌then◌else◌,
  Option, none, some, List,
}
use libshv.Base.Int.{ℤ, pos, negsuc}
use libshv.ChainPack.Bits.{significant_bits_part_length, bytes_needed}
use libshv.ChainPack.Uint.{pack_uint_data_helper, unpack_uint}

-- `expand_bit_len`
unfoldable pub expand_bit_len : ℕ → ℕ
expand_bit_len bit_len =
    if leb bit_len 28 then bytes_needed bit_len * 7 - 1 else (bytes_needed bit_len - 1) * 8 - 1

-- `snum < 0? -snum: snum`
abbrev pub magnitude : ℤ → ℕ
magnitude (pos n) = n
magnitude (negsuc n) = suc n

abbrev pub is_negative : ℤ → Bool
is_negative (pos n) = false
is_negative (negsuc n) = true

-- `num & (1 << at)`, `num |= 1 << at`
abbrev pub has_bit : ℕ → ℕ → Bool
has_bit at num = num / 2 ^ at % 2 == 1

abbrev pub set_bit : ℕ → ℕ → ℕ
set_bit at num = if has_bit at num then num else num + 2 ^ at

-- `cchainpack_pack_int_data`; `none` also stands for a sign bit beyond the 64 bits of `num`, where
-- C leaves the shift undefined, as it does the negation of the least `int64_t`, the one such number.
unfoldable pub pack_int_data : ℤ → Option (List ℕ)
pack_int_data snum =
    let num = magnitude snum in
    let bitlen = significant_bits_part_length num + 1 in
    let sign_pos = expand_bit_len bitlen in
    if is_negative snum
    then if leb 64 sign_pos then none else pack_uint_data_helper (set_bit sign_pos num) bitlen
    else pack_uint_data_helper num bitlen

-- `-snum` of what is left without the sign bit.
abbrev pub negated : ℕ → ℤ
negated zero = pos 0
negated (suc n) = negsuc n

-- A number with more than 64 bits is the greatest one.
abbrev pub signed_number : ℕ → ℕ → ℤ
signed_number num bitlen =
    if ltb 64 bitlen
    then pos (2 ^ 63 - 1)
    else if has_bit (bitlen - 1) num
    then negated (num - 2 ^ (bitlen - 1))
    else pos num

abbrev pub as_signed : Option (ℕ × ℕ × List ℕ) → Option (ℤ × List ℕ)
as_signed none = none
as_signed (some (num, bitlen, rest)) = some (signed_number num bitlen, rest)

-- `unpack_int`, `none` for an underflow
unfoldable pub unpack_int : List ℕ → Option (ℤ × List ℕ)
unpack_int bytes = as_signed (unpack_uint bytes)
