-- ===== src/ChainPack/DateTime.antt =====
-- `cchainpack_pack_date_time` and the date and time of `cchainpack_unpack_next`
-- (libshvchainpack/c/cchainpack.c), with the arithmetic of `int64_t` that they use.
use libshv.Base.{
  ◌&&◌, ℕ, suc, ◌+◌, ◌-◌, ◌*◌, ◌/◌, ◌%◌, ◌^◌, Bool, true, false, not, ◌==◌, leb, ltb, if◌then◌else◌,
  Option, none, some, Str,
}
use libshv.Base.Int.{ℤ, pos, negsuc, to_int64}
use libshv.ChainPack.Int.{magnitude, pack_int_data}
use libshv.ChainPack.Pack.{◌<+>◌, byte, cp_date_time}

-- SHV_EPOCH_MSEC
abbrev pub shv_epoch_msec : ℕ
shv_epoch_msec = 1_517_529_600_000

-- `i - SHV_EPOCH_MSEC`, `i + SHV_EPOCH_MSEC`
unfoldable pub since_epoch : ℤ → ℤ
since_epoch (pos n) =
    if leb shv_epoch_msec n then pos (n - shv_epoch_msec) else negsuc (shv_epoch_msec - n - 1)
since_epoch (negsuc n) = negsuc (n + shv_epoch_msec)

unfoldable pub behind_epoch : ℤ → ℤ
behind_epoch (pos n) = pos (n + shv_epoch_msec)
behind_epoch (negsuc n) =
    if ltb n shv_epoch_msec then pos (shv_epoch_msec - n - 1) else negsuc (n - shv_epoch_msec)

-- The sum wraps around, as C++ does not define it there.
unfoldable pub from_epoch : ℤ → ℤ
from_epoch i = to_int64 (behind_epoch i)

-- `i % 1000 == 0`, `i / 1000` of such a number, and `i * 1000`
unfoldable pub is_whole : ℤ → Bool
is_whole i = magnitude i % 1000 == 0

unfoldable pub thousandth : ℤ → ℤ
thousandth (pos n) = pos (n / 1000)
thousandth (negsuc n) = negsuc (suc n / 1000 - 1)

unfoldable pub thousandfold : ℤ → ℤ
thousandfold (pos n) = pos (n * 1000)
thousandfold (negsuc n) = negsuc (suc n * 1000 - 1)

-- `i * p | b` for a power of two `p` above `b`
unfoldable pub push_bits : ℕ → ℕ → ℤ → ℤ
push_bits p b (pos n) = pos (n * p + b)
push_bits p b (negsuc n) = negsuc (n * p + (p - 1 - b))

-- `i & (p - 1)` and the arithmetic shift that drops these bits
unfoldable pub low_bits : ℕ → ℤ → ℕ
low_bits p (pos n) = n % p
low_bits p (negsuc n) = p - 1 - n % p

unfoldable pub shift_out : ℕ → ℤ → ℤ
shift_out p (pos n) = pos (n / p)
shift_out p (negsuc n) = negsuc (n / p)

-- `i / 15`, rounded to zero, and `i * 15`
unfoldable pub quarters : ℤ → ℤ
quarters (pos n) = pos (n / 15)
quarters (negsuc n) = if ltb n 14 then pos 0 else negsuc (suc n / 15 - 1)

unfoldable pub minutes : ℤ → ℤ
minutes (pos n) = pos (n * 15)
minutes (negsuc n) = negsuc (suc n * 15 - 1)

-- A number that an `int64_t` holds.
abbrev pub in_int64 : ℤ → Bool
in_int64 (pos n) = ltb n (2 ^ 63)
in_int64 (negsuc n) = ltb n (2 ^ 63)

-- The last two bits of a packed date: has it an offset, and is it in whole seconds.
unfoldable pub date_flags : Bool → Bool → ℕ
date_flags has_offset whole = (if has_offset then 1 else 0) + (if whole then 2 else 0)

abbrev pub seconds_if : Bool → ℤ → ℤ
seconds_if whole msecs = if whole then thousandth msecs else msecs

abbrev pub offset_if : Bool → ℕ → ℤ → ℤ
offset_if has_offset offset d = if has_offset then push_bits 128 offset d else d

-- The number that is packed for a date, its offset in quarters of an hour in 7 bits. Each step gives
-- a number as far from 0 as the last one at least, but the division, so that an `int64_t` holds all of
-- them if it holds the milliseconds and the number.
unfoldable pub date_number : ℤ → ℕ → ℤ
date_number msecs offset =
    let has_offset = not (offset == 0) in
    push_bits 4 (date_flags has_offset (is_whole msecs))
      (offset_if has_offset offset (seconds_if (is_whole msecs) msecs))

-- `cchainpack_pack_date_time`; `none` also stands for a number that overflows.
unfoldable pub pack_date_time : ℤ → ℤ → Option Str
pack_date_time epoch_msecs min_from_utc =
    let msecs = since_epoch epoch_msecs in
    let d = date_number msecs (low_bits 128 (quarters min_from_utc)) in
    if in_int64 msecs && in_int64 d then byte cp_date_time <+> pack_int_data d else none

-- The sign of 7 bits.
unfoldable pub signed7 : ℕ → ℤ
signed7 b = if ltb b 64 then pos b else negsuc (127 - b)

-- `RpcDateTime::setMsecsSinceEpoch`: the 57 bits of `m_dtm.msec`
abbrev signed57 : ℕ → ℤ
signed57 u = if ltb u (2 ^ 56) then pos u else negsuc (2 ^ 57 - 1 - u)

unfoldable pub to_msec : ℤ → ℤ
unfolding low_bits
to_msec i = signed57 (low_bits (2 ^ 57) i)

abbrev pub scaled : Bool → ℤ → Option ℤ
scaled false d = some d
scaled true d = if in_int64 (thousandfold d) then some (thousandfold d) else none

abbrev pub dated : ℤ → Option ℤ → Option (ℤ × ℤ)
dated offset none = none
dated offset (some d) = some (from_epoch d, minutes offset)

abbrev pub unpack_flags : Bool → Bool → ℤ → Option (ℤ × ℤ)
unpack_flags has_offset whole d =
    dated (if has_offset then signed7 (low_bits 128 d) else pos 0)
      (scaled whole (if has_offset then shift_out 128 d else d))

-- The milliseconds and the offset in minutes of a packed number, `none` for an overflow.
unfoldable pub unpack_date : ℤ → Option (ℤ × ℤ)
unpack_date d = unpack_flags (low_bits 4 d % 2 == 1) (low_bits 4 d / 2 == 1) (shift_out 4 d)
