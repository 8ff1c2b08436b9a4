-- ===== src/Transport/Crc.antt =====
-- libshvchainpack/include/shv/chainpack/crc32.h: CRC-32 with the reflected polynomial.
-- A `crc32_t` is a number below 2 ^ 32.
use Prim.Native.Nat.{bit_xor}
use libshv.Base.{ℕ, zero, suc, ◌/◌, ◌%◌, ◌^◌, ◌<◌, Str, [], ◌∷◌, ◌==◌, if◌then◌else◌, arith}

abbrev poly : ℕ
poly = 0xEDB88320

-- One round of the loop over the bits of a byte.
abbrev shift_round : ℕ → ℕ
shift_round r = if r % 2 == 1 then bit_xor (r / 2) poly else r / 2

abbrev rounds : ℕ → ℕ → ℕ
rounds zero r = r
rounds (suc n) r = rounds n (shift_round r)

-- `crc32_for_byte`, which fills the table
unfoldable pub crc32_for_byte : ℕ → ℕ
crc32_for_byte b = rounds 8 b

-- `m_remainder` of a fresh or reset digest
abbrev pub crc_init : ℕ
crc_init = 0xFFFFFFFF

-- `add(uint8_t)`
unfoldable pub crc_add : ℕ → ℕ → ℕ
unfolding crc32_for_byte
crc_add remainder b =
    bit_xor (crc32_for_byte (bit_xor remainder b % 256)) (remainder / 256) % 2 ^ 32

-- `add(data, n)`
unfoldable pub crc_add_all : ℕ → Str → ℕ
crc_add_all remainder [] = remainder
crc_add_all remainder (b ∷ bs) = crc_add_all (crc_add remainder b) bs

-- `result()`
unfoldable pub crc_result : ℕ → ℕ
crc_result remainder = bit_xor remainder 0xFFFFFFFF % 2 ^ 32

pub crc_result-lt : (r : ℕ) → crc_result r < 2 ^ 32
unfolding crc_result
crc_result-lt r = omega arith
