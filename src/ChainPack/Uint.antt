-- ===== src/ChainPack/Uint.antt =====
-- `pack_uint_data_helper`, `cchainpack_pack_uint_data` and `unpack_uint` of
-- libshvchainpack/c/cchainpack.c. A shift is a division or a product, and a mask of low bits a
-- remainder; what is packed is a list of bytes, and what is left to unpack another.
use libshv.Base.{
  ℕ, zero, suc, ◌+◌, ◌-◌, ◌*◌, ◌/◌, ◌%◌, ◌^◌, ◌==◌, leb, ltb, if◌then◌else◌, Option, none, some,
  List, [], ◌∷◌,
}
use libshv.ChainPack.Bits.{significant_bits_part_length, bytes_needed}

-- The loop that fills `bytes` from `i` down, each byte the low bits of what is left of the number.
unfoldable pub low_bytes : ℕ → ℕ → List ℕ → List ℕ
low_bytes zero num bytes = bytes
low_bytes (suc i) num bytes = low_bytes i (num / 256) (num % 256 ∷ bytes)

-- `*head` of up to 28 bits: `*head & ~mask`, with `mask << 1` above it
abbrev pub marked : ℕ → ℕ → ℕ
marked byte_cnt head =
    let mask = 240 * 2 ^ (4 - byte_cnt) % 256 in head % (256 - mask) + mask * 2 % 256

abbrev pub set_head : ℕ → ℕ → List ℕ → List ℕ
set_head bit_len byte_cnt [] = []
set_head bit_len byte_cnt (head ∷ bytes) =
    (if leb bit_len 28 then marked byte_cnt head else 240 + (byte_cnt - 5)) ∷ bytes

-- `pack_uint_data_helper`; `none` stands for `abort`.
unfoldable pub pack_uint_data_helper : ℕ → ℕ → Option (List ℕ)
pack_uint_data_helper num bit_len =
    let byte_cnt = bytes_needed bit_len in
    if ltb 32 byte_cnt then none else some (set_head bit_len byte_cnt (low_bytes byte_cnt num []))

-- `cchainpack_pack_uint_data`
unfoldable pub pack_uint_data : ℕ → Option (List ℕ)
pack_uint_data num = pack_uint_data_helper num (significant_bits_part_length num)

-- The loop that reads the bytes after the head.
unfoldable pub read_bytes : ℕ → ℕ → List ℕ → Option (ℕ × List ℕ)
read_bytes zero num bytes = some (num, bytes)
read_bytes (suc k) num [] = none
read_bytes (suc k) num (r ∷ bytes) = read_bytes k ((num * 256 + r) % 2 ^ 64) bytes

-- What the head of a number tells: how many bytes follow, the bits in the head and the number of
-- bits in all.
abbrev pub head_info : ℕ → ℕ × ℕ × ℕ
head_info head =
    if head / 128 % 2 == 0
    then (0, head % 128, 7)
    else if head / 64 % 2 == 0
    then (1, head % 64, 14)
    else if head / 32 % 2 == 0
    then (2, head % 32, 21)
    else if head / 16 % 2 == 0
    then (3, head % 16, 28)
    else (head % 16 + 4, 0, (head % 16 + 4) * 8)

-- A number that is too long is the greatest one.
abbrev pub with_bit_len : ℕ → Option (ℕ × List ℕ) → Option (ℕ × ℕ × List ℕ)
with_bit_len bit_len none = none
with_bit_len bit_len (some (num, rest)) =
    some (if ltb 64 bit_len then 2 ^ 64 - 1 else num, bit_len, rest)

abbrev pub read_number : ℕ × ℕ × ℕ → List ℕ → Option (ℕ × ℕ × List ℕ)
read_number (more, num, bit_len) bytes = with_bit_len bit_len (read_bytes more num bytes)

-- `unpack_uint`: the number, `*pbitlen` and the bytes that are left, or `none` for an underflow.
unfoldable pub unpack_uint : List ℕ → Option (ℕ × ℕ × List ℕ)
unpack_uint [] = none
unpack_uint (head ∷ bytes) = read_number (head_info head) bytes
