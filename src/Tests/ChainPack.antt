-- ===== src/Tests/ChainPack.antt =====
-- Values written and read back, and numbers in ChainPack, at concrete inputs.
use libshv.Base.{
  ◌-◌, ◌^◌, ℕ, ◌<◌, ◌≡◌, ◌≢◌, ◌⊎◌, refl, some, List, [], ◌∷◌, ◌++◌, Str, length, codes, arith,
}
use libshv.Base.Int.{pos, negsuc}
use libshv.Rpc.Value.{
  RpcValue, value, plain, null, int, string, list, map, meta_data, nil, cons, end, entry, iend,
  ientry, date_time,
}
use libshv.ChainPack.Bits.{
  search_half, add_table, bytes_needed, significant_bits_part_length, binary_digits,
  significant_bits_part_length-digits,
}
use libshv.ChainPack.Uint.{
  unpack_uint, read_bytes, pack_uint_data, pack_uint_data_helper, low_bytes,
}
use libshv.ChainPack.UintRoundTrip.{room, IsReadBack, unpack_uint-pack_uint_data}
use libshv.ChainPack.Int.{pack_int_data, unpack_int}
use libshv.ChainPack.IntRoundTrip.{unpack_int-pack_int_data}
use libshv.ChainPack.DateTime.{
  pack_date_time, minutes, unpack_date, low_bits, thousandfold, shift_out,
}
use libshv.ChainPack.Scalars.{IsPackedAs, date_time-packed}
use libshv.ChainPack.Pack.{pack_string}
use libshv.Rpc.Meta.{meta_is_empty}
use libshv.Rpc.Convert.{int_throws, integer, convert_to_int, is_nan, truncated}
use libshv.ChainPack.Unpack.{
  not_a_number, malformed_input, unpack_next, take_byte, take_bytes, little_number, int_data,
  unpack_schema, ReadError, no_fuel, done, failed,
}
use libshv.ChainPack.Reader.{read, ReadItem, read_value, read_stream}
use libshv.ChainPack.Writer.{write}
use libshv.ChainPack.Writable.{IsWritable}
use libshv.ChainPack.RoundTrip.{read_stream-write}
use libshv.ChainPack.Termination.{read_stream-ends}
use libshv.ChainPack.Truncated.{read_stream-cut}
use libshv.Tests.Data.{test_floats}

-- A list with meta data: `<8:5>[-5, "ab", {"a": null}]`.
abbrev tagged_list : RpcValue
tagged_list =
    value
      (list (
        cons (plain (int (negsuc 4))) (
          cons (plain (string (codes "ab")))
            (cons (plain (map (entry (codes "a") (plain null) end))) nil))))
      (meta_data (ientry (pos 8) (plain (int (pos 5))) iend) end)

tagged_list-IsWritable : IsWritable tagged_list
unfolding IsWritable
tagged_list-IsWritable = (
  (
    (omega arith, (tt, tt)),
    ((omega arith, (tt, tt)), (((omega arith, (tt, (tt, tt)), tt, tt), (tt, tt)), tt)),
  ),
  ((omega arith, (omega arith, (tt, tt)), tt, tt), tt),
)

read_stream-write_example :
    (b : Str) × (write tagged_list ≡ some b)
    × (read_stream (b ++ (1 ∷ 2 ∷ [])) ≡ done (read_value tagged_list) (1 ∷ 2 ∷ []))
read_stream-write_example = read_stream-write tagged_list (1 ∷ 2 ∷ []) tagged_list-IsWritable

-- A list that is not closed.
read_stream-ends_example :
    ((item : ReadItem) × (r : Str) × (read_stream (136 ∷ 70 ∷ []) ≡ done item r)
      × (length r < length {A = ℕ} (136 ∷ 70 ∷ [])))
    ⊎ ((e : ReadError) × (read_stream (136 ∷ 70 ∷ []) ≡ failed e) × (e ≢ no_fuel))
read_stream-ends_example = read_stream-ends (136 ∷ 70 ∷ [])

abbrev short_text : RpcValue
short_text = plain (string (codes "ab"))

short_text-IsWritable : IsWritable short_text
unfolding IsWritable
short_text-IsWritable = (omega arith, (tt, tt))

write-short_text : write short_text ≡ some (134 ∷ 2 ∷ 97 ∷ 98 ∷ [])
unfolding write significant_bits_part_length search_half add_table pack_string pack_uint_data
    pack_uint_data_helper low_bytes bytes_needed meta_is_empty
write-short_text = refl

-- "ab" without its last byte.
read_stream-cut_example :
    (e : ReadError) × (read_stream (134 ∷ 2 ∷ 97 ∷ []) ≡ failed e) × (e ≢ no_fuel)
read_stream-cut_example =
    read_stream-cut short_text (134 ∷ 2 ∷ 97 ∷ []) [] 98 short_text-IsWritable write-short_text

significant_bits_part_length-digits_example :
    significant_bits_part_length 1000 ≡ binary_digits 64 1000
significant_bits_part_length-digits_example = significant_bits_part_length-digits 1000 (omega arith)

unpack_uint-pack_uint_data_example :
    IsReadBack 1000 (room (significant_bits_part_length 1000)) (pack_uint_data 1000)
unpack_uint-pack_uint_data_example = unpack_uint-pack_uint_data 1000 (omega arith)

unpack_int-pack_int_data_example :
    (bytes : List ℕ) × (pack_int_data (negsuc 999) ≡ some bytes)
    × ((rest : List ℕ) → unpack_int (bytes ++ rest) ≡ some (negsuc 999, rest))
unpack_int-pack_int_data_example = unpack_int-pack_int_data (negsuc 999) (omega arith)

-- Two hours to the west, a second and a half behind 1970.
date_time-packed_example :
    IsPackedAs (pack_date_time (pos 1500) (minutes (negsuc 7))) (date_time (pos 1500) (negsuc 7))
date_time-packed_example =
    date_time-packed (pos 1500) (negsuc 7) (record { near = omega arith; offset = omega arith })

-- The bytes of a test of the repository (test_chainpack.cpp), which hold a NaN as a key.
abbrev nan_key : Str
nan_key =
    0x8A ∷ 0x83 ∷ 0x89 ∷ 0x89 ∷ 0x8A ∷ 0x89 ∷ 0x8A ∷ 0x8A ∷ 0xFF ∷ 0xFF ∷ 0xFF ∷ 0xFF ∷ 0x89 ∷ 0x8A
    ∷ 0x89 ∷ 0xEC ∷ 0xEC ∷ 0xEC ∷ 0xEC ∷ 0xEC ∷ 0xEC ∷ 0x8A ∷ 0x8B ∷ 0 ∷ []

read_stream-nan_key : read_stream nan_key ≡ failed not_a_number
unfolding read_stream read unpack_next take_byte unpack_schema take_bytes little_number int_throws
    integer convert_to_int is_nan meta_is_empty
read_stream-nan_key = refl

-- Another one, with a date that overflows.
abbrev far_date : Str
far_date =
    0x8B ∷ 0x8B ∷ 0 ∷ 0x8D ∷ 0xF6 ∷ 0xFF ∷ 0xFF ∷ 0xFF ∷ 0xFF ∷ 0 ∷ 0x8B ∷ 0 ∷ 0x8E ∷ 0 ∷ 0 ∷ []

read_stream-far_date : read_stream far_date ≡ failed malformed_input
unfolding read_stream read unpack_next take_byte unpack_schema int_data unpack_int unpack_uint
    read_bytes unpack_date low_bits thousandfold shift_out meta_is_empty
read_stream-far_date = refl

-- 2.5, -2.5, 2 ^ 40, and the infinity below 0.
convert_to_int-half : convert_to_int 0x4004000000000000 ≡ some (pos 2)
unfolding convert_to_int is_nan truncated
convert_to_int-half = refl

convert_to_int-below : convert_to_int 0xC004000000000000 ≡ some (negsuc 1)
unfolding convert_to_int is_nan truncated
convert_to_int-below = refl

convert_to_int-large : convert_to_int 0x4270000000000000 ≡ some (pos (2 ^ 31 - 1))
unfolding convert_to_int is_nan truncated
convert_to_int-large = refl

convert_to_int-infinite : convert_to_int 0xFFF0000000000000 ≡ some (negsuc (2 ^ 31 - 1))
unfolding convert_to_int is_nan truncated
convert_to_int-infinite = refl
