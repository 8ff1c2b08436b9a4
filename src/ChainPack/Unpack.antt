-- ===== src/ChainPack/Unpack.antt =====
-- `cchainpack_unpack_next` of libshvchainpack/c/cchainpack.c, on the bytes that are left of a
-- stream. The chunks that a string is unpacked in are joined, as `ChainPackReader::read` joins them.
use libshv.Base.{
  ℕ, zero, suc, ◌+◌, ◌*◌, ◌/◌, ◌%◌, ◌^◌, true, false, ◌==◌, ltb, if◌then◌else◌, Option, none, some,
  [], ◌∷◌, Str,
}
use libshv.Base.Int.{ℤ, pos, to_int32}
use libshv.Rpc.Value.{Variant, null, uint, int, double, boolean, blob, string, date_time, decimal}
use libshv.ChainPack.Uint.{unpack_uint}
use libshv.ChainPack.Int.{unpack_int}
use libshv.ChainPack.Pack.{
  cp_null, cp_uint, cp_int, cp_double, cp_blob, cp_string, cp_list, cp_map, cp_imap, cp_meta_map,
  cp_decimal, cp_date_time, cp_cstring, cp_false, cp_true, cp_term,
}
use libshv.ChainPack.DateTime.{unpack_date, to_msec, signed7, low_bits, quarters}

-- CCPCP_RC_BUFFER_UNDERFLOW, CCPCP_RC_MALFORMED_INPUT, the exceptions of the reader, the one of
-- a NaN that is made an integer, which is no ParseException, and the end of the fuel of the loops.
pub data ReadError : Type 0 where
  buffer_underflow malformed_input invalid_type meta_data_of_invalid : ReadError
  not_a_number no_fuel : ReadError

-- What was read and the bytes behind it.
pub data Outcome {ℓ} (A : Type ℓ) : Type ℓ where
  done : A → Str → Outcome A
  failed : ReadError → Outcome A

abbrev pub Reader : Type 0 → Type 0
Reader A = Str → Outcome A

infixl 5 ◌>>=◌
abbrev pub ◌>>=◌ : {A B : Type 0} → Reader A → (A → Reader B) → Reader B
◌>>=◌ m f bytes = elim (m bytes) [ done a rest ↦ f a rest | failed e ↦ failed e ]

abbrev pub give : {A : Type 0} → A → Reader A
give a bytes = done a bytes

abbrev pub fail : {A : Type 0} → ReadError → Reader A
fail e bytes = failed e

-- UNPACK_TAKE_BYTE
unfoldable pub take_byte : Reader ℕ
take_byte [] = failed buffer_underflow
take_byte (c ∷ bytes) = done c bytes

abbrev pub whole_number : Option (ℕ × ℕ × Str) → Outcome ℕ
whole_number none = failed buffer_underflow
whole_number (some (n, bits, rest)) = done n rest

-- `unpack_uint(unpack_context, NULL)`
unfoldable pub uint_data : Reader ℕ
uint_data bytes = whole_number (unpack_uint bytes)

abbrev pub signed_number : Option (ℤ × Str) → Outcome ℤ
signed_number none = failed buffer_underflow
signed_number (some (i, rest)) = done i rest

-- `unpack_int`
unfoldable pub int_data : Reader ℤ
int_data bytes = signed_number (unpack_int bytes)

abbrev pub put : ℕ → Outcome Str → Outcome Str
put c (done s rest) = done (c ∷ s) rest
put c (failed e) = failed e

-- `unpack_string` of a string with a size
unfoldable pub take_bytes : ℕ → Reader Str
take_bytes zero bytes = done [] bytes
take_bytes (suc n) [] = failed buffer_underflow
take_bytes (suc n) (c ∷ bytes) = put c (take_bytes n bytes)

-- `unpack_string` of a string that ends with a zero byte, with its escapes
unfoldable pub take_cstring : Reader Str
take_cstring [] = failed buffer_underflow
take_cstring (c ∷ []) = if c == 0 then done [] [] else failed buffer_underflow
take_cstring (c ∷ d ∷ bytes) =
    let next = take_cstring (d ∷ bytes) in
    let behind = take_cstring bytes in
    if c == b'\\'
    then put (if d == b'0' then 0 else d) behind
    else if c == 0
    then done [] (d ∷ bytes)
    else put c next

-- A size above what a `long` holds is negative, which stands for a string without a size.
unfoldable pub sized_string : ℕ → Reader Str
sized_string size = if ltb size (2 ^ 63) then take_bytes size else take_cstring

-- The number of bytes, the lowest first.
unfoldable pub little_number : Str → ℕ
little_number [] = 0
little_number (c ∷ s) = c + 256 * little_number s

-- What is unpacked: a single value as the value that the reader makes of it, or the begin or the
-- end of a container.
pub data Item : Type 0 where
  scalar : Variant → Item
  list_begin map_begin imap_begin meta_begin container_end : Item

abbrev pub date_item : Option (ℤ × ℤ) → Reader Item
date_item none = fail malformed_input
date_item (some (msec, offset)) =
    give (scalar (date_time (to_msec msec) (signed7 (low_bits 128 (quarters offset)))))

abbrev pub tiny_item : ℕ → Reader Item
tiny_item c =
    if c / 64 % 2 == 1 then give (scalar (int (pos (c % 64)))) else give (scalar (uint (c % 64)))

abbrev pub decimal_item : Reader Item
decimal_item = do
  mantissa ← int_data
  exponent ← int_data
  give (scalar (decimal mantissa (to_int32 exponent)))

abbrev pub blob_item : Reader Item
blob_item = do size ← uint_data; s ← sized_string size; give (scalar (blob s))

abbrev pub string_item : Reader Item
string_item = do size ← uint_data; s ← sized_string size; give (scalar (string s))

-- The switch over the packing schema
unfoldable pub unpack_schema : ℕ → Reader Item
unpack_schema c =
    if c == cp_null
    then give (scalar null)
    else if c == cp_true
    then give (scalar (boolean true))
    else if c == cp_false
    then give (scalar (boolean false))
    else if c == cp_int
    then (int_data >>= λ i. give (scalar (int i)))
    else if c == cp_uint
    then (uint_data >>= λ n. give (scalar (uint n)))
    else if c == cp_double
    then (take_bytes 8 >>= λ s. give (scalar (double (little_number s))))
    else if c == cp_decimal
    then decimal_item
    else if c == cp_date_time
    then (int_data >>= λ d. date_item (unpack_date d))
    else if c == cp_meta_map
    then give meta_begin
    else if c == cp_map
    then give map_begin
    else if c == cp_imap
    then give imap_begin
    else if c == cp_list
    then give list_begin
    else if c == cp_term
    then give container_end
    else if c == cp_blob
    then blob_item
    else if c == cp_string
    then string_item
    else if c == cp_cstring
    then (take_cstring >>= λ s. give (scalar (string s)))
    else fail malformed_input

-- `cchainpack_unpack_next`
unfoldable pub unpack_next : Reader Item
unpack_next = take_byte >>= λ c. if ltb c 128 then tiny_item c else unpack_schema c
