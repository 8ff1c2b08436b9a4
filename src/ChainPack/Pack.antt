-- ===== src/ChainPack/Pack.antt =====
-- The packing of single values in libshvchainpack/c/cchainpack.c, as the bytes that a stream writer
-- gets. `none` stands for what C leaves undefined (see `pack_int_data`) and for `abort`.
use libshv.Base.{
  ℕ, zero, suc, ◌+◌, ◌/◌, ◌%◌, Bool, false, ltb, if◌then◌else◌, Option, none, some, [], ◌∷◌, ◌++◌,
  Str, length,
}
use libshv.Base.Int.{ℤ, pos, negsuc}
use libshv.ChainPack.Uint.{pack_uint_data}
use libshv.ChainPack.Int.{pack_int_data}

-- One packed part behind another.
infixr 66 ◌<+>◌
abbrev pub ◌<+>◌ : Option Str → Option Str → Option Str
none <+> q = none
some a <+> none = none
some a <+> some b = some (a ++ b)

-- cchainpack_pack_packing_schema
abbrev pub cp_null : ℕ
cp_null = 128

abbrev pub cp_uint : ℕ
cp_uint = 129

abbrev pub cp_int : ℕ
cp_int = 130

abbrev pub cp_double : ℕ
cp_double = 131

abbrev pub cp_blob : ℕ
cp_blob = 133

abbrev pub cp_string : ℕ
cp_string = 134

abbrev pub cp_list : ℕ
cp_list = 136

abbrev pub cp_map : ℕ
cp_map = 137

abbrev pub cp_imap : ℕ
cp_imap = 138

abbrev pub cp_meta_map : ℕ
cp_meta_map = 139

abbrev pub cp_decimal : ℕ
cp_decimal = 140

abbrev pub cp_date_time : ℕ
cp_date_time = 141

abbrev pub cp_cstring : ℕ
cp_cstring = 142

abbrev pub cp_false : ℕ
cp_false = 253

abbrev pub cp_true : ℕ
cp_true = 254

abbrev pub cp_term : ℕ
cp_term = 255

-- `ccpcp_pack_copy_byte`
abbrev pub byte : ℕ → Option Str
byte c = some (c ∷ [])

-- `cchainpack_pack_uint`
unfoldable pub pack_uint : ℕ → Option Str
pack_uint i = if ltb i 64 then byte (i % 64) else byte cp_uint <+> pack_uint_data i

abbrev is_tiny : ℤ → Bool
is_tiny (pos n) = ltb n 64
is_tiny (negsuc n) = false

abbrev tiny : ℤ → ℕ
tiny (pos n) = n % 64 + 64
tiny (negsuc n) = 64

-- `cchainpack_pack_int`
unfoldable pub pack_int : ℤ → Option Str
pack_int i = if is_tiny i then byte (tiny i) else byte cp_int <+> pack_int_data i

-- `cchainpack_pack_decimal`
unfoldable pub pack_decimal : ℤ → ℤ → Option Str
pack_decimal i exponent = byte cp_decimal <+> pack_int_data i <+> pack_int_data exponent

-- The bytes of a number, the lowest first.
unfoldable pub little_endian : ℕ → ℕ → Str
little_endian zero n = []
little_endian (suc k) n = n % 256 ∷ little_endian k (n / 256)

-- `cchainpack_pack_double`, of the bits of a double
unfoldable pub pack_double : ℕ → Option Str
unfolding little_endian
pack_double bits = byte cp_double <+> some (little_endian 8 bits)

-- `cchainpack_pack_boolean`
unfoldable pub pack_boolean : Bool → Option Str
pack_boolean b = byte (if b then cp_true else cp_false)

-- `cchainpack_pack_null`
unfoldable pub pack_null : Option Str
pack_null = byte cp_null

-- `cchainpack_pack_blob`
unfoldable pub pack_blob : Str → Option Str
pack_blob s = byte cp_blob <+> pack_uint_data (length s) <+> some s

-- `cchainpack_pack_string`
unfoldable pub pack_string : Str → Option Str
pack_string s = byte cp_string <+> pack_uint_data (length s) <+> some s
