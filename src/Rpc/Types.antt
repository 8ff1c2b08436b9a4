-- ===== src/Rpc/Types.antt =====
-- The type names of libshvchainpack/src/rpcvalue.cpp.
use libshv.Base.{
  ℕ, ◌≡◌, ◌≢◌, refl, Option, none, some, Str, codes, streq, starts_with, take, if◌then◌else◌, Bool,
}
use libshv.Rpc.Value.{
  RpcValue, value, invalid, null, uint, int, double, boolean, blob, string, date_time, list, map,
  imap, decimal,
}

-- RpcValue::Type
pub data ValueType : Type 0 where
  type_invalid type_null type_uint type_int type_double type_bool type_blob type_string
        type_date_time type_list type_map type_imap type_decimal :
      ValueType

-- `type()`
unfoldable pub type_of : RpcValue → ValueType
type_of (value invalid m) = type_invalid
type_of (value null m) = type_null
type_of (value (uint n) m) = type_uint
type_of (value (int i) m) = type_int
type_of (value (double d) m) = type_double
type_of (value (boolean b) m) = type_bool
type_of (value (blob s) m) = type_blob
type_of (value (string s) m) = type_string
type_of (value (date_time t z) m) = type_date_time
type_of (value (list l) m) = type_list
type_of (value (map l) m) = type_map
type_of (value (imap l) m) = type_imap
type_of (value (decimal c e) m) = type_decimal

-- `typeToName`
unfoldable pub type_to_name : ValueType → Str
type_to_name type_invalid = codes "INVALID"
type_to_name type_null = codes "Null"
type_to_name type_uint = codes "UInt"
type_to_name type_int = codes "Int"
type_to_name type_double = codes "Double"
type_to_name type_bool = codes "Bool"
type_to_name type_blob = codes "Blob"
type_to_name type_string = codes "String"
type_to_name type_date_time = codes "DateTime"
type_to_name type_list = codes "List"
type_to_name type_map = codes "Map"
type_to_name type_imap = codes "IMap"
type_to_name type_decimal = codes "Decimal"

-- The comparison of so many characters of the name with a type's name; all that the type's name
-- has, without a length.
abbrev same_name : Str → Option ℕ → Str → Bool
same_name name none text = starts_with name text
same_name name (some len) text = streq (take len name) text

-- `typeForName`; a negative length is `none`.
unfoldable pub type_for_name : Str → Option ℕ → ValueType
type_for_name name len =
    if same_name name len (codes "Null")
    then type_null
    else if same_name name len (codes "UInt")
    then type_uint
    else if same_name name len (codes "Int")
    then type_int
    else if same_name name len (codes "Double")
    then type_double
    else if same_name name len (codes "Bool")
    then type_bool
    else if same_name name len (codes "String")
    then type_string
    else if same_name name len (codes "List")
    then type_list
    else if same_name name len (codes "Map")
    then type_map
    else if same_name name len (codes "IMap")
    then type_imap
    else if same_name name len (codes "DateTime")
    then type_date_time
    else if same_name name len (codes "Decimal")
    then type_decimal
    else type_invalid

-- The name of the type of a value is read back as that type, except for a blob, whose type name
-- is read as the invalid type.
pub type_for_name-type_to_name :
    (v : RpcValue)
    → (type_of v ≢ type_blob → type_for_name (type_to_name (type_of v)) none ≡ type_of v)
      × (type_of v ≡ type_blob → type_for_name (type_to_name (type_of v)) none ≡ type_invalid)
unfolding type_of type_to_name type_for_name starts_with
type_for_name-type_to_name (value invalid m) = ((λ h. refl), λ h. refl)
type_for_name-type_to_name (value null m) = ((λ h. refl), λ h. cc)
type_for_name-type_to_name (value (uint n) m) = ((λ h. refl), λ h. cc)
type_for_name-type_to_name (value (int i) m) = ((λ h. refl), λ h. cc)
type_for_name-type_to_name (value (double d) m) = ((λ h. refl), λ h. cc)
type_for_name-type_to_name (value (boolean b) m) = ((λ h. refl), λ h. cc)
type_for_name-type_to_name (value (blob s) m) = ((λ h. absurd (h refl)), λ h. refl)
type_for_name-type_to_name (value (string s) m) = ((λ h. refl), λ h. cc)
type_for_name-type_to_name (value (date_time t z) m) = ((λ h. refl), λ h. cc)
type_for_name-type_to_name (value (list l) m) = ((λ h. refl), λ h. cc)
type_for_name-type_to_name (value (map l) m) = ((λ h. refl), λ h. cc)
type_for_name-type_to_name (value (imap l) m) = ((λ h. refl), λ h. cc)
type_for_name-type_to_name (value (decimal c e) m) = ((λ h. refl), λ h. cc)
