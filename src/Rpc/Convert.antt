-- ===== src/Rpc/Convert.antt =====
-- The conversions and container accessors of `RpcValue` (libshvchainpack/src/rpcvalue.cpp). A double
-- is its 64 bits: a sign, 11 bits of exponent and 52 of fraction. Where C++ throws, on a NaN, the
-- integer is `none`.
use libshv.Base.{
  ℕ, ◌-◌, Bool, false, Str, if◌then◌else◌, ltb, leb, ◌==◌, ◌&&◌, ◌*◌, ◌/◌, ◌%◌, ◌+◌, ◌^◌, not, List,
  zero, suc, length, Option, none, some, true,
}
use libshv.Base.Int.{ℤ, pos, negsuc, to_int32, to_int64, to_uint32, to_uint64, eqb_ℤ}
use libshv.Rpc.Value.{
  RpcValue, value, uint, int, double, boolean, string, date_time, list, map, imap, decimal,
  MetaData, RpcList, nil, RpcMap, end, RpcIMap, iend, plain, to_list, push_back,
}
use libshv.Rpc.Maps.{
  find_key, find_ikey, or_value, is_found, map_set_value, imap_set_value, map_size, imap_size,
  list_value,
}

-- `RpcDecimal::toDouble`, the double that the processor computes.
pub record Floats : Type 0 where
  pub decimal_to_double : ℤ → ℤ → ℕ

-- `std::isnan`
unfoldable pub is_nan : ℕ → Bool
is_nan d = d / 2 ^ 52 % 2048 == 2047 && not (d % 2 ^ 52 == 0)

-- The number without its sign, rounded to zero.
unfoldable pub truncated : ℕ → ℕ
truncated d =
    let exponent = d / 2 ^ 52 % 2048 in
    if ltb exponent 1023 then 0 else (2 ^ 52 + d % 2 ^ 52) * 2 ^ (exponent - 1023) / 2 ^ 52

abbrev clamped_below : ℕ → ℤ
clamped_below zero = pos 0
clamped_below (suc n) = if leb (2 ^ 31) (suc n) then negsuc (2 ^ 31 - 1) else negsuc n

-- `convert_to_int`
unfoldable pub convert_to_int : ℕ → Option ℤ
convert_to_int d =
    if is_nan d
    then none
    else if d / 2 ^ 63 % 2 == 1
    then some (clamped_below (truncated d))
    else some (pos (if leb (2 ^ 31 - 1) (truncated d) then 2 ^ 31 - 1 else truncated d))

-- `x != 0`, which holds of a NaN
unfoldable pub double_nonzero : ℕ → Bool
double_nonzero d = not (d % 2 ^ 63 == 0)

abbrev pub or_zero : Option ℤ → ℤ
or_zero none = pos 0
or_zero (some i) = i

abbrev pub is_thrown : Option ℤ → Bool
is_thrown none = true
is_thrown (some i) = false

module _ ⦃floats : Floats⦄ where
  -- The integer that `impl_to_int` casts to its result type, or its exception.
  unfoldable pub integer : RpcValue → Option ℤ
  integer (value (uint n) m) = some (pos n)
  integer (value (int i) m) = some i
  integer (value (double d) m) = convert_to_int d
  integer (value (decimal c e) m) = convert_to_int (floats.decimal_to_double c e)
  integer (value (date_time t z) m) = some t
  integer _ = some (pos 0)

  -- Does the conversion to an integer throw? The functions below answer 0 then, and whoever calls
  -- them looks at this first.
  unfoldable pub int_throws : RpcValue → Bool
  int_throws v = is_thrown (integer v)

  -- `toInt()`
  unfoldable pub to_int : RpcValue → ℤ
  to_int v = to_int32 (or_zero (integer v))

  -- `toUInt()`
  unfoldable pub to_uint : RpcValue → ℕ
  to_uint v = to_uint32 (or_zero (integer v))

  -- `toInt64()`
  unfoldable pub value_to_int64 : RpcValue → ℤ
  value_to_int64 v = to_int64 (or_zero (integer v))

  -- `toUInt64()`
  unfoldable pub value_to_uint64 : RpcValue → ℕ
  value_to_uint64 v = to_uint64 (or_zero (integer v))

  unfoldable pub to_bool : RpcValue → Bool
  to_bool (value (date_time t z) m) = not (eqb_ℤ t (pos 0))
  to_bool (value (decimal c e) m) = not (eqb_ℤ c (pos 0))
  to_bool (value (uint n) m) = not (n == 0)
  to_bool (value (int i) m) = not (eqb_ℤ i (pos 0))
  to_bool (value (double d) m) = double_nonzero d
  to_bool (value (boolean b) m) = b
  to_bool _ = false

unfoldable pub as_string : RpcValue → Str
as_string (value (string s) m) = s
as_string _ = List.[]

unfoldable pub as_list : RpcValue → RpcList
as_list (value (list l) m) = l
as_list _ = nil

unfoldable pub as_map : RpcValue → RpcMap
as_map (value (map l) m) = l
as_map _ = end

unfoldable pub as_imap : RpcValue → RpcIMap
as_imap (value (imap l) m) = l
as_imap _ = iend

unfoldable pub count : RpcValue → ℕ
count (value (list l) m) = length (to_list l)
count (value (map l) m) = map_size l
count (value (imap l) m) = imap_size l
count _ = 0

-- An index from the end, for a negative one.
abbrev at_list : RpcList → ℤ → RpcValue → RpcValue
at_list l (pos i) d = if ltb i (length (to_list l)) then list_value l i else d
at_list l (negsuc i) d =
    if ltb i (length (to_list l)) then list_value l (length (to_list l) - suc i) else d

-- `at(Int, default)`
unfoldable pub at_index : RpcValue → ℤ → RpcValue → RpcValue
at_index (value (list l) m) ix d = at_list l ix d
at_index (value (imap l) m) ix d = or_value (find_ikey ix l) d
at_index _ ix d = d

-- `at(string, default)`
unfoldable pub at_key : RpcValue → Str → RpcValue → RpcValue
at_key (value (map l) m) k d = or_value (find_key k l) d
at_key _ k d = d

-- `has(Int)`, `has(string)`
unfoldable pub has_index : RpcValue → ℤ → Bool
has_index (value (imap l) m) ix = is_found (find_ikey ix l)
has_index _ ix = false

unfoldable pub has_key : RpcValue → Str → Bool
has_key (value (map l) m) k = is_found (find_key k l)
has_key _ k = false

-- `set`: on a value that is no such map nothing changes.
unfoldable pub set_index : RpcValue → ℤ → RpcValue → RpcValue
set_index (value (imap l) m) ix v = value (imap (imap_set_value l ix v)) m
set_index w ix v = w

unfoldable pub set_key : RpcValue → Str → RpcValue → RpcValue
set_key (value (map l) m) k v = value (map (map_set_value l k v)) m
set_key w k v = w

-- `append`
unfoldable pub append : RpcValue → RpcValue → RpcValue
append (value (list l) m) v = value (list (push_back l v)) m
append w v = w

-- `takeMeta`: the meta data, and the value without them.
unfoldable pub take_meta : RpcValue → MetaData × RpcValue
take_meta (value v m) = (m, plain v)
