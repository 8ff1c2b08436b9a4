-- ===== src/Rpc/Meta.antt =====
-- `RpcMetaData` of libshvchainpack/src/rpcvalue.cpp, and the laws of its integer keys.
use libshv.Base.{
  ℕ, ◌+◌, ◌≡◌, refl, Bool, true, false, Str, if◌then◌else◌, arith, List, ◌==◌, Bool-cases, inl, inr,
  none, some,
}
use libshv.Base.Int.{ℤ, pos, eqb_ℤ}
use libshv.Rpc.Value.{RpcValue, invalid, MetaData, meta_data, plain, is_valid, RpcIMap, RpcMap, int}
use libshv.Rpc.Maps.{
  find_ikey, map_size, imap_size, map_keys, imap_keys, imap_set_value, map_set_value, map_value,
  imap_value, imap_has_key, map_has_key, find_ikey-insert_ikey, find_ikey-erase_ikey,
}
use libshv.Rpc.Convert.{Floats, to_int}

-- `iValues()`, `sValues()`
abbrev pub i_values : MetaData → RpcIMap
i_values (meta_data i s) = i

abbrev pub s_values : MetaData → RpcMap
s_values (meta_data i s) = s

-- `hasKey(Int)`, `hasKey(string)`
unfoldable pub has_ikey : MetaData → ℤ → Bool
unfolding imap_has_key
has_ikey m k = imap_has_key (i_values m) k

unfoldable pub has_skey : MetaData → Str → Bool
unfolding map_has_key
has_skey m k = map_has_key (s_values m) k

-- `value(Int)`, `value(string)` with the default default
unfoldable pub meta_value : MetaData → ℤ → RpcValue
unfolding imap_value
meta_value m k = imap_value (i_values m) k (plain invalid)

unfoldable pub meta_svalue : MetaData → Str → RpcValue
unfolding map_value
meta_svalue m k = map_value (s_values m) k (plain invalid)

-- `setValue`: an invalid value erases the key.
unfoldable pub meta_set : MetaData → ℤ → RpcValue → MetaData
unfolding imap_set_value
meta_set m k v = meta_data (imap_set_value (i_values m) k v) (s_values m)

unfoldable pub meta_set_s : MetaData → Str → RpcValue → MetaData
unfolding map_set_value
meta_set_s m k v = meta_data (i_values m) (map_set_value (s_values m) k v)

unfoldable pub i_keys : MetaData → List ℤ
i_keys m = imap_keys (i_values m)

unfoldable pub s_keys : MetaData → List Str
s_keys m = map_keys (s_values m)

unfoldable pub meta_size : MetaData → ℕ
meta_size m = imap_size (i_values m) + map_size (s_values m)

unfoldable pub meta_is_empty : MetaData → Bool
unfolding meta_size imap_size map_size
meta_is_empty m = meta_size m == 0

-- `meta::Tag::MetaTypeId`, `meta::Tag::MetaTypeNameSpaceId`
abbrev pub tag_meta_type_id : ℤ
tag_meta_type_id = pos 1

abbrev pub tag_meta_type_name_space_id : ℤ
tag_meta_type_name_space_id = pos 2

module _ ⦃floats : Floats⦄ where
  unfoldable pub meta_type_id : MetaData → ℤ
  meta_type_id m = to_int (meta_value m tag_meta_type_id)

  unfoldable pub meta_type_name_space_id : MetaData → ℤ
  meta_type_name_space_id m = to_int (meta_value m tag_meta_type_name_space_id)

unfoldable pub set_meta_type_id : MetaData → ℤ → MetaData
set_meta_type_id m i = meta_set m tag_meta_type_id (plain (int i))

unfoldable pub set_meta_type_name_space_id : MetaData → ℤ → MetaData
set_meta_type_name_space_id m i = meta_set m tag_meta_type_name_space_id (plain (int i))

-- What a key holds after a set, an invalid value included (both sides without their own meta data
-- for an absent key).
pub find_ikey-meta_set :
    (m : MetaData) (k j : ℤ) (v : RpcValue)
    → find_ikey j (i_values (meta_set m k v))
      ≡ (if eqb_ℤ k j then (if is_valid v then some v else none) else find_ikey j (i_values m))
unfolding meta_set
find_ikey-meta_set m k j v = elim (Bool-cases (is_valid v)) [
  | inl e ↦ rw (e, find_ikey-insert_ikey k j v (i_values m))
  | inr e ↦ rw (e, find_ikey-erase_ikey k j (i_values m))
]

pub s_values-meta_set :
    (m : MetaData) (k : ℤ) (v : RpcValue) → s_values (meta_set m k v) ≡ s_values m
unfolding meta_set
s_values-meta_set m k v = refl

pub meta_value-meta_set :
    (m : MetaData) (k j : ℤ) (v : RpcValue)
    → is_valid v ≡ true
    → meta_value (meta_set m k v) j ≡ (if eqb_ℤ k j then v else meta_value m j)
unfolding meta_value
meta_value-meta_set m k j v h = ground (arith, find_ikey-meta_set m k j v)

pub meta_value-meta_set_invalid :
    (m : MetaData) (k j : ℤ) (v : RpcValue)
    → is_valid v ≡ false
    → meta_value (meta_set m k v) j ≡ (if eqb_ℤ k j then plain invalid else meta_value m j)
unfolding meta_value
meta_value-meta_set_invalid m k j v h = ground (arith, find_ikey-meta_set m k j v)

pub has_ikey-meta_set :
    (m : MetaData) (k j : ℤ) (v : RpcValue)
    → has_ikey (meta_set m k v) j ≡ (if eqb_ℤ k j then is_valid v else has_ikey m j)
unfolding has_ikey
has_ikey-meta_set m k j v = ground (arith, find_ikey-meta_set m k j v)
