-- ===== src/ChainPack/Reader.antt =====
-- `ChainPackReader` of libshvchainpack/src/chainpackreader.cpp. The fuel of its loops is spent by
-- each value and each round.
use libshv.Base.{ℕ, zero, suc, ◌*◌, ◌==◌, Bool, false, if◌then◌else◌, [], ◌∷◌, Str, length}
use libshv.Rpc.Value.{
  RpcValue, value, Variant, invalid, list, map, imap, MetaData, no_meta, plain, RpcList, nil, cons,
  RpcMap, end, RpcIMap, iend, is_string,
}
use libshv.Rpc.Maps.{insert_key, insert_ikey}
use libshv.Rpc.Convert.{int_throws, Floats, to_int, as_string}
use libshv.Rpc.Meta.{meta_set, meta_set_s, meta_is_empty}
use libshv.ChainPack.Pack.{cp_meta_map}
use libshv.ChainPack.Unpack.{
  invalid_type, meta_data_of_invalid, not_a_number, no_fuel, done, Reader, ◌>>=◌, give, fail, Item,
  scalar, list_begin, map_begin, imap_begin, meta_begin, container_end, unpack_next,
}

-- What `read` leaves: a value, or the end of the container that it stands in.
pub data ReadItem : Type 0 where
  read_value : RpcValue → ReadItem
  read_end : ReadItem

-- `val` behind a `read`
abbrev pub value_of : ReadItem → RpcValue
value_of (read_value v) = v
value_of read_end = plain invalid

-- The end of `read`: meta data are put on a valid value only.
abbrev pub with_meta : MetaData → Variant → Reader ReadItem
with_meta m v = give (read_value (value v m))

abbrev pub end_with_meta : MetaData → Reader ReadItem
end_with_meta m = if meta_is_empty m then give read_end else fail meta_data_of_invalid

abbrev pub starts_meta : Str → Bool
starts_meta [] = false
starts_meta (c ∷ bytes) = c == cp_meta_map

-- `read(MetaData)`, for the loop that reads them
abbrev pub read_meta_with : Reader MetaData → Reader MetaData
read_meta_with parse [] = done no_meta []
read_meta_with parse (c ∷ bytes) =
    if c == cp_meta_map then parse bytes else done no_meta (c ∷ bytes)

module _ ⦃floats : Floats⦄ where
  abbrev pub set_meta : MetaData → RpcValue → RpcValue → MetaData
  set_meta m k v = if is_string k then meta_set_s m (as_string k) v else meta_set m (to_int k) v

  -- What follows the use of a value as an integer key, unless that throws. A string never does.
  abbrev pub as_key : {A : Type 0} → RpcValue → Reader A → Reader A
  as_key k next = if int_throws k then fail not_a_number else next

  unfoldable mutual
    -- `read(RpcValue)`
    pub read : ℕ → Reader ReadItem
    read zero = fail no_fuel
    read (suc n) = do
      m ← read_meta_with (parse_meta_data n no_meta)
      item ← unpack_next
      read_item n m item

    -- The switch over the item.
    pub read_item : ℕ → MetaData → Item → Reader ReadItem
    read_item zero m item = fail no_fuel
    read_item (suc n) m (scalar v) = with_meta m v
    read_item (suc n) m list_begin = parse_list n >>= λ l. with_meta m (list l)
    read_item (suc n) m map_begin = parse_map n end >>= λ l. with_meta m (map l)
    read_item (suc n) m imap_begin = parse_imap n iend >>= λ l. with_meta m (imap l)
    read_item (suc n) m meta_begin = fail invalid_type
    read_item (suc n) m container_end = end_with_meta m

    -- `parseList`
    pub parse_list : ℕ → Reader RpcList
    parse_list zero = fail no_fuel
    parse_list (suc n) =
        read n
        >>= elim [ read_end ↦ give nil | read_value v ↦ parse_list n >>= λ l. give (cons v l) ]

    -- `parseMap`
    pub parse_map : ℕ → RpcMap → Reader RpcMap
    parse_map zero m = fail no_fuel
    parse_map (suc n) m = read n >>= elim [
      | read_end ↦ give m
      | read_value k ↦ read n >>= λ v. parse_map n (insert_key (as_string k) (value_of v) m)
    ]

    -- `parseIMap`
    pub parse_imap : ℕ → RpcIMap → Reader RpcIMap
    parse_imap zero m = fail no_fuel
    parse_imap (suc n) m = read n >>= elim [
      | read_end ↦ give m
      | read_value k ↦
          read n >>= λ v. as_key k (parse_imap n (insert_ikey (to_int k) (value_of v) m))
    ]

    -- `parseMetaData`
    pub parse_meta_data : ℕ → MetaData → Reader MetaData
    parse_meta_data zero m = fail no_fuel
    parse_meta_data (suc n) m = read n >>= elim [
      | read_end ↦ give m
      | read_value k ↦ read n >>= λ v. as_key k (parse_meta_data n (set_meta m k (value_of v)))
    ]

  -- `ChainPackReader::read(RpcValue)` at a stream of bytes
  unfoldable pub read_stream : Reader ReadItem
  read_stream bytes = read (suc (3 * length bytes)) bytes
