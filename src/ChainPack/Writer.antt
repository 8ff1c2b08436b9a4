-- ===== src/ChainPack/Writer.antt =====
-- `ChainPackWriter` of libshvchainpack/src/chainpackwriter.cpp: the bytes that it writes of a value.
use libshv.Base.{Bool, true, false, Option, some, [], Str}
use libshv.Rpc.Value.{
  RpcValue, value, Variant, invalid, null, uint, int, double, boolean, blob, string, date_time,
  list, map, imap, decimal, MetaData, meta_data, RpcList, nil, cons, RpcMap, end, entry, RpcIMap,
  iend, ientry,
}
use libshv.Rpc.Meta.{meta_is_empty}
use libshv.ChainPack.Pack.{
  ◌<+>◌, byte, cp_list, cp_map, cp_imap, cp_meta_map, cp_term, pack_null, pack_uint, pack_int,
  pack_double, pack_boolean, pack_blob, pack_string, pack_decimal,
}
use libshv.ChainPack.DateTime.{pack_date_time, minutes}

-- The entries of meta data between their brackets, if there are any.
abbrev pub meta_brackets : Bool → Option Str → Option Str
meta_brackets true entries = some []
meta_brackets false entries = byte cp_meta_map <+> entries <+> byte cp_term

unfoldable mutual
  -- `write(RpcValue)`
  pub write : RpcValue → Option Str
  write (value v m) = write_meta m <+> write_variant v

  -- `write_p`; WRITE_INVALID_AS_NULL is true.
  pub write_variant : Variant → Option Str
  write_variant invalid = pack_null
  write_variant null = pack_null
  write_variant (uint n) = pack_uint n
  write_variant (int i) = pack_int i
  write_variant (double d) = pack_double d
  write_variant (boolean b) = pack_boolean b
  write_variant (blob s) = pack_blob s
  write_variant (string s) = pack_string s
  write_variant (date_time t z) = pack_date_time t (minutes z)
  write_variant (list l) = byte cp_list <+> write_list l <+> byte cp_term
  write_variant (map m) = byte cp_map <+> write_map m <+> byte cp_term
  write_variant (imap m) = byte cp_imap <+> write_imap m <+> byte cp_term
  write_variant (decimal m e) = pack_decimal m e

  -- `write(MetaData)`
  pub write_meta : MetaData → Option Str
  write_meta (meta_data i s) =
      meta_brackets (meta_is_empty (meta_data i s)) (write_imap i <+> write_map s)

  pub write_list : RpcList → Option Str
  write_list nil = some []
  write_list (cons v l) = write v <+> write_list l

  pub write_map : RpcMap → Option Str
  write_map end = some []
  write_map (entry k v m) = pack_string k <+> write v <+> write_map m

  pub write_imap : RpcIMap → Option Str
  write_imap iend = some []
  write_imap (ientry k v m) = pack_int k <+> write v <+> write_imap m
