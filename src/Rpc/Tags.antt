-- ===== src/Rpc/Tags.antt =====
-- The tags of a message's meta data (libshvchainpack/include/shv/chainpack/rpcmessage.h), and the
-- static accessors of `RpcMessage` (libshvchainpack/src/rpcmessage.cpp) that read and set one tag.
use libshv.Base.{
  ◌≡◌, refl, Bool, true, false, not, ◌&&◌, Str, if◌then◌else◌, is_nil, arith, [], ◌⊎◌, ℕ,
}
use libshv.Base.Int.{ℤ, pos}
use libshv.Access.Level.{AccessLevel}
use libshv.Rpc.Value.{RpcValue, invalid, string, int, MetaData, plain}
use libshv.Rpc.Convert.{Floats, to_int, as_string}
use libshv.Rpc.Meta.{has_ikey, meta_value, meta_set}

abbrev pub tag_request_id : ℤ
tag_request_id = pos 8

abbrev pub tag_shv_path : ℤ
tag_shv_path = pos 9

abbrev pub tag_method : ℤ
tag_method = pos 10

abbrev pub tag_caller_ids : ℤ
tag_caller_ids = pos 11

abbrev pub tag_rev_caller_ids : ℤ
tag_rev_caller_ids = pos 13

abbrev pub tag_access : ℤ
tag_access = pos 14

abbrev pub tag_tunnel_ctl : ℤ
tag_tunnel_ctl = pos 15

abbrev pub tag_user_id : ℤ
tag_user_id = pos 16

abbrev pub tag_access_level : ℤ
tag_access_level = pos 17

abbrev pub tag_source : ℤ
tag_source = pos 19

unfoldable pub has_request_id : MetaData → Bool
has_request_id m = has_ikey m tag_request_id

unfoldable pub request_id : MetaData → RpcValue
request_id m = meta_value m tag_request_id

unfoldable pub set_request_id : MetaData → RpcValue → MetaData
set_request_id m id = meta_set m tag_request_id id

unfoldable pub has_method : MetaData → Bool
has_method m = has_ikey m tag_method

unfoldable pub method : MetaData → RpcValue
method m = meta_value m tag_method

unfoldable pub set_method : MetaData → Str → MetaData
set_method m s = meta_set m tag_method (plain (string s))

unfoldable pub is_request : MetaData → Bool
unfolding has_request_id has_method
is_request m = has_request_id m && has_method m

unfoldable pub is_response : MetaData → Bool
unfolding has_request_id has_method
is_response m = has_request_id m && not (has_method m)

unfoldable pub is_signal : MetaData → Bool
unfolding has_request_id has_method
is_signal m = not (has_request_id m) && has_method m

unfoldable pub shv_path : MetaData → RpcValue
shv_path m = meta_value m tag_shv_path

unfoldable pub set_shv_path : MetaData → Str → MetaData
set_shv_path m s = meta_set m tag_shv_path (plain (string s))

unfoldable pub access : MetaData → Str
access m = as_string (meta_value m tag_access)

-- An empty text erases the tag.
unfoldable pub set_access : MetaData → Str → MetaData
set_access m s = meta_set m tag_access (if is_nil s then plain invalid else plain (string s))

unfoldable pub tunnel_ctl : MetaData → RpcValue
tunnel_ctl m = meta_value m tag_tunnel_ctl

unfoldable pub set_tunnel_ctl : MetaData → RpcValue → MetaData
set_tunnel_ctl m v = meta_set m tag_tunnel_ctl v

unfoldable pub user_id : MetaData → RpcValue
user_id m = meta_value m tag_user_id

unfoldable pub set_user_id : MetaData → RpcValue → MetaData
set_user_id m v = meta_set m tag_user_id v

unfoldable pub source : MetaData → Str
source m = as_string (meta_value m tag_source)

unfoldable pub set_source : MetaData → Str → MetaData
set_source m s = meta_set m tag_source (plain (string s))

-- `setAccessLevel`: level `None` erases the tag.
unfoldable pub set_access_level : MetaData → AccessLevel → MetaData
set_access_level m l =
    meta_set m tag_access_level
      (if libshv.Base.◌==◌ l 0 then plain invalid else plain (int (pos l)))

module _ ⦃floats : Floats⦄ where
  unfoldable pub access_level : MetaData → ℤ
  access_level m = to_int (meta_value m tag_access_level)
