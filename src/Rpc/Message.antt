-- ===== src/Rpc/Message.antt =====
-- `RpcMessage` and `RpcError` of libshvchainpack/src/rpcmessage.cpp. A message is the value that
-- it wraps; a fresh one wraps an invalid value until something is set.
use libshv.Base.{Bool, not, Option, none, some, Str, codes, if◌then◌else◌, is_nil}
use libshv.Base.Int.{ℤ, pos, eqb_ℤ}
use libshv.Rpc.Value.{
  RpcValue, value, invalid, int, string, imap, RpcMap, end, entry, iend, ientry, plain, metadata,
  is_valid, is_imap,
}
use libshv.Rpc.Maps.{imap_has_key, imap_value, map_value}
use libshv.Rpc.Convert.{Floats, to_int, int_throws, as_string, as_imap, at_index, set_index}
use libshv.Rpc.Meta.{meta_set, meta_set_s, tag_meta_type_id}
use libshv.Rpc.Tags.{request_id}

abbrev pub RpcMessage : Type 0
RpcMessage = RpcValue

-- `RpcMessage()`
abbrev pub new_message : RpcMessage
new_message = plain invalid

-- `RpcMessage(val)`: `none` is the exception "Value is not IMap".
unfoldable pub message_of : RpcValue → Option RpcMessage
message_of v = if is_imap v then some v else none

-- `MetaType::ID`
abbrev pub rpc_message_type_id : ℤ
rpc_message_type_id = pos 1

-- `RpcValue::setMetaValue` on a valid value
unfoldable pub set_meta : RpcValue → ℤ → RpcValue → RpcValue
set_meta (value v m) k x = value v (meta_set m k x)

unfoldable pub set_meta_s : RpcValue → Str → RpcValue → RpcValue
set_meta_s (value v m) k x = value v (meta_set_s m k x)

-- `checkMetaValues`: an invalid message becomes an empty map with the message's type id.
unfoldable pub check_meta_values : RpcMessage → RpcMessage
check_meta_values msg =
    if is_valid msg
    then msg
    else set_meta (plain (imap iend)) tag_meta_type_id (plain (int rpc_message_type_id))

-- `setMetaValue`
unfoldable pub set_meta_value : RpcMessage → ℤ → RpcValue → RpcMessage
set_meta_value msg k v = set_meta (check_meta_values msg) k v

unfoldable pub set_meta_value_s : RpcMessage → Str → RpcValue → RpcMessage
set_meta_value_s msg k v = set_meta_s (check_meta_values msg) k v

-- `Key::Params`, `Key::Result`, `Key::Error`
abbrev pub key_params : ℤ
key_params = pos 1

abbrev pub key_result : ℤ
key_result = pos 2

abbrev pub key_error : ℤ
key_error = pos 3

-- `hasKey`, `value(key)`, `setValue(key, val)`
unfoldable pub message_has_key : RpcMessage → ℤ → Bool
message_has_key msg k = imap_has_key (as_imap msg) k

unfoldable pub message_value : RpcMessage → ℤ → RpcValue
message_value msg k = at_index msg k (plain invalid)

unfoldable pub set_message_value : RpcMessage → ℤ → RpcValue → RpcMessage
set_message_value msg k v = set_index (check_meta_values msg) k v

-- `requestId()` of an instance
unfoldable pub message_request_id : RpcMessage → RpcValue
message_request_id msg = if is_valid msg then request_id (metadata msg) else plain invalid

-- `RpcError` wraps a value: an integer map, once something is set.
abbrev pub RpcError : Type 0
RpcError = RpcValue

-- KeyCode, KeyMessage, KeyData
abbrev pub key_code : ℤ
key_code = pos 1

abbrev pub key_message : ℤ
key_message = pos 2

abbrev pub key_data : ℤ
key_data = pos 3

-- `RpcError::value(key)`
unfoldable pub error_value : RpcError → ℤ → RpcValue
error_value e k = imap_value (as_imap e) k (plain invalid)

-- `RpcError::setValue`
unfoldable pub set_error_value : RpcError → ℤ → RpcValue → RpcError
set_error_value e k v = set_index (if is_imap e then e else plain (imap iend)) k v

unfoldable pub error_message : RpcError → Str
error_message e = as_string (error_value e key_message)

unfoldable pub error_data : RpcError → RpcValue
error_data e = error_value e key_data

-- `RpcError::create`
unfoldable pub create_error : ℤ → Str → RpcValue → RpcError
create_error c msg d =
    set_error_value
      (set_error_value (set_error_value (plain invalid) key_code (plain (int c))) key_message
        (plain (string msg)))
      key_data d

-- `RpcError::fromRpcValue`
unfoldable pub error_of : RpcValue → RpcError
error_of v = if is_imap v then v else plain invalid

-- MethodCallException, InternalError, MethodCallTimeout
unfoldable pub create_method_call_exception_error : Str → RpcError
create_method_call_exception_error msg =
    create_error (pos 8) (if is_nil msg then codes "Method call exception" else msg) (plain invalid)

unfoldable pub create_internal_error : Str → RpcError
create_internal_error msg =
    create_error (pos 4) (if is_nil msg then codes "Internal error" else msg) (plain invalid)

unfoldable pub create_sync_method_call_timeout : Str → RpcError
create_sync_method_call_timeout msg =
    create_error (pos 6) (if is_nil msg then codes "Sync method call timeout" else msg)
      (plain invalid)

-- JSONRPC_ERROR_CODE, JSONRPC_ERROR_MESSAGE, JSONRPC_ERROR_DATA
abbrev pub json_code : Str
json_code = codes "code"

abbrev pub json_message : Str
json_message = codes "message"

abbrev pub json_data : Str
json_data = codes "data"

module _ ⦃floats : Floats⦄ where
  unfoldable pub error_code : RpcError → ℤ
  error_code e = to_int (error_value e key_code)

  -- `RpcError::isValid`
  unfoldable pub error_is_valid : RpcError → Bool
  error_is_valid e = not (eqb_ℤ (error_code e) (pos 0))

  -- The code of an error is a NaN, and asking for it throws.
  unfoldable pub code_throws : RpcError → Bool
  code_throws e = int_throws (error_value e key_code)

  -- `RpcError::toJson`, `none` if the code throws; the map is in the order of its keys.
  unfoldable pub to_json : RpcError → Option RpcMap
  to_json e =
      if code_throws e
      then none
      else some (
          entry json_code (plain (int (error_code e))) (
            entry json_data (error_data e)
              (entry json_message (plain (string (error_message e))) end)))

  -- `RpcError::fromJson`, `none` if the code throws
  unfoldable pub from_json : RpcMap → Option RpcError
  from_json json =
      let code = map_value json json_code (plain invalid) in
      if int_throws code
      then none
      else some (
          error_of (
            plain (
              imap (
                ientry key_code (plain (int (to_int code))) (
                  ientry key_message
                    (plain (string (as_string (map_value json json_message (plain invalid)))))
                    (ientry key_data (map_value json json_data (plain invalid)) iend))))))
