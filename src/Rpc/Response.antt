-- ===== src/Rpc/Response.antt =====
-- `RpcRequest`, `RpcSignal` and `RpcResponse` of libshvchainpack/src/rpcmessage.cpp.
use libshv.Base.{Bool, not, ◌&&◌, ◌||◌, Str, if◌then◌else◌}
use libshv.Rpc.Value.{RpcValue, string, MetaData, plain, is_valid}
use libshv.Rpc.Convert.{Floats}
use libshv.Rpc.Tags.{
  tag_request_id, tag_method, tag_caller_ids, tag_shv_path, tag_user_id, tag_source, request_id,
}
use libshv.Rpc.CallerIds.{caller_ids}
use libshv.Rpc.Message.{
  RpcMessage, RpcError, new_message, set_meta_value, message_value, set_message_value, key_params,
  key_result, key_error, error_of, error_is_valid,
}

-- `RpcRequest::params`, `setParams`, `setMethod`
unfoldable pub params : RpcMessage → RpcValue
params msg = message_value msg key_params

unfoldable pub set_params : RpcMessage → RpcValue → RpcMessage
set_params msg v = set_message_value msg key_params v

unfoldable pub set_message_method : RpcMessage → Str → RpcMessage
set_message_method msg s = set_meta_value msg tag_method (plain (string s))

-- `setRequestId`, `setShvPath`, `setUserId`, `setSource` of an instance
unfoldable pub set_message_request_id : RpcMessage → RpcValue → RpcMessage
set_message_request_id msg v = set_meta_value msg tag_request_id v

unfoldable pub set_message_shv_path : RpcMessage → Str → RpcMessage
set_message_shv_path msg s = set_meta_value msg tag_shv_path (plain (string s))

unfoldable pub set_message_user_id : RpcMessage → RpcValue → RpcMessage
set_message_user_id msg v = set_meta_value msg tag_user_id v

unfoldable pub set_message_source : RpcMessage → Str → RpcMessage
set_message_source msg s = set_meta_value msg tag_source (plain (string s))

unfoldable pub set_message_caller_ids : RpcMessage → RpcValue → RpcMessage
set_message_caller_ids msg v = set_meta_value msg tag_caller_ids v

-- `RpcResponse::forRequest`: the request id and the caller ids that are there.
abbrev with_request_id : RpcMessage → RpcValue → RpcMessage
with_request_id msg id = if is_valid id then set_message_request_id msg id else msg

abbrev with_caller_ids : RpcMessage → RpcValue → RpcMessage
with_caller_ids msg ids = if is_valid ids then set_message_caller_ids msg ids else msg

unfoldable pub for_request : MetaData → RpcMessage
for_request m = with_caller_ids (with_request_id new_message (request_id m)) (caller_ids m)

-- `result`, `setResult`, `error`, `setError`
unfoldable pub result : RpcMessage → RpcValue
result msg = message_value msg key_result

unfoldable pub set_result : RpcMessage → RpcValue → RpcMessage
set_result msg v = set_message_value msg key_result v

unfoldable pub response_error : RpcMessage → RpcError
response_error msg = error_of (message_value msg key_error)

unfoldable pub set_error : RpcMessage → RpcError → RpcMessage
set_error msg e = set_message_value msg key_error e

module _ ⦃floats : Floats⦄ where
  unfoldable pub is_error : RpcMessage → Bool
  is_error msg = error_is_valid (response_error msg)

  unfoldable pub is_success : RpcMessage → Bool
  is_success msg = is_valid (result msg) && not (is_error msg)

  unfoldable pub has_result : RpcMessage → Bool
  has_result msg = error_is_valid (response_error msg) || is_valid (result msg)
