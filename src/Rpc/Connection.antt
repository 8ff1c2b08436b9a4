-- ===== src/Rpc/Connection.antt =====
-- The calls of `IRpcConnection` (libshvchainpack/src/irpcconnection.cpp). A connection keeps the
-- counter of `nextRequestId` and the messages handed to `sendRpcMessage`, which is pure virtual.
-- The counter is an `int` there, whose overflow C++ does not define; it wraps around here.
use libshv.Base.{ℕ, ◌+◌, if◌then◌else◌, List, [], ◌∷◌, ◌++◌, Str, codes, is_nil}
use libshv.Base.Int.{ℤ, pos, eqb_ℤ, to_int32, to_uint32}
use libshv.Rpc.Value.{
  RpcValue, invalid, null, int, string, list, map, nil, cons, RpcMap, end, entry, plain, is_valid,
}
use libshv.Rpc.Convert.{Floats, to_int}
use libshv.Rpc.Message.{RpcMessage, RpcError, new_message, set_meta_value_s, message_request_id}
use libshv.Rpc.Response.{
  set_params, set_message_method, set_message_request_id, set_message_shv_path, set_message_user_id,
  set_result, set_error,
}

pub data ShvApiVersion : Type 0 where
  v2 v3 : ShvApiVersion

pub record Connection : Type 0 where
  pub api_version : ShvApiVersion
  pub requests : ℕ
  pub sent : List RpcMessage

-- `sendRpcMessage`
unfoldable pub send_rpc_message : Connection → RpcMessage → Connection
send_rpc_message c msg = record c { sent = c.sent ++ (msg ∷ []) }

-- `nextRequestId`
unfoldable pub next_request_id : Connection → ℤ × Connection
next_request_id c =
    let n = to_int32 (pos (c.requests + 1)) in (n, record c { requests = to_uint32 n })

abbrev with_path : RpcMessage → Str → RpcMessage
with_path msg path = if is_nil path then msg else set_message_shv_path msg path

-- `sendShvSignal`; `sendSignal` is the same with an empty path.
unfoldable pub signal_message : Str → Str → RpcValue → RpcMessage
signal_message path method params =
    set_params (set_message_method (with_path new_message path) method) params

unfoldable pub send_shv_signal : Connection → Str → Str → RpcValue → Connection
send_shv_signal c path method params = send_rpc_message c (signal_message path method params)

-- `sendResponse`, `sendError`
unfoldable pub send_response : Connection → RpcValue → RpcValue → Connection
send_response c id res = send_rpc_message c (set_result (set_message_request_id new_message id) res)

unfoldable pub send_error : Connection → RpcValue → RpcError → Connection
send_error c id e = send_rpc_message c (set_error (set_message_request_id new_message id) e)

-- The optional parts of a request.
abbrev with_params : RpcMessage → RpcValue → RpcMessage
with_params msg v = if is_valid v then set_params msg v else msg

abbrev with_user_id : RpcMessage → RpcValue → RpcMessage
with_user_id msg v = if is_valid v then set_message_user_id msg v else msg

-- `for(const auto &[key, value] : extra_meta_data)`
unfoldable pub with_extra : RpcMessage → RpcMap → RpcMessage
with_extra msg end = msg
with_extra msg (entry k v m) = with_extra (set_meta_value_s msg k v) m

-- The message of `callShvMethod`.
unfoldable pub call_message : ℤ → Str → Str → RpcValue → RpcValue → RpcMap → RpcMessage
call_message id path method params user extra =
    with_extra
      (with_path
        (with_user_id
          (with_params
            (set_message_method (set_message_request_id new_message (plain (int id))) method)
            params)
          user)
        path)
      extra

-- `callShvMethod` with a request id, and with one of its own.
unfoldable pub call_shv_method_id :
    Connection → ℤ → Str → Str → RpcValue → RpcValue → RpcMap → ℤ × Connection
call_shv_method_id c id path method params user extra =
    (id, send_rpc_message c (call_message id path method params user extra))

unfoldable pub call_shv_method : Connection → Str → Str → RpcValue → RpcValue → ℤ × Connection
call_shv_method c path method params user =
    let (id, c') = next_request_id c in call_shv_method_id c' id path method params user end

-- Rpc::DIR_BROKER_CURRENTCLIENT, DIR_BROKER_APP, METH_SUBSCRIBE, METH_UNSUBSCRIBE
abbrev dir_broker_current_client : Str
dir_broker_current_client = codes ".broker/currentClient"

abbrev dir_broker_app : Str
dir_broker_app = codes ".broker/app"

abbrev meth_subscribe : Str
meth_subscribe = codes "subscribe"

abbrev meth_unsubscribe : Str
meth_unsubscribe = codes "unsubscribe"

abbrev or_star : Str → Str
or_star s = if is_nil s then codes "*" else s

-- The resource identifier of a V3 subscription: `path/**:source:method`.
unfoldable pub subscription_ri : Str → Str → Str → Str
subscription_ri path method source =
    (path ++ codes "/**") ++ (b':' ∷ (or_star source ++ (b':' ∷ or_star method)))

-- {path, method, source}, in the order of the keys
unfoldable pub subscription_map : Str → Str → Str → RpcMap
subscription_map path method source = entry (codes "method") (plain (string method)) (
    entry (codes "path") (plain (string path)) (entry (codes "source") (plain (string source)) end))

-- `makeSubscribeParams`
unfoldable pub make_subscribe_params : ShvApiVersion → Str → Str → Str → Str × RpcValue
make_subscribe_params v3 path method source = (
  dir_broker_current_client,
  plain (list (cons (plain (string (subscription_ri path method source))) (cons (plain null) nil))),
)
make_subscribe_params v2 path method source =
    (dir_broker_app, plain (map (subscription_map path method source)))

-- `callMethodSubscribe`, with a request id of its own
unfoldable pub call_method_subscribe : Connection → Str → Str → Str → ℤ × Connection
call_method_subscribe c path method source =
    let (id, c') = next_request_id c in
    let (target, params) = make_subscribe_params c'.api_version path method source in
    call_shv_method_id c' id target meth_subscribe params (plain invalid) end

-- `callMethodUnsubscribe`
abbrev unsubscribe_params : ShvApiVersion → Str → Str → Str → Str × RpcValue
unsubscribe_params v3 path method source =
    (dir_broker_current_client, plain (string (subscription_ri path method source)))
unsubscribe_params v2 path method source =
    (dir_broker_app, plain (map (subscription_map path method source)))

unfoldable pub call_method_unsubscribe : Connection → Str → Str → Str → ℤ × Connection
call_method_unsubscribe c path method source =
    let (id, c') = next_request_id c in
    let (target, params) = unsubscribe_params c'.api_version path method source in
    call_shv_method_id c' id target meth_unsubscribe params (plain invalid) end

module _ ⦃floats : Floats⦄ where
  -- `callMethod`: a request without an id gets one in a copy, and the original is sent.
  unfoldable pub call_method : Connection → RpcMessage → ℤ × Connection
  call_method c rq =
      let id = to_int (message_request_id rq) in
      if eqb_ℤ id (pos 0)
      then (let (next, c') = next_request_id c in (next, send_rpc_message c' rq))
      else (id, send_rpc_message c rq)
