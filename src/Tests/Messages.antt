-- ===== src/Tests/Messages.antt =====
-- Messages, errors and calls at concrete inputs.
use libshv.Base.{some, false, ◌≡◌, refl, true, List, [], ◌∷◌, ◌++◌, codes, arith, length}
use libshv.Base.Int.{ℤ, pos, negsuc, eqb_ℤ, ltb_ℤ, to_int32}
use libshv.Rpc.Value.{
  RpcMap, is_imap, plain, int, string, list, cons, nil, end, meta_data, ientry, iend, MetaData,
  metadata, is_valid, to_list,
}
use libshv.Rpc.Convert.{to_int, integer, int_throws, set_index, as_imap}
use libshv.Rpc.Meta.{meta_value}
use libshv.Rpc.Maps.{find_ikey, imap_set_value, imap_value, insert_ikey}
use libshv.Rpc.Tags.{is_response, is_request, request_id, method, shv_path}
use libshv.Rpc.CallerIds.{caller_ids}
use libshv.Rpc.Routing.{ids_stack}
use libshv.Rpc.Routes.{caller_stack, HasIds, push_route, pop_route, pop_route-push_route}
use libshv.Rpc.Message.{
  RpcMessage, new_message, RpcError, create_error, error_code, error_message, error_data, to_json,
  from_json, code_throws, error_value, set_error_value,
}
use libshv.Rpc.Response.{for_request, set_result, result, is_success}
use libshv.Rpc.Replies.{for_request_lem}
use libshv.Rpc.Errors.{from_json-to_json}
use libshv.Rpc.Connection.{Connection, v3, call_message, signal_message, call_shv_method}
use libshv.Rpc.Calls.{call_shv_method_lem}
use mathlib.Core.List.{reverse}
use libshv.Tests.Data.{test_floats}

-- A request with the id 7 that came by the connections 3 and 4.
abbrev request : MetaData
request =
    meta_data
      (ientry (pos 8) (plain (int (pos 7))) (
        ientry (pos 10) (plain (string (codes "get"))) (
          ientry (pos 11)
            (plain (list (cons (plain (int (pos 3))) (cons (plain (int (pos 4))) nil)))) iend)))
      end

request-HasIds : HasIds request
unfolding caller_ids meta_value find_ikey eqb_ℤ
request-HasIds = tt

request-stack : caller_stack request ≡ (pos 3 ∷ []) ++ (pos 4 ∷ [])
unfolding caller_stack caller_ids meta_value find_ikey eqb_ℤ ids_stack to_list to_int integer
    to_int32
request-stack = refl

-- Two more connections.
abbrev route : List ℤ
route = pos 5 ∷ negsuc 0 ∷ []

pop_route-push_route_example :
    ((pop_route (length route) (push_route request route)).0 ≡ reverse route)
    × (caller_stack (pop_route (length route) (push_route request route)).1 ≡ caller_stack request)
pop_route-push_route_example =
    pop_route-push_route route request request-HasIds (omega arith, (omega arith, tt))

request-valid : is_valid (request_id request) ≡ true
unfolding is_valid request_id meta_value find_ikey eqb_ℤ
request-valid = refl

one-valid : is_valid (plain (int (pos 1))) ≡ true
unfolding is_valid
one-valid = refl

abbrev response : RpcMessage
response = set_result (for_request request) (plain (int (pos 1)))

for_request_lem_example :
    (is_response (metadata response) ≡ true)
    × (request_id (metadata response) ≡ request_id request)
    × (caller_stack (metadata response) ≡ caller_stack request)
    × (is_success response ≡ true)
    × (result response ≡ plain (int (pos 1)))
for_request_lem_example = for_request_lem request (plain (int (pos 1))) request-valid one-valid

abbrev failure : RpcError
failure = create_error (pos 2) (codes "not found") (plain (int (pos 1)))

failure-code : code_throws failure ≡ false
unfolding code_throws error_value create_error set_error_value set_index imap_set_value imap_value
    insert_ikey find_ikey as_imap is_imap is_valid eqb_ℤ ltb_ℤ int_throws integer
failure-code = refl

from_json-to_json_example :
    (json : RpcMap) × (back : RpcError) × (to_json failure ≡ some json)
    × (from_json json ≡ some back)
    × (error_code back ≡ error_code failure)
    × (error_message back ≡ error_message failure)
    × (error_data back ≡ error_data failure)
from_json-to_json_example = from_json-to_json failure failure-code

abbrev called : RpcMessage
called = call_message (pos 9) (codes "test") (codes "get") (plain (int (pos 1))) new_message end

abbrev signalled : RpcMessage
signalled = signal_message (codes "test") (codes "chng") (plain (int (pos 1)))

abbrev connection : Connection
connection = record { api_version = v3; requests = 4; sent = [] }

call_shv_method_lem_example :
    let o =
      call_shv_method connection (codes "test") (codes "get") (plain (int (pos 1))) new_message in
    (msg : RpcMessage) × (o.1.sent ≡ [] ++ (msg ∷ []))
    × (is_request (metadata msg) ≡ true)
    × (request_id (metadata msg) ≡ plain (int o.0))
    × (method (metadata msg) ≡ plain (string (codes "get")))
    × (shv_path (metadata msg) ≡ plain (string (codes "test")))
call_shv_method_lem_example =
    call_shv_method_lem connection b't' (codes "est") (codes "get") (plain (int (pos 1)))
      new_message
