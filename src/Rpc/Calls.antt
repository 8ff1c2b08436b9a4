-- ===== src/Rpc/Calls.antt =====
-- What the calls of `IRpcConnection` send.
use libshv.Base.{ℕ, ◌≡◌, refl, true, [], ◌∷◌, ◌++◌, Str, Bool-cases, inl, inr}
use libshv.Base.Int.{ℤ, eqb_ℤ, ltb_ℤ}
use libshv.Rpc.Value.{RpcValue, int, string, end, plain, is_valid, metadata}
use libshv.Rpc.Convert.{set_index}
use libshv.Rpc.Maps.{find_ikey, insert_ikey, imap_set_value}
use libshv.Rpc.Meta.{meta_set, meta_value, has_ikey}
use libshv.Rpc.Tags.{is_request, is_signal, request_id, method, shv_path}
use libshv.Rpc.Message.{RpcMessage, set_meta_value, check_meta_values, set_meta, set_message_value}
use libshv.Rpc.Response.{
  set_params, set_message_method, set_message_request_id, set_message_shv_path, set_message_user_id,
}
use libshv.Rpc.Connection.{
  Connection, call_message, call_shv_method, call_shv_method_id, next_request_id, send_rpc_message,
  signal_message, with_extra,
}

-- The message of `callShvMethod` without extra meta data and with a path that is not empty is a
-- request with the id, the method and the path that were given, whatever its parameters and user
-- id.
call_message_lem :
    (id : ℤ) (c : ℕ) (path m : Str) (params user : RpcValue)
    → (is_request (metadata (call_message id (c ∷ path) m params user end)) ≡ true)
      × (request_id (metadata (call_message id (c ∷ path) m params user end)) ≡ plain (int id))
      × (method (metadata (call_message id (c ∷ path) m params user end)) ≡ plain (string m))
      × (shv_path (metadata (call_message id (c ∷ path) m params user end))
          ≡ plain (string (c ∷ path)))
unfolding call_message is_request request_id method shv_path has_ikey meta_value meta_set find_ikey
    insert_ikey imap_set_value set_params set_message_method set_message_request_id
    set_message_shv_path set_message_user_id set_meta_value set_message_value check_meta_values
    set_meta is_valid set_index eqb_ℤ ltb_ℤ with_extra
call_message_lem id c path m params user = elim (Bool-cases (is_valid params)) [
  | inl p ↦ elim (Bool-cases (is_valid user)) [
    | inl u ↦ rw (p, u) (refl, refl, refl, refl)
    | inr u ↦ rw (p, u) (refl, refl, refl, refl)
  ]
  | inr p ↦ elim (Bool-cases (is_valid user)) [
    | inl u ↦ rw (p, u) (refl, refl, refl, refl)
    | inr u ↦ rw (p, u) (refl, refl, refl, refl)
  ]
]

-- The message of `sendShvSignal` is a signal with the method that was given.
signal_message_lem :
    (path m : Str) (params : RpcValue)
    → (is_signal (metadata (signal_message path m params)) ≡ true)
      × (method (metadata (signal_message path m params)) ≡ plain (string m))
unfolding signal_message is_signal method has_ikey meta_value meta_set find_ikey insert_ikey
    imap_set_value set_params set_message_method set_message_shv_path set_meta_value
    set_message_value check_meta_values set_meta is_valid set_index eqb_ℤ ltb_ℤ
signal_message_lem [] m params = (refl, refl)
signal_message_lem (c ∷ path) m params = (refl, refl)

-- A call of `callShvMethod` with a request id of its own and a path that is not empty sends one
-- message more, which is a request with the id that the call answers, and with the method and the
-- path that were given, whatever the parameters and the user id are.
pub call_shv_method_lem :
    (conn : Connection) (c : ℕ) (path m : Str) (params user : RpcValue)
    → let o = call_shv_method conn (c ∷ path) m params user in
      (msg : RpcMessage) × (o.1.sent ≡ conn.sent ++ (msg ∷ []))
      × (is_request (metadata msg) ≡ true)
      × (request_id (metadata msg) ≡ plain (int o.0))
      × (method (metadata msg) ≡ plain (string m))
      × (shv_path (metadata msg) ≡ plain (string (c ∷ path)))
unfolding call_shv_method call_shv_method_id next_request_id send_rpc_message
call_shv_method_lem conn c path m params user =
    let id = (next_request_id conn).0 in
    let (a, b, d, e) = call_message_lem id c path m params user in
    (call_message id (c ∷ path) m params user end, refl, a, b, d, e)
