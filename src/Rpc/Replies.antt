-- ===== src/Rpc/Replies.antt =====
-- What a response made for a request says, and that errors survive their two encodings.
use libshv.Base.{
  ◌≡◌, refl, sym, ap, ◌∙◌, true, false, ◌&&◌, ◌||◌, if◌then◌else◌, arith, some, none, [],
  Bool-cases, inl, inr,
}
use libshv.Base.Int.{ℤ, eqb_ℤ, ltb_ℤ, to_int32}
use libshv.Rpc.Value.{
  RpcValue, value, invalid, imap, MetaData, plain, metadata, is_valid, is_imap, RpcIMap, iend,
  ientry,
}
use libshv.Rpc.Maps.{
  find_ikey, imap_set_value, imap_value, find_ikey-insert_ikey, find_ikey-erase_ikey, insert_ikey,
  erase_ikey,
}
use libshv.Rpc.Convert.{Floats, to_int, integer, as_imap, at_index, set_index}
use libshv.Rpc.Meta.{meta_value, meta_set, has_ikey, meta_value-meta_set, has_ikey-meta_set}
use libshv.Rpc.Tags.{
  tag_request_id, tag_caller_ids, tag_method, request_id, has_request_id, has_method, is_response,
  is_request, is_signal,
}
use libshv.Rpc.CallerIds.{caller_ids}
use libshv.Rpc.Routing.{ids_stack}
use libshv.Rpc.Routes.{caller_stack}
use libshv.Rpc.Message.{
  new_message, set_meta, check_meta_values, set_meta_value, message_value, set_message_value,
  key_result, error_value, error_code, error_of, error_is_valid,
}
use libshv.Rpc.Response.{
  for_request, set_message_request_id, set_message_caller_ids, result, set_result, response_error,
  is_error, is_success,
}

-- Meta data are a request, a response, a signal or no message, and one of these alone.
pub message_kinds :
    (m : MetaData)
    → ((is_request m && is_response m) ≡ false)
      × ((is_request m && is_signal m) ≡ false)
      × ((is_response m && is_signal m) ≡ false)
      × ((is_request m || (is_response m || is_signal m)) ≡ (has_request_id m || has_method m))
unfolding is_request is_response is_signal
message_kinds m = ground arith

-- `set` at one key of an integer map, read at another.
imap_set_value-find :
    (l : RpcIMap) (k j : ℤ) (v : RpcValue)
    → find_ikey j (imap_set_value l k v)
      ≡ (if eqb_ℤ k j then (if is_valid v then some v else none) else find_ikey j l)
unfolding imap_set_value
imap_set_value-find l k j v = elim (Bool-cases (is_valid v)) [
  | inl e ↦ rw (e, find_ikey-insert_ikey k j v l)
  | inr e ↦ rw (e, find_ikey-erase_ikey k j l)
]

abbrev fresh_meta : RpcValue → MetaData
fresh_meta id = meta_set (metadata (check_meta_values new_message)) tag_request_id id

response_meta : MetaData → MetaData
response_meta m =
    if is_valid (caller_ids m)
    then meta_set (fresh_meta (request_id m)) tag_caller_ids (caller_ids m)
    else fresh_meta (request_id m)

for_request-form :
    (m : MetaData)
    → is_valid (request_id m) ≡ true
    → for_request m ≡ value (imap iend) (response_meta m)
unfolding for_request set_message_request_id set_message_caller_ids set_meta_value check_meta_values
    response_meta set_meta is_valid
for_request-form m h = elim (Bool-cases (is_valid (caller_ids m))) [
  | inl e ↦ rw (h, e)
  | inr e ↦ rw (h, e)
]

abbrev with_ids : MetaData → RpcValue → MetaData
with_ids m c = if is_valid c then meta_set m tag_caller_ids c else m

with_ids-has_ikey :
    (m : MetaData) (c : RpcValue) (k : ℤ)
    → eqb_ℤ tag_caller_ids k ≡ false
    → has_ikey (with_ids m c) k ≡ has_ikey m k
with_ids-has_ikey m c k h = elim (Bool-cases (is_valid c)) [
  | inl e ↦ rw e (has_ikey-meta_set m tag_caller_ids k c ∙ rw h)
  | inr e ↦ rw e
]

with_ids-meta_value :
    (m : MetaData) (c : RpcValue) (k : ℤ)
    → eqb_ℤ tag_caller_ids k ≡ false
    → meta_value (with_ids m c) k ≡ meta_value m k
with_ids-meta_value m c k h = elim (Bool-cases (is_valid c)) [
  | inl e ↦ rw e (meta_value-meta_set m tag_caller_ids k c e ∙ rw h)
  | inr e ↦ rw e
]

fresh_has_method : (id : RpcValue) → has_ikey (fresh_meta id) tag_method ≡ false
unfolding eqb_ℤ has_ikey check_meta_values set_meta is_valid meta_set find_ikey insert_ikey
fresh_has_method id =
    has_ikey-meta_set (metadata (check_meta_values new_message)) tag_request_id tag_method id

fresh_no_ids : (id : RpcValue) → meta_value (fresh_meta id) tag_caller_ids ≡ plain invalid
unfolding meta_value eqb_ℤ check_meta_values set_meta is_valid meta_set find_ikey insert_ikey ltb_ℤ
fresh_no_ids (value invalid m) = unfold erase_ikey in refl
fresh_no_ids (value _ m) = refl

-- What the meta data of a response hold.
response_meta-tags :
    (m : MetaData)
    → is_valid (request_id m) ≡ true
    → (is_response (response_meta m) ≡ true) × (request_id (response_meta m) ≡ request_id m)
unfolding is_response response_meta eqb_ℤ request_id
response_meta-tags m h = (has, with_ids-meta_value fresh (caller_ids m) tag_request_id refl ∙ same)
  where
    fresh : MetaData
    fresh = fresh_meta (request_id m)

    same : meta_value fresh tag_request_id ≡ request_id m
    same =
        meta_value-meta_set (metadata (check_meta_values new_message)) tag_request_id tag_request_id
          (request_id m) h

    has_id : has_ikey fresh tag_request_id ≡ true
    has_id =
        has_ikey-meta_set (metadata (check_meta_values new_message)) tag_request_id tag_request_id
          (request_id m)
        ∙ h

    has : is_response (response_meta m) ≡ true
    has = ground (
      arith,
      with_ids-has_ikey fresh (caller_ids m) tag_request_id refl,
      with_ids-has_ikey fresh (caller_ids m) tag_method refl,
      has_id,
      fresh_has_method (request_id m),
    )

module _ ⦃floats : Floats⦄ where
  invalid-stack : (v : RpcValue) → is_valid v ≡ false → ids_stack v ≡ []
  unfolding ids_stack is_valid
  invalid-stack (value invalid m) h = refl
  invalid-stack (value _ m) h = cc

  with_ids-stack :
      (m : MetaData) (c : RpcValue)
      → meta_value m tag_caller_ids ≡ plain invalid
      → ids_stack (meta_value (with_ids m c) tag_caller_ids) ≡ ids_stack c
  unfolding eqb_ℤ
  with_ids-stack m c h = elim (Bool-cases (is_valid c)) [
    | inl e ↦ rw e (ap ids_stack (meta_value-meta_set m tag_caller_ids tag_caller_ids c e))
    | inr e ↦
        rw (e, h)
          (invalid-stack (plain invalid) (unfold is_valid in refl) ∙ sym (invalid-stack c e))
  ]

  response_meta-stack : (m : MetaData) → caller_stack (response_meta m) ≡ caller_stack m
  unfolding caller_stack response_meta caller_ids
  response_meta-stack m =
      with_ids-stack (fresh_meta (request_id m)) (caller_ids m) (fresh_no_ids (request_id m))

  set_result-form :
      (m : MetaData) (v : RpcValue)
      → is_valid v ≡ true
      → set_result (value (imap iend) m) v ≡ value (imap (ientry key_result v iend)) m
  unfolding set_result set_message_value check_meta_values set_index imap_set_value insert_ikey
      is_valid
  set_result-form m v h = rw h

  result_success :
      (m : MetaData) (v : RpcValue)
      → is_valid v ≡ true
      → is_success (value (imap (ientry key_result v iend)) m) ≡ true
  unfolding is_success is_error response_error result message_value at_index find_ikey eqb_ℤ
      error_of error_is_valid error_code error_value imap_value as_imap is_imap to_int integer
      to_int32
  result_success m v h = rw h

  -- For meta data with a valid request id and a valid result, the response that carries the
  -- result is a response message, has the request's id and its stack of caller ids, and reports
  -- success with that result.
  pub for_request_lem :
      (m : MetaData) (v : RpcValue)
      → is_valid (request_id m) ≡ true
      → is_valid v ≡ true
      → (is_response (metadata (set_result (for_request m) v)) ≡ true)
        × (request_id (metadata (set_result (for_request m) v)) ≡ request_id m)
        × (caller_stack (metadata (set_result (for_request m) v)) ≡ caller_stack m)
        × (is_success (set_result (for_request m) v) ≡ true)
        × (result (set_result (for_request m) v) ≡ v)
  for_request_lem m v h hv =
      let (resp, same) = response_meta-tags m h in
      rw (for_request-form m h, set_result-form (response_meta m) v hv)
        (
          resp,
          same,
          response_meta-stack m,
          result_success (response_meta m) v hv,
          unfold result message_value at_index find_ikey eqb_ℤ in refl,
        )
