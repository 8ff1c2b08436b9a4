-- ===== src/Rpc/CallerIds.antt =====
-- The caller ids of a message: each broker on the way pushes the id of the connection that a
-- request came by, and pops it from the response (libshvchainpack/src/rpcmessage.cpp).
use libshv.Base.{not, ◌&&◌, Bool, true, false, ◌||◌, if◌then◌else◌}
use libshv.Base.Int.{ℤ, pos}
use libshv.Rpc.Value.{
  RpcValue, invalid, int, list, MetaData, RpcList, nil, cons, plain, push_back, is_list, is_int,
  is_uint, is_valid,
}
use libshv.Rpc.Convert.{Floats, to_int, int_throws, as_list}
use libshv.Rpc.Meta.{meta_value, meta_set}
use libshv.Rpc.Tags.{tag_caller_ids, tag_rev_caller_ids}

unfoldable pub caller_ids : MetaData → RpcValue
caller_ids m = meta_value m tag_caller_ids

unfoldable pub set_caller_ids : MetaData → RpcValue → MetaData
set_caller_ids m v = meta_set m tag_caller_ids v

unfoldable pub rev_caller_ids : MetaData → RpcValue
rev_caller_ids m = meta_value m tag_rev_caller_ids

unfoldable pub set_rev_caller_ids : MetaData → RpcValue → MetaData
set_rev_caller_ids m v = meta_set m tag_rev_caller_ids v

-- `isRegisterRevCallerIds`
unfoldable pub is_register_rev_caller_ids : MetaData → Bool
is_register_rev_caller_ids m = is_valid (rev_caller_ids m)

-- `array.back()` and the array without it; `none` of an empty one.
unfoldable pub back : RpcList → RpcValue
back nil = plain invalid
back (cons v nil) = v
back (cons v (cons w l)) = back (cons w l)

unfoldable pub pop_back : RpcList → RpcList
pop_back nil = nil
pop_back (cons v nil) = nil
pop_back (cons v (cons w l)) = cons v (pop_back (cons w l))

abbrev pub list_empty : RpcList → Bool
list_empty nil = true
list_empty (cons v l) = false

module _ ⦃floats : Floats⦄ where
  -- The value that pushing an id makes of the current one: a list grows, a single id becomes a
  -- list of two, and anything else becomes the single id.
  unfoldable pub pushed_id : RpcValue → ℤ → RpcValue
  pushed_id curr id =
      if is_list curr
      then plain (list (push_back (as_list curr) (plain (int id))))
      else if is_int curr || is_uint curr
      then plain (list (cons (plain (int (to_int curr))) (cons (plain (int id)) nil)))
      else plain (int id)

  -- `pushCallerId`
  unfoldable pub push_caller_id : MetaData → ℤ → MetaData
  unfolding caller_ids set_caller_ids
  push_caller_id m id = set_caller_ids m (pushed_id (caller_ids m) id)

  -- `pushRevCallerId`
  unfoldable pub push_rev_caller_id : MetaData → ℤ → MetaData
  unfolding rev_caller_ids set_rev_caller_ids
  push_rev_caller_id m id = set_rev_caller_ids m (pushed_id (rev_caller_ids m) id)

  -- `popCallerId(caller_ids, id)`: the id, and the caller ids that are left.
  unfoldable pub pop_id : RpcValue → ℤ × RpcValue
  pop_id ids =
      if is_list ids
      then (
        if list_empty (as_list ids) then pos 0 else to_int (back (as_list ids)),
        plain (list (pop_back (as_list ids))),
      )
      else (to_int ids, plain invalid)

  -- `popCallerId(meta)`
  unfoldable pub pop_caller_id : MetaData → ℤ × MetaData
  unfolding caller_ids set_caller_ids
  pop_caller_id m = let (id, rest) = pop_id (caller_ids m) in (id, set_caller_ids m rest)

  -- `peekCallerId(meta)`
  unfoldable pub peek_caller_id : MetaData → ℤ
  unfolding caller_ids
  peek_caller_id m =
      let ids = caller_ids m in
      if is_list ids
      then (if list_empty (as_list ids) then pos 0 else to_int (back (as_list ids)))
      else to_int ids

  -- Does `peekCallerId` throw, at a NaN?
  unfoldable pub peek_throws : MetaData → Bool
  unfolding caller_ids
  peek_throws m =
      let ids = caller_ids m in
      if is_list ids
      then not (list_empty (as_list ids)) && int_throws (back (as_list ids))
      else int_throws ids
