-- ===== src/Rpc/Errors.antt =====
-- What `RpcError` keeps through its constructor, its JSON form and a response.
use libshv.Base.{some, false, ◌≡◌, refl, ◌∙◌, true, Str, streq}
use libshv.Base.Int.{ℤ, eqb_ℤ, ltb_ℤ, IsInt32, to_int32_of_IsInt32, to_int32-IsInt32}
use libshv.Rpc.Value.{
  RpcValue, value, invalid, int, string, imap, plain, is_valid, is_imap, RpcIMap, iend, ientry,
  RpcMap, end, entry,
}
use libshv.Rpc.Maps.{
  find_ikey, find_key, imap_set_value, imap_value, map_value, insert_ikey, erase_ikey,
}
use libshv.Rpc.Convert.{Floats, to_int, or_zero, integer, int_throws, as_string, as_imap, set_index}
use libshv.Rpc.Message.{
  RpcError, key_code, key_message, key_data, error_value, set_error_value, error_code,
  error_message, error_data, create_error, error_of, to_json, from_json, code_throws, json_code,
  json_data, json_message,
}

-- The map that `RpcError::create` builds.
created : ℤ → Str → RpcValue → RpcIMap
created c msg d =
    imap_set_value (ientry key_code (plain (int c)) (ientry key_message (plain (string msg)) iend))
      key_data d

create_error-form :
    (c : ℤ) (msg : Str) (d : RpcValue) → create_error c msg d ≡ plain (imap (created c msg d))
unfolding create_error set_error_value set_index imap_set_value insert_ikey is_valid is_imap eqb_ℤ
    ltb_ℤ created
create_error-form c msg d = refl

module _ ⦃floats : Floats⦄ where
  int_again : (i : ℤ) → IsInt32 i → to_int (plain (int i)) ≡ i
  unfolding to_int integer
  int_again i h = to_int32_of_IsInt32 i h

  created_parts :
      (c : ℤ) (msg : Str) (d : RpcValue)
      → (error_code (plain (imap (created c msg d))) ≡ to_int (plain (int c)))
        × (error_message (plain (imap (created c msg d))) ≡ msg)
        × (is_valid d ≡ true → error_data (plain (imap (created c msg d))) ≡ d)
  unfolding error_code error_message error_data error_value imap_value as_imap as_string created
      imap_set_value insert_ikey erase_ikey find_ikey is_valid eqb_ℤ ltb_ℤ
  created_parts c msg (value invalid m) = (refl, refl, λ h. cc)
  created_parts c msg (value _ m) = (refl, refl, λ h. refl)

  -- An error made by `RpcError::create` from an `int` code, a message and valid data answers the
  -- three of them.
  create_error_lem :
      (c : ℤ) (msg : Str) (d : RpcValue)
      → IsInt32 c
      → is_valid d ≡ true
      → (error_code (create_error c msg d) ≡ c)
        × (error_message (create_error c msg d) ≡ msg)
        × (error_data (create_error c msg d) ≡ d)
  create_error_lem c msg d h hd =
      let (code, message, data_) = created_parts c msg d in
      rw create_error-form (code ∙ int_again c h, message, data_ hd)

  -- The map that `from_json` builds from what `to_json` wrote.
  decoded : RpcError → RpcIMap
  decoded e =
      ientry key_code (plain (int (to_int (plain (int (error_code e)))))) (
        ientry key_message (plain (string (error_message e))) (ientry key_data (error_data e) iend))

  -- The map that `to_json` builds if the code does not throw.
  encoded : RpcError → RpcMap
  encoded e =
      entry json_code (plain (int (error_code e)))
        (entry json_data (error_data e) (entry json_message (plain (string (error_message e))) end))

  to_json-form : (e : RpcError) → code_throws e ≡ false → to_json e ≡ some (encoded e)
  unfolding to_json encoded
  to_json-form e h = rw h refl

  from_json-form : (e : RpcError) → from_json (encoded e) ≡ some (plain (imap (decoded e)))
  unfolding from_json encoded map_value find_key streq error_of is_imap as_string decoded int_throws
      integer
  from_json-form e = refl

  error_code-IsInt32 : (e : RpcError) → IsInt32 (error_code e)
  unfolding error_code to_int
  error_code-IsInt32 e = to_int32-IsInt32 (or_zero (integer (error_value e key_code)))

  decoded_parts :
      (e : RpcError)
      → (error_code (plain (imap (decoded e)))
          ≡ to_int (plain (int (to_int (plain (int (error_code e)))))))
        × (error_message (plain (imap (decoded e))) ≡ error_message e)
        × (error_data (plain (imap (decoded e))) ≡ error_data e)
  unfolding error_value imap_value as_imap find_ikey eqb_ℤ decoded
  decoded_parts e =
      (unfold error_code in refl, unfold error_message as_string in refl, unfold error_data in refl)

  -- An error whose code is no NaN has a JSON form, which is read back as an error with the same code,
  -- message and data.
  pub from_json-to_json :
      (e : RpcError)
      → code_throws e ≡ false
      → (json : RpcMap) × (back : RpcError) × (to_json e ≡ some json)
        × (from_json json ≡ some back)
        × (error_code back ≡ error_code e)
        × (error_message back ≡ error_message e)
        × (error_data back ≡ error_data e)
  from_json-to_json e h =
      let (code, message, data_) = decoded_parts e in
      let again = int_again (error_code e) (error_code-IsInt32 e) in
      (
        encoded e,
        plain (imap (decoded e)),
        to_json-form e h,
        from_json-form e,
        code ∙ rw (again, again),
        message,
        data_,
      )
