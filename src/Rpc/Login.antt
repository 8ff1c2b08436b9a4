-- ===== src/Rpc/Login.antt =====
-- `UserLogin` and `UserLoginResult` of libshvchainpack/src/accessgrant.cpp.
use libshv.Base.{
  ℕ, ◌≡◌, refl, Bool, true, false, not, Str, [], ◌∷◌, codes, streq, is_nil, if◌then◌else◌, ◌==◌,
  ◌-◌, ◌&&◌, leb,
}
use libshv.Rpc.Value.{
  RpcValue, value, invalid, string, blob, map, plain, RpcMap, end, entry, is_map,
}
use libshv.Rpc.Maps.{map_value, find_key}
use libshv.Rpc.Convert.{as_map}

-- UserLogin::LoginType
pub data LoginType : Type 0 where
  login_invalid login_plain login_sha1 login_rsa_oaep login_none login_azure login_token : LoginType

pub record UserLogin : Type 0 where
  pub user : Str
  pub password : Str
  pub login_type : LoginType

-- `UserLogin::isValid`
unfoldable pub login_is_valid : UserLogin → Bool
login_is_valid l = not (is_nil l.user)

-- `loginTypeToString`
unfoldable pub login_type_to_string : LoginType → Str
login_type_to_string login_none = codes "NONE"
login_type_to_string login_plain = codes "PLAIN"
login_type_to_string login_sha1 = codes "SHA1"
login_type_to_string login_rsa_oaep = codes "RSAOAEP"
login_type_to_string login_azure = codes "AZURE"
login_type_to_string login_token = codes "TOKEN"
login_type_to_string login_invalid = codes "INVALID"

-- `toupper` of a character, in the C locale.
abbrev to_upper : ℕ → ℕ
to_upper c = if leb 97 c && leb c 122 then c - 32 else c

-- `str_eq`, which folds the case of its first argument only.
unfoldable pub str_eq : Str → Str → Bool
str_eq [] [] = true
str_eq [] (y ∷ ys) = false
str_eq (x ∷ xs) [] = false
str_eq (x ∷ xs) (y ∷ ys) = y == to_upper x && str_eq xs ys

-- `loginTypeFromString`
unfoldable pub login_type_from_string : Str → LoginType
unfolding login_type_to_string
login_type_from_string s =
    if str_eq s (login_type_to_string login_none)
    then login_none
    else if str_eq s (login_type_to_string login_plain)
    then login_plain
    else if str_eq s (login_type_to_string login_sha1)
    then login_sha1
    else if str_eq s (login_type_to_string login_rsa_oaep)
    then login_rsa_oaep
    else if str_eq s (login_type_to_string login_azure)
    then login_azure
    else if str_eq s (login_type_to_string login_token)
    then login_token
    else login_invalid

-- `RpcValue::toString`; the bytes of a blob are its text.
unfoldable pub to_string : RpcValue → Str
to_string (value (blob s) m) = s
to_string (value (string s) m) = s
to_string _ = []

-- The keys of the map.
abbrev key_user : Str
key_user = codes "user"

abbrev key_password : Str
key_password = codes "password"

abbrev key_login_type : Str
key_login_type = codes "loginType"

-- `UserLogin::toRpcValueMap`; the map is in the order of its keys.
unfoldable pub to_rpc_value_map : UserLogin → RpcValue
to_rpc_value_map l = plain (
    map (
      entry key_login_type (plain (string (login_type_to_string l.login_type))) (
        entry key_password (plain (string l.password))
          (entry key_user (plain (string l.user)) end))))

-- A fresh `UserLogin`, whose type is not initialised.
abbrev no_login : LoginType → UserLogin
no_login t = record { user = []; password = []; login_type = t }

abbrev or_sha1 : Str → LoginType
or_sha1 [] = login_sha1
or_sha1 (c ∷ s) = login_type_from_string (c ∷ s)

abbrev password_key : LoginType → Str
password_key login_token = codes "token"
password_key _ = key_password

abbrev text_at : RpcMap → Str → Str
text_at m key = to_string (map_value m key (plain invalid))

-- `UserLogin::fromRpcValue`; the first argument is what the type of a fresh login happens to be,
-- which stays for a value that is no map.
unfoldable pub login_from_rpc_value : LoginType → RpcValue → UserLogin
login_from_rpc_value t₀ v =
    if is_map v
    then (let m = as_map v in
        let t = or_sha1 (text_at m (codes "type")) in
        record { user = text_at m key_user; password = text_at m (password_key t); login_type = t })
    else no_login t₀

-- The name of a login type is read back as that type.
login_type_from_string-login_type_to_string :
    (t : LoginType) → login_type_from_string (login_type_to_string t) ≡ t
unfolding login_type_from_string login_type_to_string str_eq
login_type_from_string-login_type_to_string login_invalid = refl
login_type_from_string-login_type_to_string login_none = refl
login_type_from_string-login_type_to_string login_plain = refl
login_type_from_string-login_type_to_string login_sha1 = refl
login_type_from_string-login_type_to_string login_rsa_oaep = refl
login_type_from_string-login_type_to_string login_azure = refl
login_type_from_string-login_type_to_string login_token = refl

-- A login that is made a value by `toRpcValueMap` and read back by `fromRpcValue` keeps its user
-- and password and becomes a SHA1 login, whatever type it had.
pub login_from_rpc_value-to_rpc_value_map :
    (l : UserLogin) (t₀ : LoginType)
    → login_from_rpc_value t₀ (to_rpc_value_map l)
      ≡ record { user = l.user; password = l.password; login_type = login_sha1 }
unfolding login_from_rpc_value to_rpc_value_map is_map as_map map_value find_key streq to_string
login_from_rpc_value-to_rpc_value_map l t₀ = refl
