-- ===== src/Tests/Names.antt =====
-- Names of types and logins at concrete inputs.
use libshv.Base.{◌≡◌, ◌≢◌, [], codes, none}
use libshv.Rpc.Value.{blob, plain}
use libshv.Rpc.Types.{
  type_of, type_blob, type_invalid, type_to_name, type_for_name, type_for_name-type_to_name,
}
use libshv.Rpc.Login.{
  UserLogin, login_token, login_sha1, login_azure, to_rpc_value_map, login_from_rpc_value,
  login_from_rpc_value-to_rpc_value_map,
}

type_for_name-type_to_name_example :
    (type_of (plain (blob [])) ≢ type_blob
      → type_for_name (type_to_name (type_of (plain (blob [])))) none ≡ type_of (plain (blob [])))
    × (type_of (plain (blob [])) ≡ type_blob
        → type_for_name (type_to_name (type_of (plain (blob [])))) none ≡ type_invalid)
type_for_name-type_to_name_example = type_for_name-type_to_name (plain (blob []))

-- A login with a token.
abbrev token_login : UserLogin
token_login = record { user = codes "me"; password = codes "secret"; login_type = login_token }

login_from_rpc_value-to_rpc_value_map_example :
    login_from_rpc_value login_azure (to_rpc_value_map token_login)
    ≡ record { user = codes "me"; password = codes "secret"; login_type = login_sha1 }
login_from_rpc_value-to_rpc_value_map_example =
    login_from_rpc_value-to_rpc_value_map token_login login_azure
