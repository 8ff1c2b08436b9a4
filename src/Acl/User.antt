-- ===== src/Acl/User.antt =====
-- `AclUser` and `AclRole` of libshviotqt/src/acl.
use libshv.Base.{
  ◌≡◌, refl, ap, ◌∙◌, Bool, true, Option, none, some, List, [], ◌∷◌, ◌++◌, append-nil, Str, codes,
  streq, is_nil, if◌then◌else◌,
}
use libshv.Rpc.Value.{
  RpcValue, invalid, string, list, map, plain, RpcList, nil, cons, RpcMap, end, entry, is_map,
  is_null,
}
use libshv.Rpc.Maps.{map_value, find_key}
use libshv.Rpc.Convert.{as_map, as_list}
use libshv.Rpc.Login.{to_string}
use libshv.Acl.Password.{
  AclPassword, no_password, password_is_valid, password_to_rpc_value, password_from_rpc_value,
  password_from_rpc_value-password_to_rpc_value,
}

pub record AclUser : Type 0 where
  pub password : AclPassword
  pub roles : List Str

-- `AclUser()`
abbrev pub no_user : AclUser
no_user = record { password = no_password; roles = [] }

-- `AclUser::isValid`
unfoldable pub user_is_valid : AclUser → Bool
user_is_valid u = password_is_valid u.password

-- `RpcList::fromStringList`
unfoldable pub from_string_list : List Str → RpcList
from_string_list [] = nil
from_string_list (s ∷ l) = cons (plain (string s)) (from_string_list l)

-- The texts of a list, as the loops of `fromRpcValue` read them.
unfoldable pub strings : RpcList → List Str
strings nil = []
strings (cons v l) = to_string v ∷ strings l

pub strings-from_string_list : (l : List Str) → strings (from_string_list l) ≡ l
unfolding strings from_string_list to_string
strings-from_string_list [] = refl
strings-from_string_list (s ∷ l) = ap (λ t. s ∷ t) (strings-from_string_list l)

-- The roles of a map: those under "roles" and those under the older key "grants".
unfoldable pub roles_of : RpcMap → List Str
roles_of m =
    strings (as_list (map_value m (codes "roles") (plain invalid)))
    ++ strings (as_list (map_value m (codes "grants") (plain invalid)))

-- `AclUser::toRpcValue`
unfoldable pub user_to_rpc_value : AclUser → RpcValue
user_to_rpc_value u = plain (
    map (
      entry (codes "password") (password_to_rpc_value u.password)
        (entry (codes "roles") (plain (list (from_string_list u.roles))) end)))

-- `AclUser::fromRpcValue`
unfoldable pub user_from_rpc_value : RpcValue → AclUser
user_from_rpc_value v =
    if is_map v
    then (let m = as_map v in
        record {
          password = password_from_rpc_value (map_value m (codes "password") (plain invalid));
          roles = roles_of m;
        })
    else no_user

-- A user with a valid password is read back by `fromRpcValue` from what `toRpcValue` writes.
pub user_from_rpc_value-user_to_rpc_value :
    (u : AclUser) → user_is_valid u ≡ true → user_from_rpc_value (user_to_rpc_value u) ≡ u
unfolding user_from_rpc_value user_to_rpc_value user_is_valid roles_of is_map as_map as_list
    map_value find_key streq strings
user_from_rpc_value-user_to_rpc_value u h = λ i. record {
  password = password_from_rpc_value-password_to_rpc_value u.password h i;
  roles = (append-nil (strings (from_string_list u.roles)) ∙ strings-from_string_list u.roles) i;
}

pub record AclRole : Type 0 where
  pub roles : List Str
  pub profile : RpcValue

-- `AclRole()`
abbrev pub no_role : AclRole
no_role = record { roles = []; profile = plain invalid }

-- `AclRole::toRpcValue`; the map is in the order of its keys.
unfoldable pub role_to_rpc_value : AclRole → RpcValue
role_to_rpc_value r =
    let roles = entry (codes "roles") (plain (list (from_string_list r.roles))) end in
    let m = if is_nil r.roles then end else roles in
    plain (map (if is_map r.profile then entry (codes "profile") r.profile m else m))

-- What `AclRole::fromRpcValue` answers, or that it throws.
pub data ReadRole : Type 0 where
  role_read : Option AclRole → ReadRole
  invalid_parameter_type : ReadRole

-- `AclRole::fromRpcValue`
unfoldable pub role_from_rpc_value : RpcValue → ReadRole
role_from_rpc_value v =
    if is_map v
    then (let m = as_map v in
        let p = map_value m (codes "profile") (plain invalid) in
        role_read
          (some (record { roles = roles_of m; profile = if is_map p then p else plain invalid })))
    else if is_null v
    then role_read none
    else invalid_parameter_type
