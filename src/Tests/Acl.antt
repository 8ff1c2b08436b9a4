-- ===== src/Tests/Acl.antt =====
-- Roles, passwords and access rules of a small broker.
use libshv.Base.{
  ◌≡◌, ◌↔◌, refl, true, false, none, some, List, [], ◌∷◌, Str, codes, streq, starts_with, arith,
  if◌then◌else◌, inl,
}
use libshv.Base.Dict.{has, find}
use libshv.Rpc.Login.{UserLogin, login_plain}
use libshv.Broker.Rule.{AccessRule}
use libshv.Acl.Password.{format_plain, password_is_valid}
use libshv.Acl.User.{
  AclUser, no_role, user_is_valid, user_to_rpc_value, user_from_rpc_value,
  user_from_rpc_value-user_to_rpc_value,
}
use libshv.Acl.Manager.{
  user, mount_def, access_role_rules, no_mount_def, Storage, Cache, no_cache, set_mount_def,
  set_user, set_role, set_access_role_rules,
}
use libshv.Acl.Flatten.{flatten, flatten_loop, enqueue, enqueue_all}
use libshv.Acl.Closure.{IsSubset, IsClosure, flatten-IsClosure}
use libshv.Acl.Coherence.{mount_def_of, rules_of, IsCurrent, IsStored, user_of, setters-IsCurrent}
use libshv.Acl.Getters.{getters-IsCurrent}
use libshv.Acl.Resolve.{no_grant, access_grant_for_shv_path}
use libshv.Acl.Granted.{roles_spec, grant_spec, IsPlainName, access_grant_for_shv_path-IsCurrent}
use libshv.Acl.CheckPassword.{check_password, IsAuthentic, check_password-IsAuthentic}

abbrev name_me : Str
name_me = codes "me"

abbrev role_op : Str
role_op = codes "op"

abbrev role_view : Str
role_view = codes "view"

abbrev me : AclUser
me = record {
  password = record { password = codes "secret"; format = format_plain };
  roles = role_op ∷ [];
}

me-is_valid : user_is_valid me ≡ true
unfolding user_is_valid password_is_valid
me-is_valid = refl

user_from_rpc_value-user_to_rpc_value_example : user_from_rpc_value (user_to_rpc_value me) ≡ me
user_from_rpc_value-user_to_rpc_value_example = user_from_rpc_value-user_to_rpc_value me me-is_valid

-- "op" and "view" have each other.
abbrev subs : Str → List Str
subs r = if streq r role_op then role_view ∷ [] else role_op ∷ []

subs-known :
    (u v : Str)
    → has (role_op ∷ role_view ∷ []) u ≡ true
    → has (subs u) v ≡ true
    → has (role_op ∷ role_view ∷ []) v ≡ true
unfolding has
subs-known u v h k = ground arith

op-known : IsSubset (role_op ∷ []) (role_op ∷ role_view ∷ [])
unfolding has
op-known r h = ground arith

flatten-IsClosure_example :
    (found : List Str) × (flatten subs 3 (role_op ∷ []) ≡ some found)
    × IsClosure subs (role_op ∷ []) found
flatten-IsClosure_example =
    flatten-IsClosure subs (role_op ∷ []) (role_op ∷ role_view ∷ []) 3 op-known subs-known
      (omega arith)

abbrev rules : Str → List AccessRule
rules r = record { path = codes "test/**"; method = []; access = codes "wr" } ∷ []

abbrev stored : Storage
stored = record {
  acl_mount_device_ids = [];
  acl_mount_def = λ id. no_mount_def;
  acl_users = name_me ∷ [];
  acl_user = λ name. me;
  acl_roles = role_op ∷ role_view ∷ [];
  acl_role = λ r. record { roles = subs r; profile = no_role.profile };
  acl_access_roles = role_view ∷ [];
  acl_access_role_rules = rules;
}

no_cache-IsCurrent : IsCurrent stored [] 3 no_cache
unfolding find
no_cache-IsCurrent = record {
  mount_defs_ok = inl refl;
  users_ok = inl refl;
  rules_ok = inl refl;
  flatten_ok = λ k l e. cc;
}

setters-IsCurrent_example :
    IsCurrent stored [] 3 no_cache
    × IsStored [] 3 (
        set_mount_def
          (some (record stored { acl_mount_device_ids = []; acl_mount_def = λ id. no_mount_def }))
          no_cache)
    × IsStored [] 3
        (set_user (some (record stored { acl_users = []; acl_user = λ name. me })) no_cache)
    × IsStored [] 3
        (set_role (some (record stored { acl_roles = []; acl_role = λ r. no_role })) no_cache)
    × IsStored [] 3 (
        set_access_role_rules
          (some (record stored { acl_access_roles = []; acl_access_role_rules = rules }))
          no_cache)
setters-IsCurrent_example =
    setters-IsCurrent stored [] 3 no_cache no_cache-IsCurrent [] (λ id. no_mount_def) []
      (λ name. me) [] (λ r. no_role) [] rules

abbrev test_login : UserLogin
test_login = record { user = name_me; password = codes "secret"; login_type = login_plain }

check_password-IsAuthentic_example :
    (((check_password (λ s. s) stored test_login none no_cache).0.password_ok ≡ true)
      ↔ IsAuthentic (λ s. s) (user_of stored name_me) test_login none)
    × IsCurrent stored [] 3 (check_password (λ s. s) stored test_login none no_cache).1
check_password-IsAuthentic_example =
    check_password-IsAuthentic (λ s. s) stored [] 3 test_login none no_cache no_cache-IsCurrent

me-IsPlainName : IsPlainName stored [] 3 name_me
unfolding starts_with
me-IsPlainName = record { no_role = refl; no_azure = refl }

me-roles : roles_spec stored [] 3 name_me false ≡ some (role_op ∷ role_view ∷ [])
unfolding user_is_valid password_is_valid flatten flatten_loop enqueue enqueue_all has streq
me-roles = refl

access_grant_for_shv_path-IsCurrent_example :
    (c' : Cache) × (access_grant_for_shv_path 3 stored [] name_me
        (codes "test/a")
        (codes "get")
        false
        no_grant
        no_cache
      ≡ some (
        grant_spec stored [] 3
            (role_op ∷ role_view ∷ [])
            (codes "test/a")
            (codes "get")
            false
            no_grant,
        c',
      ))
    × IsCurrent stored [] 3 c'
access_grant_for_shv_path-IsCurrent_example =
    access_grant_for_shv_path-IsCurrent stored [] 3 name_me (codes "test/a") (codes "get") false
      no_grant (role_op ∷ role_view ∷ []) no_cache no_cache-IsCurrent me-IsPlainName me-roles

getters-IsCurrent_example :
    ((user stored name_me no_cache).0 ≡ user_of stored name_me)
    × IsCurrent stored [] 3 (user stored name_me no_cache).1
    × ((mount_def stored name_me no_cache).0 ≡ mount_def_of stored name_me)
    × IsCurrent stored [] 3 (mount_def stored name_me no_cache).1
    × ((access_role_rules stored name_me no_cache).0 ≡ rules_of stored name_me)
    × IsCurrent stored [] 3 (access_role_rules stored name_me no_cache).1
getters-IsCurrent_example = getters-IsCurrent stored [] 3 no_cache name_me no_cache-IsCurrent
