-- ===== src/Acl/Resolve.antt =====
-- `AclManager::accessGrantForShvPath` of libshvbroker/src/aclmanager.cpp, built without LDAP.
use libshv.Base.{
  ℕ, Bool, ◌&&◌, if◌then◌else◌, Option, none, some, List, [], ◌∷◌, Str, codes, ltb, streq,
}
use libshv.Base.Int.{pos}
use libshv.Base.Dict.{Dict, find}
use libshv.Access.Level.{write_level}
use libshv.Access.Grant.{AccessGrant, from_shv2_access}
use libshv.Acl.User.{user_is_valid}
use libshv.Acl.Manager.{
  Storage, Cache, user, access_role_rules, user_flatten_roles, flatten_role,
  azure_user_flatten_roles,
}
use libshv.Broker.Rule.{AccessRule, is_path_method_match}

-- ROLE_MASTER_BROKER, DIR_BROKER_APP, BROKER_CURRENT_CLIENT_SHV_PATH
abbrev pub role_master_broker : Str
role_master_broker = codes "masterBroker"

abbrev pub dir_broker_app : Str
dir_broker_app = codes ".broker/app"

abbrev pub current_client_path : Str
current_client_path = codes ".broker/currentClient"

-- `AccessGrant()`, and the grant of the level Write
abbrev pub no_grant : AccessGrant
no_grant = record { access_level = 0; access = [] }

abbrev pub write_grant : AccessGrant
write_grant = record { access_level = write_level; access = [] }

abbrev pub grant_of : Option AccessRule → AccessGrant
grant_of none = no_grant
grant_of (some r) = from_shv2_access r.access (pos 0)

abbrev first_found :
    Option AccessRule → Cache → Option AccessRule × Cache → Option AccessRule × Cache
first_found (some r) c rest = (some r, c)
first_found none c rest = rest

module _ (shv_path method : Str) where
  -- The loop over the rules of one role.
  unfoldable pub find_rule : List AccessRule → Option AccessRule
  find_rule [] = none
  find_rule (r ∷ rs) =
      let rest = find_rule rs in if is_path_method_match r shv_path method then some r else rest

  -- The loop over the roles.
  unfoldable pub search_rules : Storage → List Str → Cache → Option AccessRule × Cache
  search_rules s [] c = (none, c)
  search_rules s (r ∷ rs) c =
      let (rules, c') = access_role_rules s r c in
      first_found (find_rule rules) c' (search_rules s rs c')

abbrev group_roles : ℕ → Storage → Str → Cache → Option (List Str) → Option (List Str × Cache)
group_roles fuel s name c none = some ([], c)
group_roles fuel s name c (some group) = azure_user_flatten_roles s fuel name group c

-- The flattened roles of a client.
unfoldable pub client_roles :
    ℕ → Storage → Dict (List Str) → Str → Cache → Option (List Str × Cache)
client_roles fuel s groups name c =
    let (u, c') = user s name c in
    if user_is_valid u
    then user_flatten_roles s fuel name u.roles c'
    else group_roles fuel s name c' (find name groups)

abbrev rule_grant : Option AccessRule × Cache → AccessGrant × Cache
rule_grant (r, c) = (grant_of r, c)

abbrev pub with_roles :
    Storage → Str → Str → Option (List Str × Cache) → Option (AccessGrant × Cache)
with_roles s shv_path method none = none
with_roles s shv_path method (some (roles, c)) =
    if streq shv_path current_client_path
    then some (write_grant, c)
    else some (rule_grant (search_rules shv_path method s roles c))

-- `accessGrantForShvPath`; `none` if the fuel of the search for roles runs out.
unfoldable pub access_grant_for_shv_path :
    ℕ
    → Storage
    → Dict (List Str)
    → Str
    → Str
    → Str
    → Bool
    → AccessGrant
    → Cache
    → Option (AccessGrant × Cache)
access_grant_for_shv_path fuel s groups name shv_path method from_master grant c =
    if from_master && ltb 0 grant.access_level
    then some (grant, c)
    else if from_master && streq shv_path dir_broker_app
    then some (write_grant, c)
    else with_roles s shv_path method (
        if from_master
        then flatten_role s fuel role_master_broker c
        else client_roles fuel s groups name c)
