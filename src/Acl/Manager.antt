-- ===== src/Acl/Manager.antt =====
-- `AclManager` of libshvbroker/src/aclmanager.cpp: the caches in front of the stored definitions.
-- What a subclass stores (its `acl…` functions) is the interface `Storage`. A setter of a subclass
-- answers the storage after it, or nothing if it throws.
use libshv.Base.{
  ℕ, Bool, true, false, not, Option, none, some, List, [], ◌∷◌, ◌++◌, Str, codes, is_nil,
}
use libshv.Base.Dict.{Dict, find, insert, emplace}
use libshv.Acl.User.{AclUser, no_user, user_is_valid, AclRole, no_role}
use libshv.Acl.Flatten.{flatten}
use libshv.Acl.Lookup.{look_up}
use libshv.Broker.Rule.{AccessRule}

-- `AclMountDef`
pub record MountDef : Type 0 where
  pub description : Str
  pub mount_point : Str

abbrev pub no_mount_def : MountDef
no_mount_def = record { description = []; mount_point = [] }

-- `AclMountDef::isValid`
unfoldable pub mount_def_is_valid : MountDef → Bool
mount_def_is_valid d = not (is_nil d.mount_point)

pub record Storage : Type 0 where
  pub acl_mount_device_ids : List Str
  pub acl_mount_def : Str → MountDef
  pub acl_users : List Str
  pub acl_user : Str → AclUser
  pub acl_roles : List Str
  pub acl_role : Str → AclRole
  pub acl_access_roles : List Str
  pub acl_access_role_rules : Str → List AccessRule

-- `m_cache`
pub record Cache : Type 0 where
  pub mount_defs : Dict MountDef
  pub users : Dict AclUser
  pub roles : Dict AclRole
  pub access_rules : Dict (List AccessRule × Bool)
  pub flatten_roles : Dict (List Str)

-- `Cache()`, which `clearCache` and `reload` leave
abbrev pub no_cache : Cache
no_cache = record { mount_defs = []; users = []; roles = []; access_rules = []; flatten_roles = [] }

abbrev pub or_else {ℓ} : {A : Type ℓ} → A → Option A → A
or_else a none = a
or_else a (some b) = b

abbrev never : AclRole → Bool
never r = false

abbrev pub second : List AccessRule × Bool → Bool
second e = e.1

module _ (s : Storage) where
  -- `mountDef`
  unfoldable pub mount_def : Str → Cache → MountDef × Cache
  mount_def id c =
      let (d, ds) =
        look_up s.acl_mount_device_ids no_mount_def mount_def_is_valid s.acl_mount_def id
          c.mount_defs in
      (or_else no_mount_def d, record c { mount_defs = ds })

  -- `user`
  unfoldable pub user : Str → Cache → AclUser × Cache
  user name c =
      let (u, us) = look_up s.acl_users no_user user_is_valid s.acl_user name c.users in
      (or_else no_user u, record c { users = us })

  -- `role`, which loads a known role each time
  unfoldable pub role : Str → Cache → AclRole × Cache
  role name c =
      let (r, rs) = look_up s.acl_roles no_role never s.acl_role name c.roles in
      (or_else no_role r, record c { roles = rs })

  -- An entry of the cached rules, loaded.
  abbrev pub loaded_rules : Str → List AccessRule × Bool
  loaded_rules name = (s.acl_access_role_rules name, true)

  -- `accessRoleRules`
  unfoldable pub access_role_rules : Str → Cache → List AccessRule × Cache
  access_role_rules name c =
      let (e, es) =
        look_up s.acl_access_roles ([], false) second loaded_rules name c.access_rules in
      ((or_else ([], false) e).0, record c { access_rules = es })

  -- `aclRole(role).roles`
  abbrev pub sub_roles : Str → List Str
  sub_roles r = (s.acl_role r).roles

  abbrev flattened : Str → Cache → Option (List Str) → Option (List Str × Cache)
  flattened key c none = none
  flattened key c (some l) = some (l, record c { flatten_roles = insert key l c.flatten_roles })

  abbrev or_flatten : ℕ → Str → List Str → Cache → Option (List Str) → Option (List Str × Cache)
  or_flatten fuel key given c (some l) = some (l, c)
  or_flatten fuel key given c none = flattened key c (flatten sub_roles fuel given)

  -- `userFlattenRoles`; `none` if the fuel of the search runs out.
  unfoldable pub user_flatten_roles : ℕ → Str → List Str → Cache → Option (List Str × Cache)
  user_flatten_roles fuel key given c = or_flatten fuel key given c (find key c.flatten_roles)

  abbrev pub role_key : Str → Str
  role_key r = codes "_Role#Key:" ++ r

  abbrev pub azure_key : Str → Str
  azure_key name = codes "_Azure#Key:" ++ name

  -- `flattenRole`
  unfoldable pub flatten_role : ℕ → Str → Cache → Option (List Str × Cache)
  flatten_role fuel r c = user_flatten_roles fuel (role_key r) (r ∷ []) c

  -- `azureUserFlattenRoles`
  unfoldable pub azure_user_flatten_roles : ℕ → Str → List Str → Cache → Option (List Str × Cache)
  azure_user_flatten_roles fuel name given c = user_flatten_roles fuel (azure_key name) given c

-- What a setter of the manager leaves: the storage that the subclass answers and the cache, or the
-- exception of the subclass.
abbrev pub Stored : Type 0
Stored = Option (Storage × Cache)

abbrev after_store : Option Storage → Cache → Stored
after_store none c = none
after_store (some s) c = some (s, c)

-- `setMountDef`, `setUser`, `setRole`, `setAccessRoleRules`
unfoldable pub set_mount_def : Option Storage → Cache → Stored
set_mount_def s c = after_store s (record c { mount_defs = [] })

unfoldable pub set_user : Option Storage → Cache → Stored
set_user s c = after_store s (record c { users = []; flatten_roles = [] })

unfoldable pub set_role : Option Storage → Cache → Stored
set_role s c = after_store s (record c { roles = []; flatten_roles = [] })

unfoldable pub set_access_role_rules : Option Storage → Cache → Stored
set_access_role_rules s c = after_store s (record c { access_rules = [] })

-- `setGroupForAzureUser`
unfoldable pub set_group_for_azure_user : Str → List Str → Dict (List Str) → Dict (List Str)
set_group_for_azure_user name group groups = emplace name group groups
