-- ===== src/Acl/Coherence.antt =====
-- The caches of the access control manager answer what is stored, and the setters keep them so.
use libshv.Base.{
  ℕ, ◌≡◌, inl, inr, refl, sym, ap, ◌∙◌, Bool, false, if◌then◌else◌, Option, none, some, List, [],
  ◌∷◌, Str, codes, drop, starts_with, streq, streq_iff, arith, Bool-cases, Option-cases,
}
use libshv.Base.Dict.{Dict, find, insert, find-insert}
use libshv.Acl.Password.{password_is_valid}
use libshv.Acl.User.{AclUser, no_user, user_is_valid, AclRole}
use libshv.Acl.Flatten.{flatten}
use libshv.Acl.Lookup.{IsCoherent, look_up_lem, uncached}
use libshv.Acl.Manager.{
  MountDef, no_mount_def, mount_def_is_valid, Storage, Stored, Cache, no_cache, or_else, second,
  loaded_rules, mount_def, user, access_role_rules, sub_roles, user_flatten_roles, set_mount_def,
  set_user, set_role, set_access_role_rules,
}
use libshv.Broker.Rule.{AccessRule}

module _ (s : Storage) where
  -- What the getters answer without a cache.
  abbrev pub user_of : Str → AclUser
  user_of name = or_else no_user (uncached s.acl_users no_user user_is_valid s.acl_user name)

  abbrev pub rules_of : Str → List AccessRule
  rules_of name =
      (or_else ([], false) (uncached s.acl_access_roles ([], false) second (loaded_rules s) name)).0

  abbrev pub mount_def_of : Str → MountDef
  mount_def_of id =
      or_else no_mount_def
        (uncached s.acl_mount_device_ids no_mount_def mount_def_is_valid s.acl_mount_def id)

  -- The roles that the flattened roles under a key of the cache come from: a role, an Azure
  -- user's groups or a user's roles.
  abbrev pub key_roles : Dict (List Str) → Str → List Str
  key_roles groups k =
      if starts_with k (codes "_Role#Key:")
      then drop 10 k ∷ []
      else if starts_with k (codes "_Azure#Key:")
      then or_else [] (find (drop 11 k) groups)
      else (user_of k).roles

  pub record IsCurrent (groups : Dict (List Str)) (fuel : ℕ) (c : Cache) : Type 0 where
    pub mount_defs_ok :
        IsCoherent s.acl_mount_device_ids no_mount_def mount_def_is_valid s.acl_mount_def
          c.mount_defs
    pub users_ok : IsCoherent s.acl_users no_user user_is_valid s.acl_user c.users
    pub rules_ok : IsCoherent s.acl_access_roles ([], false) second (loaded_rules s) c.access_rules
    pub flatten_ok :
        (k : Str) (l : List Str)
        → find k c.flatten_roles ≡ some l
        → flatten (sub_roles s) fuel (key_roles groups k) ≡ some l

  no_user-invalid : user_is_valid no_user ≡ false
  unfolding user_is_valid password_is_valid
  no_user-invalid = refl

  no_mount_def-invalid : mount_def_is_valid no_mount_def ≡ false
  unfolding mount_def_is_valid
  no_mount_def-invalid = refl

  first_of : Option (List AccessRule × Bool) → List AccessRule
  first_of o = (or_else ([], false) o).0

  module _ (groups : Dict (List Str)) (fuel : ℕ) where
    pub user_lem :
        (name : Str) (c : Cache)
        → IsCurrent groups fuel c
        → ((user s name c).0 ≡ user_of name) × IsCurrent groups fuel (user s name c).1
    unfolding user
    user_lem name c h =
        let (e, ok) =
          look_up_lem s.acl_users no_user user_is_valid s.acl_user no_user-invalid name c.users
            h.users_ok in
        (
          ap (or_else no_user) e,
          record {
            mount_defs_ok = h.mount_defs_ok;
            users_ok = ok;
            rules_ok = h.rules_ok;
            flatten_ok = h.flatten_ok;
          },
        )

    pub mount_def_lem :
        (id : Str) (c : Cache)
        → IsCurrent groups fuel c
        → ((mount_def s id c).0 ≡ mount_def_of id) × IsCurrent groups fuel (mount_def s id c).1
    unfolding mount_def
    mount_def_lem id c h =
        let (e, ok) =
          look_up_lem s.acl_mount_device_ids no_mount_def mount_def_is_valid s.acl_mount_def
            no_mount_def-invalid id c.mount_defs h.mount_defs_ok in
        (
          ap (or_else no_mount_def) e,
          record {
            mount_defs_ok = ok;
            users_ok = h.users_ok;
            rules_ok = h.rules_ok;
            flatten_ok = h.flatten_ok;
          },
        )

    pub access_role_rules_lem :
        (name : Str) (c : Cache)
        → IsCurrent groups fuel c
        → ((access_role_rules s name c).0 ≡ rules_of name)
          × IsCurrent groups fuel (access_role_rules s name c).1
    unfolding access_role_rules first_of
    access_role_rules_lem name c h =
        let (e, ok) =
          look_up_lem s.acl_access_roles ([], false) second (loaded_rules s) refl name
            c.access_rules h.rules_ok in
        (
          ap first_of e,
          record {
            mount_defs_ok = h.mount_defs_ok;
            users_ok = h.users_ok;
            rules_ok = ok;
            flatten_ok = h.flatten_ok;
          },
        )

    pub user_flatten_roles_lem :
        (k : Str) (given l : List Str) (c : Cache)
        → IsCurrent groups fuel c
        → key_roles groups k ≡ given
        → flatten (sub_roles s) fuel given ≡ some l
        → (c' : Cache) × (user_flatten_roles s fuel k given c ≡ some (l, c'))
          × IsCurrent groups fuel c'
    unfolding user_flatten_roles
    user_flatten_roles_lem k given l c h e f = elim (Option-cases (find k c.flatten_roles)) [
      | inr (l', n) ↦
          let same : l' ≡ l = ground (arith, h.flatten_ok k l' n) in (c, rw (n, same) refl, h)
      | inl n ↦ (
        record c { flatten_roles = insert k l c.flatten_roles },
        rw (n, f) refl,
        record {
          mount_defs_ok = h.mount_defs_ok;
          users_ok = h.users_ok;
          rules_ok = h.rules_ok;
          flatten_ok = λ j m g. elim (Bool-cases (streq k j)) [
            | inr d ↦ h.flatten_ok j m (ground (arith, find-insert j k l c.flatten_roles))
            | inl d ↦
                let same : some l ≡ some m = ground (arith, find-insert j k l c.flatten_roles) in
                ap (λ t. flatten (sub_roles s) fuel (key_roles groups t))
                  (sym ((streq_iff k j).0 d))
                ∙ ap (flatten (sub_roles s) fuel) e
                ∙ f
                ∙ same
          ];
        },
      )
    ]

-- A setter that did not throw left a cache that answers what is stored.
abbrev pub IsStored : Dict (List Str) → ℕ → Stored → Type 0
IsStored groups fuel none = ⊥
IsStored groups fuel (some (s, c)) = IsCurrent s groups fuel c

-- Clearing the cache, and setting a mount point, a user, a role or the rules of a role in a
-- storage that takes nothing but that, keep a cache that answers what is stored.
pub setters-IsCurrent :
    (s : Storage) (groups : Dict (List Str)) (fuel : ℕ) (c : Cache)
    → IsCurrent s groups fuel c
    → (mount_ids : List Str) (mount : Str → MountDef) (users : List Str) (u : Str → AclUser)
      (roles : List Str) (r : Str → AclRole) (access_roles : List Str)
      (rules : Str → List AccessRule)
    → IsCurrent s groups fuel no_cache
      × IsStored groups fuel (
          set_mount_def
            (some (record s { acl_mount_device_ids = mount_ids; acl_mount_def = mount }))
            c)
      × IsStored groups fuel (set_user (some (record s { acl_users = users; acl_user = u })) c)
      × IsStored groups fuel (set_role (some (record s { acl_roles = roles; acl_role = r })) c)
      × IsStored groups fuel (
          set_access_role_rules
            (some (record s { acl_access_roles = access_roles; acl_access_role_rules = rules }))
            c)
unfolding set_mount_def set_user set_role set_access_role_rules find
setters-IsCurrent s groups fuel c h mount_ids mount users u roles r access_roles rules = (
  record {
    mount_defs_ok = inl refl;
    users_ok = inl refl;
    rules_ok = inl refl;
    flatten_ok = λ k l e. cc;
  },
  record {
    mount_defs_ok = inl refl;
    users_ok = h.users_ok;
    rules_ok = h.rules_ok;
    flatten_ok = h.flatten_ok;
  },
  record {
    mount_defs_ok = h.mount_defs_ok;
    users_ok = inl refl;
    rules_ok = h.rules_ok;
    flatten_ok = λ k l e. cc;
  },
  record {
    mount_defs_ok = h.mount_defs_ok;
    users_ok = h.users_ok;
    rules_ok = h.rules_ok;
    flatten_ok = λ k l e. cc;
  },
  record {
    mount_defs_ok = h.mount_defs_ok;
    users_ok = h.users_ok;
    rules_ok = inl refl;
    flatten_ok = h.flatten_ok;
  },
)
