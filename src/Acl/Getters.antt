-- ===== src/Acl/Getters.antt =====
-- The getters of the access control manager (libshvbroker/src/aclmanager.cpp) and what is stored.
use libshv.Base.{ℕ, ◌≡◌, List, Str}
use libshv.Base.Dict.{Dict}
use libshv.Acl.Manager.{Storage, Cache, user, mount_def, access_role_rules}
use libshv.Acl.Coherence.{
  IsCurrent, user_of, mount_def_of, rules_of, user_lem, mount_def_lem, access_role_rules_lem,
}

-- If the cache answers what is stored, the getters of users, mount points and rules answer the
-- stored definition of a name that the storage lists and a blank one for any other name, and each
-- leaves a cache that answers what is stored.
pub getters-IsCurrent :
    (s : Storage) (groups : Dict (List Str)) (fuel : ℕ) (c : Cache) (name : Str)
    → IsCurrent s groups fuel c
    → ((user s name c).0 ≡ user_of s name)
      × IsCurrent s groups fuel (user s name c).1
      × ((mount_def s name c).0 ≡ mount_def_of s name)
      × IsCurrent s groups fuel (mount_def s name c).1
      × ((access_role_rules s name c).0 ≡ rules_of s name)
      × IsCurrent s groups fuel (access_role_rules s name c).1
getters-IsCurrent s groups fuel c name h =
    let (a, ok_a) = user_lem s groups fuel name c h in
    let (b, ok_b) = mount_def_lem s groups fuel name c h in
    let (r, ok_r) = access_role_rules_lem s groups fuel name c h in (a, ok_a, b, ok_b, r, ok_r)
