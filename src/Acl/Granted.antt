-- ===== src/Acl/Granted.antt =====
-- The grant that a broker gives is the one of the first stored rule that matches, whatever the
-- caches hold.
use libshv.Base.{
  ℕ, ◌≡◌, inl, inr, refl, sym, ap, ◌∙◌, Bool, true, false, ◌&&◌, if◌then◌else◌, Option, none, some,
  List, [], ◌∷◌, ◌++◌, Str, codes, ltb, starts_with, streq, arith, Bool-cases, Option-cases,
}
use libshv.Base.Dict.{Dict, find}
use libshv.Access.Grant.{AccessGrant}
use libshv.Acl.User.{user_is_valid}
use libshv.Acl.Flatten.{flatten}
use libshv.Acl.Manager.{
  Storage, Cache, user, access_role_rules, sub_roles, flatten_role, azure_user_flatten_roles,
  role_key, azure_key,
}
use libshv.Acl.Coherence.{
  user_of, rules_of, key_roles, IsCurrent, user_lem, access_role_rules_lem, user_flatten_roles_lem,
}
use libshv.Acl.Resolve.{
  role_master_broker, dir_broker_app, current_client_path, write_grant, grant_of, find_rule,
  search_rules, client_roles, with_roles, access_grant_for_shv_path,
}
use libshv.Broker.Rule.{AccessRule}

module _ (path method : Str) where
  find_rule-append_none :
      (xs ys : List AccessRule)
      → find_rule path method xs ≡ none
      → find_rule path method (xs ++ ys) ≡ find_rule path method ys
  unfolding find_rule
  find_rule-append_none [] ys h = refl
  find_rule-append_none (x ∷ xs) ys h = ground (arith, find_rule-append_none xs ys)

  find_rule-append_some :
      (xs ys : List AccessRule) (r : AccessRule)
      → find_rule path method xs ≡ some r
      → find_rule path method (xs ++ ys) ≡ some r
  unfolding find_rule
  find_rule-append_some [] ys r h = cc
  find_rule-append_some (x ∷ xs) ys r h = ground (arith, find_rule-append_some xs ys r)

module _ (s : Storage) (groups : Dict (List Str)) (fuel : ℕ) where
  -- The rules of the roles, one role after the other.
  abbrev pub all_rules : List Str → List AccessRule
  all_rules [] = []
  all_rules (r ∷ rs) = rules_of s r ++ all_rules rs

  abbrev group_spec : Option (List Str) → Option (List Str)
  group_spec none = some []
  group_spec (some group) = flatten (sub_roles s) fuel group

  -- The roles that the stored definitions give to the sender of a request.
  abbrev pub roles_spec : Str → Bool → Option (List Str)
  roles_spec name true = flatten (sub_roles s) fuel (role_master_broker ∷ [])
  roles_spec name false =
      if user_is_valid (user_of s name)
      then flatten (sub_roles s) fuel (user_of s name).roles
      else group_spec (find name groups)

  -- The grant that the stored definitions give, for such roles.
  abbrev pub grant_spec : List Str → Str → Str → Bool → AccessGrant → AccessGrant
  grant_spec roles path method from_master grant =
      if from_master && ltb 0 grant.access_level
      then grant
      else if from_master && streq path dir_broker_app
      then write_grant
      else if streq path current_client_path
      then write_grant
      else grant_of (find_rule path method (all_rules roles))

  search_rules_lem :
      (path method : Str) (roles : List Str) (c : Cache)
      → IsCurrent s groups fuel c
      → ((search_rules path method s roles c).0 ≡ find_rule path method (all_rules roles))
        × IsCurrent s groups fuel (search_rules path method s roles c).1
  unfolding search_rules
  search_rules_lem path method [] c h = ((unfold find_rule in refl), h)
  search_rules_lem path method (r ∷ rs) c h =
      let (e, ok) = access_role_rules_lem s groups fuel r c h in
      elim (Option-cases (find_rule path method (rules_of s r))) [
        | inl n ↦
            let (found, ok') = search_rules_lem path method rs (access_role_rules s r c).1 ok in
            rw (ap (find_rule path method) e ∙ n)
              (found ∙ sym (find_rule-append_none path method (rules_of s r) (all_rules rs) n), ok')
        | inr (hit, n) ↦
            rw (ap (find_rule path method) e ∙ n)
              (sym (find_rule-append_some path method (rules_of s r) (all_rules rs) hit n), ok)
      ]

  azure_key-roles :
      (name : Str) (group : List Str)
      → find name groups ≡ some group
      → key_roles s groups (azure_key s name) ≡ group
  unfolding starts_with
  azure_key-roles name group h = rw h refl

  role_key-roles : (r : Str) → key_roles s groups (role_key s r) ≡ r ∷ []
  unfolding starts_with
  role_key-roles r = refl

  -- No name of a role or of an Azure user in the cache of flattened roles.
  pub record IsPlainName (name : Str) : Type 0 where
    pub no_role : starts_with name (codes "_Role#Key:") ≡ false
    pub no_azure : starts_with name (codes "_Azure#Key:") ≡ false

  client_roles_lem :
      (name : Str) (l : List Str) (c : Cache)
      → IsCurrent s groups fuel c
      → IsPlainName name
      → roles_spec name false ≡ some l
      → (c' : Cache) × (client_roles fuel s groups name c ≡ some (l, c'))
        × IsCurrent s groups fuel c'
  unfolding client_roles azure_user_flatten_roles
  client_roles_lem name l c h plain e =
      let (u, ok) = user_lem s groups fuel name c h in
      elim (Bool-cases (user_is_valid (user_of s name))) [
        | inl v ↦
            let roles : flatten (sub_roles s) fuel (user_of s name).roles ≡ some l =
              sym (rw v) ∙ e in
            let (c', f, ok') =
              user_flatten_roles_lem s groups fuel name (user_of s name).roles l (user s name c).1
                ok (rw (plain.no_role, plain.no_azure) refl) roles in
            (c', rw (u, v) f, ok')
        | inr v ↦ elim (Option-cases (find name groups)) [
          | inl n ↦
              let empty : ◌≡◌ {A = Option (List Str)} (some []) (some l) = sym (rw (v, n)) ∙ e in
              let same : ◌≡◌ {A = List Str} [] l = cc in
              ((user s name c).1, rw (u, v, n, same) refl, ok)
          | inr (group, n) ↦
              let roles : flatten (sub_roles s) fuel group ≡ some l = sym (rw (v, n)) ∙ e in
              let (c', f, ok') =
                user_flatten_roles_lem s groups fuel (azure_key s name) group l (user s name c).1 ok
                  (azure_key-roles name group n) roles in
              (c', rw (u, v, n) f, ok')
        ]
      ]

  rules_lem :
      (path method : Str) (roles : List Str) (c : Cache)
      → IsCurrent s groups fuel c
      → (c' : Cache) × (with_roles s path method (some (roles, c))
          ≡ some (
            if streq path current_client_path
                then write_grant
                else grant_of (find_rule path method (all_rules roles)),
            c',
          ))
        × IsCurrent s groups fuel c'
  rules_lem path method roles c h = elim (Bool-cases (streq path current_client_path)) [
    | inl m ↦ (c, rw m refl, h)
    | inr m ↦
        let (found, ok) = search_rules_lem path method roles c h in
        ((search_rules path method s roles c).1, rw (m, found) refl, ok)
  ]

  -- If the cache answers what is stored, the user's name is no key of a role or an Azure user in it,
  -- and the stored definitions give the sender some flattened roles, accessGrantForShvPath answers
  -- the grant that they give to these roles, and the cache goes on to answer what is stored.
  pub access_grant_for_shv_path-IsCurrent :
      (name path method : Str) (from_master : Bool) (grant : AccessGrant) (roles : List Str)
      (c : Cache)
      → IsCurrent s groups fuel c
      → IsPlainName name
      → roles_spec name from_master ≡ some roles
      → (c' : Cache) × (access_grant_for_shv_path fuel s groups name path method from_master grant c
          ≡ some (grant_spec roles path method from_master grant, c'))
        × IsCurrent s groups fuel c'
  unfolding access_grant_for_shv_path flatten_role
  access_grant_for_shv_path-IsCurrent name path method true grant roles c h plain e =
      elim (Bool-cases (ltb 0 grant.access_level)) [
        | inl l ↦ (c, rw l refl, h)
        | inr l ↦ elim (Bool-cases (streq path dir_broker_app)) [
          | inl a ↦ (c, rw (l, a) refl, h)
          | inr a ↦
              let (c₁, f, ok) =
                user_flatten_roles_lem s groups fuel (role_key s role_master_broker)
                  (role_master_broker ∷ []) roles c h (role_key-roles role_master_broker) e in
              let (c', g, ok') = rules_lem path method roles c₁ ok in
              (c', rw (l, a, f, g) refl, ok')
        ]
      ]
  access_grant_for_shv_path-IsCurrent name path method false grant roles c h plain e =
      let (c₁, f, ok) = client_roles_lem name roles c h plain e in
      let (c', g, ok') = rules_lem path method roles c₁ ok in (c', rw (f, g) refl, ok')
