-- ===== src/Acl/CheckPassword.antt =====
-- `AclManager::checkPassword` of libshvbroker/src/aclmanager.cpp. SHA-1, as hexadecimal text
-- (`sha1Hex`, `QCryptographicHash`), is the parameter `sha1_hex`.
use libshv.Base.{
  ℕ, ◌≡◌, ◌↔◌, inl, inr, refl, sym, ◌∙◌, Bool, true, false, not, if◌then◌else◌, Option, none, some,
  List, [], ◌++◌, Str, codes, is_nil, streq, streq_iff, streq_refl, Bool-cases,
}
use libshv.Base.Dict.{Dict}
use libshv.Rpc.Login.{
  UserLogin, LoginType, login_invalid, login_plain, login_sha1, login_rsa_oaep, login_none,
  login_azure, login_token,
}
use libshv.Acl.Password.{Format, format_invalid, format_plain, format_sha1}
use libshv.Acl.User.{AclUser, user_is_valid}
use libshv.Acl.Manager.{Storage, Cache, user}
use libshv.Acl.Coherence.{IsCurrent, user_of, user_lem}

-- `UserLoginResult`, with the fields that its constructors set
pub record LoginResult : Type 0 where
  pub password_ok : Bool
  pub login_error : Str

abbrev failed : Str → LoginResult
failed e = record { password_ok = false; login_error = e }

-- The end of each comparison of passwords.
abbrev compared : Bool → LoginResult
compared true = record { password_ok = true; login_error = [] }
compared false = failed (codes "Invalid password.")

abbrev unsupported : LoginResult
unsupported = failed (codes "Invalid login type.")

-- The type of a login without one is SHA1.
abbrev pub used_type : LoginType → LoginType
used_type login_invalid = login_sha1
used_type t = t

clash {ℓ} : {A : Type ℓ} → true ≡ false → A
clash h = absurd cc

module _ (sha1_hex : Str → Str) where
  -- The stored password, hashed if it is stored as it is.
  abbrev pub stored_hash : Format → Str → Str
  stored_hash format_plain stored = sha1_hex stored
  stored_hash _ stored = stored

  abbrev check_plain : Format → Str → Str → LoginResult
  check_plain format_plain stored sent = compared (streq stored sent)
  check_plain format_sha1 stored sent = compared (streq stored (sha1_hex sent))
  check_plain format_invalid stored sent = unsupported

  abbrev check_sha1 : Option Str → Format → Str → Str → LoginResult
  check_sha1 none format stored sent =
      failed (codes "Can't use SHA1 login without using `:hello` first")
  check_sha1 (some n) format stored sent =
      compared (streq sent (sha1_hex (n ++ stored_hash format stored)))

  abbrev check_type : LoginType → Option Str → Format → Str → Str → LoginResult
  check_type login_plain given format stored sent = check_plain format stored sent
  check_type login_sha1 given format stored sent = check_sha1 given format stored sent
  check_type _ given format stored sent = unsupported

  abbrev check_user : AclUser → UserLogin → Option Str → LoginResult
  check_user u login given =
      if not (user_is_valid u)
      then failed (codes "Invalid user name.")
      else if is_nil u.password.password
      then failed (codes "Empty password not allowed.")
      else check_type (used_type login.login_type) given u.password.format u.password.password
          login.password

  -- `checkPassword` of a login and of the nonce that the server gave, if it did
  unfoldable pub check_password : Storage → UserLogin → Option Str → Cache → LoginResult × Cache
  check_password s login given c =
      let (u, c') = user s login.user c in (check_user u login given, c')

  -- What proves that the sender of a login knows a stored password.
  pub data Proves (t : LoginType) (given : Option Str) (format : Format) (stored sent : Str)
      : Type 0 where
    -- the password in plain text, stored as it is or as its hash
    by_text :
        t ≡ login_plain → format ≡ format_plain → stored ≡ sent → Proves t given format stored sent
    by_hashed :
        t ≡ login_plain
        → format ≡ format_sha1
        → stored ≡ sha1_hex sent
        → Proves t given format stored sent
    -- the hash of the server's nonce and of the hash of the password
    by_nonce :
        (n : Str)
        → t ≡ login_sha1
        → given ≡ some n
        → sent ≡ sha1_hex (n ++ stored_hash format stored)
        → Proves t given format stored sent

  pub record IsAuthentic (u : AclUser) (login : UserLogin) (given : Option Str) : Type 0 where
    pub valid : user_is_valid u ≡ true
    pub nonempty : is_nil u.password.password ≡ false
    pub proof :
        Proves
          (used_type login.login_type)
          given
          u.password.format
          u.password.password
          login.password

  compared_ok : (a b : Str) → (compared (streq a b)).password_ok ≡ true → a ≡ b
  compared_ok a b h = elim (Bool-cases (streq a b)) [
    | inl e ↦ (streq_iff a b).0 e
    | inr e ↦ clash (sym h ∙ rw e refl)
  ]

  check_type-Proves :
      (t : LoginType) (given : Option Str) (format : Format) (stored sent : Str)
      → (check_type t given format stored sent).password_ok ≡ true
      → Proves t given format stored sent
  check_type-Proves login_plain given format_plain stored sent h =
      by_text refl refl (compared_ok stored sent h)
  check_type-Proves login_plain given format_sha1 stored sent h =
      by_hashed refl refl (compared_ok stored (sha1_hex sent) h)
  check_type-Proves login_sha1 (some n) format stored sent h =
      by_nonce n refl refl (compared_ok sent (sha1_hex (n ++ stored_hash format stored)) h)
  check_type-Proves login_plain given format_invalid stored sent h = cc
  check_type-Proves login_sha1 none format stored sent h = cc
  check_type-Proves login_invalid given format stored sent h = cc
  check_type-Proves login_rsa_oaep given format stored sent h = cc
  check_type-Proves login_none given format stored sent h = cc
  check_type-Proves login_azure given format stored sent h = cc
  check_type-Proves login_token given format stored sent h = cc

  Proves-check_type :
      (t : LoginType) (given : Option Str) (format : Format) (stored sent : Str)
      → Proves t given format stored sent
      → (check_type t given format stored sent).password_ok ≡ true
  Proves-check_type t given format stored sent (by_text e f g) = rw (e, f, g, streq_refl sent) refl
  Proves-check_type t given format stored sent (by_hashed e f g) =
      rw (e, f, g, streq_refl (sha1_hex sent)) refl
  Proves-check_type t given format stored sent (by_nonce n e f g) =
      rw (e, f, g, streq_refl (sha1_hex (n ++ stored_hash format stored))) refl

  check_user-IsAuthentic :
      (u : AclUser) (login : UserLogin) (given : Option Str)
      → ((check_user u login given).password_ok ≡ true) ↔ IsAuthentic u login given
  check_user-IsAuthentic u login given = elim (Bool-cases (user_is_valid u)) [
    | inr v ↦ (λ h. clash (sym h ∙ rw v refl), λ a. clash (sym a.valid ∙ v))
    | inl v ↦ elim (Bool-cases (is_nil u.password.password)) [
      | inl n ↦ (λ h. clash (sym h ∙ rw (v, n) refl), λ a. clash (sym n ∙ a.nonempty))
      | inr n ↦ (
        λ h. record {
          valid = v;
          nonempty = n;
          proof =
              check_type-Proves (used_type login.login_type) given u.password.format
                u.password.password login.password (sym (rw (v, n) refl) ∙ h);
        },
        λ a.
            rw (v, n)
              (Proves-check_type (used_type login.login_type) given u.password.format
                u.password.password login.password a.proof),
      )
    ]
  ]

  -- If the cache answers what is stored, a login is accepted exactly if its user is stored, has a
  -- password that is not empty, and the login proves knowledge of it; the cache goes on to answer
  -- what is stored.
  pub check_password-IsAuthentic :
      (s : Storage) (groups : Dict (List Str)) (fuel : ℕ) (login : UserLogin) (given : Option Str)
      (c : Cache)
      → IsCurrent s groups fuel c
      → (((check_password s login given c).0.password_ok ≡ true)
          ↔ IsAuthentic (user_of s login.user) login given)
        × IsCurrent s groups fuel (check_password s login given c).1
  unfolding check_password
  check_password-IsAuthentic s groups fuel login given c h =
      let (e, ok) = user_lem s groups fuel login.user c h in
      (rw e (check_user-IsAuthentic (user_of s login.user) login given), ok)
