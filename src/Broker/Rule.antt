-- ===== src/Broker/Rule.antt =====
-- `AclAccessRule` of libshviotqt/src/acl/aclroleaccessrules.cpp: which paths and methods an access
-- rule is for.
use libshv.Base.{
  zero, suc, ◌≢◌, sym, ap, ◌∙◌, drop, ℕ, ◌+◌, ◌-◌, ◌≡◌, ◌↔◌, ◌⊎◌, inl, inr, refl, Bool, true, false,
  not, ◌&&◌, ◌||◌, leb, if◌then◌else◌, [], ◌∷◌, ◌++◌, Str, codes, arith, streq, streq_iff,
  streq_refl, is_nil, length, length-append, take, drop-append_self, take-append_self, ends_with,
  Bool-cases,
}
use libshv.Path.Prefix.{starts_with_path, starts_with_path_iff, IsAbove}
use libshv.Broker.Trimming.{take-past}

pub record AccessRule : Type 0 where
  pub path : Str
  pub method : Str
  pub access : Str

-- `isValid`
unfoldable pub rule_is_valid : AccessRule → Bool
rule_is_valid r = not (is_nil r.path) && not (is_nil r.access)

-- `is_wild_card_pattern`
unfoldable pub is_wild_card_pattern : Str → Bool
is_wild_card_pattern path = if streq path (codes "**") then true else ends_with path (codes "/**")

-- The pattern without its stars and the slash in front of them.
unfoldable pub sub_path : Str → Str
sub_path path =
    let trimmed = take (length path - 2) path in
    if is_nil trimmed then trimmed else take (length trimmed - 1) trimmed

-- The method of a rule is empty or the one asked for.
unfoldable pub is_method_match : AccessRule → Str → Bool
is_method_match r method = is_nil r.method || streq r.method method

-- `isPathMethodMatch`
unfoldable pub is_path_method_match : AccessRule → Str → Str → Bool
is_path_method_match r shv_path method =
    if not (is_wild_card_pattern r.path)
    then (if streq shv_path r.path then is_method_match r method else false)
    else if (starts_with_path shv_path (sub_path r.path)).0
    then is_method_match r method
    else false

is_nil_iff : (s : Str) → (is_nil s ≡ true) ↔ (s ≡ [])
is_nil_iff [] = ground arith
is_nil_iff (c ∷ s) = ground arith

is_method_match_iff :
    (r : AccessRule) (method : Str)
    → (is_method_match r method ≡ true) ↔ ((r.method ≡ []) ⊎ (r.method ≡ method))
unfolding is_method_match
is_method_match_iff r method = ground (arith, is_nil_iff r.method, streq_iff r.method method)

-- The stars behind a path.
abbrev pub stars : Str
stars = codes "/**"

subtree-wild : (base : Str) → is_wild_card_pattern (base ++ stars) ≡ true
unfolding is_wild_card_pattern ends_with
subtree-wild base = elim (Bool-cases (streq (base ++ stars) (codes "**"))) [
  | inl e ↦ rw e refl
  | inr e ↦
      let long : leb (length stars) (length (base ++ stars)) ≡ true =
        ground (arith, length-append base stars) in
      let n : length (base ++ stars) - length stars ≡ length base =
        omega (arith, length-append base stars) in
      rw (e, long, n, drop-append_self base stars) (streq_refl stars)
]

is_nil-append_one : (base : Str) (c : ℕ) → is_nil (base ++ (c ∷ [])) ≡ false
is_nil-append_one [] c = refl
is_nil-append_one (d ∷ base) c = refl

sub_path-subtree : (base : Str) → sub_path (base ++ stars) ≡ base
unfolding sub_path
sub_path-subtree base =
    let n : length (base ++ stars) - 2 ≡ length base + 1 =
      omega (arith, length-append base stars) in
    let slash : take (length (base ++ stars) - 2) (base ++ stars) ≡ base ++ (0x2F ∷ []) =
      take-past base stars (length (base ++ stars) - 2) 1 n in
    let m : length (base ++ (0x2F ∷ [])) - 1 ≡ length base =
      omega (arith, length-append base (0x2F ∷ [])) in
    rw slash (rw (is_nil-append_one base 0x2F, m) (take-append_self base (0x2F ∷ [])))

-- A rule for a path with the stars behind it is for exactly the paths below that path and the path
-- itself, with the rule's method, or with any method if the rule has none.
pub is_path_method_match-subtree :
    (base rule_method access shv_path method : Str)
    → (is_path_method_match
          (record { path = base ++ stars; method = rule_method; access = access })
          shv_path
          method
        ≡ true)
      ↔ (IsAbove base shv_path × ((rule_method ≡ []) ⊎ (rule_method ≡ method)))
unfolding is_path_method_match
is_path_method_match-subtree base rule_method access shv_path method =
    let r : AccessRule = record { path = base ++ stars; method = rule_method; access = access } in
    rw (subtree-wild base, sub_path-subtree base)
      (ground (arith, starts_with_path_iff shv_path base, is_method_match_iff r method))

take-drop : (n : ℕ) (s : Str) → take n s ++ drop n s ≡ s
take-drop zero s = refl
take-drop (suc n) [] = refl
take-drop (suc n) (c ∷ s) = ap (λ t. c ∷ t) (take-drop n s)

ends_with-suffix : (s t : Str) → ends_with s t ≡ true → (base : Str) × (s ≡ base ++ t)
unfolding ends_with
ends_with-suffix s t h =
    let tail : drop (length s - length t) s ≡ t =
      ground (arith, streq_iff (drop (length s - length t) s) t) in
    (
      take (length s - length t) s,
      sym (take-drop (length s - length t) s) ∙ ap (λ r. take (length s - length t) s ++ r) tail,
    )

not_wild :
    (path : Str)
    → path ≢ codes "**"
    → ((base : Str) → path ≢ base ++ stars)
    → is_wild_card_pattern path ≡ false
unfolding is_wild_card_pattern
not_wild path h₁ h₂ = elim (Bool-cases (streq path (codes "**"))) [
  | inl e ↦ absurd (h₁ ((streq_iff path (codes "**")).0 e))
  | inr e ↦ elim (Bool-cases (ends_with path stars)) [
    | inr e₁ ↦ rw (e, e₁) refl
    | inl e₁ ↦ (let (base, s) = ends_with-suffix path stars e₁ in absurd (h₂ base s))
  ]
]

-- A rule for a path that is not `**` and does not end with `/**` is for exactly that path, with the
-- rule's method, or with any method if the rule has none.
pub is_path_method_match-exact :
    (r : AccessRule) (shv_path method : Str)
    → r.path ≢ codes "**"
    → ((base : Str) → r.path ≢ base ++ stars)
    → (is_path_method_match r shv_path method ≡ true)
      ↔ ((shv_path ≡ r.path) × ((r.method ≡ []) ⊎ (r.method ≡ method)))
unfolding is_path_method_match
is_path_method_match-exact r shv_path method h₁ h₂ =
    rw (not_wild r.path h₁ h₂)
      (ground (arith, streq_iff shv_path r.path, is_method_match_iff r method))
