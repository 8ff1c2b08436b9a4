-- ===== src/Access/Grant.antt =====
-- `AccessGrant` of libshvchainpack/src/accessgrant.cpp.
use libshv.Base.{
  ℕ, zero, suc, Option, none, some, [], ◌∷◌, ◌++◌, Str, ltb, if◌then◌else◌, length, is_nil,
}
use libshv.Base.Int.{ℤ}
use libshv.Access.Level.{AccessLevel, level_from_int, level_from_string, level_to_string}
use libshv.Access.Tokens.{comma, before_comma, after_comma}

pub record AccessGrant : Type 0 where
  pub access_level : AccessLevel
  pub access : Str

-- `value_or(AccessLevel::None)`
abbrev pub or_none : Option AccessLevel → AccessLevel
or_none none = 0
or_none (some l) = l

-- The text with one more part: a comma stands between two.
abbrev pub add_access : Str → Str → Str
add_access [] t = t
add_access (c ∷ s) t = (c ∷ s) ++ (comma ∷ t)

-- What a part does to the grant: the higher level is kept, another text is added.
abbrev apply_level : Option AccessLevel → AccessGrant → Str → AccessGrant
apply_level (some l) g t = if ltb g.access_level l then record g { access_level = l } else g
apply_level none g t = record g { access = add_access g.access t }

unfoldable pub apply_part : AccessGrant → Str → AccessGrant
apply_part g [] = g
apply_part g (c ∷ t) = apply_level (level_from_string (c ∷ t)) g (c ∷ t)

-- `while (!shv2_access.empty())`, one part a round; the text gets shorter, so its length is
-- enough fuel.
unfoldable pub from_loop : ℕ → Str → AccessGrant → AccessGrant
from_loop fuel [] g = g
from_loop zero (c ∷ s) g = g
from_loop (suc fuel) (c ∷ s) g =
    from_loop fuel (after_comma (c ∷ s)) (apply_part g (before_comma (c ∷ s)))

abbrev pub init_grant : ℤ → AccessGrant
init_grant i = record { access_level = or_none (level_from_int i); access = [] }

-- `fromShv2Access`
unfoldable pub from_shv2_access : Str → ℤ → AccessGrant
from_shv2_access s i = from_loop (length s) s (init_grant i)

-- `toShv2Access`: nothing at all for a level without a role.
unfoldable pub to_shv2_access : AccessGrant → Str
to_shv2_access g =
    let level = level_to_string g.access_level in
    if is_nil level then [] else if is_nil g.access then level else level ++ (comma ∷ g.access)
