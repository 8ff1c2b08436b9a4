-- ===== src/Tests/Grants.antt =====
-- Access grants at concrete texts and levels.
use libshv.Base.{
  ◌≡◌, refl, ◌≤◌, ◌⊎◌, ◌≢◌, some, List, [], ◌∷◌, Str, codes, arith, contains, streq, All,
}
use libshv.Base.Int.{pos}
use libshv.Rpc.Value.{no_meta}
use libshv.Access.Level.{level_from_int, level_from_string, level_to_string}
use libshv.Access.Tokens.{parts, join}
use libshv.Access.Grant.{or_none, from_shv2_access, to_shv2_access}
use libshv.Access.RoundTrip.{
  Bounds, Names, IsAccessPart, from_shv2_access_highest, from_shv2_access-to_shv2_access,
}
use libshv.Rpc.Grants.{
  set_access_grant, access_grant, access_grant-set_access_grant, access_grant_unnamed,
}
use libshv.Tests.Data.{test_floats}

-- "rd,wr,foo"
abbrev rd_wr_foo : Str
rd_wr_foo = codes "rd,wr,foo"

-- The access texts "foo" and "bar".
abbrev foo_bar : List Str
foo_bar = codes "foo" ∷ codes "bar" ∷ []

foo_bar-IsAccessPart : All IsAccessPart foo_bar
unfolding level_from_string contains streq
foo_bar-IsAccessPart = (
  record { nonempty = λ h. cc; is_part = refl; no_level = refl },
  (record { nonempty = λ h. cc; is_part = refl; no_level = refl }, tt),
)

rd_is_8 : level_from_string (codes "rd") ≡ some 8
unfolding level_from_string streq
rd_is_8 = refl

write_is_named : level_to_string 16 ≢ []
unfolding level_to_string
write_is_named h = cc

five_is_unnamed : level_to_string 5 ≡ []
unfolding level_to_string
five_is_unnamed = refl

eight_le_write : or_none (level_from_int (pos 8)) ≤ 16
unfolding level_from_int
eight_le_write = omega arith

from_shv2_access_highest_example :
    (or_none (level_from_int (pos 1)) ≤ (from_shv2_access rd_wr_foo (pos 1)).access_level)
    × All (Bounds (from_shv2_access rd_wr_foo (pos 1)).access_level) (parts rd_wr_foo)
    × (((from_shv2_access rd_wr_foo (pos 1)).access_level ≡ or_none (level_from_int (pos 1)))
        ⊎ Names (from_shv2_access rd_wr_foo (pos 1)).access_level (parts rd_wr_foo))
from_shv2_access_highest_example = from_shv2_access_highest rd_wr_foo (pos 1)

from_shv2_access-to_shv2_access_example :
    from_shv2_access (to_shv2_access (record { access_level = 16; access = join foo_bar })) (pos 8)
    ≡ record { access_level = 16; access = join foo_bar }
from_shv2_access-to_shv2_access_example =
    from_shv2_access-to_shv2_access 16 foo_bar (pos 8) write_is_named foo_bar-IsAccessPart
      eight_le_write

access_grant-set_access_grant_example :
    access_grant (set_access_grant no_meta (record { access_level = 16; access = join foo_bar }))
    ≡ record { access_level = 16; access = join foo_bar }
access_grant-set_access_grant_example =
    access_grant-set_access_grant no_meta 16 foo_bar (omega arith) write_is_named
      foo_bar-IsAccessPart

access_grant_unnamed_example :
    access_grant (set_access_grant no_meta (record { access_level = 5; access = codes "foo" }))
    ≡ record { access_level = 5; access = [] }
access_grant_unnamed_example =
    access_grant_unnamed no_meta 5 (codes "foo") (omega arith) five_is_unnamed
