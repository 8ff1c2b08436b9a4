-- ===== src/Rpc/Grants.antt =====
-- The access grant in a message's meta data: `accessGrant` and `setAccessGrant` of `RpcMessage`.
use libshv.Base.{
  ◌≡◌, ◌≢◌, refl, sym, ap, ◌∙◌, arith, List, [], ◌∷◌, Str, ◌<◌, ◌==◌, All, Bool-cases, inl, inr,
  ==_iff,
}
use libshv.Base.Int.{pos, eqb_ℤ, to_int32_of_IsInt32}
use libshv.Access.Level.{AccessLevel, level_to_string, level_from_int-of_lt}
use libshv.Access.Grant.{AccessGrant, from_loop, from_shv2_access, to_shv2_access}
use libshv.Access.Tokens.{join}
use libshv.Access.RoundTrip.{IsAccessPart, from_shv2_access-to_shv2_access}
use libshv.Rpc.Value.{invalid, int, string, MetaData, plain, is_valid}
use libshv.Rpc.Convert.{Floats, to_int, integer, as_string}
use libshv.Rpc.Meta.{meta_value-meta_set, meta_value-meta_set_invalid}
use libshv.Rpc.Tags.{
  tag_access, tag_access_level, access, set_access, access_level, set_access_level,
}

-- `setAccessGrant`
unfoldable pub set_access_grant : MetaData → AccessGrant → MetaData
set_access_grant m g = set_access (set_access_level m g.access_level) (to_shv2_access g)

access-set_access : (m : MetaData) (s : Str) → access (set_access m s) ≡ s
unfolding access set_access is_valid eqb_ℤ
access-set_access m [] =
    ap as_string (meta_value-meta_set_invalid m tag_access tag_access (plain invalid) refl)
    ∙ (unfold as_string in refl)
access-set_access m (c ∷ s) =
    ap as_string (meta_value-meta_set m tag_access tag_access (plain (string (c ∷ s))) refl)
    ∙ (unfold as_string in refl)

module _ ⦃floats : Floats⦄ where
  -- `accessGrant`
  unfoldable pub access_grant : MetaData → AccessGrant
  access_grant m = from_shv2_access (access m) (access_level m)

  access_level-set_access :
      (m : MetaData) (s : Str) → access_level (set_access m s) ≡ access_level m
  unfolding access_level set_access is_valid eqb_ℤ
  access_level-set_access m [] =
      ap to_int (meta_value-meta_set_invalid m tag_access tag_access_level (plain invalid) refl)
  access_level-set_access m (c ∷ s) =
      ap to_int (meta_value-meta_set m tag_access tag_access_level (plain (string (c ∷ s))) refl)

  access_level-set_access_level :
      (m : MetaData) (l : AccessLevel) → l < 64 → access_level (set_access_level m l) ≡ pos l
  unfolding access_level set_access_level eqb_ℤ is_valid
  access_level-set_access_level m l h = elim (Bool-cases (l == 0)) [
    | inl e ↦
        rw e (
          ap to_int
            (meta_value-meta_set_invalid m tag_access_level tag_access_level (plain invalid) refl))
        ∙ zero_int
        ∙ ap pos (sym ((==_iff l 0).0 e))
    | inr e ↦
        rw e (
          ap to_int
            (meta_value-meta_set m tag_access_level tag_access_level (plain (int (pos l))) refl))
        ∙ small_int
  ]
    where
      zero_int : to_int (plain invalid) ≡ pos 0
      zero_int = unfold to_int integer in to_int32_of_IsInt32 (pos 0) (omega arith)

      small_int : to_int (plain (int (pos l))) ≡ pos l
      small_int = unfold to_int integer in to_int32_of_IsInt32 (pos l) (omega arith)

  access_grant-form :
      (m : MetaData) (g : AccessGrant)
      → g.access_level < 64
      → access_grant (set_access_grant m g)
        ≡ from_shv2_access (to_shv2_access g) (pos g.access_level)
  unfolding access_grant set_access_grant
  access_grant-form m g h =
      rw (
        access-set_access,
        access_level-set_access,
        access_level-set_access_level m g.access_level h,
      )

  -- A grant with a named level, whose access text is made of access parts, is set in any meta data
  -- and read back as it was.
  pub access_grant-set_access_grant :
      (m : MetaData) (l : AccessLevel) (ts : List Str)
      → l < 64
      → level_to_string l ≢ []
      → All IsAccessPart ts
      → access_grant (set_access_grant m (record { access_level = l; access = join ts }))
        ≡ record { access_level = l; access = join ts }
  access_grant-set_access_grant m l ts h named hs =
      access_grant-form m (record { access_level = l; access = join ts }) h
      ∙ from_shv2_access-to_shv2_access l ts (pos l) named hs
          (rw (level_from_int-of_lt l h) (omega arith))

  -- Of a grant whose level from 0 to 63 has no role the level alone is read back: the access text
  -- that was set with it is lost.
  pub access_grant_unnamed :
      (m : MetaData) (l : AccessLevel) (a : Str)
      → l < 64
      → level_to_string l ≡ []
      → access_grant (set_access_grant m (record { access_level = l; access = a }))
        ≡ record { access_level = l; access = [] }
  access_grant_unnamed m l a h unnamed =
      access_grant-form m (record { access_level = l; access = a }) h ∙ nothing
    where
      nothing :
          from_shv2_access (to_shv2_access (record { access_level = l; access = a })) (pos l)
          ≡ record { access_level = l; access = [] }
      nothing =
          unfold to_shv2_access from_shv2_access from_loop in rw (unnamed, level_from_int-of_lt l h)
