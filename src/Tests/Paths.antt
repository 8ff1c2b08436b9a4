-- ===== src/Tests/Paths.antt =====
-- Paths at concrete inputs.
use libshv.Base.{
  Bool, true, false, streq, ◌≡◌, refl, some, List, [], ◌∷◌, Str, codes, All, contains,
}
use libshv.Path.Split.{skip_empty_parts, keep_quotes, split, split_path, join_dirs}
use libshv.Path.Prefix.{delim}
use libshv.Path.Wild.{two_stars, skip_to, match_dirs, match_wild}
use libshv.Path.WildMatch.{Matches, same_dir, any_dirs, IsStarredLast, match_wild_lem}
use libshv.Path.Dirs.{IsDirName, split_path-join_dirs}

-- "a", "b/c", "d"
abbrev dirs : List Str
dirs = codes "a" ∷ codes "b/c" ∷ codes "d" ∷ []

dirs-IsDirName : All IsDirName dirs
unfolding contains
dirs-IsDirName = ((refl, refl), ((refl, refl), ((refl, refl), tt)))

split_path-join_dirs_example : split_path (join_dirs dirs) ≡ some dirs
split_path-join_dirs_example = split_path-join_dirs dirs dirs-IsDirName

match_wild_lem_example :
    (dirs : List Str) × (parts : List Str) × (b : Bool) × (split
        (codes "a/b/c")
        delim
        0
        skip_empty_parts
        keep_quotes
      ≡ some dirs)
    × (split (codes "a/*/**") delim 0 skip_empty_parts keep_quotes ≡ some parts)
    × (match_wild (codes "a/b/c") (codes "a/*/**") ≡ some b)
    × (b ≡ true → Matches dirs parts)
    × (IsStarredLast parts → Matches dirs parts → b ≡ true)
match_wild_lem_example = match_wild_lem (codes "a/b/c") (codes "a/*/**")

-- Two stars with other parts behind them stand for the directories up to the first one that is
-- named like the next part, so not every path that the pattern describes is matched.
first_name_only :
    (match_dirs
        (codes "a" ∷ codes "b" ∷ codes "x" ∷ codes "b" ∷ codes "c" ∷ [])
        (codes "a" ∷ two_stars ∷ codes "b" ∷ codes "c" ∷ [])
      ≡ false)
    × Matches
        (codes "a" ∷ codes "b" ∷ codes "x" ∷ codes "b" ∷ codes "c" ∷ [])
        (codes "a" ∷ two_stars ∷ codes "b" ∷ codes "c" ∷ [])
unfolding match_dirs skip_to streq Matches
first_name_only = (
  refl,
  (
    codes "a" ∷ [],
    codes "b" ∷ codes "x" ∷ codes "b" ∷ codes "c" ∷ [],
    same_dir refl,
    refl,
    (
      codes "b" ∷ codes "x" ∷ [],
      codes "b" ∷ codes "c" ∷ [],
      any_dirs refl,
      refl,
      (
        codes "b" ∷ [],
        codes "c" ∷ [],
        same_dir refl,
        refl,
        (codes "c" ∷ [], [], same_dir refl, refl, refl),
      ),
    ),
  ),
)
