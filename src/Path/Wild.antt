-- ===== src/Path/Wild.antt =====
-- `ShvPath::matchWild` of libshvcore/src/utils/shvpath.cpp.
use libshv.Base.{
  Bool, true, false, ◌&&◌, if◌then◌else◌, Option, none, some, List, [], ◌∷◌, Str, codes, streq,
  is_nil,
}
use libshv.Path.Prefix.{delim}
use libshv.Path.Split.{skip_empty_parts, keep_quotes, split}

-- The pattern of one directory, and that of any number of them.
abbrev pub star : Str
star = codes "*"

abbrev pub two_stars : Str
two_stars = codes "**"

-- The loop that looks for a directory: the path behind the first one of this name.
unfoldable pub skip_to : Str → List Str → Option (List Str)
skip_to d [] = none
skip_to d (p ∷ path) = let rest = skip_to d path in if streq p d then some path else rest

abbrev pub matches_behind : Option (List Str) → (List Str → Bool) → Bool
matches_behind none next = false
matches_behind (some rest) next = next rest

-- `matchWild` of the directories of a path and of those of a pattern
unfoldable pub match_dirs : List Str → List Str → Bool
match_dirs path [] = is_nil path
match_dirs [] (pt ∷ []) = streq pt two_stars
match_dirs [] (pt ∷ pt2 ∷ pattern) = false
match_dirs (p ∷ path) (pt ∷ []) =
    let next = match_dirs path [] in
    if streq pt star then next else if streq pt two_stars then true else streq p pt && next
match_dirs (p ∷ path) (pt ∷ pt2 ∷ pattern) =
    let next = match_dirs path (pt2 ∷ pattern) in
    let behind = matches_behind (skip_to pt2 (p ∷ path)) (λ rest. match_dirs rest pattern) in
    if streq pt star then next else if streq pt two_stars then behind else streq p pt && next

abbrev match_parts : Option (List Str) → Option (List Str) → Option Bool
match_parts (some path) (some pattern) = some (match_dirs path pattern)
match_parts _ _ = none

-- `matchWild` of a path and a pattern; `none` if the fuel of a `split` runs out.
unfoldable pub match_wild : Str → Str → Option Bool
match_wild path pattern =
    match_parts (split path delim 0 skip_empty_parts keep_quotes)
      (split pattern delim 0 skip_empty_parts keep_quotes)
