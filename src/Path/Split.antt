-- ===== src/Path/Split.antt =====
-- `getToken` and `split` of libshvcore/src/utils.cpp, and `splitPath` and `joinDirs` of
-- libshvcore/src/utils/shvpath.cpp. A quote of 0 is no quote.
use libshv.Base.{
  ℕ, zero, suc, ◌+◌, ◌-◌, Bool, true, false, not, ◌&&◌, ◌||◌, ◌==◌, leb, if◌then◌else◌, Option,
  none, some, List, [], ◌∷◌, ◌++◌, Str, is_nil, length, get_elem?, take, drop, contains,
}
use libshv.Path.Prefix.{delim}

-- SHV_PATH_QUOTE
abbrev pub quote : ℕ
quote = 0x27

-- The loop of `getToken`: the characters in front of the first delimiter outside quotes.
unfoldable pub token_from : Bool → ℕ → ℕ → Str → Str
token_from in_quotes d q [] = []
token_from in_quotes d q (c ∷ cs) =
    let flipped = token_from (not in_quotes) d q cs in
    let same = token_from in_quotes d q cs in
    if not (q == 0) && c == q then c ∷ flipped else if c == d && not in_quotes then [] else c ∷ same

-- `getToken`
unfoldable pub get_token : Str → ℕ → ℕ → Str
get_token s d q = token_from false d q s

pub data SplitBehavior : Type 0 where
  keep_empty_parts skip_empty_parts : SplitBehavior

pub data QuoteBehavior : Type 0 where
  keep_quotes remove_quotes : QuoteBehavior

abbrev keeps_empty : SplitBehavior → Bool
keeps_empty keep_empty_parts = true
keeps_empty skip_empty_parts = false

abbrev is_char : ℕ → Option ℕ → Bool
is_char q none = false
is_char q (some c) = c == q

-- A token between two quotes.
unfoldable pub is_quoted : ℕ → Str → Bool
is_quoted q t =
    leb 2 (length t) && (is_char q (get_elem? t 0) && is_char q (get_elem? t (length t - 1)))

unfoldable pub unquoted : QuoteBehavior → ℕ → Str → Str
unquoted keep_quotes q t = t
unquoted remove_quotes q t = if is_quoted q t then take (length t - 2) (drop 1 t) else t

-- What one round of the loop of `split` adds to the result.
unfoldable pub part_of : ℕ → SplitBehavior → QuoteBehavior → Str → List Str
part_of q keep quotes t =
    if keeps_empty keep || not (is_nil t) then unquoted quotes q t ∷ [] else []

abbrev pub append_parts : List Str → Option (List Str) → Option (List Str)
append_parts p none = none
append_parts p (some ts) = some (p ++ ts)

-- The loop of `split`, on fuel; `none` if the fuel runs out.
unfoldable pub split_from : ℕ → ℕ → ℕ → SplitBehavior → QuoteBehavior → Str → Option (List Str)
split_from zero d q keep quotes s = none
split_from (suc fuel) d q keep quotes s =
    let t = get_token s d q in
    let rest = split_from fuel d q keep quotes (drop (length t + 1) s) in
    if leb (length s) (length t)
    then some (part_of q keep quotes t)
    else append_parts (part_of q keep quotes t) rest

-- `split`
unfoldable pub split : Str → ℕ → ℕ → SplitBehavior → QuoteBehavior → Option (List Str)
split [] d q keep quotes = some []
split (c ∷ s) d q keep quotes = split_from (suc (length (c ∷ s))) d q keep quotes (c ∷ s)

-- `ShvPath::splitPath`
unfoldable pub split_path : Str → Option (List Str)
split_path s = split s delim quote skip_empty_parts remove_quotes

-- The quotes that `joinDirs` puts around a directory with a slash.
unfoldable pub with_quotes : Str → Str
with_quotes s = if contains s delim then quote ∷ (s ++ (quote ∷ [])) else s

-- The loop of `joinDirs`, from the text made so far.
unfoldable pub join_from : Str → List Str → Str
join_from ret [] = ret
join_from ret (s ∷ dirs) =
    let skipped = join_from ret dirs in
    let added =
      join_from ((if is_nil ret then ret else ret ++ (delim ∷ [])) ++ with_quotes s) dirs in
    if is_nil s then skipped else added

-- `ShvPath::joinDirs` of strings
unfoldable pub join_dirs : List Str → Str
join_dirs dirs = join_from [] dirs
