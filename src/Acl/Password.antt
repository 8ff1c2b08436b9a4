-- ===== src/Acl/Password.antt =====
-- `AclPassword` of libshviotqt/src/acl/aclpassword.cpp.
use libshv.Base.{
  ℕ, ◌-◌, ◌≡◌, refl, ap, Bool, true, false, ◌&&◌, ◌||◌, ◌==◌, leb, Str, [], ◌∷◌, codes, streq,
  is_nil, length, if◌then◌else◌,
}
use libshv.Rpc.Value.{RpcValue, invalid, string, map, plain, end, entry, is_map, is_string}
use libshv.Rpc.Maps.{map_value, find_key}
use libshv.Rpc.Convert.{as_map, as_string}
use libshv.Rpc.Login.{to_string}

-- AclPassword::Format
pub data Format : Type 0 where
  format_invalid format_plain format_sha1 : Format

pub record AclPassword : Type 0 where
  pub password : Str
  pub format : Format

-- `AclPassword()`
abbrev pub no_password : AclPassword
no_password = record { password = []; format = format_invalid }

-- `toupper` in the C locale
abbrev to_upper : ℕ → ℕ
to_upper c = if leb 97 c && leb c 122 then c - 32 else c

-- `str_eq`
unfoldable pub equal_fold : Str → Str → Bool
equal_fold [] [] = true
equal_fold [] (y ∷ ys) = false
equal_fold (x ∷ xs) [] = false
equal_fold (x ∷ xs) (y ∷ ys) = to_upper y == to_upper x && equal_fold xs ys

-- `formatToString`
unfoldable pub format_to_string : Format → Str
format_to_string format_plain = codes "PLAIN"
format_to_string format_sha1 = codes "SHA1"
format_to_string format_invalid = codes "INVALID"

-- `formatFromString`
unfoldable pub format_from_string : Str → Format
unfolding equal_fold
format_from_string s =
    if equal_fold s (codes "PLAIN")
    then format_plain
    else if equal_fold s (codes "SHA1")
    then format_sha1
    else format_invalid

abbrev is_hex_digit : ℕ → Bool
is_hex_digit c = leb 48 c && leb c 57 || leb 97 c && leb c 102

all_hex : Str → Bool
all_hex [] = true
all_hex (c ∷ cs) = is_hex_digit c && all_hex cs

-- A match of "[0-9a-f]{40}"
unfoldable pub is_sha1_hex : Str → Bool
unfolding all_hex
is_sha1_hex s = length s == 40 && all_hex s

abbrev guessed : Str → Format
guessed s = if is_sha1_hex s then format_sha1 else format_plain

abbrev with_guess : Format → Str → Format
with_guess format_invalid s = if is_nil s then format_invalid else guessed s
with_guess f s = f

abbrev pub is_known : Format → Bool
is_known format_invalid = false
is_known format_plain = true
is_known format_sha1 = true

-- `AclPassword::isValid`
unfoldable pub password_is_valid : AclPassword → Bool
password_is_valid p = is_known p.format

-- `AclPassword::toRpcValue`
unfoldable pub password_to_rpc_value : AclPassword → RpcValue
password_to_rpc_value p = plain (
    map (
      entry (codes "format") (plain (string (format_to_string p.format)))
        (entry (codes "password") (plain (string p.password)) end)))

-- `AclPassword::fromRpcValue`
unfoldable pub password_from_rpc_value : RpcValue → AclPassword
password_from_rpc_value v =
    if is_string v
    then record { password = to_string v; format = guessed (to_string v) }
    else if is_map v
    then (let m = as_map v in
        let p = as_string (map_value m (codes "password") (plain invalid)) in
        let f = format_from_string (as_string (map_value m (codes "format") (plain invalid))) in
        record { password = p; format = with_guess f p })
    else no_password

guess-format_to_string :
    (f : Format) (s : Str)
    → is_known f ≡ true
    → with_guess (format_from_string (format_to_string f)) s ≡ f
unfolding format_to_string format_from_string
guess-format_to_string format_invalid s h = cc
guess-format_to_string format_plain s h = refl
guess-format_to_string format_sha1 s h = refl

pub password_from_rpc_value-password_to_rpc_value :
    (p : AclPassword)
    → password_is_valid p ≡ true
    → password_from_rpc_value (password_to_rpc_value p) ≡ p
unfolding password_from_rpc_value password_to_rpc_value password_is_valid is_string is_map as_map
    map_value find_key streq as_string
password_from_rpc_value-password_to_rpc_value p h =
    ap (λ f. record { password = p.password; format = f })
      (guess-format_to_string p.format p.password h)
