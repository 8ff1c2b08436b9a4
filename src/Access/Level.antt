-- ===== src/Access/Level.antt =====
-- libshvchainpack/include/shv/chainpack/accesslevel.h and libshvchainpack/src/accesslevel.cpp.
-- An `AccessLevel` is the number behind the enumerator.
use libshv.Base.{
  ℕ, zero, suc, ◌≡◌, refl, Bool, true, false, Option, none, some, List, [], ◌∷◌, ◌++◌, Str, codes,
  streq, streq_iff, ◌==◌, ==_iff, if◌then◌else◌, arith, ◌<◌, ◌≤◌, ◌+◌, ◌||◌, ◌&&◌, All, Bool-cases,
  inl, inr, ltb, ltb→lt, ◌↔◌, ◌≢◌,
}
use libshv.Base.Int.{ℤ, pos, negsuc}

abbrev pub AccessLevel : Type 0
AccessLevel = ℕ

-- The enumerators in the order of the header: `Browse = 1, Browse1, …, Browse6` and so on.
abbrev run : ℕ → ℕ → List ℕ
run first zero = []
run first (suc n) = first ∷ run (first + 1) n

abbrev none_level : AccessLevel
none_level = 0

abbrev browse : AccessLevel
browse = 1

abbrev pub read_level : AccessLevel
read_level = 8

abbrev pub write_level : AccessLevel
write_level = 16

abbrev command : AccessLevel
command = 24

abbrev config : AccessLevel
config = 32

abbrev service : AccessLevel
service = 40

abbrev super_service : AccessLevel
super_service = 48

abbrev devel : AccessLevel
devel = 56

abbrev admin : AccessLevel
admin = 63

abbrev enumerators : List AccessLevel
enumerators =
    none_level
    ∷ (run browse 7
        ++ (run read_level 8
            ++ (run write_level 8
                ++ (run command 8
                    ++ (run config 8
                        ++ (run service 8
                            ++ (run super_service 8 ++ (run devel 7 ++ (admin ∷ [])))))))))

-- Rpc::ROLE_BROWSE and the others (libshvchainpack/include/shv/chainpack/rpc.h)
abbrev role_browse : Str
role_browse = codes "bws"

abbrev pub role_read : Str
role_read = codes "rd"

abbrev role_write : Str
role_write = codes "wr"

abbrev role_command : Str
role_command = codes "cmd"

abbrev role_config : Str
role_config = codes "cfg"

abbrev role_service : Str
role_service = codes "srv"

abbrev role_super_service : Str
role_super_service = codes "ssrv"

abbrev role_devel : Str
role_devel = codes "dev"

abbrev role_admin : Str
role_admin = codes "su"

-- The empty text for a level without a role.
unfoldable pub level_to_string : AccessLevel → Str
level_to_string l =
    if l == browse
    then role_browse
    else if l == read_level
    then role_read
    else if l == write_level
    then role_write
    else if l == command
    then role_command
    else if l == config
    then role_config
    else if l == service
    then role_service
    else if l == super_service
    then role_super_service
    else if l == devel
    then role_devel
    else if l == admin
    then role_admin
    else []

unfoldable pub level_from_string : Str → Option AccessLevel
level_from_string s =
    if streq s role_browse
    then some browse
    else if streq s role_read
    then some read_level
    else if streq s role_write
    then some write_level
    else if streq s role_command
    then some command
    else if streq s role_config
    then some config
    else if streq s role_service
    then some service
    else if streq s role_super_service
    then some super_service
    else if streq s role_devel
    then some devel
    else if streq s role_admin
    then some admin
    else none

-- The switch over the enumerators.
abbrev find_level : List AccessLevel → ℕ → Option AccessLevel
find_level [] i = none
find_level (l ∷ ls) i = if i == l then some l else find_level ls i

unfoldable pub level_from_int : ℤ → Option AccessLevel
level_from_int (pos n) = find_level enumerators n
level_from_int (negsuc n) = none

member : ℕ → List ℕ → Bool
member i [] = false
member i (l ∷ ls) = i == l || member i ls

find_level-member : (ls : List ℕ) (i : ℕ) → find_level ls i ≡ (if member i ls then some i else none)
unfolding member
find_level-member [] i = refl
find_level-member (l ∷ ls) i = ground (arith, find_level-member ls i)

member_above : (ls : List ℕ) (i : ℕ) → All (λ l. l < i) ls → member i ls ≡ false
unfolding member
member_above [] i h = refl
member_above (l ∷ ls) i (h, hs) = ground (arith, member_above ls i hs)

-- Every value below `n` is a member.
covered : ℕ → List ℕ → Bool
covered zero ls = true
covered (suc n) ls = member n ls && covered n ls

covered-member : (n i : ℕ) (ls : List ℕ) → covered n ls ≡ true → i < n → member i ls ≡ true
unfolding covered
covered-member zero i ls c h = absurd (omega arith)
covered-member (suc n) i ls c h = elim (Bool-cases (i == n)) [
  | inl e ↦ rw ((==_iff i n).0 e) (ground arith)
  | inr e ↦ covered-member n i ls (ground arith) (ground arith)
]

enumerators_cover : covered 64 enumerators ≡ true
unfolding covered member
enumerators_cover = refl

-- The integers that are access levels are 0 to 63, and each stands for itself.
level_from_int_lem : (i : ℤ) (n : ℕ) → (level_from_int i ≡ some n) ↔ ((i ≡ pos n) × (n < 64))
unfolding level_from_int
level_from_int_lem (negsuc k) n = ground arith
level_from_int_lem (pos k) n = rw find_level-member (elim (Bool-cases (ltb k 64)) [
  | inl e ↦ rw (covered-member 64 k enumerators enumerators_cover (ltb→lt k 64 e)) (ground arith)
  | inr e ↦ rw (member_above enumerators k (above k (ground arith))) (ground arith)
])
  where
    above : (k : ℕ) → 64 ≤ k → All (λ l. l < k) enumerators
    above k h = omega arith

pub level_from_int-of_lt : (n : ℕ) → n < 64 → level_from_int (pos n) ≡ some n
level_from_int-of_lt n h = (level_from_int_lem (pos n) n).1 (refl, h)

-- A level with a role is read back from it.
pub level_from_string-level_to_string :
    (l : AccessLevel) → level_to_string l ≢ [] → level_from_string (level_to_string l) ≡ some l
unfolding level_to_string level_from_string streq
level_from_string-level_to_string l h = ground arith

-- A text that is read as a level is that level's role.
level_to_string-level_from_string :
    (s : Str) (l : AccessLevel) → level_from_string s ≡ some l → level_to_string l ≡ s
unfolding level_to_string level_from_string
level_to_string-level_from_string s l h = ground (
  arith,
  streq_iff s role_browse,
  streq_iff s role_read,
  streq_iff s role_write,
  streq_iff s role_command,
  streq_iff s role_config,
  streq_iff s role_service,
  streq_iff s role_super_service,
  streq_iff s role_devel,
  streq_iff s role_admin,
)

-- Named levels are below 64.
pub level_from_string-lt : (s : Str) (l : AccessLevel) → level_from_string s ≡ some l → l < 64
unfolding level_from_string
level_from_string-lt s l h = ground arith
