-- ===== src/Rpc/Maps.antt =====
-- `RpcList`, `RpcMap` and `RpcIMap` of libshvchainpack/src/rpcvalue.cpp: lookup, insertion in
-- key order, erasure, and the accessors that answer an invalid value for a missing key.
use libshv.Base.{
  ℕ, zero, suc, ◌≡◌, refl, Bool, true, false, Option, none, some, Str, streq, streq_iff, arith,
  List, [], ◌∷◌, ltb, if◌then◌else◌, ◌==◌,
}
use libshv.Base.Int.{ℤ, eqb_ℤ, eqb_ℤ_iff, ltb_ℤ}
use libshv.Rpc.Value.{
  RpcValue, invalid, plain, RpcList, nil, cons, RpcMap, end, entry, RpcIMap, iend, ientry, is_valid,
}

-- `std::string::operator<`
unfoldable pub str_lt : Str → Str → Bool
str_lt [] [] = false
str_lt [] (y ∷ ys) = true
str_lt (x ∷ xs) [] = false
str_lt (x ∷ xs) (y ∷ ys) = let rest = str_lt xs ys in if x == y then rest else ltb x y

unfoldable pub find_key : Str → RpcMap → Option RpcValue
find_key k end = none
find_key k (entry j v m) = if streq j k then some v else find_key k m

-- `map[key] = val`
unfoldable pub insert_key : Str → RpcValue → RpcMap → RpcMap
insert_key k v end = entry k v end
insert_key k v (entry j w m) =
    let rest = insert_key k v m in
    if streq j k
    then entry k v m
    else if str_lt k j
    then entry k v (entry j w m)
    else entry j w rest

-- `map.erase(key)`
unfoldable pub erase_key : Str → RpcMap → RpcMap
erase_key k end = end
erase_key k (entry j w m) = let rest = erase_key k m in if streq j k then rest else entry j w rest

unfoldable pub find_ikey : ℤ → RpcIMap → Option RpcValue
find_ikey k iend = none
find_ikey k (ientry j v m) = if eqb_ℤ j k then some v else find_ikey k m

unfoldable pub insert_ikey : ℤ → RpcValue → RpcIMap → RpcIMap
insert_ikey k v iend = ientry k v iend
insert_ikey k v (ientry j w m) =
    let rest = insert_ikey k v m in
    if eqb_ℤ j k
    then ientry k v m
    else if ltb_ℤ k j
    then ientry k v (ientry j w m)
    else ientry j w rest

unfoldable pub erase_ikey : ℤ → RpcIMap → RpcIMap
erase_ikey k iend = iend
erase_ikey k (ientry j w m) =
    let rest = erase_ikey k m in if eqb_ℤ j k then rest else ientry j w rest

unfoldable pub map_size : RpcMap → ℕ
map_size end = 0
map_size (entry k v m) = suc (map_size m)

unfoldable pub imap_size : RpcIMap → ℕ
imap_size iend = 0
imap_size (ientry k v m) = suc (imap_size m)

abbrev pub or_value : Option RpcValue → RpcValue → RpcValue
or_value none d = d
or_value (some v) d = v

abbrev pub is_found : Option RpcValue → Bool
is_found none = false
is_found (some v) = true

-- `RpcMap::value`
unfoldable pub map_value : RpcMap → Str → RpcValue → RpcValue
map_value m k d = or_value (find_key k m) d

-- `RpcMap::setValue`: an invalid value erases the key.
unfoldable pub map_set_value : RpcMap → Str → RpcValue → RpcMap
map_set_value m k v = if is_valid v then insert_key k v m else erase_key k m

-- `RpcMap::hasKey`
unfoldable pub map_has_key : RpcMap → Str → Bool
map_has_key m k = is_found (find_key k m)

-- `RpcMap::take`: the value, and the map without it.
unfoldable pub map_take : RpcMap → Str → RpcValue → RpcValue × RpcMap
map_take m k d = elim (find_key k m) [ none ↦ (d, m) | some v ↦ (v, erase_key k m) ]

-- `RpcMap::keys`
unfoldable pub map_keys : RpcMap → List Str
map_keys end = []
map_keys (entry k v m) = k ∷ map_keys m

-- `RpcIMap::value`
unfoldable pub imap_value : RpcIMap → ℤ → RpcValue → RpcValue
imap_value m k d = or_value (find_ikey k m) d

-- `RpcIMap::setValue`
unfoldable pub imap_set_value : RpcIMap → ℤ → RpcValue → RpcIMap
imap_set_value m k v = if is_valid v then insert_ikey k v m else erase_ikey k m

-- `RpcIMap::hasKey`
unfoldable pub imap_has_key : RpcIMap → ℤ → Bool
imap_has_key m k = is_found (find_ikey k m)

-- `RpcIMap::keys`
unfoldable pub imap_keys : RpcIMap → List ℤ
imap_keys iend = []
imap_keys (ientry k v m) = k ∷ imap_keys m

-- `RpcList::value`
unfoldable pub list_value : RpcList → ℕ → RpcValue
list_value nil i = plain invalid
list_value (cons v l) zero = v
list_value (cons v l) (suc i) = list_value l i

pub find_key-insert_key :
    (k j : Str) (v : RpcValue) (m : RpcMap)
    → find_key j (insert_key k v m) ≡ (if streq k j then some v else find_key j m)
unfolding find_key insert_key
find_key-insert_key k j v end = refl
find_key-insert_key k j v (entry i w m) =
    ground (arith, find_key-insert_key k j v m, streq_iff i k, streq_iff i j, streq_iff k j)

pub find_key-erase_key :
    (k j : Str) (m : RpcMap)
    → find_key j (erase_key k m) ≡ (if streq k j then none else find_key j m)
unfolding find_key erase_key
find_key-erase_key k j end = ground arith
find_key-erase_key k j (entry i w m) =
    ground (arith, find_key-erase_key k j m, streq_iff i k, streq_iff i j, streq_iff k j)

pub find_ikey-insert_ikey :
    (k j : ℤ) (v : RpcValue) (m : RpcIMap)
    → find_ikey j (insert_ikey k v m) ≡ (if eqb_ℤ k j then some v else find_ikey j m)
unfolding find_ikey insert_ikey
find_ikey-insert_ikey k j v iend = refl
find_ikey-insert_ikey k j v (ientry i w m) =
    ground (arith, find_ikey-insert_ikey k j v m, eqb_ℤ_iff i k, eqb_ℤ_iff i j, eqb_ℤ_iff k j)

pub find_ikey-erase_ikey :
    (k j : ℤ) (m : RpcIMap)
    → find_ikey j (erase_ikey k m) ≡ (if eqb_ℤ k j then none else find_ikey j m)
unfolding find_ikey erase_ikey
find_ikey-erase_ikey k j iend = ground arith
find_ikey-erase_ikey k j (ientry i w m) =
    ground (arith, find_ikey-erase_ikey k j m, eqb_ℤ_iff i k, eqb_ℤ_iff i j, eqb_ℤ_iff k j)
