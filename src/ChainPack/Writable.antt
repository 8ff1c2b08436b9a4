-- ===== src/ChainPack/Writable.antt =====
-- The values that ChainPack writes and reads back unchanged, and maps in the order of their keys.
use libshv.Base.{◌^◌, ◌<◌, ◌≡◌, refl, ap, true, false, [], ◌∷◌, Str, length, streq, arith}
use libshv.Base.Int.{ℤ, pos, negsuc, IsInt32, eqb_ℤ, ltb_ℤ}
use libshv.Rpc.Value.{
  RpcValue, value, Variant, invalid, null, uint, int, double, boolean, blob, string, date_time,
  list, map, imap, decimal, MetaData, meta_data, RpcList, nil, cons, RpcMap, end, entry, RpcIMap,
  iend, ientry, is_valid,
}
use libshv.Rpc.Maps.{str_lt, insert_key, insert_ikey}
use libshv.ChainPack.Int.{magnitude}
use libshv.ChainPack.DateTimeRoundTrip.{IsDate}

-- Every key of the map is behind the key.
abbrev pub IsAbove : Str → RpcMap → Type 0
IsAbove k end = Unit {0}
IsAbove k (entry j v m) = (str_lt k j ≡ true) × IsAbove k m

abbrev pub IsIAbove : ℤ → RpcIMap → Type 0
IsIAbove k iend = Unit {0}
IsIAbove k (ientry j v m) = (ltb_ℤ k j ≡ true) × IsIAbove k m

unfoldable mutual
  -- Integers of 64 bits, but the least one, exponents of 32 bits, the bits of a double, texts
  -- shorter than 2 ^ 63, dates near enough, maps in order, and no invalid value anywhere.
  pub IsWritable : RpcValue → Type 0
  IsWritable (value v m) = IsWritableVariant v × IsWritableMeta m

  pub IsWritableVariant : Variant → Type 0
  IsWritableVariant invalid = ⊥
  IsWritableVariant null = Unit {0}
  IsWritableVariant (uint n) = n < 2 ^ 64
  IsWritableVariant (int i) = magnitude i < 2 ^ 63
  IsWritableVariant (double d) = d < 2 ^ 64
  IsWritableVariant (boolean b) = Unit {0}
  IsWritableVariant (blob s) = length s < 2 ^ 63
  IsWritableVariant (string s) = length s < 2 ^ 63
  IsWritableVariant (date_time t z) = IsDate t z
  IsWritableVariant (list l) = IsWritableList l
  IsWritableVariant (map m) = IsWritableMap m
  IsWritableVariant (imap m) = IsWritableIMap m
  IsWritableVariant (decimal m e) = (magnitude m < 2 ^ 63) × IsInt32 e

  pub IsWritableMeta : MetaData → Type 0
  IsWritableMeta (meta_data i s) = IsWritableIMap i × IsWritableMap s

  pub IsWritableList : RpcList → Type 0
  IsWritableList nil = Unit {0}
  IsWritableList (cons v l) = IsWritable v × IsWritableList l

  pub IsWritableMap : RpcMap → Type 0
  IsWritableMap end = Unit {0}
  IsWritableMap (entry k v m) = (length k < 2 ^ 63) × IsWritable v × IsAbove k m × IsWritableMap m

  pub IsWritableIMap : RpcIMap → Type 0
  IsWritableIMap iend = Unit {0}
  IsWritableIMap (ientry k v m) = IsInt32 k × IsWritable v × IsIAbove k m × IsWritableIMap m

pub IsWritable-is_valid : (v : RpcValue) → IsWritable v → is_valid v ≡ true
unfolding is_valid IsWritable
IsWritable-is_valid (value invalid m) h = absurd h.0
IsWritable-is_valid (value v m) h = refl

-- A map behind another.
abbrev pub join : RpcMap → RpcMap → RpcMap
join end n = n
join (entry k v m) n = entry k v (join m n)

abbrev pub ijoin : RpcIMap → RpcIMap → RpcIMap
ijoin iend n = n
ijoin (ientry k v m) n = ientry k v (ijoin m n)

-- Every key of the map is in front of the key.
abbrev pub IsBelow : RpcMap → Str → Type 0
IsBelow end k = Unit {0}
IsBelow (entry j v m) k = (str_lt j k ≡ true) × IsBelow m k

abbrev pub IsIBelow : RpcIMap → ℤ → Type 0
IsIBelow iend k = Unit {0}
IsIBelow (ientry j v m) k = (ltb_ℤ j k ≡ true) × IsIBelow m k

-- Every key of the first map is in front of every key of the second.
abbrev pub Fits : RpcMap → RpcMap → Type 0
Fits acc end = Unit {0}
Fits acc (entry k v m) = IsBelow acc k × Fits acc m

abbrev pub IFits : RpcIMap → RpcIMap → Type 0
IFits acc iend = Unit {0}
IFits acc (ientry k v m) = IsIBelow acc k × IFits acc m

str_lt-asym : (a b : Str) → str_lt a b ≡ true → (streq a b ≡ false) × (str_lt b a ≡ false)
unfolding str_lt streq
str_lt-asym [] [] h = absurd (cc h)
str_lt-asym [] (y ∷ b) h = (refl, refl)
str_lt-asym (x ∷ a) [] h = ground arith
str_lt-asym (x ∷ a) (y ∷ b) h = ground (arith, str_lt-asym a b)

ltb_ℤ-asym : (a b : ℤ) → ltb_ℤ a b ≡ true → (eqb_ℤ a b ≡ false) × (ltb_ℤ b a ≡ false)
unfolding ltb_ℤ eqb_ℤ
ltb_ℤ-asym (pos a) (pos b) h = ground arith
ltb_ℤ-asym (pos a) (negsuc b) h = ground arith
ltb_ℤ-asym (negsuc a) (pos b) h = ground arith
ltb_ℤ-asym (negsuc a) (negsuc b) h = ground arith

-- A key behind all others is inserted at the end.
pub insert_key-end :
    (k : Str) (v : RpcValue) (acc : RpcMap)
    → IsBelow acc k
    → insert_key k v acc ≡ join acc (entry k v end)
unfolding insert_key
insert_key-end k v end h = refl
insert_key-end k v (entry j w m) h =
    let (differ, later) = str_lt-asym j k h.0 in rw (differ, later, insert_key-end k v m h.1) refl

pub insert_ikey-end :
    (k : ℤ) (v : RpcValue) (acc : RpcIMap)
    → IsIBelow acc k
    → insert_ikey k v acc ≡ ijoin acc (ientry k v iend)
unfolding insert_ikey
insert_ikey-end k v iend h = refl
insert_ikey-end k v (ientry j w m) h =
    let (differ, later) = ltb_ℤ-asym j k h.0 in rw (differ, later, insert_ikey-end k v m h.1) refl

IsBelow-join :
    (acc : RpcMap) (k j : Str) (v : RpcValue)
    → IsBelow acc j
    → str_lt k j ≡ true
    → IsBelow (join acc (entry k v end)) j
IsBelow-join end k j v h e = (e, tt)
IsBelow-join (entry i w m) k j v h e = (h.0, IsBelow-join m k j v h.1 e)

IsIBelow-ijoin :
    (acc : RpcIMap) (k j : ℤ) (v : RpcValue)
    → IsIBelow acc j
    → ltb_ℤ k j ≡ true
    → IsIBelow (ijoin acc (ientry k v iend)) j
IsIBelow-ijoin iend k j v h e = (e, tt)
IsIBelow-ijoin (ientry i w m) k j v h e = (h.0, IsIBelow-ijoin m k j v h.1 e)

pub Fits-join :
    (acc : RpcMap) (k : Str) (v : RpcValue) (m : RpcMap)
    → Fits acc m
    → IsAbove k m
    → Fits (join acc (entry k v end)) m
Fits-join acc k v end h a = tt
Fits-join acc k v (entry j w m) h a = (IsBelow-join acc k j v h.0 a.0, Fits-join acc k v m h.1 a.1)

pub IFits-ijoin :
    (acc : RpcIMap) (k : ℤ) (v : RpcValue) (m : RpcIMap)
    → IFits acc m
    → IsIAbove k m
    → IFits (ijoin acc (ientry k v iend)) m
IFits-ijoin acc k v iend h a = tt
IFits-ijoin acc k v (ientry j w m) h a =
    (IsIBelow-ijoin acc k j v h.0 a.0, IFits-ijoin acc k v m h.1 a.1)

pub join_assoc :
    (acc : RpcMap) (k : Str) (v : RpcValue) (m : RpcMap)
    → join (join acc (entry k v end)) m ≡ join acc (entry k v m)
join_assoc end k v m = refl
join_assoc (entry j w acc) k v m = ap (entry j w) (join_assoc acc k v m)

pub ijoin_assoc :
    (acc : RpcIMap) (k : ℤ) (v : RpcValue) (m : RpcIMap)
    → ijoin (ijoin acc (ientry k v iend)) m ≡ ijoin acc (ientry k v m)
ijoin_assoc iend k v m = refl
ijoin_assoc (ientry j w acc) k v m = ap (ientry j w) (ijoin_assoc acc k v m)

pub Fits-end : (m : RpcMap) → Fits end m
Fits-end end = tt
Fits-end (entry k v m) = (tt, Fits-end m)

pub IFits-iend : (m : RpcIMap) → IFits iend m
IFits-iend iend = tt
IFits-iend (ientry k v m) = (tt, IFits-iend m)
