-- ===== src/ChainPack/Scalars.antt =====
-- Each single value that is packed is unpacked by `cchainpack_unpack_next`.
use libshv.Base.{
  ℕ, zero, suc, ◌+◌, ◌/◌, ◌%◌, ◌^◌, ◌<◌, ◌≡◌, refl, sym, ap, ◌∙◌, Bool, true, false, ◌==◌, ltb,
  Option, some, [], ◌∷◌, ◌++◌, append_assoc, Str, length, arith, Bool-cases, inl, inr,
}
use libshv.Base.Int.{ℤ, pos, negsuc, IsInt32, to_int32_of_IsInt32}
use native.Mathlib.Omega.{pow_step}
use libshv.Rpc.Value.{Variant, null, uint, int, double, boolean, blob, string, date_time, decimal}
use libshv.ChainPack.Int.{pack_int_data, magnitude}
use libshv.ChainPack.IntRoundTrip.{unpack_int-pack_int_data}
use libshv.ChainPack.Partial.{length_bytes, length_bytes-pack, unpack-length_bytes}
use libshv.ChainPack.Pack.{
  ◌<+>◌, byte, cp_meta_map, pack_null, pack_uint, pack_int, pack_double, pack_boolean, pack_blob,
  pack_string, pack_decimal, little_endian,
}
use libshv.ChainPack.DateTime.{pack_date_time, minutes, low_bits, since_epoch, date_number}
use libshv.ChainPack.DateTimeRoundTrip.{
  IsDate, quarters-minutes, date_number-small, date_number-in_int64, since_epoch-in_int64,
  unpack_date-since_epoch, to_msec_of_near, signed7-quarters,
}
use libshv.ChainPack.Unpack.{
  done, Reader, ◌>>=◌, give, take_byte, uint_data, int_data, take_bytes, sized_string,
  little_number, Item, scalar, unpack_schema, unpack_next,
}

pub bind-done :
    {A B : Type 0} (m : Reader A) (f : A → Reader B) (bytes rest : Str) (a : A)
    → m bytes ≡ done a rest
    → (m >>= f) bytes ≡ f a rest
bind-done m f bytes rest a h = rw (h, ◌>>=◌) refl

-- A single value is packed into bytes, the first of which begins no meta data, that are unpacked
-- from in front of any other bytes.
abbrev pub IsPackedAs : Option Str → Variant → Type 0
IsPackedAs packed v =
    (c : ℕ) × (t : Str) × (packed ≡ some (c ∷ t))
    × ((c == cp_meta_map) ≡ false)
    × ((rest : Str) → unpack_next (c ∷ (t ++ rest)) ≡ done (scalar v) rest)

take_bytes-length : (s rest : Str) → take_bytes (length s) (s ++ rest) ≡ done s rest
unfolding take_bytes
take_bytes-length [] rest = refl
take_bytes-length (c ∷ s) rest = rw (take_bytes-length s rest) refl

uint_data-length_bytes :
    (n : ℕ) (rest : Str) → n < 2 ^ 64 → uint_data (length_bytes n ++ rest) ≡ done n rest
unfolding uint_data
uint_data-length_bytes n rest h = rw (unpack-length_bytes n rest h) refl

int_data-packed :
    (i : ℤ)
    → magnitude i < 2 ^ 63
    → (b : Str) × (pack_int_data i ≡ some b) × ((rest : Str) → int_data (b ++ rest) ≡ done i rest)
unfolding int_data
int_data-packed i h =
    let (b, e, f) = unpack_int-pack_int_data i h in (b, e, λ rest. rw (f rest) refl)

pub null-packed : IsPackedAs pack_null null
unfolding pack_null unpack_next take_byte unpack_schema
null-packed = (128, [], refl, refl, λ rest. refl)

pub boolean-packed : (b : Bool) → IsPackedAs (pack_boolean b) (boolean b)
unfolding pack_boolean unpack_next take_byte unpack_schema
boolean-packed true = (254, [], refl, refl, λ rest. refl)
boolean-packed false = (253, [], refl, refl, λ rest. refl)

pub uint-packed : (n : ℕ) → n < 2 ^ 64 → IsPackedAs (pack_uint n) (uint n)
unfolding pack_uint unpack_next take_byte unpack_schema
uint-packed n h = elim (Bool-cases (ltb n 64)) [
  | inl e ↦
      let small : n % 64 ≡ n = ground arith in
      let below : ltb n 128 ≡ true = ground arith in
      let flag : (n / 64 % 2 == 1) ≡ false = ground arith in
      (n, [], rw (e, small) refl, ground arith, λ rest. rw (below, flag, small) refl)
  | inr e ↦ (
    129,
    length_bytes n,
    rw (e, length_bytes-pack n h) refl,
    refl,
    λ rest.
        bind-done uint_data (λ n. give (scalar (uint n))) (length_bytes n ++ rest) rest n
          (uint_data-length_bytes n rest h),
  )
]

int-tagged : (i : ℤ) → magnitude i < 2 ^ 63 → IsPackedAs (byte 130 <+> pack_int_data i) (int i)
unfolding unpack_next take_byte unpack_schema
int-tagged i h =
    let (b, e, f) = int_data-packed i h in
    (
      130,
      b,
      rw e refl,
      refl,
      λ rest. bind-done int_data (λ j. give (scalar (int j))) (b ++ rest) rest i (f rest),
    )

pub int-packed : (i : ℤ) → magnitude i < 2 ^ 63 → IsPackedAs (pack_int i) (int i)
unfolding pack_int unpack_next take_byte
int-packed (negsuc n) h = int-tagged (negsuc n) h
int-packed (pos n) h = elim (Bool-cases (ltb n 64)) [
  | inl e ↦
      let c : ℕ = n % 64 + 64 in
      let below : ltb c 128 ≡ true = ground arith in
      let flag : (c / 64 % 2 == 1) ≡ true = ground arith in
      let small : c % 64 ≡ n = ground arith in
      (c, [], rw e refl, ground arith, λ rest. rw (below, flag, small) refl)
  | inr e ↦ rw e (int-tagged (pos n) h)
]

pub decimal-packed :
    (m e : ℤ)
    → magnitude m < 2 ^ 63
    → IsInt32 e
    → magnitude e < 2 ^ 63
    → IsPackedAs (pack_decimal m e) (decimal m e)
unfolding pack_decimal unpack_next take_byte unpack_schema
decimal-packed m e h k l =
    let (a, p, f) = int_data-packed m h in
    let (b, q, g) = int_data-packed e l in
    (
      140,
      a ++ b,
      rw (p, q) refl,
      refl,
      λ rest. rw (append_assoc a b rest) (
          bind-done int_data _ (a ++ (b ++ rest)) (b ++ rest) m (f (b ++ rest))
          ∙ bind-done int_data _ (b ++ rest) rest e (g rest)
          ∙ ap (λ x. done (scalar (decimal m x)) rest) (to_int32_of_IsInt32 e k)),
    )

length-little_endian : (k n : ℕ) → length (little_endian k n) ≡ k
unfolding little_endian
length-little_endian zero n = refl
length-little_endian (suc k) n = ap suc (length-little_endian k (n / 256))

little_number-little_endian : (k n : ℕ) → n < 256 ^ k → little_number (little_endian k n) ≡ n
unfolding little_endian little_number
little_number-little_endian zero n h = omega arith
little_number-little_endian (suc k) n h =
    omega (arith, little_number-little_endian k (n / 256) (omega (arith, h, pow_step 256 k)))

take_little :
    (k n : ℕ) (rest : Str)
    → take_bytes k (little_endian k n ++ rest) ≡ done (little_endian k n) rest
take_little k n rest =
    ap (λ j. take_bytes j (little_endian k n ++ rest)) (sym (length-little_endian k n))
    ∙ take_bytes-length (little_endian k n) rest

pub double-packed : (d : ℕ) → d < 2 ^ 64 → IsPackedAs (pack_double d) (double d)
unfolding pack_double unpack_next take_byte unpack_schema
double-packed d h = (
  131,
  little_endian 8 d,
  refl,
  refl,
  λ rest.
      bind-done (take_bytes 8) (λ s. give (scalar (double (little_number s))))
        (little_endian 8 d ++ rest) rest (little_endian 8 d) (take_little 8 d rest)
      ∙ ap (λ x. done (scalar (double x)) rest) (little_number-little_endian 8 d h),
)

sized : (s rest : Str) → length s < 2 ^ 63 → sized_string (length s) (s ++ rest) ≡ done s rest
unfolding sized_string
sized s rest h =
    let fits : ltb (length s) (2 ^ 63) ≡ true = ground arith in rw fits (take_bytes-length s rest)

sized_item :
    (s rest : Str) (make : Str → Reader Item)
    → length s < 2 ^ 63
    → (uint_data >>= λ size. sized_string size >>= make) ((length_bytes (length s) ++ s) ++ rest)
      ≡ make s rest
sized_item s rest make h = rw (append_assoc (length_bytes (length s)) s rest) (
    bind-done uint_data (λ size. sized_string size >>= make)
      (length_bytes (length s) ++ (s ++ rest)) (s ++ rest) (length s)
      (uint_data-length_bytes (length s) (s ++ rest) (omega (arith, h)))
    ∙ bind-done (sized_string (length s)) make (s ++ rest) rest s (sized s rest h))

pub blob-packed : (s : Str) → length s < 2 ^ 63 → IsPackedAs (pack_blob s) (blob s)
unfolding pack_blob unpack_next take_byte unpack_schema
blob-packed s h = (
  133,
  length_bytes (length s) ++ s,
  rw (length_bytes-pack (length s) (omega (arith, h))) refl,
  refl,
  λ rest. sized_item s rest (λ t. give (scalar (blob t))) h,
)

pub string-packed : (s : Str) → length s < 2 ^ 63 → IsPackedAs (pack_string s) (string s)
unfolding pack_string unpack_next take_byte unpack_schema
string-packed s h = (
  134,
  length_bytes (length s) ++ s,
  rw (length_bytes-pack (length s) (omega (arith, h))) refl,
  refl,
  λ rest. sized_item s rest (λ t. give (scalar (string t))) h,
)

-- A date and time nearer than 2 ^ 52 milliseconds to 1970, with an offset of whole quarters of an hour
-- that fits 7 bits, is packed without an overflow into a schema byte and a number, which in front of
-- any other bytes are unpacked as the same time and offset.
pub date_time-packed :
    (t z : ℤ) → IsDate t z → IsPackedAs (pack_date_time t (minutes z)) (date_time t z)
unfolding pack_date_time unpack_next take_byte unpack_schema
date_time-packed t z h =
    let d = date_number (since_epoch t) (low_bits 128 z) in
    let (b, e, f) = int_data-packed d (date_number-small t z h) in
    (
      141,
      b,
      rw (quarters-minutes z, since_epoch-in_int64 t z h, date_number-in_int64 t z h, e) refl,
      refl,
      λ rest.
          bind-done int_data _ (b ++ rest) rest d (f rest)
          ∙ rw
              (unpack_date-since_epoch t z h, to_msec_of_near t h.near, signed7-quarters z h.offset)
              refl,
    )
