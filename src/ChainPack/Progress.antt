-- ===== src/ChainPack/Progress.antt =====
-- Each unpacked item takes a byte at least from the stream.
use libshv.Base.{
  ℕ, zero, suc, ◌+◌, ◌*◌, ◌%◌, ◌/◌, ◌^◌, ◌≤◌, Bool, true, false, ◌==◌, ltb, if◌then◌else◌, Option,
  none, some, [], ◌∷◌, Str, length, arith, Bool-cases, inl, inr,
}
use libshv.Base.Int.{ℤ, to_int32}
use libshv.Rpc.Value.{int, uint, double, decimal, blob, string}
use libshv.ChainPack.Uint.{read_bytes, head_info, with_bit_len, unpack_uint}
use libshv.ChainPack.Int.{as_signed, unpack_int}
use libshv.ChainPack.DateTime.{unpack_date}
use libshv.ChainPack.Unpack.{
  buffer_underflow, malformed_input, invalid_type, meta_data_of_invalid, not_a_number, no_fuel,
  Outcome, done, failed, Reader, ◌>>=◌, give, take_byte, uint_data, int_data, take_bytes, put,
  take_cstring, sized_string, little_number, Item, scalar, whole_number, signed_number, date_item,
  tiny_item, decimal_item, unpack_schema, unpack_next,
}

-- At most so many bytes are left, or an error other than the end of the fuel.
abbrev pub IsWithin {ℓ} : {A : Type ℓ} → ℕ → Outcome A → Type 0
IsWithin L (done a r) = length r ≤ L
IsWithin L (failed no_fuel) = ⊥
IsWithin L (failed e) = Unit {0}

pub bind-IsWithin :
    {A B : Type 0} (m : Reader A) (f : A → Reader B) (bytes : Str) (L L' : ℕ)
    → IsWithin L (m bytes)
    → ((a : A) (r : Str) → length r ≤ L → IsWithin L' (f a r))
    → IsWithin L' ((m >>= f) bytes)
bind-IsWithin {A} {B} m f bytes L L' h k = go (m bytes) h
  where
    go : (o : Outcome A) → IsWithin L o → IsWithin L' (◌>>=◌ {A = A} {B = B} (λ b. o) f bytes)
    go (done a r) h = k a r h
    go (failed no_fuel) h = absurd h
    go (failed buffer_underflow) h = tt
    go (failed malformed_input) h = tt
    go (failed invalid_type) h = tt
    go (failed meta_data_of_invalid) h = tt
    go (failed not_a_number) h = tt

pub IsWithin-mono {ℓ} :
    {A : Type ℓ} (o : Outcome A) (L L' : ℕ) → L ≤ L' → IsWithin L o → IsWithin L' o
IsWithin-mono (done a r) L L' h k = omega arith
IsWithin-mono (failed no_fuel) L L' h k = absurd k
IsWithin-mono (failed buffer_underflow) L L' h k = tt
IsWithin-mono (failed malformed_input) L L' h k = tt
IsWithin-mono (failed invalid_type) L L' h k = tt
IsWithin-mono (failed meta_data_of_invalid) L L' h k = tt
IsWithin-mono (failed not_a_number) L L' h k = tt

abbrev IsShort : ℕ → Option (ℕ × Str) → Type 0
IsShort L none = Unit {0}
IsShort L (some (n, r)) = length r ≤ L

read_bytes-IsShort : (k num : ℕ) (b : Str) → IsShort (length b) (read_bytes k num b)
unfolding read_bytes
read_bytes-IsShort zero num b = omega arith
read_bytes-IsShort (suc k) num [] = tt
read_bytes-IsShort (suc k) num (c ∷ b) =
    widen (read_bytes k ((num * 256 + c) % 2 ^ 64) b) (read_bytes-IsShort k _ b)
  where
    widen : (o : Option (ℕ × Str)) → IsShort (length b) o → IsShort (suc (length b)) o
    widen none h = tt
    widen (some (n, r)) h = omega arith

number_within :
    (bits L : ℕ) (o : Option (ℕ × Str))
    → IsShort L o
    → IsWithin L (whole_number (with_bit_len bits o))
number_within bits L none h = tt
number_within bits L (some (n, r)) h = h

pub uint_data-IsWithin : (b : Str) → IsWithin (length b) (uint_data b)
unfolding uint_data unpack_uint
uint_data-IsWithin [] = tt
uint_data-IsWithin (c ∷ b) =
    let (more, num, len) = head_info c in
    IsWithin-mono (whole_number (with_bit_len len (read_bytes more num b))) (length b)
      (suc (length b)) (omega arith)
      (number_within len (length b) (read_bytes more num b) (read_bytes-IsShort more num b))

signed_within :
    (L : ℕ) (o : Option (ℕ × ℕ × Str))
    → IsWithin L (whole_number o)
    → IsWithin L (signed_number (as_signed o))
signed_within L none h = tt
signed_within L (some (n, bits, r)) h = h

pub int_data-IsWithin : (b : Str) → IsWithin (length b) (int_data b)
unfolding int_data unpack_int
int_data-IsWithin b =
    signed_within (length b) (unpack_uint b) (unfold uint_data in uint_data-IsWithin b)

put-IsWithin : (c L L' : ℕ) (o : Outcome Str) → L ≤ L' → IsWithin L o → IsWithin L' (put c o)
put-IsWithin c L L' (done s r) le h = omega arith
put-IsWithin c L L' (failed no_fuel) le h = absurd h
put-IsWithin c L L' (failed buffer_underflow) le h = tt
put-IsWithin c L L' (failed malformed_input) le h = tt
put-IsWithin c L L' (failed invalid_type) le h = tt
put-IsWithin c L L' (failed meta_data_of_invalid) le h = tt
put-IsWithin c L L' (failed not_a_number) le h = tt

take_bytes-IsWithin : (n : ℕ) (b : Str) → IsWithin (length b) (take_bytes n b)
unfolding take_bytes
take_bytes-IsWithin zero b = omega arith
take_bytes-IsWithin (suc n) [] = tt
take_bytes-IsWithin (suc n) (c ∷ b) =
    put-IsWithin c (length b) (suc (length b)) (take_bytes n b) (omega arith)
      (take_bytes-IsWithin n b)

take_cstring-IsWithin : (b : Str) → IsWithin (length b) (take_cstring b)
unfolding take_cstring
take_cstring-IsWithin [] = tt
take_cstring-IsWithin (c ∷ []) = elim (Bool-cases (c == 0)) [
  | inl e ↦ rw e (omega arith)
  | inr e ↦ rw e tt
]
take_cstring-IsWithin (c ∷ d ∷ b) = elim (Bool-cases (c == b'\\')) [
  | inl e ↦ rw e (
      put-IsWithin (if d == b'0' then 0 else d) (length b) (suc (suc (length b))) (take_cstring b)
        (omega arith) (take_cstring-IsWithin b))
  | inr e ↦ elim (Bool-cases (c == 0)) [
    | inl z ↦ rw (e, z) (omega arith)
    | inr z ↦
        rw (e, z)
          (put-IsWithin c (suc (length b)) (suc (suc (length b))) (take_cstring (d ∷ b))
            (omega arith) (take_cstring-IsWithin (d ∷ b)))
  ]
]

sized_string-IsWithin : (n : ℕ) (b : Str) → IsWithin (length b) (sized_string n b)
unfolding sized_string
sized_string-IsWithin n b = elim (Bool-cases (ltb n (2 ^ 63))) [
  | inl e ↦ rw e (take_bytes-IsWithin n b)
  | inr e ↦ rw e (take_cstring-IsWithin b)
]

either :
    (t : Bool) (x y : Reader Item) (b : Str) (L : ℕ)
    → IsWithin L (x b)
    → IsWithin L (y b)
    → IsWithin L ((if t then x else y) b)
either true x y b L h k = h
either false x y b L h k = k

date_item-IsWithin : (o : Option (ℤ × ℤ)) (b : Str) → IsWithin (length b) (date_item o b)
date_item-IsWithin none b = tt
date_item-IsWithin (some (t, z)) b = omega arith

given :
    {A : Type 0} (make : A → Item) (m : Reader A) (b : Str)
    → IsWithin (length b) (m b)
    → IsWithin (length b) ((m >>= λ a. give (make a)) b)
given make m b h = bind-IsWithin m (λ a. give (make a)) b (length b) (length b) h (λ a r k. k)

sized_within :
    (make : Str → Item) (b : Str)
    → IsWithin (length b) ((uint_data >>= λ size. sized_string size >>= λ s. give (make s)) b)
sized_within make b =
    bind-IsWithin uint_data _ b (length b) (length b) (uint_data-IsWithin b) (λ size r h.
      bind-IsWithin (sized_string size) (λ s. give (make s)) r (length r) (length b)
        (sized_string-IsWithin size r) (λ s r' k. omega arith))

decimal_within : (b : Str) → IsWithin (length b) (decimal_item b)
decimal_within b = bind-IsWithin int_data _ b (length b) (length b) (int_data-IsWithin b) (λ m r h.
    bind-IsWithin int_data (λ e. give (scalar (decimal m (to_int32 e)))) r (length r) (length b)
      (int_data-IsWithin r) (λ e r' k. omega arith))

date_within : (b : Str) → IsWithin (length b) ((int_data >>= λ d. date_item (unpack_date d)) b)
date_within b =
    bind-IsWithin int_data (λ d. date_item (unpack_date d)) b (length b) (length b)
      (int_data-IsWithin b)
      (λ d r h.
        IsWithin-mono (date_item (unpack_date d) r) (length r) (length b) h
          (date_item-IsWithin (unpack_date d) r))

unpack_schema-IsWithin : (c : ℕ) (b : Str) → IsWithin (length b) (unpack_schema c b)
unfolding unpack_schema
unpack_schema-IsWithin c b =
    let L = length b in
    let same : length b ≤ L = omega arith in
    either (c == 128) _ _ b L same (
      either (c == 254) _ _ b L same (
        either (c == 253) _ _ b L same (
          either (c == 130) _ _ b L (given (λ i. scalar (int i)) int_data b (int_data-IsWithin b)) (
            either (c == 129) _ _ b L
              (given (λ n. scalar (uint n)) uint_data b (uint_data-IsWithin b))
              (either (c == 131) _ _ b L
                (given (λ s. scalar (double (little_number s))) (take_bytes 8) b
                  (take_bytes-IsWithin 8 b))
                (either (c == 140) _ _ b L (decimal_within b) (
                  either (c == 141) _ _ b L (date_within b) (
                    either (c == 139) _ _ b L same (
                      either (c == 137) _ _ b L same (
                        either (c == 138) _ _ b L same (
                          either (c == 136) _ _ b L same (
                            either (c == 255) _ _ b L same (
                              either (c == 133) _ _ b L (sized_within (λ s. scalar (blob s)) b) (
                                either (c == 134) _ _ b L (sized_within (λ s. scalar (string s)) b)
                                  (either (c == 142) _ _ b L
                                    (given (λ s. scalar (string s)) take_cstring b
                                      (take_cstring-IsWithin b))
                                    tt)))))))))))))))

-- An item that is unpacked takes a byte at least.
pub unpack_next-IsWithin : (b : Str) (L : ℕ) → length b ≤ suc L → IsWithin L (unpack_next b)
unfolding unpack_next take_byte
unpack_next-IsWithin [] L h = tt
unpack_next-IsWithin (c ∷ b) L h =
    IsWithin-mono ((if ltb c 128 then tiny_item c else unpack_schema c) b) (length b) L
      (omega arith)
      (either (ltb c 128) (tiny_item c) (unpack_schema c) b (length b)
        (either (c / 64 % 2 == 1) _ _ b (length b) (omega arith) (omega arith))
        (unpack_schema-IsWithin c b))
