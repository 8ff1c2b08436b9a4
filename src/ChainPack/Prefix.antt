-- ===== src/ChainPack/Prefix.antt =====
-- What is unpacked from a stream is unpacked from a longer one, which leaves the bytes that follow.
use mathlib.Core.Path.{subst}
use libshv.Base.{
  ℕ, zero, suc, ◌/◌, ◌%◌, ◌^◌, ◌≡◌, refl, sym, Bool, true, false, ◌==◌, ltb, if◌then◌else◌, Option,
  none, some, [], ◌∷◌, ◌++◌, Str, arith, Bool-cases, Option-cases, inl, inr,
}
use libshv.Base.Int.{ℤ, to_int32}
use libshv.Rpc.Value.{int, uint, double, decimal, blob, string}
use libshv.ChainPack.Uint.{unpack_uint}
use libshv.ChainPack.Int.{unpack_int}
use libshv.ChainPack.Partial.{unpack_uint-append}
use libshv.ChainPack.DateTime.{unpack_date}
use libshv.ChainPack.Unpack.{
  buffer_underflow, malformed_input, invalid_type, meta_data_of_invalid, not_a_number, no_fuel,
  Outcome, done, failed, Reader, ◌>>=◌, give, take_byte, uint_data, int_data, take_bytes, put,
  take_cstring, sized_string, little_number, Item, scalar, date_item, tiny_item, unpack_schema,
  unpack_next,
}

-- The second outcome is the first one with more bytes left, if the first one is no failure, and the
-- same exception if the first one is that of a NaN.
abbrev pub Extends {ℓ} : {A : Type ℓ} → Str → Outcome A → Outcome A → Type ℓ
Extends x (done a r) o = o ≡ done a (r ++ x)
Extends x (failed not_a_number) o = o ≡ failed not_a_number
Extends x (failed e) o = Unit

pub bind-Extends :
    {A B : Type 0} (x : Str) (m m' : Reader A) (f f' : A → Reader B) (b b' : Str)
    → Extends x (m b) (m' b')
    → ((a : A) (r : Str) → Extends x (f a r) (f' a (r ++ x)))
    → Extends x ((m >>= f) b) ((m' >>= f') b')
bind-Extends {A} {B} x m m' f f' b b' h k = go (m b) h
  where
    go :
        (o : Outcome A)
        → Extends x o (m' b')
        → Extends x (◌>>=◌ {A = A} {B = B} (λ b. o) f b) ((m' >>= f') b')
    go (failed not_a_number) h = rw (h, ◌>>=◌) refl
    go (failed buffer_underflow) h = tt
    go (failed malformed_input) h = tt
    go (failed invalid_type) h = tt
    go (failed meta_data_of_invalid) h = tt
    go (failed no_fuel) h = tt
    go (done a r) h = subst (Extends x (f a r)) (sym (rw (h, ◌>>=◌) refl)) (k a r)

pub give-Extends : {A : Type 0} (x r : Str) (a : A) → Extends x (give a r) (give a (r ++ x))
give-Extends x r a = refl

uint_data-Extends : (x b : Str) → Extends x (uint_data b) (uint_data (b ++ x))
unfolding uint_data
uint_data-Extends x b = elim (Option-cases (unpack_uint b)) [
  | inl n ↦ rw n tt
  | inr ((n, bits, r), e) ↦ rw (e, unpack_uint-append n bits b r x e) refl
]

int_data-Extends : (x b : Str) → Extends x (int_data b) (int_data (b ++ x))
unfolding int_data unpack_int
int_data-Extends x b = elim (Option-cases (unpack_uint b)) [
  | inl n ↦ rw n tt
  | inr ((n, bits, r), e) ↦ rw (e, unpack_uint-append n bits b r x e) refl
]

put-Extends :
    (x : Str) (c : ℕ) (o o' : Outcome Str) → Extends x o o' → Extends x (put c o) (put c o')
put-Extends x c (failed not_a_number) o' h = rw h refl
put-Extends x c (failed buffer_underflow) o' h = tt
put-Extends x c (failed malformed_input) o' h = tt
put-Extends x c (failed invalid_type) o' h = tt
put-Extends x c (failed meta_data_of_invalid) o' h = tt
put-Extends x c (failed no_fuel) o' h = tt
put-Extends x c (done s r) o' h = rw h refl

take_bytes-Extends :
    (x : Str) (n : ℕ) (b : Str) → Extends x (take_bytes n b) (take_bytes n (b ++ x))
unfolding take_bytes
take_bytes-Extends x zero b = refl
take_bytes-Extends x (suc n) [] = tt
take_bytes-Extends x (suc n) (c ∷ b) = put-Extends x c (take_bytes n b) _ (take_bytes-Extends x n b)

take_cstring-end : (x : Str) (c : ℕ) → (c == 0) ≡ true → take_cstring (c ∷ x) ≡ done [] x
unfolding take_cstring
take_cstring-end [] c h = rw h refl
take_cstring-end (d ∷ x) c h = let other : (c == b'\\') ≡ false = ground arith in rw (other, h) refl

take_cstring-Extends : (x b : Str) → Extends x (take_cstring b) (take_cstring (b ++ x))
unfolding take_cstring
take_cstring-Extends x [] = tt
take_cstring-Extends x (c ∷ []) = elim (Bool-cases (c == 0)) [
  | inl e ↦ rw e (take_cstring-end x c e)
  | inr e ↦ rw e tt
]
take_cstring-Extends x (c ∷ d ∷ b) = elim (Bool-cases (c == b'\\')) [
  | inl e ↦
      rw e
        (put-Extends x (if d == b'0' then 0 else d) (take_cstring b) _ (take_cstring-Extends x b))
  | inr e ↦ elim (Bool-cases (c == 0)) [
    | inl z ↦ rw (e, z) refl
    | inr z ↦ rw (e, z) (put-Extends x c (take_cstring (d ∷ b)) _ (take_cstring-Extends x (d ∷ b)))
  ]
]

sized_string-Extends :
    (x : Str) (n : ℕ) (b : Str) → Extends x (sized_string n b) (sized_string n (b ++ x))
unfolding sized_string
sized_string-Extends x n b = elim (Bool-cases (ltb n (2 ^ 63))) [
  | inl e ↦ rw e (take_bytes-Extends x n b)
  | inr e ↦ rw e (take_cstring-Extends x b)
]

either :
    (x : Str) (t : Bool) (p q : Reader Item) (b : Str)
    → Extends x (p b) (p (b ++ x))
    → Extends x (q b) (q (b ++ x))
    → Extends x ((if t then p else q) b) ((if t then p else q) (b ++ x))
either x true p q b h k = h
either x false p q b h k = k

given :
    {A : Type 0} (x : Str) (make : A → Item) (m : Reader A) (b : Str)
    → Extends x (m b) (m (b ++ x))
    → Extends x ((m >>= λ a. give (make a)) b) ((m >>= λ a. give (make a)) (b ++ x))
given x make m b h =
    bind-Extends x m m (λ a. give (make a)) (λ a. give (make a)) b (b ++ x) h (λ a r. refl)

sized_given :
    (x : Str) (make : Str → Item) (b : Str)
    → Extends x
        ((uint_data >>= λ size. sized_string size >>= λ s. give (make s)) b)
        ((uint_data >>= λ size. sized_string size >>= λ s. give (make s)) (b ++ x))
sized_given x make b =
    bind-Extends x uint_data uint_data _ (λ size. sized_string size >>= λ s. give (make s)) b
      (b ++ x) (uint_data-Extends x b)
      (λ size r. given x make (sized_string size) r (sized_string-Extends x size r))

date_given :
    (x : Str) (o : Option (ℤ × ℤ)) (r : Str) → Extends x (date_item o r) (date_item o (r ++ x))
date_given x none r = tt
date_given x (some (t, z)) r = refl

unpack_schema-Extends :
    (x : Str) (c : ℕ) (b : Str) → Extends x (unpack_schema c b) (unpack_schema c (b ++ x))
unfolding unpack_schema
unpack_schema-Extends x c b = either x (c == 128) _ _ b refl (
    either x (c == 254) _ _ b refl (
      either x (c == 253) _ _ b refl (
        either x (c == 130) _ _ b (given x (λ i. scalar (int i)) int_data b (int_data-Extends x b))
          (either x (c == 129) _ _ b
            (given x (λ n. scalar (uint n)) uint_data b (uint_data-Extends x b))
            (either x (c == 131) _ _ b
              (given x (λ s. scalar (double (little_number s))) (take_bytes 8) b
                (take_bytes-Extends x 8 b))
              (either x (c == 140) _ _ b
                (bind-Extends x int_data int_data _
                  (λ m. int_data >>= λ e. give (scalar (decimal m (to_int32 e)))) b (b ++ x)
                  (int_data-Extends x b)
                  (λ m r.
                    given x (λ e. scalar (decimal m (to_int32 e))) int_data r
                      (int_data-Extends x r)))
                (either x (c == 141) _ _ b
                  (bind-Extends x int_data int_data _ (λ d. date_item (unpack_date d)) b (b ++ x)
                    (int_data-Extends x b) (λ d r. date_given x (unpack_date d) r))
                  (either x (c == 139) _ _ b refl (
                    either x (c == 137) _ _ b refl (
                      either x (c == 138) _ _ b refl (
                        either x (c == 136) _ _ b refl (
                          either x (c == 255) _ _ b refl (
                            either x (c == 133) _ _ b (sized_given x (λ s. scalar (blob s)) b) (
                              either x (c == 134) _ _ b (sized_given x (λ s. scalar (string s)) b) (
                                either x (c == 142) _ _ b
                                  (given x (λ s. scalar (string s)) take_cstring b
                                    (take_cstring-Extends x b))
                                  tt)))))))))))))))

pub unpack_next-Extends : (x b : Str) → Extends x (unpack_next b) (unpack_next (b ++ x))
unfolding unpack_next take_byte
unpack_next-Extends x [] = tt
unpack_next-Extends x (c ∷ b) =
    either x (ltb c 128) (tiny_item c) (unpack_schema c) b
      (either x (c / 64 % 2 == 1) _ _ b refl refl) (unpack_schema-Extends x c b)
