-- ===== src/ChainPack/Bits.antt =====
-- `significant_bits_part_length` (the one for a generic compiler) and `bytes_needed` of
-- libshvchainpack/c/cchainpack.c. A mask test `n & 0xF..F0..0` is a division and a remainder.
use libshv.Base.{
  ℕ, zero, suc, ◌+◌, ◌-◌, ◌/◌, ◌%◌, ◌^◌, ◌≤◌, ◌<◌, ◌≡◌, inl, inr, refl, sym, ap, ◌∙◌, true, false,
  not, ◌==◌, leb, if◌then◌else◌, arith, Bool-cases, ==_iff,
}
use native.Mathlib.Nat.{
  div-div-eq-div-mul, div-eq_of_lt, div-lt_iff_lt-mul, mod-eq_of_lt, one-le-pow,
}
use native.Mathlib.Omega.{pow_step}

-- One `if` of the search: `k` more bits, if the bits from `k` to `2 * k` are not all 0.
unfoldable pub search_half : ℕ → (ℕ → ℕ → ℕ) → ℕ → ℕ → ℕ
search_half k next len n =
    if not (n / 2 ^ k % 2 ^ k == 0) then next (len + k) (n / 2 ^ k) else next len n

-- `len += sig_table_4bit[n]`
unfoldable pub add_table : ℕ → ℕ → ℕ
add_table len n =
    len
    + (if n == 0 then 0 else if n == 1 then 1 else if leb n 3 then 2 else if leb n 7 then 3 else 4)

-- `significant_bits_part_length`, of a number below 2 ^ 64
unfoldable pub significant_bits_part_length : ℕ → ℕ
significant_bits_part_length n =
    search_half 32 (search_half 16 (search_half 8 (search_half 4 add_table))) 0 n

-- `bytes_needed`; `(bit_len - 1) / 7` of no bits is 0 in C too.
unfoldable pub bytes_needed : ℕ → ℕ
bytes_needed bit_len = if leb bit_len 28 then (bit_len - 1) / 7 + 1 else (bit_len - 1) / 8 + 2

-- The number of digits of a number in base 2, one after the other; the fuel is a bound of it.
unfoldable pub binary_digits : ℕ → ℕ → ℕ
binary_digits zero n = 0
binary_digits (suc fuel) n = let rest = binary_digits fuel (n / 2) in if n == 0 then 0 else suc rest

halve : ℕ → ℕ → ℕ
halve zero n = n
halve (suc k) n = halve k (n / 2)

halve-zero : (k n : ℕ) → n ≡ 0 → halve k n ≡ 0
unfolding halve
halve-zero zero n h = h
halve-zero (suc k) n h = halve-zero k (n / 2) (omega (arith, h))

digits-zero : (fuel : ℕ) → binary_digits fuel 0 ≡ 0
unfolding binary_digits
digits-zero zero = refl
digits-zero (suc fuel) = refl

halve_lem : (k n : ℕ) → halve k n ≡ n / 2 ^ k
unfolding halve
halve_lem zero n = omega arith
halve_lem (suc k) n =
    halve_lem k (n / 2) ∙ div-div-eq-div-mul n 2 (2 ^ k) ∙ ap (λ t. n / t) (sym (pow_step 2 k))

-- Digits in front of a number that is not 0 count in full.
step-digits :
    (k fuel n : ℕ) → 0 < halve k n → binary_digits (k + fuel) n ≡ k + binary_digits fuel (halve k n)
unfolding binary_digits halve
step-digits zero fuel n h = let e : 0 + fuel ≡ fuel = omega arith in rw e (omega arith)
step-digits (suc k) fuel n h =
    let e : suc k + fuel ≡ suc (k + fuel) = omega arith in
    let n>0 : (n == 0) ≡ false = elim (Bool-cases (n == 0)) [
      | inr f ↦ f
      | inl f ↦ absurd (omega (arith, h, halve-zero k (n / 2) (ground arith)))
    ] in
    rw (e, n>0) (omega (arith, step-digits k fuel (n / 2) h))

few-digits : (k fuel n : ℕ) → halve k n ≡ 0 → binary_digits (k + fuel) n ≡ binary_digits k n
unfolding binary_digits halve
few-digits zero fuel n h = let e : 0 + fuel ≡ fuel = omega arith in rw (e, h) (digits-zero fuel)
few-digits (suc k) fuel n h =
    let e : suc k + fuel ≡ suc (k + fuel) = omega arith in rw (e, few-digits k fuel (n / 2) h) refl

-- A number of twice as many digits is looked at in two halves.
split-digits :
    (k n : ℕ)
    → binary_digits (k + k) n
      ≡ (if not (n / 2 ^ k == 0) then k + binary_digits k (n / 2 ^ k) else binary_digits k n)
split-digits k n = elim (Bool-cases (n / 2 ^ k == 0)) [
  | inl e ↦ rw e (few-digits k k n (halve_lem k n ∙ (==_iff (n / 2 ^ k) 0).0 e))
  | inr e ↦ rw (e, sym (halve_lem k n)) (step-digits k k n (rw (halve_lem k n) (ground arith)))
]

-- What the rest of the search answers for numbers of `k` digits.
abbrev Counts : ℕ → (ℕ → ℕ → ℕ) → Type 0
Counts k f = (len n : ℕ) → n < 2 ^ k → f len n ≡ len + binary_digits k n

add_table-Counts : Counts 4 add_table
unfolding add_table binary_digits
add_table-Counts len n h = ground arith

search_half-Counts :
    (k : ℕ) (next : ℕ → ℕ → ℕ)
    → Counts k next
    → (len n : ℕ) → n / 2 ^ k < 2 ^ k
    → search_half k next len n ≡ len + binary_digits (k + k) n
unfolding search_half
search_half-Counts k next counts len n h =
    rw (split-digits k n, mod-eq_of_lt h)
      (elim (Bool-cases (n / 2 ^ k == 0)) [
        | inl e ↦ rw e (counts len n (low e))
        | inr e ↦ rw e (omega (arith, counts (len + k) (n / 2 ^ k) h))
      ])
  where
    low : (n / 2 ^ k == 0) ≡ true → n < 2 ^ k
    low e = omega (
      arith,
      (div-lt_iff_lt-mul {k = 2 ^ k} {x = n} {y = 1} (one-le-pow k 2 (omega arith))).0
          (omega (arith, (==_iff (n / 2 ^ k) 0).0 e)),
    )

-- The search for the highest bit in halves finds the number of binary digits of a number below
-- 2 ^ 64.
pub significant_bits_part_length-digits :
    (n : ℕ) → n < 2 ^ 64 → significant_bits_part_length n ≡ binary_digits 64 n
unfolding significant_bits_part_length
significant_bits_part_length-digits n h =
    let e : (m : ℕ) → 0 + m ≡ m = λ m. omega arith in
    search_half-Counts 32 _
      (λ len₁ n₁ h₁.
        search_half-Counts 16 _
          (λ len₂ n₂ h₂.
            search_half-Counts 8 _
              (λ len₃ n₃ h₃. search_half-Counts 4 add_table add_table-Counts len₃ n₃ (omega arith))
              len₂ n₂ (omega arith))
          len₁ n₁ (omega arith))
      0 n (omega arith)
    ∙ e (binary_digits 64 n)

-- A number is below the power of its digits, and has no more than the fuel.
pub digits-bound :
    (fuel n : ℕ) → n < 2 ^ fuel → (n < 2 ^ binary_digits fuel n) × (binary_digits fuel n ≤ fuel)
unfolding binary_digits
digits-bound zero n h = (h, omega arith)
digits-bound (suc fuel) n h = elim (Bool-cases (n == 0)) [
  | inl e ↦ rw e (ground arith, omega arith)
  | inr e ↦
      let (below, few) = digits-bound fuel (n / 2) (omega (arith, h, pow_step 2 fuel)) in
      rw (e, pow_step 2 (binary_digits fuel (n / 2))) (omega arith, omega arith)
]

pub digits-63 : (n : ℕ) → n < 2 ^ 63 → binary_digits 64 n ≡ binary_digits 63 n
digits-63 n h = few-digits 63 1 n (halve_lem 63 n ∙ div-eq_of_lt h)
