-- ===== src/ChainPack/DateTimeRoundTrip.antt =====
-- A date that `cchainpack_pack_date_time` packs is read back.
use libshv.Base.{
  ℕ, suc, ◌+◌, ◌*◌, ◌/◌, ◌%◌, ◌^◌, ◌<◌, ◌≤◌, ◌≡◌, refl, sym, ap, ◌∙◌, Bool, true, false, not, ◌==◌,
  some, arith, Bool-cases, inl, inr, ==_iff,
}
use libshv.Base.Int.{ℤ, pos, negsuc, to_int64}
use libshv.ChainPack.Int.{magnitude}
use libshv.ChainPack.DateTime.{
  shv_epoch_msec, since_epoch, behind_epoch, from_epoch, is_whole, thousandth, thousandfold,
  push_bits, low_bits, shift_out, quarters, minutes, in_int64, date_number, signed7, to_msec,
  unpack_date, scaled, dated, date_flags, seconds_if, offset_if, unpack_flags,
}

behind_epoch-since_epoch : (i : ℤ) → behind_epoch (since_epoch i) ≡ i
unfolding behind_epoch since_epoch
behind_epoch-since_epoch (pos n) = ground arith
behind_epoch-since_epoch (negsuc n) = ground arith

to_int64_of_small : (i : ℤ) → magnitude i < 2 ^ 63 → to_int64 i ≡ i
unfolding to_int64
to_int64_of_small (pos n) h = ground arith
to_int64_of_small (negsuc n) h = ground arith

from_epoch-since_epoch : (i : ℤ) → magnitude i < 2 ^ 63 → from_epoch (since_epoch i) ≡ i
unfolding from_epoch
from_epoch-since_epoch i h = ap to_int64 (behind_epoch-since_epoch i) ∙ to_int64_of_small i h

thousandfold-thousandth : (i : ℤ) → is_whole i ≡ true → thousandfold (thousandth i) ≡ i
unfolding thousandfold thousandth is_whole
thousandfold-thousandth (pos n) h = ap pos (omega (arith, (==_iff (n % 1000) 0).0 h))
thousandfold-thousandth (negsuc n) h = ap negsuc (omega (arith, (==_iff (suc n % 1000) 0).0 h))

shift_out-push_bits_4 : (b : ℕ) (i : ℤ) → b < 4 → shift_out 4 (push_bits 4 b i) ≡ i
unfolding shift_out push_bits
shift_out-push_bits_4 b (pos n) h = ap pos (omega arith)
shift_out-push_bits_4 b (negsuc n) h = ap negsuc (omega arith)

low_bits-push_bits_4 : (b : ℕ) (i : ℤ) → b < 4 → low_bits 4 (push_bits 4 b i) ≡ b
unfolding low_bits push_bits
low_bits-push_bits_4 b (pos n) h = omega arith
low_bits-push_bits_4 b (negsuc n) h = omega arith

shift_out-push_bits_128 : (b : ℕ) (i : ℤ) → b < 128 → shift_out 128 (push_bits 128 b i) ≡ i
unfolding shift_out push_bits
shift_out-push_bits_128 b (pos n) h = ap pos (omega arith)
shift_out-push_bits_128 b (negsuc n) h = ap negsuc (omega arith)

low_bits-push_bits_128 : (b : ℕ) (i : ℤ) → b < 128 → low_bits 128 (push_bits 128 b i) ≡ b
unfolding low_bits push_bits
low_bits-push_bits_128 b (pos n) h = omega arith
low_bits-push_bits_128 b (negsuc n) h = omega arith

-- An offset in quarters of an hour that fits 7 bits.
abbrev pub IsQuarters : ℤ → Type 0
IsQuarters (pos n) = n < 64
IsQuarters (negsuc n) = n < 64

signed7-low_bits : (q : ℤ) → IsQuarters q → signed7 (low_bits 128 q) ≡ q
unfolding signed7 low_bits
signed7-low_bits (pos n) h = ground arith
signed7-low_bits (negsuc n) h = ground arith

low_bits-lt : (q : ℤ) → low_bits 128 q < 128
unfolding low_bits
low_bits-lt (pos n) = omega arith
low_bits-lt (negsuc n) = omega arith

pub quarters-minutes : (q : ℤ) → quarters (minutes q) ≡ q
unfolding quarters minutes
quarters-minutes (pos n) = ap pos (omega arith)
quarters-minutes (negsuc n) = ground arith

date_flags-lt : (offset whole : Bool) → date_flags offset whole < 4
unfolding date_flags
date_flags-lt offset whole = ground arith

flag_offset : (offset whole : Bool) → (date_flags offset whole % 2 == 1) ≡ offset
unfolding date_flags
flag_offset offset whole = ground arith

flag_whole : (offset whole : Bool) → (date_flags offset whole / 2 == 1) ≡ whole
unfolding date_flags
flag_whole offset whole = ground arith

unpack_date-push_bits :
    (offset whole : Bool) (d : ℤ)
    → unpack_date (push_bits 4 (date_flags offset whole) d) ≡ unpack_flags offset whole d
unfolding unpack_date
unpack_date-push_bits offset whole d =
    let small = date_flags-lt offset whole in
    rw
      (
        low_bits-push_bits_4 (date_flags offset whole) d small,
        shift_out-push_bits_4 (date_flags offset whole) d small,
        flag_offset offset whole,
        flag_whole offset whole,
      )
      refl

scaled-seconds_if :
    (m : ℤ) → in_int64 m ≡ true → scaled (is_whole m) (seconds_if (is_whole m) m) ≡ some m
scaled-seconds_if m h = elim (Bool-cases (is_whole m)) [
  | inl e ↦ rw (e, thousandfold-thousandth m e, h) refl
  | inr e ↦ rw e refl
]

no_offset : (q : ℤ) → IsQuarters q → low_bits 128 q ≡ 0 → q ≡ pos 0
no_offset q h e = sym (signed7-low_bits q h) ∙ ap signed7 e ∙ (unfold signed7 in refl)

-- A number of milliseconds since the epoch of the format and an offset of 7 bits are unpacked from
-- the number that they are packed as.
unpack_date-date_number :
    (m : ℤ) (q : ℤ)
    → IsQuarters q
    → in_int64 m ≡ true
    → unpack_date (date_number m (low_bits 128 q)) ≡ some (from_epoch m, minutes q)
unfolding date_number
unpack_date-date_number m q h k = elim (Bool-cases (low_bits 128 q == 0)) [
  | inl e ↦
      let nothing : q ≡ pos 0 = no_offset q h ((==_iff (low_bits 128 q) 0).0 e) in
      rw e (
        unpack_date-push_bits false (is_whole m) (seconds_if (is_whole m) m)
        ∙ ap (dated (pos 0)) (scaled-seconds_if m k)
        ∙ ap (λ o. some (from_epoch m, minutes o)) (sym nothing))
  | inr e ↦
      let b = low_bits 128 q in
      let d = seconds_if (is_whole m) m in
      rw e (
        unpack_date-push_bits true (is_whole m) (push_bits 128 b d)
        ∙ rw
            (
              shift_out-push_bits_128 b d (low_bits-lt q),
              low_bits-push_bits_128 b d (low_bits-lt q),
              signed7-low_bits q h,
            )
            (ap (dated q) (scaled-seconds_if m k)))
]

push_bits-bound : (p b : ℕ) (i : ℤ) → b < p → magnitude (push_bits p b i) ≤ magnitude i * p + p
unfolding push_bits
push_bits-bound p b (pos n) h = omega arith
push_bits-bound p b (negsuc n) h = omega arith

seconds_if-bound : (whole : Bool) (m : ℤ) → magnitude (seconds_if whole m) ≤ magnitude m + 1
unfolding thousandth
seconds_if-bound true (pos n) = omega arith
seconds_if-bound true (negsuc n) = omega arith
seconds_if-bound false m = omega arith

offset_if-bound :
    (has_offset : Bool) (offset : ℕ) (d : ℤ)
    → offset < 128
    → magnitude (offset_if has_offset offset d) ≤ magnitude d * 128 + 128
offset_if-bound true offset d h = push_bits-bound 128 offset d h
offset_if-bound false offset d h = omega arith

since_epoch-bound : (t : ℤ) → magnitude (since_epoch t) ≤ magnitude t + shv_epoch_msec
unfolding since_epoch
since_epoch-bound (pos n) = ground arith
since_epoch-bound (negsuc n) = omega arith

date_number-bound :
    (m : ℤ) (offset : ℕ)
    → offset < 128
    → magnitude (date_number m offset) ≤ magnitude m * 512 + 2000
unfolding date_number
date_number-bound m offset h =
    let whole = is_whole m in
    let d = seconds_if whole m in
    let has_offset = not (offset == 0) in
    omega (
      arith,
      push_bits-bound 4 (date_flags has_offset whole) (offset_if has_offset offset d)
          (date_flags-lt has_offset whole),
      offset_if-bound has_offset offset d h,
      seconds_if-bound whole m,
    )

-- A date within some 140 000 years of 1970, with an offset of 7 bits in quarters of an hour.
pub record IsDate (t z : ℤ) : Type 0 where
  pub near : magnitude t < 2 ^ 52
  pub offset : IsQuarters z

pub date_number-small :
    (t z : ℤ) → IsDate t z → magnitude (date_number (since_epoch t) (low_bits 128 z)) < 2 ^ 63
date_number-small t z h = omega (
  arith,
  h.near,
  since_epoch-bound t,
  date_number-bound (since_epoch t) (low_bits 128 z) (low_bits-lt z),
)

in_int64_of_small : (i : ℤ) → magnitude i < 2 ^ 63 → in_int64 i ≡ true
in_int64_of_small (pos n) h = ground arith
in_int64_of_small (negsuc n) h = ground arith

pub since_epoch-in_int64 : (t z : ℤ) → IsDate t z → in_int64 (since_epoch t) ≡ true
since_epoch-in_int64 t z h =
    in_int64_of_small (since_epoch t) (omega (arith, h.near, since_epoch-bound t))

pub date_number-in_int64 :
    (t z : ℤ) → IsDate t z → in_int64 (date_number (since_epoch t) (low_bits 128 z)) ≡ true
date_number-in_int64 t z h =
    in_int64_of_small (date_number (since_epoch t) (low_bits 128 z)) (date_number-small t z h)

pub unpack_date-since_epoch :
    (t z : ℤ)
    → IsDate t z
    → unpack_date (date_number (since_epoch t) (low_bits 128 z)) ≡ some (t, minutes z)
unpack_date-since_epoch t z h =
    unpack_date-date_number (since_epoch t) z h.offset (since_epoch-in_int64 t z h)
    ∙ ap (λ i. some (i, minutes z)) (from_epoch-since_epoch t (omega (arith, h.near)))

-- The bit fields of `RpcDateTime` hold such a date.
pub to_msec_of_near : (t : ℤ) → magnitude t < 2 ^ 52 → to_msec t ≡ t
unfolding to_msec
to_msec_of_near (pos n) h = ground arith
to_msec_of_near (negsuc n) h = ground arith

pub signed7-quarters : (z : ℤ) → IsQuarters z → signed7 (low_bits 128 (quarters (minutes z))) ≡ z
signed7-quarters z h =
    ap (λ q. signed7 (low_bits 128 q)) (quarters-minutes z) ∙ signed7-low_bits z h
