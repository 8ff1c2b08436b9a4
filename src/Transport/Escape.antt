-- ===== src/Transport/Escape.antt =====
-- How the serial reader takes in what the writer escaped.
use libshv.Base.{
  true, ℕ, ◌<◌, ◌≡◌, ◌≢◌, refl, sym, ap, ◌∙◌, false, ◌==◌, if◌then◌else◌, [], ◌∷◌, ◌++◌, Str,
  length, append-nil, append_assoc, arith, Bool-cases, inl, inr, ==_iff, length-append,
}
use libshv.Rpc.Convert.{Floats}
use libshv.Transport.Crc.{crc_add, crc_add_all}
use libshv.Transport.Frames.{MetaReader}
use libshv.Transport.Serial.{
  SerialReader, Stepped, then_steps, waiting_for_etx, waiting_for_crc, stx, etx, atx, esc, estx,
  eetx, eatx, eesc, step, steps, escaped, escaped_all,
}

-- The last byte of what `escaped` writes.
abbrev pub last_code : ℕ → ℕ
last_code b =
    if b == stx
    then estx
    else if b == etx
    then eetx
    else if b == atx
    then eatx
    else if b == esc
    then eesc
    else b

pub last_code-ne-esc : (b : ℕ) → last_code b ≢ esc
last_code-ne-esc b = ground arith

-- The reader inside a frame.
abbrev pub reading : SerialReader → Str → ℕ → ℕ → SerialReader
reading r buffer crc recent = record r {
  read_state = waiting_for_etx;
  read_buffer = buffer;
  crc_digest = crc;
  recent_byte = recent;
}

-- The reader inside the CRC.
abbrev pub reading_crc : SerialReader → Str → ℕ → SerialReader
reading_crc r buffer recent = record r {
  read_state = waiting_for_crc;
  crc_buffer = buffer;
  recent_byte = recent;
}

then_steps_assoc :
    (s : Stepped) (f g : SerialReader → Stepped)
    → then_steps (then_steps s f) g ≡ then_steps s (λ r. then_steps (f r) g)
then_steps_assoc (ids, r, true) f g = refl
then_steps_assoc (ids, r, false) f g = behind (f r)
  where
    behind :
        (t : Stepped)
        → then_steps (ids ++ t.0, t.1, t.2) g
          ≡ (ids ++ (then_steps t g).0, (then_steps t g).1, (then_steps t g).2)
    behind (ids', r', true) = refl
    behind (ids', r', false) = rw (append_assoc ids ids' (g r').0) refl

module _ ⦃floats : Floats⦄ (mr : MetaReader) where
  pub steps-append :
      (xs ys : Str) (r : SerialReader)
      → steps mr r (xs ++ ys) ≡ then_steps (steps mr r xs) (λ r'. steps mr r' ys)
  unfolding steps
  steps-append [] ys r = refl
  steps-append (x ∷ xs) ys r =
      ap (then_steps (step mr r x)) (λ i r'. steps-append xs ys r' i)
      ∙ sym (then_steps_assoc (step mr r x) (λ r'. steps mr r' xs) (λ r'. steps mr r' ys))

  -- An escaped byte adds itself to the buffer.
  steps-escaped :
      (r : SerialReader) (buffer : Str) (crc recent b : ℕ)
      → recent ≢ esc
      → steps mr (reading r buffer crc recent) (escaped b)
        ≡ ([], reading r (buffer ++ (b ∷ [])) (crc_add_all crc (escaped b)) (last_code b), false)
  unfolding steps step escaped crc_add_all
  steps-escaped r buffer crc recent b h =
      let ne : (recent == esc) ≡ false = ground arith in
      elim (Bool-cases (b == stx)) [
        | inl e ↦ rw ((==_iff b stx).0 e) (rw (ne, append-nil buffer))
        | inr e₁ ↦ elim (Bool-cases (b == etx)) [
          | inl e ↦ rw ((==_iff b etx).0 e) (rw (ne, append-nil buffer))
          | inr e₂ ↦ elim (Bool-cases (b == atx)) [
            | inl e ↦ rw ((==_iff b atx).0 e) (rw (ne, append-nil buffer))
            | inr e₃ ↦ elim (Bool-cases (b == esc)) [
              | inl e ↦ rw ((==_iff b esc).0 e) (rw (ne, append-nil buffer))
              | inr e₄ ↦ rw (e₁, e₂, e₃, e₄) (rw (e₁, e₂, e₃, e₄, ne))
            ]
          ]
        ]
      ]

  pub crc_add_all-append :
      (xs ys : Str) (crc : ℕ) → crc_add_all crc (xs ++ ys) ≡ crc_add_all (crc_add_all crc xs) ys
  unfolding crc_add_all
  crc_add_all-append [] ys crc = refl
  crc_add_all-append (x ∷ xs) ys crc = crc_add_all-append xs ys (crc_add crc x)

  -- The last byte of what `escaped_all` writes, if it writes any.
  abbrev pub last_of : ℕ → Str → ℕ
  last_of recent [] = recent
  last_of recent (b ∷ bs) = last_of (last_code b) bs

  pub last_of-ne-esc : (bs : Str) (recent : ℕ) → recent ≢ esc → last_of recent bs ≢ esc
  last_of-ne-esc [] recent h = h
  last_of-ne-esc (b ∷ bs) recent h = last_of-ne-esc bs (last_code b) (last_code-ne-esc b)

  -- Escaped bytes inside a frame add themselves to the buffer, and the digest takes in what
  -- stands for them.
  pub steps-escaped_all :
      (bs : Str) (r : SerialReader) (buffer : Str) (crc recent : ℕ)
      → recent ≢ esc
      → steps mr (reading r buffer crc recent) (escaped_all bs) ≡ (
        [],
        reading r (buffer ++ bs) (crc_add_all crc (escaped_all bs)) (last_of recent bs),
        false,
      )
  unfolding escaped_all
  steps-escaped_all [] r buffer crc recent h =
      rw (append-nil buffer) (unfold steps crc_add_all in refl)
  steps-escaped_all (b ∷ bs) r buffer crc recent h =
      steps-append (escaped b) (escaped_all bs) (reading r buffer crc recent)
      ∙ rw
          (
            steps-escaped r buffer crc recent b h,
            crc_add_all-append (escaped b) (escaped_all bs) crc,
            ← append_assoc buffer (b ∷ []) bs,
          )
          (steps-escaped_all bs r (buffer ++ (b ∷ [])) (crc_add_all crc (escaped b)) (last_code b)
            (last_code-ne-esc b))

  -- An escaped byte of the CRC, before the last.
  pub steps-crc_byte :
      (r : SerialReader) (buffer : Str) (recent b : ℕ)
      → recent ≢ esc
      → length buffer < 3
      → steps mr (reading_crc r buffer recent) (escaped b)
        ≡ ([], reading_crc r (buffer ++ (b ∷ [])) (last_code b), false)
  unfolding steps step escaped
  steps-crc_byte r buffer recent b h short =
      let ne : (recent == esc) ≡ false = ground arith in
      let n₀ : (length buffer == 4) ≡ false = ground arith in
      let n₁ : (c : ℕ) → (length (buffer ++ (c ∷ [])) == 4) ≡ false =
        λ c. ground (arith, length-append buffer (c ∷ [])) in
      elim (Bool-cases (b == stx)) [
        | inl e ↦ rw ((==_iff b stx).0 e) (rw (ne, append-nil buffer, n₀, n₁ stx))
        | inr e₁ ↦ elim (Bool-cases (b == etx)) [
          | inl e ↦ rw ((==_iff b etx).0 e) (rw (ne, append-nil buffer, n₀, n₁ etx))
          | inr e₂ ↦ elim (Bool-cases (b == atx)) [
            | inl e ↦ rw ((==_iff b atx).0 e) (rw (ne, append-nil buffer, n₀, n₁ atx))
            | inr e₃ ↦ elim (Bool-cases (b == esc)) [
              | inl e ↦ rw ((==_iff b esc).0 e) (rw (ne, append-nil buffer, n₀, n₁ esc))
              | inr e₄ ↦ rw (e₁, e₂, e₃, e₄) (rw (e₁, e₃, e₄, ne, n₁ b))
            ]
          ]
        ]
      ]
