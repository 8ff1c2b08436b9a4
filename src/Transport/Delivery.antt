-- ===== src/Transport/Delivery.antt =====
-- A frame that the serial writer wrote is delivered by the serial reader, whatever state the
-- reader was in.
use libshv.Base.{
  ap, ℕ, ◌/◌, ◌%◌, ◌^◌, ◌<◌, ◌≡◌, ◌≢◌, refl, sym, ◌∙◌, Bool, true, false, not, ◌&&◌, ◌==◌, some,
  none, [], ◌∷◌, ◌++◌, Str, length, length-append, append-nil, append_assoc, arith, Bool-cases, inl,
  inr, ==_iff, ==_refl, drop-append_self,
}
use libshv.Rpc.Value.{MetaData, no_meta}
use libshv.Rpc.Convert.{Floats}
use libshv.Transport.Crc.{crc_init, crc_add_all, crc_result, crc_result-lt}
use libshv.Transport.Frames.{
  MetaReader, Protocol, no_protocol, chain_pack, cpon, meta_read, protocol_of_byte,
  try_to_read_meta, response_id, throws_id,
}
use libshv.Transport.Serial.{
  SerialReader, Stepped, then_steps, waiting_for_stx, stx, etx, atx, esc, step, steps, escaped,
  escaped_all, set_state, message_crc, crc_bytes, check_and_finish, check_response_id, finish_frame,
  frame_bytes, ids_of, add_data,
}
use libshv.Transport.Escape.{
  last_code, last_code-ne-esc, reading, reading_crc, steps-append, last_of, last_of-ne-esc,
  steps-escaped_all, steps-crc_byte,
}

message_crc-crc_bytes : (c : ℕ) → c < 2 ^ 32 → message_crc 0 (crc_bytes c) ≡ c
unfolding message_crc
message_crc-crc_bytes c h = omega arith

-- What a round answers when it is the last.
abbrev ended : Stepped → Stepped
ended s = then_steps s (λ r. ([], r, false))

module _ ⦃floats : Floats⦄ (mr : MetaReader) where
  -- The last byte of the CRC ends the frame.
  steps-last_crc_byte :
      (r : SerialReader) (buffer : Str) (recent b : ℕ)
      → recent ≢ esc
      → length buffer ≡ 3
      → steps mr (reading_crc r buffer recent) (escaped b)
        ≡ ended (check_and_finish mr (reading_crc r (buffer ++ (b ∷ [])) (last_code b)))
  unfolding steps step escaped
  steps-last_crc_byte r buffer recent b h full =
      let ne : (recent == esc) ≡ false = ground arith in
      let n₀ : (length buffer == 4) ≡ false = ground arith in
      let n₁ : (c : ℕ) → (length (buffer ++ (c ∷ [])) == 4) ≡ true =
        λ c. ground (arith, length-append buffer (c ∷ [])) in
      elim (Bool-cases (b == stx)) [
        | inl e ↦ rw ((==_iff b stx).0 e) (rw (ne, append-nil buffer, n₀, n₁ stx))
        | inr e₁ ↦ elim (Bool-cases (b == etx)) [
          | inl e ↦ rw ((==_iff b etx).0 e) (rw (ne, append-nil buffer, n₀, n₁ etx))
          | inr e₂ ↦ elim (Bool-cases (b == atx)) [
            | inl e ↦ rw ((==_iff b atx).0 e) (rw (ne, append-nil buffer, n₀, n₁ atx))
            | inr e₃ ↦ elim (Bool-cases (b == esc)) [
              | inl e ↦ rw ((==_iff b esc).0 e) (rw (ne, append-nil buffer, n₀, n₁ esc))
              | inr e₄ ↦ rw (e₁, e₂, e₃, e₄) (rw (e₁, e₃, e₄, ne, n₁ b))
            ]
          ]
        ]
      ]

  -- The four bytes of a CRC.
  steps-crc :
      (r : SerialReader) (recent c : ℕ)
      → recent ≢ esc
      → steps mr (reading_crc r [] recent) (escaped_all (crc_bytes c))
        ≡ ended (check_and_finish mr (reading_crc r (crc_bytes c) (last_code (c % 256))))
  unfolding escaped_all
  steps-crc r recent c h =
      let b₃ : ℕ = c / 2 ^ 24 % 256 in
      let b₂ : ℕ = c / 2 ^ 16 % 256 in
      let b₁ : ℕ = c / 2 ^ 8 % 256 in
      let b₀ : ℕ = c % 256 in
      steps-append mr (escaped b₃) _ (reading_crc r [] recent)
      ∙ rw (steps-crc_byte mr r [] recent b₃ h (omega arith)) (
          steps-append mr (escaped b₂) _ (reading_crc r (b₃ ∷ []) (last_code b₃))
          ∙ rw (steps-crc_byte mr r (b₃ ∷ []) (last_code b₃) b₂ (last_code-ne-esc b₃) (omega arith))
              (steps-append mr (escaped b₁) _ (reading_crc r (b₃ ∷ b₂ ∷ []) (last_code b₂))
                ∙ rw
                    (steps-crc_byte mr r (b₃ ∷ b₂ ∷ []) (last_code b₂) b₁ (last_code-ne-esc b₂)
                      (omega arith))
                    (rw (
                      append-nil (escaped b₀),
                      steps-last_crc_byte r (b₃ ∷ b₂ ∷ b₁ ∷ []) (last_code b₁) b₀
                          (last_code-ne-esc b₁) (omega arith),
                    ))))

  -- The end of a frame whose meta data are read, with a right CRC or without the check.
  finish_lem :
      (s : SerialReader) (b : ℕ) (head payload : Str) (p : Protocol) (m : MetaData)
      → s.read_buffer ≡ (b ∷ head) ++ payload
      → s.reader.data_start ≡ none
      → protocol_of_byte (some b) ≡ p
      → p ≢ no_protocol
      → throws_id m ≡ false
      → mr.read_meta p ((b ∷ head) ++ payload) 1 ≡ meta_read m (some (length (b ∷ head)))
      → (s.with_crc_check && not (crc_result s.crc_digest == message_crc 0 s.crc_buffer)) ≡ false
      → ((check_and_finish mr s).0 ≡ ids_of (response_id m))
        × ((check_and_finish mr s).1.reader.frames
            ≡ s.reader.frames ++ (record { protocol = p; meta = m; payload = payload } ∷ []))
        × ((check_and_finish mr s).1.read_state ≡ waiting_for_stx)
        × ((check_and_finish mr s).1.response_errors ≡ s.response_errors)
        × ((check_and_finish mr s).1.reader.data_start ≡ some (length (b ∷ head)))
        × ((check_and_finish mr s).2 ≡ false)
  unfolding check_response_id finish_frame try_to_read_meta set_state
  finish_lem s b head payload no_protocol m hb hd hp np quiet hm hc = absurd (np refl)
  finish_lem s b head payload chain_pack m hb hd hp np quiet hm hc =
      rw (hb, hd, hp, hm, quiet, hc)
        (refl, (rw (drop-append_self head payload)), refl, refl, refl, refl)
  finish_lem s b head payload cpon m hb hd hp np quiet hm hc =
      rw (hb, hd, hp, hm, quiet, hc)
        (refl, (rw (drop-append_self head payload)), refl, refl, refl, refl)

  escaped_all-append : (xs ys : Str) → escaped_all (xs ++ ys) ≡ escaped_all xs ++ escaped_all ys
  unfolding escaped_all
  escaped_all-append [] ys = refl
  escaped_all-append (x ∷ xs) ys =
      rw (escaped_all-append xs ys)
        (sym (append_assoc (escaped x) (escaped_all xs) (escaped_all ys)))

  -- The reader that STX leaves.
  opened : SerialReader → SerialReader
  opened r = record r { reader = record r.reader { frame_meta = no_meta; data_start = none } }

  step-stx : (r : SerialReader) → step mr r stx ≡ ([], reading (opened r) [] crc_init stx, false)
  unfolding step set_state opened
  step-stx r = refl

  -- The digest of a frame's bytes.
  abbrev frame_digest : Str → ℕ
  frame_digest bytes = crc_add_all crc_init (escaped_all bytes)

  -- The reader at the end of a frame's bytes.
  abbrev at_end : SerialReader → Str → SerialReader
  at_end r bytes = reading (opened r) bytes (frame_digest bytes) (last_of mr stx bytes)

  steps-body :
      (r : SerialReader) (bytes rest : Str)
      → steps mr r (stx ∷ (escaped_all bytes ++ rest)) ≡ steps mr (at_end r bytes) rest
  unfolding steps
  steps-body r bytes rest = rw (step-stx r) (
      steps-append mr (escaped_all bytes) rest (reading (opened r) [] crc_init stx)
      ∙ rw (steps-escaped_all mr bytes (opened r) [] crc_init stx (omega arith)))

  -- ETX and what follows it.
  step-etx_crc :
      (r : SerialReader) (bytes : Str)
      → r.with_crc_check ≡ true
      → step mr (at_end r bytes) etx
        ≡ ([], reading_crc (at_end r bytes) [] (last_of mr stx bytes), false)
  unfolding step set_state opened
  step-etx_crc r bytes h = rw h

  step-etx_plain :
      (r : SerialReader) (bytes : Str)
      → r.with_crc_check ≡ false
      → step mr (at_end r bytes) etx ≡ check_and_finish mr (at_end r bytes)
  unfolding step set_state opened
  step-etx_plain r bytes h = rw h

  -- The reader before the frame is taken over.
  abbrev ending : Bool → SerialReader → Str → SerialReader
  ending true r bytes =
      reading_crc (at_end r bytes) (crc_bytes (crc_result (frame_digest bytes)))
        (last_code (crc_result (frame_digest bytes) % 256))
  ending false r bytes = at_end r bytes

  steps-frame_bytes :
      (w : Bool) (r : SerialReader) (head payload : Str)
      → r.with_crc_check ≡ w
      → steps mr r (frame_bytes w head payload)
        ≡ ended (check_and_finish mr (ending w r (head ++ payload)))
  unfolding frame_bytes
  steps-frame_bytes true r head payload h =
      rw (← escaped_all-append head payload)
        (steps-body r (head ++ payload) _ ∙ unfold_etx (head ++ payload))
    where
      unfold_etx :
          (bytes : Str)
          → steps mr
              (at_end r bytes)
              (etx ∷ escaped_all (crc_bytes (crc_result (frame_digest bytes))))
            ≡ ended (check_and_finish mr (ending true r bytes))
      unfold_etx bytes =
          unfold steps in
          rw (step-etx_crc r bytes h) (
            steps-crc (at_end r bytes) (last_of mr stx bytes) (crc_result (frame_digest bytes))
              (last_of-ne-esc mr bytes stx (omega arith)))
  steps-frame_bytes false r head payload h = rw (← escaped_all-append head payload) (
      steps-body r (head ++ payload) (etx ∷ [])
      ∙ (unfold steps in rw (step-etx_plain r (head ++ payload) h)))

  finished :
      (w : Bool) (r : SerialReader) (b : ℕ) (head payload : Str) (p : Protocol) (m : MetaData)
      → r.with_crc_check ≡ w
      → protocol_of_byte (some b) ≡ p
      → p ≢ no_protocol
      → throws_id m ≡ false
      → mr.read_meta p ((b ∷ head) ++ payload) 1 ≡ meta_read m (some (length (b ∷ head)))
      → let o = check_and_finish mr (ending w r ((b ∷ head) ++ payload)) in
        (o.0 ≡ ids_of (response_id m))
        × (o.1.reader.frames
            ≡ r.reader.frames ++ (record { protocol = p; meta = m; payload = payload } ∷ []))
        × (o.1.read_state ≡ waiting_for_stx)
        × (o.1.response_errors ≡ r.response_errors)
        × (o.1.reader.data_start ≡ some (length (b ∷ head)))
        × (o.2 ≡ false)
  unfolding opened
  finished true r b head payload p m h hp np quiet hm =
      finish_lem (ending true r ((b ∷ head) ++ payload)) b head payload p m refl refl hp np quiet hm
        (rw
          (
            message_crc-crc_bytes _ (crc_result-lt (frame_digest ((b ∷ head) ++ payload))),
            ==_refl (crc_result (frame_digest ((b ∷ head) ++ payload))),
          )
          (rw h))
  finished false r b head payload p m h hp np quiet hm =
      finish_lem (ending false r ((b ∷ head) ++ payload)) b head payload p m refl refl hp np quiet
        hm (rw h)

  -- `addData` looks for meta data again after its loop, which finds none once they are read.
  add_data-started :
      (r : SerialReader) (bytes : Str) (s : Stepped) (n : ℕ)
      → steps mr r bytes ≡ ended s
      → s.2 ≡ false
      → s.1.reader.data_start ≡ some n
      → add_data mr r bytes ≡ (s.0, s.1, false)
  unfolding add_data check_response_id try_to_read_meta
  add_data-started r bytes s n h quiet hs =
      let calm : ended s ≡ (s.0 ++ [], s.1, false) = ap (λ t. ended (s.0, s.1, t)) quiet in
      rw (h, calm) (rw hs (rw (append-nil s.0, append-nil s.0)))

  -- The data that the writer made of a frame, given to a reader in any state (within a frame,
  -- within a CRC, or with frames still to be taken), add exactly this frame to the frames of the
  -- reader, answer the request id if it is a response, add no error and leave the reader waiting
  -- for the next frame. The frame starts with a protocol byte that the reader knows, and the meta
  -- data that the stream reader finds in it end with the frame's head; if they are those of a
  -- response, their request id is no NaN. With and without the CRC. No exception is thrown.
  pub add_data-frame_bytes :
      (r : SerialReader) (b : ℕ) (head payload : Str) (p : Protocol) (m : MetaData)
      → protocol_of_byte (some b) ≡ p
      → p ≢ no_protocol
      → throws_id m ≡ false
      → mr.read_meta p ((b ∷ head) ++ payload) 1 ≡ meta_read m (some (length (b ∷ head)))
      → let o = add_data mr r (frame_bytes r.with_crc_check (b ∷ head) payload) in
        (o.0 ≡ ids_of (response_id m))
        × (o.1.reader.frames
            ≡ r.reader.frames ++ (record { protocol = p; meta = m; payload = payload } ∷ []))
        × (o.1.read_state ≡ waiting_for_stx)
        × (o.1.response_errors ≡ r.response_errors)
        × (o.2 ≡ false)
  add_data-frame_bytes r b head payload p m hp np quiet hm =
      let f = finished r.with_crc_check r b head payload p m refl hp np quiet hm in
      rw
        (add_data-started r _ _ (length (b ∷ head))
          (steps-frame_bytes r.with_crc_check r (b ∷ head) payload refl) f.5 f.4)
        (f.0, f.1, f.2, f.3, refl)
