-- ===== src/Transport/StreamRound.antt =====
-- What a round of the loop of the stream's reader does with a part of a frame and with a whole one.
use libshv.Base.{
  append-nil, [], ℕ, suc, ◌+◌, ◌-◌, ◌%◌, ◌^◌, ◌≡◌, refl, sym, ap, ◌∙◌, true, false, leb, ltb, none,
  some, List, ◌∷◌, ◌++◌, Str, length, length-append, take, drop, take-append_self, drop-append_self,
  append_assoc, arith,
}
use libshv.Rpc.Convert.{Floats}
use libshv.ChainPack.Partial.{length_bytes, unpack-length_bytes, length-length_bytes}
use libshv.Transport.Frames.{MetaReader, FrameReader, Tried}
use libshv.Transport.Stream.{stop, again, frame_taken, take_whole, with_meta, round}
use libshv.Transport.StreamMeta.{
  Sent, head_bytes, frame_length, IsReadable, IsHeld, start_of, tried, tried-IsTried, tried-started,
}

drop-at : (n : ℕ) (x y b : Str) → n ≡ length x → b ≡ x ++ y → drop n b ≡ y
drop-at n x y b h e = rw (h, e) (drop-append_self x y)

take-at : (n : ℕ) (x y : Str) → n ≡ length x → take n (x ++ y) ≡ x
take-at n x y h = rw h (take-append_self x y)

with_meta-quiet :
    (buffer : Str) (total : ℕ) (out : Tried)
    → out.2 ≡ false
    → with_meta buffer total out ≡ with_meta buffer total (out.0, out.1, false)
with_meta-quiet buffer total out h = ap (λ t. with_meta buffer total (out.0, out.1, t)) h

with_meta-whole :
    (buffer d bytes : Str) (total start : ℕ) (out : Tried)
    → out.2 ≡ false
    → leb total (length buffer) ≡ true
    → ltb (length buffer) start ≡ false
    → out.1.data_start ≡ some start
    → take ((total + (2 ^ 64 - start)) % 2 ^ 64) (drop start buffer) ≡ bytes
    → drop total buffer ≡ d
    → with_meta buffer total out
      ≡ again out.0 (record { frame_reader = frame_taken out.1 bytes; read_buffer = d })
with_meta-whole buffer d bytes total start out quiet enough inside started taken left =
    with_meta-quiet buffer total out quiet
    ∙ rw enough
        (ap (take_whole buffer total (out.0, out.1)) started ∙ rw (inside, taken, left) refl)

module _ ⦃floats : Floats⦄ (reader : MetaReader) where
  -- A round with the length of a frame in the buffer.
  round-sized :
      (r : FrameReader) (f : Sent) (b : Str)
      → IsReadable reader f
      → round reader (record { frame_reader = r; read_buffer = length_bytes (frame_length f) ++ b })
        ≡ with_meta
            (length_bytes (frame_length f) ++ b)
            (length (length_bytes (frame_length f)) + frame_length f)
            (tried reader r f b)
  unfolding round tried
  round-sized r f b ok =
      let len = length_bytes (frame_length f) in
      let cut : length (len ++ b) - length b ≡ length len = omega (arith, length-append len b) in
      let total : (length len + frame_length f) % 2 ^ 64 ≡ length len + frame_length f =
        omega (arith, ok.small, length-length_bytes (frame_length f)) in
      rw (unpack-length_bytes (frame_length f) b (omega (arith, ok.small)), cut, total) refl

  pub round-part :
      (r : FrameReader) (f : Sent) (fs : List Sent) (b w : Str) (c : ℕ)
      → IsReadable reader f
      → IsHeld r r.data_start (f ∷ fs)
      → b ++ (c ∷ w) ≡ head_bytes f ++ f.payload
      → round reader (record { frame_reader = r; read_buffer = length_bytes (frame_length f) ++ b })
        ≡ stop none (tried reader r f b).0 (record {
          frame_reader = (tried reader r f b).1;
          read_buffer = length_bytes (frame_length f) ++ b;
        })
  round-part r f fs b w c ok h e =
      let len = length_bytes (frame_length f) in
      let size : length b + suc (length w) ≡ frame_length f =
        sym (length-append b (c ∷ w)) ∙ ap length e ∙ length-append (head_bytes f) f.payload in
      let more : leb (length len + frame_length f) (length (len ++ b)) ≡ false =
        ground (arith, length-append len b) in
      let now = tried-IsTried reader r f fs b (c ∷ w) f.payload ok h e in
      round-sized r f b ok
      ∙ with_meta-quiet (len ++ b) (length len + frame_length f) (tried reader r f b) now.quiet
      ∙ rw more refl

  pub round-whole :
      (r : FrameReader) (f : Sent) (fs : List Sent) (d : Str)
      → IsReadable reader f
      → IsHeld r r.data_start (f ∷ fs)
      → (let out = tried reader r f ((head_bytes f ++ f.payload) ++ d) in
          round reader (record {
            frame_reader = r;
            read_buffer = length_bytes (frame_length f) ++ ((head_bytes f ++ f.payload) ++ d);
          })
          ≡ again out.0 (record { frame_reader = frame_taken out.1 f.payload; read_buffer = d }))
  round-whole r f fs d ok h =
      let len = length_bytes (frame_length f) in
      let body = head_bytes f ++ f.payload in
      let buffer = len ++ (body ++ d) in
      let out = tried reader r f (body ++ d) in
      let now =
        tried-IsTried reader r f fs (body ++ d) [] (f.payload ++ d) ok h
          (append-nil (body ++ d) ∙ append_assoc (head_bytes f) f.payload d) in
      let total = length len + frame_length f in
      let size : length buffer ≡ total + length d = omega (
        arith,
        length-append len (body ++ d),
        length-append body d,
        length-append (head_bytes f) f.payload,
      ) in
      let enough : leb total (length buffer) ≡ true = ground arith in
      let inside : ltb (length buffer) (start_of reader f) ≡ false = ground arith in
      let started : out.1.data_start ≡ some (start_of reader f) =
        rw (append_assoc (head_bytes f) f.payload d)
          (tried-started reader r f fs (f.payload ++ d) ok h) in
      let amount : (total + (2 ^ 64 - start_of reader f)) % 2 ^ 64 ≡ length f.payload =
        omega (arith, ok.small, length-length_bytes (frame_length f)) in
      round-sized r f (body ++ d) ok
      ∙ with_meta-whole buffer d f.payload total (start_of reader f) out now.quiet enough inside
          started
          (rw
            (
              amount,
              drop-at (start_of reader f) (len ++ head_bytes f) (f.payload ++ d) buffer
                  (sym (length-append len (head_bytes f)))
                  (ap (λ t. len ++ t) (append_assoc (head_bytes f) f.payload d)
                    ∙ sym (append_assoc len (head_bytes f) (f.payload ++ d))),
            )
            (take-at (length f.payload) f.payload d refl))
          (drop-at total (len ++ body) d buffer
            (omega (arith, length-append len body, length-append (head_bytes f) f.payload))
            (sym (append_assoc len body d)))
