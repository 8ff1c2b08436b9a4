-- ===== src/Transport/StreamDelivery.antt =====
-- Frames written on a stream come out of the stream's reader, whatever pieces they arrive in.
use libshv.Base.{
  ℕ, zero, suc, ◌<◌, ◌≡◌, ◌≢◌, inl, inr, refl, sym, ap, ◌∙◌, Option, none, some, List, [], ◌∷◌,
  ◌++◌, Str, length, length-append, append-nil, append_assoc, map, arith, All,
}
use libshv.Base.Int.{ℤ}
use libshv.Rpc.Convert.{Floats}
use libshv.ChainPack.Uint.{unpack_uint}
use libshv.ChainPack.Partial.{append-split, length_bytes, unpack-part}
use libshv.Transport.Frames.{MetaReader, FrameReader}
use libshv.Transport.Stream.{
  StreamError, StreamReader, Read, stop, again, frame_taken, ids_of, round, rounds,
}
use libshv.Transport.StreamRound.{round-part, round-whole}
use libshv.Transport.StreamMeta.{
  Sent, head_bytes, received, frame_length, stream, IsReadable, IsHeld, owed, start_of, tried,
  tried-IsTried, tried-started,
}

unpack-nothing : unpack_uint [] ≡ none
unfolding unpack_uint
unpack-nothing = refl

module _ ⦃floats : Floats⦄ (reader : MetaReader) where
  -- What is left to come, and what has come out, when the loop ends.
  pub record IsOut (fs : List Sent) (z : Str) (r : FrameReader) (out : Read) (gs : List Sent)
      : Type 0 where
    pub no_error : out.error ≡ none
    pub text : out.left.read_buffer ++ z ≡ stream gs
    pub held : IsHeld out.left.frame_reader out.left.frame_reader.data_start gs
    pub frames_in_order :
        out.left.frame_reader.frames ++ map received gs ≡ r.frames ++ map received fs
    pub ids_in_order :
        out.ids ++ owed reader out.left.frame_reader.data_start gs ≡ owed reader r.data_start fs
    pub all_out : z ≡ [] → gs ≡ []

  abbrev pub Delivers : List Sent → ℕ → FrameReader → Str → Str → Type 0
  Delivers fs fuel r b z =
      (out : Read) × (gs : List Sent) × (All (IsReadable reader) gs)
      × (rounds reader fuel (record { frame_reader = r; read_buffer = b }) ≡ some out)
      × IsOut fs z r out gs

  stopped :
      (s s' : StreamReader) (e : Option StreamError) (id : Option ℤ) (fuel : ℕ)
      → round reader s ≡ stop e id s'
      → rounds reader (suc fuel) s ≡ some (record { ids = ids_of id; error = e; left = s' })
  unfolding rounds
  stopped s s' e id fuel h = rw h refl

  continued :
      (s s' : StreamReader) (id : Option ℤ) (fuel : ℕ) (out : Read)
      → round reader s ≡ again id s'
      → rounds reader fuel s' ≡ some out
      → rounds reader (suc fuel) s ≡ some (record out { ids = ids_of id ++ out.ids })
  unfolding rounds
  continued s s' id fuel out h k = rw (h, k) refl

  round-unsized :
      (s : StreamReader) → unpack_uint s.read_buffer ≡ none → round reader s ≡ stop none none s
  unfolding round
  round-unsized s h = rw h refl

  -- The loop ends without having taken anything.
  unsized-Delivers :
      (fs : List Sent) (fuel : ℕ) (r : FrameReader) (b z : Str)
      → All (IsReadable reader) fs
      → IsHeld r r.data_start fs
      → b ++ z ≡ stream fs
      → unpack_uint b ≡ none
      → (z ≡ [] → fs ≡ [])
      → Delivers fs (suc fuel) r b z
  unsized-Delivers fs fuel r b z ok h e n k =
      let s : StreamReader = record { frame_reader = r; read_buffer = b } in
      (
        record { ids = []; error = none; left = s },
        fs,
        ok,
        stopped s s none none fuel (round-unsized s n),
        record {
          no_error = refl;
          text = e;
          held = h;
          frames_in_order = refl;
          ids_in_order = refl;
          all_out = k;
        },
      )

  part-Delivers :
      (f : Sent) (fs : List Sent) (fuel : ℕ) (r : FrameReader) (w z v : Str) (c : ℕ)
      → All (IsReadable reader) (f ∷ fs)
      → IsHeld r r.data_start (f ∷ fs)
      → w ++ (c ∷ v) ≡ head_bytes f ++ f.payload
      → (length_bytes (frame_length f) ++ w) ++ z ≡ stream (f ∷ fs)
      → z ≢ []
      → Delivers (f ∷ fs) (suc fuel) r (length_bytes (frame_length f) ++ w) z
  part-Delivers f fs fuel r w z v c ok h e t n =
      let b = length_bytes (frame_length f) ++ w in
      let out = tried reader r f w in
      let now = tried-IsTried reader r f fs w (c ∷ v) f.payload ok.0 h e in
      let s : StreamReader = record { frame_reader = out.1; read_buffer = b } in
      (
        record { ids = ids_of out.0; error = none; left = s },
        f ∷ fs,
        ok,
        stopped (record { frame_reader = r; read_buffer = b }) s none out.0 fuel
            (round-part reader r f fs w v c ok.0 h e),
        record {
          no_error = refl;
          text = t;
          held = now.held;
          frames_in_order = ap (λ l. l ++ map received (f ∷ fs)) now.frames_kept;
          ids_in_order = now.paid;
          all_out = λ k. absurd (n k);
        },
      )

  held-received :
      (r : FrameReader) (f : Sent) (fs : List Sent) (o : Option ℕ) (n : ℕ)
      → IsHeld r o (f ∷ fs)
      → o ≡ some n
      → (r.frame_meta ≡ f.meta) × (r.frame_protocol ≡ f.protocol)
  held-received r f fs none n h e = absurd cc
  held-received r f fs (some m) n h e = (h.1, h.2)

  frames-taken :
      (t r : FrameReader) (f : Sent) (fs : List Sent)
      → t.frames ≡ r.frames
      → t.frame_meta ≡ f.meta
      → t.frame_protocol ≡ f.protocol
      → (frame_taken t f.payload).frames ++ map received fs ≡ r.frames ++ map received (f ∷ fs)
  frames-taken t r f fs e g k =
      rw (e, g, k) (append_assoc r.frames (received f ∷ []) (map received fs))

  whole-Delivers :
      (f : Sent) (fs : List Sent) (fuel : ℕ) (r : FrameReader) (d z : Str)
      → All (IsReadable reader) (f ∷ fs)
      → IsHeld r r.data_start (f ∷ fs)
      → ((r' : FrameReader) → IsHeld r' r'.data_start fs → Delivers fs fuel r' d z)
      → Delivers
          (f ∷ fs)
          (suc fuel)
          r
          (length_bytes (frame_length f) ++ ((head_bytes f ++ f.payload) ++ d))
          z
  whole-Delivers f fs fuel r d z ok h ih =
      let body = head_bytes f ++ f.payload in
      let out = tried reader r f (body ++ d) in
      let now =
        tried-IsTried reader r f fs (body ++ d) [] (f.payload ++ d) ok.0 h
          (append-nil (body ++ d) ∙ append_assoc (head_bytes f) f.payload d) in
      let start : out.1.data_start ≡ some (start_of reader f) =
        rw (append_assoc (head_bytes f) f.payload d)
          (tried-started reader r f fs (f.payload ++ d) ok.0 h) in
      let (meta_ok, protocol_ok) = held-received out.1 f fs out.1.data_start _ now.held start in
      let r' = frame_taken out.1 f.payload in
      let (o, gs, readable, run, rest) = ih r' tt in
      (
        record o { ids = ids_of out.0 ++ o.ids },
        gs,
        readable,
        continued
            (record {
              frame_reader = r;
              read_buffer = length_bytes (frame_length f) ++ (body ++ d);
            })
            (record { frame_reader = r'; read_buffer = d }) out.0 fuel o
            (round-whole reader r f fs d ok.0 h) run,
        record {
          no_error = rest.no_error;
          text = rest.text;
          held = rest.held;
          frames_in_order =
              rest.frames_in_order ∙ frames-taken out.1 r f fs now.frames_kept meta_ok protocol_ok;
          ids_in_order =
              append_assoc (ids_of out.0) o.ids _
              ∙ ap (λ l. ids_of out.0 ++ l) rest.ids_in_order
              ∙ sym (ap (λ s. ids_of out.0 ++ owed reader s (f ∷ fs)) start)
              ∙ now.paid;
          all_out = rest.all_out;
        },
      )

  pub rounds_lem :
      (fs : List Sent) (fuel : ℕ) (r : FrameReader) (b z : Str)
      → All (IsReadable reader) fs
      → IsHeld r r.data_start fs
      → b ++ z ≡ stream fs
      → length b < fuel
      → Delivers fs fuel r b z
  rounds_lem fs zero r b z ok h e lt = absurd (omega (arith, lt))
  rounds_lem [] (suc fuel) r [] z ok h e lt =
      unsized-Delivers [] fuel r [] z ok h e unpack-nothing (λ k. refl)
  rounds_lem [] (suc fuel) r (c ∷ b) z ok h e lt = absurd cc
  rounds_lem (f ∷ fs) (suc fuel) r b z ok h e lt =
      let len = length_bytes (frame_length f) in
      let body = head_bytes f ++ f.payload in
      elim (append-split b z len (body ++ stream fs) e) [
        | inl (c, w, s, t) ↦
            unsized-Delivers (f ∷ fs) fuel r b z ok h e
              (unpack-part (frame_length f) c b w (omega (arith, ok.0.small)) s) (λ k. absurd cc)
        | inr (w, s, t) ↦ elim (append-split w z body (stream fs) t) [
          | inl (c, v, p, q) ↦ rw s (part-Delivers f fs fuel r w z v c ok h p (rw s at e) (λ k. cc))
          | inr (d, p, q) ↦
              rw (s, p)
                (whole-Delivers f fs fuel r d z ok h (λ r' h'. rounds_lem fs fuel r' d z ok.1 h' q (
                  omega (
                    arith,
                    ap length s,
                    ap length p,
                    length-append len w,
                    length-append body d,
                    length-append (head_bytes f) f.payload,
                  ))))
        ]
      ]
