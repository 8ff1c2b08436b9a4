-- ===== src/Transport/StreamRoundTrip.antt =====
-- Frames that one end of a stream queues are what the other end receives, in order.
use libshv.Base.{
  ℕ, suc, ◌%◌, ◌^◌, ◌<◌, ◌≡◌, refl, sym, ap, ◌∙◌, Bool, true, false, if◌then◌else◌, Option, none,
  some, List, [], ◌∷◌, ◌++◌, map, append-nil, append_assoc, Str, length, length-append, is_nil,
  arith, All,
}
use libshv.Base.Int.{ℤ}
use libshv.Rpc.Convert.{Floats}
use libshv.ChainPack.Partial.{length_bytes, length_bytes-pack}
use libshv.Transport.Frames.{MetaReader, FrameReader, response_id}
use libshv.Transport.Stream.{
  StreamError, StreamReader, Read, ids_of, kept_ids, add_stream_data, stream_frame, rounds,
}
use libshv.Transport.StreamMeta.{
  Sent, head_bytes, received, frame_length, stream, IsReadable, IsHeld, owed,
}
use libshv.Transport.StreamQueue.{add_frame_data, flat}
use libshv.Transport.StreamDelivery.{rounds_lem}
use libshv.Transport.StreamSession.{
  Signal, response_meta_received, data_chunk_received, ready_read, unknown_socket_error, signals,
  emitted, continued, then_receive, told, is_fine, frame_added, add_frames, response_ids,
  on_data_ready_read, receive,
}

told-append : (a b : List Signal) → told (a ++ b) ≡ told a ++ told b
told-append [] b = refl
told-append (response_meta_received id ∷ a) b = ap (λ l. id ∷ l) (told-append a b)
told-append (data_chunk_received ∷ a) b = told-append a b
told-append (ready_read ∷ a) b = told-append a b
told-append (unknown_socket_error ∷ a) b = told-append a b

is_fine-append : (a b : List Signal) → is_fine a ≡ true → is_fine (a ++ b) ≡ is_fine b
is_fine-append [] b h = refl
is_fine-append (response_meta_received id ∷ a) b h = is_fine-append a b h
is_fine-append (data_chunk_received ∷ a) b h = is_fine-append a b h
is_fine-append (ready_read ∷ a) b h = is_fine-append a b h
is_fine-append (unknown_socket_error ∷ a) b h = absurd cc

told-ids :
    (ids : List ℤ) (l : List Signal) → told (map response_meta_received ids ++ l) ≡ ids ++ told l
told-ids [] l = refl
told-ids (i ∷ ids) l = ap (λ t. i ∷ t) (told-ids ids l)

is_fine-ids :
    (ids : List ℤ) (l : List Signal) → is_fine (map response_meta_received ids ++ l) ≡ is_fine l
is_fine-ids [] l = refl
is_fine-ids (i ∷ ids) l = is_fine-ids ids l

told-ready : (b : Bool) → told (data_chunk_received ∷ (if b then [] else ready_read ∷ [])) ≡ []
told-ready true = refl
told-ready false = refl

is_fine-ready :
    (b : Bool) → is_fine (data_chunk_received ∷ (if b then [] else ready_read ∷ [])) ≡ true
is_fine-ready true = refl
is_fine-ready false = refl

told-signals : (out : Read) (e : Option StreamError) → e ≡ none → told (signals out e) ≡ out.ids
told-signals out e h = rw h (
    told-ids out.ids _
    ∙ ap (λ l. out.ids ++ l) (told-ready (is_nil out.left.frame_reader.frames))
    ∙ append-nil out.ids)

is_fine-signals : (out : Read) (e : Option StreamError) → e ≡ none → is_fine (signals out e) ≡ true
is_fine-signals out e h =
    rw h (is_fine-ids out.ids _ ∙ is_fine-ready (is_nil out.left.frame_reader.frames))

add_stream_frame :
    (q : List Str) (f : Sent)
    → frame_length f < 2 ^ 63
    → frame_added (some q) f
      ≡ some (q ++ ((length_bytes (frame_length f) ++ (head_bytes f ++ f.payload)) ∷ []))
unfolding add_frame_data stream_frame
add_stream_frame q f h =
    let m : frame_length f % 2 ^ 64 ≡ frame_length f = omega (arith, h) in
    rw (m, length_bytes-pack (frame_length f) (omega (arith, h)))
      (ap (λ (d : Str). some (q ++ (d ∷ [])))
        (append_assoc (length_bytes (frame_length f)) (head_bytes f) f.payload))

flat-append : (a b : List Str) → flat (a ++ b) ≡ flat a ++ flat b
flat-append [] b = refl
flat-append (d ∷ a) b = ap (λ t. d ++ t) (flat-append a b) ∙ sym (append_assoc d (flat a) (flat b))

module _ ⦃floats : Floats⦄ (reader : MetaReader) where
  -- What is queued is the frames behind their lengths.
  add_frames-stream :
      (fs : List Sent) (q : List Str)
      → All (IsReadable reader) fs
      → (q' : List Str) × (add_frames (some q) fs ≡ some q') × (flat q' ≡ flat q ++ stream fs)
  add_frames-stream [] q ok = (q, refl, sym (append-nil (flat q)))
  add_frames-stream (f ∷ fs) q ok =
      let d = length_bytes (frame_length f) ++ (head_bytes f ++ f.payload) in
      let (q', e, k) = add_frames-stream fs (q ++ (d ∷ [])) ok.1 in
      (
        q',
        ap (λ o. add_frames o fs) (add_stream_frame q f ok.0.small) ∙ e,
        k
            ∙ rw
                (
                  flat-append q (d ∷ []),
                  append-nil d,
                  append_assoc (flat q) d (stream fs),
                  append_assoc (length_bytes (frame_length f)) (head_bytes f ++ f.payload)
                      (stream fs),
                )
                refl,
      )

  owed-none : (fs : List Sent) → owed reader none fs ≡ response_ids fs
  owed-none [] = refl
  owed-none (f ∷ fs) = ap (λ l. ids_of (response_id f.meta) ++ l) (owed-none fs)

  held-nothing : (r : FrameReader) (o : Option ℕ) → IsHeld r o [] → o ≡ none
  held-nothing r none h = refl
  held-nothing r (some n) h = absurd h

  -- What has come out when all pieces have been received.
  record IsReceived (fs : List Sent) (r : FrameReader) (sig : List Signal) (s : StreamReader)
      : Type 0 where
    pub ids_told : told sig ≡ owed reader r.data_start fs
    pub fine : is_fine sig ≡ true
    pub frames_received : s.frame_reader.frames ≡ r.frames ++ map received fs
    pub nothing_left : s.read_buffer ≡ []
    pub nothing_begun : s.frame_reader.data_start ≡ none

  added :
      (r : FrameReader) (b p : Str) (out : Read)
      → out.error ≡ none
      → rounds reader (suc (length (b ++ p))) (record { frame_reader = r; read_buffer = b ++ p })
        ≡ some out
      → on_data_ready_read reader (record { frame_reader = r; read_buffer = b }) p
        ≡ some (signals out out.error, out.left)
  unfolding on_data_ready_read add_stream_data
  added r b p out h run =
      rw run (ap (λ e. emitted (some (record out { ids = kept_ids e out.ids }))) h)

  receive-IsReceived :
      (ps : List Str) (fs : List Sent) (r : FrameReader) (b : Str)
      → All (IsReadable reader) fs
      → IsHeld r r.data_start fs
      → b ++ flat ps ≡ stream fs
      → (flat ps ≡ [] → fs ≡ [])
      → (sig : List Signal) × (s : StreamReader) × (receive reader
            (record { frame_reader = r; read_buffer = b })
            ps
          ≡ some (sig, s))
        × IsReceived fs r sig s
  unfolding receive
  receive-IsReceived [] [] r b ok h e k = (
    [],
    record { frame_reader = r; read_buffer = b },
    refl,
    record {
      ids_told = refl;
      fine = refl;
      frames_received = sym (append-nil r.frames);
      nothing_left = sym (append-nil b) ∙ e;
      nothing_begun = held-nothing r r.data_start h;
    },
  )
  receive-IsReceived [] (f ∷ fs) r b ok h e k = absurd (cc (k refl))
  receive-IsReceived (p ∷ ps) fs r b ok h e k =
      let (out, gs, readable, run, o) =
        rounds_lem reader fs (suc (length (b ++ p))) r (b ++ p) (flat ps) ok h
          (append_assoc b p (flat ps) ∙ e) (omega arith) in
      let (sig, s, later, d) =
        receive-IsReceived ps gs out.left.frame_reader out.left.read_buffer readable o.held o.text
          o.all_out in
      let first = signals out out.error in
      (
        first ++ sig,
        s,
        ap (λ t. then_receive t (λ s'. receive reader s' ps)) (added r b p out o.no_error run)
            ∙ ap (continued first) later,
        record {
          ids_told =
              told-append first sig
              ∙ rw (told-signals out out.error o.no_error, d.ids_told) o.ids_in_order;
          fine = is_fine-append first sig (is_fine-signals out out.error o.no_error) ∙ d.fine;
          frames_received = d.frames_received ∙ o.frames_in_order;
          nothing_left = d.nothing_left;
          nothing_begun = d.nothing_begun;
        },
      )

  stream-nil : (fs : List Sent) → stream fs ≡ [] → fs ≡ []
  stream-nil [] h = refl
  stream-nil (f ∷ fs) h = absurd (
      omega (
        arith,
        ap length h,
        length-append (length_bytes (frame_length f)) ((head_bytes f ++ f.payload) ++ stream fs),
      ))

  -- Frames that are added to an empty queue of a stream's writer come out of a reader at the start
  -- of a frame, in their order, in whatever pieces the bytes of the queue arrive: no error is
  -- signalled, the ids of the responses among them are signalled in order, and nothing is left in
  -- the buffer. Their meta data are to be read up to the end of the head, and not from a part of it.
  pub receive-add_frames :
      (fs : List Sent) (s : StreamReader) (ps : List Str)
      → All (IsReadable reader) fs
      → s.frame_reader.data_start ≡ none
      → s.read_buffer ≡ []
      → flat ps ≡ stream fs
      → (q : List Str) × (sig : List Signal) × (s' : StreamReader) × (add_frames (some []) fs
          ≡ some q)
        × (flat q ≡ flat ps)
        × (receive reader s ps ≡ some (sig, s'))
        × (s'.frame_reader.frames ≡ s.frame_reader.frames ++ map received fs)
        × (told sig ≡ response_ids fs)
        × (is_fine sig ≡ true)
        × (s'.read_buffer ≡ [])
  receive-add_frames fs s ps ok d b e =
      let (q, added, bytes) = add_frames-stream fs [] ok in
      let (sig, s', run, o) =
        receive-IsReceived ps fs s.frame_reader s.read_buffer ok (rw d tt) (rw b e)
          (λ h. stream-nil fs (sym e ∙ h)) in
      (
        q,
        sig,
        s',
        added,
        bytes ∙ sym e,
        run,
        o.frames_received,
        o.ids_told ∙ rw d (owed-none fs),
        o.fine,
        o.nothing_left,
      )
