-- ===== src/Transport/StreamMeta.antt =====
-- What trying to read the meta data of a frame does while the frame arrives on a stream.
use libshv.Base.{
  false, ℕ, ◌+◌, ◌^◌, ◌<◌, ◌≡◌, ◌≢◌, inl, inr, refl, ap, ◌∙◌, Option, none, some, List, [], ◌∷◌,
  ◌++◌, Str, length, get_elem?, append-nil, Option-cases,
}
use libshv.Base.Int.{ℤ}
use libshv.Rpc.Value.{MetaData}
use libshv.Rpc.Convert.{Floats}
use libshv.ChainPack.Partial.{append-split, length_bytes}
use libshv.Transport.Frames.{
  Protocol, no_protocol, chain_pack, cpon, RpcFrame, MetaReader, ReadMeta, meta_read,
  parse_exception, runtime_error, FrameReader, Tried, throws_id, try_to_read_meta, take_meta,
  read_protocol, unless_started, protocol_of_byte, response_id,
}
use libshv.Transport.Stream.{ids_of}

-- A frame to send: its head is the byte of the protocol and the meta data.
pub record Sent : Type 0 where
  pub protocol : Protocol
  pub protocol_byte : ℕ
  pub meta_bytes : Str
  pub meta : MetaData
  pub payload : Str

abbrev pub head_bytes : Sent → Str
head_bytes f = f.protocol_byte ∷ f.meta_bytes

abbrev pub received : Sent → RpcFrame
received f = record { protocol = f.protocol; meta = f.meta; payload = f.payload }

abbrev pub frame_length : Sent → ℕ
frame_length f = length (head_bytes f) + length f.payload

-- The bytes of frames that are sent one after the other.
abbrev pub stream : List Sent → Str
stream [] = []
stream (f ∷ fs) = length_bytes (frame_length f) ++ ((head_bytes f ++ f.payload) ++ stream fs)

abbrev pub IsUnfinished : ReadMeta → Type 0
IsUnfinished (parse_exception m) = Unit
IsUnfinished (runtime_error m) = ⊥
IsUnfinished (meta_read m none) = Unit
IsUnfinished (meta_read m (some n)) = ⊥

-- The reader of meta data reads those of the frame where they are whole, and no position before, and
-- asking them for the id of a response does not throw.
pub record IsReadable ⦃floats : Floats⦄ (reader : MetaReader) (f : Sent) : Type 0 where
  pub known : f.protocol ≢ no_protocol
  pub byte : protocol_of_byte (some f.protocol_byte) ≡ f.protocol
  pub small : frame_length f < 2 ^ 63
  pub quiet : throws_id f.meta ≡ false
  pub whole :
      (pre tail : Str)
      → reader.read_meta f.protocol (pre ++ (head_bytes f ++ tail)) (length pre + 1)
        ≡ meta_read f.meta (some (length pre + length (head_bytes f)))
  pub part :
      (pre b w : Str) (c : ℕ)
      → b ++ (c ∷ w) ≡ f.meta_bytes
      → IsUnfinished (reader.read_meta f.protocol (pre ++ (f.protocol_byte ∷ b)) (length pre + 1))

-- What the reader knows of the first of the frames that are still to come.
abbrev pub IsHeld : FrameReader → Option ℕ → List Sent → Type 0
IsHeld r none fs = Unit
IsHeld r (some start) [] = ⊥
IsHeld r (some start) (f ∷ fs) =
    (start ≡ length (length_bytes (frame_length f)) + length (head_bytes f))
    × (r.frame_meta ≡ f.meta)
    × (r.frame_protocol ≡ f.protocol)

get_elem?-append : (pre rest : Str) (c : ℕ) → get_elem? (pre ++ (c ∷ rest)) (length pre) ≡ some c
get_elem?-append [] rest c = refl
get_elem?-append (x ∷ pre) rest c = get_elem?-append pre rest c

get_elem?-end : (pre : Str) → get_elem? pre (length pre) ≡ none
get_elem?-end [] = refl
get_elem?-end (x ∷ pre) = get_elem?-end pre

module _ ⦃floats : Floats⦄ (reader : MetaReader) where
  read_protocol-known :
      (r : FrameReader) (p : Protocol) (buffer : Str) (at : ℕ)
      → p ≢ no_protocol
      → read_protocol reader r p buffer at ≡ take_meta r p (reader.read_meta p buffer at)
  read_protocol-known r no_protocol buffer at h = absurd (h refl)
  read_protocol-known r chain_pack buffer at h = refl
  read_protocol-known r cpon buffer at h = refl

  -- The ids that are still to be reported for frames to come.
  abbrev pub owed : Option ℕ → List Sent → List ℤ
  owed start [] = []
  owed none (f ∷ fs) = ids_of (response_id f.meta) ++ owed none fs
  owed (some n) (f ∷ fs) = owed none fs

  -- What trying to read the meta data of the next frame does to what is known and owed.
  pub record IsTried (f : Sent) (fs : List Sent) (r : FrameReader) (out : Tried) : Type 0 where
    pub quiet : out.2 ≡ false
    pub frames_kept : out.1.frames ≡ r.frames
    pub held : IsHeld out.1 out.1.data_start (f ∷ fs)
    pub paid : ids_of out.0 ++ owed out.1.data_start (f ∷ fs) ≡ owed r.data_start (f ∷ fs)

  unread-IsTried :
      (f : Sent) (fs : List Sent) (r : FrameReader)
      → IsHeld r r.data_start (f ∷ fs)
      → IsTried f fs r (none, r, false)
  unread-IsTried f fs r h = record { quiet = refl; frames_kept = refl; held = h; paid = refl }

  unfinished-IsTried :
      (f : Sent) (fs : List Sent) (r : FrameReader) (p : Protocol) (q : ReadMeta)
      → IsUnfinished q
      → r.data_start ≡ none
      → IsTried f fs r (take_meta r p q)
  unfinished-IsTried f fs r p (parse_exception m) u e = record {
    quiet = refl;
    frames_kept = refl;
    held = rw e tt;
    paid = refl;
  }
  unfinished-IsTried f fs r p (meta_read m none) u e = record {
    quiet = refl;
    frames_kept = refl;
    held = rw e tt;
    paid = refl;
  }
  unfinished-IsTried f fs r p (runtime_error m) u e = absurd u
  unfinished-IsTried f fs r p (meta_read m (some n)) u e = absurd u

  abbrev pub start_of : Sent → ℕ
  start_of f = length (length_bytes (frame_length f)) + length (head_bytes f)

  finished-IsTried :
      (f : Sent) (fs : List Sent) (r : FrameReader)
      → throws_id f.meta ≡ false
      → r.data_start ≡ none
      → IsTried f fs r (take_meta r f.protocol (meta_read f.meta (some (start_of f))))
  finished-IsTried f fs r q e = record {
    quiet = q;
    frames_kept = refl;
    held = (refl, refl, refl);
    paid = rw e refl;
  }

  unfoldable pub tried : FrameReader → Sent → Str → Tried
  tried r f b =
      let len = length_bytes (frame_length f) in try_to_read_meta reader r (len ++ b) (length len)

  -- Not started: the byte of the protocol and the meta data are read.
  tried-start :
      (r : FrameReader) (f : Sent) (b : Str)
      → IsReadable reader f
      → r.data_start ≡ none
      → tried r f (f.protocol_byte ∷ b)
        ≡ take_meta r f.protocol (
            reader.read_meta f.protocol
              (length_bytes (frame_length f) ++ (f.protocol_byte ∷ b))
              (length (length_bytes (frame_length f)) + 1))
  unfolding tried try_to_read_meta
  tried-start r f b ok e =
      let len = length_bytes (frame_length f) in
      let buffer = len ++ (f.protocol_byte ∷ b) in
      ap
        (λ d. unless_started d r (
          read_protocol reader r (protocol_of_byte (get_elem? buffer (length len))) buffer
            (length len + 1)))
        e
      ∙ ap (λ c. read_protocol reader r (protocol_of_byte c) buffer (length len + 1))
          (get_elem?-append len b f.protocol_byte)
      ∙ ap (λ p. read_protocol reader r p buffer (length len + 1)) ok.byte
      ∙ read_protocol-known r f.protocol buffer (length len + 1) ok.known

  tried-held :
      (r : FrameReader) (f : Sent) (b : Str) (n : ℕ)
      → r.data_start ≡ some n
      → tried r f b ≡ (none, r, false)
  unfolding tried try_to_read_meta
  tried-held r f b n e = rw e refl

  tried-empty : (r : FrameReader) (f : Sent) → r.data_start ≡ none → tried r f [] ≡ (none, r, false)
  unfolding tried try_to_read_meta
  tried-empty r f e =
      let len = length_bytes (frame_length f) in rw (e, append-nil len, get_elem?-end len) refl

  tried-whole :
      (r : FrameReader) (f : Sent) (tail : Str)
      → IsReadable reader f
      → r.data_start ≡ none
      → tried r f (head_bytes f ++ tail)
        ≡ take_meta r f.protocol (meta_read f.meta (some (start_of f)))
  tried-whole r f tail ok e =
      tried-start r f (f.meta_bytes ++ tail) ok e
      ∙ ap (take_meta r f.protocol) (ok.whole (length_bytes (frame_length f)) tail)

  pub tried-IsTried :
      (r : FrameReader) (f : Sent) (fs : List Sent) (b z y : Str)
      → IsReadable reader f
      → IsHeld r r.data_start (f ∷ fs)
      → b ++ z ≡ head_bytes f ++ y
      → IsTried f fs r (tried r f b)
  tried-IsTried r f fs b z y ok h e = elim (Option-cases r.data_start) [
    | inr (n, d) ↦ rw (tried-held r f b n d) (unread-IsTried f fs r h)
    | inl d ↦ elim (append-split b z (head_bytes f) y e) [
      | inr (tail, s, t) ↦ rw (s, tried-whole r f tail ok d) (finished-IsTried f fs r ok.quiet d)
      | inl (c, w, s, t) ↦ part_read c w b s d
    ]
  ]
    where
      part_read :
          (c : ℕ) (w b : Str)
          → b ++ (c ∷ w) ≡ head_bytes f
          → r.data_start ≡ none
          → IsTried f fs r (tried r f b)
      part_read c w [] s d = rw (tried-empty r f d) (unread-IsTried f fs r h)
      part_read c w (x ∷ b) s d =
          let same : x ≡ f.protocol_byte = cc in
          let rest : b ++ (c ∷ w) ≡ f.meta_bytes = cc in
          rw (same, tried-start r f b ok d)
            (unfinished-IsTried f fs r f.protocol _
              (ok.part (length_bytes (frame_length f)) b w c rest) d)

  held-start :
      (r : FrameReader) (f : Sent) (fs : List Sent) (n : ℕ) (o : Option ℕ)
      → IsHeld r o (f ∷ fs)
      → o ≡ some n
      → o ≡ some (start_of f)
  held-start r f fs n none h e = cc
  held-start r f fs n (some m) h e = ap (λ t. some t) h.0

  -- With the whole head in the buffer, the position of the payload is known.
  pub tried-started :
      (r : FrameReader) (f : Sent) (fs : List Sent) (tail : Str)
      → IsReadable reader f
      → IsHeld r r.data_start (f ∷ fs)
      → (tried r f (head_bytes f ++ tail)).1.data_start ≡ some (start_of f)
  tried-started r f fs tail ok h = elim (Option-cases r.data_start) [
    | inr (n, d) ↦
        rw (tried-held r f (head_bytes f ++ tail) n d) (held-start r f fs n r.data_start h d)
    | inl d ↦ rw (tried-whole r f tail ok d) refl
  ]
