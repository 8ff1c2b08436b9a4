-- ===== src/Transport/ChainPackDelivery.antt =====
-- Frames with ChainPack meta data on a stream: the hypotheses on the reader of meta data hold.
use libshv.Base.{
  ◌≢◌, ℕ, suc, ◌+◌, ◌-◌, ◌*◌, ◌^◌, ◌<◌, ◌≡◌, refl, sym, ap, ◌∙◌, true, false, Option, none, some,
  List, [], ◌∷◌, ◌++◌, map, Str, length, length-append, drop, drop-append_self, append_assoc, arith,
  All,
}
use libshv.Rpc.Value.{MetaData, no_meta}
use libshv.Rpc.Convert.{Floats}
use libshv.Rpc.Meta.{meta_is_empty}
use libshv.ChainPack.Unpack.{ReadError, Outcome, done, failed, not_a_number}
use libshv.ChainPack.Reader.{read_meta_with, parse_meta_data}
use libshv.ChainPack.Writer.{write_meta}
use libshv.ChainPack.Writable.{IsWritableMeta}
use libshv.ChainPack.RoundTrip.{write_meta-entries}
use libshv.ChainPack.ReadPrefix.{parse_meta_data-cut}
use libshv.ChainPack.Partial.{or_nothing}
use libshv.Transport.Frames.{chain_pack, RpcFrame, ReadMeta, meta_read, throws_id}
use libshv.Transport.Stream.{StreamReader}
use libshv.Transport.StreamMeta.{Sent, head_bytes, received, stream, IsReadable, IsUnfinished}
use libshv.Transport.StreamQueue.{flat, add_frame_data}
use libshv.Transport.StreamSession.{Signal, told, is_fine, add_frames, response_ids, receive}
use libshv.Transport.StreamRoundTrip.{receive-add_frames}
use libshv.Transport.ChainPackFrames.{
  located, at_bytes, chain_pack_meta, meta_reader, frame_read, framed, from_frame_data,
  to_frame_head, to_frame_data, add_with_head, add_frame, add_all,
}

drop-past : (pre : Str) (c : ℕ) (rest : Str) → drop (length pre + 1) (pre ++ (c ∷ rest)) ≡ rest
drop-past pre c rest =
    let e : length pre + 1 ≡ length (pre ++ (c ∷ [])) = omega (arith, length-append pre (c ∷ [])) in
    rw (e, ← append_assoc pre (c ∷ []) rest) (drop-append_self (pre ++ (c ∷ [])) rest)

-- A frame in ChainPack with meta data that are written and read back, shorter than 2 ^ 63 bytes.
pub record IsChainPackFrame (f : RpcFrame) : Type 0 where
  pub in_chain_pack : f.protocol ≡ chain_pack
  pub writable : IsWritableMeta f.meta
  pub nonempty : meta_is_empty f.meta ≡ false
  pub small : length (or_nothing (write_meta f.meta)) + length f.payload + 1 < 2 ^ 63

-- A frame as it is sent.
abbrev pub sent : RpcFrame → Sent
sent f = record {
  protocol = chain_pack;
  protocol_byte = 1;
  meta_bytes = or_nothing (write_meta f.meta);
  meta = f.meta;
  payload = f.payload;
}

module _ ⦃floats : Floats⦄ where
  module _ (m : MetaData) (b : Str)
      (reads : (n : ℕ) (rest : Str)
        → 2 * suc (length b) < n
        → parse_meta_data n no_meta (b ++ (255 ∷ rest)) ≡ done m rest) where
    abbrev written : Str
    written = 139 ∷ (b ++ (255 ∷ []))

    read_whole :
        (n : ℕ) (tail : Str)
        → 2 * suc (length b) < n
        → read_meta_with (parse_meta_data n no_meta) (written ++ tail) ≡ done m tail
    read_whole n tail h = rw (append_assoc b (255 ∷ []) tail) (reads n tail h)

    whole_meta :
        (pre tail : Str)
        → chain_pack_meta (pre ++ ((1 ∷ written) ++ tail)) (length pre + 1)
          ≡ meta_read m (some (length pre + length (1 ∷ written)))
    unfolding chain_pack_meta
    whole_meta pre tail =
        let bytes : Str = written ++ tail in
        let position : length (pre ++ (1 ∷ bytes)) - length tail
            ≡ length pre + suc (length written) =
          omega (arith, length-append pre (1 ∷ bytes), length-append written tail) in
        rw
          (
            drop-past pre 1 bytes,
            read_whole (suc (3 * length bytes)) tail
                (omega (arith, length-append written tail, length-append b (255 ∷ []))),
            position,
          )
          refl

    unfinished :
        (size : ℕ) (o : Outcome MetaData) (e : ReadError)
        → o ≡ failed e
        → e ≢ not_a_number
        → IsUnfinished (located size o)
    unfinished size o e h q = rw h (failure e q)
      where
        failure : (e : ReadError) → e ≢ not_a_number → IsUnfinished (located size (failed e))
        failure not_a_number q = absurd (q refl)
        failure e q = tt

    part_meta :
        (pre b' w : Str) (c : ℕ)
        → b' ++ (c ∷ w) ≡ written
        → IsUnfinished (chain_pack_meta (pre ++ (1 ∷ b')) (length pre + 1))
    unfolding chain_pack_meta
    part_meta pre b' w c e = rw (drop-past pre 1 b') (cut b' e)
      where
        cut :
            (b' : Str)
            → b' ++ (c ∷ w) ≡ written
            → IsUnfinished (
                at_bytes
                  (length (pre ++ (1 ∷ b')))
                  b'
                  (read_meta_with (parse_meta_data (suc (3 * length b')) no_meta) b'))
        cut [] e = tt
        cut (x ∷ p) e =
            let first : x ≡ 139 = cc in
            let behind : p ++ (c ∷ w) ≡ b ++ (255 ∷ []) = cc in
            let few : ℕ = suc (3 * suc (length p)) in
            let many : ℕ = few + 2 * suc (length b) in
            let (err, k, q) =
              parse_meta_data-cut few many no_meta m p w c (omega arith)
                (ap (parse_meta_data many no_meta) behind ∙ reads many [] (omega arith)) in
            rw first
              (unfinished (length (pre ++ (1 ∷ (139 ∷ p)))) (parse_meta_data few no_meta p) err k q)

  sent-whole :
      (f : RpcFrame)
      → IsChainPackFrame f
      → (pre tail : Str)
      → chain_pack_meta (pre ++ (head_bytes (sent f) ++ tail)) (length pre + 1)
        ≡ meta_read f.meta (some (length pre + length (head_bytes (sent f))))
  sent-whole f h pre tail =
      let (b, e, reads) = write_meta-entries f.meta h.writable h.nonempty in
      let same : or_nothing (write_meta f.meta) ≡ 139 ∷ (b ++ (255 ∷ [])) = ap or_nothing e in
      rw same (whole_meta f.meta b reads pre tail)

  sent-IsReadable :
      (read_cpon : Str → ℕ → ReadMeta) (f : RpcFrame)
      → IsChainPackFrame f
      → throws_id f.meta ≡ false
      → IsReadable (meta_reader read_cpon) (sent f)
  sent-IsReadable read_cpon f h quiet =
      let (b, e, reads) = write_meta-entries f.meta h.writable h.nonempty in
      let same : or_nothing (write_meta f.meta) ≡ 139 ∷ (b ++ (255 ∷ [])) = ap or_nothing e in
      record {
        known = λ k. cc;
        byte = refl;
        small = omega (arith, h.small);
        quiet = quiet;
        whole = sent-whole f h;
        part = rw same (λ pre b' w c k. part_meta f.meta b reads pre b' w c k);
      }

  sents-IsReadable :
      (read_cpon : Str → ℕ → ReadMeta) (fs : List RpcFrame)
      → All IsChainPackFrame fs
      → All (λ f. throws_id f.meta ≡ false) fs
      → All (IsReadable (meta_reader read_cpon)) (map sent fs)
  sents-IsReadable read_cpon [] h q = tt
  sents-IsReadable read_cpon (f ∷ fs) h q =
      (sent-IsReadable read_cpon f h.0 q.0, sents-IsReadable read_cpon fs h.1 q.1)

received-sent : (f : RpcFrame) → IsChainPackFrame f → received (sent f) ≡ f
received-sent f h =
    λ i. record { protocol = sym h.in_chain_pack i; meta = f.meta; payload = f.payload }

received-sents : (fs : List RpcFrame) → All IsChainPackFrame fs → map received (map sent fs) ≡ fs
received-sents [] h = refl
received-sents (f ∷ fs) h = λ i. received-sent f h.0 i ∷ received-sents fs h.1 i

module _ ⦃floats : Floats⦄ (write_cpon : MetaData → Option Str) where
  head-sent :
      (f : RpcFrame) → IsChainPackFrame f → to_frame_head write_cpon f ≡ some (head_bytes (sent f))
  unfolding to_frame_head
  head-sent f h =
      let (b, e, reads) = write_meta-entries f.meta h.writable h.nonempty in
      rw (h.in_chain_pack, e) refl

  add_all-sent :
      (fs : List RpcFrame) (q : Option (List Str))
      → All IsChainPackFrame fs
      → add_all write_cpon q fs ≡ add_frames q (map sent fs)
  unfolding add_frame
  add_all-sent [] q h = refl
  add_all-sent (f ∷ fs) none h = add_all-sent fs none h.1
  add_all-sent (f ∷ fs) (some q) h =
      ap (λ o. add_all write_cpon (add_with_head write_cpon q f.payload o) fs) (head-sent f h.0)
      ∙ add_all-sent fs (add_frame_data q (head_bytes (sent f)) f.payload) h.1

  -- Frames in ChainPack that are added to an empty queue of a stream's writer come out of a reader
  -- that is at the start of a frame, in their order, in whatever pieces their bytes arrive: no error
  -- is signalled, the ids of the responses among them are signalled in order, and nothing is left in
  -- the buffer. Their meta data are not empty and are written and read back, and each is shorter
  -- than 2 ^ 63 bytes; the request id of a response among them is no NaN.
  pub receive-add_all :
      (read_cpon : Str → ℕ → ReadMeta) (fs : List RpcFrame) (s : StreamReader) (ps : List Str)
      → All IsChainPackFrame fs
      → All (λ f. throws_id f.meta ≡ false) fs
      → s.frame_reader.data_start ≡ none
      → s.read_buffer ≡ []
      → flat ps ≡ stream (map sent fs)
      → (q : List Str) × (sig : List Signal) × (s' : StreamReader) × (add_all write_cpon
            (some [])
            fs
          ≡ some q)
        × (flat q ≡ flat ps)
        × (receive (meta_reader read_cpon) s ps ≡ some (sig, s'))
        × (s'.frame_reader.frames ≡ s.frame_reader.frames ++ fs)
        × (told sig ≡ response_ids (map sent fs))
        × (is_fine sig ≡ true)
        × (s'.read_buffer ≡ [])
  receive-add_all read_cpon fs s ps h quiet d b e =
      let (q, sig, s', added, bytes, run, frames, ids, fine, left) =
        receive-add_frames (meta_reader read_cpon) (map sent fs) s ps
          (sents-IsReadable read_cpon fs h quiet) d b e in
      (
        q,
        sig,
        s',
        add_all-sent fs (some []) h ∙ added,
        bytes,
        run,
        frames ∙ ap (λ l. s.frame_reader.frames ++ l) (received-sents fs h),
        ids,
        fine,
        left,
      )

  -- A frame in ChainPack with meta data that are not empty and are written and read back, shorter
  -- than 2 ^ 63 bytes, is read back from its bytes by fromFrameData.
  pub from_frame_data-to_frame_data :
      (read_cpon : Str → ℕ → ReadMeta) (f : RpcFrame)
      → IsChainPackFrame f
      → (b : Str) × (to_frame_data write_cpon f ≡ some b)
        × (from_frame_data (meta_reader read_cpon) b ≡ frame_read f)
  unfolding to_frame_data from_frame_data
  from_frame_data-to_frame_data read_cpon f h =
      let head = head_bytes (sent f) in
      let behind : 0 + length head ≡ length head = omega arith in
      (
        head ++ f.payload,
        rw (head-sent f h) refl,
        ap (framed chain_pack (head ++ f.payload)) (sent-whole f h [] f.payload)
            ∙ rw (h.nonempty, behind, drop-append_self head f.payload)
                (ap frame_read (received-sent f h)),
      )
