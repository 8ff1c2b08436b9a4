-- ===== src/Transport/Messages.antt =====
-- `RpcMessage::toRpcFrame` and `RpcFrame::toRpcMessage` of libshvchainpack/src/rpcmessage.cpp. The
-- texts of Cpon are parameters.
use libshv.Base.{
  ℕ, ◌^◌, arith, ◌<◌, ◌≡◌, refl, ap, ◌∙◌, true, false, if◌then◌else◌, Option, none, some, [], Str,
  length, append-nil,
}
use libshv.Rpc.Value.{
  RpcValue, value, Variant, imap, MetaData, metadata, variant, plain, is_imap, is_valid,
}
use libshv.Rpc.Convert.{Floats, take_meta}
use libshv.Rpc.Meta.{meta_is_empty}
use libshv.Rpc.Message.{RpcMessage, message_of}
use libshv.ChainPack.Unpack.{Outcome, done, failed, not_a_number}
use libshv.ChainPack.Reader.{ReadItem, read_value, value_of, read_stream}
use libshv.ChainPack.Writer.{write, write_meta}
use libshv.ChainPack.Writable.{IsWritable}
use libshv.ChainPack.RoundTrip.{read_stream-write}
use libshv.ChainPack.Partial.{or_nothing}
use libshv.Transport.Frames.{Protocol, no_protocol, chain_pack, cpon, RpcFrame, ReadMeta}
use libshv.Transport.ChainPackFrames.{frame_read, to_frame_data, from_frame_data, meta_reader}
use libshv.Transport.ChainPackDelivery.{IsChainPackFrame, from_frame_data-to_frame_data}

-- What `toRpcMessage` answers when it is given a place for an error: a message, or an empty message
-- with an error, or an exception that is no ParseException: of an invalid value that gets meta data, or
-- of a NaN key.
pub data ToMessage : Type 0 where
  message : RpcMessage → ToMessage
  error_message thrown : ToMessage

abbrev made : Option RpcMessage → ToMessage
made none = error_message
made (some m) = message m

-- `val.setMetaData(meta)`, and the message
abbrev with_meta : RpcValue → MetaData → ToMessage
with_meta (value v old) m = if is_valid (value v old) then made (message_of (value v m)) else thrown

abbrev from_outcome : Outcome ReadItem → MetaData → ToMessage
from_outcome (done item rest) m = with_meta (value_of item) m
from_outcome (failed not_a_number) m = thrown
from_outcome (failed e) m = error_message

abbrev framed : Protocol → MetaData → Option Str → Option RpcFrame
framed p m none = none
framed p m (some bytes) = some (record { protocol = p; meta = m; payload = bytes })

-- `RpcMessage::toRpcFrame`; `none` also stands for the exception of no protocol.
unfoldable pub to_rpc_frame : (RpcValue → Option Str) → Protocol → RpcMessage → Option RpcFrame
to_rpc_frame write_cpon chain_pack msg =
    let (m, val) = take_meta msg in framed chain_pack m (write val)
to_rpc_frame write_cpon cpon msg = let (m, val) = take_meta msg in framed cpon m (write_cpon val)
to_rpc_frame write_cpon no_protocol msg = none

module _ ⦃floats : Floats⦄ where
  abbrev to_message_in : (Str → Outcome ReadItem) → Protocol → RpcFrame → ToMessage
  to_message_in read_cpon chain_pack f = from_outcome (read_stream f.payload) f.meta
  to_message_in read_cpon cpon f = from_outcome (read_cpon f.payload) f.meta
  to_message_in read_cpon no_protocol f = error_message

  -- `RpcFrame::toRpcMessage`
  unfoldable pub to_rpc_message : (Str → Outcome ReadItem) → RpcFrame → ToMessage
  to_rpc_message read_cpon f = to_message_in read_cpon f.protocol f

  -- A message as a map with integer keys that is written and read back, with meta data, shorter than
  -- 2 ^ 62 bytes in both parts.
  pub record IsSendable (v : RpcValue) : Type 0 where
    pub is_map : is_imap v ≡ true
    pub writable : IsWritable v
    pub has_meta : meta_is_empty (metadata v) ≡ false
    pub meta_small : length (or_nothing (write_meta (metadata v))) < 2 ^ 62
    pub value_small : length (or_nothing (write (plain (variant v)))) < 2 ^ 62

  imap_message :
      (v : Variant) (m : MetaData)
      → is_imap (value v m) ≡ true
      → with_meta (plain v) m ≡ message (value v m)
  unfolding is_imap is_valid message_of
  imap_message (imap l) m h = refl
  imap_message v m h = absurd cc

  plain-IsWritable : (v : Variant) (m : MetaData) → IsWritable (value v m) → IsWritable (plain v)
  unfolding IsWritable
  plain-IsWritable v m h = (h.0, (tt, tt))

  sent-IsChainPackFrame :
      (w : Variant) (m : MetaData) (b : Str)
      → IsSendable (value w m)
      → write (plain w) ≡ some b
      → IsChainPackFrame (record { protocol = chain_pack; meta = m; payload = b })
  unfolding IsWritable
  sent-IsChainPackFrame w m b h e = record {
    in_chain_pack = refl;
    writable = h.writable.1;
    nonempty = h.has_meta;
    small = omega (arith, h.meta_small, h.value_small, ap (λ o. length (or_nothing o)) e);
  }

  message_back :
      (read_cpon : Str → Outcome ReadItem) (w : Variant) (m : MetaData) (b : Str)
      → is_imap (value w m) ≡ true
      → read_stream b ≡ done (read_value (plain w)) []
      → to_rpc_message read_cpon (record { protocol = chain_pack; meta = m; payload = b })
        ≡ message (value w m)
  unfolding to_rpc_message
  message_back read_cpon w m b h e = ap (λ o. from_outcome o m) e ∙ imap_message w m h

  -- A message that is a map with integer keys, can be written, has meta data, and takes less than
  -- 2 ^ 62 bytes for each of its two parts is made into a frame in ChainPack, whose bytes are read
  -- back as that frame, which is made into the same message.
  pub to_rpc_message-to_rpc_frame :
      (write_meta_cpon : MetaData → Option Str) (read_meta_cpon : Str → ℕ → ReadMeta)
      (write_cpon : RpcValue → Option Str) (read_cpon : Str → Outcome ReadItem) (v : RpcMessage)
      → IsSendable v
      → (f : RpcFrame) × (b : Str) × (to_rpc_frame write_cpon chain_pack v ≡ some f)
        × (to_frame_data write_meta_cpon f ≡ some b)
        × (from_frame_data (meta_reader read_meta_cpon) b ≡ frame_read f)
        × (to_rpc_message read_cpon f ≡ message v)
  unfolding to_rpc_frame take_meta
  to_rpc_message-to_rpc_frame write_meta_cpon read_meta_cpon write_cpon read_cpon (value w m) h =
      let (b, e, back) = read_stream-write (plain w) [] (plain-IsWritable w m h.writable) in
      let f : RpcFrame = record { protocol = chain_pack; meta = m; payload = b } in
      let (bytes, k, l) =
        from_frame_data-to_frame_data write_meta_cpon read_meta_cpon f
          (sent-IsChainPackFrame w m b h e) in
      (f, bytes, rw e refl, k, l, message_back read_cpon w m b h.is_map (rw (append-nil b) at back))
