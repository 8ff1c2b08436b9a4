-- ===== src/Transport/ChainPackFrames.antt =====
-- `RpcFrame` of libshvchainpack/src/rpcmessage.cpp and the meta data of frames in ChainPack. The
-- reader and the writer of Cpon are parameters.
use libshv.Base.{
  ℕ, suc, ◌-◌, ◌*◌, if◌then◌else◌, Option, none, some, List, [], ◌∷◌, Str, length, drop, get_elem?,
}
use libshv.Rpc.Value.{MetaData, no_meta}
use libshv.Rpc.Convert.{Floats}
use libshv.Rpc.Meta.{meta_is_empty}
use libshv.ChainPack.Pack.{◌<+>◌, byte}
use libshv.ChainPack.Unpack.{Outcome, done, failed, not_a_number}
use libshv.ChainPack.Reader.{read_meta_with, parse_meta_data}
use libshv.ChainPack.Writer.{write_meta}
use libshv.Transport.Frames.{
  Protocol, no_protocol, chain_pack, cpon, RpcFrame, ReadMeta, meta_read, parse_exception,
  runtime_error, MetaReader, protocol_of_byte,
}
use libshv.Transport.StreamQueue.{add_frame_data}

-- A position for what was read whole. What was read before an exception is not kept: the next try
-- starts with empty meta data, and no frame is taken without a position.
abbrev pub located : ℕ → Outcome MetaData → ReadMeta
located size (done m rest) = meta_read m (some (size - length rest))
located size (failed not_a_number) = runtime_error no_meta
located size (failed e) = parse_exception no_meta

abbrev pub at_bytes : ℕ → Str → Outcome MetaData → ReadMeta
at_bytes size [] out = meta_read no_meta none
at_bytes size (c ∷ bytes) out = located size out

module _ ⦃floats : Floats⦄ where
  -- `ChainPackReader::read(MetaData)` and `readCount()`; at the end of the stream there is no position.
  unfoldable pub chain_pack_meta : Str → ℕ → ReadMeta
  chain_pack_meta buffer at =
      let bytes = drop at buffer in
      at_bytes (length buffer) bytes
        (read_meta_with (parse_meta_data (suc (3 * length bytes)) no_meta) bytes)

  abbrev pub read_as : (Str → ℕ → ReadMeta) → Protocol → Str → ℕ → ReadMeta
  read_as read_cpon chain_pack = chain_pack_meta
  read_as read_cpon cpon = read_cpon
  read_as read_cpon no_protocol = λ buffer at. parse_exception no_meta

  -- The readers that `tryToReadMeta` chooses from.
  abbrev pub meta_reader : (Str → ℕ → ReadMeta) → MetaReader
  meta_reader read_cpon = record { read_meta = read_as read_cpon }

-- What `fromFrameData` answers, or that it throws.
pub data FromData : Type 0 where
  frame_read : RpcFrame → FromData
  frame_error : FromData

abbrev pub framed : Protocol → Str → ReadMeta → FromData
framed p bytes (parse_exception m) = frame_error
framed p bytes (runtime_error m) = frame_error
framed p bytes (meta_read m none) = frame_error
framed p bytes (meta_read m (some pos)) =
    if meta_is_empty m
    then frame_error
    else frame_read (record { protocol = p; meta = m; payload = drop pos bytes })

abbrev pub framed_by : MetaReader → Str → Protocol → FromData
framed_by reader bytes no_protocol = frame_error
framed_by reader bytes p = framed p bytes (reader.read_meta p bytes 1)

-- `RpcFrame::fromFrameData`
unfoldable pub from_frame_data : MetaReader → Str → FromData
from_frame_data reader bytes = framed_by reader bytes (protocol_of_byte (get_elem? bytes 0))

module _ (write_cpon : MetaData → Option Str) where
  -- `RpcFrame::toFrameHead`; `none` also stands for the exception of a frame without a protocol.
  abbrev head_in : Protocol → MetaData → Option Str
  head_in chain_pack m = byte 1 <+> write_meta m
  head_in cpon m = byte 2 <+> write_cpon m
  head_in no_protocol m = none

  unfoldable pub to_frame_head : RpcFrame → Option Str
  to_frame_head f = head_in f.protocol f.meta

  -- `RpcFrame::toFrameData`
  unfoldable pub to_frame_data : RpcFrame → Option Str
  to_frame_data f = to_frame_head f <+> some f.payload

  abbrev pub add_with_head : List Str → Str → Option Str → Option (List Str)
  add_with_head q payload none = some q
  add_with_head q payload (some head) = add_frame_data q head payload

  -- `FrameWriter::addFrame` of a stream's writer: a frame whose head throws is not added.
  unfoldable pub add_frame : List Str → RpcFrame → Option (List Str)
  add_frame q f = add_with_head q f.payload (to_frame_head f)

  abbrev frame_added : Option (List Str) → RpcFrame → Option (List Str)
  frame_added none f = none
  frame_added (some q) f = add_frame q f

  -- The queue after some frames more.
  abbrev pub add_all : Option (List Str) → List RpcFrame → Option (List Str)
  add_all q [] = q
  add_all q (f ∷ fs) = add_all (frame_added q f) fs
