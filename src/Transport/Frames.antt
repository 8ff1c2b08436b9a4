-- ===== src/Transport/Frames.antt =====
-- `RpcFrame`, `FrameReader` and `FrameWriter` (libshviotqt/src/rpc/socket.cpp). What a stream reader
-- makes of the meta data at the front of a frame is the interface `MetaReader`.
use libshv.Base.{
  Bool, true, false, ℕ, ◌+◌, ◌==◌, ◌&&◌, if◌then◌else◌, Option, none, some, List, [], Str,
  get_elem?,
}
use libshv.Base.Int.{ℤ, pos, ltb_ℤ}
use libshv.Rpc.Value.{MetaData, no_meta}
use libshv.Rpc.Convert.{Floats, value_to_int64, int_throws}
use libshv.Rpc.Tags.{is_response, request_id}

-- Rpc::ProtocolType
pub data Protocol : Type 0 where
  no_protocol chain_pack cpon : Protocol

pub record RpcFrame : Type 0 where
  pub protocol : Protocol
  pub meta : MetaData
  pub payload : Str

-- `rd->read(m_meta)` and `rd->readCount()`: the meta data and the position behind them, no
-- position for meta data without their closing bracket, or what was read before a ParseException or
-- another std::runtime_error.
pub data ReadMeta : Type 0 where
  meta_read : MetaData → Option ℕ → ReadMeta
  parse_exception runtime_error : MetaData → ReadMeta

-- A reader of meta data from a position of a buffer.
pub record MetaReader : Type 0 where
  pub read_meta : Protocol → Str → ℕ → ReadMeta

pub record FrameReader : Type 0 where
  pub frames : List RpcFrame
  pub frame_protocol : Protocol
  pub frame_meta : MetaData
  pub data_start : Option ℕ

-- `resetCommunication`
unfoldable pub reset_frame_reader : FrameReader → FrameReader
reset_frame_reader r = record {
  frames = [];
  frame_protocol = no_protocol;
  frame_meta = no_meta;
  data_start = none;
}

-- `takeFrames`
unfoldable pub take_frames : FrameReader → List RpcFrame × FrameReader
take_frames r = (r.frames, record r { frames = [] })

abbrev pub protocol_of_byte : Option ℕ → Protocol
protocol_of_byte none = no_protocol
protocol_of_byte (some b) = if b == 2 then cpon else if b == 1 then chain_pack else no_protocol

-- The id to report, the reader that is left, and whether a std::runtime_error is thrown that is no
-- ParseException.
abbrev pub Tried : Type 0
Tried = Option ℤ × FrameReader × Bool

module _ ⦃floats : Floats⦄ where
  -- The request id of a response, if it is positive.
  unfoldable pub response_id : MetaData → Option ℤ
  response_id m =
      if is_response m && ltb_ℤ (pos 0) (value_to_int64 (request_id m))
      then some (value_to_int64 (request_id m))
      else none

  -- Does asking a response for its request id throw?
  unfoldable pub throws_id : MetaData → Bool
  throws_id m = is_response m && int_throws (request_id m)

  abbrev pub take_meta : FrameReader → Protocol → ReadMeta → Tried
  take_meta r p (parse_exception m) = (none, record r { frame_protocol = p; frame_meta = m }, false)
  take_meta r p (runtime_error m) = (none, record r { frame_protocol = p; frame_meta = m }, true)
  take_meta r p (meta_read m none) = (none, record r { frame_protocol = p; frame_meta = m }, false)
  take_meta r p (meta_read m (some n)) = (
    response_id m,
    record r { frame_protocol = p; frame_meta = m; data_start = some n },
    throws_id m,
  )

  abbrev pub read_protocol : MetaReader → FrameReader → Protocol → Str → ℕ → Tried
  read_protocol reader r no_protocol buffer at = (none, r, false)
  read_protocol reader r p buffer at = take_meta r p (reader.read_meta p buffer at)

  abbrev pub unless_started : Option ℕ → FrameReader → Tried → Tried
  unless_started (some n) r next = (none, r, false)
  unless_started none r next = next

  -- `tryToReadMeta`, on the buffer from the protocol byte at `at` on; no id is the
  -- answer 0.
  unfoldable pub try_to_read_meta : MetaReader → FrameReader → Str → ℕ → Tried
  try_to_read_meta reader r buffer at =
      unless_started r.data_start r
        (read_protocol reader r (protocol_of_byte (get_elem? buffer at)) buffer (at + 1))
