-- ===== src/Transport/Stream.antt =====
-- `StreamFrameReader` and `StreamFrameWriter` of libshviotqt/src/rpc/socket.cpp. A frame on a stream
-- is its length, as a ChainPack number, and its bytes. The length reader has no other error than
-- an underflow, and takes a byte at least.
use libshv.Base.{
  true, false, ℕ, zero, suc, ◌+◌, ◌-◌, ◌%◌, ◌^◌, leb, ltb, if◌then◌else◌, Option, none, some, List,
  [], ◌∷◌, ◌++◌, Str, length, take, drop,
}
use libshv.Base.Int.{ℤ}
use libshv.Rpc.Value.{no_meta}
use libshv.Rpc.Convert.{Floats}
use libshv.ChainPack.Uint.{pack_uint_data, unpack_uint}
use libshv.Transport.Frames.{MetaReader, FrameReader, Tried, try_to_read_meta, reset_frame_reader}

-- The exceptions: the frame is whole but its meta data were not read, they end behind the data, or
-- a NaN in them was to be an integer.
pub data StreamError : Type 0 where
  meta_data_error data_out_of_range conversion_error : StreamError

pub record StreamReader : Type 0 where
  pub frame_reader : FrameReader
  pub read_buffer : Str

-- What `addData` answers or throws, and the reader that it leaves.
pub record Read : Type 0 where
  pub ids : List ℤ
  pub error : Option StreamError
  pub left : StreamReader

-- What a round of the loop does: it ends the loop or goes on.
pub data Round : Type 0 where
  stop : Option StreamError → Option ℤ → StreamReader → Round
  again : Option ℤ → StreamReader → Round

abbrev pub frame_taken : FrameReader → Str → FrameReader
frame_taken r bytes = record {
  frames =
      r.frames
      ++ (record { protocol = r.frame_protocol; meta = r.frame_meta; payload = bytes } ∷ []);
  frame_protocol = r.frame_protocol;
  frame_meta = no_meta;
  data_start = none;
}

abbrev pub take_whole : Str → ℕ → Option ℤ × FrameReader → Option ℕ → Round
take_whole buffer total (id, r) none =
    stop (some meta_data_error) id (record { frame_reader = r; read_buffer = buffer })
take_whole buffer total (id, r) (some start) =
    if ltb (length buffer) start
    then stop (some data_out_of_range) id (record { frame_reader = r; read_buffer = buffer })
    else again id (record {
      frame_reader = frame_taken r (take ((total + (2 ^ 64 - start)) % 2 ^ 64) (drop start buffer));
      read_buffer = drop total buffer;
    })

abbrev pub with_meta : Str → ℕ → Tried → Round
with_meta buffer total (id, r, true) =
    stop (some conversion_error) none (record { frame_reader = r; read_buffer = buffer })
with_meta buffer total (id, r, false) =
    if leb total (length buffer)
    then take_whole buffer total (id, r) r.data_start
    else stop none id (record { frame_reader = r; read_buffer = buffer })

abbrev pub ids_of : Option ℤ → List ℤ
ids_of none = []
ids_of (some id) = id ∷ []

abbrev pub with_ids : Option ℤ → Option Read → Option Read
with_ids id none = none
with_ids id (some r) = some (record r { ids = ids_of id ++ r.ids })

-- An exception loses the ids that were gathered.
abbrev pub kept_ids : Option StreamError → List ℤ → List ℤ
kept_ids none ids = ids
kept_ids (some e) ids = []

abbrev pub answered : Option Read → Option Read
answered none = none
answered (some r) = some (record r { ids = kept_ids r.error r.ids })

module _ ⦃floats : Floats⦄ (reader : MetaReader) where
  abbrev pub read_sized : StreamReader → Option (ℕ × ℕ × Str) → Round
  read_sized s none = stop none none s
  read_sized s (some (frame_size, bits, rest)) =
      let frame_len_size = length s.read_buffer - length rest in
      with_meta s.read_buffer ((frame_len_size + frame_size) % 2 ^ 64)
        (try_to_read_meta reader s.frame_reader s.read_buffer frame_len_size)

  -- A round of the loop of `addData`.
  unfoldable pub round : StreamReader → Round
  round s = read_sized s (unpack_uint s.read_buffer)

  abbrev pub after_round : Round → (StreamReader → Option Read) → Option Read
  after_round (stop e id s) next = some (record { ids = ids_of id; error = e; left = s })
  after_round (again id s) next = with_ids id (next s)

  -- The loop of `addData`; `none` if the fuel runs out.
  unfoldable pub rounds : ℕ → StreamReader → Option Read
  rounds zero s = none
  rounds (suc fuel) s = after_round (round s) (rounds fuel)

  -- `StreamFrameReader::addData`. A round that goes on takes a byte at least, so a round for each
  -- byte and a last one are enough, but for a frame size that wraps around.
  unfoldable pub add_stream_data : StreamReader → Str → Option Read
  add_stream_data s more =
      let buffer = s.read_buffer ++ more in
      answered (rounds (suc (length buffer)) (record s { read_buffer = buffer }))

-- `StreamFrameReader::resetCommunication`
unfoldable pub reset_stream : StreamReader → StreamReader
reset_stream s = record { frame_reader = reset_frame_reader s.frame_reader; read_buffer = [] }

abbrev pub with_length : Option Str → Str → Str → Option Str
with_length none head payload = none
with_length (some len) head payload = some (len ++ head ++ payload)

-- What `StreamFrameWriter::addFrameData` puts behind the data to write.
unfoldable pub stream_frame : Str → Str → Option Str
stream_frame head payload =
    with_length (pack_uint_data ((length head + length payload) % 2 ^ 64)) head payload
