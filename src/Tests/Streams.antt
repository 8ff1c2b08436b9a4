-- ===== src/Tests/Streams.antt =====
-- Frames and messages sent through a stream, at concrete inputs.
use libshv.Base.{
  ℕ, ◌≡◌, refl, Option, none, some, List, [], ◌∷◌, ◌++◌, map, Str, arith, true, false,
}
use libshv.Base.Int.{ℤ, pos, eqb_ℤ}
use libshv.Rpc.Value.{
  is_imap, variant, value, plain, int, imap, MetaData, meta_data, no_meta, end, iend, ientry,
}
use libshv.ChainPack.Bits.{bytes_needed, significant_bits_part_length, search_half, add_table}
use libshv.ChainPack.Uint.{pack_uint_data, pack_uint_data_helper, low_bytes}
use libshv.ChainPack.Partial.{length_bytes}
use libshv.ChainPack.Pack.{pack_int}
use libshv.Rpc.Message.{RpcMessage}
use libshv.ChainPack.Unpack.{Outcome, malformed_input, failed}
use libshv.ChainPack.Reader.{ReadItem}
use libshv.ChainPack.Writer.{write, write_meta}
use libshv.ChainPack.Writable.{IsWritable, IsWritableMeta}
use libshv.Rpc.Convert.{int_throws, integer}
use libshv.Rpc.Tags.{is_response, request_id, has_request_id, has_method}
use libshv.Rpc.Meta.{meta_is_empty, meta_value, has_ikey}
use libshv.Rpc.Maps.{imap_value, imap_has_key, find_ikey}
use libshv.Transport.Frames.{
  RpcFrame, ReadMeta, parse_exception, chain_pack, no_protocol, throws_id,
}
use libshv.Transport.Stream.{StreamReader}
use libshv.Transport.StreamMeta.{stream}
use libshv.Transport.StreamQueue.{flat, flush_to_device, flush_to_device-flat, flush_to_device-All}
use libshv.Transport.StreamSession.{Signal, receive, told, is_fine, response_ids}
use libshv.Transport.ChainPackFrames.{
  meta_reader, add_all, from_frame_data, frame_read, to_frame_data,
}
use libshv.Transport.ChainPackDelivery.{IsChainPackFrame, sent, receive-add_all}
use libshv.Transport.Messages.{
  to_rpc_frame, to_rpc_message, message, IsSendable, to_rpc_message-to_rpc_frame,
}
use libshv.Tests.Data.{test_floats}

-- Cpon is not used in these runs.
abbrev no_write : {A : Type 0} → A → Option Str
no_write a = none

abbrev no_read_meta : Str → ℕ → ReadMeta
no_read_meta b at = parse_exception no_meta

abbrev no_read : Str → Outcome ReadItem
no_read b = failed malformed_input

abbrev id_meta : MetaData
id_meta = meta_data (ientry (pos 8) (plain (int (pos 5))) iend) end

write-id_meta : write_meta id_meta ≡ some (139 ∷ 72 ∷ 69 ∷ 255 ∷ [])
unfolding write pack_int meta_is_empty
write-id_meta = refl

id_meta-is_empty : meta_is_empty id_meta ≡ false
unfolding meta_is_empty
id_meta-is_empty = refl

id_meta-IsWritableMeta : IsWritableMeta id_meta
unfolding IsWritable
id_meta-IsWritableMeta = ((omega arith, (omega arith, (tt, tt)), tt, tt), tt)

id_meta-quiet : throws_id id_meta ≡ false
unfolding throws_id is_response int_throws integer request_id has_request_id has_method meta_value
    has_ikey imap_has_key find_ikey imap_value eqb_ℤ
id_meta-quiet = refl

abbrev frame_of_42 : RpcFrame
frame_of_42 = record { protocol = chain_pack; meta = id_meta; payload = 42 ∷ [] }

abbrev new_reader : StreamReader
new_reader = record {
  frame_reader = record {
    frames = [];
    frame_protocol = no_protocol;
    frame_meta = no_meta;
    data_start = none;
  };
  read_buffer = [];
}

abbrev two_pieces : List Str
two_pieces = (6 ∷ 1 ∷ 139 ∷ []) ∷ (72 ∷ 69 ∷ 255 ∷ 42 ∷ []) ∷ []

frame_of_42-IsChainPackFrame : IsChainPackFrame frame_of_42
frame_of_42-IsChainPackFrame = record {
  in_chain_pack = refl;
  writable = id_meta-IsWritableMeta;
  nonempty = id_meta-is_empty;
  small = rw write-id_meta (omega arith);
}

two_pieces-stream : flat two_pieces ≡ stream (map sent (frame_of_42 ∷ []))
unfolding pack_uint_data pack_uint_data_helper low_bytes bytes_needed significant_bits_part_length
    search_half add_table length_bytes
two_pieces-stream = rw write-id_meta refl

-- The frame arrives in two pieces, cut within its meta data.
receive-add_all_example :
    (q : List Str) × (sig : List Signal) × (s' : StreamReader) × (add_all no_write
        (some [])
        (frame_of_42 ∷ [])
      ≡ some q)
    × (flat q ≡ flat two_pieces)
    × (receive (meta_reader no_read_meta) new_reader two_pieces ≡ some (sig, s'))
    × (s'.frame_reader.frames ≡ [] ++ (frame_of_42 ∷ []))
    × (told sig ≡ response_ids (map sent (frame_of_42 ∷ [])))
    × (is_fine sig ≡ true)
    × (s'.read_buffer ≡ [])
receive-add_all_example =
    receive-add_all no_write no_read_meta (frame_of_42 ∷ []) new_reader two_pieces
      (frame_of_42-IsChainPackFrame, tt) (id_meta-quiet, tt) refl refl two_pieces-stream

-- A device that takes one byte, then two of three.
abbrev answers : List ℤ
answers = pos 1 ∷ pos 2 ∷ pos 3 ∷ pos 1 ∷ pos 9 ∷ []

abbrev two_messages : List Str
two_messages = (1 ∷ 2 ∷ []) ∷ (3 ∷ []) ∷ []

flush_to_device-flat_example :
    (flush_to_device answers two_messages).0 ++ flat (flush_to_device answers two_messages).1
    ≡ flat two_messages
flush_to_device-flat_example = flush_to_device-flat answers two_messages

flush_to_device-All_example : flush_to_device answers two_messages ≡ (flat two_messages, [])
flush_to_device-All_example =
    flush_to_device-All answers two_messages
      (omega arith, (omega arith, (omega arith, (omega arith, (omega arith, tt))))) (omega arith)

-- The message `<8:5>i{1: 7}`.
abbrev small_message : RpcMessage
small_message = value (imap (ientry (pos 1) (plain (int (pos 7))) iend)) id_meta

small_message-IsWritable : IsWritable small_message
unfolding IsWritable
small_message-IsWritable = (
  (omega arith, (omega arith, (tt, tt)), tt, tt),
  ((omega arith, (omega arith, (tt, tt)), tt, tt), tt),
)

write-small_message : write (plain (variant small_message)) ≡ some (138 ∷ 65 ∷ 71 ∷ 255 ∷ [])
unfolding write pack_int meta_is_empty
write-small_message = refl

small_message-IsSendable : IsSendable small_message
unfolding is_imap
small_message-IsSendable = record {
  is_map = refl;
  writable = small_message-IsWritable;
  has_meta = id_meta-is_empty;
  meta_small = rw write-id_meta (omega arith);
  value_small = rw write-small_message (omega arith);
}

to_rpc_message-to_rpc_frame_example :
    (f : RpcFrame) × (b : Str) × (to_rpc_frame no_write chain_pack small_message ≡ some f)
    × (to_frame_data no_write f ≡ some b)
    × (from_frame_data (meta_reader no_read_meta) b ≡ frame_read f)
    × (to_rpc_message no_read f ≡ message small_message)
to_rpc_message-to_rpc_frame_example =
    to_rpc_message-to_rpc_frame no_write no_read_meta no_write no_read small_message
      small_message-IsSendable
