-- ===== src/Transport/StreamSession.antt =====
-- Frames queued by the writer of one end of a stream and received by the other end:
-- `TcpSocket::onDataReadyRead` (libshviotqt/src/rpc/socket.cpp) for each piece of the stream.
use libshv.Base.{
  Bool, true, false, if◌then◌else◌, Option, none, some, List, [], ◌∷◌, ◌++◌, map, Str, is_nil,
}
use libshv.Base.Int.{ℤ}
use libshv.Rpc.Convert.{Floats}
use libshv.Transport.Frames.{MetaReader, response_id}
use libshv.Transport.Stream.{StreamError, StreamReader, Read, ids_of, add_stream_data}
use libshv.Transport.StreamMeta.{Sent, head_bytes}
use libshv.Transport.StreamQueue.{add_frame_data}

-- The signals of a socket.
pub data Signal : Type 0 where
  response_meta_received : ℤ → Signal
  data_chunk_received : Signal
  ready_read : Signal
  unknown_socket_error : Signal

-- The signals and the reader that a piece of the stream leaves.
abbrev pub Session : Type 0
Session = Option (List Signal × StreamReader)

abbrev pub signals : Read → Option StreamError → List Signal
signals out (some e) = unknown_socket_error ∷ []
signals out none =
    map response_meta_received out.ids
    ++ (data_chunk_received ∷ (if is_nil out.left.frame_reader.frames then [] else ready_read ∷ []))

abbrev pub emitted : Option Read → Session
emitted none = none
emitted (some out) = some (signals out out.error, out.left)

abbrev pub continued : List Signal → Session → Session
continued first none = none
continued first (some (later, s)) = some (first ++ later, s)

abbrev pub then_receive : Session → (StreamReader → Session) → Session
then_receive none next = none
then_receive (some (first, s)) next = continued first (next s)

-- The ids that the signals tell.
abbrev pub told : List Signal → List ℤ
told [] = []
told (response_meta_received id ∷ l) = id ∷ told l
told (data_chunk_received ∷ l) = told l
told (ready_read ∷ l) = told l
told (unknown_socket_error ∷ l) = told l

abbrev pub is_fine : List Signal → Bool
is_fine [] = true
is_fine (response_meta_received id ∷ l) = is_fine l
is_fine (data_chunk_received ∷ l) = is_fine l
is_fine (ready_read ∷ l) = is_fine l
is_fine (unknown_socket_error ∷ l) = false

abbrev pub frame_added : Option (List Str) → Sent → Option (List Str)
frame_added none f = none
frame_added (some q) f = add_frame_data q (head_bytes f) f.payload

-- The queue of a writer after some frames more.
abbrev pub add_frames : Option (List Str) → List Sent → Option (List Str)
add_frames q [] = q
add_frames q (f ∷ fs) = add_frames (frame_added q f) fs

-- The ids of the responses among frames.
abbrev pub response_ids : ⦃floats : Floats⦄ → List Sent → List ℤ
response_ids [] = []
response_ids (f ∷ fs) = ids_of (response_id f.meta) ++ response_ids fs

module _ ⦃floats : Floats⦄ (reader : MetaReader) where
  -- `TcpSocket::onDataReadyRead`, of what `readAll` answers
  unfoldable pub on_data_ready_read : StreamReader → Str → Session
  on_data_ready_read s piece = emitted (add_stream_data reader s piece)

  -- The pieces of a stream, one after the other.
  unfoldable pub receive : StreamReader → List Str → Session
  receive s [] = some ([], s)
  receive s (p ∷ ps) = then_receive (on_data_ready_read s p) (λ s'. receive s' ps)
