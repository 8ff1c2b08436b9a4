-- ===== src/Transport/Serial.antt =====
-- `SerialFrameReader` and `SerialFrameWriter` of libshviotqt/src/rpc/serialportsocket.cpp.
-- The text of a CRC error is kept as the two numbers that it prints. A function that may throw, at a
-- NaN among the meta data, answers last whether it does.
use libshv.Base.{
  ℕ, ◌+◌, ◌*◌, ◌/◌, ◌%◌, ◌^◌, Bool, true, false, ◌&&◌, ◌||◌, not, ◌==◌, if◌then◌else◌, Option, none,
  some, List, [], ◌∷◌, ◌++◌, Str, drop, length,
}
use libshv.Base.Int.{ℤ, pos, eqb_ℤ, ltb_ℤ}
use libshv.Rpc.Value.{no_meta, is_int, is_uint}
use libshv.Rpc.Convert.{Floats, value_to_int64}
use libshv.Rpc.Tags.{is_response, request_id}
use libshv.Rpc.CallerIds.{peek_caller_id, peek_throws}
use libshv.Transport.Crc.{crc_init, crc_add, crc_add_all, crc_result}
use libshv.Transport.Frames.{MetaReader, FrameReader, try_to_read_meta, reset_frame_reader}

-- EscCodes
abbrev pub stx : ℕ
stx = 0xA2

abbrev pub etx : ℕ
etx = 0xA3

abbrev pub atx : ℕ
atx = 0xA4

abbrev pub esc : ℕ
esc = 0xAA

abbrev pub estx : ℕ
estx = 0x02

abbrev pub eetx : ℕ
eetx = 0x03

abbrev pub eatx : ℕ
eatx = 0x04

abbrev pub eesc : ℕ
eesc = 0x0A

pub data ReadState : Type 0 where
  waiting_for_stx waiting_for_etx waiting_for_crc : ReadState

-- Request id, computed and received CRC.
pub record ResponseError : Type 0 where
  pub rqid : ℤ
  pub expected : ℕ
  pub got : ℕ

pub record SerialReader : Type 0 where
  pub reader : FrameReader
  pub with_crc_check : Bool
  pub read_state : ReadState
  pub recent_byte : ℕ
  pub read_buffer : Str
  pub crc_buffer : Str
  pub crc_digest : ℕ
  pub response_errors : List ResponseError

-- `setState`
unfoldable pub set_state : SerialReader → ReadState → SerialReader
set_state r waiting_for_stx = record r { read_state = waiting_for_stx }
set_state r waiting_for_etx = record r {
  read_state = waiting_for_etx;
  read_buffer = [];
  reader = record r.reader { frame_meta = no_meta; data_start = none };
  crc_digest = crc_init;
}
set_state r waiting_for_crc = record r { read_state = waiting_for_crc; crc_buffer = [] }

-- `resetCommunication` of the reader
unfoldable pub reset_communication : SerialReader → SerialReader
reset_communication r = record r {
  reader = reset_frame_reader r.reader;
  read_state = waiting_for_stx;
  recent_byte = 0;
  read_buffer = [];
  crc_buffer = [];
  crc_digest = crc_init;
  response_errors = [];
}

-- `takeResponseErrors`
unfoldable pub take_response_errors : SerialReader → List ResponseError × SerialReader
take_response_errors r = (r.response_errors, record r { response_errors = [] })

-- The byte that an escape code stands for.
abbrev pub unescape : ℕ → Option ℕ
unescape b =
    if b == estx
    then some stx
    else if b == eetx
    then some etx
    else if b == eatx
    then some atx
    else if b == eesc
    then some esc
    else none

-- `add_byte`: what is added to the buffer, and whether an escape is invalid.
abbrev pub added : ℕ → ℕ → Option Str
added recent b =
    if recent == esc
    then elim (unescape b) [ none ↦ none | some c ↦ some (c ∷ []) ]
    else if b == esc
    then some []
    else some (b ∷ [])

abbrev add_to_read_buffer : SerialReader → Option Str → SerialReader
add_to_read_buffer r none = set_state r waiting_for_stx
add_to_read_buffer r (some s) = record r { read_buffer = r.read_buffer ++ s }

abbrev add_to_crc_buffer : SerialReader → Option Str → SerialReader
add_to_crc_buffer r none = set_state r waiting_for_stx
add_to_crc_buffer r (some s) = record r { crc_buffer = r.crc_buffer ++ s }

-- The four bytes of the CRC, the highest first.
unfoldable pub message_crc : ℕ → Str → ℕ
message_crc crc [] = crc
message_crc crc (b ∷ bs) = message_crc ((crc * 256 % 2 ^ 32 + b) % 2 ^ 32) bs

-- The frame is taken over if its meta data were read, and dropped if not.
abbrev take_frame : SerialReader → Option ℕ → SerialReader
take_frame r none = set_state r waiting_for_stx
take_frame r (some start) =
    set_state
      (record r {
        reader = record r.reader {
          frames =
              r.reader.frames
              ++ (record {
                protocol = r.reader.frame_protocol;
                meta = r.reader.frame_meta;
                payload = drop start r.read_buffer;
              }
                  ∷ []);
          frame_meta = no_meta;
        };
      })
      waiting_for_stx

abbrev pub ids_of : Option ℤ → List ℤ
ids_of none = []
ids_of (some i) = i ∷ []

-- The ids that were gathered, the reader that is left, and whether an exception is thrown.
abbrev pub Stepped : Type 0
Stepped = List ℤ × SerialReader × Bool

-- Nothing more is done after an exception.
abbrev pub then_steps : Stepped → (SerialReader → Stepped) → Stepped
then_steps (ids, r, true) next = (ids, r, true)
then_steps (ids, r, false) next = let (ids', r', thrown) = next r in (ids ++ ids', r', thrown)

-- An exception loses the ids.
abbrev pub answered : Stepped → Stepped
answered (ids, r, true) = ([], r, true)
answered (ids, r, false) = (ids, r, false)

module _ ⦃floats : Floats⦄ (meta_reader : MetaReader) where
  -- The error that a frame with a wrong CRC leaves, if its unverified meta data are those of a
  -- response of this connection.
  abbrev is_started : Option ℕ → Bool
  is_started none = false
  is_started (some n) = true

  unfoldable pub failed_response : SerialReader → ℕ → ℕ → List ResponseError
  failed_response r computed received =
      let id = request_id r.reader.frame_meta in
      if is_started r.reader.data_start
        && (is_response r.reader.frame_meta
            && (eqb_ℤ (peek_caller_id r.reader.frame_meta) (pos 0)
                && ((is_int id || is_uint id) && ltb_ℤ (pos 0) (value_to_int64 id))))
      then record { rqid = value_to_int64 id; expected = computed; got = received } ∷ []
      else []

  -- Does looking for such an error throw, at a caller id that is a NaN?
  unfoldable pub error_throws : SerialReader → Bool
  error_throws r =
      is_started r.reader.data_start
      && (is_response r.reader.frame_meta && peek_throws r.reader.frame_meta)

  -- `finishFrame`, and whether it throws
  unfoldable pub finish_frame : SerialReader → SerialReader × Bool
  finish_frame r =
      let computed = crc_result r.crc_digest in
      let received = message_crc 0 r.crc_buffer in
      if r.with_crc_check && not (computed == received)
      then (if error_throws r then (r, true) else (
        set_state
            (record r {
              response_errors = r.response_errors ++ failed_response r computed received;
            })
            waiting_for_stx,
        false,
      ))
      else (take_frame r r.reader.data_start, false)

  -- `check_response_id`: the ids that it adds to the answer.
  unfoldable pub check_response_id : SerialReader → Stepped
  check_response_id r =
      let (id, reader', thrown) = try_to_read_meta meta_reader r.reader r.read_buffer 0 in
      (ids_of id, record r { reader = reader' }, thrown)

  abbrev pub then_finish : Stepped → Stepped
  then_finish (ids, r, true) = (ids, r, true)
  then_finish (ids, r, false) = let (r', thrown) = finish_frame r in (ids, r', thrown)

  abbrev pub check_and_finish : SerialReader → Stepped
  check_and_finish r = then_finish (check_response_id r)

  -- A byte that is neither STX nor ATX, by the state of the reader.
  abbrev in_state : ReadState → SerialReader → ℕ → Stepped
  in_state waiting_for_stx r b = ([], record r { recent_byte = b }, false)
  in_state waiting_for_etx r b =
      if b == etx
      then (if r.with_crc_check
          then ([], set_state r waiting_for_crc, false)
          else check_and_finish r)
      else (let r' = record r { crc_digest = crc_add r.crc_digest b } in
          ([], record (add_to_read_buffer r' (added r.recent_byte b)) { recent_byte = b }, false))
  in_state waiting_for_crc r b =
      let r' = record (add_to_crc_buffer r (added r.recent_byte b)) { recent_byte = b } in
      if length r'.crc_buffer == 4 then check_and_finish r' else ([], r', false)

  -- One round of the loop of `addData`.
  unfoldable pub step : SerialReader → ℕ → Stepped
  step r b =
      if b == stx
      then ([], record (set_state r waiting_for_etx) { recent_byte = b }, false)
      else if b == atx
      then ([], record (set_state r waiting_for_stx) { recent_byte = b }, false)
      else in_state r.read_state r b

  -- The loop of `addData`, up to the first exception.
  unfoldable pub steps : SerialReader → Str → Stepped
  steps r [] = ([], r, false)
  steps r (b ∷ bs) = then_steps (step r b) (λ r'. steps r' bs)

  -- `addData`
  unfoldable pub add_data : SerialReader → Str → Stepped
  add_data r bytes = answered (then_steps (steps r bytes) check_response_id)

-- `write_escaped`
unfoldable pub escaped : ℕ → Str
escaped b =
    if b == stx
    then esc ∷ estx ∷ []
    else if b == etx
    then esc ∷ eetx ∷ []
    else if b == atx
    then esc ∷ eatx ∷ []
    else if b == esc
    then esc ∷ eesc ∷ []
    else b ∷ []

unfoldable pub escaped_all : Str → Str
escaped_all [] = []
escaped_all (b ∷ bs) = escaped b ++ escaped_all bs

-- The bytes of the CRC from the highest, each escaped.
abbrev pub crc_bytes : ℕ → Str
crc_bytes crc = (crc / 2 ^ 24 % 256) ∷ (crc / 2 ^ 16 % 256) ∷ (crc / 2 ^ 8 % 256) ∷ (crc % 256) ∷ []

-- `addFrameData`: the data that one call adds to the write queue.
unfoldable pub frame_bytes : Bool → Str → Str → Str
frame_bytes with_crc head payload =
    let body = escaped_all head ++ escaped_all payload in
    let crc = crc_result (crc_add_all crc_init body) in
    stx ∷ (body ++ (etx ∷ (if with_crc then escaped_all (crc_bytes crc) else [])))
