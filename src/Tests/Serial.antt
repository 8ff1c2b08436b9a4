-- ===== src/Tests/Serial.antt =====
-- A frame written and read, and the check value of CRC-32.
use libshv.Base.{◌≡◌, ◌≢◌, refl, ◌++◌, [], ◌∷◌, none, true, false, codes}
use libshv.Base.Int.{pos, eqb_ℤ}
use libshv.Rpc.Value.{MetaData, meta_data, no_meta, plain, int, ientry, iend, end}
use libshv.Rpc.Convert.{int_throws, integer}
use libshv.Rpc.Tags.{is_response, request_id, has_request_id, has_method}
use libshv.Rpc.Meta.{meta_value, has_ikey}
use libshv.Rpc.Maps.{imap_value, imap_has_key, find_ikey}
use libshv.Transport.Crc.{crc_init, crc_add, crc_add_all, crc_result}
use libshv.Transport.Frames.{no_protocol, chain_pack, response_id, throws_id}
use libshv.Transport.Serial.{
  SerialReader, waiting_for_stx, waiting_for_crc, add_data, frame_bytes, ids_of,
}
use libshv.Transport.Delivery.{add_data-frame_bytes}
use libshv.Tests.Data.{test_floats, test_reader}

-- A reader that was interrupted within a CRC.
abbrev interrupted : SerialReader
interrupted = record {
  reader = record {
    frames = [];
    frame_protocol = no_protocol;
    frame_meta = no_meta;
    data_start = none;
  };
  with_crc_check = true;
  read_state = waiting_for_crc;
  recent_byte = 0xAA;
  read_buffer = 1 ∷ 2 ∷ [];
  crc_buffer = 0x10 ∷ [];
  crc_digest = 7;
  response_errors = [];
}

abbrev meta_of_5 : MetaData
meta_of_5 = meta_data (ientry (pos 8) (plain (int (pos 5))) iend) end

chain_pack_ne : chain_pack ≢ no_protocol
chain_pack_ne h = cc

meta_of_5-quiet : throws_id meta_of_5 ≡ false
unfolding throws_id is_response int_throws integer request_id has_request_id has_method meta_value
    has_ikey imap_has_key find_ikey imap_value eqb_ℤ
meta_of_5-quiet = refl

-- The payload holds bytes that are escaped.
add_data-frame_bytes_example :
    let o =
      add_data test_reader interrupted (frame_bytes true (1 ∷ 5 ∷ []) (0xA2 ∷ 0xAA ∷ 9 ∷ [])) in
    (o.0 ≡ ids_of (response_id meta_of_5))
    × (o.1.reader.frames
        ≡ []
          ++ (record { protocol = chain_pack; meta = meta_of_5; payload = 0xA2 ∷ 0xAA ∷ 9 ∷ [] }
              ∷ []))
    × (o.1.read_state ≡ waiting_for_stx)
    × (o.1.response_errors ≡ [])
    × (o.2 ≡ false)
add_data-frame_bytes_example =
    add_data-frame_bytes test_reader interrupted 1 (5 ∷ []) (0xA2 ∷ 0xAA ∷ 9 ∷ []) chain_pack
      meta_of_5 refl chain_pack_ne meta_of_5-quiet refl

check_value : crc_result (crc_add_all crc_init (codes "123456789")) ≡ 0xCBF43926
unfolding crc_result crc_add_all crc_add
check_value = refl
