-- ===== src/Tests/Data.antt =====
-- What the tests share: a reader of floating point numbers and one of meta data.
use libshv.Base.{ℕ, ◌+◌, Option, none, some, get_elem?}
use libshv.Base.Int.{pos}
use libshv.Rpc.Value.{meta_data, no_meta, plain, int, ientry, iend, end}
use libshv.Rpc.Convert.{Floats}
use libshv.Transport.Frames.{MetaReader, ReadMeta, meta_read, parse_exception}

-- Decimals, read as the double 0.
instance abbrev pub test_floats : Floats
test_floats = record { decimal_to_double = λ m e. 0 }

-- Meta data of one byte, the request id of a response.
abbrev read_response : Option ℕ → ℕ → ReadMeta
read_response none next = parse_exception no_meta
read_response (some id) next =
    meta_read (meta_data (ientry (pos 8) (plain (int (pos id))) iend) end) (some next)

abbrev pub test_reader : MetaReader
test_reader = record { read_meta = λ p buffer at. read_response (get_elem? buffer at) (at + 1) }
