-- ===== src/Rpc/Value.antt =====
-- The value type of libshvchainpack/include/shv/chainpack/rpcvalue.h, and its type tests.
-- A double is kept as the bits of its representation; what the code does with it is `Floats`.
-- A null pointer to the meta data reads as empty meta data, and is modelled so.
use libshv.Base.{ℕ, Bool, true, false, Str, ◌||◌, not, List, [], ◌∷◌}
use libshv.Base.Int.{ℤ}

mutual
  pub data RpcValue : Type 0 where
    value : Variant → MetaData → RpcValue

  pub data Variant : Type 0 where
    invalid null : Variant
    uint : ℕ → Variant
    int : ℤ → Variant
    double : ℕ → Variant
    boolean : Bool → Variant
    blob : Str → Variant
    string : Str → Variant
    date_time : ℤ → ℤ → Variant
    list : RpcList → Variant
    map : RpcMap → Variant
    imap : RpcIMap → Variant
    decimal : ℤ → ℤ → Variant

  pub data MetaData : Type 0 where
    meta_data : RpcIMap → RpcMap → MetaData

  pub data RpcList : Type 0 where
    nil : RpcList
    cons : RpcValue → RpcList → RpcList

  -- `std::map` in the order of its keys.
  pub data RpcMap : Type 0 where
    end : RpcMap
    entry : Str → RpcValue → RpcMap → RpcMap

  pub data RpcIMap : Type 0 where
    iend : RpcIMap
    ientry : ℤ → RpcValue → RpcIMap → RpcIMap

-- `RpcMetaData()`
abbrev pub no_meta : MetaData
no_meta = meta_data iend end

-- `RpcValue(x)` for a plain `x`
abbrev pub plain : Variant → RpcValue
plain v = value v no_meta

-- `m_value`
abbrev pub variant : RpcValue → Variant
variant (value v m) = v

-- `metaData()`
abbrev pub metadata : RpcValue → MetaData
metadata (value v m) = m

unfoldable pub is_valid : RpcValue → Bool
is_valid (value invalid m) = false
is_valid _ = true

unfoldable pub is_null : RpcValue → Bool
is_null (value null m) = true
is_null _ = false

unfoldable pub is_int : RpcValue → Bool
is_int (value (int i) m) = true
is_int _ = false

unfoldable pub is_uint : RpcValue → Bool
is_uint (value (uint n) m) = true
is_uint _ = false

unfoldable pub is_string : RpcValue → Bool
is_string (value (string s) m) = true
is_string _ = false

unfoldable pub is_list : RpcValue → Bool
is_list (value (list l) m) = true
is_list _ = false

unfoldable pub is_map : RpcValue → Bool
is_map (value (map l) m) = true
is_map _ = false

unfoldable pub is_imap : RpcValue → Bool
is_imap (value (imap l) m) = true
is_imap _ = false

-- `isValueNotAvailable()`
unfoldable pub is_value_not_available : RpcValue → Bool
unfolding is_valid is_null
is_value_not_available v = not (is_valid v) || is_null v

-- A vector of values as a library list, and back.
unfoldable pub to_list : RpcList → List RpcValue
to_list nil = []
to_list (cons v l) = v ∷ to_list l

unfoldable pub push_back : RpcList → RpcValue → RpcList
push_back nil v = cons v nil
push_back (cons w l) v = cons w (push_back l v)
