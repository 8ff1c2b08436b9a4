-- ===== src/ChainPack/RoundTrip.antt =====
-- A value that `ChainPackWriter` writes is read back by `ChainPackReader`.
use libshv.Base.{
  ℕ, zero, suc, ◌+◌, ◌*◌, ◌<◌, ◌≤◌, ◌≡◌, refl, ◌∙◌, false, ◌==◌, Option, some, [], ◌∷◌, ◌++◌,
  append_assoc, Str, length, length-append, arith,
}
use libshv.Rpc.Value.{
  RpcValue, value, Variant, invalid, null, uint, int, double, boolean, blob, string, date_time,
  list, map, imap, decimal, MetaData, meta_data, no_meta, RpcList, nil, cons, RpcMap, end, entry,
  RpcIMap, iend, ientry,
}
use libshv.Rpc.Convert.{Floats}
use libshv.Rpc.Meta.{meta_is_empty}
use libshv.ChainPack.Pack.{◌<+>◌, cp_meta_map, pack_int, pack_string}
use libshv.ChainPack.Unpack.{done, ◌>>=◌, unpack_next}
use libshv.ChainPack.Scalars.{
  bind-done, null-packed, boolean-packed, uint-packed, int-packed, decimal-packed, double-packed,
  blob-packed, string-packed, date_time-packed,
}
use libshv.ChainPack.Reader.{
  read_value, read_meta_with, read, read_item, parse_meta_data, read_stream,
}
use libshv.ChainPack.Writer.{write, write_variant, write_meta, write_map, write_imap}
use libshv.ChainPack.Writable.{
  Fits-end, IFits-iend, IsWritable, IsWritableVariant, IsWritableMeta, IsWritableList,
  IsWritableMap, IsWritableIMap, IsWritable-is_valid,
}
use libshv.ChainPack.Loops.{IsRead, IsPackedAs-IsRead, IsListRead, IsMapRead, IsIMapRead}
use libshv.ChainPack.MetaLoops.{rounds_meta_map, rounds_meta_imap}
use libshv.ChainPack.Containers.{
  IsInt32-magnitude, IsVariantRead, scalar_read, list_variant, map_variant, imap_variant, meta_end,
}

module _ ⦃floats : Floats⦄ where
  -- What was written of meta data is read from in front of a byte that begins no meta data.
  abbrev pub IsMetaRead : Option Str → MetaData → Type 0
  IsMetaRead packed m =
      (b : Str) × (packed ≡ some b)
      × ((n c : ℕ) (rest : Str)
          → 2 * length b ≤ n
          → (c == cp_meta_map) ≡ false
          → read_meta_with (parse_meta_data n no_meta) (b ++ (c ∷ rest)) ≡ done m (c ∷ rest))

  -- The loop over the entries of meta data, up to the closing byte.
  pub entries_read :
      (i : RpcIMap) (s : RpcMap)
      → IsIMapRead i
      → IsMapRead s
      → (b : Str) × ((write_imap i <+> write_map s) ≡ some b)
        × ((n : ℕ) (rest : Str)
            → 2 * suc (length b) < n
            → parse_meta_data n no_meta (b ++ (255 ∷ rest)) ≡ done (meta_data i s) rest)
  entries_read i s hi hs =
      let (bi, e, f) = rounds_meta_imap i hi in
      let (bs, e', g) = rounds_meta_map s hs in
      (
        bi ++ bs,
        rw (e, e') refl,
        λ n rest lt.
            let enough : 2 * suc (length bi + length bs) < n = rw (length-append bi bs) at lt in
            let (n', few, k) = f n (bs ++ (255 ∷ rest)) no_meta (IFits-iend i) (omega arith) in
            let (n'', few', k') = g n' (255 ∷ rest) (meta_data i end) (Fits-end s) (omega arith) in
            rw (append_assoc bi bs (255 ∷ rest))
              (k ∙ k' ∙ meta_end n'' (meta_data i s) rest (omega arith)),
      )

  nonempty_read :
      (i : RpcIMap) (s : RpcMap)
      → IsIMapRead i
      → IsMapRead s
      → meta_is_empty (meta_data i s) ≡ false
      → IsMetaRead (write_meta (meta_data i s)) (meta_data i s)
  unfolding write
  nonempty_read i s hi hs e =
      let (b, p, f) = entries_read i s hi hs in
      (
        139 ∷ (b ++ (255 ∷ [])),
        rw (e, p) refl,
        λ n c rest lt first.
            rw (append_assoc b (255 ∷ []) (c ∷ rest))
              (f n (c ∷ rest) (omega (arith, length-append b (255 ∷ [])))),
      )

  metadata_read :
      (i : RpcIMap) (s : RpcMap)
      → IsIMapRead i
      → IsMapRead s
      → IsMetaRead (write_meta (meta_data i s)) (meta_data i s)
  unfolding write meta_is_empty
  metadata_read iend end hi hs = ([], refl, λ n c rest lt first. rw first refl)
  metadata_read iend (entry k v s) hi hs = nonempty_read iend (entry k v s) hi hs (ground arith)
  metadata_read (ientry k v i) s hi hs = nonempty_read (ientry k v i) s hi hs (ground arith)

  read-meta :
      (n : ℕ) (m : MetaData) (bytes rest : Str)
      → read_meta_with (parse_meta_data n no_meta) bytes ≡ done m rest
      → read (suc n) bytes ≡ (unpack_next >>= read_item n m) rest
  unfolding read
  read-meta n m bytes rest h =
      bind-done (read_meta_with (parse_meta_data n no_meta)) (λ m. unpack_next >>= read_item n m)
        bytes rest m h

  whole-IsRead :
      (v : Variant) (m : MetaData)
      → IsVariantRead (write_variant v) v
      → IsMetaRead (write_meta m) m
      → IsRead (write (value v m)) (value v m)
  unfolding write
  whole-IsRead v m (c, t, e, first, f) (b, e', g) = (
    b ++ (c ∷ t),
    rw (e, e') refl,
    omega (arith, length-append b (c ∷ t)),
    λ n rest lt. at n rest (rw (length-append b (c ∷ t)) at lt),
  )
    where
      at :
          (n : ℕ) (rest : Str)
          → 2 * (length b + suc (length t)) < n
          → read n ((b ++ (c ∷ t)) ++ rest) ≡ done (read_value (value v m)) rest
      at zero rest lt = absurd (omega arith)
      at (suc n) rest lt = rw (append_assoc b (c ∷ t) rest) (
          read-meta n m (b ++ (c ∷ (t ++ rest))) (c ∷ (t ++ rest))
            (g n c (t ++ rest) (omega arith) first)
          ∙ f n m rest (omega arith))

  mutual
    unfolding IsWritable write

    value-IsRead : (v : RpcValue) → IsWritable v → IsRead (write v) v
    value-IsRead (value v m) h = whole-IsRead v m (variant_read v h.0) (meta_read m h.1)

    variant_read : (v : Variant) → IsWritableVariant v → IsVariantRead (write_variant v) v
    variant_read invalid h = absurd h
    variant_read null h = scalar_read _ null null-packed
    variant_read (uint n) h = scalar_read _ (uint n) (uint-packed n h)
    variant_read (int i) h = scalar_read _ (int i) (int-packed i h)
    variant_read (double d) h = scalar_read _ (double d) (double-packed d h)
    variant_read (boolean b) h = scalar_read _ (boolean b) (boolean-packed b)
    variant_read (blob s) h = scalar_read _ (blob s) (blob-packed s h)
    variant_read (string s) h = scalar_read _ (string s) (string-packed s h)
    variant_read (date_time t z) h = scalar_read _ (date_time t z) (date_time-packed t z h)
    variant_read (decimal m e) h =
        scalar_read _ (decimal m e) (decimal-packed m e h.0 h.1 (IsInt32-magnitude e h.1))
    variant_read (list l) h = list_variant l (list_read l h)
    variant_read (map m) h = map_variant m (map_read m h)
    variant_read (imap m) h = imap_variant m (imap_read m h)

    meta_read : (m : MetaData) → IsWritableMeta m → IsMetaRead (write_meta m) m
    meta_read (meta_data i s) h = metadata_read i s (imap_read i h.0) (map_read s h.1)

    list_read : (l : RpcList) → IsWritableList l → IsListRead l
    list_read nil h = tt
    list_read (cons v l) h = (value-IsRead v h.0, list_read l h.1)

    map_read : (m : RpcMap) → IsWritableMap m → IsMapRead m
    map_read end h = tt
    map_read (entry k v m) h = (
      IsPackedAs-IsRead (pack_string k) (string k) (string-packed k h.0),
      value-IsRead v h.1,
      IsWritable-is_valid v h.1,
      h.2,
      map_read m h.3,
    )

    imap_read : (m : RpcIMap) → IsWritableIMap m → IsIMapRead m
    imap_read iend h = tt
    imap_read (ientry k v m) h = (
      IsPackedAs-IsRead (pack_int k) (int k) (int-packed k (IsInt32-magnitude k h.0)),
      value-IsRead v h.1,
      IsWritable-is_valid v h.1,
      h.0,
      h.2,
      imap_read m h.3,
    )

  -- Writable meta data that are not empty are written between their brackets.
  pub write_meta-entries :
      (m : MetaData)
      → IsWritableMeta m
      → meta_is_empty m ≡ false
      → (b : Str) × (write_meta m ≡ some (139 ∷ (b ++ (255 ∷ []))))
        × ((n : ℕ) (rest : Str)
            → 2 * suc (length b) < n
            → parse_meta_data n no_meta (b ++ (255 ∷ rest)) ≡ done m rest)
  unfolding IsWritable write
  write_meta-entries (meta_data i s) h e =
      let (b, p, f) = entries_read i s (imap_read i h.0) (map_read s h.1) in (b, rw (e, p) refl, f)

  -- A writable value is written, and is read back from in front of any other bytes with more fuel
  -- than twice the bytes that were written.
  pub read-write :
      (v : RpcValue)
      → IsWritable v
      → (b : Str) × (write v ≡ some b)
        × (0 < length b)
        × ((n : ℕ) (rest : Str) → 2 * length b < n → read n (b ++ rest) ≡ done (read_value v) rest)
  read-write v h = value-IsRead v h

  -- A value with integers of 64 bits but the least one, texts shorter than 2 ^ 63, dates within some
  -- 140 000 years of 1970, maps in the order of their keys and no invalid value in it is written,
  -- and read back from in front of any other bytes, which are left.
  pub read_stream-write :
      (v : RpcValue) (rest : Str)
      → IsWritable v
      → (b : Str) × (write v ≡ some b) × (read_stream (b ++ rest) ≡ done (read_value v) rest)
  unfolding read_stream
  read_stream-write v rest h =
      let (b, e, some_bytes, f) = read-write v h in
      (b, e, f (suc (3 * length (b ++ rest))) rest (omega (arith, length-append b rest)))
