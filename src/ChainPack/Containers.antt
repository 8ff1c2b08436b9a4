-- ===== src/ChainPack/Containers.antt =====
-- A container that `ChainPackWriter` writes is read back by `ChainPackReader`, if its elements are.
use libshv.Base.{
  ℕ, zero, suc, ◌+◌, ◌*◌, ◌^◌, ◌<◌, ◌≤◌, ◌≡◌, refl, ap, ◌∙◌, false, ◌==◌, Option, some, [], ◌∷◌,
  ◌++◌, append_assoc, Str, length, length-append, arith,
}
use libshv.Base.Int.{ℤ, pos, negsuc, IsInt32}
use libshv.Rpc.Value.{
  value, Variant, list, map, imap, MetaData, RpcList, RpcMap, end, RpcIMap, iend,
}
use libshv.Rpc.Convert.{Floats}
use libshv.ChainPack.Int.{magnitude}
use libshv.ChainPack.Pack.{◌<+>◌, byte, cp_meta_map, cp_term}
use libshv.ChainPack.Unpack.{
  done, Reader, ◌>>=◌, unpack_next, take_byte, unpack_schema, Item, scalar, list_begin, map_begin,
  imap_begin,
}
use libshv.ChainPack.Scalars.{bind-done, IsPackedAs}
use libshv.ChainPack.Reader.{
  read_value, read_end, with_meta, read, read_item, parse_list, parse_map, parse_imap,
  parse_meta_data,
}
use libshv.ChainPack.Writer.{write, write_variant, write_list, write_map, write_imap}
use libshv.ChainPack.Writable.{Fits-end, IFits-iend}
use libshv.ChainPack.Loops.{read-term, IsListRead, IsMapRead, IsIMapRead, parse_list-write_list}
use libshv.ChainPack.MapLoops.{rounds_map, rounds_imap}

pub IsInt32-magnitude : (e : ℤ) → IsInt32 e → magnitude e < 2 ^ 63
IsInt32-magnitude (pos n) h = omega (arith, h)
IsInt32-magnitude (negsuc n) h = omega (arith, h)

module _ ⦃floats : Floats⦄ where
  -- What was written of a value without its meta data is read behind them.
  abbrev pub IsVariantRead : Option Str → Variant → Type 0
  IsVariantRead packed v =
      (c : ℕ) × (t : Str) × (packed ≡ some (c ∷ t))
      × ((c == cp_meta_map) ≡ false)
      × ((n : ℕ) (m : MetaData) (rest : Str)
          → 2 * suc (length t) ≤ n
          → (unpack_next >>= read_item n m) (c ∷ (t ++ rest)) ≡ done (read_value (value v m)) rest)

  pub scalar_read :
      (packed : Option Str) (v : Variant) → IsPackedAs packed v → IsVariantRead packed v
  scalar_read packed v (c, t, e, first, f) = (c, t, e, first, λ n m rest h. at n m rest h)
    where
      at :
          (n : ℕ) (m : MetaData) (rest : Str)
          → 2 * suc (length t) ≤ n
          → (unpack_next >>= read_item n m) (c ∷ (t ++ rest)) ≡ done (read_value (value v m)) rest
      at zero m rest h = absurd (omega arith)
      at (suc n) m rest h =
          bind-done unpack_next (read_item (suc n) m) (c ∷ (t ++ rest)) rest (scalar v) (f rest)
          ∙ (unfold read in refl)

  -- A container: its elements are read by a loop, up to the closing byte.
  container_read :
      {A : Type 0} (code : ℕ) (begin : Item) (parse : ℕ → Reader A) (a : A) (make : A → Variant)
      (packed : Option Str)
      → (code == cp_meta_map) ≡ false
      → ((bytes : Str) → unpack_next (code ∷ bytes) ≡ done begin bytes)
      → ((n : ℕ) (m : MetaData)
          → read_item (suc n) m begin ≡ (parse n >>= λ x. with_meta m (make x)))
      → ((b : Str) × (packed ≡ some b)
          × ((n : ℕ) (rest : Str)
              → 2 * suc (length b) < n
              → parse n (b ++ (255 ∷ rest)) ≡ done a rest))
      → IsVariantRead (byte code <+> packed <+> byte cp_term) (make a)
  container_read code begin parse a make packed first opens goes_on (b, e, f) = (
    code,
    b ++ (255 ∷ []),
    rw e refl,
    first,
    λ n m rest h. at n m rest (rw (length-append b (255 ∷ [])) at h),
  )
    where
      at :
          (n : ℕ) (m : MetaData) (rest : Str)
          → 2 * suc (length b + 1) ≤ n
          → (unpack_next >>= read_item n m) (code ∷ ((b ++ (255 ∷ [])) ++ rest))
            ≡ done (read_value (value (make a) m)) rest
      at zero m rest h = absurd (omega arith)
      at (suc n) m rest h = rw (append_assoc b (255 ∷ []) rest) (
          bind-done unpack_next (read_item (suc n) m) (code ∷ (b ++ (255 ∷ rest)))
            (b ++ (255 ∷ rest)) begin (opens (b ++ (255 ∷ rest)))
          ∙ ap (λ r. r (b ++ (255 ∷ rest))) (goes_on n m)
          ∙ bind-done (parse n) (λ x. with_meta m (make x)) (b ++ (255 ∷ rest)) rest a
              (f n rest (omega arith)))

  map_end : (n : ℕ) (m : RpcMap) (rest : Str) → 2 < n → parse_map n m (255 ∷ rest) ≡ done m rest
  unfolding read
  map_end zero m rest h = absurd (omega arith)
  map_end (suc n) m rest h =
      bind-done (read n) _ (255 ∷ rest) rest read_end (read-term n rest (omega arith))

  imap_end : (n : ℕ) (m : RpcIMap) (rest : Str) → 2 < n → parse_imap n m (255 ∷ rest) ≡ done m rest
  unfolding read
  imap_end zero m rest h = absurd (omega arith)
  imap_end (suc n) m rest h =
      bind-done (read n) _ (255 ∷ rest) rest read_end (read-term n rest (omega arith))

  pub meta_end :
      (n : ℕ) (m : MetaData) (rest : Str) → 2 < n → parse_meta_data n m (255 ∷ rest) ≡ done m rest
  unfolding read
  meta_end zero m rest h = absurd (omega arith)
  meta_end (suc n) m rest h =
      bind-done (read n) _ (255 ∷ rest) rest read_end (read-term n rest (omega arith))

  pub list_variant : (l : RpcList) → IsListRead l → IsVariantRead (write_variant (list l)) (list l)
  unfolding write
  list_variant l h =
      container_read 136 list_begin parse_list l list (write_list l) refl
        (λ bytes. unfold unpack_next take_byte unpack_schema in refl) (λ n m. unfold read in refl)
        (parse_list-write_list l h)

  pub map_variant : (l : RpcMap) → IsMapRead l → IsVariantRead (write_variant (map l)) (map l)
  unfolding write
  map_variant l h =
      let (b, e, f) = rounds_map l h in
      container_read 137 map_begin (λ n. parse_map n end) l map (write_map l) refl
        (λ bytes. unfold unpack_next take_byte unpack_schema in refl) (λ n m. unfold read in refl)
        (
          b,
          e,
          λ n rest lt.
              let (n', few, k) = f n (255 ∷ rest) end (Fits-end l) (omega arith) in
              k ∙ map_end n' l rest (omega arith),
        )

  pub imap_variant : (l : RpcIMap) → IsIMapRead l → IsVariantRead (write_variant (imap l)) (imap l)
  unfolding write
  imap_variant l h =
      let (b, e, f) = rounds_imap l h in
      container_read 138 imap_begin (λ n. parse_imap n iend) l imap (write_imap l) refl
        (λ bytes. unfold unpack_next take_byte unpack_schema in refl) (λ n m. unfold read in refl)
        (
          b,
          e,
          λ n rest lt.
              let (n', few, k) = f n (255 ∷ rest) iend (IFits-iend l) (omega arith) in
              k ∙ imap_end n' l rest (omega arith),
        )
