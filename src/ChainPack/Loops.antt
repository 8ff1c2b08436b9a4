-- ===== src/ChainPack/Loops.antt =====
-- The loops of `ChainPackReader` over the elements that a container was written with.
use libshv.Base.{
  ℕ, zero, suc, ◌+◌, ◌*◌, ◌<◌, ◌≡◌, refl, ◌∙◌, true, false, ◌==◌, Option, some, [], ◌∷◌, ◌++◌,
  append_assoc, Str, length, length-append, arith,
}
use libshv.Base.Int.{IsInt32}
use libshv.Rpc.Value.{
  RpcValue, Variant, int, string, no_meta, plain, RpcList, nil, cons, RpcMap, end, entry, RpcIMap,
  iend, ientry, is_valid,
}
use libshv.Rpc.Convert.{Floats}
use libshv.Rpc.Meta.{meta_is_empty}
use libshv.ChainPack.Pack.{pack_int, pack_string, cp_meta_map}
use libshv.ChainPack.Unpack.{done, ◌>>=◌, give, unpack_next, take_byte, unpack_schema, scalar}
use libshv.ChainPack.Scalars.{bind-done, IsPackedAs}
use libshv.ChainPack.Reader.{read_value, read_end, read, read_item, parse_list}
use libshv.ChainPack.Writer.{write, write_list}
use libshv.ChainPack.Writable.{IsAbove, IsIAbove}

module _ ⦃floats : Floats⦄ where
  -- What was written of a value is read from in front of any other bytes, with more fuel than twice
  -- the bytes.
  abbrev pub IsRead : Option Str → RpcValue → Type 0
  IsRead packed v =
      (b : Str) × (packed ≡ some b)
      × (0 < length b)
      × ((n : ℕ) (rest : Str) → 2 * length b < n → read n (b ++ rest) ≡ done (read_value v) rest)

  -- Without meta data, `read` goes on to the item.
  pub read-no_meta :
      (n c : ℕ) (bytes : Str)
      → (c == cp_meta_map) ≡ false
      → read (suc n) (c ∷ bytes) ≡ (unpack_next >>= read_item n no_meta) (c ∷ bytes)
  unfolding read
  read-no_meta n c bytes h = rw (h, ◌>>=◌) refl

  pub IsPackedAs-IsRead :
      (packed : Option Str) (v : Variant) → IsPackedAs packed v → IsRead packed (plain v)
  IsPackedAs-IsRead packed v (c, t, e, plain_byte, f) =
      (c ∷ t, e, omega arith, λ n rest h. with_fuel n rest h)
    where
      with_fuel :
          (n : ℕ) (rest : Str)
          → 2 * suc (length t) < n
          → read n (c ∷ (t ++ rest)) ≡ done (read_value (plain v)) rest
      with_fuel zero rest h = absurd (omega arith)
      with_fuel (suc zero) rest h = absurd (omega arith)
      with_fuel (suc (suc n)) rest h =
          read-no_meta (suc n) c (t ++ rest) plain_byte
          ∙ bind-done unpack_next (read_item (suc n) no_meta) (c ∷ (t ++ rest)) rest (scalar v)
              (f rest)
          ∙ (unfold read in refl)

  -- The end of a container.
  pub read-term : (n : ℕ) (rest : Str) → 1 < n → read n (255 ∷ rest) ≡ done read_end rest
  unfolding read unpack_next take_byte unpack_schema meta_is_empty
  read-term zero rest h = absurd (omega arith)
  read-term (suc zero) rest h = absurd (omega arith)
  read-term (suc (suc n)) rest h = refl

  -- Every element of a list, every key and value of a map is read as it was written.
  abbrev pub IsListRead : RpcList → Type 0
  IsListRead nil = Unit {0}
  IsListRead (cons v l) = IsRead (write v) v × IsListRead l

  abbrev pub IsMapRead : RpcMap → Type 0
  IsMapRead end = Unit {0}
  IsMapRead (entry k v m) =
      IsRead (pack_string k) (plain (string k))
      × IsRead (write v) v
      × (is_valid v ≡ true)
      × IsAbove k m
      × IsMapRead m

  abbrev pub IsIMapRead : RpcIMap → Type 0
  IsIMapRead iend = Unit {0}
  IsIMapRead (ientry k v m) =
      IsRead (pack_int k) (plain (int k))
      × IsRead (write v) v
      × (is_valid v ≡ true)
      × IsInt32 k
      × IsIAbove k m
      × IsIMapRead m

  pub parse_list-write_list :
      (l : RpcList)
      → IsListRead l
      → (b : Str) × (write_list l ≡ some b)
        × ((n : ℕ) (rest : Str)
            → 2 * suc (length b) < n
            → parse_list n (b ++ (255 ∷ rest)) ≡ done l rest)
  unfolding write
  parse_list-write_list nil h = ([], refl, λ n rest k. at_end n rest k)
    where
      at_end : (n : ℕ) (rest : Str) → 2 < n → parse_list n (255 ∷ rest) ≡ done nil rest
      at_end zero rest k = absurd (omega arith)
      at_end (suc n) rest k =
          unfold read in
          (bind-done (read n) _ (255 ∷ rest) rest read_end (read-term n rest (omega arith)))
  parse_list-write_list (cons v l) h =
      let (bv, e, some_bytes, f) = h.0 in
      let (bl, k, g) = parse_list-write_list l h.1 in
      (
        bv ++ bl,
        rw (e, k) refl,
        λ n rest q. step bv bl n rest some_bytes f g (rw (length-append bv bl) at q),
      )
    where
      step :
          (bv bl : Str) (n : ℕ) (rest : Str)
          → 0 < length bv
          → ((n : ℕ) (rest : Str)
              → 2 * length bv < n
              → read n (bv ++ rest) ≡ done (read_value v) rest)
          → ((n : ℕ) (rest : Str)
              → 2 * suc (length bl) < n
              → parse_list n (bl ++ (255 ∷ rest)) ≡ done l rest)
          → 2 * suc (length bv + length bl) < n
          → parse_list n ((bv ++ bl) ++ (255 ∷ rest)) ≡ done (cons v l) rest
      step bv bl zero rest p f g q = absurd (omega arith)
      step bv bl (suc n) rest p f g q = rw (append_assoc bv bl (255 ∷ rest)) (
          unfold read in
          (bind-done (read n) _ (bv ++ (bl ++ (255 ∷ rest))) (bl ++ (255 ∷ rest)) (read_value v)
              (f n (bl ++ (255 ∷ rest)) (omega arith))
            ∙ bind-done (parse_list n) (λ l. give (cons v l)) (bl ++ (255 ∷ rest)) rest l
                (g n rest (omega arith))))
