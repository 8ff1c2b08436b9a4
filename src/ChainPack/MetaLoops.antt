-- ===== src/ChainPack/MetaLoops.antt =====
-- The loops of `ChainPackReader` over the entries that meta data were written with.
use libshv.Base.{
  ℕ, zero, suc, ◌+◌, ◌*◌, ◌<◌, ◌≤◌, ◌≡◌, refl, ap, ◌∙◌, true, some, [], ◌++◌, append_assoc, Str,
  length, length-append, arith,
}
use libshv.Base.Int.{ℤ, IsInt32}
use libshv.Rpc.Value.{
  RpcValue, int, string, MetaData, meta_data, plain, RpcMap, end, entry, RpcIMap, iend, ientry,
  is_valid, is_string,
}
use libshv.Rpc.Maps.{insert_key, insert_ikey, map_set_value, imap_set_value}
use libshv.Rpc.Convert.{int_throws, integer, Floats, as_string}
use libshv.Rpc.Meta.{meta_set, meta_set_s, i_values, s_values}
use libshv.ChainPack.Unpack.{done}
use libshv.ChainPack.Scalars.{bind-done}
use libshv.ChainPack.Reader.{read_value, read, parse_meta_data}
use libshv.ChainPack.Writer.{write, write_map, write_imap}
use libshv.ChainPack.Writable.{
  join, ijoin, Fits, IFits, insert_key-end, insert_ikey-end, Fits-join, IFits-ijoin, join_assoc,
  ijoin_assoc,
}
use libshv.ChainPack.Loops.{IsMapRead, IsIMapRead}
use libshv.ChainPack.MapLoops.{join-end, ijoin-end, to_int-int}

meta-join-end : (m : MetaData) → m ≡ meta_data (i_values m) (join (s_values m) end)
meta-join-end (meta_data i s) = ap (meta_data i) (join-end s)

meta-ijoin-iend : (m : MetaData) → m ≡ meta_data (ijoin (i_values m) iend) (s_values m)
meta-ijoin-iend (meta_data i s) = ap (λ a. meta_data a s) (ijoin-end i)

module _ ⦃floats : Floats⦄ where
  -- A round of parse_meta_data: the key and the value are read.
  round_meta_map :
      (n : ℕ) (acc : MetaData) (k : Str) (v : RpcValue) (bk bv tail : Str)
      → is_valid v ≡ true
      → read n (bk ++ (bv ++ tail)) ≡ done (read_value (plain (string k))) (bv ++ tail)
      → read n (bv ++ tail) ≡ done (read_value v) tail
      → parse_meta_data (suc n) acc (bk ++ (bv ++ tail))
        ≡ parse_meta_data n (meta_data (i_values acc) (insert_key k v (s_values acc))) tail
  unfolding read as_string is_string meta_set_s map_set_value int_throws integer
  round_meta_map n acc k v bk bv tail ok e f =
      bind-done (read n) _ (bk ++ (bv ++ tail)) (bv ++ tail) (read_value (plain (string k))) e
      ∙ bind-done (read n) _ (bv ++ tail) tail (read_value v) f
      ∙ rw ok refl

  -- The rounds over the entries of a map, up to what stands behind them.
  pub rounds_meta_map :
      (m : RpcMap)
      → IsMapRead m
      → (b : Str) × (write_map m ≡ some b)
        × ((n : ℕ) (tail : Str) (acc : MetaData)
            → Fits (s_values acc) m
            → 2 * length b < n
            → (n' : ℕ) × (n ≤ n' + length b)
              × (parse_meta_data n acc (b ++ tail)
                  ≡ parse_meta_data n' (meta_data (i_values acc) (join (s_values acc) m)) tail))
  unfolding write
  rounds_meta_map end h = (
    [],
    refl,
    λ n tail acc fits lt. (n, omega arith, ap (λ a. parse_meta_data n a tail) (meta-join-end acc)),
  )
  rounds_meta_map (entry k v m) h =
      let (bk, e, p, f) = h.0 in
      let (bv, e', p', f') = h.1 in
      let (bm, e'', g) = rounds_meta_map m h.4 in
      (
        bk ++ (bv ++ bm),
        rw (e, e', e'') refl,
        λ n tail acc fits lt.
            step bk bv bm n tail acc p p' f f' g fits
              (rw (length-append bk (bv ++ bm), length-append bv bm) at lt),
      )
    where
      step :
          (bk bv bm : Str) (n : ℕ) (tail : Str) (acc : MetaData)
          → 0 < length bk
          → 0 < length bv
          → ((n : ℕ) (rest : Str)
              → 2 * length bk < n
              → read n (bk ++ rest) ≡ done (read_value (plain (string k))) rest)
          → ((n : ℕ) (rest : Str)
              → 2 * length bv < n
              → read n (bv ++ rest) ≡ done (read_value v) rest)
          → ((n : ℕ) (tail : Str) (acc : MetaData)
              → Fits (s_values acc) m
              → 2 * length bm < n
              → (n' : ℕ) × (n ≤ n' + length bm)
                × (parse_meta_data n acc (bm ++ tail)
                    ≡ parse_meta_data n' (meta_data (i_values acc) (join (s_values acc) m)) tail))
          → Fits (s_values acc) (entry k v m)
          → 2 * (length bk + (length bv + length bm)) < n
          → (n' : ℕ) × (n ≤ n' + length (bk ++ (bv ++ bm)))
            × (parse_meta_data n acc ((bk ++ (bv ++ bm)) ++ tail)
                ≡ parse_meta_data n'
                    (meta_data (i_values acc) (join (s_values acc) (entry k v m)))
                    tail)
      step bk bv bm zero tail acc p p' f f' g fits lt = absurd (omega arith)
      step bk bv bm (suc n) tail acc p p' f f' g fits lt =
          let acc' : MetaData = meta_data (i_values acc) (join (s_values acc) (entry k v end)) in
          let (n', few, k') =
            g n tail acc' (Fits-join (s_values acc) k v m fits.1 h.3) (omega arith) in
          (
            n',
            omega (arith, length-append bk (bv ++ bm), length-append bv bm),
            rw (append_assoc bk (bv ++ bm) tail, append_assoc bv bm tail)
                (round_meta_map n acc k v bk bv (bm ++ tail) h.2
                    (f n (bv ++ (bm ++ tail)) (omega arith)) (f' n (bm ++ tail) (omega arith))
                  ∙ ap (λ a. parse_meta_data n a (bm ++ tail))
                      (ap (meta_data (i_values acc)) (insert_key-end k v (s_values acc) fits.0))
                  ∙ k'
                  ∙ ap (λ a. parse_meta_data n' a tail)
                      (ap (meta_data (i_values acc)) (join_assoc (s_values acc) k v m))),
          )

  -- A round of parse_meta_data: the key and the value are read.
  round_meta_imap :
      (n : ℕ) (acc : MetaData) (k : ℤ) (v : RpcValue) (bk bv tail : Str)
      → is_valid v ≡ true
      → IsInt32 k
      → read n (bk ++ (bv ++ tail)) ≡ done (read_value (plain (int k))) (bv ++ tail)
      → read n (bv ++ tail) ≡ done (read_value v) tail
      → parse_meta_data (suc n) acc (bk ++ (bv ++ tail))
        ≡ parse_meta_data n (meta_data (insert_ikey k v (i_values acc)) (s_values acc)) tail
  unfolding read int_throws integer is_string meta_set imap_set_value
  round_meta_imap n acc k v bk bv tail ok small e f =
      bind-done (read n) _ (bk ++ (bv ++ tail)) (bv ++ tail) (read_value (plain (int k))) e
      ∙ bind-done (read n) _ (bv ++ tail) tail (read_value v) f
      ∙ rw (ok, to_int-int k small) refl

  -- The rounds over the entries of a map, up to what stands behind them.
  pub rounds_meta_imap :
      (m : RpcIMap)
      → IsIMapRead m
      → (b : Str) × (write_imap m ≡ some b)
        × ((n : ℕ) (tail : Str) (acc : MetaData)
            → IFits (i_values acc) m
            → 2 * length b < n
            → (n' : ℕ) × (n ≤ n' + length b)
              × (parse_meta_data n acc (b ++ tail)
                  ≡ parse_meta_data n' (meta_data (ijoin (i_values acc) m) (s_values acc)) tail))
  unfolding write
  rounds_meta_imap iend h = (
    [],
    refl,
    λ n tail acc fits lt.
        (n, omega arith, ap (λ a. parse_meta_data n a tail) (meta-ijoin-iend acc)),
  )
  rounds_meta_imap (ientry k v m) h =
      let (bk, e, p, f) = h.0 in
      let (bv, e', p', f') = h.1 in
      let (bm, e'', g) = rounds_meta_imap m h.5 in
      (
        bk ++ (bv ++ bm),
        rw (e, e', e'') refl,
        λ n tail acc fits lt.
            step bk bv bm n tail acc p p' f f' g fits
              (rw (length-append bk (bv ++ bm), length-append bv bm) at lt),
      )
    where
      step :
          (bk bv bm : Str) (n : ℕ) (tail : Str) (acc : MetaData)
          → 0 < length bk
          → 0 < length bv
          → ((n : ℕ) (rest : Str)
              → 2 * length bk < n
              → read n (bk ++ rest) ≡ done (read_value (plain (int k))) rest)
          → ((n : ℕ) (rest : Str)
              → 2 * length bv < n
              → read n (bv ++ rest) ≡ done (read_value v) rest)
          → ((n : ℕ) (tail : Str) (acc : MetaData)
              → IFits (i_values acc) m
              → 2 * length bm < n
              → (n' : ℕ) × (n ≤ n' + length bm)
                × (parse_meta_data n acc (bm ++ tail)
                    ≡ parse_meta_data n' (meta_data (ijoin (i_values acc) m) (s_values acc)) tail))
          → IFits (i_values acc) (ientry k v m)
          → 2 * (length bk + (length bv + length bm)) < n
          → (n' : ℕ) × (n ≤ n' + length (bk ++ (bv ++ bm)))
            × (parse_meta_data n acc ((bk ++ (bv ++ bm)) ++ tail)
                ≡ parse_meta_data n'
                    (meta_data (ijoin (i_values acc) (ientry k v m)) (s_values acc))
                    tail)
      step bk bv bm zero tail acc p p' f f' g fits lt = absurd (omega arith)
      step bk bv bm (suc n) tail acc p p' f f' g fits lt =
          let acc' : MetaData = meta_data (ijoin (i_values acc) (ientry k v iend)) (s_values acc) in
          let (n', few, k') =
            g n tail acc' (IFits-ijoin (i_values acc) k v m fits.1 h.4) (omega arith) in
          (
            n',
            omega (arith, length-append bk (bv ++ bm), length-append bv bm),
            rw (append_assoc bk (bv ++ bm) tail, append_assoc bv bm tail)
                (round_meta_imap n acc k v bk bv (bm ++ tail) h.2 h.3
                    (f n (bv ++ (bm ++ tail)) (omega arith)) (f' n (bm ++ tail) (omega arith))
                  ∙ ap (λ a. parse_meta_data n a (bm ++ tail))
                      (ap (λ a. meta_data a (s_values acc))
                        (insert_ikey-end k v (i_values acc) fits.0))
                  ∙ k'
                  ∙ ap (λ a. parse_meta_data n' a tail)
                      (ap (λ a. meta_data a (s_values acc)) (ijoin_assoc (i_values acc) k v m))),
          )
