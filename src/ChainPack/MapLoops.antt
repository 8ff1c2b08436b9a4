-- ===== src/ChainPack/MapLoops.antt =====
-- The loops of `ChainPackReader` over the entries that a map or meta data were written with.
use libshv.Base.{
  ℕ, zero, suc, ◌+◌, ◌*◌, ◌<◌, ◌≤◌, ◌≡◌, refl, ap, ◌∙◌, some, [], ◌++◌, append_assoc, Str, length,
  length-append, arith,
}
use libshv.Base.Int.{ℤ, IsInt32, to_int32_of_IsInt32}
use libshv.Rpc.Value.{RpcValue, int, string, plain, RpcMap, end, entry, RpcIMap, iend, ientry}
use libshv.Rpc.Maps.{insert_key, insert_ikey}
use libshv.Rpc.Convert.{int_throws, integer, Floats, to_int, as_string, integer}
use libshv.ChainPack.Unpack.{done}
use libshv.ChainPack.Scalars.{bind-done}
use libshv.ChainPack.Reader.{read_value, read, parse_map, parse_imap}
use libshv.ChainPack.Writer.{write, write_map, write_imap}
use libshv.ChainPack.Writable.{
  join, ijoin, Fits, IFits, insert_key-end, insert_ikey-end, Fits-join, IFits-ijoin, join_assoc,
  ijoin_assoc,
}
use libshv.ChainPack.Loops.{IsMapRead, IsIMapRead}

pub join-end : (m : RpcMap) → m ≡ join m end
join-end end = refl
join-end (entry k v m) = ap (entry k v) (join-end m)

pub ijoin-end : (m : RpcIMap) → m ≡ ijoin m iend
ijoin-end iend = refl
ijoin-end (ientry k v m) = ap (ientry k v) (ijoin-end m)

module _ ⦃floats : Floats⦄ where
  pub to_int-int : (k : ℤ) → IsInt32 k → to_int (plain (int k)) ≡ k
  unfolding to_int integer
  to_int-int k h = to_int32_of_IsInt32 k h

  -- A round of parse_map: the key and the value are read.
  round_map :
      (n : ℕ) (acc : RpcMap) (k : Str) (v : RpcValue) (bk bv tail : Str)
      → read n (bk ++ (bv ++ tail)) ≡ done (read_value (plain (string k))) (bv ++ tail)
      → read n (bv ++ tail) ≡ done (read_value v) tail
      → parse_map (suc n) acc (bk ++ (bv ++ tail)) ≡ parse_map n (insert_key k v acc) tail
  unfolding read as_string
  round_map n acc k v bk bv tail e f =
      bind-done (read n) _ (bk ++ (bv ++ tail)) (bv ++ tail) (read_value (plain (string k))) e
      ∙ bind-done (read n) _ (bv ++ tail) tail (read_value v) f
      ∙ refl

  -- The rounds over the entries of a map, up to what stands behind them.
  pub rounds_map :
      (m : RpcMap)
      → IsMapRead m
      → (b : Str) × (write_map m ≡ some b)
        × ((n : ℕ) (tail : Str) (acc : RpcMap)
            → Fits (acc) m
            → 2 * length b < n
            → (n' : ℕ) × (n ≤ n' + length b)
              × (parse_map n acc (b ++ tail) ≡ parse_map n' (join acc m) tail))
  unfolding write
  rounds_map end h = (
    [],
    refl,
    λ n tail acc fits lt. (n, omega arith, ap (λ a. parse_map n a tail) (join-end acc)),
  )
  rounds_map (entry k v m) h =
      let (bk, e, p, f) = h.0 in
      let (bv, e', p', f') = h.1 in
      let (bm, e'', g) = rounds_map m h.4 in
      (
        bk ++ (bv ++ bm),
        rw (e, e', e'') refl,
        λ n tail acc fits lt.
            step bk bv bm n tail acc p p' f f' g fits
              (rw (length-append bk (bv ++ bm), length-append bv bm) at lt),
      )
    where
      step :
          (bk bv bm : Str) (n : ℕ) (tail : Str) (acc : RpcMap)
          → 0 < length bk
          → 0 < length bv
          → ((n : ℕ) (rest : Str)
              → 2 * length bk < n
              → read n (bk ++ rest) ≡ done (read_value (plain (string k))) rest)
          → ((n : ℕ) (rest : Str)
              → 2 * length bv < n
              → read n (bv ++ rest) ≡ done (read_value v) rest)
          → ((n : ℕ) (tail : Str) (acc : RpcMap)
              → Fits (acc) m
              → 2 * length bm < n
              → (n' : ℕ) × (n ≤ n' + length bm)
                × (parse_map n acc (bm ++ tail) ≡ parse_map n' (join acc m) tail))
          → Fits (acc) (entry k v m)
          → 2 * (length bk + (length bv + length bm)) < n
          → (n' : ℕ) × (n ≤ n' + length (bk ++ (bv ++ bm)))
            × (parse_map n acc ((bk ++ (bv ++ bm)) ++ tail)
                ≡ parse_map n' (join acc (entry k v m)) tail)
      step bk bv bm zero tail acc p p' f f' g fits lt = absurd (omega arith)
      step bk bv bm (suc n) tail acc p p' f f' g fits lt =
          let acc' : RpcMap = join acc (entry k v end) in
          let (n', few, k') = g n tail acc' (Fits-join acc k v m fits.1 h.3) (omega arith) in
          (
            n',
            omega (arith, length-append bk (bv ++ bm), length-append bv bm),
            rw (append_assoc bk (bv ++ bm) tail, append_assoc bv bm tail)
                (round_map n acc k v bk bv (bm ++ tail) (f n (bv ++ (bm ++ tail)) (omega arith))
                    (f' n (bm ++ tail) (omega arith))
                  ∙ ap (λ a. parse_map n a (bm ++ tail)) (insert_key-end k v acc fits.0)
                  ∙ k'
                  ∙ ap (λ a. parse_map n' a tail) (join_assoc acc k v m)),
          )

  -- A round of parse_imap: the key and the value are read.
  round_imap :
      (n : ℕ) (acc : RpcIMap) (k : ℤ) (v : RpcValue) (bk bv tail : Str)
      → IsInt32 k
      → read n (bk ++ (bv ++ tail)) ≡ done (read_value (plain (int k))) (bv ++ tail)
      → read n (bv ++ tail) ≡ done (read_value v) tail
      → parse_imap (suc n) acc (bk ++ (bv ++ tail)) ≡ parse_imap n (insert_ikey k v acc) tail
  unfolding read int_throws integer
  round_imap n acc k v bk bv tail small e f =
      bind-done (read n) _ (bk ++ (bv ++ tail)) (bv ++ tail) (read_value (plain (int k))) e
      ∙ bind-done (read n) _ (bv ++ tail) tail (read_value v) f
      ∙ ap (λ j. parse_imap n (insert_ikey j v acc) tail) (to_int-int k small)

  -- The rounds over the entries of a map, up to what stands behind them.
  pub rounds_imap :
      (m : RpcIMap)
      → IsIMapRead m
      → (b : Str) × (write_imap m ≡ some b)
        × ((n : ℕ) (tail : Str) (acc : RpcIMap)
            → IFits (acc) m
            → 2 * length b < n
            → (n' : ℕ) × (n ≤ n' + length b)
              × (parse_imap n acc (b ++ tail) ≡ parse_imap n' (ijoin acc m) tail))
  unfolding write
  rounds_imap iend h = (
    [],
    refl,
    λ n tail acc fits lt. (n, omega arith, ap (λ a. parse_imap n a tail) (ijoin-end acc)),
  )
  rounds_imap (ientry k v m) h =
      let (bk, e, p, f) = h.0 in
      let (bv, e', p', f') = h.1 in
      let (bm, e'', g) = rounds_imap m h.5 in
      (
        bk ++ (bv ++ bm),
        rw (e, e', e'') refl,
        λ n tail acc fits lt.
            step bk bv bm n tail acc p p' f f' g fits
              (rw (length-append bk (bv ++ bm), length-append bv bm) at lt),
      )
    where
      step :
          (bk bv bm : Str) (n : ℕ) (tail : Str) (acc : RpcIMap)
          → 0 < length bk
          → 0 < length bv
          → ((n : ℕ) (rest : Str)
              → 2 * length bk < n
              → read n (bk ++ rest) ≡ done (read_value (plain (int k))) rest)
          → ((n : ℕ) (rest : Str)
              → 2 * length bv < n
              → read n (bv ++ rest) ≡ done (read_value v) rest)
          → ((n : ℕ) (tail : Str) (acc : RpcIMap)
              → IFits (acc) m
              → 2 * length bm < n
              → (n' : ℕ) × (n ≤ n' + length bm)
                × (parse_imap n acc (bm ++ tail) ≡ parse_imap n' (ijoin acc m) tail))
          → IFits (acc) (ientry k v m)
          → 2 * (length bk + (length bv + length bm)) < n
          → (n' : ℕ) × (n ≤ n' + length (bk ++ (bv ++ bm)))
            × (parse_imap n acc ((bk ++ (bv ++ bm)) ++ tail)
                ≡ parse_imap n' (ijoin acc (ientry k v m)) tail)
      step bk bv bm zero tail acc p p' f f' g fits lt = absurd (omega arith)
      step bk bv bm (suc n) tail acc p p' f f' g fits lt =
          let acc' : RpcIMap = ijoin acc (ientry k v iend) in
          let (n', few, k') = g n tail acc' (IFits-ijoin acc k v m fits.1 h.4) (omega arith) in
          (
            n',
            omega (arith, length-append bk (bv ++ bm), length-append bv bm),
            rw (append_assoc bk (bv ++ bm) tail, append_assoc bv bm tail)
                (round_imap n acc k v bk bv (bm ++ tail) h.3
                    (f n (bv ++ (bm ++ tail)) (omega arith)) (f' n (bm ++ tail) (omega arith))
                  ∙ ap (λ a. parse_imap n a (bm ++ tail)) (insert_ikey-end k v acc fits.0)
                  ∙ k'
                  ∙ ap (λ a. parse_imap n' a tail) (ijoin_assoc acc k v m)),
          )
