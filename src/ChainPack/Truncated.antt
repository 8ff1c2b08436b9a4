-- ===== src/ChainPack/Truncated.antt =====
-- A value whose bytes are cut off is not read (libshvchainpack/src/chainpackreader.cpp).
use libshv.Base.{
  ℕ, ap, Option, ◌≡◌, ◌≢◌, inl, inr, sym, ◌∙◌, [], ◌∷◌, ◌++◌, some, append-nil, Str, length-append,
  arith,
}
use libshv.Rpc.Value.{RpcValue}
use libshv.Rpc.Convert.{Floats}
use libshv.ChainPack.Unpack.{ReadError, no_fuel, done, failed}
use libshv.ChainPack.Reader.{read_value, read_stream}
use libshv.ChainPack.Writer.{write}
use libshv.ChainPack.Writable.{IsWritable}
use libshv.ChainPack.RoundTrip.{read_stream-write}
use libshv.ChainPack.Termination.{read_stream-ends}
use libshv.ChainPack.ReadPrefix.{read_extends, cut_off}

module _ ⦃floats : Floats⦄ where
  cut_stream :
      (v : RpcValue) (b w : Str) (c : ℕ)
      → read_stream (b ++ (c ∷ w)) ≡ done (read_value v) []
      → (e : ReadError) × (read_stream b ≡ failed e)
  unfolding read_stream
  cut_stream v b w c h =
      let (e, k, other) =
        cut_off (read_value v) c w (read_stream b) (read_stream (b ++ (c ∷ w)))
          (read_extends (c ∷ w) _ _ b (omega (arith, length-append b (c ∷ w)))) h in
      (e, k)

  not_fuel : (b : Str) (e : ReadError) → read_stream b ≡ failed e → e ≢ no_fuel
  not_fuel b e h = elim (read_stream-ends b) [
    | inl (item, r, k, lt) ↦ λ n. cc
    | inr (e', k, other) ↦ λ n. other (cc)
  ]

  -- If what is written of a value that is written and read back is cut off before its last byte, it
  -- is not read: the reader fails, and not for want of fuel.
  pub read_stream-cut :
      (v : RpcValue) (b w : Str) (c : ℕ)
      → IsWritable v
      → write v ≡ some (b ++ (c ∷ w))
      → (e : ReadError) × (read_stream b ≡ failed e) × (e ≢ no_fuel)
  read_stream-cut v b w c h k =
      let (whole, e, back) = read_stream-write v [] h in
      let same : ◌≡◌ {A = Option Str} (some whole) (some (b ++ (c ∷ w))) = sym e ∙ k in
      let whole_text : ◌≡◌ {A = Str} whole (b ++ (c ∷ w)) = cc in
      let (err, f) =
        cut_stream v b w c (
          ap read_stream (sym (ap (λ t. t ++ []) whole_text ∙ append-nil (b ++ (c ∷ w)))) ∙ back) in
      (err, f, not_fuel b err f)
