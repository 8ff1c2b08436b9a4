-- ===== src/ChainPack/Termination.antt =====
-- The loops of `ChainPackReader` end: the fuel of `read_stream` is enough for every stream of bytes.
use libshv.Base.{
  ℕ, zero, suc, ◌+◌, ◌-◌, ◌*◌, ◌<◌, ◌≤◌, ◌≡◌, ◌≢◌, ◌⊎◌, inl, inr, refl, ap, Bool, true, false, ◌==◌,
  if◌then◌else◌, [], ◌∷◌, Str, length, arith, Bool-cases,
}
use libshv.Rpc.Value.{
  RpcValue, list, map, imap, MetaData, no_meta, cons, RpcMap, end, RpcIMap, iend,
}
use libshv.Rpc.Maps.{insert_key, insert_ikey}
use libshv.Rpc.Convert.{int_throws, Floats, to_int, as_string}
use libshv.Rpc.Meta.{meta_is_empty}
use libshv.ChainPack.Pack.{cp_meta_map}
use libshv.ChainPack.Unpack.{
  ReadError, buffer_underflow, malformed_input, invalid_type, meta_data_of_invalid, not_a_number,
  no_fuel, Outcome, done, failed, Reader, ◌>>=◌, give, fail, Item, scalar, list_begin, map_begin,
  imap_begin, meta_begin, container_end, unpack_next, take_byte,
}
use libshv.ChainPack.Reader.{
  as_key, ReadItem, read_value, read_end, value_of, with_meta, read_meta_with, set_meta, read,
  read_item, parse_list, parse_map, parse_imap, parse_meta_data, read_stream,
}
use libshv.ChainPack.Progress.{IsWithin, IsWithin-mono, bind-IsWithin, unpack_next-IsWithin}

end_within :
    (t : Bool) (r : Str)
    → IsWithin (length r) ((if t then give read_end else fail meta_data_of_invalid) r)
end_within true r = omega arith
end_within false r = tt

after_item :
    (f : Item → Reader ReadItem) (b : Str) (L : ℕ)
    → ((it : Item) (r : Str) → suc (length r) ≤ length b → IsWithin L (f it r))
    → IsWithin L ((unpack_next >>= f) b)
unfolding unpack_next take_byte
after_item f [] L h = tt
after_item f (c ∷ b) L h =
    bind-IsWithin unpack_next f (c ∷ b) (length b) L
      (unpack_next-IsWithin (c ∷ b) (length b) (omega arith)) (λ it r q. h it r (omega arith))

decided :
    (o : Outcome ReadItem) (b : Str)
    → IsWithin (length b - 1) o
    → (b ≡ [] → o ≡ failed buffer_underflow)
    → ((item : ReadItem) × (r : Str) × (o ≡ done item r) × (length r < length b))
      ⊎ ((e : ReadError) × (o ≡ failed e) × (e ≢ no_fuel))
decided (done item r) [] h k = absurd (cc (k refl))
decided (done item r) (c ∷ b) h k = inl (item, r, refl, omega arith)
decided (failed no_fuel) b h k = absurd h
decided (failed buffer_underflow) b h k = inr (buffer_underflow, refl, λ e. cc)
decided (failed malformed_input) b h k = inr (malformed_input, refl, λ e. cc)
decided (failed invalid_type) b h k = inr (invalid_type, refl, λ e. cc)
decided (failed meta_data_of_invalid) b h k = inr (meta_data_of_invalid, refl, λ e. cc)
decided (failed not_a_number) b h k = inr (not_a_number, refl, λ e. cc)

module _ ⦃floats : Floats⦄ where
  read_meta_within :
      (parse : Reader MetaData) (b : Str)
      → ((c : ℕ) (r : Str) → b ≡ c ∷ r → IsWithin (length r) (parse r))
      → IsWithin (length b) (read_meta_with parse b)
  read_meta_within parse [] h = omega arith
  read_meta_within parse (c ∷ r) h = elim (Bool-cases (c == cp_meta_map)) [
    | inl e ↦ rw e (IsWithin-mono (parse r) (length r) (suc (length r)) (omega arith) (h c r refl))
    | inr e ↦ rw e (omega arith)
  ]

  as_key-IsWithin :
      {A : Type 0} (k : RpcValue) (next : Reader A) (r : Str) (L : ℕ)
      → IsWithin L (next r)
      → IsWithin L (as_key k next r)
  as_key-IsWithin k next r L h = elim (Bool-cases (int_throws k)) [
    | inl e ↦ rw e tt
    | inr e ↦ rw e h
  ]

  mutual
    unfolding read unpack_next take_byte

    read_within :
        (n : ℕ) (b : Str) (L : ℕ) → 3 * length b < n → length b ≤ suc L → IsWithin L (read n b)
    read_within zero b L h k = absurd (omega arith)
    read_within (suc n) b L h k =
        bind-IsWithin (read_meta_with (parse_meta_data n no_meta)) _ b (length b) L
          (read_meta_within (parse_meta_data n no_meta) b
            (λ c r e. parse_meta_data_within n r no_meta (omega (arith, ap length e))))
          (λ m r q. after_item (read_item n m) r L (λ it r' q'.
            IsWithin-mono (read_item n m it r') (length r') L (omega arith)
              (item_within n m it r' (omega arith))))

    item_within :
        (n : ℕ) (m : MetaData) (it : Item) (r : Str)
        → 3 * length r + 3 ≤ n
        → IsWithin (length r) (read_item n m it r)
    item_within zero m it r h = absurd (omega arith)
    item_within (suc n) m (scalar v) r h = omega arith
    item_within (suc n) m list_begin r h =
        bind-IsWithin (parse_list n) (λ l. with_meta m (list l)) r (length r) (length r)
          (parse_list_within n r (omega arith)) (λ l r' q. q)
    item_within (suc n) m map_begin r h =
        bind-IsWithin (parse_map n end) (λ l. with_meta m (map l)) r (length r) (length r)
          (parse_map_within n r end (omega arith)) (λ l r' q. q)
    item_within (suc n) m imap_begin r h =
        bind-IsWithin (parse_imap n iend) (λ l. with_meta m (imap l)) r (length r) (length r)
          (parse_imap_within n r iend (omega arith)) (λ l r' q. q)
    item_within (suc n) m meta_begin r h = tt
    item_within (suc n) m container_end r h = end_within (meta_is_empty m) r

    parse_list_within :
        (n : ℕ) (b : Str) → 3 * length b + 1 < n → IsWithin (length b) (parse_list n b)
    parse_list_within zero b h = absurd (omega arith)
    parse_list_within (suc zero) [] h = absurd (omega arith)
    parse_list_within (suc (suc n)) [] h = tt
    parse_list_within (suc n) (c ∷ b) h =
        bind-IsWithin (read n) _ (c ∷ b) (length b) (suc (length b))
          (read_within n (c ∷ b) (length b) (omega arith) (omega arith))
          (elim [
            | read_end ↦ λ r q. omega arith
            | read_value v ↦ λ r q.
                bind-IsWithin (parse_list n) (λ l. give (cons v l)) r (length r) (suc (length b))
                  (parse_list_within n r (omega arith)) (λ l r' q'. omega arith)
          ])

    parse_map_within :
        (n : ℕ) (b : Str) (m : RpcMap)
        → 3 * length b + 1 < n
        → IsWithin (length b) (parse_map n m b)
    parse_map_within zero b m h = absurd (omega arith)
    parse_map_within (suc zero) [] m h = absurd (omega arith)
    parse_map_within (suc (suc n)) [] m h = tt
    parse_map_within (suc n) (c ∷ b) m h =
        bind-IsWithin (read n) _ (c ∷ b) (length b) (suc (length b))
          (read_within n (c ∷ b) (length b) (omega arith) (omega arith))
          (elim [
            | read_end ↦ λ r q. omega arith
            | read_value k ↦ λ r q.
                bind-IsWithin (read n) (λ v. parse_map n (insert_key (as_string k) (value_of v) m))
                  r (length r) (suc (length b))
                  (read_within n r (length r) (omega arith) (omega arith))
                  (λ v r' q'.
                    IsWithin-mono (parse_map n (insert_key (as_string k) (value_of v) m) r')
                      (length r') (suc (length b)) (omega arith)
                      (parse_map_within n r' (insert_key (as_string k) (value_of v) m)
                        (omega arith)))
          ])

    parse_imap_within :
        (n : ℕ) (b : Str) (m : RpcIMap)
        → 3 * length b + 1 < n
        → IsWithin (length b) (parse_imap n m b)
    parse_imap_within zero b m h = absurd (omega arith)
    parse_imap_within (suc zero) [] m h = absurd (omega arith)
    parse_imap_within (suc (suc n)) [] m h = tt
    parse_imap_within (suc n) (c ∷ b) m h =
        bind-IsWithin (read n) _ (c ∷ b) (length b) (suc (length b))
          (read_within n (c ∷ b) (length b) (omega arith) (omega arith))
          (elim [
            | read_end ↦ λ r q. omega arith
            | read_value k ↦ λ r q.
                bind-IsWithin (read n)
                  (λ v. as_key k (parse_imap n (insert_ikey (to_int k) (value_of v) m))) r
                  (length r) (suc (length b))
                  (read_within n r (length r) (omega arith) (omega arith))
                  (λ v r' q'.
                    as_key-IsWithin k (parse_imap n (insert_ikey (to_int k) (value_of v) m)) r'
                      (suc (length b))
                      (IsWithin-mono (parse_imap n (insert_ikey (to_int k) (value_of v) m) r')
                        (length r') (suc (length b)) (omega arith)
                        (parse_imap_within n r' (insert_ikey (to_int k) (value_of v) m)
                          (omega arith))))
          ])

    parse_meta_data_within :
        (n : ℕ) (b : Str) (m : MetaData)
        → 3 * length b + 1 < n
        → IsWithin (length b) (parse_meta_data n m b)
    parse_meta_data_within zero b m h = absurd (omega arith)
    parse_meta_data_within (suc zero) [] m h = absurd (omega arith)
    parse_meta_data_within (suc (suc n)) [] m h = tt
    parse_meta_data_within (suc n) (c ∷ b) m h =
        bind-IsWithin (read n) _ (c ∷ b) (length b) (suc (length b))
          (read_within n (c ∷ b) (length b) (omega arith) (omega arith))
          (elim [
            | read_end ↦ λ r q. omega arith
            | read_value k ↦ λ r q.
                bind-IsWithin (read n)
                  (λ v. as_key k (parse_meta_data n (set_meta m k (value_of v)))) r (length r)
                  (suc (length b)) (read_within n r (length r) (omega arith) (omega arith))
                  (λ v r' q'.
                    as_key-IsWithin k (parse_meta_data n (set_meta m k (value_of v))) r'
                      (suc (length b))
                      (IsWithin-mono (parse_meta_data n (set_meta m k (value_of v)) r') (length r')
                        (suc (length b)) (omega arith)
                        (parse_meta_data_within n r' (set_meta m k (value_of v)) (omega arith))))
          ])

  -- Whatever the bytes are, `read_stream` does not run out of fuel: it reads a value and leaves fewer
  -- bytes, or it fails with an error of the stream, or at a key that is a NaN.
  pub read_stream-ends :
      (b : Str)
      → ((item : ReadItem) × (r : Str) × (read_stream b ≡ done item r) × (length r < length b))
        ⊎ ((e : ReadError) × (read_stream b ≡ failed e) × (e ≢ no_fuel))
  unfolding read_stream
  read_stream-ends b =
      decided (read_stream b) b
        (read_within (suc (3 * length b)) b (length b - 1) (omega arith) (omega arith)) (at_end b)
    where
      at_end : (b : Str) → b ≡ [] → read_stream b ≡ failed buffer_underflow
      at_end b e = rw e (unfold read unpack_next take_byte in refl)
