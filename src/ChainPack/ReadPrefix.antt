-- ===== src/ChainPack/ReadPrefix.antt =====
-- A value that is read from a stream is read from a longer one with more fuel; meta data that are
-- cut off are not read.
use libshv.Base.{
  ℕ, zero, suc, ◌≤◌, ◌≢◌, ◌≡◌, refl, sym, ap, ◌∙◌, Bool, true, false, ◌==◌, if◌then◌else◌, [], ◌∷◌,
  ◌++◌, Str, length, length-append, arith, Bool-cases, inl, inr,
}
use libshv.Rpc.Value.{
  RpcValue, list, map, imap, MetaData, no_meta, cons, RpcMap, end, RpcIMap, iend,
}
use libshv.Rpc.Maps.{insert_key, insert_ikey}
use libshv.Rpc.Convert.{int_throws, Floats, to_int, as_string}
use libshv.Rpc.Meta.{meta_is_empty}
use libshv.ChainPack.Pack.{cp_meta_map}
use libshv.ChainPack.Unpack.{
  ReadError, buffer_underflow, malformed_input, invalid_type, not_a_number, no_fuel,
  meta_data_of_invalid, Outcome, done, failed, Reader, ◌>>=◌, give, fail, Item, scalar, list_begin,
  map_begin, imap_begin, meta_begin, container_end, unpack_next, take_byte,
}
use libshv.ChainPack.Reader.{
  as_key, read_value, read_end, value_of, with_meta, read_meta_with, set_meta, read, read_item,
  parse_list, parse_map, parse_imap, parse_meta_data,
}
use libshv.ChainPack.Prefix.{Extends, bind-Extends, unpack_next-Extends}

end_extends :
    (x : Str) (t : Bool) (r : Str)
    → Extends x
        ((if t then give read_end else fail meta_data_of_invalid) r)
        ((if t then give read_end else fail meta_data_of_invalid) (r ++ x))
end_extends x true r = refl
end_extends x false r = tt

module _ ⦃floats : Floats⦄ (x : Str) where
  read_meta_extends :
      (parse parse' : Reader MetaData) (c : ℕ) (b : Str)
      → Extends x (parse b) (parse' (b ++ x))
      → Extends x (read_meta_with parse (c ∷ b)) (read_meta_with parse' (c ∷ (b ++ x)))
  read_meta_extends parse parse' c b h = elim (Bool-cases (c == cp_meta_map)) [
    | inl e ↦ rw e h
    | inr e ↦ rw e refl
  ]

  as_key_extends :
      {A : Type 0} (k : RpcValue) (next next' : Reader A) (r : Str)
      → Extends x (next r) (next' (r ++ x))
      → Extends x (as_key k next r) (as_key k next' (r ++ x))
  as_key_extends k next next' r h = elim (Bool-cases (int_throws k)) [
    | inl e ↦ rw e refl
    | inr e ↦ rw e h
  ]

  mutual
    unfolding read unpack_next take_byte

    pub read_extends : (n n' : ℕ) (b : Str) → n ≤ n' → Extends x (read n b) (read n' (b ++ x))
    read_extends zero n' b h = tt
    read_extends (suc n) zero b h = absurd (omega arith)
    read_extends (suc n) (suc n') [] h = tt
    read_extends (suc n) (suc n') (c ∷ b) h =
        bind-Extends x (read_meta_with (parse_meta_data n no_meta))
          (read_meta_with (parse_meta_data n' no_meta)) (λ m. unpack_next >>= read_item n m)
          (λ m. unpack_next >>= read_item n' m) (c ∷ b) (c ∷ (b ++ x))
          (read_meta_extends (parse_meta_data n no_meta) (parse_meta_data n' no_meta) c b
            (parse_meta_data_extends n n' b no_meta (omega arith)))
          (λ m r.
            bind-Extends x unpack_next unpack_next (read_item n m) (read_item n' m) r (r ++ x)
              (unpack_next-Extends x r) (λ it r'. item_extends n n' m it r' (omega arith)))

    item_extends :
        (n n' : ℕ) (m : MetaData) (it : Item) (r : Str)
        → n ≤ n'
        → Extends x (read_item n m it r) (read_item n' m it (r ++ x))
    item_extends zero n' m it r h = tt
    item_extends (suc n) zero m it r h = absurd (omega arith)
    item_extends (suc n) (suc n') m (scalar v) r h = refl
    item_extends (suc n) (suc n') m list_begin r h =
        bind-Extends x (parse_list n) (parse_list n') (λ l. with_meta m (list l))
          (λ l. with_meta m (list l)) r (r ++ x) (parse_list_extends n n' r (omega arith))
          (λ l r'. refl)
    item_extends (suc n) (suc n') m map_begin r h =
        bind-Extends x (parse_map n end) (parse_map n' end) (λ l. with_meta m (map l))
          (λ l. with_meta m (map l)) r (r ++ x) (parse_map_extends n n' r end (omega arith))
          (λ l r'. refl)
    item_extends (suc n) (suc n') m imap_begin r h =
        bind-Extends x (parse_imap n iend) (parse_imap n' iend) (λ l. with_meta m (imap l))
          (λ l. with_meta m (imap l)) r (r ++ x) (parse_imap_extends n n' r iend (omega arith))
          (λ l r'. refl)
    item_extends (suc n) (suc n') m meta_begin r h = tt
    item_extends (suc n) (suc n') m container_end r h = end_extends x (meta_is_empty m) r

    parse_list_extends :
        (n n' : ℕ) (b : Str) → n ≤ n' → Extends x (parse_list n b) (parse_list n' (b ++ x))
    parse_list_extends zero n' b h = tt
    parse_list_extends (suc n) zero b h = absurd (omega arith)
    parse_list_extends (suc n) (suc n') b h =
        bind-Extends x (read n) (read n') _ _ b (b ++ x) (read_extends n n' b (omega arith)) (elim [
          | read_end ↦ λ r. refl
          | read_value v ↦ λ r.
              bind-Extends x (parse_list n) (parse_list n') (λ l. give (cons v l))
                (λ l. give (cons v l)) r (r ++ x) (parse_list_extends n n' r (omega arith))
                (λ l r'. refl)
        ])

    parse_map_extends :
        (n n' : ℕ) (b : Str) (m : RpcMap)
        → n ≤ n'
        → Extends x (parse_map n m b) (parse_map n' m (b ++ x))
    parse_map_extends zero n' b m h = tt
    parse_map_extends (suc n) zero b m h = absurd (omega arith)
    parse_map_extends (suc n) (suc n') b m h =
        bind-Extends x (read n) (read n') _ _ b (b ++ x) (read_extends n n' b (omega arith)) (elim [
          | read_end ↦ λ r. refl
          | read_value k ↦ λ r.
              bind-Extends x (read n) (read n')
                (λ v. parse_map n (insert_key (as_string k) (value_of v) m))
                (λ v. parse_map n' (insert_key (as_string k) (value_of v) m)) r (r ++ x)
                (read_extends n n' r (omega arith))
                (λ v r'.
                  parse_map_extends n n' r' (insert_key (as_string k) (value_of v) m) (omega arith))
        ])

    parse_imap_extends :
        (n n' : ℕ) (b : Str) (m : RpcIMap)
        → n ≤ n'
        → Extends x (parse_imap n m b) (parse_imap n' m (b ++ x))
    parse_imap_extends zero n' b m h = tt
    parse_imap_extends (suc n) zero b m h = absurd (omega arith)
    parse_imap_extends (suc n) (suc n') b m h =
        bind-Extends x (read n) (read n') _ _ b (b ++ x) (read_extends n n' b (omega arith)) (elim [
          | read_end ↦ λ r. refl
          | read_value k ↦ λ r.
              bind-Extends x (read n) (read n')
                (λ v. as_key k (parse_imap n (insert_ikey (to_int k) (value_of v) m)))
                (λ v. as_key k (parse_imap n' (insert_ikey (to_int k) (value_of v) m))) r (r ++ x)
                (read_extends n n' r (omega arith))
                (λ v r'. as_key_extends k _ _ r' (
                  parse_imap_extends n n' r' (insert_ikey (to_int k) (value_of v) m) (omega arith)))
        ])

    parse_meta_data_extends :
        (n n' : ℕ) (b : Str) (m : MetaData)
        → n ≤ n'
        → Extends x (parse_meta_data n m b) (parse_meta_data n' m (b ++ x))
    parse_meta_data_extends zero n' b m h = tt
    parse_meta_data_extends (suc n) zero b m h = absurd (omega arith)
    parse_meta_data_extends (suc n) (suc n') b m h =
        bind-Extends x (read n) (read n') _ _ b (b ++ x) (read_extends n n' b (omega arith)) (elim [
          | read_end ↦ λ r. refl
          | read_value k ↦ λ r.
              bind-Extends x (read n) (read n')
                (λ v. as_key k (parse_meta_data n (set_meta m k (value_of v))))
                (λ v. as_key k (parse_meta_data n' (set_meta m k (value_of v)))) r (r ++ x)
                (read_extends n n' r (omega arith))
                (λ v r'.
                  as_key_extends k _ _ r'
                    (parse_meta_data_extends n n' r' (set_meta m k (value_of v)) (omega arith)))
        ])

abbrev rest_of {ℓ} : {A : Type ℓ} → Outcome A → Str
rest_of (done a r) = r
rest_of (failed e) = []

-- A part of what is read to its end is not read, but for no NaN.
pub cut_off :
    {A : Type 0} (a : A) (c : ℕ) (w : Str) (o o' : Outcome A)
    → Extends (c ∷ w) o o'
    → o' ≡ done a []
    → (e : ReadError) × (o ≡ failed e) × (e ≢ not_a_number)
cut_off a c w (failed not_a_number) o' h k = absurd cc
cut_off a c w (failed buffer_underflow) o' h k = (buffer_underflow, refl, λ i. cc)
cut_off a c w (failed malformed_input) o' h k = (malformed_input, refl, λ i. cc)
cut_off a c w (failed invalid_type) o' h k = (invalid_type, refl, λ i. cc)
cut_off a c w (failed meta_data_of_invalid) o' h k = (meta_data_of_invalid, refl, λ i. cc)
cut_off a c w (failed no_fuel) o' h k = (no_fuel, refl, λ i. cc)
cut_off a c w (done a' r) o' h k =
    absurd (omega (arith, length-append r (c ∷ w), ap (λ o. length (rest_of o)) (sym h ∙ k)))

module _ ⦃floats : Floats⦄ where
  -- Meta data that are cut off are not read, but for no NaN, whatever the fuel below that of the whole.
  pub parse_meta_data-cut :
      (n n' : ℕ) (m m' : MetaData) (b w : Str) (c : ℕ)
      → n ≤ n'
      → parse_meta_data n' m (b ++ (c ∷ w)) ≡ done m' []
      → (e : ReadError) × (parse_meta_data n m b ≡ failed e) × (e ≢ not_a_number)
  parse_meta_data-cut n n' m m' b w c h k =
      cut_off m' c w (parse_meta_data n m b) (parse_meta_data n' m (b ++ (c ∷ w)))
        (parse_meta_data_extends (c ∷ w) n n' b m h) k
