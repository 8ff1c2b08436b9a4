-- ===== src/Rpc/Routes.antt =====
-- A request on its way through brokers and the response on its way back: what `pushCallerId` and
-- `popCallerId` of the meta data do to the stack of connection ids.
use libshv.Base.{
  ℕ, zero, suc, ◌≡◌, ◌≢◌, refl, sym, ap, ◌∙◌, false, if◌then◌else◌, arith, List, [], ◌∷◌, ◌++◌, All,
  length, length-append, append_assoc, append-nil, Bool-cases, inl, inr,
}
use libshv.Base.Int.{ℤ, IsInt32, eqb_ℤ, eqb_ℤ_iff}
use libshv.Rpc.Value.{RpcValue, value, invalid, plain, MetaData, is_valid}
use libshv.Rpc.Convert.{Floats}
use libshv.Rpc.Meta.{meta_value, meta_value-meta_set, meta_value-meta_set_invalid}
use libshv.Rpc.Tags.{tag_caller_ids}
use libshv.Rpc.CallerIds.{caller_ids, set_caller_ids, pushed_id, push_caller_id, pop_caller_id}
use libshv.Rpc.Routing.{IsIds, ids_stack, ids_stack-pushed_id, pop_id-stack, pushed_id-IsIds}
use mathlib.Core.Path.{ap₂}
use mathlib.Core.List.{reverse, reverse-cons, reverse-reverse}

-- What a tag holds after it is set to a value.
abbrev stored : RpcValue → RpcValue
stored v = if is_valid v then v else plain invalid

pub caller_ids-set_caller_ids :
    (m : MetaData) (v : RpcValue) → caller_ids (set_caller_ids m v) ≡ stored v
unfolding caller_ids set_caller_ids
caller_ids-set_caller_ids m v = elim (Bool-cases (is_valid v)) [
  | inl e ↦ meta_value-meta_set m tag_caller_ids tag_caller_ids v e ∙ (unfold eqb_ℤ in rw e)
  | inr e ↦ meta_value-meta_set_invalid m tag_caller_ids tag_caller_ids v e ∙ (unfold eqb_ℤ in rw e)
]

other_tag :
    (m : MetaData) (v : RpcValue) (k : ℤ)
    → k ≢ tag_caller_ids
    → meta_value (set_caller_ids m v) k ≡ meta_value m k
unfolding set_caller_ids
other_tag m v k h = elim (Bool-cases (is_valid v)) [
  | inl e ↦ meta_value-meta_set m tag_caller_ids k v e ∙ rw differs
  | inr e ↦ meta_value-meta_set_invalid m tag_caller_ids k v e ∙ rw differs
]
  where
    differs : eqb_ℤ tag_caller_ids k ≡ false
    differs = elim (Bool-cases (eqb_ℤ tag_caller_ids k)) [
      | inl e ↦ absurd (h (sym ((eqb_ℤ_iff tag_caller_ids k).0 e)))
      | inr e ↦ e
    ]

module _ ⦃floats : Floats⦄ where
  stored-stack : (v : RpcValue) → ids_stack (stored v) ≡ ids_stack v
  unfolding ids_stack is_valid
  stored-stack (value invalid m) = refl
  stored-stack (value _ m) = refl

  stored-IsIds : (v : RpcValue) → IsIds v → IsIds (stored v)
  unfolding is_valid
  stored-IsIds (value invalid m) h = tt
  stored-IsIds (value _ m) h = h

  -- The connection ids in a message's meta data, from the first pushed to the last.
  unfoldable pub caller_stack : MetaData → List ℤ
  caller_stack m = ids_stack (caller_ids m)

  -- The caller ids are absent, an integer, a list, or no number.
  abbrev pub HasIds : MetaData → Type 0
  HasIds m = IsIds (caller_ids m)

  set_stack : (m : MetaData) (v : RpcValue) → caller_stack (set_caller_ids m v) ≡ ids_stack v
  unfolding caller_stack
  set_stack m v = ap ids_stack (caller_ids-set_caller_ids m v) ∙ stored-stack v

  set-HasIds : (m : MetaData) (v : RpcValue) → IsIds v → HasIds (set_caller_ids m v)
  set-HasIds m v h = rw caller_ids-set_caller_ids (stored-IsIds v h)

  -- `pushCallerId` adds the id on top of the stack, and leaves every other tag as it was.
  push_caller_id-stack :
      (m : MetaData) (id : ℤ)
      → IsInt32 id
      → (caller_stack (push_caller_id m id) ≡ caller_stack m ++ (id ∷ []))
        × HasIds (push_caller_id m id)
        × ((k : ℤ) → k ≢ tag_caller_ids → meta_value (push_caller_id m id) k ≡ meta_value m k)
  unfolding push_caller_id caller_stack
  push_caller_id-stack m id h = (
    set_stack m (pushed_id (caller_ids m) id) ∙ ids_stack-pushed_id (caller_ids m) id h,
    set-HasIds m _ (pushed_id-IsIds (caller_ids m) id),
    λ k ne. other_tag m _ k ne,
  )

  -- `popCallerId` takes the id from the top of the stack, and leaves every other tag as it was.
  pop_caller_id-stack :
      (m : MetaData) (s : List ℤ) (id : ℤ)
      → HasIds m
      → caller_stack m ≡ s ++ (id ∷ [])
      → ((pop_caller_id m).0 ≡ id)
        × (caller_stack (pop_caller_id m).1 ≡ s)
        × HasIds (pop_caller_id m).1
        × ((k : ℤ) → k ≢ tag_caller_ids → meta_value (pop_caller_id m).1 k ≡ meta_value m k)
  unfolding pop_caller_id caller_stack
  pop_caller_id-stack m s id h e =
      let (top, rest, ids) = pop_id-stack (caller_ids m) s id h e in
      (top, set_stack m _ ∙ rest, set-HasIds m _ ids, λ k ne. other_tag m _ k ne)

  -- The ids of the connections that a request comes by, pushed one after the other.
  unfoldable pub push_route : MetaData → List ℤ → MetaData
  push_route m [] = m
  push_route m (id ∷ ids) = push_route (push_caller_id m id) ids

  -- The ids that so many pops answer, and the meta data after them.
  unfoldable pub pop_route : ℕ → MetaData → List ℤ × MetaData
  pop_route zero m = ([], m)
  pop_route (suc n) m =
      let (ids, m') = pop_route n (pop_caller_id m).1 in ((pop_caller_id m).0 ∷ ids, m')

  push_route-stack :
      (ids : List ℤ) (m : MetaData)
      → HasIds m
      → All IsInt32 ids
      → (caller_stack (push_route m ids) ≡ caller_stack m ++ ids) × HasIds (push_route m ids)
  unfolding push_route
  push_route-stack [] m h b = (sym (append-nil (caller_stack m)), h)
  push_route-stack (id ∷ ids) m h (b, bs) =
      let (e, h', _) = push_caller_id-stack m id b in
      let (e', h'') = push_route-stack ids (push_caller_id m id) h' bs in
      (e' ∙ rw e (append_assoc (caller_stack m) (id ∷ []) ids), h'')

  pop_route-stack :
      (rs : List ℤ) (s : List ℤ) (m : MetaData)
      → HasIds m
      → caller_stack m ≡ s ++ reverse rs
      → ((pop_route (length rs) m).0 ≡ rs) × (caller_stack (pop_route (length rs) m).1 ≡ s)
  unfolding pop_route
  pop_route-stack [] s m h e = (refl, e ∙ append-nil s)
  pop_route-stack (r ∷ rs) s m h e =
      let e' : caller_stack m ≡ (s ++ reverse rs) ++ (r ∷ []) =
        e ∙ ap (λ t. s ++ t) (reverse-cons r rs) ∙ sym (append_assoc s (reverse rs) (r ∷ [])) in
      let (top, rest, h', _) = pop_caller_id-stack m (s ++ reverse rs) r h e' in
      let (ids, left) = pop_route-stack rs s (pop_caller_id m).1 h' rest in
      (ap₂ (λ a t. a ∷ t) top ids, left)

  length-reverse : (ids : List ℤ) → length (reverse ids) ≡ length ids
  length-reverse [] = refl
  length-reverse (id ∷ ids) =
      ap length (reverse-cons id ids)
      ∙ length-append (reverse ids) (id ∷ [])
      ∙ omega (arith, length-reverse ids)

  -- Whatever caller ids a message starts with, popping as many ids as were pushed answers the
  -- pushed ids from the last to the first, and leaves the stack that was there before.
  pub pop_route-push_route :
      (ids : List ℤ) (m : MetaData)
      → HasIds m
      → All IsInt32 ids
      → ((pop_route (length ids) (push_route m ids)).0 ≡ reverse ids)
        × (caller_stack (pop_route (length ids) (push_route m ids)).1 ≡ caller_stack m)
  pop_route-push_route ids m h b =
      let (e, h') = push_route-stack ids m h b in
      rw (← length-reverse ids) (
        pop_route-stack (reverse ids) (caller_stack m) (push_route m ids) h'
          (e ∙ ap (λ t. caller_stack m ++ t) (sym (reverse-reverse ids))))
