-- ===== src/Rpc/Routing.antt =====
-- The caller ids of a message behave as a stack of connection ids, whichever of the forms of
-- `RpcMessage` (nothing, one id, a list) they have at the moment.
use libshv.Base.{◌≡◌, refl, ap, ◌∙◌, true, false, List, [], ◌∷◌, ◌++◌}
use libshv.Base.Int.{ℤ, pos, IsInt32, to_int32, to_int32-IsInt32, to_int32_of_IsInt32}
use libshv.Rpc.Value.{
  RpcValue, value, uint, int, double, date_time, list, decimal, RpcList, nil, cons, plain, to_list,
  push_back, is_list, is_int, is_uint, is_valid,
}
use libshv.Rpc.Convert.{or_zero, Floats, to_int, integer, as_list}
use libshv.Rpc.CallerIds.{pushed_id, pop_id, back, pop_back, list_empty}
use mathlib.Core.Path.{ap₂}

-- Numbers that are no ids: `popCallerId` reads them, `pushCallerId` drops them.
abbrev pub IsIds : RpcValue → Type 0
IsIds (value (double d) m) = ⊥
IsIds (value (decimal c e) m) = ⊥
IsIds (value (date_time t z) m) = ⊥
IsIds _ = Unit {0}

module _ ⦃floats : Floats⦄ where
  abbrev ints : List RpcValue → List ℤ
  ints [] = []
  ints (v ∷ vs) = to_int v ∷ ints vs

  -- The ids from the first pushed to the last.
  unfoldable pub ids_stack : RpcValue → List ℤ
  unfolding to_list
  ids_stack (value (list l) m) = ints (to_list l)
  ids_stack (value (int i) m) = to_int (value (int i) m) ∷ []
  ids_stack (value (uint n) m) = to_int (value (uint n) m) ∷ []
  ids_stack _ = []

  ints-push_back :
      (l : RpcList) (v : RpcValue)
      → ints (to_list (push_back l v)) ≡ ints (to_list l) ++ (to_int v ∷ [])
  unfolding to_list push_back
  ints-push_back nil v = refl
  ints-push_back (cons w l) v = ap (λ t. to_int w ∷ t) (ints-push_back l v)

  to_int_again : (i : ℤ) → IsInt32 i → to_int (plain (int i)) ≡ i
  unfolding to_int integer
  to_int_again i h = to_int32_of_IsInt32 i h

  to_int-IsInt32 : (v : RpcValue) → IsInt32 (to_int v)
  unfolding to_int
  to_int-IsInt32 v = to_int32-IsInt32 (or_zero (integer v))

  pub ids_stack-pushed_id :
      (v : RpcValue) (id : ℤ) → IsInt32 id → ids_stack (pushed_id v id) ≡ ids_stack v ++ (id ∷ [])
  unfolding ids_stack pushed_id is_list is_int is_uint as_list
  ids_stack-pushed_id (value (list l) m) id h =
      ints-push_back l (plain (int id)) ∙ rw (to_int_again id h)
  ids_stack-pushed_id (value (int i) m) id h = rw (
    to_int_again id h,
    to_int_again (to_int (value (int i) m)) (to_int-IsInt32 (value (int i) m)),
  )
  ids_stack-pushed_id (value (uint n) m) id h = rw (
    to_int_again id h,
    to_int_again (to_int (value (uint n) m)) (to_int-IsInt32 (value (uint n) m)),
  )
  ids_stack-pushed_id (value _ m) id h = rw (to_int_again id h)

  back-push_back : (l : RpcList) (v : RpcValue) → back (push_back l v) ≡ v
  unfolding push_back back
  back-push_back nil v = refl
  back-push_back (cons w nil) v = refl
  back-push_back (cons w (cons x l)) v = back-push_back (cons x l) v

  single_last :
      (x id : ℤ) (s : List ℤ)
      → ◌≡◌ {A = List ℤ} (x ∷ []) (s ++ (id ∷ []))
      → (x ≡ id) × (◌≡◌ {A = List ℤ} [] s)
  single_last x id [] e = (cc, refl)
  single_last x id (y ∷ []) e = cc
  single_last x id (y ∷ z ∷ s) e = cc

  nil_not_last : (id : ℤ) (s : List ℤ) → ◌≡◌ {A = List ℤ} [] (s ++ (id ∷ [])) → ⊥
  nil_not_last id [] e = cc
  nil_not_last id (y ∷ s) e = cc

  ints-back :
      (l : RpcList) (s : List ℤ) (id : ℤ)
      → ints (to_list l) ≡ s ++ (id ∷ [])
      → (list_empty l ≡ false) × (to_int (back l) ≡ id) × (ints (to_list (pop_back l)) ≡ s)
  unfolding to_list back pop_back
  ints-back nil s id e = absurd (nil_not_last id s e)
  ints-back (cons v nil) s id e = let (h, t) = single_last (to_int v) id s e in (refl, h, t)
  ints-back (cons v (cons w l)) [] id e = cc
  ints-back (cons v (cons w l)) (x ∷ s) id e =
      let (h, b, p) = ints-back (cons w l) s id (cc) in (refl, b, ap₂ (λ a t. a ∷ t) (cc) p)

  pub pop_id-stack :
      (v : RpcValue) (s : List ℤ) (id : ℤ)
      → IsIds v
      → ids_stack v ≡ s ++ (id ∷ [])
      → ((pop_id v).0 ≡ id) × (ids_stack (pop_id v).1 ≡ s) × IsIds (pop_id v).1
  unfolding ids_stack pop_id is_list as_list
  pop_id-stack (value (list l) m) s id h e = let (n, b, p) = ints-back l s id e in (rw n b, p, tt)
  pop_id-stack (value (int i) m) s id h e =
      let (b, p) = single_last (to_int (value (int i) m)) id s e in (b, p, tt)
  pop_id-stack (value (uint i) m) s id h e =
      let (b, p) = single_last (to_int (value (uint i) m)) id s e in (b, p, tt)
  pop_id-stack (value (double _) m) s id h e = elim h [ ]
  pop_id-stack (value (decimal _ _) m) s id h e = elim h [ ]
  pop_id-stack (value (date_time _ _) m) s id h e = elim h [ ]
  pop_id-stack (value _ m) s id h e = absurd (nil_not_last id s e)

  pub pop_id_empty :
      (v : RpcValue)
      → IsIds v
      → ids_stack v ≡ []
      → ((pop_id v).0 ≡ pos 0) × (ids_stack (pop_id v).1 ≡ [])
  unfolding ids_stack pop_id is_list as_list to_int integer to_int32
  pop_id_empty (value (list nil) m) h e = unfold to_list pop_back in (refl, refl)
  pop_id_empty (value (list (cons v l)) m) h e = unfold to_list in cc
  pop_id_empty (value (int i) m) h e = cc
  pop_id_empty (value (uint i) m) h e = cc
  pop_id_empty (value (double _) m) h e = elim h [ ]
  pop_id_empty (value (decimal _ _) m) h e = elim h [ ]
  pop_id_empty (value (date_time _ _) m) h e = elim h [ ]
  pop_id_empty (value _ m) h e = (refl, refl)

  pub pushed_id-IsIds : (v : RpcValue) (id : ℤ) → IsIds (pushed_id v id)
  unfolding pushed_id is_list is_int is_uint
  pushed_id-IsIds (value (list l) m) id = tt
  pushed_id-IsIds (value (int l) m) id = tt
  pushed_id-IsIds (value (uint l) m) id = tt
  pushed_id-IsIds (value _ m) id = tt

  pub pushed_id-valid : (v : RpcValue) (id : ℤ) → is_valid (pushed_id v id) ≡ true
  unfolding pushed_id is_list is_int is_uint is_valid
  pushed_id-valid (value (list l) m) id = refl
  pushed_id-valid (value (int l) m) id = refl
  pushed_id-valid (value (uint l) m) id = refl
  pushed_id-valid (value _ m) id = refl
