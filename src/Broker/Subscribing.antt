-- ===== src/Broker/Subscribing.antt =====
-- What adding, removing, looking up and rejecting a subscription do to a client
-- (libshvbroker/src/rpc/commonrpcclienthandle.cpp).
use libshv.Base.{
  ℕ, zero, suc, ◌+◌, ◌-◌, ◌%◌, ◌^◌, ◌<◌, ◌≡◌, ◌⊎◌, inl, inr, refl, sym, ap, ◌∙◌, Bool, true, false,
  Option, none, some, List, [], ◌∷◌, ◌++◌, Str, arith, length, get_elem?, erase_at, All, Bool-cases,
  Option-cases, length-append,
}
use libshv.Base.Int.{ℤ, pos, negsuc, to_int32, to_int32_of_IsInt32}
use libshv.Broker.Subscription.{
  Subscription, cmp_subscribed, match_signal, find_if, add_at, erase_found, erase_explicit,
  add_subscription, remove_subscription, subscribed_from, is_subscribed,
  reject_not_subscribed_signal,
}
use libshv.Broker.Subscribed.{
  find_if-none, find_if-some, IsFirst, cmp_subscribed_iff, IsDistinct, erase_at-IsDistinct,
  append_one-IsDistinct, set_same,
}

add-new :
    (l : List Subscription) (s : Subscription)
    → find_if (cmp_subscribed s) l ≡ none
    → add_subscription l s ≡ ((length (l ++ (s ∷ [])) - 1) % 2 ^ 32, l ++ (s ∷ []))
unfolding add_subscription
add-new l s h = ap (add_at l s) h

add-known :
    (l : List Subscription) (s : Subscription) (i : ℕ)
    → find_if (cmp_subscribed s) l ≡ some i
    → (add_subscription l s ≡ (i % 2 ^ 32, l)) × (get_elem? l i ≡ some s)
unfolding add_subscription
add-known l s i h =
    let f = find_if-some (cmp_subscribed s) l i h in
    let e : f.0.0 ≡ s = sym ((cmp_subscribed_iff s f.0.0).0 f.0.2) in
    let g : get_elem? l i ≡ some s = f.0.1 ∙ ap (λ t. some t) e in
    (ap (add_at l s) h ∙ ap (λ t. (i % 2 ^ 32, t)) (set_same l i s g), g)

pub get-lt :
    (l : List Subscription) (i : ℕ) (s : Subscription) → get_elem? l i ≡ some s → i < length l
get-lt [] i s h = cc
get-lt (x ∷ xs) zero s h = omega arith
get-lt (x ∷ xs) (suc i) s h = omega (arith, get-lt xs i s h)

-- If the client has fewer than 2 ^ 32 subscriptions, `addSubscription` does one of two things. If
-- none of them equals the new one, it stands behind them afterwards, and the number of those before
-- it is the answer. If one does, nothing changes, and the answer is the index of the first that does.
pub add_subscription_lem :
    (l : List Subscription) (s : Subscription)
    → length l < 2 ^ 32
    → ((All (λ x. cmp_subscribed s x ≡ false) l)
        × (add_subscription l s ≡ (length l, l ++ (s ∷ []))))
      ⊎ ((i : ℕ) × IsFirst (cmp_subscribed s) l i × (add_subscription l s ≡ (i, l)))
add_subscription_lem l s h = elim (Option-cases (find_if (cmp_subscribed s) l)) [
  | inl e ↦
      let n : (length (l ++ (s ∷ [])) - 1) % 2 ^ 32 ≡ length l =
        omega (arith, length-append l (s ∷ [])) in
      inl (find_if-none (cmp_subscribed s) l e, add-new l s e ∙ ap (λ t. (t, l ++ (s ∷ []))) n)
  | inr (i, e) ↦
      let k = add-known l s i e in
      let n : i % 2 ^ 32 ≡ i = omega (arith, get-lt l i s k.1) in
      inr (i, find_if-some (cmp_subscribed s) l i e, k.0 ∙ ap (λ t. (t, l)) n)
]

find_if-absent :
    (p : Subscription → Bool) (l : List Subscription)
    → All (λ x. p x ≡ false) l
    → find_if p l ≡ none
unfolding find_if
find_if-absent p [] h = refl
find_if-absent p (x ∷ xs) h = rw (h.0, find_if-absent p xs h.1) refl

find_if-append :
    (p : Subscription → Bool) (l : List Subscription) (s : Subscription)
    → All (λ x. p x ≡ false) l
    → p s ≡ true
    → find_if p (l ++ (s ∷ [])) ≡ some (length l)
unfolding find_if
find_if-append p [] s h hs = rw hs refl
find_if-append p (x ∷ xs) s h hs = rw (h.0, find_if-append p xs s h.1 hs) refl

erase_at-last : (l : List Subscription) (s : Subscription) → erase_at (l ++ (s ∷ [])) (length l) ≡ l
erase_at-last [] s = refl
erase_at-last (x ∷ xs) s = ap (λ t. x ∷ t) (erase_at-last xs s)

-- After `addSubscription` of a subscription that the client did not have, `removeSubscription` of
-- it succeeds and gives the client's subscriptions back.
pub remove_subscription-add_subscription :
    (l : List Subscription) (s : Subscription)
    → All (λ x. cmp_subscribed s x ≡ false) l
    → remove_subscription (add_subscription l s).1 s ≡ (true, l)
unfolding remove_subscription
remove_subscription-add_subscription l s h =
    rw (add-new l s (find_if-absent (cmp_subscribed s) l h)) (removed)
  where
    removed : remove_subscription (l ++ (s ∷ [])) s ≡ (true, l)
    removed =
        ap (erase_found (l ++ (s ∷ [])))
          (find_if-append (cmp_subscribed s) l s h ((cmp_subscribed_iff s s).1 refl))
        ∙ ap (λ t. (true, t)) (erase_at-last l s)

erase_found-IsDistinct :
    (l : List Subscription) (o : Option ℕ) → IsDistinct l → IsDistinct (erase_found l o).1
erase_found-IsDistinct l none h = h
erase_found-IsDistinct l (some i) h = erase_at-IsDistinct l i h

erase_explicit-IsDistinct :
    (l : List Subscription) (i : ℤ) → IsDistinct l → IsDistinct (erase_explicit l i).1
erase_explicit-IsDistinct l (pos i) h = erase_at-IsDistinct l i h
erase_explicit-IsDistinct l (negsuc i) h = h

add_subscription-IsDistinct :
    (l : List Subscription) (s : Subscription) → IsDistinct l → IsDistinct (add_subscription l s).1
add_subscription-IsDistinct l s h = elim (Option-cases (find_if (cmp_subscribed s) l)) [
  | inl e ↦ rw (add-new l s e) (append_one-IsDistinct l s h (find_if-none (cmp_subscribed s) l e))
  | inr (i, e) ↦ rw ((add-known l s i e).0) h
]

-- `addSubscription`, `removeSubscription` and `rejectNotSubscribedSignal` keep the subscriptions
-- of a client without two equal ones.
pub add-remove-reject-IsDistinct :
    (l : List Subscription) (s : Subscription) (path method source : Str)
    → IsDistinct l
    → IsDistinct (add_subscription l s).1
      × IsDistinct (remove_subscription l s).1
      × IsDistinct (reject_not_subscribed_signal l path method source).1
add-remove-reject-IsDistinct l s path method source h = (
  add_subscription-IsDistinct l s h,
  (unfold remove_subscription in erase_found-IsDistinct l _ h),
  (unfold reject_not_subscribed_signal in erase_explicit-IsDistinct l _ h),
)

-- The answer for a position behind `i`.
abbrev answer : ℕ → Option ℕ → ℤ
answer i none = negsuc 0
answer i (some j) = to_int32 (pos (i + j))

subscribed_from-find_if :
    (i : ℕ) (l : List Subscription) (path method source : Str)
    → subscribed_from i l path method source
      ≡ answer i (find_if (λ s. match_signal s path method source) l)
unfolding subscribed_from find_if
subscribed_from-find_if i [] path method source = refl
subscribed_from-find_if i (s ∷ l) path method source =
    elim (Bool-cases (match_signal s path method source)) [
      | inl e ↦ let z : i + 0 ≡ i = omega arith in rw (e, z) refl
      | inr e ↦
          let f : Subscription → Bool = λ x. match_signal x path method source in
          rw e (
            subscribed_from-find_if (suc i) l path method source
            ∙ elim (Option-cases (find_if f l)) [
              | inl n ↦ rw n refl
              | inr (j, n) ↦ let z : suc i + j ≡ i + suc j = omega arith in rw n (rw z refl)
            ])
    ]

-- `isSubscribed` answers -1 if no subscription of the client matches the signal, and otherwise
-- the index of the first one that does, if the client has fewer than 2 ^ 31 subscriptions.
pub is_subscribed_lem :
    (l : List Subscription) (path method source : Str)
    → length l < 2 ^ 31
    → ((is_subscribed l path method source ≡ negsuc 0)
        × All (λ s. match_signal s path method source ≡ false) l)
      ⊎ ((i : ℕ) × (is_subscribed l path method source ≡ pos i)
          × IsFirst (λ s. match_signal s path method source) l i)
unfolding is_subscribed
is_subscribed_lem l path method source h =
    let f : Subscription → Bool = λ x. match_signal x path method source in
    elim (Option-cases (find_if f l)) [
      | inl n ↦
          inl (subscribed_from-find_if 0 l path method source ∙ ap (answer 0) n, find_if-none f l n)
      | inr (i, n) ↦
          let first = find_if-some f l i n in
          let z : 0 + i ≡ i = omega arith in
          let lt : i < 2 ^ 31 = omega (arith, get-lt l i first.0.0 first.0.1) in
          inr (
            i,
            subscribed_from-find_if 0 l path method source
                ∙ ap (answer 0) n
                ∙ ap (λ t. to_int32 (pos t)) z
                ∙ to_int32_of_IsInt32 (pos i) lt,
            first,
          )
    ]
