-- ===== src/Broker/Rejecting.antt =====
-- Rejecting a signal that the client did not subscribe (libshvbroker/src/rpc/commonrpcclienthandle.cpp).
use libshv.Base.{
  ℕ, suc, ◌+◌, ◌≡◌, ◌<◌, ◌^◌, ◌&&◌, Bool, if◌then◌else◌, sym, take, Option-cases, ◌⊎◌, inl, inr,
  refl, ap, ◌∙◌, true, false, ltb, some, List, [], ◌∷◌, Str, arith, is_nil, length, get_elem?,
  erase_at, All, Bool-cases,
}
use libshv.Base.Int.{ℤ, pos, negsuc, to_int32, to_int32_of_IsInt32}
use libshv.Broker.Subscription.{
  Subscription, match_signal, find_if, erase_explicit, most_explicit, reject_not_subscribed_signal,
}
use libshv.Broker.Subscribed.{IsFirst, find_if-none, find_if-some}
use libshv.Broker.Subscribing.{get-lt}

module _ (path method source : Str) where
  -- Does a subscription match the signal for any method?
  unfoldable pub is_open : Subscription → Bool
  is_open s = match_signal s path method source && is_nil s.method

  -- The length of the path of a subscription that matches the signal, and 0 of any other.
  unfoldable pub explicitness : Subscription → ℕ
  explicitness s = if match_signal s path method source then length s.path else 0

  explicit-open :
      (best : ℤ) (max_len i : ℕ) (s : Subscription) (l : List Subscription)
      → is_open s ≡ true
      → most_explicit path method source best max_len i (s ∷ l) ≡ to_int32 (pos i)
  unfolding most_explicit is_open
  explicit-open best max_len i s l h =
      let m : match_signal s path method source ≡ true = ground arith in
      let n : is_nil s.method ≡ true = ground arith in rw (m, n) refl

  -- A subscription that does not match for any method is taken if it beats the longest path so far.
  explicit-step :
      (best : ℤ) (max_len i : ℕ) (s : Subscription) (l : List Subscription)
      → is_open s ≡ false
      → most_explicit path method source best max_len i (s ∷ l) ≡ (
          if ltb max_len (explicitness s)
          then most_explicit path method source (to_int32 (pos i)) (explicitness s) (suc i) l
          else most_explicit path method source best max_len (suc i) l)
  unfolding most_explicit is_open explicitness
  explicit-step best max_len i s l h = elim (Bool-cases (match_signal s path method source)) [
    | inr e ↦ let z : ltb max_len 0 ≡ false = ground arith in rw (e, z) refl
    | inl e ↦ let n : is_nil s.method ≡ false = ground arith in rw (e, n) refl
  ]

  -- The loop answers the first one that matches for any method, whatever came before it.
  explicit-first :
      (best : ℤ) (max_len k i : ℕ) (l : List Subscription)
      → find_if is_open l ≡ some i
      → most_explicit path method source best max_len k l ≡ to_int32 (pos (k + i))
  unfolding find_if
  explicit-first best max_len k i [] h = absurd cc
  explicit-first best max_len k i (s ∷ l) h = elim (Bool-cases (is_open s)) [
    | inl e ↦
        let z : i ≡ 0 = ground arith in
        let z : k + i ≡ k = omega arith in
        explicit-open best max_len k s l e ∙ ap (λ t. to_int32 (pos t)) (sym z)
    | inr e ↦ elim (Option-cases (find_if is_open l)) [
      | inl n ↦ ground arith
      | inr (j, n) ↦
          let y : i ≡ suc j = ground arith in
          let z : suc k + j ≡ k + i = omega arith in
          explicit-step best max_len k s l e ∙ elim (Bool-cases (ltb max_len (explicitness s))) [
            | inl x ↦
                rw (x, explicit-first (to_int32 (pos k)) (explicitness s) (suc k) j l n, z) refl
            | inr x ↦ rw (x, explicit-first best max_len (suc k) j l n, z) refl
          ]
    ]
  ]

  -- Subscriptions that are not more explicit than some length.
  abbrev pub IsUpTo : ℕ → List Subscription → Type 0
  IsUpTo n l = All (λ t. explicitness t < suc n) l

  -- The first of the most explicit subscriptions, if any is more explicit than a length.
  pub record IsMostExplicit (n : ℕ) (l : List Subscription) (i : ℕ) : Type 0 where
    pub subs : Subscription
    pub there : get_elem? l i ≡ some subs
    pub more : n < explicitness subs
    pub before : All (λ t. explicitness t < explicitness subs) (take i l)
    pub most : IsUpTo (explicitness subs) l

  IsUpTo-mono : (n n' : ℕ) (l : List Subscription) → n < suc n' → IsUpTo n l → IsUpTo n' l
  IsUpTo-mono n n' [] h a = tt
  IsUpTo-mono n n' (s ∷ l) h a = (omega (arith, a.0), IsUpTo-mono n n' l h a.1)

  explicit-loop :
      (best : ℤ) (max_len k : ℕ) (l : List Subscription)
      → All (λ t. is_open t ≡ false) l
      → ((IsUpTo max_len l) × (most_explicit path method source best max_len k l ≡ best))
        ⊎ ((i : ℕ) × IsMostExplicit max_len l i
            × (most_explicit path method source best max_len k l ≡ to_int32 (pos (k + i))))
  explicit-loop best max_len k [] h = inl (tt, (unfold most_explicit in refl))
  explicit-loop best max_len k (s ∷ l) h =
      let step = explicit-step best max_len k s l h.0 in
      elim (Bool-cases (ltb max_len (explicitness s))) [
        | inl x ↦
            let next = step ∙ rw x refl in
            let more : max_len < explicitness s = ground arith in
            elim (explicit-loop (to_int32 (pos k)) (explicitness s) (suc k) l h.1) [
              | inl (up, e) ↦
                  let z : k + 0 ≡ k = omega arith in
                  inr (
                    0,
                    record {
                      subs = s;
                      there = refl;
                      more = more;
                      before = tt;
                      most = (omega arith, up);
                    },
                    next ∙ e ∙ ap (λ t. to_int32 (pos t)) (sym z),
                  )
              | inr (i, m, e) ↦
                  let z : suc k + i ≡ k + suc i = omega arith in
                  inr (
                    suc i,
                    record {
                      subs = m.subs;
                      there = m.there;
                      more = omega (arith, more, m.more);
                      before = (m.more, m.before);
                      most = (omega (arith, m.more), m.most);
                    },
                    next ∙ e ∙ ap (λ t. to_int32 (pos t)) z,
                  )
            ]
        | inr x ↦
            let next = step ∙ rw x refl in
            let less : explicitness s < suc max_len = ground arith in
            elim (explicit-loop best max_len (suc k) l h.1) [
              | inl (up, e) ↦ inl ((less, up), next ∙ e)
              | inr (i, m, e) ↦
                  let z : suc k + i ≡ k + suc i = omega arith in
                  inr (
                    suc i,
                    record {
                      subs = m.subs;
                      there = m.there;
                      more = m.more;
                      before = (omega (arith, less, m.more), m.before);
                      most = (omega (arith, less, m.more), m.most);
                    },
                    next ∙ e ∙ ap (λ t. to_int32 (pos t)) z,
                  )
            ]
      ]

  erased :
      (l : List Subscription) (i : ℕ) (s : Subscription)
      → length l < 2 ^ 31
      → get_elem? l i ≡ some s
      → most_explicit path method source (negsuc 0) 0 0 l ≡ to_int32 (pos (0 + i))
      → reject_not_subscribed_signal l path method source ≡ (true, erase_at l i)
  unfolding reject_not_subscribed_signal
  erased l i s h g e =
      let z : 0 + i ≡ i = omega arith in
      let lt : i < 2 ^ 31 = omega (arith, h, get-lt l i s g) in
      ap (erase_explicit l) (e ∙ ap (λ t. to_int32 (pos t)) z ∙ to_int32_of_IsInt32 (pos i) lt)

  -- For a client with fewer than 2 ^ 31 subscriptions, `rejectNotSubscribedSignal` does one of three
  -- things. If one matches the signal and has no method, the first such is erased. If none such does
  -- but one with a path that is not empty matches, the first of those with the longest path is
  -- erased. Both times the answer is true. Otherwise the answer is false and nothing changes.
  pub reject_not_subscribed_signal_lem :
      (l : List Subscription)
      → length l < 2 ^ 31
      → ((i : ℕ) × IsFirst is_open l i
          × (reject_not_subscribed_signal l path method source ≡ (true, erase_at l i)))
        ⊎ (((i : ℕ) × (All (λ t. is_open t ≡ false) l)
              × IsMostExplicit 0 l i
              × (reject_not_subscribed_signal l path method source ≡ (true, erase_at l i)))
            ⊎ ((All (λ t. is_open t ≡ false) l)
                × IsUpTo 0 l
                × (reject_not_subscribed_signal l path method source ≡ (false, l))))
  reject_not_subscribed_signal_lem l h = elim (Option-cases (find_if is_open l)) [
    | inr (i, e) ↦
        let first = find_if-some is_open l i e in
        inl (i, first, erased l i first.0.0 h first.0.1 (explicit-first (negsuc 0) 0 0 i l e))
    | inl n ↦
        let closed = find_if-none is_open l n in
        elim (explicit-loop (negsuc 0) 0 0 l closed) [
          | inl (up, e) ↦
              inr
                (inr (closed, up, (unfold reject_not_subscribed_signal in ap (erase_explicit l) e)))
          | inr (i, m, e) ↦ inr (inl (i, closed, m, erased l i m.subs h m.there e))
        ]
  ]

  root-skipped :
      (i : ℕ) (l : List Subscription)
      → All (λ s. (s.path ≡ []) × (is_nil s.method ≡ false)) l
      → most_explicit path method source (negsuc 0) 0 i l ≡ negsuc 0
  unfolding most_explicit
  root-skipped i [] h = refl
  root-skipped i (s ∷ l) h = elim (Bool-cases (match_signal s path method source)) [
    | inr e ↦ rw e (root-skipped (suc i) l h.1)
    | inl e ↦ rw (e, h.0.1) (rw (h.0.0) (root-skipped (suc i) l h.1))
  ]

  -- A client whose subscriptions all have the empty path and some method loses none of them to
  -- `rejectNotSubscribedSignal`, not even one that matches the signal.
  pub reject_not_subscribed_signal_root :
      (l : List Subscription)
      → All (λ s. (s.path ≡ []) × (is_nil s.method ≡ false)) l
      → reject_not_subscribed_signal l path method source ≡ (false, l)
  unfolding reject_not_subscribed_signal
  reject_not_subscribed_signal_root l h = ap (erase_explicit l) (root-skipped 0 l h)
