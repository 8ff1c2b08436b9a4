-- ===== src/Broker/Subscribed.antt =====
-- What the operations on a client's subscriptions do.
use libshv.Base.{
  ℕ, zero, suc, ◌≡◌, ◌≢◌, ◌↔◌, inl, inr, refl, sym, ap, ◌∙◌, Bool, true, false, none, some, List,
  [], ◌∷◌, ◌++◌, arith, streq, streq_iff, streq_refl, get_elem?, take, set, erase_at, All,
  Bool-cases, Option-cases,
}
use libshv.Broker.Subscription.{Subscription, cmp_subscribed, find_if}

pub false_ne_true : false ≢ true
false_ne_true h = cc

module _ (p : Subscription → Bool) where
  pub find_if-none : (l : List Subscription) → find_if p l ≡ none → All (λ s. p s ≡ false) l
  unfolding find_if
  find_if-none [] h = tt
  find_if-none (x ∷ xs) h = ground (arith, find_if-none xs)

  -- The first element that passes the test.
  abbrev pub IsFirst : List Subscription → ℕ → Type 0
  IsFirst l i =
      ((s : Subscription) × (get_elem? l i ≡ some s) × (p s ≡ true))
      × All (λ s. p s ≡ false) (take i l)

  pub find_if-some : (l : List Subscription) (i : ℕ) → find_if p l ≡ some i → IsFirst l i
  unfolding find_if
  find_if-some [] i h = ground arith
  find_if-some (x ∷ xs) i h = elim (Bool-cases (p x)) [
    | inl e ↦ (let z : i ≡ 0 = ground arith in rw z ((x, refl, e), tt))
    | inr e ↦ elim (Option-cases (find_if p xs)) [
      | inl n ↦ ground arith
      | inr (j, n) ↦
          (let z : i ≡ suc j = ground arith in
            let r = find_if-some xs j n in rw z ((r.0.0, r.0.1, r.0.2), (e, r.1)))
    ]
  ]

-- Subscriptions that compare equal are equal.
pub cmp_subscribed_iff : (s o : Subscription) → (cmp_subscribed s o ≡ true) ↔ (s ≡ o)
unfolding cmp_subscribed
cmp_subscribed_iff s o = (
  to,
  λ h. rw (← h) (ground (arith, streq_refl s.path, streq_refl s.method, streq_refl s.source)),
)
  where
    to : cmp_subscribed s o ≡ true → s ≡ o
    to h = elim (Bool-cases (streq s.path o.path)) [
      | inr e ↦ ground arith
      | inl e ↦ elim (Bool-cases (streq s.method o.method)) [
        | inr e₁ ↦ ground arith
        | inl e₁ ↦ elim (Bool-cases (streq s.source o.source)) [
          | inr e₂ ↦ ground arith
          | inl e₂ ↦ λ i. record {
            path = (streq_iff s.path o.path).0 e i;
            method = (streq_iff s.method o.method).0 e₁ i;
            source = (streq_iff s.source o.source).0 e₂ i;
          }
        ]
      ]
    ]

pub cmp_subscribed_sym :
    (s o : Subscription) → cmp_subscribed s o ≡ false → cmp_subscribed o s ≡ false
cmp_subscribed_sym s o h = elim (Bool-cases (cmp_subscribed o s)) [
  | inr e ↦ e
  | inl e ↦
      absurd
        (false_ne_true (sym h ∙ (cmp_subscribed_iff s o).1 (sym ((cmp_subscribed_iff o s).0 e))))
]

-- No two subscriptions of the client are equal.
abbrev pub IsDistinct : List Subscription → Type 0
IsDistinct [] = Unit {0}
IsDistinct (x ∷ xs) = All (λ y. cmp_subscribed x y ≡ false) xs × IsDistinct xs

module _ (P : Subscription → Type 0) where
  All-erase_at : (l : List Subscription) (i : ℕ) → All P l → All P (erase_at l i)
  All-erase_at [] i h = tt
  All-erase_at (x ∷ xs) zero h = h.1
  All-erase_at (x ∷ xs) (suc i) h = (h.0, All-erase_at xs i h.1)

  All-append_one :
      (l : List Subscription) (s : Subscription) → All P l → P s → All P (l ++ (s ∷ []))
  All-append_one [] s h hs = (hs, tt)
  All-append_one (x ∷ xs) s h hs = (h.0, All-append_one xs s h.1 hs)

pub erase_at-IsDistinct : (l : List Subscription) (i : ℕ) → IsDistinct l → IsDistinct (erase_at l i)
erase_at-IsDistinct [] i h = tt
erase_at-IsDistinct (x ∷ xs) zero h = h.1
erase_at-IsDistinct (x ∷ xs) (suc i) h = (All-erase_at _ xs i h.0, erase_at-IsDistinct xs i h.1)

pub append_one-IsDistinct :
    (l : List Subscription) (s : Subscription)
    → IsDistinct l
    → All (λ x. cmp_subscribed s x ≡ false) l
    → IsDistinct (l ++ (s ∷ []))
append_one-IsDistinct [] s h hs = (tt, tt)
append_one-IsDistinct (x ∷ xs) s h hs =
    (All-append_one _ xs s h.0 (cmp_subscribed_sym s x hs.0), append_one-IsDistinct xs s h.1 hs.1)

pub set_same :
    (l : List Subscription) (i : ℕ) (s : Subscription) → get_elem? l i ≡ some s → set l i s ≡ l
set_same [] i s h = refl
set_same (x ∷ xs) zero s h = ground arith
set_same (x ∷ xs) (suc i) s h = ap (λ t. x ∷ t) (set_same xs i s h)
