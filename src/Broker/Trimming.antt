-- ===== src/Broker/Trimming.antt =====
-- What the constructor of a subscription makes of the slashes around its path
-- (libshvbroker/src/rpc/commonrpcclienthandle.cpp).
use libshv.Base.{
  ℕ, zero, suc, ◌+◌, ◌<◌, ◌≤◌, ◌≡◌, refl, ap, ◌∙◌, false, some, [], ◌∷◌, ◌++◌, Str, arith, length,
  length-append, get_elem?, take, drop,
}
use libshv.Path.Prefix.{delim, is_delim}
use libshv.Broker.Subscription.{subscription, leading_slashes, trimmed_length}

-- So many slashes.
abbrev pub slashes : ℕ → Str
slashes zero = []
slashes (suc n) = delim ∷ slashes n

length-slashes : (n : ℕ) → length (slashes n) ≡ n
length-slashes zero = omega arith
length-slashes (suc n) = omega (arith, length-slashes n)

get-past : (xs r : Str) (i k : ℕ) → i ≡ length xs + k → get_elem? (xs ++ r) i ≡ get_elem? r k
get-past [] r i k h = let e : i ≡ k = omega arith in ap (get_elem? r) e
get-past (x ∷ xs) r zero k h = absurd (omega arith)
get-past (x ∷ xs) r (suc i) k h = get-past xs r i k (omega arith)

get-before : (xs r : Str) (i : ℕ) → i < length xs → get_elem? (xs ++ r) i ≡ get_elem? xs i
get-before [] r i h = absurd (omega arith)
get-before (x ∷ xs) r zero h = refl
get-before (x ∷ xs) r (suc i) h = get-before xs r i (omega arith)

get-slashes : (m k : ℕ) → k < m → get_elem? (slashes m) k ≡ some delim
get-slashes zero k h = absurd (omega arith)
get-slashes (suc m) zero h = refl
get-slashes (suc m) (suc k) h = get-slashes m k (omega arith)

pub take-past : (xs r : Str) (i k : ℕ) → i ≡ length xs + k → take i (xs ++ r) ≡ xs ++ take k r
take-past [] r i k h = let e : i ≡ k = omega arith in ap (λ n. take n r) e
take-past (x ∷ xs) r zero k h = absurd (omega arith)
take-past (x ∷ xs) r (suc i) k h = ap (λ t. x ∷ t) (take-past xs r i k (omega arith))

drop-slashes : (n : ℕ) (r : Str) → drop n (slashes n ++ r) ≡ r
drop-slashes zero r = refl
drop-slashes (suc n) r = drop-slashes n r

module _ (c : ℕ) (t : Str) (n m : ℕ) where
  -- A path with `n` slashes in front and `m` behind.
  abbrev padded : Str
  padded = slashes n ++ ((c ∷ t) ++ slashes m)

  get-padded : (i k : ℕ) → i ≡ n + k → get_elem? padded i ≡ get_elem? ((c ∷ t) ++ slashes m) k
  get-padded i k h =
      get-past (slashes n) ((c ∷ t) ++ slashes m) i k (omega (arith, length-slashes n))

  trimmed_length-padded :
      is_delim (get_elem? (c ∷ t) (length t)) ≡ false
      → (j k : ℕ) → k ≤ m
      → j ≡ n + (length (c ∷ t) + k)
      → trimmed_length padded j ≡ n + length (c ∷ t)
  unfolding trimmed_length
  trimmed_length-padded last zero k le h = absurd (omega arith)
  trimmed_length-padded last (suc j) zero le h =
      let e : get_elem? padded j ≡ get_elem? (c ∷ t) (length t) =
        get-padded j (length t) (omega arith)
        ∙ get-before (c ∷ t) (slashes m) (length t) (omega arith) in
      rw (e, last) (omega arith)
  trimmed_length-padded last (suc j) (suc k) le h =
      let e : get_elem? padded j ≡ some delim =
        get-padded j (length (c ∷ t) + k) (omega arith)
        ∙ get-past (c ∷ t) (slashes m) (length (c ∷ t) + k) k refl
        ∙ get-slashes m k (omega arith) in
      rw e (trimmed_length-padded last j k (omega arith) (omega arith))

leading_slashes-padded :
    (n c : ℕ) (r : Str) → is_delim (some c) ≡ false → leading_slashes (slashes n ++ (c ∷ r)) ≡ n
unfolding leading_slashes
leading_slashes-padded zero c r h = rw h refl
leading_slashes-padded (suc n) c r h = ap (λ k. suc k) (leading_slashes-padded n c r h)

-- Of a path with `n` slashes in front of a text and `m` behind it, where the text starts and ends
-- with other characters, a subscription keeps the text and as many slashes behind it as there
-- were in front, at most `m`; its method and source are those given.
pub subscription-padded :
    (c : ℕ) (t method source : Str) (n m : ℕ)
    → is_delim (some c) ≡ false
    → is_delim (get_elem? (c ∷ t) (length t)) ≡ false
    → subscription (slashes n ++ ((c ∷ t) ++ slashes m)) method source
      ≡ record { path = (c ∷ t) ++ take n (slashes m); method = method; source = source }
unfolding subscription
subscription-padded c t method source n m first last =
    let len : length (slashes n ++ ((c ∷ t) ++ slashes m)) ≡ n + (length (c ∷ t) + m) = omega (
      arith,
      length-append (slashes n) ((c ∷ t) ++ slashes m),
      length-append (c ∷ t) (slashes m),
      length-slashes n,
      length-slashes m,
    ) in
    let kept = trimmed_length-padded c t n m last (length (padded c t n m)) m (omega arith) len in
    rw (
      kept,
      leading_slashes-padded n c (t ++ slashes m) first,
      drop-slashes n ((c ∷ t) ++ slashes m),
      take-past (c ∷ t) (slashes m) (n + length (c ∷ t)) n (omega arith),
    )
