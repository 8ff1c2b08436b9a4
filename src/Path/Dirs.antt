-- ===== src/Path/Dirs.antt =====
-- Splitting terminates, and a path joined of directories is split into them.
use libshv.Base.{
  ℕ, zero, suc, ◌+◌, ◌-◌, ◌<◌, ◌≡◌, refl, sym, ap, ◌∙◌, inl, inr, true, false, ◌==◌, leb, some,
  List, [], ◌∷◌, ◌++◌, Str, is_nil, length, drop, contains, All, arith, Bool-cases, length-drop,
  length-append, append-nil, append_assoc, take-append_self,
}
use libshv.Path.Prefix.{delim, get-length}
use libshv.Path.Split.{
  quote, token_from, get_token, SplitBehavior, QuoteBehavior, skip_empty_parts, remove_quotes,
  is_quoted, unquoted, part_of, split_from, split, split_path, with_quotes, join_from, join_dirs,
}

split_from-enough :
    (fuel d q : ℕ) (keep : SplitBehavior) (quotes : QuoteBehavior) (s : Str)
    → length s < fuel
    → (ts : List Str) × (split_from fuel d q keep quotes s ≡ some ts)
unfolding split_from
split_from-enough zero d q keep quotes s h = absurd (omega arith)
split_from-enough (suc fuel) d q keep quotes s h =
    elim (Bool-cases (leb (length s) (length (get_token s d q)))) [
      | inl e ↦ (part_of q keep quotes (get_token s d q), rw e refl)
      | inr e ↦
          let lt : length (drop (length (get_token s d q) + 1) s) < fuel =
            ground (arith, length-drop (length (get_token s d q) + 1) s) in
          let (ts, r) =
            split_from-enough fuel d q keep quotes (drop (length (get_token s d q) + 1) s) lt in
          (part_of q keep quotes (get_token s d q) ++ ts, rw (e, r) refl)
    ]

-- `split` ends and answers its parts for every text, delimiter, quote and behaviour.
pub split_total :
    (s : Str) (d q : ℕ) (keep : SplitBehavior) (quotes : QuoteBehavior)
    → (ts : List Str) × (split s d q keep quotes ≡ some ts)
unfolding split
split_total [] d q keep quotes = ([], refl)
split_total (c ∷ s) d q keep quotes = split_from-enough _ d q keep quotes (c ∷ s) (omega arith)

token_from-plain :
    (d r : Str)
    → contains d delim ≡ false
    → contains d quote ≡ false
    → token_from false delim quote (d ++ r) ≡ d ++ token_from false delim quote r
unfolding token_from contains
token_from-plain [] r h k = refl
token_from-plain (c ∷ d) r h k = ground (arith, token_from-plain d r)

not_quote :
    (c : ℕ) (d : Str)
    → contains (c ∷ d) quote ≡ false
    → ((c == quote) ≡ false) × (contains d quote ≡ false)
unfolding contains
not_quote c d h = ground arith

token_from-quoted :
    (d r : Str)
    → contains d quote ≡ false
    → token_from true delim quote (d ++ r) ≡ d ++ token_from true delim quote r
unfolding token_from contains
token_from-quoted [] r k = refl
token_from-quoted (c ∷ d) r k =
    let (n, k') = not_quote c d k in
    elim (Bool-cases (c == delim)) [
      | inl e ↦ rw (n, e) (ap (λ t. c ∷ t) (token_from-quoted d r k'))
      | inr e ↦ rw (n, e) (ap (λ t. c ∷ t) (token_from-quoted d r k'))
    ]

token_from-with_quotes :
    (d r : Str)
    → contains d quote ≡ false
    → token_from false delim quote (with_quotes d ++ r)
      ≡ with_quotes d ++ token_from false delim quote r
unfolding token_from with_quotes
token_from-with_quotes d r k = elim (Bool-cases (contains d delim)) [
  | inr e ↦ rw e (token_from-plain d r e k)
  | inl e ↦ rw e (
      ap (λ t. quote ∷ t)
        ((ap (token_from true delim quote) (append_assoc d (quote ∷ []) r))
          ∙ token_from-quoted d (quote ∷ r) k
          ∙ sym (append_assoc d (quote ∷ []) (token_from false delim quote r))))
]

length-quoted : (d : Str) → length (quote ∷ (d ++ (quote ∷ []))) ≡ length d + 2
length-quoted d = omega (arith, length-append d (quote ∷ []))

is_quoted-quoted : (d : Str) → is_quoted quote (quote ∷ (d ++ (quote ∷ []))) ≡ true
unfolding is_quoted
is_quoted-quoted d =
    let two : leb 2 (length (quote ∷ (d ++ (quote ∷ [])))) ≡ true =
      ground (arith, length-quoted d) in
    let n : length (quote ∷ (d ++ (quote ∷ []))) - 1 ≡ suc (length d) =
      omega (arith, length-quoted d) in
    rw (two, n) (rw (get-length d [] quote) refl)

is_quoted-plain : (d : Str) → contains d quote ≡ false → is_quoted quote d ≡ false
unfolding is_quoted
is_quoted-plain [] k = refl
is_quoted-plain (c ∷ d) k =
    rw ((not_quote c d k).0)
      (elim (Bool-cases (leb 2 (length (c ∷ d)))) [ inl e ↦ rw e refl | inr e ↦ rw e refl ])

unquoted-quoted : (d : Str) → unquoted remove_quotes quote (quote ∷ (d ++ (quote ∷ []))) ≡ d
unfolding unquoted
unquoted-quoted d =
    let n : length (quote ∷ (d ++ (quote ∷ []))) - 2 ≡ length d = omega (arith, length-quoted d) in
    rw (is_quoted-quoted d) (rw n (take-append_self d (quote ∷ [])))

unquoted-plain : (d : Str) → contains d quote ≡ false → unquoted remove_quotes quote d ≡ d
unfolding unquoted
unquoted-plain d k = rw (is_quoted-plain d k) refl

-- A directory name that `joinDirs` can write: not empty and without quotes.
abbrev pub IsDirName : Str → Type 0
IsDirName d = (is_nil d ≡ false) × (contains d quote ≡ false)

part_of-with_quotes :
    (d : Str) → IsDirName d → part_of quote skip_empty_parts remove_quotes (with_quotes d) ≡ d ∷ []
unfolding part_of with_quotes
part_of-with_quotes d h = elim (Bool-cases (contains d delim)) [
  | inr e ↦ rw (e, h.0) (ap (λ t. t ∷ []) (unquoted-plain d h.1))
  | inl e ↦ rw e (ap (λ t. t ∷ []) (unquoted-quoted d))
]

-- The text that follows a directory.
abbrev following : List Str → Str
following [] = []
following (d ∷ dirs) = delim ∷ (with_quotes d ++ following dirs)

join_from-following :
    (c : ℕ) (ret : Str) (dirs : List Str)
    → All IsDirName dirs
    → join_from (c ∷ ret) dirs ≡ (c ∷ ret) ++ following dirs
unfolding join_from
join_from-following c ret [] h = sym (append-nil (c ∷ ret))
join_from-following c ret (d ∷ dirs) h = rw (h.0.0) (
    join_from-following c ((ret ++ (delim ∷ [])) ++ with_quotes d) dirs h.1
    ∙ ap (λ t. t ++ following dirs) (append_assoc (c ∷ ret) (delim ∷ []) (with_quotes d))
    ∙ append_assoc (c ∷ ret) (delim ∷ with_quotes d) (following dirs))

get_token-following :
    (d : Str) (dirs : List Str)
    → IsDirName d
    → get_token (with_quotes d ++ following dirs) delim quote ≡ with_quotes d
unfolding get_token
get_token-following d [] h =
    token_from-with_quotes d [] h.1 ∙ (unfold token_from in append-nil (with_quotes d))
get_token-following d (e ∷ dirs) h =
    token_from-with_quotes d (following (e ∷ dirs)) h.1
    ∙ (unfold token_from in append-nil (with_quotes d))

drop-past_length : (xs : Str) (c : ℕ) (ys : Str) → drop (suc (length xs)) (xs ++ (c ∷ ys)) ≡ ys
drop-past_length [] c ys = refl
drop-past_length (x ∷ xs) c ys = drop-past_length xs c ys

drop-past : (xs : Str) (c : ℕ) (ys : Str) → drop (length xs + 1) (xs ++ (c ∷ ys)) ≡ ys
drop-past xs c ys =
    let n : length xs + 1 ≡ suc (length xs) = omega arith in rw n (drop-past_length xs c ys)

split_from-joined :
    (fuel : ℕ) (d : Str) (dirs : List Str)
    → IsDirName d
    → All IsDirName dirs
    → length (with_quotes d ++ following dirs) < fuel
    → split_from fuel delim quote skip_empty_parts remove_quotes (with_quotes d ++ following dirs)
      ≡ some (d ∷ dirs)
unfolding split_from
split_from-joined zero d dirs hd h lt = absurd (omega arith)
split_from-joined (suc fuel) d [] hd h lt =
    let whole : leb (length (with_quotes d ++ [])) (length (with_quotes d)) ≡ true =
      ground (arith, length-append (with_quotes d) []) in
    rw (get_token-following d [] hd) (rw whole (rw (part_of-with_quotes d hd) refl))
split_from-joined (suc fuel) d (e ∷ dirs) hd h lt =
    let rest : Str = with_quotes e ++ following dirs in
    let n : length (with_quotes d ++ (delim ∷ rest)) ≡ length (with_quotes d) + suc (length rest) =
      length-append (with_quotes d) (delim ∷ rest) in
    let more : leb (length (with_quotes d ++ (delim ∷ rest))) (length (with_quotes d)) ≡ false =
      ground arith in
    let lt' : length rest < fuel = omega arith in
    rw (get_token-following d (e ∷ dirs) hd) (
      rw more (
        rw (drop-past (with_quotes d) delim rest)
          (rw (split_from-joined fuel e dirs h.0 h.1 lt', part_of-with_quotes d hd) refl)))

with_quotes-cons : (d : Str) → IsDirName d → (c : ℕ) × (t : Str) × (with_quotes d ≡ c ∷ t)
unfolding with_quotes
with_quotes-cons [] h = cc
with_quotes-cons (c ∷ d) h = elim (Bool-cases (contains (c ∷ d) delim)) [
  | inl e ↦ (quote, (c ∷ d) ++ (quote ∷ []), rw e refl)
  | inr e ↦ (c, d, rw e refl)
]

join_dirs-following :
    (d : Str) (dirs : List Str)
    → IsDirName d
    → All IsDirName dirs
    → join_dirs (d ∷ dirs) ≡ with_quotes d ++ following dirs
unfolding join_dirs join_from
join_dirs-following d dirs hd h =
    let (c, t, e) = with_quotes-cons d hd in rw (hd.0) (rw e (join_from-following c t dirs h))

split_path-nonempty :
    (s : Str)
    → is_nil s ≡ false
    → split_path s ≡ split_from (suc (length s)) delim quote skip_empty_parts remove_quotes s
unfolding split_path split
split_path-nonempty [] h = cc
split_path-nonempty (c ∷ s) h = refl

is_nil-joined : (d : Str) (r : Str) → IsDirName d → is_nil (with_quotes d ++ r) ≡ false
is_nil-joined d r hd = let (c, t, e) = with_quotes-cons d hd in rw e refl

-- The path that `joinDirs` makes of directory names that are not empty and have no quotes, with
-- slashes in them or not, is split into the same names by `splitPath`.
pub split_path-join_dirs :
    (dirs : List Str) → All IsDirName dirs → split_path (join_dirs dirs) ≡ some dirs
unfolding split_path join_dirs split join_from
split_path-join_dirs [] h = refl
split_path-join_dirs (d ∷ dirs) h =
    ap split_path (join_dirs-following d dirs h.0 h.1)
    ∙ split_path-nonempty _ (is_nil-joined d (following dirs) h.0)
    ∙ split_from-joined _ d dirs h.0 h.1 (omega arith)
