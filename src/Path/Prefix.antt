-- ===== src/Path/Prefix.antt =====
-- `shvpath::startsWithPath` of libshvcore/src/utils/shvpath.cpp.
use libshv.Base.{
  ℕ, zero, suc, ◌+◌, ◌-◌, ◌≡◌, ◌≢◌, ◌↔◌, ◌⊎◌, inl, inr, refl, sym, ap, ◌∙◌, Bool, true, false, ◌==◌,
  if◌then◌else◌, Option, none, some, [], ◌∷◌, ◌++◌, Str, arith, ==_iff, ==_refl, length, get_elem?,
  drop, starts_with, starts_with-drop, starts_with-append, Bool-cases, append-nil, length-append,
}

-- SHV_PATH_DELIM
abbrev pub delim : ℕ
delim = 0x2F

abbrev pub is_delim : Option ℕ → Bool
is_delim none = false
is_delim (some c) = c == delim

-- The answer and `*pos`, whose `npos` is `none`.
unfoldable pub starts_with_path : Str → Str → Bool × Option ℕ
starts_with_path str [] = (true, some 0)
starts_with_path str (p ∷ ps) =
    let path = p ∷ ps in
    if starts_with str path
    then (if length str == length path
        then (true, some (length str))
        else if is_delim (get_elem? str (length path))
        then (true, some (length path + 1))
        else if is_delim (get_elem? path (length path - 1))
        then (true, some (length path))
        else (false, none))
    else (false, none)

-- `path` is a path above `str` or `str` itself.
abbrev pub IsAbove : Str → Str → Type 0
IsAbove path str =
    (path ≡ [])
    ⊎ ((str ≡ path)
        ⊎ (((rest : Str) × (str ≡ path ++ (delim ∷ rest)))
            ⊎ ((init : Str) × (rest : Str) × (path ≡ init ++ (delim ∷ [])) × (str ≡ path ++ rest))))

is_delim-some : (o : Option ℕ) → is_delim o ≡ true → o ≡ some delim
is_delim-some none h = cc
is_delim-some (some c) h = ap (λ t. some t) ((==_iff c delim).0 h)

pub get-length : (xs ys : Str) (c : ℕ) → get_elem? (xs ++ (c ∷ ys)) (length xs) ≡ some c
get-length [] ys c = refl
get-length (x ∷ xs) ys c = get-length xs ys c

false_ne : false ≢ true
false_ne h = cc

last-delim :
    (xs : Str) → is_delim (get_elem? (xs ++ (delim ∷ [])) (length (xs ++ (delim ∷ [])) - 1)) ≡ true
last-delim xs =
    let n : length (xs ++ (delim ∷ [])) - 1 ≡ length xs =
      omega (arith, length-append xs (delim ∷ [])) in
    rw n (rw (get-length xs [] delim))

last-delim_of :
    (path init : Str)
    → path ≡ init ++ (delim ∷ [])
    → is_delim (get_elem? path (length path - 1)) ≡ true
last-delim_of path init h = rw h (last-delim init)

drop-get : (xs : Str) (n c : ℕ) → get_elem? xs n ≡ some c → drop n xs ≡ c ∷ drop (suc n) xs
drop-get [] n c h = cc
drop-get (x ∷ xs) zero c h = ground arith
drop-get (x ∷ xs) (suc n) c h = drop-get xs n c h

last-split :
    (x : ℕ) (xs : Str) (c : ℕ)
    → get_elem? (x ∷ xs) (length xs) ≡ some c
    → (init : Str) × ((x ∷ xs) ≡ init ++ (c ∷ []))
last-split x [] c h = ([], ground arith)
last-split x (y ∷ xs) c h = let r = last-split y xs c h in (x ∷ r.0, ap (λ t. x ∷ t) r.1)

drop-nil : (xs : Str) (n : ℕ) → length xs ≡ n → drop n xs ≡ []
drop-nil [] zero h = refl
drop-nil [] (suc n) h = refl
drop-nil (x ∷ xs) zero h = ground arith
drop-nil (x ∷ xs) (suc n) h = drop-nil xs n (ground arith)

starts_with_path-IsAbove :
    (str : Str) (p : ℕ) (ps : Str) → (starts_with_path str (p ∷ ps)).0 ≡ true → IsAbove (p ∷ ps) str
unfolding starts_with_path
starts_with_path-IsAbove str p ps h = elim (Bool-cases (starts_with str (p ∷ ps))) [
  | inr e ↦ absurd (false_ne ((sym (rw e)) ∙ h))
  | inl e ↦ elim (Bool-cases (length str == length (p ∷ ps))) [
    | inl e₁ ↦ inr (
        inl (
          starts_with-drop str (p ∷ ps) e
          ∙ (rw (drop-nil str (length (p ∷ ps)) ((==_iff _ _).0 e₁), append-nil ps))))
    | inr e₁ ↦ elim (Bool-cases (is_delim (get_elem? str (length (p ∷ ps))))) [
      | inl e₂ ↦ inr (
          inr (
            inl (
              drop (suc (length (p ∷ ps))) str,
              starts_with-drop str (p ∷ ps) e
                  ∙ ap (λ t. (p ∷ ps) ++ t) (drop-get str _ delim (is_delim-some _ e₂)),
            )))
      | inr e₂ ↦ elim (Bool-cases (is_delim (get_elem? (p ∷ ps) (length (p ∷ ps) - 1)))) [
        | inl e₃ ↦
            let n : length ps ≡ length (p ∷ ps) - 1 = omega arith in
            let last : is_delim (get_elem? (p ∷ ps) (length ps)) ≡ true = rw n e₃ in
            let r = last-split p ps delim (is_delim-some _ last) in
            inr (inr (inr (r.0, drop (length (p ∷ ps)) str, r.1, starts_with-drop str (p ∷ ps) e)))
        | inr e₃ ↦ absurd (false_ne (sym (rw (e, e₁, e₂, e₃)) ∙ h))
      ]
    ]
  ]
]

-- A prefix with one of the three ends.
starts_with_path-true :
    (str : Str) (p : ℕ) (ps : Str)
    → starts_with str (p ∷ ps) ≡ true
    → ((length str == length (p ∷ ps)) ≡ true)
      ⊎ ((is_delim (get_elem? str (length (p ∷ ps))) ≡ true)
          ⊎ (is_delim (get_elem? (p ∷ ps) (length (p ∷ ps) - 1)) ≡ true))
    → (starts_with_path str (p ∷ ps)).0 ≡ true
unfolding starts_with_path
starts_with_path-true str p ps e (inl e₁) = rw (e, e₁)
starts_with_path-true str p ps e (inr (inl e₂)) =
    elim (Bool-cases (length str == length (p ∷ ps))) [
      | inl e₁ ↦ rw (e, e₁)
      | inr e₁ ↦ rw (e, e₁, e₂)
    ]
starts_with_path-true str p ps e (inr (inr e₃)) =
    elim (Bool-cases (length str == length (p ∷ ps))) [
      | inl e₁ ↦ rw (e, e₁)
      | inr e₁ ↦ elim (Bool-cases (is_delim (get_elem? str (length (p ∷ ps))))) [
        | inl e₂ ↦ rw (e, e₁, e₂)
        | inr e₂ ↦ rw (e, e₁, e₂, e₃)
      ]
    ]

starts_with_refl : (s : Str) → starts_with s s ≡ true
unfolding starts_with
starts_with_refl [] = refl
starts_with_refl (c ∷ s) = ground (arith, starts_with_refl s)

IsAbove-starts_with_path :
    (str : Str) (p : ℕ) (ps : Str) → IsAbove (p ∷ ps) str → (starts_with_path str (p ∷ ps)).0 ≡ true
IsAbove-starts_with_path str p ps (inl h) = cc
IsAbove-starts_with_path str p ps (inr (inl h)) =
    starts_with_path-true str p ps (rw h (starts_with_refl (p ∷ ps)))
      (inl (rw h (==_refl (length (p ∷ ps)))))
IsAbove-starts_with_path str p ps (inr (inr (inl (rest, h)))) =
    starts_with_path-true str p ps (rw h (starts_with-append (p ∷ ps) (delim ∷ rest)))
      (inr (inl (rw h (rw (get-length ps rest delim)))))
IsAbove-starts_with_path str p ps (inr (inr (inr (init, rest, hp, h)))) =
    starts_with_path-true str p ps (rw h (starts_with-append (p ∷ ps) rest))
      (inr (inr (last-delim_of (p ∷ ps) init hp)))

-- `startsWithPath` answers true exactly if the path is empty, is the string, is followed by a
-- slash in the string, or ends in a slash and is a prefix of the string.
pub starts_with_path_iff :
    (str path : Str) → ((starts_with_path str path).0 ≡ true) ↔ IsAbove path str
unfolding starts_with_path
starts_with_path_iff str [] = ((λ h. inl refl), λ h. refl)
starts_with_path_iff str (p ∷ ps) =
    (starts_with_path-IsAbove str p ps, IsAbove-starts_with_path str p ps)
