-- ===== src/Path/WildMatch.antt =====
-- What the wild cards of `ShvPath::matchWild` (libshvcore/src/utils/shvpath.cpp) stand for.
use libshv.Base.{
  ◌≡◌, refl, sym, ap, ◌∙◌, inl, inr, Bool, true, false, ◌&&◌, some, List, [], ◌∷◌, ◌++◌, Str, streq,
  streq_iff, streq_refl, arith, Bool-cases, Option-cases, append-nil,
}
use libshv.Path.Prefix.{delim}
use libshv.Path.Split.{skip_empty_parts, keep_quotes, split}
use libshv.Path.Dirs.{split_total}
use libshv.Path.Wild.{star, two_stars, skip_to, matches_behind, match_dirs, match_wild}

-- The directories that one part of a pattern stands for.
pub data StandsFor (pt : Str) (dirs : List Str) : Type 0 where
  any_dirs : pt ≡ two_stars → StandsFor pt dirs
  one_dir : (p : Str) → pt ≡ star → dirs ≡ p ∷ [] → StandsFor pt dirs
  same_dir : dirs ≡ pt ∷ [] → StandsFor pt dirs

-- The path is made of what the parts of the pattern stand for.
unfoldable pub Matches : List Str → List Str → Type 0
Matches path [] = path ≡ []
Matches path (pt ∷ pattern) =
    (dirs : List Str) × (rest : List Str) × StandsFor pt dirs
    × (path ≡ dirs ++ rest)
    × Matches rest pattern

-- Two stars are the last part, if they are one at all.
unfoldable pub IsStarredLast : List Str → Type 0
IsStarredLast [] = Unit {0}
IsStarredLast (pt ∷ []) = Unit {0}
IsStarredLast (pt ∷ pt2 ∷ pattern) = (streq pt two_stars ≡ false) × IsStarredLast (pt2 ∷ pattern)

skip_to-found :
    (d : Str) (path rest : List Str)
    → skip_to d path ≡ some rest
    → (front : List Str) × (path ≡ front ++ (d ∷ rest))
unfolding skip_to
skip_to-found d [] rest h = absurd cc
skip_to-found d (p ∷ path) rest h = elim (Bool-cases (streq p d)) [
  | inl e ↦
      let same : some path ≡ some rest = sym (rw e) ∙ h in
      let q : ◌≡◌ {A = List Str} path rest = cc in ([], rw (q, (streq_iff p d).0 e) refl)
  | inr e ↦
      let (front, q) = skip_to-found d path rest (sym (rw e) ∙ h) in (p ∷ front, ap (λ t. p ∷ t) q)
]

module _ (p : Str) (path : List Str) (pt : Str) (pattern : List Str) where
  star-Matches : streq pt star ≡ true → Matches path pattern → Matches (p ∷ path) (pt ∷ pattern)
  unfolding Matches
  star-Matches e h = (p ∷ [], path, one_dir p ((streq_iff pt star).0 e) refl, refl, h)

  name-Matches :
      (b : Bool)
      → (streq p pt && b) ≡ true
      → (b ≡ true → Matches path pattern)
      → Matches (p ∷ path) (pt ∷ pattern)
  unfolding Matches
  name-Matches b h k = elim (Bool-cases (streq p pt)) [
    | inl e ↦
        let q : p ≡ pt = (streq_iff p pt).0 e in
        (p ∷ [], path, same_dir (ap (λ t. t ∷ []) q), refl, k (ground arith))
    | inr e ↦ absurd (ground arith)
  ]

behind-Matches :
    (pt pt2 : Str) (path pattern : List Str)
    → streq pt two_stars ≡ true
    → ((rest : List Str) → match_dirs rest pattern ≡ true → Matches rest pattern)
    → matches_behind (skip_to pt2 path) (λ rest. match_dirs rest pattern) ≡ true
    → Matches path (pt ∷ pt2 ∷ pattern)
unfolding Matches
behind-Matches pt pt2 path pattern e later h = elim (Option-cases (skip_to pt2 path)) [
  | inl n ↦ absurd (ground arith)
  | inr (rest, n) ↦
      let (front, q) = skip_to-found pt2 path rest n in
      (
        front,
        pt2 ∷ rest,
        any_dirs ((streq_iff pt two_stars).0 e),
        q,
        (pt2 ∷ [], rest, same_dir refl, refl, later rest (sym (rw n) ∙ h)),
      )
]

match_dirs-Matches :
    (path pattern : List Str) → match_dirs path pattern ≡ true → Matches path pattern
unfolding match_dirs Matches
match_dirs-Matches [] [] h = refl
match_dirs-Matches (p ∷ path) [] h = absurd cc
match_dirs-Matches [] (pt ∷ []) h = ([], [], any_dirs ((streq_iff pt two_stars).0 h), refl, refl)
match_dirs-Matches [] (pt ∷ pt2 ∷ pattern) h = absurd cc
match_dirs-Matches (p ∷ path) (pt ∷ []) h = elim (Bool-cases (streq pt star)) [
  | inl e ↦ star-Matches p path pt [] e (match_dirs-Matches path [] (sym (rw e) ∙ h))
  | inr e ↦ elim (Bool-cases (streq pt two_stars)) [
    | inl f ↦
        (p ∷ path, [], any_dirs ((streq_iff pt two_stars).0 f), sym (append-nil (p ∷ path)), refl)
    | inr f ↦
        name-Matches p path pt [] (match_dirs path []) (sym (rw (e, f)) ∙ h)
          (match_dirs-Matches path [])
  ]
]
match_dirs-Matches (p ∷ path) (pt ∷ pt2 ∷ pattern) h = elim (Bool-cases (streq pt star)) [
  | inl e ↦
      star-Matches p path pt (pt2 ∷ pattern) e
        (match_dirs-Matches path (pt2 ∷ pattern) (sym (rw e) ∙ h))
  | inr e ↦ elim (Bool-cases (streq pt two_stars)) [
    | inl f ↦
        behind-Matches pt pt2 (p ∷ path) pattern f (λ rest. match_dirs-Matches rest pattern)
          (sym (rw (e, f)) ∙ h)
    | inr f ↦
        name-Matches p path pt (pt2 ∷ pattern) (match_dirs path (pt2 ∷ pattern))
          (sym (rw (e, f)) ∙ h) (match_dirs-Matches path (pt2 ∷ pattern))
  ]
]

all-match_dirs : (path : List Str) → match_dirs path (two_stars ∷ []) ≡ true
unfolding match_dirs streq
all-match_dirs [] = refl
all-match_dirs (p ∷ path) = refl

module _ (p : Str) (path : List Str) (pt : Str) where
  star-match_dirs :
      (pattern : List Str)
      → pt ≡ star
      → match_dirs path pattern ≡ true
      → match_dirs (p ∷ path) (pt ∷ pattern) ≡ true
  unfolding match_dirs
  star-match_dirs [] e h = rw ((streq_iff pt star).1 e) h
  star-match_dirs (pt2 ∷ pattern) e h = rw ((streq_iff pt star).1 e) h

  same-match_dirs :
      (pattern : List Str)
      → IsStarredLast (pt ∷ pattern)
      → streq p pt ≡ true
      → match_dirs path pattern ≡ true
      → match_dirs (p ∷ path) (pt ∷ pattern) ≡ true
  unfolding match_dirs IsStarredLast
  same-match_dirs [] l e h = rw (e, h) (ground arith)
  same-match_dirs (pt2 ∷ pattern) l e h = rw (e, h, l.0) (ground arith)

IsStarredLast-rest :
    (pt : Str) (pattern : List Str) → IsStarredLast (pt ∷ pattern) → IsStarredLast pattern
unfolding IsStarredLast
IsStarredLast-rest pt [] l = tt
IsStarredLast-rest pt (pt2 ∷ pattern) l = l.1

starred :
    (path : List Str) (pt : Str) (pattern : List Str)
    → IsStarredLast (pt ∷ pattern)
    → pt ≡ two_stars
    → Matches path (pt ∷ pattern)
    → match_dirs path (pt ∷ pattern) ≡ true
unfolding IsStarredLast
starred path pt [] l q h = rw q (all-match_dirs path)
starred path pt (pt2 ∷ pattern) l q h = absurd (ground (arith, streq_iff pt two_stars, l.0))

Matches-match_dirs :
    (path pattern : List Str)
    → IsStarredLast pattern
    → Matches path pattern
    → match_dirs path pattern ≡ true
unfolding Matches
Matches-match_dirs path [] l h = rw h (unfold match_dirs in refl)
Matches-match_dirs path (pt ∷ pattern) l (dirs, rest, s, e, r) =
    let later = Matches-match_dirs rest pattern (IsStarredLast-rest pt pattern l) r in
    elim s [
      | any_dirs q ↦ starred path pt pattern l q (dirs, rest, any_dirs q, e, r)
      | one_dir p q d ↦ rw (e, d) (star-match_dirs p rest pt pattern q later)
      | same_dir d ↦ rw (e, d) (same-match_dirs pt rest pt pattern l (streq_refl pt) later)
    ]

-- matchWild ends for every path and pattern. A path that it matches is made of directories that the
-- parts of the pattern stand for, a star for one and two stars for any number of them, and a pattern
-- with two stars at its end only, or without them, matches every path made so.
pub match_wild_lem :
    (path pattern : Str)
    → (dirs : List Str) × (parts : List Str) × (b : Bool) × (split path delim 0 skip_empty_parts
          keep_quotes
        ≡ some dirs)
      × (split pattern delim 0 skip_empty_parts keep_quotes ≡ some parts)
      × (match_wild path pattern ≡ some b)
      × (b ≡ true → Matches dirs parts)
      × (IsStarredLast parts → Matches dirs parts → b ≡ true)
unfolding match_wild
match_wild_lem path pattern =
    let (dirs, e) = split_total path delim 0 skip_empty_parts keep_quotes in
    let (parts, f) = split_total pattern delim 0 skip_empty_parts keep_quotes in
    (
      dirs,
      parts,
      match_dirs dirs parts,
      e,
      f,
      rw (e, f) refl,
      match_dirs-Matches dirs parts,
      Matches-match_dirs dirs parts,
    )
