-- ===== src/Access/Tokens.antt =====
-- The comma-separated parts of an access text, by recursion on the text. This is the reference
-- that the loop of `fromShv2Access` is compared with.
use libshv.Base.{
  ℕ, ◌≡◌, refl, ap, ◌∙◌, true, false, List, [], ◌∷◌, ◌++◌, Str, ◌==◌, if◌then◌else◌, arith,
  contains, All,
}

-- `','`
abbrev pub comma : ℕ
comma = b','

-- The text up to the first comma, and what follows that comma.
unfoldable pub before_comma : Str → Str
before_comma [] = []
before_comma (c ∷ s) = let rest = before_comma s in if c == comma then [] else c ∷ rest

unfoldable pub after_comma : Str → Str
after_comma [] = []
after_comma (c ∷ s) = let rest = after_comma s in if c == comma then s else rest

-- A first part put in front of the others.
abbrev pub cons_head : ℕ → List Str → List Str
cons_head c [] = (c ∷ []) ∷ []
cons_head c (t ∷ ts) = (c ∷ t) ∷ ts

-- The parts of a text; an empty text has one empty part.
unfoldable pub parts : Str → List Str
parts [] = [] ∷ []
parts (c ∷ s) = if c == comma then [] ∷ parts s else cons_head c (parts s)

-- Parts written one after the other, with a comma between two.
unfoldable pub join : List Str → Str
join [] = []
join (t ∷ []) = t
join (t ∷ (u ∷ ts)) = t ++ (comma ∷ join (u ∷ ts))

parts_step :
    (s : Str) → parts s ≡ before_comma s ∷ (if contains s comma then parts (after_comma s) else [])
unfolding parts before_comma after_comma contains
parts_step [] = refl
parts_step (c ∷ s) = ground (arith, parts_step s)

pub parts_with_comma :
    (s : Str) → contains s comma ≡ true → parts s ≡ before_comma s ∷ parts (after_comma s)
parts_with_comma s h = ground (arith, parts_step s)

pub parts_without_comma : (s : Str) → contains s comma ≡ false → parts s ≡ s ∷ []
unfolding parts contains
parts_without_comma [] h = refl
parts_without_comma (c ∷ s) h = ground (arith, parts_without_comma s)

pub after_comma_none : (s : Str) → contains s comma ≡ false → after_comma s ≡ []
unfolding contains after_comma
after_comma_none [] h = refl
after_comma_none (c ∷ s) h = ground (arith, after_comma_none s)

pub before_comma_none : (s : Str) → contains s comma ≡ false → before_comma s ≡ s
unfolding contains before_comma
before_comma_none [] h = refl
before_comma_none (c ∷ s) h = ground (arith, before_comma_none s)

parts-append : (t s : Str) → contains t comma ≡ false → parts (t ++ (comma ∷ s)) ≡ t ∷ parts s
unfolding parts contains
parts-append [] s h = refl
parts-append (c ∷ t) s h = ground (arith, parts-append t s)

-- A text that may stand between commas.
abbrev pub IsPart : Str → Type 0
IsPart t = contains t comma ≡ false

pub parts-join : (t : Str) (ts : List Str) → All IsPart (t ∷ ts) → parts (join (t ∷ ts)) ≡ t ∷ ts
unfolding join
parts-join t [] h = parts_without_comma t h.0
parts-join t (u ∷ ts) h = parts-append t (join (u ∷ ts)) h.0 ∙ ap (λ r. t ∷ r) (parts-join u ts h.1)
