-- ===== src/Access/RoundTrip.antt =====
-- What `fromShv2Access` reads, and that it reads back what `toShv2Access` wrote.
use libshv.Base.{
  ℕ, zero, suc, ◌≡◌, ◌≢◌, refl, sym, ap, ◌∙◌, Bool, true, false, Option, none, some, List, [], ◌∷◌,
  ◌++◌, Str, ltb, if◌then◌else◌, length, is_nil, contains, arith, ◌≤◌, ◌<◌, Bool-cases, inl, inr,
  All, append_assoc, append-nil, ◌⊎◌, Option-cases,
}
use libshv.Base.Int.{ℤ}
use libshv.Access.Level.{
  AccessLevel, level_from_int, level_from_string, level_to_string,
  level_from_string-level_to_string,
}
use libshv.Access.Tokens.{
  comma, before_comma, after_comma, parts, join, parts_with_comma, parts_without_comma,
  after_comma_none, before_comma_none, parts-join, IsPart,
}
use libshv.Access.Grant.{
  AccessGrant, or_none, add_access, apply_part, from_loop, init_grant, from_shv2_access,
  to_shv2_access,
}

-- Every part of a list applied in turn.
unfoldable pub apply_parts : AccessGrant → List Str → AccessGrant
apply_parts g [] = g
apply_parts g (t ∷ ts) = apply_parts (apply_part g t) ts

length-after_comma : (s : Str) → length (after_comma s) ≤ length s
unfolding after_comma
length-after_comma [] = omega arith
length-after_comma (c ∷ s) = ground (arith, length-after_comma s)

length-after_comma_lt : (c : ℕ) (s : Str) → length (after_comma (c ∷ s)) ≤ length s
unfolding after_comma
length-after_comma_lt c s = ground (arith, length-after_comma s)

from_loop_nil : (fuel : ℕ) (g : AccessGrant) → from_loop fuel [] g ≡ g
unfolding from_loop
from_loop_nil zero g = refl
from_loop_nil (suc fuel) g = refl

parts_nil : (g : AccessGrant) → apply_parts g (parts []) ≡ g
unfolding apply_parts apply_part parts
parts_nil g = refl

from_loop_step :
    (fuel c : ℕ) (s : Str) (g : AccessGrant)
    → from_loop (suc fuel) (c ∷ s) g
      ≡ from_loop fuel (after_comma (c ∷ s)) (apply_part g (before_comma (c ∷ s)))
unfolding from_loop
from_loop_step fuel c s g = refl

-- With fuel for the whole text the loop applies its parts.
from_loop-parts :
    (fuel : ℕ) (s : Str) (g : AccessGrant)
    → length s ≤ fuel
    → from_loop fuel s g ≡ apply_parts g (parts s)
unfolding apply_parts
from_loop-parts fuel [] g h = from_loop_nil fuel g ∙ sym (parts_nil g)
from_loop-parts zero (c ∷ s) g h = absurd (omega arith)
from_loop-parts (suc fuel) (c ∷ s) g h = elim (Bool-cases (contains (c ∷ s) comma)) [
  | inl e ↦
      from_loop_step fuel c s g
      ∙ from_loop-parts fuel (after_comma (c ∷ s)) (apply_part g (before_comma (c ∷ s)))
          (omega (arith, length-after_comma_lt c s))
      ∙ rw (parts_with_comma (c ∷ s) e)
  | inr e ↦
      from_loop_step fuel c s g
      ∙ rw (parts_without_comma (c ∷ s) e, after_comma_none (c ∷ s) e, before_comma_none (c ∷ s) e)
          (from_loop_nil fuel (apply_part g (c ∷ s)))
]

pub from_shv2_access-parts :
    (s : Str) (i : ℤ) → from_shv2_access s i ≡ apply_parts (init_grant i) (parts s)
unfolding from_shv2_access
from_shv2_access-parts s i = from_loop-parts (length s) s (init_grant i) (omega arith)

-- A level bounds a part that names one.
abbrev pub Bounds : AccessLevel → Str → Type 0
Bounds l t = (k : AccessLevel) → level_from_string t ≡ some k → k ≤ l

-- Some part names the level.
abbrev pub Names : AccessLevel → List Str → Type 0
Names l [] = ⊥
Names l (t ∷ ts) = (level_from_string t ≡ some l) ⊎ Names l ts

level_of_nil : (k : AccessLevel) → level_from_string [] ≢ some k
unfolding level_from_string libshv.Base.streq
level_of_nil k e = cc

apply_part-level :
    (g : AccessGrant) (t : Str)
    → (g.access_level ≤ (apply_part g t).access_level)
      × Bounds (apply_part g t).access_level t
      × (((apply_part g t).access_level ≡ g.access_level)
          ⊎ (level_from_string t ≡ some (apply_part g t).access_level))
unfolding apply_part
apply_part-level g [] = (omega arith, (λ k e. absurd (level_of_nil k e)), inl refl)
apply_part-level g (c ∷ t) = elim (Option-cases (level_from_string (c ∷ t))) [
  | inl e ↦ rw e (omega arith, (λ k e'. cc), inl refl)
  | inr (l, e) ↦ rw e (ground arith, (λ k e'. ground arith), ground arith)
]

Bounds-mono : (l m : AccessLevel) (ts : List Str) → l ≤ m → All (Bounds l) ts → All (Bounds m) ts
Bounds-mono l m [] h b = tt
Bounds-mono l m (t ∷ ts) h (b, bs) = ((λ k e. omega (arith, b k e)), Bounds-mono l m ts h bs)

apply_parts-level :
    (ts : List Str) (g : AccessGrant)
    → (g.access_level ≤ (apply_parts g ts).access_level)
      × All (Bounds (apply_parts g ts).access_level) ts
      × (((apply_parts g ts).access_level ≡ g.access_level)
          ⊎ Names (apply_parts g ts).access_level ts)
unfolding apply_parts
apply_parts-level [] g = (omega arith, tt, inl refl)
apply_parts-level (t ∷ ts) g =
    let (lo, bound, from) = apply_part-level g t in
    let (lo', bounds, from') = apply_parts-level ts (apply_part g t) in
    (
      omega arith,
      ((λ k e. omega (arith, bound k e)), bounds),
      elim from' [
        | inl e ↦ elim from [ inl e' ↦ inl (e ∙ e') | inr e' ↦ inr (inl (e' ∙ ap some (sym e))) ]
        | inr n ↦ inr (inr n)
      ],
    )

-- `fromShv2Access` of any text and level number answers the highest of the given level and of
-- the levels that the comma-separated parts of the text name: it bounds each of them, and it is
-- one of them.
pub from_shv2_access_highest :
    (s : Str) (i : ℤ)
    → (or_none (level_from_int i) ≤ (from_shv2_access s i).access_level)
      × All (Bounds (from_shv2_access s i).access_level) (parts s)
      × (((from_shv2_access s i).access_level ≡ or_none (level_from_int i))
          ⊎ Names (from_shv2_access s i).access_level (parts s))
from_shv2_access_highest s i =
    rw from_shv2_access-parts (apply_parts-level (parts s) (init_grant i))

-- A part that is kept as access text: not empty, without a comma, and no role name.
pub record IsAccessPart (t : Str) : Type 0 where
  pub nonempty : t ≢ []
  pub is_part : IsPart t
  pub no_level : level_from_string t ≡ none

apply_part-access :
    (g : AccessGrant) (t : Str)
    → IsAccessPart t
    → apply_part g t ≡ record g { access = add_access g.access t }
unfolding apply_part
apply_part-access g [] h = absurd (h.nonempty refl)
apply_part-access g (c ∷ t) h = rw h.no_level

join_merge :
    (a t : Str) (ts : List Str) → join ((a ++ (comma ∷ t)) ∷ ts) ≡ a ++ (comma ∷ join (t ∷ ts))
unfolding join
join_merge a t [] = refl
join_merge a t (u ∷ ts) = append_assoc a (comma ∷ t) (comma ∷ join (u ∷ ts))

-- Parts added behind a text that is not empty.
apply_parts-access :
    (ts : List Str) (l : AccessLevel) (c : ℕ) (a : Str)
    → All IsAccessPart ts
    → apply_parts (record { access_level = l; access = c ∷ a }) ts
      ≡ record { access_level = l; access = join ((c ∷ a) ∷ ts) }
unfolding apply_parts join
apply_parts-access [] l c a h = refl
apply_parts-access (t ∷ ts) l c a (h, hs) =
    rw (apply_part-access (record { access_level = l; access = c ∷ a }) t h) (
      apply_parts-access ts l c (a ++ (comma ∷ t)) hs
      ∙ ap (λ s. record { access_level = l; access = s }) (join_merge (c ∷ a) t ts))

-- The same from an empty text.
apply_parts-access_nil :
    (ts : List Str) (l : AccessLevel)
    → All IsAccessPart ts
    → apply_parts (record { access_level = l; access = [] }) ts
      ≡ record { access_level = l; access = join ts }
unfolding apply_parts join
apply_parts-access_nil [] l h = refl
apply_parts-access_nil ([] ∷ ts) l (h, hs) = absurd (h.nonempty refl)
apply_parts-access_nil ((c ∷ t) ∷ ts) l (h, hs) =
    rw (apply_part-access (record { access_level = l; access = [] }) (c ∷ t) h)
      (apply_parts-access ts l c t hs)

role_IsPart : (l : AccessLevel) → IsPart (level_to_string l)
unfolding level_to_string contains
role_IsPart l = ground arith

All-IsPart : (ts : List Str) → All IsAccessPart ts → All IsPart ts
All-IsPart [] h = tt
All-IsPart (t ∷ ts) (h, hs) = (h.is_part, All-IsPart ts hs)

join-nonempty : (t : Str) (ts : List Str) → IsAccessPart t → is_nil (join (t ∷ ts)) ≡ false
unfolding join
join-nonempty [] ts h = absurd (h.nonempty refl)
join-nonempty (c ∷ t) [] h = refl
join-nonempty (c ∷ t) (u ∷ ts) h = refl

is_nil-false : (s : Str) → s ≢ [] → is_nil s ≡ false
is_nil-false [] h = absurd (h refl)
is_nil-false (c ∷ s) h = refl

-- The text that `toShv2Access` writes is the role joined with the access parts.
to_shv2_access-join :
    (l : AccessLevel) (ts : List Str)
    → level_to_string l ≢ []
    → All IsAccessPart ts
    → to_shv2_access (record { access_level = l; access = join ts }) ≡ join (level_to_string l ∷ ts)
to_shv2_access-join l [] h hs =
    unfold to_shv2_access join in rw (is_nil-false (level_to_string l) h)
to_shv2_access-join l (t ∷ ts) h (ht, hs) =
    unfold to_shv2_access in
    rw (is_nil-false (level_to_string l) h, join-nonempty t ts ht) (unfold join in refl)

apply_part_level :
    (t : Str) (l i : AccessLevel)
    → t ≢ []
    → level_from_string t ≡ some l
    → i ≤ l
    → apply_part (record { access_level = i; access = [] }) t
      ≡ record { access_level = l; access = [] }
unfolding apply_part
apply_part_level [] l i h e k = absurd (h refl)
apply_part_level (c ∷ t) l i h e k = rw e (ground arith)

apply_part_role :
    (l i : AccessLevel)
    → level_to_string l ≢ []
    → i ≤ l
    → apply_part (record { access_level = i; access = [] }) (level_to_string l)
      ≡ record { access_level = l; access = [] }
apply_part_role l i h k =
    apply_part_level (level_to_string l) l i h (level_from_string-level_to_string l h) k

-- A grant with a named level whose access text is made of access parts is written by
-- `toShv2Access` and read back by `fromShv2Access`, with any level number up to its own.
pub from_shv2_access-to_shv2_access :
    (l : AccessLevel) (ts : List Str) (i : ℤ)
    → level_to_string l ≢ []
    → All IsAccessPart ts
    → or_none (level_from_int i) ≤ l
    → from_shv2_access (to_shv2_access (record { access_level = l; access = join ts })) i
      ≡ record { access_level = l; access = join ts }
from_shv2_access-to_shv2_access l ts i h hs k = rw (to_shv2_access-join l ts h hs) (
    from_shv2_access-parts (join (level_to_string l ∷ ts)) i
    ∙ rw (parts-join (level_to_string l) ts (role_IsPart l, All-IsPart ts hs)) (
        unfold apply_parts in
        rw (apply_part_role l (or_none (level_from_int i)) h k) (apply_parts-access_nil ts l hs)))
