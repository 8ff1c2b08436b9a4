-- ===== src/Base/Text.antt =====
-- Byte strings as lists of numbers, and the tests that `std::string_view` offers on them.
use Prim.Native.Nat.{ℕ, ◌-◌}
use Prim.Native.Char.{code}
use Prim.Native.String.{String}
use mathlib.Core.Path.{◌≡◌, refl}
use mathlib.Core.Logic.{◌↔◌, ◌≢◌, inl, inr}
use mathlib.Core.Bool.{Bool, true, false, ◌&&◌, ◌||◌}
use mathlib.Core.List.{List, [], ◌∷◌, ◌++◌}
use native.Mathlib.Omega.{arith}
use libshv.Base.Tests.{◌==◌, leb, Bool-cases}
use libshv.Base.Lists.{length, drop}

abbrev pub Str : Type 0
Str = List ℕ

-- The code points of a literal: its bytes, if it is ASCII.
abbrev pub codes : String → Str
codes String.[] = []
codes (String.◌∷◌ c s) = code c ∷ codes s

-- `a == b`
unfoldable pub streq : Str → Str → Bool
streq [] [] = true
streq [] (y ∷ ys) = false
streq (x ∷ xs) [] = false
streq (x ∷ xs) (y ∷ ys) = x == y && streq xs ys

pub streq_iff : (a b : Str) → (streq a b ≡ true) ↔ (a ≡ b)
unfolding streq
streq_iff [] [] = ground arith
streq_iff [] (y ∷ b) = ground arith
streq_iff (x ∷ a) [] = ground arith
streq_iff (x ∷ a) (y ∷ b) = ground (arith, streq_iff a b)

pub streq_refl : (a : Str) → streq a a ≡ true
streq_refl a = (streq_iff a a).1 refl

pub streq-false : (a b : Str) → a ≢ b → streq a b ≡ false
streq-false a b ne = elim (Bool-cases (streq a b)) [
  | inl e ↦ absurd (ne ((streq_iff a b).0 e))
  | inr e ↦ e
]

-- `s.starts_with(t)`
unfoldable pub starts_with : Str → Str → Bool
starts_with s [] = true
starts_with [] (y ∷ ys) = false
starts_with (x ∷ xs) (y ∷ ys) = x == y && starts_with xs ys

pub starts_with-drop : (s t : Str) → starts_with s t ≡ true → s ≡ t ++ drop (length t) s
unfolding starts_with
starts_with-drop s [] h = refl
starts_with-drop [] (y ∷ ys) h = cc
starts_with-drop (x ∷ xs) (y ∷ ys) h = ground (arith, starts_with-drop xs ys)

pub starts_with-append : (t r : Str) → starts_with (t ++ r) t ≡ true
unfolding starts_with
starts_with-append [] r = refl
starts_with-append (y ∷ t) r = ground (arith, starts_with-append t r)

-- `s.ends_with(t)`
unfoldable pub ends_with : Str → Str → Bool
ends_with s t = leb (length t) (length s) && streq (drop (length s - length t) s) t

-- `s.find(c) != npos`
unfoldable pub contains : Str → ℕ → Bool
contains [] c = false
contains (x ∷ xs) c = x == c || contains xs c
