-- ===== src/Base/Dict.antt =====
-- A `std::map` with texts for keys, as an association list. Its lookups do not depend on the order.
use mathlib.Core.Path.{◌≡◌, refl}
use mathlib.Core.Bool.{Bool, true, false, ◌||◌}
use mathlib.Core.List.{List, [], ◌∷◌}
use mathlib.Core.Option.{Option, none, some}
use native.Mathlib.Omega.{arith}
use libshv.Base.Tests.{if◌then◌else◌}
use libshv.Base.Text.{Str, streq, streq_iff}

abbrev pub Dict {ℓ} : Type ℓ → Type ℓ
Dict V = List (Str × V)

-- `std::find(…) != end()`, `contains`
unfoldable pub has : List Str → Str → Bool
has [] r = false
has (x ∷ xs) r = streq x r || has xs r

abbrev pub is_some {ℓ} : {A : Type ℓ} → Option A → Bool
is_some none = false
is_some (some v) = true

module _ {ℓ} {V : Type ℓ} where
  -- `find`
  unfoldable pub find : Str → Dict V → Option V
  find k [] = none
  find k ((j, v) ∷ m) = if streq j k then some v else find k m

  -- `map[key] = val`
  unfoldable pub insert : Str → V → Dict V → Dict V
  insert k v [] = (k, v) ∷ []
  insert k v ((j, w) ∷ m) = if streq j k then (k, v) ∷ m else (j, w) ∷ insert k v m

  -- `emplace(key, val)`, and `map[key]` for a default value
  unfoldable pub emplace : Str → V → Dict V → Dict V
  emplace k v [] = (k, v) ∷ []
  emplace k v ((j, w) ∷ m) = if streq j k then (j, w) ∷ m else (j, w) ∷ emplace k v m

  pub find-insert :
      (j k : Str) (v : V) (m : Dict V)
      → find j (insert k v m) ≡ (if streq k j then some v else find j m)
  unfolding find insert
  find-insert j k v [] = refl
  find-insert j k v ((i, w) ∷ m) =
      ground (arith, streq_iff i k, streq_iff i j, streq_iff k j, find-insert j k v m)

  pub find-emplace_known :
      (j k : Str) (v w : V) (m : Dict V) → find j m ≡ some w → find j (emplace k v m) ≡ some w
  unfolding find emplace
  find-emplace_known j k v w [] h = ground arith
  find-emplace_known j k v w ((i, x) ∷ m) h =
      ground (arith, streq_iff i k, streq_iff i j, find-emplace_known j k v w m)

  pub find-emplace_new :
      (j k : Str) (v : V) (m : Dict V)
      → find j m ≡ none
      → find j (emplace k v m) ≡ (if streq k j then some v else none)
  unfolding find emplace
  find-emplace_new j k v [] h = refl
  find-emplace_new j k v ((i, x) ∷ m) h =
      ground (arith, streq_iff i k, streq_iff i j, streq_iff k j, find-emplace_new j k v m)
