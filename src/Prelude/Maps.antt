-- ===== src/Prelude/Maps.antt =====
-- A Go map with numbers for keys, as the list of its entries.
use Prim.Native.Nat.{ℕ, ◌+◌}
use mathlib.Core.Path.{◌≡◌, refl, ◌∙◌}
use mathlib.Core.Option.{Option, none, some}
use mathlib.Core.List.{List, [], ◌∷◌}
use native.Mathlib.Omega.{arith}
use live_chat_room.Prelude.Tests.{◌==◌, if◌then◌else◌, if_cases, if-false}
use live_chat_room.Prelude.Lists.{length}

module _ {ℓ} {V : Type ℓ} where
  -- `v, exists := m[k]`
  unfoldable pub get : ℕ → List (ℕ × V) → Option V
  get k [] = none
  get k ((j, v) ∷ m) = if j == k then some v else get k m

  -- `m[k] = v`
  unfoldable pub put : ℕ → V → List (ℕ × V) → List (ℕ × V)
  put k v [] = (k, v) ∷ []
  put k v ((j, w) ∷ m) = if j == k then (j, v) ∷ m else (j, w) ∷ put k v m

  -- `delete(m, k)`
  unfoldable pub erase : ℕ → List (ℕ × V) → List (ℕ × V)
  erase k [] = []
  erase k ((j, v) ∷ m) = if j == k then m else (j, v) ∷ erase k m

  -- No key has two entries.
  abbrev pub IsMap : List (ℕ × V) → Type ℓ
  IsMap [] = Unit
  IsMap ((k, v) ∷ m) = (get k m ≡ none) × IsMap m

  pub get-put :
      (j k : ℕ) (v : V) (m : List (ℕ × V))
      → get j (put k v m) ≡ (if k == j then some v else get j m)
  unfolding get put
  get-put j k v [] = refl
  get-put j k v ((i, w) ∷ m) = ground (arith, get-put j k v m)

  pub get-erase :
      (j k : ℕ) (m : List (ℕ × V))
      → IsMap m
      → get j (erase k m) ≡ (if k == j then none else get j m)
  unfolding get erase
  get-erase j k [] h = ground arith
  get-erase j k ((i, w) ∷ m) h = ground (arith, get-erase j k m)

  pub IsMap-put : (k : ℕ) (v : V) (m : List (ℕ × V)) → IsMap m → IsMap (put k v m)
  unfolding put get
  IsMap-put k v [] h = (refl, tt)
  IsMap-put k v ((i, w) ∷ m) h =
      if_cases IsMap (i == k) (λ e. h)
        (λ e. (
          get-put i k v m ∙ if-false {b = k == i} _ _ (ground (arith, e)) ∙ h.0,
          IsMap-put k v m h.1,
        ))

  pub IsMap-erase : (k : ℕ) (m : List (ℕ × V)) → IsMap m → IsMap (erase k m)
  unfolding erase
  IsMap-erase k [] h = tt
  IsMap-erase k ((i, w) ∷ m) h =
      if_cases IsMap (i == k) (λ e. h.1)
        (λ e. (
          get-erase i k m h.1 ∙ if-false {b = k == i} _ _ (ground (arith, e)) ∙ h.0,
          IsMap-erase k m h.1,
        ))

  pub length-put_new :
      (k : ℕ) (v : V) (m : List (ℕ × V)) → get k m ≡ none → length (put k v m) ≡ length m + 1
  unfolding get put
  length-put_new k v [] h = omega arith
  length-put_new k v ((i, w) ∷ m) h = ground (arith, length-put_new k v m)

  pub length-put_old :
      (k : ℕ) (v : V) (m : List (ℕ × V)) {w : V} → get k m ≡ some w → length (put k v m) ≡ length m
  unfolding get put
  length-put_old k v [] h = cc
  length-put_old k v ((i, u) ∷ m) {w} h = ground (arith, length-put_old k v m {w = w})

  pub length-erase :
      (k : ℕ) (m : List (ℕ × V)) {w : V} → get k m ≡ some w → length (erase k m) + 1 ≡ length m
  unfolding get erase
  length-erase k [] h = cc
  length-erase k ((i, u) ∷ m) {w} h = ground (arith, length-erase k m {w = w})
