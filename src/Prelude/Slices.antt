-- ===== src/Prelude/Slices.antt =====
-- Slices of a list, and `copy` into a part of a list.
use Prim.Native.Nat.{ℕ, zero, suc, ◌+◌, ◌-◌, ◌≤◌, ◌<◌}
use mathlib.Core.Path.{◌≡◌, refl, ap, sym, ◌∙◌}
use mathlib.Core.List.{List, [], ◌∷◌, ◌++◌}
use native.Mathlib.Omega.{arith}
use live_chat_room.Prelude.Lists.{length, take, drop, get_or}

module _ {ℓ} {A : Type ℓ} where
  -- `xs[i : i + n]`
  abbrev pub sub : ℕ → ℕ → List A → List A
  sub i n xs = take n (drop i xs)

  -- `copy(xs[i:], ys)`: what does not fit is dropped.
  unfoldable pub copy_at : ℕ → List A → List A → List A
  copy_at i [] ys = []
  copy_at (suc i) (x ∷ xs) ys = x ∷ copy_at i xs ys
  copy_at zero (x ∷ xs) [] = x ∷ xs
  copy_at zero (x ∷ xs) (y ∷ ys) = y ∷ copy_at zero xs ys

  pub length-copy_at : (i : ℕ) (xs ys : List A) → length (copy_at i xs ys) ≡ length xs
  unfolding copy_at
  length-copy_at i [] ys = refl
  length-copy_at (suc i) (x ∷ xs) ys = ap suc (length-copy_at i xs ys)
  length-copy_at zero (x ∷ xs) [] = refl
  length-copy_at zero (x ∷ xs) (y ∷ ys) = ap suc (length-copy_at zero xs ys)

  pub take-nil : (n : ℕ) → take {A = A} n [] ≡ []
  take-nil zero = refl
  take-nil (suc n) = refl

  pub drop-nil : (n : ℕ) → drop {A = A} n [] ≡ []
  drop-nil zero = refl
  drop-nil (suc n) = refl

  pub drop-drop : (a b : ℕ) (xs : List A) → drop b (drop a xs) ≡ drop (a + b) xs
  drop-drop zero b xs = ap (λ n. drop n xs) (omega arith)
  drop-drop (suc a) b [] = rw (drop-nil b) (rw drop-nil)
  drop-drop (suc a) b (x ∷ xs) =
      let e : suc a + b ≡ suc (a + b) = omega arith in rw e (drop-drop a b xs)

  pub take-take : (a b : ℕ) (xs : List A) → a ≤ b → take a (take b xs) ≡ take a xs
  take-take zero b xs h = refl
  take-take (suc a) zero xs h = absurd (omega arith)
  take-take (suc a) (suc b) [] h = refl
  take-take (suc a) (suc b) (x ∷ xs) h = ap (λ l. x ∷ l) (take-take a b xs (omega arith))

  pub drop-take : (a b : ℕ) (xs : List A) → drop a (take b xs) ≡ take (b - a) (drop a xs)
  drop-take zero b xs = ap (λ n. take n xs) (omega arith)
  drop-take (suc a) zero xs = let e : 0 - suc a ≡ 0 = omega arith in rw e refl
  drop-take (suc a) (suc b) [] = rw take-nil
  drop-take (suc a) (suc b) (x ∷ xs) =
      let e : suc b - suc a ≡ b - a = omega arith in rw e (drop-take a b xs)

  pub take_all : (n : ℕ) (xs : List A) → length xs ≤ n → take n xs ≡ xs
  take_all zero [] h = refl
  take_all zero (x ∷ xs) h = absurd (omega arith)
  take_all (suc n) [] h = refl
  take_all (suc n) (x ∷ xs) h = ap (λ l. x ∷ l) (take_all n xs (omega arith))

  pub drop_all : (n : ℕ) (xs : List A) → length xs ≤ n → drop n xs ≡ []
  drop_all zero [] h = refl
  drop_all zero (x ∷ xs) h = absurd (omega arith)
  drop_all (suc n) [] h = refl
  drop_all (suc n) (x ∷ xs) h = drop_all n xs (omega arith)

  pub take-append :
      (n : ℕ) (xs ys : List A) → take n (xs ++ ys) ≡ take n xs ++ take (n - length xs) ys
  take-append n [] ys = let e : n - 0 ≡ n = omega arith in rw (e, take-nil)
  take-append zero (x ∷ xs) ys = let e : 0 - suc (length xs) ≡ 0 = omega arith in rw e refl
  take-append (suc n) (x ∷ xs) ys =
      let e : suc n - suc (length xs) ≡ n - length xs = omega arith in
      rw e (ap (λ l. x ∷ l) (take-append n xs ys))

  pub drop-append :
      (n : ℕ) (xs ys : List A) → drop n (xs ++ ys) ≡ drop n xs ++ drop (n - length xs) ys
  drop-append n [] ys = let e : n - 0 ≡ n = omega arith in rw (e, drop-nil)
  drop-append zero (x ∷ xs) ys = let e : 0 - suc (length xs) ≡ 0 = omega arith in rw e refl
  drop-append (suc n) (x ∷ xs) ys =
      let e : suc n - suc (length xs) ≡ n - length xs = omega arith in rw e (drop-append n xs ys)

  pub take_split : (a b : ℕ) (xs : List A) → take (a + b) xs ≡ take a xs ++ take b (drop a xs)
  take_split zero b xs = ap (λ n. take n xs) (omega arith)
  take_split (suc a) b [] = let e : suc a + b ≡ suc (a + b) = omega arith in rw (e, take-nil b) refl
  take_split (suc a) b (x ∷ xs) =
      let e : suc a + b ≡ suc (a + b) = omega arith in rw e (ap (λ l. x ∷ l) (take_split a b xs))

  -- A slice in two parts.
  pub sub_split : (i a b : ℕ) (xs : List A) → sub i (a + b) xs ≡ sub i a xs ++ sub (i + a) b xs
  sub_split i a b xs = rw (take_split a b (drop i xs), drop-drop i a xs) refl

  -- A slice that another list precedes.
  pub sub_after : (n : ℕ) (xs ys : List A) → sub (length xs) n (xs ++ ys) ≡ take n ys
  sub_after n [] ys = refl
  sub_after n (x ∷ xs) ys = sub_after n xs ys

  pub drop-length : (xs ys : List A) → drop (length xs) (xs ++ ys) ≡ ys
  drop-length [] ys = refl
  drop-length (x ∷ xs) ys = drop-length xs ys

  pub take-length : (xs ys : List A) → take (length xs) (xs ++ ys) ≡ xs
  take-length [] ys = refl
  take-length (x ∷ xs) ys = ap (λ l. x ∷ l) (take-length xs ys)

  -- The part `ys` of `xs ++ ys ++ zs`.
  pub sub_middle :
      (i n : ℕ) (xs ys zs : List A)
      → length xs ≡ i
      → length ys ≡ n
      → sub i n (xs ++ (ys ++ zs)) ≡ ys
  sub_middle i n xs ys zs h k =
      rw (sym h, sym k) (sub_after (length ys) xs (ys ++ zs) ∙ take-length ys zs)

  -- What is read of a list is read of the list with more behind it.
  pub sub-append : (i n : ℕ) (xs ys : List A) → i + n ≤ length xs → sub i n (xs ++ ys) ≡ sub i n xs
  sub-append zero zero xs ys h = refl
  sub-append zero (suc n) [] ys h = absurd (omega arith)
  sub-append zero (suc n) (x ∷ xs) ys h = ap (λ l. x ∷ l) (sub-append zero n xs ys (omega arith))
  sub-append (suc i) n [] ys h = absurd (omega arith)
  sub-append (suc i) n (x ∷ xs) ys h = sub-append i n xs ys (omega arith)

  pub drop-append_le :
      (n : ℕ) (xs ys : List A) → n ≤ length xs → drop n (xs ++ ys) ≡ drop n xs ++ ys
  drop-append_le zero xs ys h = refl
  drop-append_le (suc n) [] ys h = absurd (omega arith)
  drop-append_le (suc n) (x ∷ xs) ys h = drop-append_le n xs ys (omega arith)

  pub get_or-append :
      (i : ℕ) (d : A) (xs ys : List A) → i < length xs → get_or (xs ++ ys) i d ≡ get_or xs i d
  get_or-append i d [] ys h = absurd (omega arith)
  get_or-append zero d (x ∷ xs) ys h = refl
  get_or-append (suc i) d (x ∷ xs) ys h = get_or-append i d xs ys (omega arith)
