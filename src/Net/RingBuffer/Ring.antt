-- ===== src/Net/RingBuffer/Ring.antt =====
-- The ring of util/net/base/buffer/ring_buffer.go: slices of a buffer that is followed by itself.
use live_chat_room.Prelude.{
  append_nil, ℕ, zero, suc, ◌+◌, ◌-◌, ◌≤◌, ◌≡◌, refl, sym, ap, ◌∙◌, List, [], ◌∷◌, ◌++◌, length,
  take, drop, sub, copy_at, length-copy_at, drop-drop, take-take, drop-take, take_all, drop_all,
  take-append, drop-append, length-take, length-drop, arith,
}

module _ {ℓ} {A : Type ℓ} where
  pub length-sub : (i n : ℕ) (xs : List A) → i + n ≤ length xs → length (sub i n xs) ≡ n
  length-sub i n xs h = omega (arith, length-take n (drop i xs), length-drop i xs)

  pub take-sub : (i k n : ℕ) (xs : List A) → k ≤ n → take k (sub i n xs) ≡ sub i k xs
  take-sub i k n xs h = take-take k n (drop i xs) h

  pub drop-sub : (i k n : ℕ) (xs : List A) → drop k (sub i n xs) ≡ sub (i + k) (n - k) xs
  drop-sub i k n xs = rw (drop-take k n (drop i xs), drop-drop i k xs) refl

  -- A slice that ends before the end of the buffer
  pub sub-ring : (i n : ℕ) (xs : List A) → i + n ≤ length xs → sub i n (xs ++ xs) ≡ sub i n xs
  sub-ring i n xs h =
      let e : n - length (drop i xs) ≡ 0 = omega (arith, length-drop i xs) in
      rw (drop-append i xs xs, take-append n (drop i xs) (drop (i - length xs) xs), e)
        (append_nil (take n (drop i xs)))

  -- A slice that goes round
  pub sub-ring_round :
      (i n : ℕ) (xs : List A)
      → i ≤ length xs
      → length xs ≤ i + n
      → sub i n (xs ++ xs) ≡ drop i xs ++ take (i + n - length xs) xs
  sub-ring_round i n xs h h' =
      let e : n - length (drop i xs) ≡ i + n - length xs = omega (arith, length-drop i xs) in
      let e' : i - length xs ≡ 0 = omega arith in
      rw
        (
          drop-append i xs xs,
          e',
          take-append n (drop i xs) xs,
          e,
          take_all n (drop i xs) (omega (arith, length-drop i xs)),
        )
        refl

  -- A slice of the second copy
  pub sub-ring_back :
      (i n : ℕ) (xs : List A)
      → i + n ≤ length xs
      → sub (length xs + i) n (xs ++ xs) ≡ sub i n (xs ++ xs)
  sub-ring_back i n xs h =
      let e : length xs + i - length xs ≡ i = omega arith in
      rw
        (
          sub-ring i n xs h,
          drop-append (length xs + i) xs xs,
          drop_all (length xs + i) xs (omega arith),
          e,
        )
        refl

  pub copy_at_fits :
      (t : ℕ) (xs ys : List A)
      → t + length ys ≤ length xs
      → copy_at t xs ys ≡ take t xs ++ (ys ++ drop (t + length ys) xs)
  unfolding copy_at
  copy_at_fits zero [] [] h = refl
  copy_at_fits zero [] (y ∷ ys) h = absurd (omega arith)
  copy_at_fits (suc t) [] ys h = absurd (omega arith)
  copy_at_fits zero (x ∷ xs) [] h = refl
  copy_at_fits zero (x ∷ xs) (y ∷ ys) h =
      let e : 0 + suc (length ys) ≡ suc (0 + length ys) = omega arith in
      rw e (ap (λ l. y ∷ l) (copy_at_fits zero xs ys (omega arith)))
  copy_at_fits (suc t) (x ∷ xs) ys h =
      let e : suc t + length ys ≡ suc (t + length ys) = omega arith in
      rw e (ap (λ l. x ∷ l) (copy_at_fits t xs ys (omega arith)))

  -- What a copy leaves before it, writes, and leaves after it
  pub take-copy_at : (n t : ℕ) (xs ys : List A) → n ≤ t → take n (copy_at t xs ys) ≡ take n xs
  unfolding copy_at
  take-copy_at n t [] ys h = refl
  take-copy_at zero t (x ∷ xs) ys h = refl
  take-copy_at (suc n) zero (x ∷ xs) ys h = absurd (omega arith)
  take-copy_at (suc n) (suc t) (x ∷ xs) ys h =
      ap (λ l. x ∷ l) (take-copy_at n t xs ys (omega arith))

  pub drop-copy_at :
      (n t : ℕ) (xs ys : List A) → t + length ys ≤ n → drop n (copy_at t xs ys) ≡ drop n xs
  unfolding copy_at
  drop-copy_at n t [] ys h = refl
  drop-copy_at zero zero (x ∷ xs) [] h = refl
  drop-copy_at zero zero (x ∷ xs) (y ∷ ys) h = absurd (omega arith)
  drop-copy_at zero (suc t) (x ∷ xs) ys h = absurd (omega arith)
  drop-copy_at (suc n) zero (x ∷ xs) [] h = refl
  drop-copy_at (suc n) zero (x ∷ xs) (y ∷ ys) h = drop-copy_at n zero xs ys (omega arith)
  drop-copy_at (suc n) (suc t) (x ∷ xs) ys h = drop-copy_at n t xs ys (omega arith)

  pub sub-copy_at :
      (t : ℕ) (xs ys : List A)
      → t + length ys ≤ length xs
      → sub t (length ys) (copy_at t xs ys) ≡ ys
  unfolding copy_at
  sub-copy_at zero xs [] h = refl
  sub-copy_at zero [] (y ∷ ys) h = absurd (omega arith)
  sub-copy_at zero (x ∷ xs) (y ∷ ys) h = ap (λ l. y ∷ l) (sub-copy_at zero xs ys (omega arith))
  sub-copy_at (suc t) [] ys h = absurd (omega arith)
  sub-copy_at (suc t) (x ∷ xs) ys h = sub-copy_at t xs ys (omega arith)

  pub sub-copy_at_before :
      (i n t : ℕ) (xs ys : List A) → i + n ≤ t → sub i n (copy_at t xs ys) ≡ sub i n xs
  unfolding copy_at
  sub-copy_at_before zero n t xs ys h = take-copy_at n t xs ys (omega arith)
  sub-copy_at_before (suc i) n t [] ys h = refl
  sub-copy_at_before (suc i) n zero (x ∷ xs) ys h = absurd (omega arith)
  sub-copy_at_before (suc i) n (suc t) (x ∷ xs) ys h = sub-copy_at_before i n t xs ys (omega arith)

  pub copy_at-nil : (xs : List A) → copy_at 0 xs [] ≡ xs
  unfolding copy_at
  copy_at-nil [] = refl
  copy_at-nil (x ∷ xs) = refl

  pub copy_at_start :
      (xs ys : List A) → length ys ≤ length xs → copy_at 0 xs ys ≡ ys ++ drop (length ys) xs
  copy_at_start xs ys h =
      let e : 0 + length ys ≡ length ys = omega arith in
      rw (copy_at_fits 0 xs ys (omega arith), e) refl

  -- Two copies, one after the other
  pub copy_at_twice :
      (xs ys zs : List A)
      → length ys + length zs ≤ length xs
      → copy_at (length ys) (copy_at 0 xs ys) zs ≡ (ys ++ zs) ++ drop (length ys + length zs) xs
  unfolding copy_at
  copy_at_twice xs [] zs h =
      let e : 0 + length zs ≡ length zs = omega arith in
      rw (copy_at-nil xs, e) (copy_at_start xs zs (omega arith))
  copy_at_twice [] (y ∷ ys) zs h = absurd (omega arith)
  copy_at_twice (x ∷ xs) (y ∷ ys) zs h =
      let e : suc (length ys) + length zs ≡ suc (length ys + length zs) = omega arith in
      rw e (ap (λ l. y ∷ l) (copy_at_twice xs ys zs (omega arith)))

  -- A copy that ends with the buffer
  pub drop-copy_at_end :
      (t : ℕ) (xs ys : List A) → t + length ys ≡ length xs → drop t (copy_at t xs ys) ≡ ys
  drop-copy_at_end t xs ys h =
      sym (
        take_all (length ys) (drop t (copy_at t xs ys))
          (omega (arith, length-drop t (copy_at t xs ys), length-copy_at t xs ys)))
      ∙ sub-copy_at t xs ys (omega arith)
