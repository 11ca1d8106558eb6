-- ===== src/LogGroup/Slices.antt =====
-- Slices of lists.
use home_store.Prelude.{
  ℕ, zero, suc, ◌+◌, ◌≤◌, ◌≡◌, refl, sym, ap, ◌∙◌, List, [], ◌∷◌, ◌++◌, length, take, drop, arith,
  take-append_le, drop-prefix, take-prefix, length-drop, append-nil,
}

-- The part of this length from this position on.
abbrev pub slice {ℓ} : {A : Type ℓ} → ℕ → ℕ → List A → List A
slice off n xs = take n (drop off xs)

module _ {ℓ} {A : Type ℓ} where
  pub drop-append_le :
      (n : ℕ) (xs ys : List A) → n ≤ length xs → drop n (xs ++ ys) ≡ drop n xs ++ ys
  drop-append_le zero xs ys h = refl
  drop-append_le (suc n) [] ys h = absurd (omega arith)
  drop-append_le (suc n) (x ∷ xs) ys h = drop-append_le n xs ys (omega arith)

  drop-append_plus : (xs ys : List A) (n : ℕ) → drop (length xs + n) (xs ++ ys) ≡ drop n ys
  drop-append_plus [] ys n = ap (λ k. drop k ys) (omega arith)
  drop-append_plus (x ∷ xs) ys n =
      let next : suc (length xs) + n ≡ suc (length xs + n) = omega arith in
      ap (λ k. drop k (x ∷ xs ++ ys)) next ∙ drop-append_plus xs ys n

  -- More behind a list does not change a slice of it.
  pub slice-append :
      (off n : ℕ) (xs ys : List A) → off + n ≤ length xs → slice off n (xs ++ ys) ≡ slice off n xs
  slice-append off n xs ys h =
      ap (take n) (drop-append_le off xs ys (omega arith))
      ∙ take-append_le n (drop off xs) ys (omega (arith, length-drop off xs))

  -- Nor does more in front of it, once the position is moved.
  pub slice-behind :
      (off n : ℕ) (xs ys : List A) → slice (length xs + off) n (xs ++ ys) ≡ slice off n ys
  slice-behind off n xs ys = ap (take n) (drop-append_plus xs ys off)

  pub slice-end : (xs ys : List A) → slice (length xs) (length ys) (xs ++ ys) ≡ ys
  slice-end xs ys =
      ap (take (length ys)) (drop-prefix xs ys (length xs) refl)
      ∙ ap (take (length ys)) (sym (append-nil ys))
      ∙ take-prefix ys [] (length ys) refl

  drop-nil : (n : ℕ) → drop {A = A} n [] ≡ []
  drop-nil zero = refl
  drop-nil (suc n) = refl

  drop-drop : (a b : ℕ) (xs : List A) → drop b (drop a xs) ≡ drop (a + b) xs
  drop-drop zero b xs = ap (λ k. drop k xs) (omega arith)
  drop-drop (suc a) b [] = drop-nil b ∙ sym (drop-nil (suc a + b))
  drop-drop (suc a) b (x ∷ xs) =
      let next : suc a + b ≡ suc (a + b) = omega arith in
      drop-drop a b xs ∙ sym (ap (λ k. drop k (x ∷ xs)) next)

  take-take_le : (n m : ℕ) (xs : List A) → n ≤ m → take n (take m xs) ≡ take n xs
  take-take_le zero m xs h = refl
  take-take_le (suc n) zero xs h = absurd (omega arith)
  take-take_le (suc n) (suc m) [] h = refl
  take-take_le (suc n) (suc m) (x ∷ xs) h = ap (λ l. x ∷ l) (take-take_le n m xs (omega arith))

  -- What is left out behind a slice does not change it.
  pub slice-take :
      (off n m : ℕ) (xs : List A) → off + n ≤ m → slice off n (take m xs) ≡ slice off n xs
  slice-take zero n m xs h = take-take_le n m xs (omega arith)
  slice-take (suc off) zero m xs h = refl
  slice-take (suc off) (suc n) zero xs h = absurd (omega arith)
  slice-take (suc off) (suc n) (suc m) [] h = refl
  slice-take (suc off) (suc n) (suc m) (x ∷ xs) h = slice-take off (suc n) m xs (omega arith)

  -- A slice in two steps.
  pub slice-drop : (a off n : ℕ) (xs : List A) → slice off n (drop a xs) ≡ slice (a + off) n xs
  slice-drop a off n xs = ap (take n) (drop-drop a off xs)
