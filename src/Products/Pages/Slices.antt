-- ===== src/Products/Pages/Slices.antt =====
-- Slices and filters of a list: what `rows[:n]` keeps, leaves and counts.
use phyllonix.Base.{
  ℕ, zero, suc, ◌+◌, ◌≤◌, ◌≡◌, refl, ap, Bool, true, List, [], ◌∷◌, ◌++◌, ltb, length, take,
  select_where, All, arith, Bool-cases, inl, inr,
}

module _ {ℓ} {A : Type ℓ} where
  abbrev pub drop : ℕ → List A → List A
  drop zero xs = xs
  drop (suc n) [] = []
  drop (suc n) (x ∷ xs) = drop n xs

  pub take-drop : (n : ℕ) (xs : List A) → take n xs ++ drop n xs ≡ xs
  take-drop zero xs = refl
  take-drop (suc n) [] = refl
  take-drop (suc n) (x ∷ xs) = ap (◌∷◌ x) (take-drop n xs)

  pub length-drop : (n : ℕ) (xs : List A) → n ≤ length xs → length (drop n xs) + n ≡ length xs
  length-drop zero xs h = omega arith
  length-drop (suc n) [] h = omega arith
  length-drop (suc n) (x ∷ xs) h = omega (arith, length-drop n xs (omega arith))

  pub take-take : (n : ℕ) (xs : List A) → take n (take (suc n) xs) ≡ take n xs
  take-take zero xs = refl
  take-take (suc n) [] = refl
  take-take (suc n) (x ∷ xs) = ap (◌∷◌ x) (take-take n xs)

  pub take_whole : (n : ℕ) (xs : List A) → length xs ≤ n → take n xs ≡ xs
  take_whole zero [] h = refl
  take_whole zero (x ∷ xs) h = absurd (omega arith)
  take_whole (suc n) [] h = refl
  take_whole (suc n) (x ∷ xs) h = ap (◌∷◌ x) (take_whole n xs (omega arith))

  pub more_than : (n : ℕ) (xs : List A) → ltb n (length (take (suc n) xs)) ≡ ltb n (length xs)
  more_than zero [] = refl
  more_than zero (x ∷ xs) = ground arith
  more_than (suc n) [] = refl
  more_than (suc n) (x ∷ xs) = ground (arith, more_than n xs)

  pub select_where-narrow :
      (p q : A → Bool) (xs : List A)
      → ((x : A) → q x ≡ true → p x ≡ true)
      → select_where q (select_where p xs) ≡ select_where q xs
  select_where-narrow p q [] h = refl
  select_where-narrow p q (x ∷ xs) h = ground (arith, h x, select_where-narrow p q xs h)

  pub select_where-All : (p : A → Bool) (xs : List A) → All (λ x. p x ≡ true) (select_where p xs)
  select_where-All p [] = tt
  select_where-All p (x ∷ xs) = elim (Bool-cases (p x)) [
    | inl t ↦ rw t (t, select_where-All p xs)
    | inr f ↦ rw f (select_where-All p xs)
  ]

  pub select_where-every :
      (p : A → Bool) (xs : List A) → All (λ x. p x ≡ true) xs → select_where p xs ≡ xs
  select_where-every p [] h = refl
  select_where-every p (x ∷ xs) h = rw (h.0, select_where-every p xs h.1)
