-- ===== src/Base/Lists.antt =====
-- Lists as tables of rows: what a SELECT, an UPDATE and a SUM do, and predicates over rows.
use Prim.Native.Nat.{ℕ, zero, suc, ◌+◌, ◌≤◌}
use mathlib.Core.Path.{◌≡◌, refl}
use mathlib.Core.Bool.{Bool, true, false}
use mathlib.Core.Option.{Option, none, some}
use mathlib.Core.List.{List, [], ◌∷◌, ◌++◌}
use native.Mathlib.Omega.{arith}
use mathlib.Core.Path.{sym, ◌∙◌, subst}
use mathlib.Core.Logic.{inl, inr}
use mathlib.Core.Option.{some-injective}
use phyllonix.Base.Tests.{Option-cases, Bool-cases, if◌then◌else◌}

module _ {ℓ} {A : Type ℓ} where
  abbrev pub length : List A → ℕ
  length [] = 0
  length (x ∷ xs) = suc (length xs)

  abbrev pub take : ℕ → List A → List A
  take zero xs = []
  take (suc n) [] = []
  take (suc n) (x ∷ xs) = x ∷ take n xs

  -- SELECT … WHERE p, the rows in table order
  abbrev pub select_where : (A → Bool) → List A → List A
  select_where p [] = []
  select_where p (x ∷ xs) = let rest = select_where p xs in if p x then x ∷ rest else rest

  -- `scalar_one_or_none` of a SELECT whose WHERE names a unique key
  abbrev pub find_where : (A → Bool) → List A → Option A
  find_where p [] = none
  find_where p (x ∷ xs) = let rest = find_where p xs in if p x then some x else rest

  -- UPDATE … WHERE p SET f
  abbrev pub update_where : (A → Bool) → (A → A) → List A → List A
  update_where p f [] = []
  update_where p f (x ∷ xs) = (if p x then f x else x) ∷ update_where p f xs

  -- COALESCE(SUM(CASE WHEN p THEN f END), 0)
  abbrev pub sum_where : (A → Bool) → (A → ℕ) → List A → ℕ
  sum_where p f [] = 0
  sum_where p f (x ∷ xs) = (if p x then f x else 0) + sum_where p f xs

  pub length-append : (xs ys : List A) → length (xs ++ ys) ≡ length xs + length ys
  length-append [] ys = omega arith
  length-append (x ∷ xs) ys = omega (arith, length-append xs ys)

  pub sum_where-append :
      (p : A → Bool) (f : A → ℕ) (xs ys : List A)
      → sum_where p f (xs ++ ys) ≡ sum_where p f xs + sum_where p f ys
  sum_where-append p f [] ys = omega arith
  sum_where-append p f (x ∷ xs) ys = omega (arith, sum_where-append p f xs ys)

  -- An update that keeps the key of every row changes the row that a key finds, if it is meant.
  pub find_where-update_where :
      (p q : A → Bool) (f : A → A) (xs : List A) (c : A)
      → ((x : A) → p (f x) ≡ p x)
      → find_where p xs ≡ some c
      → find_where p (update_where q f xs) ≡ some (if q c then f c else c)
  find_where-update_where p q f [] c keep h = cc
  find_where-update_where p q f (x ∷ xs) c keep h =
      ground (arith, keep x, find_where-update_where p q f xs c keep)

  pub find_where-update_none :
      (p q : A → Bool) (f : A → A) (xs : List A)
      → ((x : A) → p (f x) ≡ p x)
      → find_where p xs ≡ none
      → find_where p (update_where q f xs) ≡ none
  find_where-update_none p q f [] keep h = refl
  find_where-update_none p q f (x ∷ xs) keep h =
      ground (arith, keep x, find_where-update_none p q f xs keep)

  -- A row that is found satisfies the test.
  pub find_where-holds :
      (p : A → Bool) (xs : List A) (c : A) → find_where p xs ≡ some c → p c ≡ true
  find_where-holds p [] c h = cc
  find_where-holds p (x ∷ xs) c h = ground (arith, find_where-holds p xs c)

  pub find_where-append :
      (p : A → Bool) (xs ys : List A)
      → find_where p xs ≡ none
      → find_where p (xs ++ ys) ≡ find_where p ys
  find_where-append p [] ys h = refl
  find_where-append p (x ∷ xs) ys h = ground (arith, find_where-append p xs ys)

  pub find_where-append_some :
      (p : A → Bool) (xs ys : List A) (c : A)
      → find_where p xs ≡ some c
      → find_where p (xs ++ ys) ≡ some c
  find_where-append_some p [] ys c h = cc
  find_where-append_some p (x ∷ xs) ys c h = ground (arith, find_where-append_some p xs ys c)

  -- An update that changes no row's contribution keeps a sum.
  pub sum_where-update_where :
      (p q : A → Bool) (f : A → A) (g : A → ℕ) (xs : List A)
      → ((x : A) → (if p (f x) then g (f x) else 0) ≤ (if p x then g x else 0))
      → sum_where p g (update_where q f xs) ≤ sum_where p g xs
  sum_where-update_where p q f g [] h = omega arith
  sum_where-update_where p q f g (x ∷ xs) h =
      ground (arith, h x, sum_where-update_where p q f g xs h)

  -- The first row with a property has a further one: it is the first with both.
  pub find_where-narrow :
      (p q : A → Bool) (xs : List A) (c : A)
      → ((x : A) → p x ≡ true → q x ≡ true)
      → find_where q xs ≡ some c
      → p c ≡ true
      → find_where p xs ≡ some c
  find_where-narrow p q [] c le h t = cc
  find_where-narrow p q (x ∷ xs) c le h t = ground (arith, le x, find_where-narrow p q xs c le)

  -- A row found after an update that keeps its key comes from one found before.
  pub find_where-updated :
      (p q : A → Bool) (f : A → A) (xs : List A) (c : A)
      → ((x : A) → p (f x) ≡ p x)
      → find_where p (update_where q f xs) ≡ some c
      → (b : A) × (find_where p xs ≡ some b) × (c ≡ (if q b then f b else b))
  find_where-updated p q f xs c keep h = elim (Option-cases (find_where p xs)) [
    | inl missing ↦ absurd (cc (find_where-update_none p q f xs keep missing))
    | inr (b, found) ↦
        (b, found, some-injective _ _ (sym h ∙ find_where-update_where p q f xs b keep found))
  ]

module _ {ℓ κ} {A : Type ℓ} where
  -- A predicate on every row.
  abbrev pub All : (A → Type κ) → List A → Type κ
  All P [] = Unit
  All P (x ∷ xs) = P x × All P xs

  pub All-append : (P : A → Type κ) (xs ys : List A) → All P xs → All P ys → All P (xs ++ ys)
  All-append P [] ys hx hy = hy
  All-append P (x ∷ xs) ys hx hy = (hx.0, All-append P xs ys hx.1 hy)

  pub All-map :
      (P : A → Type κ) (Q : A → Type κ) (xs : List A) → ((x : A) → P x → Q x) → All P xs → All Q xs
  All-map P Q [] f h = tt
  All-map P Q (x ∷ xs) f h = (f x h.0, All-map P Q xs f h.1)

  pub All-update_where :
      (P : A → Type κ) (q : A → Bool) (f : A → A) (xs : List A)
      → ((x : A) → P x → P (f x))
      → All P xs
      → All P (update_where q f xs)
  All-update_where P q f [] keep h = tt
  All-update_where P q f (x ∷ xs) keep h = (
    elim (q x) as (λ b. P (if b then f x else x)) [ true ↦ keep x h.0 | false ↦ h.0 ],
    All-update_where P q f xs keep h.1,
  )

  pub All-find_where :
      (P : A → Type κ) (p : A → Bool) (xs : List A) (c : A)
      → All P xs
      → find_where p xs ≡ some c
      → P c
  All-find_where P p [] c h e = cc
  All-find_where P p (x ∷ xs) c h e = elim (Bool-cases (p x)) [
    | inl here ↦ subst P (some-injective _ _ (rw here at e)) h.0
    | inr later ↦ All-find_where P p xs c h.1 (rw later at e)
  ]
