-- ===== src/Base/Double.antt =====
-- IEEE double precision as far as `int(x * 0.02)` needs it, for x a natural number: the conversion
-- of x, the product and its truncation, each rounded to 53 significant bits, ties to even.
use native.Mathlib.Nat.{
  pow-suc, mul_assoc, mul_comm, mul-le-mul_right, le-div_iff_mul-le, le_trans, one-le-pow,
}
use phyllonix.Base.{
  ℕ, zero, suc, ◌+◌, ◌*◌, ◌/◌, ◌%◌, ◌^◌, ◌≤◌, ◌<◌, ◌≡◌, refl, arith, ltb, ◌==◌, if◌then◌else◌,
  Bool-cases, inl, inr, ◌⊎◌,
}

-- How many low bits of x lie below its 53 significant ones.
unfoldable pub excess : ℕ → ℕ → ℕ
excess zero x = 0
excess (suc f) x = let rest = suc (excess f (x / 2)) in if ltb x 9007199254740992 then 0 else rest

-- x / d rounded to the nearest natural number, ties to even
unfoldable pub half_even : ℕ → ℕ → ℕ
half_even x d =
    let q = x / d in
    let r = x % d in
    if ltb (2 * r) d then q else if ltb d (2 * r) then q + 1 else if q % 2 == 0 then q else q + 1

-- x rounded to 53 significant bits; the fuel covers every x below 2 ^ 1077
unfoldable pub round53 : ℕ → ℕ
round53 x = let e = excess 1024 x in if e == 0 then x else half_even x (2 ^ e) * 2 ^ e

-- The literal 0.02 is the double 5764607523034235 / 2 ^ 58.
unfoldable pub two_percent : ℕ → ℕ
two_percent n = round53 (round53 n * 5764607523034235) / 288230376151711744

half_even-lower : (x d : ℕ) → x / d ≤ half_even x d
unfolding half_even
half_even-lower x d = ground arith

half_even-upper : (x d : ℕ) → 0 < d → 2 * (half_even x d * d) ≤ 2 * x + d
unfolding half_even
half_even-upper x d h = grind arith

excess-zero : (f x : ℕ) → x < 9007199254740992 → excess f x ≡ 0
unfolding excess
excess-zero zero x h = refl
excess-zero (suc f) x h = ground arith

excess-le : (f x k : ℕ) → x < 9007199254740992 * 2 ^ k → excess f x ≤ k
unfolding excess
excess-le zero x k h = omega arith
excess-le (suc f) x zero h = ground arith
excess-le (suc f) x (suc k) h = ground (arith, pow-suc 2 k, excess-le f (x / 2) k)

-- The bits dropped are below the 53 that are kept.
step_pow :
    (e x : ℕ)
    → (e ≡ 0) ⊎ (2 ^ e * 4503599627370496 ≤ x / 2)
    → 9007199254740992 ≤ x
    → 2 ^ suc e * 4503599627370496 ≤ x
step_pow e x (inl z) h = rw z (omega arith)
step_pow e x (inr p) h = rw (pow-suc 2 e) (omega arith)

excess-pow : (f x : ℕ) → (excess f x ≡ 0) ⊎ (2 ^ excess f x * 4503599627370496 ≤ x)
unfolding excess
excess-pow zero x = inl refl
excess-pow (suc f) x = elim (Bool-cases (ltb x 9007199254740992)) [
  | inl small ↦ inl (rw small)
  | inr large ↦ rw large (inr (step_pow (excess f (x / 2)) x (excess-pow f (x / 2)) (ground arith)))
]

-- 2 ^ e divides 2 ^ k for e ≤ k.
pow_split : (e k : ℕ) → e ≤ k → (c : ℕ) × (2 ^ k ≡ 2 ^ e * c)
pow_split zero k h = (2 ^ k, omega arith)
pow_split (suc e) zero h = absurd (omega arith)
pow_split (suc e) (suc k) h =
    let (c, p) = pow_split e k (omega arith) in (c, rw (pow-suc 2 e, pow-suc 2 k, p) (grind arith))

-- A multiple of u below P is below P rounded down to a multiple of a divisor d of u.
keeps_units : (d c u k P : ℕ) → 0 < d → u ≡ d * c → k * u ≤ P → k * u ≤ P / d * d
keeps_units d c u k P h e g =
    let factor : k * u ≡ k * c * d = rw (e, mul_comm d c, ← mul_assoc) in
    rw factor (mul-le-mul_right d ((le-div_iff_mul-le h).1 (rw (← factor) g)))

-- The value that two_percent truncates lies between n / 50 and n / 50 + 1, in units of 2 ^ 58.
rounded_bounds :
    (n d c : ℕ)
    → n < 1125899906842624
    → 0 < d
    → 288230376151711744 ≡ d * c
    → d * 4503599627370496 ≤ n * 5764607523034235
    → (n / 50 * 288230376151711744 ≤ half_even (n * 5764607523034235) d * d)
      × (half_even (n * 5764607523034235) d * d < (n / 50 + 1) * 288230376151711744)
rounded_bounds n d c h pos e g =
    let P = n * 5764607523034235 in
    let low = keeps_units d c 288230376151711744 (n / 50) P pos e (omega arith) in
    let q = mul-le-mul_right d (half_even-lower P d) in
    let up = half_even-upper P d pos in (le_trans low q, omega (arith, up))

-- Either nothing is dropped or the value is rounded to a multiple of 2 ^ e.
round53-small : (x : ℕ) → excess 1024 x ≡ 0 → round53 x ≡ x
unfolding round53
round53-small x h = rw h

round53-cases :
    (x : ℕ)
    → (round53 x ≡ x)
      ⊎ ((round53 x ≡ half_even x (2 ^ excess 1024 x) * 2 ^ excess 1024 x)
          × (2 ^ excess 1024 x * 4503599627370496 ≤ x))
unfolding round53
round53-cases x = elim (excess-pow 1024 x) [
  | inl z ↦ inl (rw z)
  | inr p ↦ elim (Bool-cases (excess 1024 x == 0)) [ inl t ↦ inl (rw t) | inr t ↦ inr (rw t, p) ]
]

-- The product with the literal, rounded, lies in the same unit as the exact value.
product_bounds :
    (n : ℕ)
    → n < 1125899906842624
    → (n / 50 * 288230376151711744 ≤ round53 (n * 5764607523034235))
      × (round53 (n * 5764607523034235) < (n / 50 + 1) * 288230376151711744)
product_bounds n h =
    let P = n * 5764607523034235 in
    let e = excess 1024 P in
    elim (round53-cases P) [
      | inl exact ↦ rw exact (omega arith)
      | inr (rounded, big) ↦
          let (c, split) = pow_split e 58 (excess-le 1024 P 58 (omega arith)) in
          rw rounded (rounded_bounds n (2 ^ e) c h (one-le-pow e 2 (omega arith)) split big)
    ]

-- two_percent is exact: for n below 2 ^ 50 it is the whole part of a fiftieth of n.
pub two_percent-eq : (n : ℕ) → n < 1125899906842624 → two_percent n ≡ n / 50
unfolding two_percent
two_percent-eq n h =
    rw (round53-small n (excess-zero 1024 n (omega arith))) (omega (arith, product_bounds n h))
