-- ===== src/Products/Cursor/Base64.antt =====
-- base64.urlsafe_b64encode of Python's standard library, `rstrip` of one character, and the padding
-- that decode_cursor of backend/products/utils.py restores.
use phyllonix.Base.{
  ℕ, zero, suc, ◌+◌, ◌-◌, ◌*◌, ◌/◌, ◌%◌, ◌<◌, ◌≡◌, ◌≢◌, refl, ap, Bool, true, false, List, [], ◌∷◌,
  ◌++◌, ltb, ◌==◌, if◌then◌else◌, length, All, arith,
}

abbrev pub Text : Type 0
Text = List ℕ

-- A byte is less than 256.
abbrev pub IsBytes : Text → Type 0
IsBytes = All (λ b. b < 256)

abbrev pub Lacks : ℕ → Text → Type 0
Lacks c = All (λ x. x ≢ c)

-- A-Z, a-z, 0-9, `-` and `_`
unfoldable pub digit : ℕ → ℕ
digit n =
    if ltb n 26
    then n + 65
    else (if ltb n 52 then n + 71 else (if ltb n 62 then n - 4 else (if n == 62 then 45 else 95)))

unfoldable pub urlsafe_b64encode : Text → Text
unfolding digit
urlsafe_b64encode [] = []
urlsafe_b64encode (a ∷ []) = digit (a / 4) ∷ digit (a % 4 * 16) ∷ 61 ∷ 61 ∷ []
urlsafe_b64encode (a ∷ b ∷ []) =
    digit (a / 4) ∷ digit (a % 4 * 16 + b / 16) ∷ digit (b % 16 * 4) ∷ 61 ∷ []
urlsafe_b64encode (a ∷ b ∷ c ∷ rest) =
    digit (a / 4)
    ∷ digit (a % 4 * 16 + b / 16)
    ∷ digit (b % 16 * 4 + c / 64)
    ∷ digit (c % 64)
    ∷ urlsafe_b64encode rest

abbrev keep_unless_last : Bool → ℕ → Text → Text
keep_unless_last true x [] = []
keep_unless_last true x (y ∷ ys) = x ∷ y ∷ ys
keep_unless_last false x ys = x ∷ ys

-- `s.rstrip(c)`
unfoldable pub rstrip : ℕ → Text → Text
rstrip c [] = []
rstrip c (x ∷ xs) = keep_unless_last (x == c) x (rstrip c xs)

-- `c * n`
unfoldable pub repeat : ℕ → ℕ → Text
repeat zero c = []
repeat (suc n) c = c ∷ repeat n c

-- `token_part + "=" * ((4 - len(token_part) % 4) % 4)`
unfoldable pub padded : Text → Text
unfolding repeat
padded token_part = token_part ++ repeat ((4 - length token_part % 4) % 4) 61

-- A digit is neither the padding `=` nor the separator `.`.
digit-ne : (n : ℕ) → n < 64 → (digit n ≢ 61) × (digit n ≢ 46)
unfolding digit
digit-ne n h = ground arith

rstrip-cons : (c x : ℕ) (xs : Text) → x ≢ c → rstrip c (x ∷ xs) ≡ x ∷ rstrip c xs
unfolding rstrip
rstrip-cons c x xs h = ground arith

padded-group : (p q r s : ℕ) (xs : Text) → padded (p ∷ q ∷ r ∷ s ∷ xs) ≡ p ∷ q ∷ r ∷ s ∷ padded xs
unfolding padded
padded-group p q r s xs = ap (λ n. p ∷ q ∷ r ∷ s ∷ (xs ++ repeat ((4 - n) % 4) 61)) (omega arith)

rstrip-quad :
    (p q r s : ℕ) (xs : Text)
    → p ≢ 61
    → q ≢ 61
    → r ≢ 61
    → s ≢ 61
    → rstrip 61 (p ∷ q ∷ r ∷ s ∷ xs) ≡ p ∷ q ∷ r ∷ s ∷ rstrip 61 xs
rstrip-quad p q r s xs hp hq hr hs = rw (
  rstrip-cons 61 p (q ∷ r ∷ s ∷ xs) hp,
  rstrip-cons 61 q (r ∷ s ∷ xs) hq,
  rstrip-cons 61 r (s ∷ xs) hr,
  rstrip-cons 61 s xs hs,
)

-- The padding that encode_cursor strips is the one that decode_cursor puts back.
pub padded-rstrip :
    (r : Text) → IsBytes r → padded (rstrip 61 (urlsafe_b64encode r)) ≡ urlsafe_b64encode r
unfolding urlsafe_b64encode
padded-rstrip [] h = unfold padded rstrip repeat in refl
padded-rstrip (a ∷ []) h =
    rw
      (
        rstrip-cons 61 (digit (a / 4)) _ (digit-ne (a / 4) (omega (arith, h.0))).0,
        rstrip-cons 61 (digit (a % 4 * 16)) _ (digit-ne (a % 4 * 16) (omega arith)).0,
      )
      (unfold padded rstrip repeat in refl)
padded-rstrip (a ∷ b ∷ []) h =
    rw
      (
        rstrip-cons 61 (digit (a / 4)) _ (digit-ne (a / 4) (omega (arith, h.0))).0,
        rstrip-cons 61 (digit (a % 4 * 16 + b / 16)) _
            (digit-ne (a % 4 * 16 + b / 16) (omega (arith, h.1.0))).0,
        rstrip-cons 61 (digit (b % 16 * 4)) _ (digit-ne (b % 16 * 4) (omega arith)).0,
      )
      (unfold padded rstrip repeat in refl)
padded-rstrip (a ∷ b ∷ c ∷ rest) h = rw (
  rstrip-quad _ _ _ _ (urlsafe_b64encode rest) (digit-ne (a / 4) (omega (arith, h.0))).0
      (digit-ne (a % 4 * 16 + b / 16) (omega (arith, h.1.0))).0
      (digit-ne (b % 16 * 4 + c / 64) (omega (arith, h.1.1.0))).0
      (digit-ne (c % 64) (omega arith)).0,
  padded-group,
  padded-rstrip rest h.1.1.1,
)

-- The separator of the token is no character of base64.
pub urlsafe_b64encode-Lacks : (r : Text) → IsBytes r → Lacks 46 (urlsafe_b64encode r)
unfolding urlsafe_b64encode
urlsafe_b64encode-Lacks [] h = tt
urlsafe_b64encode-Lacks (a ∷ []) h = (
  (digit-ne (a / 4) (omega (arith, h.0))).1,
  ((digit-ne (a % 4 * 16) (omega arith)).1, (omega arith, (omega arith, tt))),
)
urlsafe_b64encode-Lacks (a ∷ b ∷ []) h = (
  (digit-ne (a / 4) (omega (arith, h.0))).1,
  (
    (digit-ne (a % 4 * 16 + b / 16) (omega (arith, h.1.0))).1,
    ((digit-ne (b % 16 * 4) (omega arith)).1, (omega arith, tt)),
  ),
)
urlsafe_b64encode-Lacks (a ∷ b ∷ c ∷ rest) h = (
  (digit-ne (a / 4) (omega (arith, h.0))).1,
  (
    (digit-ne (a % 4 * 16 + b / 16) (omega (arith, h.1.0))).1,
    (
      (digit-ne (b % 16 * 4 + c / 64) (omega (arith, h.1.1.0))).1,
      ((digit-ne (c % 64) (omega arith)).1, urlsafe_b64encode-Lacks rest h.1.1.1),
    ),
  ),
)

keep_unless_last-Lacks :
    (c : ℕ) (last : Bool) (x : ℕ) (xs : Text)
    → x ≢ c
    → Lacks c xs
    → Lacks c (keep_unless_last last x xs)
keep_unless_last-Lacks c true x [] h k = tt
keep_unless_last-Lacks c true x (y ∷ ys) h k = (h, k)
keep_unless_last-Lacks c false x ys h k = (h, k)

pub rstrip-Lacks : (c d : ℕ) (s : Text) → Lacks c s → Lacks c (rstrip d s)
unfolding rstrip
rstrip-Lacks c d [] h = tt
rstrip-Lacks c d (x ∷ xs) h =
    keep_unless_last-Lacks c (x == d) x (rstrip d xs) h.0 (rstrip-Lacks c d xs h.1)
