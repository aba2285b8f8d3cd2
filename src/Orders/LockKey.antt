-- ===== src/Orders/LockKey.antt =====
-- idempotency_lock_key of backend/orders/utils.py: the advisory lock's key is the first eight
-- bytes of the SHA-256 digest, read big-endian and converted to a signed 64-bit integer. The
-- digest function is a parameter; its documented result is a list of bytes, 32 of them.
use mathlib.Core.Path.{ap₂}
use native.Mathlib.Nat.{pow-suc, one-le-pow, mul-le-mul_right}
use phyllonix.Base.{
  ℕ, zero, suc, ◌+◌, ◌-◌, ◌*◌, ◌^◌, ◌≤◌, ◌<◌, ◌≡◌, refl, sym, ap, ◌∙◌, List, [], ◌∷◌, arith, ltb,
  if◌then◌else◌, All, length, take,
}

-- `negsuc n` is -(n + 1).
pub data ℤ : Type 0 where
  pos : ℕ → ℤ
  negsuc : ℕ → ℤ

-- int.from_bytes(h, "big", signed=False)
pub from_bytes : ℕ → List ℕ → ℕ
from_bytes acc [] = acc
from_bytes acc (b ∷ bs) = from_bytes (acc * 256 + b) bs

-- a - b
pub sub_ℕ : ℕ → ℕ → ℤ
sub_ℕ a b = if ltb a b then negsuc (b - a - 1) else pos (a - b)

unfoldable pub idempotency_lock_key : (ℕ → List ℕ) → ℕ → ℤ
unfolding from_bytes sub_ℕ
idempotency_lock_key sha256 ikey =
    let val = from_bytes 0 (take 8 (sha256 ikey)) in
    if ltb 9223372036854775807 val then sub_ℕ val 18446744073709551616 else pos val

-- -2^63 ≤ z ≤ 2^63 - 1
abbrev pub FitsBigint : ℤ → Type 0
FitsBigint (pos n) = n < 9223372036854775808
FitsBigint (negsuc n) = n < 9223372036854775808

-- n more bytes after an accumulator.
from_bytes-take :
    (n acc : ℕ) (bs : List ℕ)
    → All (λ b. b < 256) bs
    → from_bytes acc (take n bs) < (acc + 1) * 256 ^ n
unfolding from_bytes
from_bytes-take zero acc bs h = omega arith
from_bytes-take (suc n) acc [] h = grind (arith, one-le-pow (suc n) 256)
from_bytes-take (suc n) acc (b ∷ bs) h =
    let ih = from_bytes-take n (acc * 256 + b) bs h.1 in
    let bound : (acc * 256 + b + 1) * 256 ^ n ≤ (acc + 1) * 256 * 256 ^ n =
      mul-le-mul_right (256 ^ n) (omega (arith, h.0)) in
    rw (pow-suc 256 n) (omega (arith, ih, bound))

-- Whatever the digest, the key fits the signed 64-bit argument of pg_try_advisory_xact_lock.
pub lock_key-FitsBigint :
    (sha256 : ℕ → List ℕ) (ikey : ℕ)
    → All (λ b. b < 256) (sha256 ikey)
    → FitsBigint (idempotency_lock_key sha256 ikey)
unfolding idempotency_lock_key
lock_key-FitsBigint sha256 ikey h = ground (arith, from_bytes-take 8 0 (sha256 ikey) h)

-- Big-endian reading is injective on lists of bytes of one length.
from_bytes_injective :
    (a b : ℕ) (xs ys : List ℕ)
    → All (λ x. x < 256) xs
    → All (λ y. y < 256) ys
    → length xs ≡ length ys
    → from_bytes a xs ≡ from_bytes b ys
    → (a ≡ b) × (xs ≡ ys)
unfolding from_bytes
from_bytes_injective a b [] [] hx hy l e = (e, refl)
from_bytes_injective a b [] (y ∷ ys) hx hy l e = absurd (omega arith)
from_bytes_injective a b (x ∷ xs) [] hx hy l e = absurd (omega arith)
from_bytes_injective a b (x ∷ xs) (y ∷ ys) hx hy l e =
    let (acc, rest) =
      from_bytes_injective (a * 256 + x) (b * 256 + y) xs ys hx.1 hy.1 (omega arith) e in
    (omega arith, ap₂ ◌∷◌ (omega arith) rest)

All-take : (n : ℕ) (bs : List ℕ) → All (λ b. b < 256) bs → All (λ b. b < 256) (take n bs)
All-take zero bs h = tt
All-take (suc n) [] h = tt
All-take (suc n) (b ∷ bs) h = (h.0, All-take n bs h.1)

length-take_enough : (n : ℕ) (bs : List ℕ) → n ≤ length bs → length (take n bs) ≡ n
length-take_enough zero bs h = refl
length-take_enough (suc n) [] h = absurd (omega arith)
length-take_enough (suc n) (b ∷ bs) h = ap suc (length-take_enough n bs (omega arith))

-- Two values below 2^64 that convert to one signed integer are one value.
signed_injective :
    (v w : ℕ)
    → v < 18446744073709551616
    → w < 18446744073709551616
    → (if ltb 9223372036854775807 v then sub_ℕ v 18446744073709551616 else pos v)
      ≡ (if ltb 9223372036854775807 w then sub_ℕ w 18446744073709551616 else pos w)
    → v ≡ w
unfolding sub_ℕ
signed_injective v w hv hw e = ground arith

-- Two idempotency keys share an advisory lock only if the first eight bytes of their digests agree.
pub lock_key-collision :
    (sha256 : ℕ → List ℕ) (k l : ℕ)
    → All (λ b. b < 256) (sha256 k)
    → All (λ b. b < 256) (sha256 l)
    → 8 ≤ length (sha256 k)
    → 8 ≤ length (sha256 l)
    → idempotency_lock_key sha256 k ≡ idempotency_lock_key sha256 l
    → take 8 (sha256 k) ≡ take 8 (sha256 l)
unfolding idempotency_lock_key
lock_key-collision sha256 k l hk hl nk nl e =
    let bk = from_bytes-take 8 0 (sha256 k) hk in
    let bl = from_bytes-take 8 0 (sha256 l) hl in
    let v = signed_injective _ _ (omega (arith, bk)) (omega (arith, bl)) e in
    (from_bytes_injective 0 0 (take 8 (sha256 k)) (take 8 (sha256 l)) (All-take 8 _ hk)
      (All-take 8 _ hl) (length-take_enough 8 _ nk ∙ sym (length-take_enough 8 _ nl)) v).1
