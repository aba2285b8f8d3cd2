-- ===== src/Base/Outcome.antt =====
-- What a handler ends in, and a database session: the work of the open transaction beside what is
-- committed. A session that closes with no commit leaves the committed tables as they were.
use Prim.Native.Nat.{ℕ}
use mathlib.Core.Path.{◌≡◌, refl, ap}
use mathlib.Core.Logic.{◌⊎◌, inl, inr}
use mathlib.Core.Bool.{Bool, true, false}
use mathlib.Core.Option.{Option, none, some}

-- `http n` is an HTTPException with status n; `crash` is any other exception that escapes.
pub data Error : Type 0 where
  http : ℕ → Error
  crash : Error

pub data Result (A : Type 0) : Type 0 where
  ok : A → Result A
  err : Error → Result A

pub Result-cases :
    {A : Type 0} (r : Result A) → ((a : A) × (r ≡ ok a)) ⊎ ((e : Error) × (r ≡ err e))
Result-cases (ok a) = inl (a, refl)
Result-cases (err e) = inr (e, refl)

pub record Session (D : Type 0) : Type 0 where
  pub work : D
  pub committed : D

abbrev pub Action : Type 0 → Type 0 → Type 0
Action D A = Session D → Result A × Session D

module _ {D A : Type 0} where
  abbrev pub pure : A → Action D A
  pure a s = (ok a, s)

  abbrev pub raise : Error → Action D A
  raise e s = (err e, s)

  -- a query
  abbrev pub gets : (D → A) → Action D A
  gets f s = (ok (f s.work), s)

  abbrev pub or_raise : Option A → Error → Action D A
  or_raise none e = raise e
  or_raise (some a) e = pure a

  -- A request runs in a fresh session; what was not committed when it ends is dropped.
  abbrev pub in_session : Action D A → D → Result A × D
  in_session m d = let (r, s) = m (record { work = d; committed = d }) in (r, s.committed)

infixl 5 ◌>>=◌ ◌>>◌
abbrev pub ◌>>=◌ : {D A B : Type 0} → Action D A → (A → Action D B) → Action D B
◌>>=◌ m f s = let (r, s') = m s in elim r [ ok a ↦ f a s' | err e ↦ raise e s' ]

abbrev pub ◌>>◌ : {D A B : Type 0} → Action D A → Action D B → Action D B
m >> k = m >>= λ _. k

module _ {D : Type 0} where
  abbrev pub raise_if : Bool → Error → Action D (Unit {0})
  raise_if true e = raise e
  raise_if false e = pure tt

  -- a statement that writes
  abbrev pub modify : (D → D) → Action D (Unit {0})
  modify f s = (ok tt, record s { work = f s.work })

  abbrev pub commit : Action D (Unit {0})
  commit s = (ok tt, record s { committed = s.work })

  abbrev pub rollback : Action D (Unit {0})
  rollback s = (ok tt, record s { work = s.committed })

-- A predicate on sessions that an action preserves, however it ends.
abbrev pub Keeps : {D A : Type 0} → (Session D → Type 0) → Action D A → Type 0
Keeps {D} P m = (s : Session D) → P s → P (m s).1

Keeps-rest :
    {D A B : Type 0} (P : Session D → Type 0) (f : A → Action D B) (r : Result A) (s : Session D)
    → P s
    → ((a : A) → Keeps P (f a))
    → P (elim r as (λ _. Result B × Session D) [ ok a ↦ f a s | err e ↦ raise e s ]).1
Keeps-rest P f (ok a) s h hf = hf a s h
Keeps-rest P f (err e) s h hf = h

pub Keeps->>= :
    {D A B : Type 0} (P : Session D → Type 0) (m : Action D A) (f : A → Action D B)
    → Keeps P m
    → ((a : A) → Keeps P (f a))
    → Keeps P (m >>= f)
Keeps->>= P m f hm hf s h = Keeps-rest P f (m s).0 (m s).1 (hm s h) hf

-- After an action that returned, the rest runs on its result.
pub run->>= :
    {D A B : Type 0} (m : Action D A) (f : A → Action D B) (s : Session D) (a : A)
    → (m s).0 ≡ ok a
    → (m >>= f) s ≡ f a (m s).1
run->>= {D} {A} {B} m f s a h =
    ap
      (λ (r : Result A). elim r as (λ _. Result B × Session D) [
        | ok x ↦ f x (m s).1
        | err e ↦ raise e (m s).1
      ])
      h

pub raise_if-Keeps :
    {D : Type 0} (P : Session D → Type 0) (b : Bool) (e : Error) → Keeps P (raise_if b e)
raise_if-Keeps P true e s h = h
raise_if-Keeps P false e s h = h

pub or_raise-Keeps :
    {D A : Type 0} (P : Session D → Type 0) (o : Option A) (e : Error) → Keeps P (or_raise o e)
or_raise-Keeps P none e s h = h
or_raise-Keeps P (some a) e s h = h

-- From P, an action that returns leaves Q.
abbrev pub Ends : {D A : Type 0} → (Session D → Type 0) → Action D A → (Session D → Type 0) → Type 0
Ends {D} {A} P m Q = (s : Session D) (a : A) → P s → (m s).0 ≡ ok a → Q (m s).1

Ends-rest :
    {D A B : Type 0} (P Q : Session D → Type 0) (f : A → Action D B) (r : Result A) (s : Session D)
    (b : B)
    → ((a : A) → r ≡ ok a → P s)
    → ((a : A) → Ends P (f a) Q)
    → (elim r as (λ _. Result B × Session D) [ ok a ↦ f a s | err e ↦ raise e s ]).0 ≡ ok b
    → Q (elim r as (λ _. Result B × Session D) [ ok a ↦ f a s | err e ↦ raise e s ]).1
Ends-rest P Q f (ok a) s b h hf k = hf a s b (h a refl) k
Ends-rest P Q f (err e) s b h hf k = absurd (cc)

pub Ends->>= :
    {D A B : Type 0} (P Q R : Session D → Type 0) (m : Action D A) (f : A → Action D B)
    → Ends P m Q
    → ((a : A) → Ends Q (f a) R)
    → Ends P (m >>= f) R
Ends->>= P Q R m f hm hf s b h k = Ends-rest Q R f (m s).0 (m s).1 b (λ a. hm s a h) hf k

-- The first action need not return: it keeps what the rest starts from.
pub Ends-keep :
    {D A B : Type 0} (P R : Session D → Type 0) (m : Action D A) (f : A → Action D B)
    → Keeps P m
    → ((a : A) → Ends P (f a) R)
    → Ends P (m >>= f) R
Ends-keep P R m f hm hf = Ends->>= P P R m f (λ s a h e. hm s h) hf
