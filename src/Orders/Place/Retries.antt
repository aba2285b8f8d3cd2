-- ===== src/Orders/Place/Retries.antt =====
-- retry_payments tries at most three times and answers with the first definite response.
use phyllonix.Base.{
  ap, ◌∙◌, Bool-cases, ◌==◌, ==_iff, ℕ, zero, suc, ◌+◌, ◌≤◌, ◌<◌, ◌≡◌, refl, inl, inr, ◌⊎◌, Bool,
  true, false, Option, none, some, arith, Session, ok,
}
use phyllonix.Orders.Shop.{Shop}
use phyllonix.Orders.Place.Attempts.{
  PspOutcome, Tried, Step, step_of, again, answered, gave_up, attempt, retry_from, retry_payments,
  record_payment_attempt, update_payment_attempt_resp,
}

-- What the loop returns when it was entered after `idx` tries that may be followed by another.
abbrev pub FirstAnswer : (ℕ → PspOutcome) → ℕ → ℕ → Tried → Type 0
FirstAnswer psp idx last t =
    (idx ≤ t.attempt)
    × (t.attempt ≤ last)
    × ((k : ℕ) → idx < k → k < t.attempt → step_of (psp k) ≡ again)
    × ((id : Option ℕ) → t.resp ≡ some id → step_of (psp t.attempt) ≡ answered id)
    × (t.non_retryable ≡ true → step_of (psp t.attempt) ≡ gave_up)
    × (t.resp ≡ none → t.non_retryable ≡ false → t.attempt ≡ last)

abbrev Reached : (ℕ → PspOutcome) → ℕ → ℕ → ℕ → Bool → Session Shop → Type 0
Reached psp payment_id left idx failed s =
    (t : Tried) × ((retry_from psp payment_id left idx failed s).0 ≡ ok t)
    × FirstAnswer psp idx (idx + left) t

-- One more try that may be followed by another extends what the rest of the loop establishes.
extend :
    (psp : ℕ → PspOutcome) (idx left : ℕ) (t : Tried)
    → step_of (psp (suc idx)) ≡ again
    → FirstAnswer psp (suc idx) (suc idx + left) t
    → FirstAnswer psp idx (idx + suc left) t
extend psp idx left t e (a, b, c, d, f, g) = (
  omega arith,
  omega arith,
  λ k l u. elim (Bool-cases (k == suc idx)) [
    | inl here ↦ rw ((==_iff k (suc idx)).0 here) e
    | inr later ↦ c k (ground arith) u
  ],
  d,
  f,
  λ n r. omega (arith, g n r),
)

attempt-run :
    (payment_id idx : ℕ) (o : PspOutcome) (s : Session Shop)
    → (attempt payment_id o idx s).0 ≡ ok (step_of o)
unfolding attempt record_payment_attempt update_payment_attempt_resp
attempt-run payment_id idx o s = refl

Step-cases : (st : Step) → ((id : Option ℕ) × (st ≡ answered id)) ⊎ ((st ≡ gave_up) ⊎ (st ≡ again))
Step-cases (answered id) = inl (id, refl)
Step-cases gave_up = inr (inl refl)
Step-cases again = inr (inr refl)

-- The tries before the last one were followed by another.
none_between :
    (psp : ℕ → PspOutcome) (idx : ℕ) (k : ℕ) → idx < k → k < suc idx → step_of (psp k) ≡ again
none_between psp idx k l u = absurd (omega arith)

again-run :
    (psp : ℕ → PspOutcome) (payment_id left idx : ℕ) (failed : Bool) (s : Session Shop)
    → step_of (psp (suc idx)) ≡ again
    → retry_from psp payment_id (suc left) idx failed s
      ≡ retry_from psp payment_id left
          (suc idx)
          true
          (attempt payment_id (psp (suc idx)) (suc idx) s).1
unfolding retry_from
again-run psp payment_id left idx failed s e =
    ground (arith, attempt-run payment_id (suc idx) (psp (suc idx)) s)

retry_from-FirstAnswer :
    (psp : ℕ → PspOutcome) (payment_id left idx : ℕ) (failed : Bool) (s : Session Shop)
    → Reached psp payment_id left idx failed s
unfolding retry_from attempt record_payment_attempt update_payment_attempt_resp
retry_from-FirstAnswer psp payment_id zero idx failed s = (
  _,
  refl,
  (
    omega arith,
    omega arith,
    λ k l u. absurd (omega arith),
    λ id e. cc e,
    λ e. cc e,
    λ n r. omega arith,
  ),
)
retry_from-FirstAnswer psp payment_id (suc left) idx failed s =
    elim (Step-cases (step_of (psp (suc idx)))) [
      | inl (id, e) ↦ rw e (
        record { resp = some id; non_retryable = false; retryable = false; attempt = suc idx },
        refl,
        (omega arith, omega arith, none_between psp idx, λ i q. cc (q, e), λ q. cc q, λ n r. cc n),
      )
      | inr (inl e) ↦ rw e (
        record { resp = none; non_retryable = true; retryable = failed; attempt = suc idx },
        refl,
        (omega arith, omega arith, none_between psp idx, λ i q. cc q, λ q. e, λ n r. cc r),
      )
      | inr (inr e) ↦
          let s' = (attempt payment_id (psp (suc idx)) (suc idx) s).1 in
          let (t, run, right) = retry_from-FirstAnswer psp payment_id left (suc idx) true s' in
          (
            t,
            ap (λ r. r.0) (again-run psp payment_id left idx failed s e) ∙ run,
            extend psp idx left t e right,
          )
    ]

-- For any provider and payment, retry_payments returns after at most three tries; every try
-- before the last failed in a way that is worth another; a response is the one of the last try,
-- an error that must not be retried too, and with neither all three tries were used.
pub retry_payments-FirstAnswer :
    (psp : ℕ → PspOutcome) (payment_id : ℕ) (s : Session Shop)
    → (t : Tried) × ((retry_payments psp payment_id s).0 ≡ ok t) × FirstAnswer psp 0 3 t
unfolding retry_payments
retry_payments-FirstAnswer psp payment_id s = retry_from-FirstAnswer psp payment_id 3 0 false s
