-- ===== src/Common/Probes.antt =====
-- The retries give back their probes; the transaction variant can lose one for good.
use phyllonix.Base.{
  ◌||◌, ◌∙◌, Bool-cases, Option-cases, ℕ, zero, suc, ◌≡◌, refl, Bool, true, not, none, some, arith,
  ◌==◌, inl, inr, ◌⊎◌,
}
use phyllonix.Common.Circuit.{
  CircuitBreaker, half_open, before_call, maybe_transition, record_success, record_failure,
  acquire_half_open_probe, release_half_open_probe, Sound, maybe_transition-Sound,
  record_success-Sound, record_failure-Sound,
}
use phyllonix.Common.Retries.{
  returned, CallOutcome, raised, cancelled, Wrapped, unavailable, Entry, enter, leave, Next, stop,
  go_on, after_call, after_transaction, one_attempt, attempts_from, retry_with_db_circuit,
  retry_transaction_with_db_circuit,
}

enter-probes :
    (now : ℕ) (b : CircuitBreaker) (e : Entry) → enter now b ≡ some e → (leave e).probes ≡ b.probes
unfolding enter before_call maybe_transition acquire_half_open_probe leave release_half_open_probe
enter-probes now b e h = ground arith

enter-Sound :
    (now : ℕ) (b : CircuitBreaker) (e : Entry) → Sound b → enter now b ≡ some e → Sound (leave e)
unfolding enter before_call maybe_transition acquire_half_open_probe leave release_half_open_probe
enter-Sound now b e s h =
    let x = s.since in
    let y = s.failing in
    let z = s.succeeding in
    record { since = ground arith; failing = ground arith; succeeding = ground arith }

-- A breaker that is sound and has as many free probes as another one.
abbrev Healthy : ℕ → CircuitBreaker → Type 0
Healthy n b = Sound b × (b.probes ≡ n)

abbrev HealthyNext : {A : Type 0} → ℕ → Next A → Type 0
HealthyNext n (stop r b) = Healthy n b
HealthyNext n (go_on b) = Healthy n b

record_success-probes : (b : CircuitBreaker) → (record_success b).probes ≡ b.probes
unfolding record_success
record_success-probes b = ground arith

record_failure-probes : (now : ℕ) (b : CircuitBreaker) → (record_failure now b).probes ≡ b.probes
unfolding record_failure
record_failure-probes now b = ground arith

maybe_transition-probes :
    (now : ℕ) (b : CircuitBreaker) → (maybe_transition now b).probes ≡ b.probes
unfolding maybe_transition
maybe_transition-probes now b = ground arith

module _ {A : Type 0} (if_retryable : ℕ → Bool) where
  after_call-Healthy :
      (n now : ℕ) (last : Bool) (e : Entry) (o : CallOutcome A)
      → Healthy n (leave e)
      → HealthyNext n (after_call if_retryable now last e o)
  unfolding after_call
  after_call-Healthy n now last e (returned a) h =
      (record_success-Sound (leave e) h.0, record_success-probes (leave e) ∙ h.1)
  after_call-Healthy n now last e cancelled h = h
  after_call-Healthy n now last e (raised x) h = elim (Bool-cases (not (if_retryable x) || last)) [
    | inl final ↦ rw final h
    | inr again ↦
        rw again (record_failure-Sound now (leave e) h.0, record_failure-probes now (leave e) ∙ h.1)
  ]

  module _ (fn : ℕ → CallOutcome A) (clock : ℕ → ℕ) where
    one_attempt-Healthy :
        (n k : ℕ) (last : Bool) (b : CircuitBreaker)
        → Healthy n b
        → HealthyNext n
            (one_attempt (after_call if_retryable) fn clock k last b (enter (clock k) b))
    one_attempt-Healthy n k last b h = elim (Option-cases (enter (clock k) b)) [
      | inl refused ↦
          rw refused
            (maybe_transition-Sound (clock k) b h.0, maybe_transition-probes (clock k) b ∙ h.1)
      | inr (e, entered) ↦ rw entered (
          after_call-Healthy n (clock k) last e (fn k)
            (enter-Sound (clock k) b e h.0 entered, enter-probes (clock k) b e entered ∙ h.1))
    ]

    Next-cases :
        (x : Next A)
        → ((r : Wrapped A) × (b : CircuitBreaker) × (x ≡ stop r b))
          ⊎ ((b : CircuitBreaker) × (x ≡ go_on b))
    Next-cases (stop r b) = inl (r, b, refl)
    Next-cases (go_on b) = inr (b, refl)

    attempts-Healthy :
        (n left k : ℕ) (b : CircuitBreaker)
        → Healthy n b
        → Healthy n (attempts_from (after_call if_retryable) fn clock left k b).1
    unfolding attempts_from
    attempts-Healthy n zero k b h = h
    attempts-Healthy n (suc left) k b h =
        let step =
          one_attempt (after_call if_retryable) fn clock (suc k) (left == 0) b
            (enter (clock (suc k)) b) in
        let hs = one_attempt-Healthy n (suc k) (left == 0) b h in
        elim (Next-cases step) [
          | inl (r, b', e) ↦ rw (e, attempts_from) (rw e at hs)
          | inr (b', e) ↦ rw (e, attempts_from) (attempts-Healthy n left (suc k) b' (rw e at hs))
        ]

    -- However a wrapped call ends, the breaker stays sound and every probe that was taken is
    -- given back.
    pub retry-Healthy :
        (attempts : ℕ) (b : CircuitBreaker)
        → Sound b
        → Sound (retry_with_db_circuit if_retryable attempts fn clock b).1
          × ((retry_with_db_circuit if_retryable attempts fn clock b).1.probes ≡ b.probes)
    unfolding retry_with_db_circuit
    retry-Healthy attempts b s = attempts-Healthy b.probes attempts 0 b (s, refl)

    enter-stuck :
        (now : ℕ) (b : CircuitBreaker) → b.state ≡ half_open → b.probes ≡ 0 → enter now b ≡ none
    unfolding enter before_call maybe_transition acquire_half_open_probe
    enter-stuck now b h p = ground arith

    keep-stuck : (now : ℕ) (b : CircuitBreaker) → b.state ≡ half_open → maybe_transition now b ≡ b
    unfolding maybe_transition
    keep-stuck now b h = rw h

    -- A half-open breaker without a free probe answers every call of either wrapper with 503, at any
    -- time and without running it, and stays as it is.
    pub half_open-stuck :
        (attempts : ℕ) (b : CircuitBreaker)
        → b.state ≡ half_open
        → b.probes ≡ 0
        → (retry_with_db_circuit if_retryable (suc attempts) fn clock b ≡ (unavailable, b))
          × (retry_transaction_with_db_circuit if_retryable (suc attempts) fn clock b
              ≡ (unavailable, b))
    unfolding retry_with_db_circuit retry_transaction_with_db_circuit attempts_from
    half_open-stuck attempts b h p =
        ground (arith, enter-stuck (clock 1) b h p, keep-stuck (clock 1) b h)

    transaction-stuck :
        (attempts : ℕ) (b : CircuitBreaker) (x : ℕ)
        → b.state ≡ half_open
        → b.probes ≡ 1
        → (fn 1 ≡ cancelled)
          ⊎ ((fn 1 ≡ raised x) × (not (if_retryable x) || (attempts == 0) ≡ true))
        → ((retry_transaction_with_db_circuit if_retryable (suc attempts) fn clock b).1.state
            ≡ half_open)
          × ((retry_transaction_with_db_circuit if_retryable (suc attempts) fn clock b).1.probes
              ≡ 0)
    unfolding retry_transaction_with_db_circuit attempts_from enter before_call maybe_transition
        acquire_half_open_probe after_transaction
    transaction-stuck attempts b x h p f = ground arith

-- A transaction in a half-open breaker with one probe that is cancelled on its first attempt, or
-- that raises there what is not retried, be it for its kind or because one attempt was all,
-- leaves the breaker half-open with no probe: every later call of either wrapper, whatever it
-- would run and whenever it comes, is answered 503 without running it, and leaves the breaker as
-- it is.
pub transaction-leaks :
    {A B : Type 0} (if_retryable again : ℕ → Bool) (fn : ℕ → CallOutcome A)
    (later : ℕ → CallOutcome B) (clock hours : ℕ → ℕ) (attempts others : ℕ) (b : CircuitBreaker)
    (x : ℕ)
    → b.state ≡ half_open
    → b.probes ≡ 1
    → (fn 1 ≡ cancelled) ⊎ ((fn 1 ≡ raised x) × (not (if_retryable x) || (attempts == 0) ≡ true))
    → let left = (retry_transaction_with_db_circuit if_retryable (suc attempts) fn clock b).1 in
      (retry_with_db_circuit again (suc others) later hours left ≡ (unavailable, left))
      × (retry_transaction_with_db_circuit again (suc others) later hours left
          ≡ (unavailable, left))
transaction-leaks if_retryable again fn later clock hours attempts others b x h p f =
    let (half, empty) = transaction-stuck if_retryable fn clock attempts b x h p f in
    half_open-stuck again later hours others _ half empty
