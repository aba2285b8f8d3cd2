-- ===== src/Common/Retries.antt =====
-- retry_with_db_circuit and retry_transaction_with_db_circuit of backend/common/retries.py. What
-- the wrapped function does on each attempt, the clock and `if_retryable` are parameters; an
-- exception is a number. Delays and the sessions of the transactions keep no state here.
use phyllonix.Base.{
  ℕ, zero, suc, Bool, true, false, not, ◌||◌, Option, none, some, ◌==◌, if◌then◌else◌,
}
use phyllonix.Common.Circuit.{
  CircuitBreaker, half_open, before_call, maybe_transition, record_success, record_failure,
  acquire_half_open_probe, release_half_open_probe,
}

pub data CallOutcome (A : Type 0) : Type 0 where
  returned : A → CallOutcome A
  cancelled : CallOutcome A
  raised : ℕ → CallOutcome A

-- How the wrapper ends; `unavailable` is the HTTPException 503. With no attempt at all it raises
-- None.
pub data Wrapped (A : Type 0) : Type 0 where
  value : A → Wrapped A
  unavailable : Wrapped A
  was_cancelled : Wrapped A
  reraised : ℕ → Wrapped A
  raise_none : Wrapped A

-- The breaker in which an attempt runs and whether it holds a probe.
pub record Entry : Type 0 where
  pub breaker : CircuitBreaker
  pub acquired : Bool

abbrev probe_of : Option CircuitBreaker → Option Entry
probe_of none = none
probe_of (some b) = some (record { breaker = b; acquired = true })

abbrev pub is_half_open : CircuitBreaker → Bool
is_half_open b = elim b.state [ half_open ↦ true | _ ↦ false ]

-- before_call and the probe; none is the 503.
unfoldable pub enter : ℕ → CircuitBreaker → Option Entry
unfolding before_call maybe_transition acquire_half_open_probe
enter now b =
    let b' = maybe_transition now b in
    if before_call now b
    then (if is_half_open b'
        then probe_of (acquire_half_open_probe b')
        else some (record { breaker = b'; acquired = false }))
    else none

-- `if acquired_probe: release_half_open_probe()`
unfoldable pub leave : Entry → CircuitBreaker
unfolding release_half_open_probe
leave e = if e.acquired then release_half_open_probe e.breaker else e.breaker

-- The end of one attempt: the result with the breaker, or the breaker for the next attempt.
pub data Next (A : Type 0) : Type 0 where
  stop : Wrapped A → CircuitBreaker → Next A
  go_on : CircuitBreaker → Next A

module _ {A : Type 0} where
  unfoldable pub after_call : (ℕ → Bool) → ℕ → Bool → Entry → CallOutcome A → Next A
  unfolding leave record_success record_failure
  after_call if_retryable now last e (returned a) = stop (value a) (record_success (leave e))
  after_call if_retryable now last e cancelled = stop was_cancelled (leave e)
  after_call if_retryable now last e (raised x) =
      if not (if_retryable x) || last
      then stop (reraised x) (leave e)
      else go_on (record_failure now (leave e))

  -- In the transaction variant the probe of an attempt that is cancelled or is the last stays taken.
  unfoldable pub after_transaction : (ℕ → Bool) → ℕ → Bool → Entry → CallOutcome A → Next A
  unfolding leave record_success record_failure
  after_transaction if_retryable now last e (returned a) = stop (value a) (record_success (leave e))
  after_transaction if_retryable now last e cancelled = stop was_cancelled e.breaker
  after_transaction if_retryable now last e (raised x) =
      if not (if_retryable x) || last
      then stop (reraised x) e.breaker
      else go_on (record_failure now (leave e))

  module _ (after : ℕ → Bool → Entry → CallOutcome A → Next A) (fn : ℕ → CallOutcome A)
      (clock : ℕ → ℕ) where
    -- The attempt `k` with `left` more after it, given how the breaker let it in.
    abbrev pub one_attempt : ℕ → Bool → CircuitBreaker → Option Entry → Next A
    one_attempt k last b none = stop unavailable (maybe_transition (clock k) b)
    one_attempt k last b (some e) = after (clock k) last e (fn k)

    unfoldable pub attempts_from : ℕ → ℕ → CircuitBreaker → Wrapped A × CircuitBreaker
    unfolding enter
    attempts_from zero k b = (raise_none, b)
    attempts_from (suc left) k b =
        elim (one_attempt (suc k) (left == 0) b (enter (clock (suc k)) b)) [
          | stop r b' ↦ (r, b')
          | go_on b' ↦ attempts_from left (suc k) b'
        ]

  unfoldable pub retry_with_db_circuit :
      (ℕ → Bool) → ℕ → (ℕ → CallOutcome A) → (ℕ → ℕ) → CircuitBreaker → Wrapped A × CircuitBreaker
  unfolding attempts_from after_call
  retry_with_db_circuit if_retryable attempts fn clock b =
      attempts_from (after_call if_retryable) fn clock attempts 0 b

  unfoldable pub retry_transaction_with_db_circuit :
      (ℕ → Bool) → ℕ → (ℕ → CallOutcome A) → (ℕ → ℕ) → CircuitBreaker → Wrapped A × CircuitBreaker
  unfolding attempts_from after_transaction
  retry_transaction_with_db_circuit if_retryable attempts fn clock b =
      attempts_from (after_transaction if_retryable) fn clock attempts 0 b
