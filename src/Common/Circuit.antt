-- ===== src/Common/Circuit.antt =====
-- CircuitBreaker of backend/common/circuit_breaker.py. Times are natural numbers of one unit. The
-- semaphore is its number of free permits; a caller that finds none is taken to run into its
-- timeout.
use phyllonix.Base.{
  ℕ, zero, suc, ◌+◌, ◌-◌, ◌<◌, ◌≡◌, Bool, true, false, Option, none, some, leb, max, if◌then◌else◌,
  arith, is_some,
}

pub data CircuitState : Type 0 where
  closed opened half_open : CircuitState

pub record CircuitBreaker : Type 0 where
  pub failure_threshold : ℕ
  pub recovery_timeout : ℕ
  pub half_open_success_threshold : ℕ
  pub state : CircuitState
  pub fail_count : ℕ
  pub opened_at : Option ℕ
  pub half_open_success_count : ℕ
  pub probes : ℕ

-- __init__
unfoldable pub new_breaker : ℕ → ℕ → ℕ → ℕ → CircuitBreaker
new_breaker failure_threshold recovery_timeout half_open_success_threshold max_probes = record {
  failure_threshold = max 1 failure_threshold;
  recovery_timeout = recovery_timeout;
  half_open_success_threshold = max 1 half_open_success_threshold;
  state = closed;
  fail_count = 0;
  opened_at = none;
  half_open_success_count = 0;
  probes = max_probes;
}

-- `monotonic() - opened_at >= recovery_timeout`; the clock never runs back
abbrev recovered : ℕ → CircuitBreaker → Bool
recovered now b = elim b.opened_at [ none ↦ false | some t ↦ leb b.recovery_timeout (now - t) ]

unfoldable pub maybe_transition : ℕ → CircuitBreaker → CircuitBreaker
maybe_transition now b = elim b.state [
  | opened ↦
      if recovered now b then record b { state = half_open; half_open_success_count = 0 } else b
  | _ ↦ b
]

-- The breaker after the call, and whether it let the call through.
unfoldable pub before_call : ℕ → CircuitBreaker → Bool
unfolding maybe_transition
before_call now b = elim (maybe_transition now b).state [ opened ↦ false | _ ↦ true ]

unfoldable pub record_success : CircuitBreaker → CircuitBreaker
record_success b = elim b.state [
  | closed ↦ record b { fail_count = 0 }
  | opened ↦ b
  | half_open ↦
      if leb b.half_open_success_threshold (b.half_open_success_count + 1)
      then record b {
        state = closed;
        fail_count = 0;
        opened_at = none;
        half_open_success_count = 0;
      }
      else record b { half_open_success_count = b.half_open_success_count + 1 }
]

unfoldable pub record_failure : ℕ → CircuitBreaker → CircuitBreaker
record_failure now b = elim b.state [
  | half_open ↦ record b {
    state = opened;
    opened_at = some now;
    fail_count = 0;
    half_open_success_count = 0;
  }
  | closed ↦
      if leb b.failure_threshold (b.fail_count + 1)
      then record b { state = opened; opened_at = some now; fail_count = 0 }
      else record b { fail_count = b.fail_count + 1 }
  | opened ↦ b
]

-- A free permit, if there is one.
unfoldable pub acquire_half_open_probe : CircuitBreaker → Option CircuitBreaker
acquire_half_open_probe b = elim b.probes [ zero ↦ none | suc n ↦ some (record b { probes = n }) ]

unfoldable pub release_half_open_probe : CircuitBreaker → CircuitBreaker
release_half_open_probe b = record b { probes = b.probes + 1 }

-- An open breaker knows since when, and no count has reached its threshold.
pub record Sound (b : CircuitBreaker) : Type 0 where
  pub since : b.state ≡ opened → is_some b.opened_at ≡ true
  pub failing : b.fail_count < b.failure_threshold
  pub succeeding : b.half_open_success_count < b.half_open_success_threshold

pub new_breaker-Sound : (f r h p : ℕ) → Sound (new_breaker f r h p)
unfolding new_breaker
new_breaker-Sound f r h p = record {
  since = λ e. cc e;
  failing = omega arith;
  succeeding = omega arith;
}

pub maybe_transition-Sound :
    (now : ℕ) (b : CircuitBreaker) → Sound b → Sound (maybe_transition now b)
unfolding maybe_transition
maybe_transition-Sound now b s =
    let x = s.since in
    let y = s.failing in
    let z = s.succeeding in
    record { since = ground arith; failing = ground arith; succeeding = ground arith }

pub record_success-Sound : (b : CircuitBreaker) → Sound b → Sound (record_success b)
unfolding record_success
record_success-Sound b s =
    let x = s.since in
    let y = s.failing in
    let z = s.succeeding in
    record { since = ground arith; failing = ground arith; succeeding = ground arith }

pub record_failure-Sound : (now : ℕ) (b : CircuitBreaker) → Sound b → Sound (record_failure now b)
unfolding record_failure
record_failure-Sound now b s =
    let x = s.since in
    let y = s.failing in
    let z = s.succeeding in
    record { since = ground arith; failing = ground arith; succeeding = ground arith }
