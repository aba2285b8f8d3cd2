-- ===== src/Tests/Access.antt =====
-- The theorems on refresh tokens and on the circuit breaker.
use phyllonix.Base.{
  ℕ, ◌+◌, ◌≡◌, refl, some, none, [], ◌∷◌, arith, ok, err, http, true, false, in_session, inr,
}
use phyllonix.Auth.Tokens.{AuthDb, DeviceAuthToken, Claims, validate_refresh_and_update_refresh}
use phyllonix.Auth.Rotation.{live_tokens, refresh-one_live, refresh-no_replay}
use phyllonix.Common.Circuit.{CircuitBreaker, half_open, Sound}
use phyllonix.Common.Retries.{
  CallOutcome, raised, unavailable, retry_with_db_circuit, retry_transaction_with_db_circuit,
}
use phyllonix.Common.Probes.{retry-Healthy, transaction-leaks}

abbrev token : DeviceAuthToken
token = record {
  device_session_id = 3;
  user_id = 4;
  token_hash = 11;
  issued_at = 0;
  expires_at = 9000;
  revoked_at = none;
  revoked_by = none;
}

abbrev db : AuthDb
db = record {
  tokens = token ∷ [];
  sessions =
      record {
        id = 3;
        public_id = 33;
        session_token_hash = 5;
        user_id = some 4;
        revoked_at = none;
        session_expires_at = some 9000;
        last_activity_at = 0;
      }
      ∷ [];
  users = record { id = 4; public_id = 44; role_version = 1 } ∷ [];
  roles = record { user_id = 4; role_id = 2 } ∷ [];
  role_names = [];
  credentials = [];
}

abbrev hash_token : ℕ → ℕ
hash_token t = t + 1

abbrev claims : Claims
claims = record { user_public_id = 44; role_version = 1; role_ids = 2 ∷ [] }

refresh_run :
    (in_session
      (validate_refresh_and_update_refresh hash_token (λ t r. r) (λ d. d) 1000 7 20 10)
      db).0
    ≡ ok claims
unfolding validate_refresh_and_update_refresh
refresh_run = refl

refresh-one_live_example :
    live_tokens 3 4
      (in_session
        (validate_refresh_and_update_refresh hash_token (λ t r. r) (λ d. d) 1000 7 20 10)
        db).1.tokens
    ≡ 1
refresh-one_live_example =
    refresh-one_live hash_token (λ t r. r) (λ d. d) 1000 7 20 10 db claims token refl refresh_run

refresh-no_replay_example :
    in_session
      (validate_refresh_and_update_refresh hash_token (λ t r. r) (λ d. d) 1100 7 21 10)
      (in_session
        (validate_refresh_and_update_refresh hash_token (λ t r. r) (λ d. d) 1000 7 20 10)
        db).1
    ≡ (
      err (http 403),
      (in_session
          (validate_refresh_and_update_refresh hash_token (λ t r. r) (λ d. d) 1000 7 20 10)
          db).1,
    )
refresh-no_replay_example =
    refresh-no_replay hash_token (λ t r. r) (λ d. d) (λ d. d) 1000 7 20 1100 21 10 db claims token
      refl refl refresh_run

-- Half-open with its one probe free.
abbrev breaker : CircuitBreaker
breaker = record {
  failure_threshold = 3;
  recovery_timeout = 20;
  half_open_success_threshold = 1;
  state = half_open;
  fail_count = 0;
  opened_at = some 100;
  half_open_success_count = 0;
  probes = 1;
}

abbrev stuck : CircuitBreaker
stuck = record breaker { probes = 0 }

abbrev failing : ℕ → CallOutcome ℕ
failing k = raised 9

breaker-Sound : Sound breaker
breaker-Sound = record { since = λ e. refl; failing = omega arith; succeeding = omega arith }

retry-Healthy_example :
    Sound (retry_with_db_circuit (λ _. true) 3 failing (λ k. 200 + k) breaker).1
    × ((retry_with_db_circuit (λ _. true) 3 failing (λ k. 200 + k) breaker).1.probes ≡ 1)
retry-Healthy_example = retry-Healthy (λ _. true) failing (λ k. 200 + k) 3 breaker breaker-Sound

transaction-leaks_example :
    let left =
      (retry_transaction_with_db_circuit (λ _. false) 3 failing (λ k. 200 + k) breaker).1 in
    (retry_with_db_circuit (λ _. true) 2 failing (λ k. 900 + k) left ≡ (unavailable, left))
    × (retry_transaction_with_db_circuit (λ _. true) 2 failing (λ k. 900 + k) left
        ≡ (unavailable, left))
transaction-leaks_example =
    transaction-leaks (λ _. false) (λ _. true) failing failing (λ k. 200 + k) (λ k. 900 + k) 2 1
      breaker 9 refl refl (inr (refl, refl))
