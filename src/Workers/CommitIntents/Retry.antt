-- ===== src/Workers/CommitIntents/Retry.antt =====
-- What a failing run of the commit intent handler leaves of the intent.
use phyllonix.Base.{
  ℕ, ◌+◌, ◌≤◌, ◌<◌, ◌≡◌, refl, ◌⊎◌, inl, inr, none, some, List, arith, find_where, update_where,
  leb, find_where-update_where, find_where-holds, find_where-narrow, ◌∙◌, false, Bool-cases,
}
use phyllonix.Schema.{CommitIntent, pending, failed}
use phyllonix.Orders.Shop.{Shop}
use phyllonix.Workers.CommitIntents.{
  intent_is, is_pending, started, mark_processing, take_items, without_errors, after_failure,
  finish, run_intent, order_confirm_commitintent_handler, max_attempts,
}

-- An intent that may be tried again, at the latest in an hour, or that failed for good.
abbrev pub Postponed : ℕ → CommitIntent → CommitIntent → Type 0
Postponed now c c' =
    ((c.attempts < 3)
      × (c'.status ≡ pending)
      × (c'.attempts ≡ c.attempts + 2)
      × ((at : ℕ) × (c'.next_retry_at ≡ some at) × (at ≤ now + 3600)))
    ⊎ ((3 ≤ c.attempts) × (c'.status ≡ failed))

failure-Postponed : (now : ℕ) (c : CommitIntent) → Postponed now c (after_failure now (started c))
unfolding after_failure
failure-Postponed now c = elim (Bool-cases (leb max_attempts (c.attempts + 1 + 1))) [
  | inl final ↦ rw final (inr (ground arith, refl))
  | inr more ↦ rw more (inl (ground arith, refl, omega arith, (_, refl, omega arith)))
]

pending_found :
    (ci_id : ℕ) (cs : List CommitIntent) (c : CommitIntent)
    → find_where (intent_is ci_id) cs ≡ some c
    → c.status ≡ pending
    → find_where (is_pending ci_id) cs ≡ some c
pending_found ci_id cs c h e =
    let t = find_where-holds (intent_is ci_id) cs c h in
    find_where-narrow (is_pending ci_id) (intent_is ci_id) cs c (λ x p. ground arith) h
      (ground arith)

updated_found :
    (ci_id : ℕ) (f : CommitIntent → CommitIntent) (cs : List CommitIntent) (c : CommitIntent)
    → ((x : CommitIntent) → intent_is ci_id (f x) ≡ intent_is ci_id x)
    → find_where (intent_is ci_id) cs ≡ some c
    → find_where (intent_is ci_id) (update_where (intent_is ci_id) f cs) ≡ some (f c)
updated_found ci_id f cs c keep h =
    find_where-update_where (intent_is ci_id) (intent_is ci_id) f cs c keep h
    ∙ rw (find_where-holds (intent_is ci_id) cs c h)

after_failure-id : (now : ℕ) (c : CommitIntent) → (after_failure now c).id ≡ c.id
unfolding after_failure
after_failure-id now c = ground arith

-- A run on a pending intent whose items cannot all be taken leaves the stock, and the intent is
-- either pending again with two more attempts, to be tried within the hour, or failed, which it
-- is exactly when it had three attempts or more.
pub handler-Postponed :
    (now ci_id : ℕ) (c : CommitIntent) (d : Shop)
    → find_where (intent_is ci_id) d.intents ≡ some c
    → c.status ≡ pending
    → without_errors (take_items c.payload d.products false) ≡ none
    → ((order_confirm_commitintent_handler now (some ci_id) d).products ≡ d.products)
      × ((c' : CommitIntent) × (find_where
              (intent_is ci_id)
              (order_confirm_commitintent_handler now (some ci_id) d).intents
            ≡ some c')
          × Postponed now c c')
unfolding order_confirm_commitintent_handler run_intent finish mark_processing
handler-Postponed now ci_id c d h e failing =
    rw (pending_found ci_id d.intents c h e, failing)
      (
        refl,
        (
          after_failure now (started c),
          updated_found ci_id (after_failure now) (update_where (intent_is ci_id) started d.intents)
              (started c) (λ x. rw (after_failure-id now x))
              (updated_found ci_id started d.intents c (λ _. refl) h),
          failure-Postponed now c,
        ),
      )
