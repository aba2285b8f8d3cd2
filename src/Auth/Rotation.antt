-- ===== src/Auth/Rotation.antt =====
-- What rotation ensures: one live token per session, and no second use of a token.
use mathlib.Core.Path.{subst}
use phyllonix.Base.{
  sym, Session, Option-cases, ◌≢◌, ℕ, ◌≡◌, refl, inl, inr, true, none, some, List, [], ◌∷◌, ◌++◌,
  arith, find_where, update_where, sum_where, sum_where-append, in_session, ok, err, http, is_some,
  find_where-update_where, find_where-append_some, find_where-holds,
}
use phyllonix.Auth.Tokens.{
  claims_of, is_session_of, AuthDb, DeviceAuthToken, DeviceSession, Claims, RevokedBy, rotation,
  is_live, revoked, new_token, has_hash, save_refresh_token, get_device_auth, check_token,
  get_device_session_fields, wait_for_lock, check_session, check_locked, rotate,
  validate_refresh_and_update_refresh, update_device_session_last_activity, fetch_user_claims,
  revoke_device_and_tokens,
}

-- How many tokens of the device session and the user are not revoked.
abbrev pub live_tokens : ℕ → ℕ → List DeviceAuthToken → ℕ
live_tokens ds_id user = sum_where (is_live ds_id user) (λ _. 1)

none_live :
    (now ds_id user : ℕ) (by : RevokedBy) (ts : List DeviceAuthToken)
    → live_tokens ds_id user (update_where (is_live ds_id user) (revoked now by) ts) ≡ 0
none_live now ds_id user by [] = refl
none_live now ds_id user by (t ∷ ts) = ground (arith, none_live now ds_id user by ts)

one_live :
    (now days ds_id user hash : ℕ) (by : RevokedBy) (ts : List DeviceAuthToken)
    → live_tokens ds_id user (
        update_where (is_live ds_id user) (revoked now by) ts
        ++ new_token now days ds_id user hash ∷ [])
      ≡ 1
one_live now days ds_id user hash by ts = ground (
  arith,
  none_live now ds_id user by ts,
  sum_where-append (is_live ds_id user) (λ _. 1)
      (update_where (is_live ds_id user) (revoked now by) ts)
      (new_token now days ds_id user hash ∷ []),
)

rotate-one_live :
    (hash_token : ℕ → ℕ) (now days plain : ℕ) (t : DeviceAuthToken) (ds : DeviceSession)
    (s : Session AuthDb)
    → live_tokens ds.id t.user_id (rotate hash_token now days plain t ds s).1.committed.tokens ≡ 1
unfolding rotate save_refresh_token update_device_session_last_activity fetch_user_claims claims_of
rotate-one_live hash_token now days plain t ds s =
    ground (arith, one_live now days ds.id t.user_id (hash_token plain) rotation s.work.tokens)

-- A refresh that succeeds ran the rotation, from some session, for the session of the token.
success-rotate :
    (hash_token : ℕ → ℕ) (reread : DeviceAuthToken → DeviceAuthToken → DeviceAuthToken)
    (others : AuthDb → AuthDb) (now days plain plain_token : ℕ) (d : AuthDb) (c : Claims)
    (t : DeviceAuthToken) (ds : DeviceSession)
    → find_where (has_hash (hash_token plain_token)) d.tokens ≡ some t
    → find_where (is_session_of t.device_session_id t.user_id) (others d).sessions ≡ some ds
    → (in_session
        (validate_refresh_and_update_refresh hash_token reread others now days plain plain_token)
        d).0
      ≡ ok c
    → (in_session
        (validate_refresh_and_update_refresh hash_token reread others now days plain plain_token)
        d).1
      ≡ (rotate hash_token now days plain t ds
          (record { work = others d; committed = others d })).1.committed
unfolding validate_refresh_and_update_refresh get_device_auth check_token get_device_session_fields
    wait_for_lock check_session check_locked revoke_device_and_tokens
success-rotate hash_token reread others now days plain plain_token d c t ds h hs e = ground arith

no_session :
    (hash_token : ℕ → ℕ) (reread : DeviceAuthToken → DeviceAuthToken → DeviceAuthToken)
    (others : AuthDb → AuthDb) (now days plain plain_token : ℕ) (d : AuthDb) (c : Claims)
    (t : DeviceAuthToken)
    → find_where (has_hash (hash_token plain_token)) d.tokens ≡ some t
    → find_where (is_session_of t.device_session_id t.user_id) (others d).sessions ≡ none
    → (in_session
        (validate_refresh_and_update_refresh hash_token reread others now days plain plain_token)
        d).0
      ≢ ok c
unfolding validate_refresh_and_update_refresh get_device_auth check_token get_device_session_fields
    wait_for_lock
no_session hash_token reread others now days plain plain_token d c t h hs e = ground arith

session_id :
    (ds_id user : ℕ) (ss : List DeviceSession) (ds : DeviceSession)
    → find_where (is_session_of ds_id user) ss ≡ some ds
    → ds.id ≡ ds_id
session_id ds_id user ss ds h =
    let both = find_where-holds (is_session_of ds_id user) ss ds h in ground arith

one_live_at :
    (ds_id id user : ℕ) (ts : List DeviceAuthToken)
    → id ≡ ds_id
    → live_tokens id user ts ≡ 1
    → live_tokens ds_id user ts ≡ 1
one_live_at ds_id id user ts e h = subst (λ i. live_tokens i user ts ≡ 1) e h

-- A refresh that succeeds leaves exactly one token that is not revoked for its device session and
-- user, however many there were and whatever other requests committed meanwhile.
pub refresh-one_live :
    (hash_token : ℕ → ℕ) (reread : DeviceAuthToken → DeviceAuthToken → DeviceAuthToken)
    (others : AuthDb → AuthDb) (now days plain plain_token : ℕ) (d : AuthDb) (c : Claims)
    (t : DeviceAuthToken)
    → find_where (has_hash (hash_token plain_token)) d.tokens ≡ some t
    → (in_session
        (validate_refresh_and_update_refresh hash_token reread others now days plain plain_token)
        d).0
      ≡ ok c
    → live_tokens t.device_session_id t.user_id
        (in_session
          (validate_refresh_and_update_refresh hash_token reread others now days plain plain_token)
          d).1.tokens
      ≡ 1
refresh-one_live hash_token reread others now days plain plain_token d c t h e =
    elim (Option-cases
      (find_where (is_session_of t.device_session_id t.user_id) (others d).sessions)) [
        | inl missing ↦
            absurd
              (no_session hash_token reread others now days plain plain_token d c t h missing e)
        | inr (ds, hs) ↦
            rw (success-rotate hash_token reread others now days plain plain_token d c t ds h hs e)
              (one_live_at t.device_session_id ds.id t.user_id _
                (session_id t.device_session_id t.user_id (others d).sessions ds hs)
                (rotate-one_live hash_token now days plain t ds
                  (record { work = others d; committed = others d })))
      ]

-- A token that is revoked, for whatever reason, is refused and nothing changes.
pub refresh-revoked :
    (hash_token : ℕ → ℕ) (reread : DeviceAuthToken → DeviceAuthToken → DeviceAuthToken)
    (others : AuthDb → AuthDb) (now days plain plain_token : ℕ) (d : AuthDb) (t : DeviceAuthToken)
    → find_where (has_hash (hash_token plain_token)) d.tokens ≡ some t
    → is_some t.revoked_at ≡ true
    → in_session
        (validate_refresh_and_update_refresh hash_token reread others now days plain plain_token)
        d
      ≡ (err (http 403), d)
unfolding validate_refresh_and_update_refresh get_device_auth check_token
refresh-revoked hash_token reread others now days plain plain_token d t h r = ground arith

rotate-tokens :
    (hash_token : ℕ → ℕ) (now days plain : ℕ) (t : DeviceAuthToken) (ds : DeviceSession)
    (s : Session AuthDb)
    → (rotate hash_token now days plain t ds s).1.committed.tokens
      ≡ update_where (is_live ds.id t.user_id) (revoked now rotation) s.work.tokens
        ++ new_token now days ds.id t.user_id (hash_token plain) ∷ []
unfolding rotate save_refresh_token update_device_session_last_activity fetch_user_claims claims_of
rotate-tokens hash_token now days plain t ds s = ground arith

-- After the rotation the first token with a hash that was found is revoked.
revoked_after :
    (now days ds_id user hash new : ℕ) (ts : List DeviceAuthToken) (t : DeviceAuthToken)
    → find_where (has_hash hash) ts ≡ some t
    → t.device_session_id ≡ ds_id
    → t.user_id ≡ user
    → (r : DeviceAuthToken) × (find_where (has_hash hash) (
          update_where (is_live ds_id user) (revoked now rotation) ts
          ++ new_token now days ds_id user new ∷ [])
        ≡ some r)
      × (is_some r.revoked_at ≡ true)
revoked_after now days ds_id user hash new ts t h e f = (
  _,
  find_where-append_some (has_hash hash)
      (update_where (is_live ds_id user) (revoked now rotation) ts) _ _
      (find_where-update_where (has_hash hash) (is_live ds_id user) (revoked now rotation) ts t
        (λ _. refl) h),
  ground arith,
)

refresh-revokes :
    (hash_token : ℕ → ℕ) (reread : DeviceAuthToken → DeviceAuthToken → DeviceAuthToken)
    (others : AuthDb → AuthDb) (now days plain plain_token : ℕ) (d : AuthDb) (c : Claims)
    (t : DeviceAuthToken)
    → find_where (has_hash (hash_token plain_token)) d.tokens ≡ some t
    → (others d).tokens ≡ d.tokens
    → (in_session
        (validate_refresh_and_update_refresh hash_token reread others now days plain plain_token)
        d).0
      ≡ ok c
    → (r : DeviceAuthToken) × (find_where
          (has_hash (hash_token plain_token))
          (in_session
            (validate_refresh_and_update_refresh hash_token reread others now days plain
              plain_token)
            d).1.tokens
        ≡ some r)
      × (is_some r.revoked_at ≡ true)
refresh-revokes hash_token reread others now days plain plain_token d c t h quiet e =
    elim (Option-cases
      (find_where (is_session_of t.device_session_id t.user_id) (others d).sessions)) [
        | inl missing ↦
            absurd
              (no_session hash_token reread others now days plain plain_token d c t h missing e)
        | inr (ds, hs) ↦
            rw
              (
                success-rotate hash_token reread others now days plain plain_token d c t ds h hs e,
                rotate-tokens hash_token now days plain t ds
                    (record { work = others d; committed = others d }),
              )
              (revoked_after now days ds.id t.user_id (hash_token plain_token) (hash_token plain)
                (others d).tokens t (rw quiet h)
                (sym (session_id t.device_session_id t.user_id (others d).sessions ds hs)) refl)
      ]

-- After a refresh that succeeds, a second refresh with the same token is refused and changes
-- nothing, if no other request touched the tokens while the first one waited for its locks.
pub refresh-no_replay :
    (hash_token : ℕ → ℕ) (reread : DeviceAuthToken → DeviceAuthToken → DeviceAuthToken)
    (others later : AuthDb → AuthDb) (now days plain now' plain' plain_token : ℕ) (d : AuthDb)
    (c : Claims) (t : DeviceAuthToken)
    → find_where (has_hash (hash_token plain_token)) d.tokens ≡ some t
    → (others d).tokens ≡ d.tokens
    → (in_session
        (validate_refresh_and_update_refresh hash_token reread others now days plain plain_token)
        d).0
      ≡ ok c
    → in_session
        (validate_refresh_and_update_refresh hash_token reread later now' days plain' plain_token)
        (in_session
          (validate_refresh_and_update_refresh hash_token reread others now days plain plain_token)
          d).1
      ≡ (
        err (http 403),
        (in_session
            (validate_refresh_and_update_refresh hash_token reread others now days plain
              plain_token)
            d).1,
      )
refresh-no_replay hash_token reread others later now days plain now' plain' plain_token d c t h
      quiet e =
    let (r, hr, dead) =
      refresh-revokes hash_token reread others now days plain plain_token d c t h quiet e in
    refresh-revoked hash_token reread later now' days plain' plain_token _ r hr dead
