-- ===== src/Auth/Tokens.antt =====
-- The refresh tokens: save_refresh_token, revoke_all_tokens_per_user, get_device_auth,
-- get_device_session_fields, update_device_session_last_activity, fetch_user_claims and
-- revoke_device_and_tokens of backend/auth/repository.py, and validate_refresh_and_update_refresh of
-- backend/auth/services.py. `hash_token` and the random token are parameters; times are in seconds.
-- `others` is what other requests commit before the row locks are held.
use phyllonix.Base.{
  ℕ, ◌+◌, ◌*◌, Bool, true, false, ◌&&◌, not, Option, none, some, List, [], ◌∷◌, ◌++◌, leb, ◌==◌,
  if◌then◌else◌, is_some, find_where, update_where, Action, http, crash, gets, modify, pure, raise,
  raise_if, or_raise, commit, ok, ◌>>=◌, ◌>>◌,
}

pub data RevokedBy : Type 0 where
  new_login rotation rotated rotated_by_device logout reuse_detection password_change other :
      RevokedBy

pub record DeviceAuthToken : Type 0 where
  pub device_session_id : ℕ
  pub user_id : ℕ
  pub token_hash : ℕ
  pub issued_at : ℕ
  pub expires_at : ℕ
  pub revoked_at : Option ℕ
  pub revoked_by : Option RevokedBy

pub record DeviceSession : Type 0 where
  pub id : ℕ
  pub public_id : ℕ
  pub session_token_hash : ℕ
  pub user_id : Option ℕ
  pub revoked_at : Option ℕ
  pub session_expires_at : Option ℕ
  pub last_activity_at : ℕ

pub record Users : Type 0 where
  pub id : ℕ
  pub public_id : ℕ
  pub role_version : ℕ

pub record UserRole : Type 0 where
  pub user_id : ℕ
  pub role_id : ℕ

pub record Role : Type 0 where
  pub id : ℕ
  pub name : ℕ

-- A credential of type PASSWORD.
pub record Credential : Type 0 where
  pub id : ℕ
  pub user_id : ℕ
  pub password_hash : ℕ
  pub revoked_at : Option ℕ

pub record AuthDb : Type 0 where
  pub tokens : List DeviceAuthToken
  pub sessions : List DeviceSession
  pub users : List Users
  pub roles : List UserRole
  pub role_names : List Role
  pub credentials : List Credential

abbrev pub not_revoked : DeviceAuthToken → Bool
not_revoked t = not (is_some t.revoked_at)

-- A token of the device session and the user that is not revoked.
abbrev pub is_live : ℕ → ℕ → DeviceAuthToken → Bool
is_live ds_id user t = t.device_session_id == ds_id && (t.user_id == user && not_revoked t)

abbrev pub revoked : ℕ → RevokedBy → DeviceAuthToken → DeviceAuthToken
revoked now by t = record t { revoked_at = some now; revoked_by = some by }

unfoldable pub revoke_all_tokens_per_user : ℕ → ℕ → RevokedBy → Action AuthDb (Unit {0})
revoke_all_tokens_per_user now user by = modify (λ d. record d {
  tokens = update_where (λ t. t.user_id == user && not_revoked t) (revoked now by) d.tokens;
})

-- REFRESH_TOKEN_EXPIRE, in days, is a setting.
abbrev pub new_token : ℕ → ℕ → ℕ → ℕ → ℕ → DeviceAuthToken
new_token now days ds_id user hash = record {
  device_session_id = ds_id;
  user_id = user;
  token_hash = hash;
  issued_at = now;
  expires_at = now + days * 86400;
  revoked_at = none;
  revoked_by = none;
}

unfoldable pub save_refresh_token : (ℕ → ℕ) → ℕ → ℕ → ℕ → ℕ → ℕ → RevokedBy → Action AuthDb ℕ
save_refresh_token hash_token now days plain ds_id user by = do
  modify (λ d. record d { tokens = update_where (is_live ds_id user) (revoked now by) d.tokens })
  modify
      (λ d. record d { tokens = d.tokens ++ new_token now days ds_id user (hash_token plain) ∷ [] })
  pure plain

abbrev pub has_hash : ℕ → DeviceAuthToken → Bool
has_hash hash t = t.token_hash == hash

unfoldable pub get_device_auth : ℕ → Action AuthDb (Option DeviceAuthToken)
get_device_auth hash = gets (λ d. find_where (has_hash hash) d.tokens)

abbrev pub is_session_of : ℕ → ℕ → DeviceSession → Bool
is_session_of ds_id user s = s.id == ds_id && elim s.user_id [ none ↦ false | some u ↦ u == user ]

unfoldable pub get_device_session_fields : ℕ → ℕ → Action AuthDb (Option DeviceSession)
get_device_session_fields user ds_id = gets (λ d. find_where (is_session_of ds_id user) d.sessions)

unfoldable pub update_device_session_last_activity : ℕ → ℕ → Action AuthDb (Unit {0})
update_device_session_last_activity ds_id now = modify (λ d. record d {
  sessions =
      update_where (λ (s : DeviceSession). s.id == ds_id) (λ s. record s { last_activity_at = now })
        d.sessions;
})

unfoldable pub revoke_device_and_tokens : ℕ → ℕ → RevokedBy → Action AuthDb (Unit {0})
revoke_device_and_tokens now ds_id by = modify (λ d. record d {
  tokens =
      update_where (λ t. t.device_session_id == ds_id && not_revoked t) (revoked now by) d.tokens;
  sessions =
      update_where (λ (s : DeviceSession). s.id == ds_id) (λ s. record s { revoked_at = some now })
        d.sessions;
})

pub record Claims : Type 0 where
  pub user_public_id : ℕ
  pub role_version : ℕ
  pub role_ids : List ℕ

unfoldable pub role_ids_of : ℕ → List UserRole → List ℕ
role_ids_of user [] = []
role_ids_of user (r ∷ rs) =
    let rest = role_ids_of user rs in if r.user_id == user then r.role_id ∷ rest else rest

-- `rows[0]` of no rows raises: a user that is not there, or has no role.
unfoldable pub claims_of : Option Users → List ℕ → Action AuthDb Claims
claims_of none ids = raise crash
claims_of (some u) [] = raise crash
claims_of (some u) (i ∷ ids) =
    pure
      (record { user_public_id = u.public_id; role_version = u.role_version; role_ids = i ∷ ids })

unfoldable pub fetch_user_claims : ℕ → Action AuthDb Claims
unfolding role_ids_of claims_of
fetch_user_claims user = do
  u ← gets (λ d. find_where (λ (x : Users). x.id == user) d.users)
  ids ← gets (λ d. role_ids_of user d.roles)
  claims_of u ids

-- What others commit becomes visible to the locking reads.
unfoldable pub wait_for_lock : (AuthDb → AuthDb) → Action AuthDb (Unit {0})
wait_for_lock others s = (ok tt, record { work = others s.work; committed = others s.committed })

-- `revoked_by in (None, "rotation", "rotated", "rotated_by_device")`
abbrev pub is_benign : Option RevokedBy → Bool
is_benign none = true
is_benign (some rotation) = true
is_benign (some rotated) = true
is_benign (some rotated_by_device) = true
is_benign (some _) = false

-- The tests on the token before the lock.
unfoldable pub check_token : ℕ → DeviceAuthToken → Action AuthDb (Unit {0})
check_token now t = do
  raise_if (leb t.expires_at (now + 60)) (http 403)
  raise_if (is_some t.revoked_at) (http 403)

unfoldable pub check_session : ℕ → DeviceSession → Action AuthDb (Unit {0})
check_session now s = do
  raise_if (is_some s.revoked_at) (http 401)
  raise_if (elim s.session_expires_at [ none ↦ false | some e ↦ leb e now ]) (http 401)

-- The tests under the lock: a token revoked for another reason than rotation is misuse.
unfoldable pub check_locked : ℕ → ℕ → DeviceAuthToken → Action AuthDb (Unit {0})
unfolding revoke_device_and_tokens
check_locked now ds_id t = do
  (if is_some t.revoked_at && not (is_benign t.revoked_by)
      then (do revoke_device_and_tokens now ds_id reuse_detection; raise (http 403))
      else pure tt)
  raise_if (leb t.expires_at (now + 40)) (http 401)

-- The rotation once every test passed.
unfoldable pub rotate : (ℕ → ℕ) → ℕ → ℕ → ℕ → DeviceAuthToken → DeviceSession → Action AuthDb Claims
unfolding save_refresh_token update_device_session_last_activity fetch_user_claims
rotate hash_token now days plain t ds = do
  _ ← save_refresh_token hash_token now days plain ds.id t.user_id rotation
  update_device_session_last_activity ds.id now
  commit
  fetch_user_claims t.user_id

-- The answer is the claims and the new token, which is `plain`. `reread` is the object that the ORM
-- gives for the locked row, from the one it loaded before and the row.
unfoldable pub validate_refresh_and_update_refresh :
    (ℕ → ℕ)
    → (DeviceAuthToken → DeviceAuthToken → DeviceAuthToken)
    → (AuthDb → AuthDb)
    → ℕ
    → ℕ
    → ℕ
    → ℕ
    → Action AuthDb Claims
unfolding get_device_auth check_token get_device_session_fields wait_for_lock check_session
    check_locked rotate
validate_refresh_and_update_refresh hash_token reread others now days plain plain_token = do
  found ← get_device_auth (hash_token plain_token)
  t ← or_raise found (http 403)
  check_token now t
  wait_for_lock others
  ds_row ← get_device_session_fields t.user_id t.device_session_id
  ds ← or_raise ds_row (http 401)
  check_session now ds
  again ← get_device_auth (hash_token plain_token)
  locked ← or_raise again (http 403)
  check_locked now t.device_session_id (reread t locked)
  rotate hash_token now days plain t ds
