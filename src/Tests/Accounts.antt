-- ===== src/Tests/Accounts.antt =====
-- Roles and passwords at concrete tables.
use phyllonix.Base.{
  ℕ, ◌≡◌, refl, Bool, true, ◌&&◌, some, none, [], ◌∷◌, List, ok, err, http, in_session, ◌==◌, ltb,
  arith,
}
use phyllonix.Auth.Tokens.{AuthDb, revoke_all_tokens_per_user}
use phyllonix.Accounts.Roles.{change_user_role, authorize}
use phyllonix.Accounts.Stale.{change-authorize}
use phyllonix.Accounts.Kept.{holds_role, change_user_role_lem}
use phyllonix.Accounts.Passwords.{CharClass, change_password}

-- User 1 is an admin; user 2 is a seller (role 3) who becomes a buyer (role 4).
abbrev db : AuthDb
db = record {
  tokens =
      record {
        device_session_id = 3;
        user_id = 2;
        token_hash = 11;
        issued_at = 0;
        expires_at = 9000;
        revoked_at = none;
        revoked_by = none;
      }
      ∷ [];
  sessions = [];
  users =
      record { id = 1; public_id = 10; role_version = 0 }
      ∷ record { id = 2; public_id = 20; role_version = 5 }
      ∷ [];
  roles = record { user_id = 1; role_id = 2 } ∷ record { user_id = 2; role_id = 3 } ∷ [];
  role_names =
      record { id = 2; name = 0 } ∷ record { id = 3; name = 1 } ∷ record { id = 4; name = 2 } ∷ [];
  credentials = record { id = 7; user_id = 2; password_hash = 5; revoked_at = none } ∷ [];
}

abbrev changed : AuthDb
changed = (in_session (change_user_role 1 (2 ∷ []) 20 (2 ∷ [])) db).1

change_run : (in_session (change_user_role 1 (2 ∷ []) 20 (2 ∷ [])) db).0 ≡ ok (some 6)
unfolding change_user_role
change_run = refl

-- The seller is a buyer as well, and still a seller.
still_seller :
    changed.roles
    ≡ record { user_id = 1; role_id = 2 }
      ∷ record { user_id = 2; role_id = 3 }
      ∷ record { user_id = 2; role_id = 4 }
      ∷ []
unfolding change_user_role
still_seller = refl

change-authorize_example : in_session (authorize 2 5) changed ≡ (err (http 403), changed)
change-authorize_example =
    change-authorize 1 20 2 5 (2 ∷ []) (2 ∷ []) db changed (some 6) refl
      ((λ h. omega (arith, h)), ((λ h. omega arith), tt)) (unfold change_user_role in refl)

change_user_role_lem_example : holds_role 2 3 changed.roles ≡ true
change_user_role_lem_example = change_user_role_lem 1 20 2 2 3 (2 ∷ []) (2 ∷ []) db refl refl refl

abbrev ascii : CharClass
ascii = record {
  isspace = λ c. c == 32;
  islower = λ c. ltb 96 c && ltb c 123;
  isupper = λ c. ltb 64 c && ltb c 91;
  isdigit = λ c. ltb 47 c && ltb c 58;
}

-- The hash of a password is its first letter.
abbrev hash_password : List ℕ → ℕ
hash_password [] = 0
hash_password (c ∷ cs) = c

abbrev verify_password : List ℕ → ℕ → Bool
verify_password p h = hash_password p == h

abbrev strong : List ℕ
strong = 65 ∷ 98 ∷ 99 ∷ 100 ∷ 101 ∷ 102 ∷ 49 ∷ 33 ∷ []

change_password_run :
    (in_session (change_password ascii verify_password hash_password 100 2 (5 ∷ []) strong) db).0
    ≡ ok tt
unfolding change_password revoke_all_tokens_per_user
change_password_run = refl
