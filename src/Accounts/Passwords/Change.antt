-- ===== src/Accounts/Passwords/Change.antt =====
-- How change_password ends, and what it leaves.
use phyllonix.Base.{ℕ, ◌≡◌, Bool, true, false, ◌&&◌, not, List, [], ◌∷◌, select_where, is_some, All}
use phyllonix.Auth.Tokens.{AuthDb, Credential, not_revoked}
use phyllonix.Accounts.Passwords.{CharClass, validate_password, is_usable, of_user}

abbrev is_verified : (List ℕ → ℕ → Bool) → List ℕ → List Credential → Bool
is_verified verify current (c ∷ []) = not (is_some c.revoked_at) && verify current c.password_hash
is_verified verify current _ = false

-- A strong new password, and a current one that belongs to the user's only credential.
abbrev pub is_acceptable : CharClass → (List ℕ → ℕ → Bool) → ℕ → List ℕ → List ℕ → AuthDb → Bool
is_acceptable classes verify user current new d =
    not (is_some (validate_password classes new))
    && is_verified verify current (select_where (of_user user) d.credentials)

module _ (classes : CharClass) (verify_password : List ℕ → ℕ → Bool)
    (hash_password : List ℕ → ℕ) where
  -- No token of the user is live, and each of its credentials that is not revoked has this hash.
  abbrev pub IsChanged : ℕ → List ℕ → AuthDb → Type 0
  IsChanged user new d =
      All (λ t. t.user_id ≡ user → not_revoked t ≡ false) d.tokens
      × All (λ c. is_usable user c ≡ true → c.password_hash ≡ hash_password new) d.credentials
