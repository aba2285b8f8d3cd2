-- ===== src/Accounts/Passwords.antt =====
-- change_password of user/routes.py with validate_password of auth/utils.py and
-- get_password_credential and update_password of user/repository.py. Python's character classes, the
-- password hash and its verification are parameters; a password is the list of its code points.
pub mod Change
use phyllonix.Base.{
  ℕ, ◌+◌, Bool, true, false, ◌&&◌, ◌||◌, not, Option, none, some, List, [], ◌∷◌, ltb, ◌==◌,
  if◌then◌else◌, length, update_where, select_where, is_some, Action, ok, http, crash, gets, modify,
  raise, raise_if, or_raise, pure, commit, ◌>>=◌, ◌>>◌,
}
use phyllonix.Base.Text.{codes}
use phyllonix.Auth.Tokens.{
  AuthDb, Credential, revoke_all_tokens_per_user, RevokedBy, password_change,
}

-- str.isspace, islower, isupper and isdigit of one character
pub record CharClass : Type 0 where
  pub isspace : ℕ → Bool
  pub islower : ℕ → Bool
  pub isupper : ℕ → Bool
  pub isdigit : ℕ → Bool

abbrev pub any_of : (ℕ → Bool) → List ℕ → Bool
any_of p [] = false
any_of p (c ∷ cs) = p c || any_of p cs

abbrev pub lstrip : (ℕ → Bool) → List ℕ → List ℕ
lstrip p [] = []
lstrip p (c ∷ cs) = let rest = lstrip p cs in if p c then rest else c ∷ cs

abbrev unless_blank : Bool → ℕ → List ℕ → List ℕ
unless_blank true c [] = []
unless_blank true c (d ∷ ds) = c ∷ d ∷ ds
unless_blank false c ds = c ∷ ds

abbrev pub strip_end : (ℕ → Bool) → List ℕ → List ℕ
strip_end p [] = []
strip_end p (c ∷ cs) = unless_blank (p c) c (strip_end p cs)

abbrev pub specials : List ℕ
specials = codes "!@#$%^&*(),.?\":{}|<>\\/~`_-+=;:[]"

abbrev pub is_special : ℕ → Bool
is_special c = any_of (λ d. c == d) specials

-- The tests in order; none is (True, "OK").
pub data Weakness : Type 0 where
  too_short no_lowercase no_uppercase no_digit no_special : Weakness

unfoldable pub validate_password : CharClass → List ℕ → Option Weakness
validate_password k password =
    let pw = strip_end k.isspace (lstrip k.isspace password) in
    if ltb (length pw) 8
    then some too_short
    else (if not (any_of k.islower pw)
        then some no_lowercase
        else (if not (any_of k.isupper pw)
            then some no_uppercase
            else (if not (any_of k.isdigit pw)
                then some no_digit
                else (if not (any_of is_special pw) then some no_special else none))))

abbrev pub of_user : ℕ → Credential → Bool
of_user user_id c = c.user_id == user_id

-- one_or_none, and the tests on the row
abbrev pub usable : List Credential → Action AuthDb ℕ
usable [] = raise (http 403)
usable (c ∷ []) = if is_some c.revoked_at then raise (http 403) else pure c.password_hash
usable (c ∷ d ∷ cs) = raise crash

unfoldable pub get_password_credential : ℕ → Action AuthDb ℕ
get_password_credential user_id =
    gets (λ d. select_where (of_user user_id) d.credentials) >>= usable

abbrev pub is_usable : ℕ → Credential → Bool
is_usable user_id c = c.user_id == user_id && not (is_some c.revoked_at)

abbrev pub with_hash : ℕ → Credential → Credential
with_hash new_hash c = record c { password_hash = new_hash }

-- scalar_one_or_none of the ids that the UPDATE returns
abbrev pub one_id : List Credential → Action AuthDb (Option ℕ)
one_id [] = pure none
one_id (c ∷ []) = pure (some c.id)
one_id (c ∷ d ∷ cs) = raise crash

abbrev pub returned_id : ℕ → Action AuthDb (Option ℕ)
returned_id user_id = gets (λ d. select_where (is_usable user_id) d.credentials) >>= one_id

unfoldable pub update_password : ℕ → ℕ → Action AuthDb (Option ℕ)
update_password user_id new_hash =
    modify (λ d. record d {
      credentials = update_where (is_usable user_id) (with_hash new_hash) d.credentials;
    })
    >> returned_id user_id

module _ (classes : CharClass) (verify_password : List ℕ → ℕ → Bool)
    (hash_password : List ℕ → ℕ) where
  abbrev pub finish_change : ℕ → ℕ → Option ℕ → Action AuthDb (Unit {0})
  finish_change now user_id updated =
      or_raise updated (http 500)
      >> (revoke_all_tokens_per_user now user_id password_change >> commit)

  abbrev pub check_current : ℕ → ℕ → List ℕ → List ℕ → ℕ → Action AuthDb (Unit {0})
  check_current now user_id current_password new_password curr_pwd_hash =
      raise_if (not (verify_password current_password curr_pwd_hash)) (http 403)
      >> (update_password user_id (hash_password new_password) >>= finish_change now user_id)

  unfoldable pub change_password : ℕ → ℕ → List ℕ → List ℕ → Action AuthDb (Unit {0})
  unfolding validate_password get_password_credential update_password
  change_password now user_id current_password new_password =
      raise_if (is_some (validate_password classes new_password)) (http 400)
      >> (get_password_credential user_id
          >>= check_current now user_id current_password new_password)
