-- ===== src/Accounts/Stale.antt =====
-- A change of roles and the access tokens that were issued before it.
use phyllonix.Base.{
  ℕ, ◌≤◌, ◌≡◌, refl, sym, ◌∙◌, ap, Option, none, some, List, [], ◌∷◌, ◌==◌, find_where,
  update_where, All, Session, ok, err, http, crash, raise_if, or_raise, in_session, ◌>>=◌, ◌>>◌,
  Keeps, Keeps->>=, raise_if-Keeps, or_raise-Keeps, Ends, Ends->>=, Ends-keep, arith,
}
use mathlib.Core.Path.{subst}
use phyllonix.Auth.Tokens.{AuthDb, Users, Role}
use phyllonix.Accounts.Roles.{
  userid_by_public_id, get_rolenames_by_ids, get_role_ids_by_names, flush_role, add_role,
  role_named, add_named, add_roles, replace_roles, committed_version, change_named, found_or_404,
  blocked, delete_roles, bumped_version, is_user, bump_role_version, change_user_roles,
  change_found, change_user_role, has_version, check_user_roles_version, authorize, id_of_user,
}

-- Neither the transaction nor the committed tables have changed the users.
abbrev UsersAre : List Users → Session AuthDb → Type 0
UsersAre us s = (s.work.users ≡ us) × (s.committed.users ≡ us)

abbrev WorkBumped : List Users → ℕ → Session AuthDb → Type 0
WorkBumped us t s = s.work.users ≡ update_where (is_user t) bumped_version us

abbrev Bumped : List Users → ℕ → Session AuthDb → Type 0
Bumped us t s = s.committed.users ≡ update_where (is_user t) bumped_version us

module _ (us : List Users) where
  add_role-UsersAre : (t : ℕ) (role : Role) → Keeps (UsersAre us) (add_role t role)
  unfolding add_role flush_role
  add_role-UsersAre t role s h = ground arith

  add_roles-UsersAre :
      (t : ℕ) (roles : List Role) (names : List ℕ) → Keeps (UsersAre us) (add_roles t roles names)
  add_roles-UsersAre t roles [] = λ s h. h
  add_roles-UsersAre t roles (n ∷ ns) =
      Keeps->>= (UsersAre us) (or_raise (role_named n roles) crash)
        (add_named t (add_roles t roles ns))
        (or_raise-Keeps (UsersAre us) (role_named n roles) crash)
        (λ role.
          Keeps->>= (UsersAre us) (add_role t role) (λ _. add_roles t roles ns)
            (add_role-UsersAre t role) (λ _. add_roles-UsersAre t roles ns))

  bump_role_version-WorkBumped :
      (t : ℕ) → Ends (UsersAre us) (bump_role_version t) (WorkBumped us t)
  unfolding bump_role_version
  bump_role_version-WorkBumped t s a h e = ap (update_where (is_user t) bumped_version) h.0

  get_role_ids_by_names-UsersAre :
      (names : List ℕ) → Keeps (UsersAre us) (get_role_ids_by_names names)
  unfolding get_role_ids_by_names
  get_role_ids_by_names-UsersAre names s h = ground arith

  change_user_roles-WorkBumped :
      (t : ℕ) (cur names : List ℕ)
      → Ends (UsersAre us) (change_user_roles t cur names) (WorkBumped us t)
  unfolding change_user_roles delete_roles
  change_user_roles-WorkBumped t cur names =
      Ends-keep (UsersAre us) (WorkBumped us t) (get_role_ids_by_names names)
        (replace_roles t cur names) (get_role_ids_by_names-UsersAre names)
        (λ roles.
          Ends-keep (UsersAre us) (WorkBumped us t) (delete_roles t cur)
            (λ _. add_roles t roles names >> bump_role_version t) (λ s h. h)
            (λ _.
              Ends-keep (UsersAre us) (WorkBumped us t) (add_roles t roles names)
                (λ _. bump_role_version t) (add_roles-UsersAre t roles names)
                (λ _. bump_role_version-WorkBumped t)))

  change_found-Bumped :
      (actor t : ℕ) (cur names : List ℕ)
      → Ends (UsersAre us) (change_found actor cur names t) (Bumped us t)
  unfolding change_found get_rolenames_by_ids
  change_found-Bumped actor t cur names =
      Ends-keep (UsersAre us) (Bumped us t) (get_rolenames_by_ids cur)
        (change_named actor cur names t) (λ s h. h)
        (λ actor_names.
          Ends-keep (UsersAre us) (Bumped us t)
            (raise_if (blocked actor t actor_names names) (http 409))
            (λ _. change_user_roles t cur names >>= committed_version)
            (raise_if-Keeps (UsersAre us) (blocked actor t actor_names names) (http 409))
            (λ _.
              Ends->>= (UsersAre us) (WorkBumped us t) (Bumped us t) (change_user_roles t cur names)
                committed_version (change_user_roles-WorkBumped t cur names) (λ v s a h e. h)))

-- No version that is not above the user's stands in the table after the increment.
bumped_none :
    (t version : ℕ) (us : List Users)
    → All (λ u. u.id ≡ t → version ≤ u.role_version) us
    → find_where (has_version t version) (update_where (is_user t) bumped_version us) ≡ none
bumped_none t version [] h = refl
bumped_none t version (u ∷ us) h = ground (arith, h.0, bumped_none t version us h.1)

change_user_role-Bumped :
    (actor pid t : ℕ) (cur names : List ℕ) (d d' : AuthDb) (v : Option ℕ)
    → id_of_user (find_where (λ (u : Users). u.public_id == pid) d.users) ≡ some t
    → in_session (change_user_role actor cur pid names) d ≡ (ok v, d')
    → d'.users ≡ update_where (is_user t) bumped_version d.users
unfolding change_user_role userid_by_public_id
change_user_role-Bumped actor pid t cur names d d' v found h =
    let s : Session AuthDb = record { work = d; committed = d } in
    let e : in_session (change_found actor cur names t) d ≡ (ok v, d') =
      subst (λ o. in_session (found_or_404 actor cur names o) d ≡ (ok v, d')) found h in
    sym (ap (λ r. r.1.users) e)
    ∙ change_found-Bumped d.users actor t cur names s v (refl, refl) (ap (λ r. r.0) e)

-- After a change of a user's roles that succeeded, whichever roles were asked for and held, an
-- access token of that user with a role version that the user had before the change is refused
-- with 403 by the middleware of the guarded paths, which changes nothing.
pub change-authorize :
    (actor pid t version : ℕ) (cur names : List ℕ) (d d' : AuthDb) (v : Option ℕ)
    → id_of_user (find_where (λ (u : Users). u.public_id == pid) d.users) ≡ some t
    → All (λ u. u.id ≡ t → version ≤ u.role_version) d.users
    → in_session (change_user_role actor cur pid names) d ≡ (ok v, d')
    → in_session (authorize t version) d' ≡ (err (http 403), d')
unfolding authorize check_user_roles_version
change-authorize actor pid t version cur names d d' v found older h = rw (
  change_user_role-Bumped actor pid t cur names d d' v found h,
  bumped_none t version d.users older,
)
