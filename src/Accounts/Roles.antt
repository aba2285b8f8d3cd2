-- ===== src/Accounts/Roles.antt =====
-- change_user_role of user/routes.py with userid_by_public_id, get_rolenames_by_ids,
-- get_role_ids_by_names and change_user_roles of user/repository.py, and the test of
-- middlewares/authorization_middleware.py. Names of roles are numbers.
use phyllonix.Base.{
  ℕ, ◌+◌, Bool, true, false, ◌&&◌, ◌||◌, not, Option, none, some, List, [], ◌∷◌, ◌++◌, ◌==◌, length,
  find_where, update_where, select_where, is_some, map, Action, http, crash, gets, modify, raise_if,
  or_raise, pure, commit, rollback, ◌>>=◌, ◌>>◌,
}
use phyllonix.Auth.Tokens.{AuthDb, Users, UserRole, Role}

abbrev pub admin : ℕ
admin = 0

-- `x in xs`
abbrev pub member : ℕ → List ℕ → Bool
member x [] = false
member x (y ∷ ys) = let rest = member x ys in x == y || rest

abbrev pub id_of_user : Option Users → Option ℕ
id_of_user none = none
id_of_user (some u) = some u.id

unfoldable pub userid_by_public_id : ℕ → Action AuthDb (Option ℕ)
userid_by_public_id user_pid =
    gets (λ d. id_of_user (find_where (λ (u : Users). u.public_id == user_pid) d.users))

abbrev pub name_of_role : Role → ℕ
name_of_role r = r.name

unfoldable pub get_rolenames_by_ids : List ℕ → Action AuthDb (List ℕ)
get_rolenames_by_ids role_ids =
    gets (λ d. map name_of_role (select_where (λ (r : Role). member r.id role_ids) d.role_names))

abbrev pub roles_named : List ℕ → AuthDb → List Role
roles_named role_names d = select_where (λ (r : Role). member r.name role_names) d.role_names

-- The rows that the map from names to ids is made of.
unfoldable pub get_role_ids_by_names : List ℕ → Action AuthDb (List Role)
get_role_ids_by_names role_names = do
  roles ← gets (roles_named role_names)
  raise_if (length roles == 0 || not (length roles == length role_names)) (http 400)
  pure roles

abbrev pub has_role : ℕ → ℕ → UserRole → Bool
has_role user_id role_id r = r.user_id == user_id && r.role_id == role_id

-- A flush that meets uq_user_role_user_id_role_id rolls the whole transaction back and goes on.
unfoldable pub flush_role : ℕ → ℕ → Bool → Action AuthDb (Unit {0})
flush_role user_id role_id true = rollback
flush_role user_id role_id false =
    modify
      (λ d. record d { roles = d.roles ++ record { user_id = user_id; role_id = role_id } ∷ [] })

unfoldable pub add_role : ℕ → Role → Action AuthDb (Unit {0})
unfolding flush_role
add_role user_id role = do
  taken ← gets (λ d. is_some (find_where (has_role user_id role.id) d.roles))
  flush_role user_id role.id taken

abbrev pub role_named : ℕ → List Role → Option Role
role_named name roles = find_where (λ (r : Role). r.name == name) roles

abbrev pub add_named : ℕ → Action AuthDb (Unit {0}) → Role → Action AuthDb (Unit {0})
add_named user_id rest role = add_role user_id role >> rest

-- `for role_name in new_role_names`
abbrev pub add_roles : ℕ → List Role → List ℕ → Action AuthDb (Unit {0})
add_roles user_id roles [] = pure tt
add_roles user_id roles (name ∷ names) =
    let rest = add_roles user_id roles names in
    or_raise (role_named name roles) crash >>= add_named user_id rest

abbrev pub keeps_role : ℕ → List ℕ → UserRole → Bool
keeps_role user_id cur_role_ids r = not (r.user_id == user_id && member r.role_id cur_role_ids)

-- DELETE … WHERE user_id = … AND role_id IN (…); with no ids it would delete nothing
unfoldable pub delete_roles : ℕ → List ℕ → Action AuthDb (Unit {0})
delete_roles user_id cur_role_ids =
    modify (λ d. record d { roles = select_where (keeps_role user_id cur_role_ids) d.roles })

abbrev pub version_of_user : Option Users → Option ℕ
version_of_user none = none
version_of_user (some u) = some u.role_version

abbrev pub bumped_version : Users → Users
bumped_version u = record u { role_version = u.role_version + 1 }

abbrev pub is_user : ℕ → Users → Bool
is_user user_id u = u.id == user_id

unfoldable pub bump_role_version : ℕ → Action AuthDb (Option ℕ)
bump_role_version user_id = do
  modify (λ d. record d { users = update_where (is_user user_id) bumped_version d.users })
  gets (λ d. version_of_user (find_where (is_user user_id) d.users))

abbrev pub replace_roles : ℕ → List ℕ → List ℕ → List Role → Action AuthDb (Option ℕ)
replace_roles user_id cur_role_ids new_role_names roles =
    delete_roles user_id cur_role_ids
    >> (add_roles user_id roles new_role_names >> bump_role_version user_id)

unfoldable pub change_user_roles : ℕ → List ℕ → List ℕ → Action AuthDb (Option ℕ)
unfolding get_role_ids_by_names add_role delete_roles bump_role_version
change_user_roles user_id cur_role_ids new_role_names =
    get_role_ids_by_names new_role_names >>= replace_roles user_id cur_role_ids new_role_names

-- An admin that takes that role from itself.
abbrev pub blocked : ℕ → ℕ → List ℕ → List ℕ → Bool
blocked actor_user_id target actor_names role_names =
    actor_user_id == target && (member admin actor_names && not (member admin role_names))

abbrev pub committed_version : Option ℕ → Action AuthDb (Option ℕ)
committed_version role_version = commit >> pure role_version

-- The roles of the actor's token, cur_roles, are the ones that the target loses.
abbrev pub change_named : ℕ → List ℕ → List ℕ → ℕ → List ℕ → Action AuthDb (Option ℕ)
change_named actor_user_id cur_roles role_names target actor_names =
    raise_if (blocked actor_user_id target actor_names role_names) (http 409)
    >> (change_user_roles target cur_roles role_names >>= committed_version)

unfoldable pub change_found : ℕ → List ℕ → List ℕ → ℕ → Action AuthDb (Option ℕ)
unfolding get_rolenames_by_ids change_user_roles
change_found actor_user_id cur_roles role_names target =
    get_rolenames_by_ids cur_roles >>= change_named actor_user_id cur_roles role_names target

abbrev pub found_or_404 : ℕ → List ℕ → List ℕ → Option ℕ → Action AuthDb (Option ℕ)
found_or_404 actor_user_id cur_roles role_names found =
    or_raise found (http 404) >>= change_found actor_user_id cur_roles role_names

unfoldable pub change_user_role : ℕ → List ℕ → ℕ → List ℕ → Action AuthDb (Option ℕ)
unfolding userid_by_public_id change_found
change_user_role actor_user_id cur_roles user_public_id role_names =
    userid_by_public_id user_public_id >>= found_or_404 actor_user_id cur_roles role_names

abbrev pub has_version : ℕ → ℕ → Users → Bool
has_version identifier role_version u = u.id == identifier && u.role_version == role_version

unfoldable pub check_user_roles_version : ℕ → ℕ → Action AuthDb (Option ℕ)
check_user_roles_version identifier role_version =
    gets (λ d. version_of_user (find_where (has_version identifier role_version) d.users))

-- `dispatch` on a path that it guards, for an authenticated user: 403, or the request goes on.
unfoldable pub authorize : ℕ → ℕ → Action AuthDb (Unit {0})
unfolding check_user_roles_version
authorize identifier role_version = do
  current_role_version ← check_user_roles_version identifier role_version
  _ ← or_raise current_role_version (http 403)
  pure tt
