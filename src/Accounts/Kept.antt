-- ===== src/Accounts/Kept.antt =====
-- The roles that a change of roles does not take away.
use phyllonix.Base.{
  ℕ, ◌≡◌, sym, Bool, true, false, ◌&&◌, some, List, [], ◌∷◌, ◌++◌, ◌==◌, find_where, select_where,
  Session, http, crash, raise_if, or_raise, in_session, ◌>>=◌, ◌>>◌, Keeps, Keeps->>=,
  raise_if-Keeps, or_raise-Keeps, is_some, arith,
}
use mathlib.Core.Path.{subst}
use phyllonix.Auth.Tokens.{AuthDb, Users, UserRole, Role}
use phyllonix.Accounts.Roles.{
  userid_by_public_id, get_rolenames_by_ids, get_role_ids_by_names, has_role, flush_role, add_role,
  role_named, add_named, add_roles, replace_roles, blocked, committed_version, change_named,
  found_or_404, keeps_role, member, delete_roles, bump_role_version, change_user_roles,
  change_found, change_user_role, id_of_user,
}

-- A user holds a role.
abbrev pub holds_role : ℕ → ℕ → List UserRole → Bool
holds_role user role rs = is_some (find_where (has_role user role) rs)

abbrev StillHolds : ℕ → ℕ → Session AuthDb → Type 0
StillHolds user role s =
    (holds_role user role s.work.roles ≡ true) × (holds_role user role s.committed.roles ≡ true)

module _ (user role t : ℕ) (cur : List ℕ) (spared : (user == t && member role cur) ≡ false) where
  is_kept : (r : UserRole) → has_role user role r ≡ true → keeps_role t cur r ≡ true
  is_kept r h = grind (arith, spared)

  holds_role-select_where :
      (rs : List UserRole)
      → holds_role user role rs ≡ true
      → holds_role user role (select_where (keeps_role t cur) rs) ≡ true
  holds_role-select_where [] h = h
  holds_role-select_where (r ∷ rs) h = ground (arith, is_kept r, holds_role-select_where rs)

  holds_role-append :
      (rs : List UserRole) (r : UserRole)
      → holds_role user role rs ≡ true
      → holds_role user role (rs ++ r ∷ []) ≡ true
  holds_role-append [] r h = absurd (cc)
  holds_role-append (x ∷ rs) r h = ground (arith, holds_role-append rs r)

  delete_roles-StillHolds : Keeps (StillHolds user role) (delete_roles t cur)
  unfolding delete_roles
  delete_roles-StillHolds s h = (holds_role-select_where s.work.roles h.0, h.1)

  add_role-StillHolds : (x : Role) → Keeps (StillHolds user role) (add_role t x)
  unfolding add_role flush_role
  add_role-StillHolds x s h =
      ground (arith, holds_role-append s.work.roles (record { user_id = t; role_id = x.id }))

  add_roles-StillHolds :
      (roles : List Role) (names : List ℕ) → Keeps (StillHolds user role) (add_roles t roles names)
  add_roles-StillHolds roles [] = λ s h. h
  add_roles-StillHolds roles (n ∷ ns) =
      Keeps->>= (StillHolds user role) (or_raise (role_named n roles) crash)
        (add_named t (add_roles t roles ns))
        (or_raise-Keeps (StillHolds user role) (role_named n roles) crash)
        (λ x.
          Keeps->>= (StillHolds user role) (add_role t x) (λ _. add_roles t roles ns)
            (add_role-StillHolds x) (λ _. add_roles-StillHolds roles ns))

  get_role_ids_by_names-StillHolds :
      (names : List ℕ) → Keeps (StillHolds user role) (get_role_ids_by_names names)
  unfolding get_role_ids_by_names
  get_role_ids_by_names-StillHolds names s h = ground arith

  change_user_roles-StillHolds :
      (names : List ℕ) → Keeps (StillHolds user role) (change_user_roles t cur names)
  unfolding change_user_roles bump_role_version
  change_user_roles-StillHolds names =
      Keeps->>= (StillHolds user role) (get_role_ids_by_names names) (replace_roles t cur names)
        (get_role_ids_by_names-StillHolds names)
        (λ roles.
          Keeps->>= (StillHolds user role) (delete_roles t cur)
            (λ _. add_roles t roles names >> bump_role_version t) delete_roles-StillHolds
            (λ _.
              Keeps->>= (StillHolds user role) (add_roles t roles names) (λ _. bump_role_version t)
                (add_roles-StillHolds roles names) (λ _ s h. h)))

  change_found-StillHolds :
      (actor : ℕ) (names : List ℕ) → Keeps (StillHolds user role) (change_found actor cur names t)
  unfolding change_found get_rolenames_by_ids
  change_found-StillHolds actor names =
      Keeps->>= (StillHolds user role) (get_rolenames_by_ids cur) (change_named actor cur names t)
        (λ s h. h)
        (λ actor_names.
          Keeps->>= (StillHolds user role) (raise_if (blocked actor t actor_names names) (http 409))
            (λ _. change_user_roles t cur names >>= committed_version)
            (raise_if-Keeps (StillHolds user role) (blocked actor t actor_names names) (http 409))
            (λ _.
              Keeps->>= (StillHolds user role) (change_user_roles t cur names) committed_version
                (change_user_roles-StillHolds names) (λ v s h. (h.0, h.0))))

-- However a change of roles ends, whichever roles are asked for: a role that a user holds is still
-- held, unless the user is the target and the role is one of the actor's own.
pub change_user_role_lem :
    (actor pid t user role : ℕ) (cur names : List ℕ) (d : AuthDb)
    → id_of_user (find_where (λ (u : Users). u.public_id == pid) d.users) ≡ some t
    → (user == t && member role cur) ≡ false
    → holds_role user role d.roles ≡ true
    → holds_role user role ((in_session (change_user_role actor cur pid names) d).1.roles) ≡ true
unfolding change_user_role userid_by_public_id
change_user_role_lem actor pid t user role cur names d found spared held =
    let s : Session AuthDb = record { work = d; committed = d } in
    subst (λ o. holds_role user role (in_session (found_or_404 actor cur names o) d).1.roles ≡ true)
      (sym found) (change_found-StillHolds user role t cur spared actor names s (held, held)).1
