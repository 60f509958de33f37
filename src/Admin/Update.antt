-- ===== src/Admin/Update.antt =====
-- What an update of one user does: update_user of webui/app/views/admin.py.
use powerdns.Prelude.{
  ℕ, ◌≡◌, ◌≢◌, ◌⊎◌, inl, inr, refl, sym, ap, ◌∙◌, subst, Bool, true, false, not, ◌&&◌, ◌||◌, some,
  List, [], ◌∷◌, ◌==◌, arith, Bool-cases, Option-cases, if◌then◌else◌,
}
use native.Mathlib.Decide.{ℕ_discrete}
use powerdns.Text.{Text, text, eq_text, contains}
use powerdns.Text.Laws.{eq_text_iff}
use powerdns.Form.{Form, is_on}
use powerdns.Passwords.{PasswordProblem}
use powerdns.Store.{User, Db, is_local, is_admin, get_user, record_audit, other_admins}
use powerdns.Roles.{roles, role_admin}
use powerdns.Store.Users.{get_user-id, get_user-set_user, get_user-set_user_self}
use powerdns.Admin.{
  Outcome, saved, asked_role, changed_row, commit_update, update_found, update_user, or_404,
}

-- Whether the role is pinned afterwards. The form hands it back to the directory, or else a role
-- that was changed by hand is pinned; the accounts of the panel itself have nothing to pin.
abbrev pub pinned_after : Form → User → Bool
pinned_after form user =
    if is_local user
    then user.role_locked
    else if is_on form (text "role_from_directory")
    then false
    else if eq_text user.role (asked_role form user)
    then user.role_locked
    else true

-- The row that a successful update of `user` leaves.
pub record IsUpdated (form : Form) (user row : User) : Type 0 where
  pub id : row.id ≡ user.id
  pub role : row.role ≡ asked_role form user
  pub is_active : row.is_active ≡ is_on form (text "is_active")
  pub role_locked : row.role_locked ≡ pinned_after form user
  pub username : row.username ≡ user.username
  pub auth_source : row.auth_source ≡ user.auth_source
  pub auth_provider : row.auth_provider ≡ user.auth_provider
  pub external_id : row.external_id ≡ user.external_id
  pub zone_grants : row.zone_grants ≡ user.zone_grants

-- An update either is saved, or leaves the whole database as it was.
abbrev pub Result : ℕ → Form → User → Db → Outcome → Db → Type 0
Result i form user db o db' =
    ((o ≡ saved)
      × ((row : User) × (get_user i db'.users ≡ some row) × IsUpdated form user row)
      × ((j : ℕ) → j ≢ i → get_user j db'.users ≡ get_user j db.users))
    ⊎ ((o ≢ saved) × (db' ≡ db))

module _ (hash : Text → Text) (addr : Text) where
  changed_row-IsUpdated :
      (form : Form) (user : User)
      → IsUpdated form user
          (changed_row hash addr form (asked_role form user) (is_on form (text "is_active")) user).1
  unfolding changed_row
  changed_row-IsUpdated form user = ground (arith, eq_text_iff user.role (asked_role form user))

  commit_update-Result :
      (form : Form) (actor user row : User) (problems : List PasswordProblem) (db : Db)
      → get_user user.id db.users ≡ some user
      → IsUpdated form user row
      → let r = commit_update hash addr form actor user (problems, row) db in
        Result user.id form user db r.0 r.1
  unfolding commit_update record_audit
  commit_update-Result form actor user row [] db g h = inl (
    refl,
    (row, rw (← h.id) (get_user-set_user_self row db.users {v = user} (rw h.id g)), h),
    λ j ne. get_user-set_user j row db.users (λ e. ne (e ∙ h.id)),
  )
  commit_update-Result form actor user row (p ∷ ps) db g h = inr (ground arith, refl)

  update_found-Result :
      (form : Form) (actor user : User) (db : Db)
      → get_user user.id db.users ≡ some user
      → let r = update_found hash addr form actor user db in Result user.id form user db r.0 r.1
  unfolding update_found
  update_found-Result form actor user db g =
      let role = asked_role form user in
      let active = is_on form (text "is_active") in
      elim (Bool-cases (not (contains role roles))) [
        | inl e ↦ rw e (inr (ground arith, refl))
        | inr e₁ ↦
            elim (Bool-cases (
              is_admin user
              && (not (eq_text role role_admin) || not active)
              && other_admins user.id db.users == 0)) [
                | inl e ↦ rw (e₁, e) (inr (ground arith, refl))
                | inr e₂ ↦ elim (Bool-cases (user.id == actor.id && not active)) [
                  | inl e ↦ rw (e₁, e₂, e) (inr (ground arith, refl))
                  | inr e₃ ↦
                      rw (e₁, e₂, e₃)
                        (commit_update-Result form actor user
                          (changed_row hash addr form role active user).1
                          (changed_row hash addr form role active user).0 db g
                          (changed_row-IsUpdated form user))
                ]
              ]
      ]

  -- An update of a user in the table either is saved or leaves the whole database as it was. If it
  -- is saved, the user's row has the role and the state that the form asks for, is pinned as
  -- `pinned_after` says, and keeps its name, its source and its zones; every other row is untouched.
  pub update_user_lem :
      (i : ℕ) (form : Form) (actor user : User) (db : Db)
      → get_user i db.users ≡ some user
      → Result i form user db
          (update_user hash addr i form actor db).0
          (update_user hash addr i form actor db).1
  unfolding update_user
  update_user_lem i form actor user db g =
      let same : user.id ≡ i = get_user-id i db.users g in
      rw g (
        subst
          (λ j.
            Result j form user db (update_found hash addr form actor user db).0
              (update_found hash addr form actor user db).1)
          same
          (update_found-Result form actor user db
            (subst (λ j. get_user j db.users ≡ some user) (sym same) g)))

  saved-own_account :
      (form : Form) (actor user : User) (db : Db)
      → (update_found hash addr form actor user db).0 ≡ saved
      → user.id ≡ actor.id
      → is_on form (text "is_active") ≡ true
  unfolding update_found
  saved-own_account form actor user db h e = ground arith

  own_update :
      (form : Form) (actor : User) (db : Db)
      → get_user actor.id db.users ≡ some actor
      → actor.is_active ≡ true
      → (row : User) × (get_user actor.id (update_found hash addr form actor actor db).1.users
          ≡ some row)
        × (row.is_active ≡ true)
  own_update form actor db g a = elim (update_found-Result form actor actor db g) [
    | inl (ok, (row, found, updated), others) ↦
        (row, found, updated.is_active ∙ saved-own_account form actor actor db ok refl)
    | inr (refused, same) ↦ (actor, rw same g, a)
  ]

  other_update :
      (i : ℕ) (form : Form) (actor : User) (db : Db)
      → i ≢ actor.id
      → get_user actor.id (update_user hash addr i form actor db).1.users
        ≡ get_user actor.id db.users
  other_update i form actor db ne = elim (Option-cases (get_user i db.users)) [
    | inl e ↦ unfold update_user in rw e
    | inr (user, e) ↦ elim (update_user_lem i form actor user db e) [
      | inl (ok, row, others) ↦ others actor.id (λ same. ne (sym same))
      | inr (refused, same) ↦ ap (λ (d : Db). get_user actor.id d.users) same
    ]
  ]

  -- An active administrator's row in the table is still there, and active, after any update that
  -- they make.
  pub update_user-actor :
      (i : ℕ) (form : Form) (actor : User) (db : Db)
      → get_user actor.id db.users ≡ some actor
      → actor.is_active ≡ true
      → (row : User) × (get_user actor.id (update_user hash addr i form actor db).1.users
          ≡ some row)
        × (row.is_active ≡ true)
  update_user-actor i form actor db g a = elim (ℕ_discrete i actor.id) [
    | yes e ↦
        subst
          (λ j.
            (row : User) × (get_user actor.id (update_user hash addr j form actor db).1.users
              ≡ some row)
            × (row.is_active ≡ true))
          (sym e) (unfold update_user in rw (g, or_404) (own_update form actor db g a))
    | no ne ↦ (actor, other_update i form actor db ne ∙ g, a)
  ]
