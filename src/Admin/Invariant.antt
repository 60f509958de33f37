-- ===== src/Admin/Invariant.antt =====
-- Every request keeps the primary keys unique and below the next one, and an active administrator.
use powerdns.Prelude.{
  ℕ, ◌≡◌, ◌≢◌, ◌⊎◌, refl, sym, subst, Bool, true, false, ◌&&◌, some, List, [], ◌∷◌, ◌==◌, arith,
  Bool-cases, Option-cases, inl, inr, is_empty, any,
}
use powerdns.Text.{Text, text, eq_text}
use powerdns.Text.Laws.{eq_text_iff}
use powerdns.Form.{Form, is_on}
use powerdns.Passwords.{PasswordProblem}
use powerdns.Session.{Session, Gate, signed_out, forbidden, enter, admin_required, current_user}
use powerdns.Store.{User, Db, is_admin, is_active_admin, other_admins, get_user}
use powerdns.Store.Users.{get_user-id}
use powerdns.Admin.{
  Outcome, or_404, Request, create, update, grant, delete, create_user, update_found, update_user,
  delete_found, delete_user, update_zone_access, grant_found, run, handle, serve, commit_update,
  changed_row, new_user, asked_role, behind, new_grants, selected_zones, create_problems,
}
use powerdns.Admin.Managed.{
  IsManaged, write-IsManaged, audit-IsManaged, remove-IsManaged, append-IsManaged,
}

module _ (hash : Text → Text) (addr : Text) where
  -- What the row that is written has of the row that was read.
  changed_row_lem :
      (form : Form) (role : Text) (active : Bool) (u : User)
      → let row = (changed_row hash addr form role active u).1 in
        (row.id ≡ u.id) × (row.role ≡ role) × (row.is_active ≡ active)
  unfolding changed_row
  changed_row_lem form role active u = ground (arith, eq_text_iff u.role role)

  commit_update-IsManaged :
      (form : Form) (actor user row : User) (problems : List PasswordProblem) (db : Db)
      → IsManaged db
      → get_user row.id db.users ≡ some user
      → (is_active_admin row ≡ true)
        ⊎ (other_admins row.id db.users ≢ 0)
        ⊎ (is_active_admin user ≡ false)
      → IsManaged (commit_update hash addr form actor user (problems, row) db).1
  unfolding commit_update
  commit_update-IsManaged form actor user row [] db h g c =
      audit-IsManaged addr _ _ _ _ _ _ (write-IsManaged db user row h g c)
  commit_update-IsManaged form actor user row (p ∷ ps) db h g c = h

  update_found-IsManaged :
      (form : Form) (actor user : User) (db : Db)
      → IsManaged db
      → get_user user.id db.users ≡ some user
      → IsManaged (update_found hash addr form actor user db).1
  unfolding update_found
  update_found-IsManaged form actor user db h g =
      let role = asked_role form user in
      let active = is_on form (text "is_active") in
      let (problems, row) = changed_row hash addr form role active user in
      ground (
        arith,
        changed_row_lem form role active user,
        commit_update-IsManaged form actor user row problems db h,
      )

  delete_found-IsManaged :
      (actor user : User) (db : Db)
      → IsManaged db
      → get_user user.id db.users ≡ some user
      → IsManaged (delete_found hash addr actor user db).1
  unfolding delete_found
  delete_found-IsManaged actor user db h g = elim (Bool-cases (user.id == actor.id)) [
    | inl own ↦ rw own h
    | inr other ↦
        rw other (elim (Bool-cases (is_admin user && other_admins user.id db.users == 0)) [
          | inl last ↦ rw last h
          | inr e ↦ rw e (audit-IsManaged addr _ _ _ _ _ _ (remove-IsManaged user db h g e))
        ])
  ]

  new_user-id : (form : Form) (db : Db) → (new_user hash addr form db.next_id).id ≡ db.next_id
  unfolding new_user
  new_user-id form db = refl

  create_user-IsManaged :
      (form : Form) (actor : User) (db : Db)
      → IsManaged db
      → IsManaged (create_user hash addr form actor db).1
  unfolding create_user
  create_user-IsManaged form actor db h =
      let user = new_user hash addr form db.next_id in
      elim (Bool-cases (is_empty (create_problems form db))) [
        | inl fine ↦
            rw fine (elim (Bool-cases (any (λ u. eq_text u.username user.username) db.users)) [
              | inl taken ↦ rw taken h
              | inr e ↦ rw e (
                  audit-IsManaged addr _ _ _ _ _ _
                    (append-IsManaged user db h (new_user-id form db)))
            ])
        | inr problems ↦ rw problems h
      ]

  grant_found-IsManaged :
      (form : Form) (actor user : User) (db : Db)
      → IsManaged db
      → get_user user.id db.users ≡ some user
      → IsManaged (grant_found hash addr form actor user db).1
  unfolding grant_found
  grant_found-IsManaged form actor user db h g = audit-IsManaged addr _ _ _ _ _ _ (
      write-IsManaged db user (record user { zone_grants = new_grants (selected_zones form) user })
        h g (elim (Bool-cases (is_active_admin user)) [ inl a ↦ inl a | inr a ↦ inr (inr a) ]))

  -- A request for one row: the row is found under its own key.
  found-IsManaged :
      (i : ℕ) (db : Db) (go : User → Outcome × Db)
      → IsManaged db
      → ((user : User) → get_user user.id db.users ≡ some user → IsManaged (go user).1)
      → IsManaged (or_404 (get_user i db.users) go db).1
  found-IsManaged i db go h k = elim (Option-cases (get_user i db.users)) [
    | inl e ↦ rw e h
    | inr (u, e) ↦
        rw e (k u (subst (λ j. get_user j db.users ≡ some u) (sym (get_user-id i db.users e)) e))
  ]

  pub update_user-IsManaged :
      (i : ℕ) (form : Form) (actor : User) (db : Db)
      → IsManaged db
      → IsManaged (update_user hash addr i form actor db).1
  unfolding update_user
  update_user-IsManaged i form actor db h =
      found-IsManaged i db (λ u. update_found hash addr form actor u db) h
        (λ u. update_found-IsManaged form actor u db h)

  run-IsManaged :
      (req : Request) (actor : User) (db : Db)
      → IsManaged db
      → IsManaged (run hash addr req actor db).1
  unfolding run delete_user update_zone_access
  run-IsManaged (create form) actor db h = create_user-IsManaged form actor db h
  run-IsManaged (update i form) actor db h = update_user-IsManaged i form actor db h
  run-IsManaged (grant i form) actor db h =
      found-IsManaged i db _ h (λ u. grant_found-IsManaged form actor u db h)
  run-IsManaged (delete i) actor db h =
      found-IsManaged i db _ h (λ u. delete_found-IsManaged actor u db h)

  handle-IsManaged :
      (s : Session) (req : Request) (db : Db)
      → IsManaged db
      → IsManaged (handle hash addr s req db).1
  unfolding handle
  handle-IsManaged s req db h = gate (admin_required (current_user s db).0)
    where
      gate : (g : Gate) → IsManaged (behind hash addr g req db).1
      gate signed_out = h
      gate forbidden = h
      gate (enter actor) = run-IsManaged req actor db h

  -- Whatever posts are made to the pages that create, update, grant zones to and delete users, and by
  -- whom, the users table keeps unique keys below the next one, and at least one active administrator,
  -- if it has these before the first and nothing else changes it in between. A sign-in through a
  -- directory, which may take an unpinned role away, is no such post.
  pub serve-IsManaged :
      (requests : List (Session × Request)) (db : Db)
      → IsManaged db
      → IsManaged (serve hash addr requests db)
  unfolding serve
  serve-IsManaged [] db h = h
  serve-IsManaged ((s, req) ∷ rest) db h =
      serve-IsManaged rest (handle hash addr s req db).1 (handle-IsManaged s req db h)
