-- ===== src/Provision/Pinned.antt =====
-- A role that an administrator picks for a directory account, and the account's next sign-in.
use powerdns.Prelude.{◌≡◌, ◌≢◌, inl, inr, ◌∙◌, subst, ℕ, true, false, some, arith}
use powerdns.Text.{Text, text}
use powerdns.Text.Laws.{eq_text_iff}
use powerdns.Form.{Form, is_on}
use powerdns.Roles.{GroupRoleMap}
use powerdns.Store.{User, Db, is_local, get_user}
use powerdns.Admin.{saved, asked_role, update_user}
use powerdns.Admin.Managed.{IsManaged}
use powerdns.Admin.Invariant.{update_user-IsManaged}
use powerdns.Admin.Update.{IsUpdated, pinned_after, update_user_lem}
use powerdns.Provision.{
  IdentityClaim, Admission, admitted, denied, integrity_error, resolve_identity,
}
use powerdns.Provision.Signin.{IsKeyed, IsAdmitted, Admits, resolve_identity_lem}

IsKeyed-of_IsManaged : {db : Db} → IsManaged db → IsKeyed db
IsKeyed-of_IsManaged h = record { unique = h.unique; below = h.below }

pinned_after_change :
    (form : Form) (user : User)
    → is_local user ≡ false
    → is_on form (text "role_from_directory") ≡ false
    → user.role ≢ asked_role form user
    → pinned_after form user ≡ true
pinned_after_change form user l f c = ground (arith, eq_text_iff user.role (asked_role form user))

admitted_of :
    {claim : IdentityClaim} {roles : GroupRoleMap} {db : Db} (r : Admission × Db) (row : User)
    → Admits claim roles db r
    → r.0 ≡ admitted row
    → IsAdmitted claim roles db r.1 row
admitted_of {claim} {roles} {db} (admitted u, db') row h e =
    let same : u ≡ row = cc in subst (λ w. IsAdmitted claim roles db db' w) same h
admitted_of {claim} {roles} {db} (denied d, db') row h e = cc
admitted_of {claim} {roles} {db} (integrity_error, db') row h e = cc

-- In a table with unique keys and an active administrator, an administrator changes the role of a
-- directory account and does not hand it back to the directory. If the account's next sign-in is
-- admitted, its role is the one picked, whatever groups the sign-in reports.
pub picked_role_survives :
    (hash : Text → Text) (addr : Text) (i : ℕ) (form : Form) (actor user : User) (db : Db)
    (claim : IdentityClaim) (roles : GroupRoleMap) (row : User)
    → IsManaged db
    → get_user i db.users ≡ some user
    → is_local user ≡ false
    → is_on form (text "role_from_directory") ≡ false
    → user.role ≢ asked_role form user
    → (update_user hash addr i form actor db).0 ≡ saved
    → (resolve_identity addr claim roles (update_user hash addr i form actor db).1).0 ≡ admitted row
    → row.id ≡ i
    → row.role ≡ asked_role form user
picked_role_survives hash addr i form actor user db claim roles row h g l f c ok a same =
    elim (update_user_lem hash addr i form actor user db g) [
      | inl (_, (picked, found, updated), _) ↦
          sign_in (update_user hash addr i form actor db).1 picked
            (update_user-IsManaged hash addr i form actor db h) found updated a
      | inr (bad, _) ↦ absurd (bad ok)
    ]
  where
    sign_in :
        (db' : Db) (picked : User)
        → IsManaged db'
        → get_user i db'.users ≡ some picked
        → IsUpdated form user picked
        → (resolve_identity addr claim roles db').0 ≡ admitted row
        → row.role ≡ asked_role form user
    sign_in db' picked h' found updated a =
        let r = resolve_identity addr claim roles db' in
        let (_, _, role, _, _) =
          (admitted_of r row (resolve_identity_lem addr claim roles db' (IsKeyed-of_IsManaged h'))
              a).kept
            picked (rw same found) in
        role (updated.role_locked ∙ pinned_after_change form user l f c) ∙ updated.role
