-- ===== src/Admin/Managed.antt =====
-- A table that is managed: writes of one row, for the handlers of webui/app/views/admin.py.
use powerdns.Prelude.{
  suc, ◌<◌, ◌≡◌, ◌≢◌, ◌⊎◌, subst, All-append, Bool, true, false, ◌&&◌, Option, some, [], ◌∷◌, ◌++◌,
  ◌==◌, arith, All, inl, inr,
}
use powerdns.Text.{Text}
use powerdns.Store.{
  User, Db, is_admin, is_active_admin, active_admins, other_admins, get_user, set_user, remove_user,
  forget_actor, record_audit,
}
use powerdns.Store.Users.{
  HasUniqueIds, get_user-id, other_admins-le-set_user, admin_stays, other_admins_of_inactive,
  active_admins-remove_user, set_user-HasUniqueIds, remove_user-HasUniqueIds, set_user-All,
  get_user-All, remove_user-All, append-HasUniqueIds, All-weaken, active_admins-append,
}

pub record IsManaged (db : Db) : Type 0 where
  pub unique : HasUniqueIds db.users
  pub below : All (λ u. u.id < db.next_id) db.users
  pub manned : 0 < active_admins db.users

pub audit-IsManaged :
    (addr : Text) (db : Db) (action target detail : Text) (actor : Option User) (success : Bool)
    → IsManaged db
    → IsManaged (record_audit addr action target detail actor success db)
unfolding record_audit
audit-IsManaged addr db action target detail actor success h = record {
  unique = h.unique;
  below = h.below;
  manned = h.manned;
}

-- A row that is written back keeps an active administrator if it is one, if another is left, or if
-- the old row was none.
pub manned_after :
    (db : Db) (user row : User)
    → IsManaged db
    → get_user row.id db.users ≡ some user
    → (is_active_admin row ≡ true)
      ⊎ (other_admins row.id db.users ≢ 0)
      ⊎ (is_active_admin user ≡ false)
    → 0 < active_admins (set_user row db.users)
manned_after db user row h g (inl a) = admin_stays row db.users g a
manned_after db user row h g (inr (inl a)) = omega (arith, other_admins-le-set_user row db.users)
manned_after db user row h g (inr (inr a)) = omega (
  arith,
  h.manned,
  other_admins-le-set_user row db.users,
  other_admins_of_inactive row.id db.users h.unique g a,
)

pub write-IsManaged :
    (db : Db) (user row : User)
    → IsManaged db
    → get_user row.id db.users ≡ some user
    → (is_active_admin row ≡ true)
      ⊎ (other_admins row.id db.users ≢ 0)
      ⊎ (is_active_admin user ≡ false)
    → IsManaged (record db { users = set_user row db.users })
write-IsManaged db user row h g c = record {
  unique = set_user-HasUniqueIds row db.users h.unique;
  below =
      set_user-All (λ v. v.id < db.next_id) row db.users
        (subst (λ i. i < db.next_id) (get_user-id row.id db.users g)
          (get_user-All (λ v. v.id < db.next_id) row.id db.users user g h.below))
        h.below;
  manned = manned_after db user row h g c;
}

pub remove-IsManaged :
    (user : User) (db : Db)
    → IsManaged db
    → get_user user.id db.users ≡ some user
    → (is_admin user && other_admins user.id db.users == 0) ≡ false
    → IsManaged (record db {
      users = remove_user user.id db.users;
      audit_log = forget_actor user.id db.audit_log;
    })
remove-IsManaged user db h g e = record {
  unique = remove_user-HasUniqueIds user.id db.users h.unique;
  below = remove_user-All (λ u. u.id < db.next_id) user.id db.users h.below;
  manned = ground (
    arith,
    h.manned,
    active_admins-remove_user user.id db.users,
    other_admins_of_inactive user.id db.users {u = user} h.unique g,
  );
}

pub append-IsManaged :
    (user : User) (db : Db)
    → IsManaged db
    → user.id ≡ db.next_id
    → IsManaged (record db { users = db.users ++ user ∷ []; next_id = suc db.next_id })
append-IsManaged user db h e = record {
  unique = append-HasUniqueIds db.users user db.next_id h.unique h.below e;
  below =
      All-append (λ u. u.id < suc db.next_id) db.users (user ∷ [])
        (All-weaken db.users db.next_id h.below) ((omega arith), tt);
  manned = omega (arith, h.manned, active_admins-append db.users user);
}
