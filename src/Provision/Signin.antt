-- ===== src/Provision/Signin.antt =====
-- Who is admitted by a sign-in through a directory, with what role, and what it leaves alone.
use powerdns.Prelude.{
  ℕ, ◌<◌, ◌≡◌, ◌≢◌, inl, inr, refl, sym, ◌∙◌, subst, true, false, Option, none, some, [], ◌∷◌, ◌++◌,
  arith, All, Bool-cases, Option-cases,
}
use native.Mathlib.Decide.{ℕ_discrete}
use powerdns.Text.{Text, strip, lower}
use powerdns.Roles.{GroupRoleMap, resolve}
use powerdns.Store.{User, Db, is_local, get_user, set_user, record_audit}
use powerdns.Store.Users.{
  HasUniqueIds, get_user-set_user, get_user-set_user_self, get_user_fresh, get_user-append,
}
use powerdns.Provision.{
  IdentityClaim, Admission, admitted, denied, integrity_error, Named, name, unnamed, Found,
  existing, fresh, clash, is_username, normalise_username, find_row, new_row, refreshed, role_audit,
  commit, admit_existing, admit_fresh, admit, with_name, with_role, resolve_identity, is_taken,
}
use powerdns.Provision.Rows.{
  named_lem, find_row_lem, IsRefreshed, refreshed-IsRefreshed, users-role_audit,
}

-- The keys of the users table are unique and below the next one.
pub record IsKeyed (db : Db) : Type 0 where
  pub unique : HasUniqueIds db.users
  pub below : All (λ u. u.id < db.next_id) db.users

-- What an admitted row is, beside the table before and after.
pub record IsAdmitted (claim : IdentityClaim) (roles : GroupRoleMap) (db db' : Db) (row : User)
    : Type 0 where
  pub written : get_user row.id db'.users ≡ some row
  pub active : row.is_active ≡ true
  pub named : (row.username ≡ lower (strip claim.username)) × (is_username row.username ≡ true)
  pub entitled :
      (role : Text) × (resolve roles claim.groups ≡ some role)
      × (row.role_locked ≡ false → row.role ≡ role)
  pub kept :
      (u : User)
      → get_user row.id db.users ≡ some u
      → (u.is_active ≡ true)
        × (row.role_locked ≡ u.role_locked)
        × (u.role_locked ≡ true → row.role ≡ u.role)
        × (row.zone_grants ≡ u.zone_grants)
        × (is_local u ≡ true → u.auth_provider ≢ [])
  pub others : (j : ℕ) → j ≢ row.id → get_user j db'.users ≡ get_user j db.users

abbrev pub Admits : IdentityClaim → GroupRoleMap → Db → Admission × Db → Type 0
Admits claim roles db (admitted row, db') = IsAdmitted claim roles db db' row
Admits claim roles db (denied d, db') = db' ≡ db
Admits claim roles db (integrity_error, db') = db' ≡ db

module _ (addr : Text) (claim : IdentityClaim) (roles : GroupRoleMap) where
  -- A commit either is refused and changes nothing, or admits the row that it was given.
  commit-Admits :
      (row : User) (db after : Db)
      → IsAdmitted claim roles db after row
      → Admits claim roles db (commit addr row db after)
  unfolding commit
  commit-Admits row db after h = elim (Bool-cases (is_taken row db.users)) [
    | inl e ↦ rw e refl
    | inr e ↦ rw e h
  ]

  module _ (username role : Text)
      (named : (username ≡ lower (strip claim.username)) × (is_username username ≡ true))
      (entitled : resolve roles claim.groups ≡ some role) where
    existing-IsAdmitted :
        (u row : User) (db after : Db)
        → get_user u.id db.users ≡ some u
        → (is_local u ≡ true → u.auth_provider ≢ [])
        → u.is_active ≡ true
        → IsRefreshed username role u row
        → after.users ≡ set_user row db.users
        → IsAdmitted claim roles db after row
    existing-IsAdmitted u row db after g l a r w =
        let g' : get_user row.id db.users ≡ some u = rw r.id g in
        record {
          written = rw w (get_user-set_user_self row db.users {v = u} g');
          active = r.is_active ∙ a;
          named = rw r.username named;
          entitled = (role, entitled, λ f. r.mapped (sym r.role_locked ∙ f));
          kept = λ v gv.
              let same : u ≡ v = cc in
              subst
                (λ v.
                  (v.is_active ≡ true)
                  × (row.role_locked ≡ v.role_locked)
                  × (v.role_locked ≡ true → row.role ≡ v.role)
                  × (row.zone_grants ≡ v.zone_grants)
                  × (is_local v ≡ true → v.auth_provider ≢ []))
                same (a, r.role_locked, r.pinned, r.zone_grants, l);
          others = λ j ne. rw w (get_user-set_user j row db.users ne);
        }

    admit_existing-Admits :
        (u : User) (db : Db)
        → get_user u.id db.users ≡ some u
        → (is_local u ≡ true → u.auth_provider ≢ [])
        → Admits claim roles db (admit_existing addr claim username role u db)
    unfolding admit_existing
    admit_existing-Admits u db g l = elim (Bool-cases u.is_active) [
      | inl a ↦
          let row = refreshed claim username role u in
          let written = record db { users = set_user row db.users } in
          simp a (
            commit-Admits row db (role_audit addr username role u written) (
              existing-IsAdmitted u row db (role_audit addr username role u written) g l a
                (refreshed-IsRefreshed claim username role u)
                (users-role_audit addr username role u written)))
      | inr a ↦ simp a refl
    ]

    fresh-IsAdmitted :
        (new row : User) (db after : Db)
        → IsKeyed db
        → (new.id ≡ db.next_id) × (new.is_active ≡ true) × (new.role_locked ≡ false)
        → IsRefreshed username role new row
        → after.users ≡ db.users ++ row ∷ []
        → IsAdmitted claim roles db after row
    fresh-IsAdmitted new row db after h (id, a, unlocked) r w =
        let free : get_user row.id db.users ≡ none =
          rw (r.id, id) (get_user_fresh db.users db.next_id h.below) in
        record {
          written = rw (w, get_user-append, free) (ground arith);
          active = r.is_active ∙ a;
          named = rw r.username named;
          entitled = (role, entitled, λ _. r.mapped unlocked);
          kept = λ v gv. absurd (cc (sym free ∙ gv));
          others =
              λ j ne. rw (w, get_user-append) (ground (arith, Option-cases (get_user j db.users)));
        }

    admit_fresh-Admits :
        (db : Db) → IsKeyed db → Admits claim roles db (admit_fresh addr claim username role db)
    unfolding admit_fresh record_audit new_row
    admit_fresh-Admits db h = commit-Admits _ db _ (
        fresh-IsAdmitted (new_row claim username role db.next_id) _ db _ h (refl, refl, refl)
          (refreshed-IsRefreshed claim username role (new_row claim username role db.next_id)) refl)

  named-Admits :
      (role username : Text) (db : Db)
      → IsKeyed db
      → resolve roles claim.groups ≡ some role
      → normalise_username claim.username ≡ name username
      → (f : Found) → find_row claim username db.users ≡ f
      → Admits claim roles db (admit addr claim username role f db)
  named-Admits role username db h e n (existing u) f =
      let (g, l) = find_row_lem claim username db.users u h.unique f in
      admit_existing-Admits username role (named_lem claim.username username n) e u db g l
  named-Admits role username db h e n fresh f =
      admit_fresh-Admits username role (named_lem claim.username username n) e db h
  named-Admits role username db h e n clash f = refl

  with_name-Admits :
      (role : Text) (db : Db)
      → IsKeyed db
      → resolve roles claim.groups ≡ some role
      → (n : Named) → normalise_username claim.username ≡ n
      → Admits claim roles db (with_name addr claim role n db)
  with_name-Admits role db h e (unnamed d) n = refl
  with_name-Admits role db h e (name username) n =
      named-Admits role username db h e n (find_row claim username db.users) refl

  with_role-Admits :
      (db : Db)
      → IsKeyed db
      → (r : Option Text) → resolve roles claim.groups ≡ r
      → Admits claim roles db (with_role addr claim r db)
  with_role-Admits db h none e = refl
  with_role-Admits db h (some role) e =
      with_name-Admits role db h e (normalise_username claim.username) refl

  -- If the keys of the users table are unique and below the next one: a sign-in is refused, or
  -- breaks a unique constraint, and leaves the whole database as it was; or it admits one row, which
  -- stands in the table afterwards while all the others are as before. That row is active, has the
  -- claim's name in normal form, and has the role that the groups give, which must be some role,
  -- unless its role is pinned. If the row was there before, it was active, was no local account
  -- without a provider, and keeps its pin, the role under the pin, and its zones.
  pub resolve_identity_lem :
      (db : Db) → IsKeyed db → Admits claim roles db (resolve_identity addr claim roles db)
  unfolding resolve_identity
  resolve_identity_lem db h = with_role-Admits db h (resolve roles claim.groups) refl

  -- If the keys of the users table are unique and below the next one, no row of an account of the
  -- panel itself, which has no provider, is changed by a sign-in through a directory, whatever the
  -- claim says.
  pub resolve_identity-local :
      (db : Db) (u : User)
      → IsKeyed db
      → get_user u.id db.users ≡ some u
      → is_local u ≡ true
      → u.auth_provider ≡ []
      → get_user u.id (resolve_identity addr claim roles db).1.users ≡ some u
  resolve_identity-local db u h g l p =
      untouched (resolve_identity addr claim roles db) (resolve_identity_lem db h)
    where
      untouched : (r : Admission × Db) → Admits claim roles db r → get_user u.id r.1.users ≡ some u
      untouched (denied d, db') e = rw e g
      untouched (integrity_error, db') e = rw e g
      untouched (admitted row, db') a = elim (ℕ_discrete u.id row.id) [
        | yes same ↦
            let (_, _, _, _, provider) =
              a.kept u (subst (λ i. get_user i db.users ≡ some u) same g) in
            absurd (provider l p)
        | no other ↦ a.others u.id other ∙ g
      ]
