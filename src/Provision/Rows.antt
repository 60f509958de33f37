-- ===== src/Provision/Rows.antt =====
-- Rows that a claim finds and rows that it refreshes: the lookups and the writes of resolve_identity in
-- webui/app/auth/provisioning.py.
use powerdns.Prelude.{
  ◌≡◌, ◌≢◌, inl, inr, true, false, Option, none, some, List, [], arith, Option-cases, find,
}
use powerdns.Text.{Text, strip, lower}
use powerdns.Text.Laws.{eq_text_iff}
use powerdns.Store.{has_name, User, Db, is_local, get_user, record_audit}
use powerdns.Store.Users.{HasUniqueIds, get_user-find}
use powerdns.Provision.{
  IdentityClaim, name, existing, is_username, normalise_username, has_subject, subject_row, by_name,
  by_subject, find_row, refreshed, role_audit,
}

pub named_lem :
    (raw username : Text)
    → normalise_username raw ≡ name username
    → (username ≡ lower (strip raw)) × (is_username username ≡ true)
unfolding normalise_username
named_lem raw username h = ground arith

-- The row that a claim finds is the row under its own key, and is no local account without provider.
pub subject_row_lem :
    (claim : IdentityClaim) (external : Option Text) (us : List User) (u : User)
    → HasUniqueIds us
    → subject_row claim external us ≡ some u
    → (get_user u.id us ≡ some u) × (u.auth_provider ≢ [])
unfolding subject_row
subject_row_lem claim none us u h e = cc
subject_row_lem claim (some external) us u h e = ground (
  arith,
  get_user-find (has_subject claim.provider external) us u h,
  eq_text_iff u.auth_provider claim.provider,
)

by_name_lem :
    (username : Text) (us : List User) (u : User)
    → HasUniqueIds us
    → by_name (find (has_name username) us) ≡ existing u
    → (get_user u.id us ≡ some u) × (is_local u ≡ false)
by_name_lem username us u h e = ground (arith, get_user-find (has_name username) us u h)

pub find_row_lem :
    (claim : IdentityClaim) (username : Text) (us : List User) (u : User)
    → HasUniqueIds us
    → find_row claim username us ≡ existing u
    → (get_user u.id us ≡ some u) × (is_local u ≡ true → u.auth_provider ≢ [])
unfolding find_row
find_row_lem claim username us u h e =
    elim (Option-cases (subject_row claim claim.external_id us)) [
      | inl n ↦
          let (g, l) = by_name_lem username us u h (rw (n, by_subject) at e) in (g, ground arith)
      | inr (w, s) ↦
          let same : w ≡ u = ground arith in
          let (g, p) = subject_row_lem claim claim.external_id us u h (ground arith) in (g, λ _. p)
    ]

-- What `refreshed` makes of a row.
pub record IsRefreshed (new_name new_role : Text) (u row : User) : Type 0 where
  pub id : row.id ≡ u.id
  pub username : row.username ≡ new_name
  pub is_active : row.is_active ≡ u.is_active
  pub role_locked : row.role_locked ≡ u.role_locked
  pub pinned : u.role_locked ≡ true → row.role ≡ u.role
  pub mapped : u.role_locked ≡ false → row.role ≡ new_role
  pub zone_grants : row.zone_grants ≡ u.zone_grants

pub refreshed-IsRefreshed :
    (claim : IdentityClaim) (username role : Text) (u : User)
    → IsRefreshed username role u (refreshed claim username role u)
unfolding refreshed
refreshed-IsRefreshed claim username role u = ground arith

pub users-role_audit :
    (addr username role : Text) (u : User) (db : Db)
    → (role_audit addr username role u db).users ≡ db.users
unfolding record_audit
users-role_audit addr username role u db = ground arith
