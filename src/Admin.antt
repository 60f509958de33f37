-- ===== src/Admin.antt =====
-- User administration: the handlers of webui/app/views/admin.py that change the users table.
-- A handler takes the database, the acting administrator and the posted form, and gives back what
-- the page says (`Outcome`) with the database that the request leaves. A request that ends without a
-- commit leaves the database as it was, whatever rows it had changed in its session.
mod Forms
pub mod Managed
pub mod Invariant
pub mod Update
mod Tests
pub use Forms.*
use powerdns.Prelude.{
  ℕ, suc, ◌+◌, Bool, true, false, not, ◌&&◌, ◌||◌, Option, none, some, List, [], ◌∷◌, ◌++◌, ◌==◌,
  any, all, keep, map, is_empty, length, take, if◌then◌else◌,
}
use powerdns.Text.{
  or_else, Text, text, eq_text, strip, lower, contains, join, dedup, sorted, decimal,
}
use powerdns.Names.{canonical}
use powerdns.Roles.{role_admin, role_user, roles}
use powerdns.Store.{
  has_name, User, Db, auth_local, is_admin, is_local, get_user, set_user, remove_user, forget_actor,
  other_admins, record_audit,
}
use powerdns.Form.{Form, field, field_list, is_on}
use powerdns.Passwords.{PasswordProblem, password_problems}
use powerdns.Session.{Session, Gate, signed_out, forbidden, enter, admin_required, current_user}

-- `hash` is hash_password, whose scrypt is Werkzeug's; `addr` is the request's remote address.
module _ (hash : Text → Text) (addr : Text) where
  -- The row that create_user adds.
  pub new_user : Form → ℕ → User
  new_user form i = record {
    id = i;
    username = lower (strip (field form (text "username")));
    email = take 254 (strip (field form (text "email")));
    display_name = take 190 (strip (field form (text "display_name")));
    auth_source = auth_local;
    auth_provider = [];
    external_id = none;
    password_hash = some (hash (field form (text "password")));
    role = strip (or_else (field form (text "role")) role_user);
    role_locked = false;
    last_groups = [];
    is_active = true;
    last_login_at = none;
    zone_grants = [];
  }

  -- The commit fails where another row has the very same username (the unique constraint).
  pub create_user : Form → User → Db → Outcome × Db
  create_user form actor db =
      let problems = create_problems form db in
      let user = new_user form db.next_id in
      if not (is_empty problems)
      then (invalid problems, db)
      else if any (λ u. eq_text u.username user.username) db.users
      then (invalid (name_taken ∷ []), db)
      else (
        saved,
        record_audit addr (text "user.create") user.username (text "role=" ++ user.role)
            (some actor) true
            (record db { users = db.users ++ user ∷ []; next_id = suc db.next_id }),
      )

  -- The whole changed row, or the problems with a new password.
  abbrev pub with_password : Text → List PasswordProblem → User → List PasswordProblem × User
  with_password secret problems user =
      if is_empty problems
      then ([], record user { password_hash = some (hash secret) })
      else (problems, user)

  abbrev pub local_fields : Form → User → List PasswordProblem × User
  local_fields form user =
      let secret = field form (text "new_password") in
      let named = record user {
        display_name = take 190 (strip (field form (text "display_name")));
        email = take 254 (strip (field form (text "email")));
      } in
      if is_empty secret
      then ([], named)
      else with_password secret (password_problems secret user.username) named

  unfoldable pub changed_row : Form → Text → Bool → User → List PasswordProblem × User
  changed_row form role active user =
      let row = hand_back form (with_state active (with_role role user)) in
      if is_local user then local_fields form row else ([], row)

  unfoldable pub commit_update :
      Form → User → User → List PasswordProblem × User → Db → Outcome × Db
  commit_update form actor user (problems, row) db =
      let new_password = is_local user && not (is_empty (field form (text "new_password"))) in
      let detail =
        join (text "; ")
          (changes form (asked_role form user) (is_on form (text "is_active")) new_password user) in
      if not (is_empty problems) then (bad_password problems, db) else (
        saved,
        record_audit addr (text "user.update") user.username (or_else detail (text "no changes"))
            (some actor) true (record db { users = set_user row db.users }),
      )

  unfoldable pub update_found : Form → User → User → Db → Outcome × Db
  update_found form actor user db =
      let role = asked_role form user in
      let active = is_on form (text "is_active") in
      if not (contains role roles)
      then (bad_role_chosen, db)
      else if is_admin user
          && (not (eq_text role role_admin) || not active)
          && other_admins user.id db.users == 0
      then (last_admin, db)
      else if user.id == actor.id && not active
      then (own_account, db)
      else commit_update form actor user (changed_row form role active user) db

  unfoldable pub update_user : ℕ → Form → User → Db → Outcome × Db
  update_user i form actor db =
      or_404 (get_user i db.users) (λ user. update_found form actor user db) db

  pub delete_found : User → User → Db → Outcome × Db
  delete_found actor user db =
      if user.id == actor.id
      then (own_account, db)
      else if is_admin user && other_admins user.id db.users == 0
      then (last_admin, db)
      else (
        saved,
        record_audit addr (text "user.delete") user.username [] (some actor) true (record db {
          users = remove_user user.id db.users;
          audit_log = forget_actor user.id db.audit_log;
        }),
      )

  pub delete_user : ℕ → User → Db → Outcome × Db
  delete_user i actor db = or_404 (get_user i db.users) (λ user. delete_found actor user db) db

  pub grant_found : Form → User → User → Db → Outcome × Db
  grant_found form actor user db =
      let selected = selected_zones form in
      (
        saved,
        record_audit addr (text "user.zone_access") user.username (zones_detail selected)
            (some actor) true
            (record db {
              users = set_user (record user { zone_grants = new_grants selected user }) db.users;
            }),
      )

  pub update_zone_access : ℕ → Form → User → Db → Outcome × Db
  update_zone_access i form actor db =
      or_404 (get_user i db.users) (λ user. grant_found form actor user db) db

  -- The posts of the blueprint.
  pub run : Request → User → Db → Outcome × Db
  run (create form) actor db = create_user form actor db
  run (update i form) actor db = update_user i form actor db
  run (grant i form) actor db = update_zone_access i form actor db
  run (delete i) actor db = delete_user i actor db

  -- @admin_required
  abbrev pub behind : Gate → Request → Db → Outcome × Db
  behind signed_out req db = (sign_in_first, db)
  behind forbidden req db = (refused, db)
  behind (enter actor) req db = run req actor db

  pub handle : Session → Request → Db → Outcome × Db
  handle s req db = behind (admin_required (current_user s db).0) req db

  -- Requests one after another, each with the session that it came with.
  pub serve : List (Session × Request) → Db → Db
  serve [] db = db
  serve ((s, req) ∷ rest) db = serve rest (handle s req db).1
