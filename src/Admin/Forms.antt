-- ===== src/Admin/Forms.antt =====
-- What the posts of user administration read from their forms, and what they may come to: parts of
-- create_user, update_user and update_zone_access of webui/app/views/admin.py.
use powerdns.Prelude.{
  ℕ, Bool, true, false, not, ◌&&◌, Option, none, some, List, [], ◌∷◌, ◌++◌, any, keep, map,
  is_empty, length, if◌then◌else◌,
}
use powerdns.Text.{
  or_else, Text, text, eq_text, strip, lower, contains, join, dedup, sorted, decimal,
}
use powerdns.Names.{canonical}
use powerdns.Roles.{role_user, roles}
use powerdns.Store.{has_name, User, Db, is_local}
use powerdns.Form.{Form, field, field_list, is_on}
use powerdns.Passwords.{PasswordProblem, password_problems}

pub data Problem : Type 0 where
  no_username bad_role passwords_differ name_taken : Problem
  password : PasswordProblem → Problem

pub data Outcome : Type 0 where
  sign_in_first refused not_found : Outcome
  invalid : List Problem → Outcome
  bad_role_chosen last_admin own_account : Outcome
  bad_password : List PasswordProblem → Outcome
  saved : Outcome

pub data Request : Type 0 where
  create : Form → Request
  update grant : ℕ → Form → Request
  delete : ℕ → Request

abbrev pub when : Bool → Problem → List Problem
when b p = if b then p ∷ [] else []

pub create_problems : Form → Db → List Problem
create_problems form db =
    let username = lower (strip (field form (text "username"))) in
    let secret = field form (text "password") in
    let role = strip (or_else (field form (text "role")) role_user) in
    when (is_empty username) no_username
    ++ when (not (contains role roles)) bad_role
    ++ when (not (eq_text secret (field form (text "confirm_password")))) passwords_differ
    ++ map password (password_problems secret username)
    ++ when (not (is_empty username) && any (has_name username) db.users) name_taken

-- The new role and state, before the local account's own fields.
abbrev pub with_role : Text → User → User
with_role role user =
    if eq_text user.role role
    then user
    else record user { role = role; role_locked = if is_local user then user.role_locked else true }

abbrev pub with_state : Bool → User → User
with_state active user = record user { is_active = active }

abbrev pub hand_back : Form → User → User
hand_back form user =
    if not (is_local user) && is_on form (text "role_from_directory")
    then record user { role_locked = false }
    else user

abbrev pub part : Bool → Text → List Text
part b t = if b then t ∷ [] else []

-- `changes`, for the audit entry.
pub changes : Form → Text → Bool → Bool → User → List Text
changes form role active new_password user =
    part (not (eq_text user.role role)) (text "role " ++ user.role ++ text "->" ++ role)
    ++ part (not user.is_active && active) (text "activated")
    ++ part (user.is_active && not active) (text "deactivated")
    ++ part
        (not (is_local user)
          && is_on form (text "role_from_directory")
          && (with_role role user).role_locked)
        (text "role handed back to the group mapping")
    ++ part new_password (text "password reset")

-- _get_user_or_404
abbrev pub or_404 : Option User → (User → Outcome × Db) → Db → Outcome × Db
or_404 none go db = (not_found, db)
or_404 (some user) go db = go user

-- The role that the form asks for.
abbrev pub asked_role : Form → User → Text
asked_role form user = strip (or_else (field form (text "role")) user.role)

-- The zones that update_zone_access grants: the ticked ones, once each.
abbrev pub selected_zones : Form → List Text
selected_zones form =
    dedup (map canonical (keep (λ z. not (is_empty (strip z))) (field_list form (text "zones"))))

-- The grants afterwards: those that stay, and then the new ones.
abbrev pub new_grants : List Text → User → List Text
new_grants selected user =
    keep (λ z. contains z selected) user.zone_grants
    ++ keep (λ z. not (contains z user.zone_grants)) selected

abbrev pub zones_detail : List Text → Text
zones_detail selected =
    decimal (length selected)
    ++ text " zone(s): "
    ++ or_else (join (text ", ") (sorted selected)) (text "none")
