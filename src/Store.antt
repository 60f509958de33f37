-- ===== src/Store.antt =====
-- The panel's database: the tables of webui/app/models.py as lists of rows, in the order of their
-- primary keys. Timestamps that no code reads (created_at, updated_at) are left out.
-- The audit trail's `record` of webui/app/audit.py is here too, since every handler calls it.
pub mod Users
pub mod Audit
use powerdns.Prelude.{
  ℕ, suc, Bool, true, false, not, ◌||◌, ◌&&◌, Option, none, some, List, [], ◌∷◌, ◌++◌, ◌==◌, any,
  find, keep, count, map, is_empty, take, if◌then◌else◌,
}
use powerdns.Text.{Text, text, eq_text, lower, rstrip_dots, contains}
use powerdns.Roles.{role_admin, role_operator}

pub record User : Type 0 where
  pub id : ℕ
  pub username : Text
  pub email : Text
  pub display_name : Text
  pub auth_source : Text
  pub auth_provider : Text
  pub external_id : Option Text
  pub password_hash : Option Text
  pub role : Text
  pub role_locked : Bool
  pub last_groups : Text
  pub is_active : Bool
  pub last_login_at : Option ℕ
  pub zone_grants : List Text

pub record ReverseLink : Type 0 where
  pub forward_zone : Text
  pub forward_name : Text
  pub forward_type : Text
  pub address : Text
  pub reverse_zone : Text
  pub ptr_name : Text

pub record ZoneReverseLink : Type 0 where
  pub forward_zone : Text
  pub reverse_zone : Text

pub record AuditLog : Type 0 where
  pub actor_id : Option ℕ
  pub actor_name : Text
  pub action : Text
  pub target : Text
  pub detail : Text
  pub remote_addr : Text
  pub success : Bool

pub record Db : Type 0 where
  pub users : List User
  pub next_id : ℕ
  pub reverse_links : List ReverseLink
  pub zone_reverse_links : List ZoneReverseLink
  pub audit_log : List AuditLog

-- config.AUTH_LOCAL
abbrev pub auth_local : Text
auth_local = text "local"

abbrev pub is_admin : User → Bool
is_admin u = eq_text u.role role_admin

abbrev pub is_operator : User → Bool
is_operator u = contains u.role (role_admin ∷ role_operator ∷ [])

abbrev pub is_local : User → Bool
is_local u = eq_text u.auth_source auth_local

-- select(User).filter(func.lower(User.username) == username)
abbrev pub has_name : Text → User → Bool
has_name username u = eq_text (lower u.username) username

-- User.can_see_zone, which is User.can_edit_zone too
unfoldable pub can_see_zone : User → Text → Bool
can_see_zone u zone_name =
    if is_operator u
    then true
    else any (λ grant. eq_text (rstrip_dots (lower grant)) (rstrip_dots (lower zone_name)))
        u.zone_grants

-- db.get(User, id)
unfoldable pub get_user : ℕ → List User → Option User
get_user i us = find (λ u. u.id == i) us

-- Writing a changed row back.
unfoldable pub set_user : User → List User → List User
set_user u us = map (λ v. if v.id == u.id then u else v) us

-- db.delete(user)
unfoldable pub remove_user : ℕ → List User → List User
remove_user i us = keep (λ u. not (u.id == i)) us

abbrev is_actor : ℕ → Option ℕ → Bool
is_actor i none = false
is_actor i (some j) = j == i

-- ON DELETE SET NULL of audit_log.actor_id
unfoldable pub forget_actor : ℕ → List AuditLog → List AuditLog
forget_actor i entries =
    map (λ (e : AuditLog). if is_actor i e.actor_id then record e { actor_id = none } else e)
      entries

abbrev pub is_active_admin : User → Bool
is_active_admin u = is_admin u && u.is_active

unfoldable pub active_admins : List User → ℕ
active_admins us = count is_active_admin us

-- The count that update_user and delete_user make: active administrators but this one.
unfoldable pub other_admins : ℕ → List User → ℕ
other_admins i us = count (λ u. is_active_admin u && not (u.id == i)) us

abbrev actor_name : Option User → Text
actor_name none = text "system"
actor_name (some u) = u.username

abbrev actor_id : Option User → Option ℕ
actor_id none = none
actor_id (some u) = some u.id

-- audit.record, with the request's remote address. The insert is taken to succeed.
unfoldable pub record_audit : Text → Text → Text → Text → Option User → Bool → Db → Db
record_audit remote_addr action target detail actor success db = record db {
  audit_log =
      db.audit_log
      ++ (record {
        actor_id = actor_id actor;
        actor_name = take 190 (actor_name actor);
        action = take 64 action;
        target = take 255 target;
        detail = detail;
        remote_addr = take 64 remote_addr;
        success = success;
      })
        ∷ [];
}
