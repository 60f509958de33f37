-- ===== src/Samples.antt =====
-- Test data that several components share: three accounts, a database and a group map.
use powerdns.Prelude.{true, false, none, some, [], ◌∷◌}
use powerdns.Text.{text}
use powerdns.Roles.{GroupRoleMap, role_admin, role_user}
use powerdns.Store.{User, Db, auth_local}

abbrev pub alice : User
alice = record {
  id = 1;
  username = text "alice";
  email = [];
  display_name = [];
  auth_source = auth_local;
  auth_provider = [];
  external_id = none;
  password_hash = some (text "#correct horse");
  role = role_admin;
  role_locked = false;
  last_groups = [];
  is_active = true;
  last_login_at = none;
  zone_grants = [];
}

abbrev pub bob : User
bob = record {
  id = 2;
  username = text "bob";
  email = [];
  display_name = [];
  auth_source = text "ldap";
  auth_provider = text "ldap";
  external_id = some (text "uid-2");
  password_hash = none;
  role = role_user;
  role_locked = false;
  last_groups = [];
  is_active = true;
  last_login_at = none;
  zone_grants = text "Example.org" ∷ [];
}

abbrev pub sample_db : Db
sample_db = record {
  users = alice ∷ bob ∷ [];
  next_id = 3;
  reverse_links = [];
  zone_reverse_links = [];
  audit_log = [];
}

abbrev pub by_cn : GroupRoleMap
by_cn = record {
  admin_groups = text "dns-admins" ∷ [];
  operator_groups = [];
  user_groups = text "staff" ∷ [];
  default_role = none;
}
