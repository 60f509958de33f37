-- ===== src/Provision.antt =====
-- Turning an external identity into a row of the users table: webui/app/auth/provisioning.py.
-- All the changes of one call stand in one transaction: a refusal, or a row that breaks a unique
-- constraint at the commit, leaves the database as it was.
pub mod Rows
pub mod Signin
pub mod Pinned
mod Tests
use powerdns.Prelude.{
  ℕ, suc, ◌+◌, Bool, true, false, not, ◌&&◌, ◌||◌, Option, none, some, List, [], ◌∷◌, ◌++◌, ◌==◌,
  any, all, find, keep, map, is_empty, length, take, leb, if◌then◌else◌,
}
use powerdns.Text.{or_else, Text, text, eq_text, strip, lower, join, dedup}
use powerdns.Roles.{Group, GroupRoleMap, resolve}
use powerdns.Store.{has_name, User, Db, is_local, set_user, record_audit}

pub record IdentityClaim : Type 0 where
  pub username : Text
  pub auth_source : Text
  pub provider : Text
  pub external_id : Option Text
  pub email : Text
  pub display_name : Text
  pub groups : List Group

abbrev pub non_empty : Text → Option Text
non_empty t = if is_empty t then none else some t

-- IdentityClaim.__init__; an external id that is absent is given as the empty text.
unfoldable pub identity_claim : Text → Text → Text → Text → Text → Text → List Group → IdentityClaim
identity_claim username auth_source provider external_id email display_name groups = record {
  username = strip username;
  auth_source = auth_source;
  provider = provider;
  external_id = non_empty (strip external_id);
  email = strip email;
  display_name = strip display_name;
  groups = groups;
}

pub data Denial : Type 0 where
  no_group no_username bad_username local_account deactivated : Denial

pub data Admission : Type 0 where
  admitted : User → Admission
  denied : Denial → Admission
  integrity_error : Admission

-- A character that USERNAME_RE allows.
abbrev pub is_username_char : ℕ → Bool
is_username_char c =
    leb b'A' c && leb c b'Z'
    || leb b'a' c && leb c b'z'
    || leb b'0' c && leb c b'9'
    || c == b'.'
    || c == b'_'
    || c == b'@'
    || c == b'+'
    || c == b'-'

-- USERNAME_RE.match
pub is_username : Text → Bool
is_username t = not (is_empty t) && leb (length t) 190 && all is_username_char t

pub data Named : Type 0 where
  name : Text → Named
  unnamed : Denial → Named

unfoldable pub normalise_username : Text → Named
normalise_username raw =
    let username = lower (strip raw) in
    if is_empty username
    then unnamed no_username
    else if not (is_username username)
    then unnamed bad_username
    else name username

abbrev pub group_text : Group → Text
group_text none = []
group_text (some g) = strip g

-- _group_summary
unfoldable pub group_summary : List Group → Text
group_summary groups =
    join (10 ∷ []) (take 200 (dedup (keep (λ g. not (is_empty g)) (map group_text groups))))

abbrev pub has_external : Text → Option Text → Bool
has_external external none = false
has_external external (some e) = eq_text e external

-- The row with the claim's subject, where the claim has one.
abbrev pub has_subject : Text → Text → User → Bool
has_subject provider external u =
    eq_text u.auth_provider provider && has_external external u.external_id

pub subject_row : IdentityClaim → Option Text → List User → Option User
subject_row claim none us = none
subject_row claim (some external) us =
    if is_empty claim.provider then none else find (has_subject claim.provider external) us

pub data Found : Type 0 where
  existing : User → Found
  fresh clash : Found

abbrev pub by_name : Option User → Found
by_name none = fresh
by_name (some u) = if is_local u then clash else existing u

abbrev pub by_subject : Option User → Text → List User → Found
by_subject (some u) username us = existing u
by_subject none username us = by_name (find (has_name username) us)

pub find_row : IdentityClaim → Text → List User → Found
find_row claim username us = by_subject (subject_row claim claim.external_id us) username us

pub new_row : IdentityClaim → Text → Text → ℕ → User
new_row claim username role i = record {
  id = i;
  username = username;
  email = [];
  display_name = [];
  auth_source = claim.auth_source;
  auth_provider = claim.provider;
  external_id = claim.external_id;
  password_hash = none;
  role = role;
  role_locked = false;
  last_groups = [];
  is_active = true;
  last_login_at = none;
  zone_grants = [];
}

abbrev pub or_else_id : Option Text → Option Text → Option Text
or_else_id none old = old
or_else_id (some e) old = some e

-- The directory's attributes and the role, written over a row.
pub refreshed : IdentityClaim → Text → Text → User → User
refreshed claim username role u = record u {
  username = username;
  auth_source = claim.auth_source;
  auth_provider = claim.provider;
  external_id = or_else_id claim.external_id u.external_id;
  email = or_else claim.email u.email;
  display_name = or_else claim.display_name u.display_name;
  last_groups = group_summary claim.groups;
  role = if u.role_locked then u.role else role;
}

abbrev pub same_external : Option Text → Option Text → Bool
same_external (some a) (some b) = eq_text a b
same_external _ _ = false

-- The unique constraints of the users table: another row has the name or the subject.
abbrev pub collides : User → User → Bool
collides row u =
    not (u.id == row.id)
    && (eq_text u.username row.username
        || eq_text u.auth_provider row.auth_provider && same_external u.external_id row.external_id)

pub is_taken : User → List User → Bool
is_taken row us = any (collides row) us

module _ (addr : Text) where
  abbrev pub role_audit : Text → Text → User → Db → Db
  role_audit username role u db =
      if not u.role_locked && not (eq_text u.role role)
      then record_audit addr (text "user.role_change") username
          (u.role ++ text " -> " ++ role ++ text " (from group mapping)") none true db
      else db

  pub commit : User → Db → Db → Admission × Db
  commit row before after =
      if is_taken row before.users then (integrity_error, before) else (admitted row, after)

  pub admit_existing : IdentityClaim → Text → Text → User → Db → Admission × Db
  admit_existing claim username role u db =
      let row = refreshed claim username role u in
      if not u.is_active
      then (denied deactivated, db)
      else commit row db (role_audit username role u (record db { users = set_user row db.users }))

  pub admit_fresh : IdentityClaim → Text → Text → Db → Admission × Db
  admit_fresh claim username role db =
      let row = refreshed claim username role (new_row claim username role db.next_id) in
      commit row db (
        record_audit addr (text "user.provision") username
          (text "source=" ++ claim.auth_source ++ text " role=" ++ role) none true
          (record db { users = db.users ++ row ∷ []; next_id = suc db.next_id }))

  abbrev pub admit : IdentityClaim → Text → Text → Found → Db → Admission × Db
  admit claim username role (existing u) db = admit_existing claim username role u db
  admit claim username role fresh db = admit_fresh claim username role db
  admit claim username role clash db = (denied local_account, db)

  abbrev pub with_name : IdentityClaim → Text → Named → Db → Admission × Db
  with_name claim role (unnamed d) db = (denied d, db)
  with_name claim role (name username) db =
      admit claim username role (find_row claim username db.users) db

  abbrev pub with_role : IdentityClaim → Option Text → Db → Admission × Db
  with_role claim none db = (denied no_group, db)
  with_role claim (some role) db = with_name claim role (normalise_username claim.username) db

  pub resolve_identity : IdentityClaim → GroupRoleMap → Db → Admission × Db
  resolve_identity claim roles db = with_role claim (resolve roles claim.groups) db
