-- ===== src/Login.antt =====
-- The sign-in form: login and logout of webui/app/views/auth_views.py, with find_local_user and
-- authenticate of webui/app/auth/local.py. The password check, the directory and the clock are
-- parameters. The state is the session, the database and the failed-login counter.
pub mod Outcomes
mod Tests
use powerdns.Prelude.{
  ℕ, ◌==◌, Bool, true, false, not, ◌&&◌, ◌||◌, Option, none, some, List, [], ◌∷◌, find, is_empty,
  if◌then◌else◌,
}
use powerdns.Text.{Text, text, eq_text, strip, lower}
use powerdns.Roles.{GroupRoleMap}
use powerdns.Store.{User, Db, is_local, record_audit}
use powerdns.Passwords.{verify_password}
use powerdns.Session.{Session, login_user, logout_user, current_user}
use powerdns.Throttle.{LoginThrottle, is_locked, record_failure, reset}
use powerdns.Provision.{
  IdentityClaim, Denial, Admission, admitted, denied, integrity_error, resolve_identity,
}

-- What ldap_auth.authenticate gives: a LdapAuthError, nothing, or a claim.
pub data LdapAnswer : Type 0 where
  ldap_error : Text → LdapAnswer
  no_claim : LdapAnswer
  claimed : IdentityClaim → LdapAnswer

pub data LoginOutcome : Type 0 where
  already_in no_backend both_needed bad_credentials server_error : LoginOutcome
  locked_for : ℕ → LoginOutcome
  ldap_down : LoginOutcome
  refused : Denial → LoginOutcome
  signed_in : User → LoginOutcome

-- The part of the configuration that the form uses.
pub record AuthConfig : Type 0 where
  pub any_enabled : Bool
  pub local_enabled : Bool
  pub ldap_enabled : Bool
  pub ldap_roles : GroupRoleMap

pub record State : Type 0 where
  pub session : Session
  pub db : Db
  pub throttle : LoginThrottle

abbrev pub is_local_named : Text → User → Bool
is_local_named username u = eq_text (lower u.username) (lower (strip username)) && is_local u

pub find_local_user : Text → List User → Option User
find_local_user username us = find (is_local_named username) us

module _ (check : Text → Text → Bool) where
  abbrev pub if_active : Option User → Bool → Option User
  if_active none verified = none
  if_active (some user) verified =
      if not verified then none else if not user.is_active then none else some user

  -- local_auth.authenticate
  pub authenticate : Text → Text → List User → Option User
  authenticate username password us =
      let user = find_local_user username us in if_active user (verify_password check user password)

module _ (check : Text → Text → Bool) (ldap : Text → Text → LdapAnswer) (describe : Denial → Text)
    (second now : ℕ) (token addr : Text) where
  abbrev audit : Text → Text → Text → State → State
  audit action target detail st = record st {
    db = record_audit addr action target detail none false st.db;
  }

  pub fail : Text → State → LoginOutcome × State
  fail username st = (
    bad_credentials,
    audit (text "login.failed") username []
        (record st { throttle = record_failure second username addr now st.throttle }),
  )

  pub succeed : Text → User → State → LoginOutcome × State
  succeed username user st =
      let (session, db) = login_user user now token st.db in
      (
        signed_in user,
        record {
          session = session;
          db = record_audit addr (text "login.success") user.username [] (some user) true db;
          throttle = reset username addr st.throttle;
        },
      )

  abbrev pub provisioned : Text → Admission × Db → State → LoginOutcome × State
  provisioned username (admitted user, db) st = succeed username user (record st { db = db })
  provisioned username (denied d, db) st =
      (refused d, audit (text "login.denied") username (describe d) (record st { db = db }))
  provisioned username (integrity_error, db) st = (server_error, record st { db = db })

  abbrev pub by_directory : AuthConfig → Text → LdapAnswer → State → LoginOutcome × State
  by_directory config username (ldap_error e) st =
      (ldap_down, audit (text "login.ldap_error") username e st)
  by_directory config username no_claim st = fail username st
  by_directory config username (claimed claim) st =
      provisioned username (resolve_identity addr claim config.ldap_roles st.db) st

  abbrev pub after_local : AuthConfig → Text → Text → Option User → State → LoginOutcome × State
  after_local config username password (some user) st = succeed username user st
  after_local config username password none st =
      if config.ldap_enabled
      then by_directory config username (ldap username password) st
      else fail username st

  abbrev pub local_user : AuthConfig → Text → Text → State → Option User
  local_user config username password st =
      if config.local_enabled then authenticate check username password st.db.users else none

  abbrev pub after_lock :
      AuthConfig → Text → Text → ℕ × LoginThrottle → State → LoginOutcome × State
  after_lock config username password (seconds, throttle) st =
      let st' = record st { throttle = throttle } in
      if seconds == 0
      then after_local config username password (local_user config username password st') st'
      else (locked_for seconds, audit (text "login.throttled") username [] st')

  abbrev pub submit : AuthConfig → Text → Text → State → LoginOutcome × State
  submit config username password st =
      if is_empty username || is_empty password
      then (both_needed, st)
      else after_lock config username password (is_locked second username addr now st.throttle) st

  abbrev pub for_visitor : AuthConfig → Text → Text → Option User → State → LoginOutcome × State
  for_visitor config username password (some user) st = (already_in, st)
  for_visitor config username password none st =
      if not config.any_enabled
      then (no_backend, st)
      else submit config (strip username) password st

  -- A POST of the form.
  pub login : AuthConfig → Text → Text → State → LoginOutcome × State
  login config username password st =
      let (user, session) = current_user st.session st.db in
      for_visitor config username password user (record st { session = session })

abbrev pub audited_logout : Text → Option User → Db → Db
audited_logout addr none db = db
audited_logout addr (some user) db =
    record_audit addr (text "logout") user.username [] (some user) true db

-- logout
unfoldable pub logout : Text → State → State
logout addr st =
    let (user, session) = current_user st.session st.db in
    record st { session = logout_user session; db = audited_logout addr user st.db }
