-- ===== src/Login/Tests.antt =====
-- Sign-ins through the form, with local accounts and without a directory.
use powerdns.Prelude.{Bool, ◌≡◌, refl, true, false, [], ◌∷◌}
use powerdns.Text.{Text, text, eq_text, strip, lower}
use powerdns.Dict.{lookup}
use powerdns.Passwords.{verify_password}
use powerdns.Session.{cleared, current_user}
use powerdns.Provision.{Denial}
use powerdns.Throttle.{is_locked}
use powerdns.Login.{
  LdapAnswer, no_claim, signed_in, bad_credentials, AuthConfig, State, login, find_local_user,
  authenticate, succeed, fail,
}
use powerdns.Login.Outcomes.{Result, login_lem}
use powerdns.Samples.{alice, sample_db, by_cn}

-- The hash is the password with a sign before it.
abbrev verify : Text → Text → Bool
verify stored password = eq_text stored (b'#' ∷ password)

abbrev no_directory : Text → Text → LdapAnswer
no_directory username password = no_claim

abbrev describe : Denial → Text
describe d = text "denied"

abbrev config : AuthConfig
config = record {
  any_enabled = true;
  local_enabled = true;
  ldap_enabled = false;
  ldap_roles = by_cn;
}

abbrev start : State
start = record {
  session = cleared;
  db = sample_db;
  throttle = record { max_attempts = 5; lockout_seconds = 900; failures = [] };
}

abbrev token : Text
token = text "token"

abbrev addr : Text
addr = text "192.0.2.1"

login_lem_example :
    Result verify no_directory describe 1 100 token addr config
      (strip (text " Alice "))
      (text "correct horse")
      start
      (current_user cleared sample_db).1
      (login verify no_directory describe 1 100 token addr config
        (text " Alice ")
        (text "correct horse")
        start)
login_lem_example =
    login_lem verify no_directory describe 1 100 token addr config (text " Alice ")
      (text "correct horse") start

right_password :
    (login verify no_directory describe 1 100 token addr config
      (text " Alice ")
      (text "correct horse")
      start).0
    ≡ signed_in alice
unfolding login current_user strip lower eq_text find_local_user authenticate verify_password
    succeed is_locked lookup
right_password = refl

wrong_password :
    (login verify no_directory describe 1 100 token addr config
      (text "alice")
      (text "wrong")
      start).0
    ≡ bad_credentials
unfolding login current_user strip lower eq_text find_local_user authenticate verify_password fail
    is_locked lookup
wrong_password = refl
