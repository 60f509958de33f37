-- ===== src/Ldap/Bind.antt =====
-- The two binds of a sign-in: _needs_start_tls, _service_connection, authenticate and test_connection
-- of webui/app/auth/ldap_auth.py.
use powerdns.Prelude.{
  Bool, true, false, not, ◌&&◌, Option, none, some, List, [], ◌∷◌, keep, map, is_empty,
  if◌then◌else◌,
}
use powerdns.Text.{Text, text, dedup}
use powerdns.Dict.{lookup}
use powerdns.Provision.{IdentityClaim, identity_claim}
use powerdns.Ldap.{
  LdapConfig, Server, build_server, Entry, Answer, got, ldap_exception, Ldap, ◌>>=◌, ◌>>◌, pure,
  Binder, anonymous, account, Ldap3,
}
use powerdns.Ldap.Filters.{format}
use powerdns.Ldap.Entries.{groups_from_entry}

-- What a LdapAuthError says.
pub data AuthError : Type 0 where
  unreachable start_tls_failed while_authenticating : Text → AuthError
  cannot_bind base_unreadable : AuthError

-- What authenticate gives: a claim, nothing, a LdapAuthError, or the error of a filter that cannot be
-- formatted, which nothing catches.
pub data Verdict : Type 0 where
  vouched : IdentityClaim → Verdict
  no_match bad_filter : Verdict
  auth_error : AuthError → Verdict

-- What test_connection reports, or raises; an LDAPException of its search is not caught.
pub data Tested : Type 0 where
  readable : Tested
  not_readable : AuthError → Tested
  raised : Text → Tested

abbrev pub auth_ldap : Text
auth_ldap = text "ldap"

abbrev pub first_value : Text → Option (List Text) → Text
first_value default none = default
first_value default (some []) = default
first_value default (some (v ∷ vs)) = v

-- first(name, default) of authenticate
abbrev pub first : Entry → Text → Text → Text
first entry name default = first_value default (lookup name entry.attributes)

abbrev pub binder : LdapConfig → Binder
binder config =
    if is_empty config.bind_dn then anonymous else account config.bind_dn config.bind_password

module _ {S C : Type 0} (ldap3 : Ldap3 S C) (escape : Text → Text) (config : LdapConfig) where
  abbrev pub needs_start_tls : C → Bool
  needs_start_tls connection = config.start_tls && not (ldap3.is_ssl connection)

  abbrev pub start_tls_if : Bool → C → Ldap S Unit
  start_tls_if true connection = ldap3.start_tls connection
  start_tls_if false connection = pure tt

  abbrev pub bound : C → Ldap S Bool
  bound connection s =
      if ldap3.is_bound connection s then (got true, s) else ldap3.bind connection s

  -- _service_connection, with whether the service account is bound.
  unfoldable pub service_connection : List Server → Ldap S (C × Bool)
  service_connection server = do
    connection ← ldap3.connect server (binder config)
    start_tls_if (needs_start_tls connection) connection
    is_bound ← bound connection
    pure (connection, is_bound)

  unfoldable pub user_filter : Text → Option Text
  unfolding format
  user_filter username =
      format
        ((text "username", escape username)
          ∷ (text "username_attribute", config.username_attribute)
          ∷ [])
        config.user_filter

  -- The attributes to ask for: a set in the code, so without repetitions.
  unfoldable pub wanted_attributes : List Text
  unfolding dedup
  wanted_attributes = dedup (
      keep (λ a. not (is_empty a))
        (config.username_attribute ∷ config.email_attribute ∷ config.display_name_attribute
          ∷ config.group_attribute ∷ []))

  unfoldable pub claim_of : Text → Entry → List Text → IdentityClaim
  claim_of username entry groups =
      identity_claim (first entry config.username_attribute username) auth_ldap (text "ldap")
        entry.dn (first entry config.email_attribute [])
        (first entry config.display_name_attribute []) (map some groups)

  abbrev pub claimed : Text → Entry → List Text × S → Verdict × S
  claimed username entry (groups, s) = (vouched (claim_of username entry groups), s)

  -- The answer to the bind with the password.
  abbrev pub after_bind : C → C → Text → Entry → Answer Bool × S → Verdict × S
  after_bind connection user_connection username entry (ldap_exception e, s) =
      (auth_error (while_authenticating e), s)
  after_bind connection user_connection username entry (got false, s) = (no_match, s)
  after_bind connection user_connection username entry (got true, s) = claimed username entry (
      groups_from_entry ldap3 escape config connection entry username
        (ldap3.unbind user_connection s))

  abbrev pub after_tls : C → C → Text → Entry → Answer Unit × S → Verdict × S
  after_tls connection user_connection username entry (ldap_exception e, s) =
      (auth_error (start_tls_failed e), s)
  after_tls connection user_connection username entry (got _, s) =
      after_bind connection user_connection username entry (ldap3.bind user_connection s)

  abbrev pub secure : Bool → C → Ldap S Unit
  secure false connection = pure tt
  secure true connection = ldap3.open_connection connection >> ldap3.start_tls connection

  unfoldable pub check_password : C → Text → Text → Entry → S → Verdict × S
  check_password connection username password entry s =
      let user_connection = ldap3.prepare connection entry.dn password in
      after_tls connection user_connection username entry
        (secure (needs_start_tls connection) user_connection s)

  -- Only a search that finds one entry goes on to the password.
  abbrev pub after_search : C → Text → Text → Answer (List Entry) × S → Verdict × S
  after_search connection username password (ldap_exception e, s) =
      (auth_error (while_authenticating e), s)
  after_search connection username password (got [], s) = (no_match, s)
  after_search connection username password (got (entry ∷ []), s) =
      check_password connection username password entry s
  after_search connection username password (got (entry ∷ other ∷ rest), s) = (no_match, s)

  abbrev pub search_for : C → Text → Text → Option Text → S → Verdict × S
  search_for connection username password none s = (bad_filter, s)
  search_for connection username password (some search_filter) s =
      after_search connection username password
        (ldap3.search connection config.base_dn search_filter wanted_attributes s)

  -- The service connection is closed whatever happens.
  abbrev pub closed : C → Verdict × S → Verdict × S
  closed connection (verdict, s) = (verdict, ldap3.unbind connection s)

  abbrev pub with_service : Text → Text → Answer (C × Bool) × S → Verdict × S
  with_service username password (ldap_exception e, s) = (auth_error (unreachable e), s)
  with_service username password (got (connection, false), s) = (auth_error cannot_bind, s)
  with_service username password (got (connection, true), s) =
      closed connection (search_for connection username password (user_filter username) s)

  unfoldable pub authenticate : Text → Text → S → Verdict × S
  authenticate username password s =
      if not config.enabled
      then (no_match, s)
      else if is_empty password
      then (no_match, s)
      else with_service username password (service_connection (build_server config) s)

  abbrev pub after_probe : Answer Bool × S → Tested × S
  after_probe (ldap_exception e, s) = (raised e, s)
  after_probe (got found, s) = (if found then readable else not_readable base_unreadable, s)

  abbrev pub then_closed : C → Tested × S → Tested × S
  then_closed connection (tested, s) = (tested, ldap3.unbind connection s)

  abbrev pub test_with : Answer (C × Bool) × S → Tested × S
  test_with (ldap_exception e, s) = (not_readable (unreachable e), s)
  test_with (got (connection, false), s) = (not_readable cannot_bind, s)
  test_with (got (connection, true), s) =
      then_closed connection (after_probe (ldap3.probe connection config.base_dn s))

  unfoldable pub test_connection : S → Tested × S
  test_connection s = test_with (service_connection (build_server config) s)
