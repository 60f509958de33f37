-- ===== src/Ldap.antt =====
-- Signing in against a directory: webui/app/auth/ldap_auth.py, with LdapConfig of webui/app/config.py.
-- ldap3, with the servers and the network behind it, is a parameter: an interface of the calls that
-- the code makes, on a state that each call may change. A chain of calls ends at the first
-- LDAPException.
pub mod Filters
pub mod Entries
pub mod Bind
pub mod Vouched
mod Tests
use powerdns.Prelude.{
  ℕ, Bool, true, false, not, ◌&&◌, ◌||◌, Option, none, some, List, [], ◌∷◌, ◌++◌, ◌==◌, keep, map,
  is_empty, if◌then◌else◌,
}
use powerdns.Text.{Text, text, eq_text, lower, starts_with, words, dedup}
use powerdns.Roles.{GroupRoleMap}
use powerdns.Dict.{Dict, lookup}
use powerdns.Provision.{IdentityClaim, identity_claim}

-- An integer: whether it has a minus sign, and its absolute value.
abbrev pub Signed : Type 0
Signed = Bool × ℕ

pub record LdapConfig : Type 0 where
  pub enabled : Bool
  pub uri : Text
  pub start_tls : Bool
  pub tls_verify : Bool
  pub ca_cert_file : Text
  pub bind_dn : Text
  pub bind_password : Text
  pub base_dn : Text
  pub user_filter : Text
  pub username_attribute : Text
  pub email_attribute : Text
  pub display_name_attribute : Text
  pub group_attribute : Text
  pub group_search_base : Text
  pub group_filter : Text
  pub connect_timeout : Signed
  pub roles : GroupRoleMap

-- split_uris
unfoldable pub split_uris : Text → List Text
unfolding words
split_uris raw = words (map (λ c. if c == b',' || c == b';' then b' ' else c) raw)

-- LdapConfig.uris
abbrev pub uris : LdapConfig → List Text
uris config = split_uris config.uri

abbrev first_of : List Text → Text
first_of [] = []
first_of (u ∷ us) = u

-- LdapConfig.primary_uri
unfoldable pub primary_uri : LdapConfig → Text
primary_uri config = first_of (uris config)

-- ssl.CERT_REQUIRED and PROTOCOL_TLS_CLIENT, or CERT_NONE and PROTOCOL_TLS.
pub record Tls : Type 0 where
  pub verified : Bool
  pub ca_certs_file : Option Text

pub record Server : Type 0 where
  pub uri : Text
  pub tls : Option Tls
  pub connect_timeout : Signed

-- _build_tls
unfoldable pub build_tls : LdapConfig → Text → Option Tls
build_tls config uri =
    if not (starts_with (text "ldaps://") (lower uri) || config.start_tls)
    then none
    else some (record {
      verified = config.tls_verify;
      ca_certs_file = if is_empty config.ca_cert_file then none else some config.ca_cert_file;
    })

abbrev or_list : List Text → List Text → List Text
or_list [] d = d
or_list (x ∷ xs) d = x ∷ xs

-- _build_server: one server, or a pool that is tried in order.
unfoldable pub build_server : LdapConfig → List Server
build_server config =
    map
      (λ uri. record {
        uri = uri;
        tls = build_tls config uri;
        connect_timeout = config.connect_timeout;
      })
      (or_list (uris config) (config.uri ∷ []))

-- An entry that a search has found.
pub record Entry : Type 0 where
  pub dn : Text
  pub attributes : Dict (List Text)

pub data Answer (A : Type 0) : Type 0 where
  got : A → Answer A
  ldap_exception : Text → Answer A

abbrev pub Ldap : Type 0 → Type 0 → Type 0
Ldap S A = S → Answer A × S

abbrev pub and_then : {S A B : Type 0} → Answer A × S → (A → Ldap S B) → Answer B × S
and_then (got a, s) f = f a s
and_then (ldap_exception e, s) f = (ldap_exception e, s)

infixl 5 ◌>>=◌ ◌>>◌
abbrev pub ◌>>=◌ : {S A B : Type 0} → Ldap S A → (A → Ldap S B) → Ldap S B
◌>>=◌ m f s = and_then (m s) f

abbrev pub ◌>>◌ : {S A B : Type 0} → Ldap S A → Ldap S B → Ldap S B
m >> k = m >>= λ _. k

abbrev pub pure : {S A : Type 0} → A → Ldap S A
pure a s = (got a, s)

-- Whom a connection is for: the service account, nobody, or a DN with a password.
pub data Binder : Type 0 where
  anonymous : Binder
  account : Text → Text → Binder

-- The calls of ldap3. `C` is a connection; `connect` is Connection(...) with auto_bind, `prepare`
-- Connection(...) without it, to the server that another connection has reached. `entries` of a search
-- are its result here.
pub record Ldap3 (S C : Type 0) : Type 0 where
  pub connect : List Server → Binder → Ldap S C
  pub prepare : C → Text → Text → C
  pub is_ssl : C → Bool
  pub is_bound : C → S → Bool
  pub open_connection : C → Ldap S Unit
  pub start_tls : C → Ldap S Unit
  pub bind : C → Ldap S Bool
  pub unbind : C → S → S
  pub search : C → Text → Text → List Text → Ldap S (List Entry)
  -- A search of scope BASE for any object: whether it finds one.
  pub probe : C → Text → Ldap S Bool
