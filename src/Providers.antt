-- ===== src/Providers.antt =====
-- The providers that are stored in the database, and what is in effect: webui/app/auth/store.py, with
-- AuthProviderConfig of webui/app/models.py and the two functions of webui/app/crypto.py. The cipher
-- under the key of the panel is a parameter.
pub mod Saml
pub mod Effective
pub mod Enabled
pub mod Step
pub mod Secrets
pub mod Forms
pub mod Usable
pub mod Raised
pub mod Named
pub mod Chosen
pub mod Precedence
mod Tests
mod FormTests
use powerdns.Prelude.{
  ℕ, ◌==◌, Bool, true, false, not, ◌&&◌, ◌||◌, Option, none, some, List, [], ◌∷◌, ◌++◌, keep, map,
  is_empty, length, drop, if◌then◌else◌,
}
use powerdns.Text.{Text, text, eq_text, lower, strip, split_at, starts_with, contains, or_else}
use powerdns.Text.Numbers.{parse_int}
use powerdns.Text.Title.{title}
use powerdns.Dict.{Dict, lookup}
use powerdns.Roles.{GroupRoleMap}
use powerdns.Ldap.{LdapConfig, Signed}
use powerdns.Config.Providers.{
  OAuthProvider, default_user_filter, default_scopes, default_username_claim,
}
use powerdns.Config.Saml.{SamlConfig, default_name_id}
use powerdns.Config.Auth.{AuthConfig, provider}

-- A row of auth_providers, with its settings as the forms store them: `settings` holds those that
-- setting() reads, which are texts, and `flags` those that bool() reads. A null is no entry of
-- `settings`, since setting() gives the default for both, and any JSON value of a flag is its truth
-- value. A list, an object, a number or a Boolean where a text is read is outside the model: no
-- form stores one, and a row that was edited by hand so that it holds one (a list as admin_group)
-- raises an AttributeError in _split.
pub record AuthProviderConfig : Type 0 where
  pub id : ℕ
  pub kind : Text
  pub name : Text
  pub display_name : Text
  pub enabled : Bool
  pub settings : Dict Text
  pub flags : Dict Bool
  pub secrets : Dict Text

abbrev pub auth_ldap : Text
auth_ldap = text "ldap"

abbrev pub auth_oauth : Text
auth_oauth = text "oauth"

abbrev pub auth_saml : Text
auth_saml = text "saml"

-- Why a row cannot be used: a ProviderConfigError, a SecretDecryptionError, or the ValueError of a
-- timeout that is not a number.
pub data Unusable : Type 0 where
  no_uri_or_base no_client_id no_urls no_token_url no_userinfo_url no_idp_url no_idp_cert : Unusable
  unknown_kind undecryptable bad_timeout : Unusable

pub data Built (A : Type 0) : Type 0 where
  fine : A → Built A
  unusable : Unusable → Built A

infixl 5 ◌>>=◌ ◌>>◌
abbrev pub ◌>>=◌ : {A B : Type 0} → Built A → (A → Built B) → Built B
fine a >>= f = f a
unusable p >>= f = unusable p

abbrev pub ◌>>◌ : {A B : Type 0} → Built A → Built B → Built B
m >> k = m >>= λ _. k

abbrev pub refuse : Bool → Unusable → Built Unit
refuse true p = unusable p
refuse false p = fine tt

abbrev or_blank : Text → Option Text → Text
or_blank default none = default
or_blank default (some value) = if is_empty (strip value) then default else value

-- AuthProviderConfig.setting
unfoldable pub setting : AuthProviderConfig → Text → Text → Text
unfolding lookup strip
setting row key default = or_blank default (lookup key row.settings)

abbrev or_flag : Bool → Option Bool → Bool
or_flag default none = default
or_flag default (some b) = b

-- bool(row.settings.get(key, default))
abbrev pub flag : AuthProviderConfig → Text → Bool → Bool
flag row key default = or_flag default (lookup key row.flags)

-- _split
unfoldable pub split : Text → List Text
unfolding split_at strip
split value = keep (λ t. not (is_empty t)) (map strip (split_at (λ c. c == b',') value))

-- _roles
unfoldable pub row_roles : AuthProviderConfig → GroupRoleMap
unfolding setting split lower
row_roles row =
    let default = lower (setting row (text "default_role") []) in
    record {
      admin_groups = split (setting row (text "admin_group") []);
      operator_groups = split (setting row (text "operator_group") []);
      user_groups = split (setting row (text "user_group") []);
      default_role =
          if not (is_empty default) && not (eq_text default (text "none"))
          then some default
          else none;
    }

-- _PREFIX of crypto.py
abbrev pub cipher_prefix : Text
cipher_prefix = text "enc:v1:"

-- encrypt and decrypt are Fernet's, with the key that is derived from the panel's; `none` is an
-- InvalidToken or a ValueError.
pub record Fernet : Type 0 where
  pub encrypt : Text → Text
  pub decrypt : Text → Option Text

abbrev decrypted : Option Text → Built Text
decrypted none = unusable undecryptable
decrypted (some t) = fine t

abbrev or_timeout : Option Signed → Built Signed
or_timeout none = unusable bad_timeout
or_timeout (some n) = fine n

module _ (fernet : Fernet) where
  -- encrypt and decrypt of crypto.py
  unfoldable pub encrypt : Text → Text
  encrypt value = if is_empty value then [] else cipher_prefix ++ fernet.encrypt value

  unfoldable pub decrypt : Text → Built Text
  unfolding starts_with
  decrypt stored =
      if is_empty stored
      then fine []
      else if not (starts_with cipher_prefix stored)
      then fine stored
      else decrypted (fernet.decrypt (drop (length cipher_prefix) stored))

  abbrev or_none : Option Text → Text
  or_none none = []
  or_none (some t) = t

  -- _secret
  unfoldable pub secret : AuthProviderConfig → Text → Built Text
  unfolding decrypt lookup
  secret row key = decrypt (or_none (lookup key row.secrets))

  -- int(row.settings.get("connect_timeout") or 5)
  abbrev timeout : AuthProviderConfig → Built Signed
  timeout row =
      let raw = or_none (lookup (text "connect_timeout") row.settings) in
      if is_empty raw then fine (false, 5) else or_timeout (parse_int raw)

  unfoldable pub to_ldap_config : AuthProviderConfig → Built LdapConfig
  unfolding setting secret row_roles parse_int
  to_ldap_config row =
      let uri = setting row (text "uri") [] in
      let base_dn = setting row (text "base_dn") [] in
      do
        refuse (is_empty uri || is_empty base_dn) no_uri_or_base
        bind_password ← secret row (text "bind_password")
        connect_timeout ← timeout row
        fine (record {
          enabled = true;
          uri = uri;
          start_tls = flag row (text "start_tls") false;
          tls_verify = flag row (text "tls_verify") true;
          ca_cert_file = setting row (text "ca_cert_file") [];
          bind_dn = setting row (text "bind_dn") [];
          bind_password = bind_password;
          base_dn = base_dn;
          user_filter = setting row (text "user_filter") default_user_filter;
          username_attribute = setting row (text "username_attribute") (text "uid");
          email_attribute = setting row (text "email_attribute") (text "mail");
          display_name_attribute = setting row (text "display_name_attribute") (text "cn");
          group_attribute = setting row (text "group_attribute") (text "memberOf");
          group_search_base = setting row (text "group_search_base") [];
          group_filter = setting row (text "group_filter") [];
          connect_timeout = connect_timeout;
          roles = row_roles row;
        })

  unfoldable pub to_oauth_provider : AuthProviderConfig → Built OAuthProvider
  unfolding setting secret row_roles title
  to_oauth_provider row =
      let discovery_url = setting row (text "discovery_url") [] in
      let authorize_url = setting row (text "authorize_url") [] in
      let client_id = setting row (text "client_id") [] in
      let token_url = setting row (text "token_url") [] in
      let userinfo_url = setting row (text "userinfo_url") [] in
      let plain = not (is_empty authorize_url) && is_empty discovery_url in
      do
        refuse (is_empty client_id) no_client_id
        refuse (is_empty discovery_url && is_empty authorize_url) no_urls
        refuse (plain && is_empty token_url) no_token_url
        refuse (plain && is_empty userinfo_url) no_userinfo_url
        client_secret ← secret row (text "client_secret")
        fine (record {
          name = row.name;
          display_name = or_else row.display_name (title row.name);
          client_id = client_id;
          client_secret = client_secret;
          discovery_url = discovery_url;
          authorize_url = authorize_url;
          token_url = token_url;
          userinfo_url = userinfo_url;
          jwks_url = setting row (text "jwks_url") [];
          scopes = setting row (text "scopes") (default_scopes discovery_url);
          username_claim =
              setting row (text "username_claim") (default_username_claim discovery_url);
          email_claim = setting row (text "email_claim") (text "email");
          name_claim = setting row (text "name_claim") (text "name");
          groups_claim = setting row (text "groups_claim") (text "groups");
          icon = setting row (text "icon") (text "ti-key");
          roles = row_roles row;
        })
