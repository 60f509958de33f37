-- ===== src/Config/Providers.antt =====
-- The providers of an identity from the environment: OAuthProvider, and the from_env of LdapConfig
-- and OAuthProvider, in webui/app/config.py.
use powerdns.Prelude.{
  ◌==◌, true, false, not, ◌&&◌, ◌||◌, some, [], ◌++◌, map, is_empty, if◌then◌else◌,
}
use powerdns.Text.{Text, text, lower, upper}
use powerdns.Text.Title.{title}
use powerdns.Roles.{GroupRoleMap, role_user}
use powerdns.Ldap.{LdapConfig}
use powerdns.Config.{
  no_ldap_uri, no_base_dn, no_client, no_url, also_required, Setting, fine, ◌>>=◌, ◌>>◌, refuse,
  Env, env_str, env_secret, env_bool, env_int, env_name, group_roles,
}

-- The defaults that the panel's two sources of providers share.
abbrev pub default_user_filter : Text
default_user_filter = text "(&(objectClass=person)({username_attribute}={username}))"

abbrev pub oidc_scopes : Text
oidc_scopes = text "openid email profile"

abbrev pub default_scopes : Text → Text
default_scopes discovery_url =
    if is_empty discovery_url then text "read:user user:email" else oidc_scopes

abbrev pub default_username_claim : Text → Text
default_username_claim discovery_url =
    if is_empty discovery_url then text "login" else text "preferred_username"

-- The fields' defaults.
abbrev pub no_roles : GroupRoleMap
no_roles = record {
  admin_groups = [];
  operator_groups = [];
  user_groups = [];
  default_role = some role_user;
}

abbrev pub no_ldap : LdapConfig
no_ldap = record {
  enabled = false;
  uri = [];
  start_tls = false;
  tls_verify = true;
  ca_cert_file = [];
  bind_dn = [];
  bind_password = [];
  base_dn = [];
  user_filter = default_user_filter;
  username_attribute = text "uid";
  email_attribute = text "mail";
  display_name_attribute = text "cn";
  group_attribute = text "memberOf";
  group_search_base = [];
  group_filter = [];
  connect_timeout = (false, 5);
  roles = no_roles;
}

pub record OAuthProvider : Type 0 where
  pub name : Text
  pub display_name : Text
  pub client_id : Text
  pub client_secret : Text
  pub discovery_url : Text
  pub authorize_url : Text
  pub token_url : Text
  pub userinfo_url : Text
  pub jwks_url : Text
  pub scopes : Text
  pub username_claim : Text
  pub email_claim : Text
  pub name_claim : Text
  pub groups_claim : Text
  pub icon : Text
  pub roles : GroupRoleMap

-- The prefix of the variables of an OAuth provider.
unfoldable pub oauth_prefix : Text → Text
unfolding upper
oauth_prefix name = text "OAUTH_" ++ map (λ c. if c == b'-' then b'_' else c) (upper name)

module _ (env file : Env) where
  abbrev str : Text → Text → Text
  str name default = env_str env file name default

  abbrev enabled_ldap : Setting LdapConfig
  enabled_ldap = do
    refuse (is_empty (str (text "LDAP_URI") [])) no_ldap_uri
    refuse (is_empty (str (text "LDAP_BASE_DN") [])) no_base_dn
    start_tls ← env_bool env file (text "LDAP_START_TLS") false
    tls_verify ← env_bool env file (text "LDAP_TLS_VERIFY") true
    bind_password ← env_secret env file (text "LDAP_BIND_PASSWORD") []
    connect_timeout ← env_int env file (text "LDAP_CONNECT_TIMEOUT") (false, 5)
    roles ← group_roles env file (text "LDAP")
    fine (record {
      enabled = true;
      uri = str (text "LDAP_URI") [];
      start_tls = start_tls;
      tls_verify = tls_verify;
      ca_cert_file = str (text "LDAP_CA_CERT_FILE") [];
      bind_dn = str (text "LDAP_BIND_DN") [];
      bind_password = bind_password;
      base_dn = str (text "LDAP_BASE_DN") [];
      user_filter = env_name env file (text "LDAP_USER_FILTER") default_user_filter;
      username_attribute = env_name env file (text "LDAP_USERNAME_ATTRIBUTE") (text "uid");
      email_attribute = env_name env file (text "LDAP_EMAIL_ATTRIBUTE") (text "mail");
      display_name_attribute = env_name env file (text "LDAP_DISPLAY_NAME_ATTRIBUTE") (text "cn");
      group_attribute = env_name env file (text "LDAP_GROUP_ATTRIBUTE") (text "memberOf");
      group_search_base = str (text "LDAP_GROUP_SEARCH_BASE") [];
      group_filter = str (text "LDAP_GROUP_FILTER") [];
      connect_timeout = connect_timeout;
      roles = roles;
    })

  -- LdapConfig.from_env
  unfoldable pub ldap_from_env : Setting LdapConfig
  unfolding env_str env_secret env_bool env_int env_name group_roles
  ldap_from_env = do
    enabled ← env_bool env file (text "LDAP_ENABLED") false
    if enabled then enabled_ldap else fine no_ldap

  -- OAuthProvider.from_env
  unfoldable pub oauth_from_env : Text → Setting OAuthProvider
  unfolding env_str env_secret group_roles oauth_prefix lower title
  oauth_from_env name =
      let prefix = oauth_prefix name in
      let client_id = str (prefix ++ text "_CLIENT_ID") [] in
      let discovery_url = str (prefix ++ text "_DISCOVERY_URL") [] in
      let authorize_url = str (prefix ++ text "_AUTHORIZE_URL") [] in
      let token_url = str (prefix ++ text "_TOKEN_URL") [] in
      let userinfo_url = str (prefix ++ text "_USERINFO_URL") [] in
      let plain = not (is_empty authorize_url) && is_empty discovery_url in
      do
        client_secret ← env_secret env file (prefix ++ text "_CLIENT_SECRET") []
        refuse (is_empty client_id || is_empty client_secret) (no_client name)
        refuse (is_empty discovery_url && is_empty authorize_url) (no_url name)
        refuse (plain && is_empty token_url) (also_required name (text "TOKEN_URL"))
        refuse (plain && is_empty userinfo_url) (also_required name (text "USERINFO_URL"))
        roles ← group_roles env file prefix
        fine (record {
          name = lower name;
          display_name = str (prefix ++ text "_DISPLAY_NAME") (title name);
          client_id = client_id;
          client_secret = client_secret;
          discovery_url = discovery_url;
          authorize_url = authorize_url;
          token_url = token_url;
          userinfo_url = userinfo_url;
          jwks_url = str (prefix ++ text "_JWKS_URL") [];
          scopes = str (prefix ++ text "_SCOPES") (default_scopes discovery_url);
          username_claim =
              str (prefix ++ text "_USERNAME_CLAIM") (default_username_claim discovery_url);
          email_claim = str (prefix ++ text "_EMAIL_CLAIM") (text "email");
          name_claim = str (prefix ++ text "_NAME_CLAIM") (text "name");
          groups_claim = str (prefix ++ text "_GROUPS_CLAIM") (text "groups");
          icon = str (prefix ++ text "_ICON") (text "ti-key");
          roles = roles;
        })
