-- ===== src/Config/Auth.antt =====
-- AuthConfig of webui/app/config.py, and how it is read from the environment.
use powerdns.Prelude.{Bool, true, not, ◌||◌, Option, List, [], ◌∷◌, find, is_empty}
use powerdns.Text.{Text, text, eq_text, lower, contains}
use powerdns.Ldap.{LdapConfig}
use powerdns.Config.{listed_twice, Setting, fine, ◌>>=◌, ◌>>◌, refuse, Env, env_bool, env_list}
use powerdns.Config.Providers.{OAuthProvider, ldap_from_env, oauth_from_env}
use powerdns.Config.Saml.{SamlConfig, saml_from_env}

pub record AuthConfig : Type 0 where
  pub local_enabled : Bool
  pub ldap : LdapConfig
  pub oauth_providers : List OAuthProvider
  pub saml : SamlConfig

abbrev pub is_named : Text → OAuthProvider → Bool
is_named name p = eq_text p.name name

-- AuthConfig.provider
unfoldable pub provider : Text → AuthConfig → Option OAuthProvider
unfolding lower
provider name config = find (is_named (lower name)) config.oauth_providers

-- AuthConfig.any_enabled
unfoldable pub any_enabled : AuthConfig → Bool
any_enabled config =
    config.local_enabled
    || config.ldap.enabled
    || not (is_empty config.oauth_providers)
    || config.saml.enabled

-- The check that no provider is listed twice.
unfoldable pub check_names : List Text → List OAuthProvider → Setting Unit
check_names seen [] = fine tt
check_names seen (p ∷ ps) =
    refuse (contains p.name seen) (listed_twice p.name) >> check_names (p.name ∷ seen) ps

module _ (env file : Env) where
  unfoldable pub all_from_env : List Text → Setting (List OAuthProvider)
  unfolding oauth_from_env
  all_from_env [] = fine []
  all_from_env (name ∷ names) = do
    p ← oauth_from_env env file name
    ps ← all_from_env names
    fine (p ∷ ps)

  -- AuthConfig.from_env
  unfoldable pub auth_from_env : Setting AuthConfig
  unfolding all_from_env env_list env_bool ldap_from_env saml_from_env check_names contains
  auth_from_env = do
    providers ← all_from_env (env_list env file (text "OAUTH_PROVIDERS"))
    check_names [] providers
    local_enabled ← env_bool env file (text "LOCAL_AUTH_ENABLED") true
    ldap ← ldap_from_env env file
    saml ← saml_from_env env file
    fine (record {
      local_enabled = local_enabled;
      ldap = ldap;
      oauth_providers = providers;
      saml = saml;
    })
