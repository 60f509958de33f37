-- ===== src/Providers/Tests.antt =====
-- An environment without providers, and rows of each kind, with a cipher that only marks a text.
use powerdns.Prelude.{◌≡◌, refl, true, Option, none, some, List, [], ◌∷◌, any}
use powerdns.Text.{contains, Text, text, eq_text, lower}
use powerdns.Config.Providers.{no_ldap}
use powerdns.Config.Saml.{no_saml}
use powerdns.Config.Auth.{AuthConfig, provider}
use powerdns.Providers.{
  AuthProviderConfig, auth_ldap, auth_oauth, no_client_id, Fernet, to_ldap_config,
  to_oauth_provider,
}
use powerdns.Providers.Saml.{to_saml_config}
use powerdns.Providers.Effective.{
  widen_by, shadowed, broken, get_provider, build, provider_problem, effective_auth_config,
}
use powerdns.Providers.Chosen.{enabled_rows, named, ldap_of, saml_of, first_usable}
use powerdns.Providers.Named.{or_first}
use powerdns.Providers.Precedence.{effective_auth_config_lem}
use powerdns.Providers.Step.{is_ldap, is_saml}
use powerdns.Providers.Raised.{is_bad_timeout}

abbrev marker : Fernet
marker = record { encrypt = λ t. 42 ∷ t; decrypt = λ t. elim t [ [] ↦ none | c ∷ s ↦ some s ] }

abbrev row : Text → Text → List (Text × Text) → AuthProviderConfig
row kind name settings = record {
  id = 1;
  kind = kind;
  name = name;
  display_name = name;
  enabled = true;
  settings = settings;
  flags = [];
  secrets = [];
}

abbrev directory : AuthProviderConfig
directory =
    row auth_ldap (text "corp") ((text "uri", text "ldap://a") ∷ (text "base_dn", text "dc=a") ∷ [])

abbrev late_directory : AuthProviderConfig
late_directory = row auth_ldap (text "corp") (
    (text "uri", text "ldap://a")
    ∷ (text "base_dn", text "dc=a")
    ∷ (text "connect_timeout", text "soon")
    ∷ [])

abbrev git : Text → AuthProviderConfig
git client =
    row auth_oauth (text "git")
      ((text "client_id", client) ∷ (text "discovery_url", text "https://git") ∷ [])

abbrev env : AuthConfig
env = record { local_enabled = true; ldap = no_ldap; oauth_providers = []; saml = no_saml }

-- A provider without a client ID is left out, and the next one with its name is taken.
abbrev rows : List AuthProviderConfig
rows = git [] ∷ git (text "a") ∷ git (text "b") ∷ directory ∷ []

abbrev in_effect : Option AuthConfig
in_effect = effective_auth_config marker env rows

abbrev uri_and_client : Option AuthConfig → Text × List Text
uri_and_client none = ([], [])
uri_and_client (some c) =
    (c.ldap.uri, elim c.oauth_providers [ [] ↦ [] | p ∷ ps ↦ p.client_id ∷ [] ])

taken_in_order : uri_and_client in_effect ≡ (text "ldap://a", text "a" ∷ [])
unfolding effective_auth_config widen_by eq_text contains to_oauth_provider to_ldap_config
taken_in_order = refl

-- One timeout that is no number keeps every sign-in from its configuration.
raised : effective_auth_config marker env (git (text "a") ∷ late_directory ∷ []) ≡ none
unfolding effective_auth_config widen_by eq_text contains to_oauth_provider to_ldap_config
raised = refl

problems :
    (provider_problem marker env (git []) ≡ some (broken no_client_id))
    × (provider_problem marker (record env { ldap = record no_ldap { enabled = true } }) directory
        ≡ some shadowed)
    × (provider_problem marker env directory ≡ none)
    × (get_provider 1 rows ≡ some (git []))
unfolding provider_problem eq_text to_oauth_provider to_ldap_config get_provider
problems = (refl, refl, refl, refl)

effective_auth_config_lem_example :
    ((config : AuthConfig)
      → in_effect ≡ some config
      → (config.local_enabled ≡ true)
        × (config.ldap
            ≡ ldap_of no_ldap (first_usable is_ldap (to_ldap_config marker) (enabled_rows rows)))
        × (config.saml
            ≡ saml_of no_saml (first_usable is_saml (to_saml_config marker) (enabled_rows rows)))
        × ((name : Text)
            → provider name config
              ≡ or_first (provider name env) (
                  first_usable
                    (named (lower name))
                    (to_oauth_provider marker)
                    (enabled_rows rows))))
    × (in_effect ≡ none → any (λ row. is_bad_timeout (build marker row)) (enabled_rows rows) ≡ true)
effective_auth_config_lem_example = effective_auth_config_lem marker env rows
