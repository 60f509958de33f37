-- ===== src/Config/Tests.antt =====
-- Environments as lists, with no files but the one of a certificate.
use powerdns.Prelude.{◌≡◌, refl, true, false, none, some, List, [], ◌∷◌, if◌then◌else◌}
use powerdns.Text.{Text, text, eq_text}
use powerdns.Dict.{lookup}
use powerdns.Config.{
  fine, config_error, no_saml_cert, listed_twice, Env, env_int, not_an_integer, env_secret,
}
use powerdns.Config.Saml.{saml_from_env}
use powerdns.Config.Auth.{auth_from_env}

abbrev of_list : List (Text × Text) → Env
of_list entries name = lookup name entries

abbrev files : Env
files path = if eq_text path (text "/cert") then some (text "CERT") else none

abbrev saml_env : Env
saml_env = of_list (
    (text "SAML_ENABLED", text "yes")
    ∷ (text "SAML_IDP_SSO_URL", text "https://idp")
    ∷ (text "SAML_IDP_X509_CERT_FILE", text "/cert")
    ∷ [])

-- A certificate that only the file has is read, and yet found missing.
certificate_file :
    (env_secret saml_env files (text "SAML_IDP_X509_CERT") [] ≡ fine (text "CERT"))
    × (saml_from_env saml_env files ≡ config_error no_saml_cert)
unfolding env_secret lookup eq_text saml_from_env
certificate_file = (refl, refl)

numbers :
    (env_int (of_list ((text "A", text " -12 ") ∷ [])) files (text "A") (false, 5)
      ≡ fine (true, 12))
    × (env_int (of_list ((text "A", text "x") ∷ [])) files (text "A") (false, 5)
        ≡ config_error (not_an_integer (text "A") (text "x")))
unfolding env_int lookup eq_text
numbers = (refl, refl)

abbrev git_env : Env
git_env = of_list (
    (text "OAUTH_PROVIDERS", text "my-git, MY-GIT")
    ∷ (text "OAUTH_MY_GIT_CLIENT_ID", text "a")
    ∷ (text "OAUTH_MY_GIT_CLIENT_SECRET", text "b")
    ∷ (text "OAUTH_MY_GIT_DISCOVERY_URL", text "https://git")
    ∷ [])

twice : auth_from_env git_env files ≡ config_error (listed_twice (text "my-git"))
unfolding auth_from_env lookup
twice = refl
