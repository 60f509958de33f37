-- ===== src/Providers/FormTests.antt =====
-- Posts to the pages that write the stored providers.
use powerdns.Prelude.{◌≡◌, refl, true, Option, none, some, List, [], ◌∷◌, ◌++◌, map, All-listed}
use powerdns.Text.{Text, text}
use powerdns.Form.{Form}
use powerdns.Samples.{sample_db, alice}
use powerdns.Store.{User}
use powerdns.Dict.{lookup}
use powerdns.Config.Auth.{AuthConfig}
use powerdns.Config.Providers.{no_ldap}
use powerdns.Config.Saml.{no_saml}
use powerdns.Providers.{
  to_ldap_config, to_oauth_provider, AuthProviderConfig, auth_ldap, auth_oauth, no_client_id,
  Fernet,
}
use powerdns.Providers.Effective.{effective_auth_config}
use powerdns.Providers.Forms.{
  update_provider, is_name_taken, Stored, name_taken, no_name, cannot_work, Request, create, edit,
  toggle, slug, handle, serve,
}
use powerdns.Providers.Usable.{AllBuild, serve-AllBuild}
use powerdns.Session.{role_required}

abbrev marker : Fernet
marker = record { encrypt = λ t. 42 ∷ t; decrypt = λ t. elim t [ [] ↦ none | c ∷ s ↦ some s ] }

abbrev here : Text
here = text "::1"

abbrev empty : Stored
empty = record { db = sample_db; providers = []; next_id = 1 }

abbrev env : AuthConfig
env = record { local_enabled = true; ldap = no_ldap; oauth_providers = []; saml = no_saml }

abbrev directory_form : Form
directory_form =
    (text "name", text "Corp  LDAP!")
    ∷ (text "enabled", text "on")
    ∷ (text "uri", text "ldap://a, ldap://b")
    ∷ (text "base_dn", text "dc=a")
    ∷ (text "bind_password", text "s3cret")
    ∷ []

abbrev nameless_client : Form
nameless_client = (text "name", text "git") ∷ (text "discovery_url", text "https://git") ∷ []

slugs : slug (text " Corp  LDAP! ") ≡ text "corp-ldap"
unfolding slug
slugs = refl

abbrev posted : List (Request × Option User)
posted =
    (create auth_ldap directory_form, some alice)
    ∷ (create auth_oauth nameless_client, some alice)
    ∷ (toggle 1, none)
    ∷ (edit 1 directory_form, some alice)
    ∷ []

abbrev table : List AuthProviderConfig
table = (serve marker here posted empty).providers

stored_row :
    map {B = Text × Option Text × Option Text}
      (λ (r : AuthProviderConfig).
        (r.name, lookup (text "uri") r.settings, lookup (text "bind_password") r.secrets))
      table
    ≡ (
      text "corp-ldap",
      some (text "ldap://a" ++ 10 ∷ text "ldap://b"),
      some (text "enc:v1:*s3cret"),
    )
      ∷ []
unfolding serve role_required to_oauth_provider to_ldap_config is_name_taken update_provider
stored_row = refl

refusals :
    ((handle marker here (create auth_oauth nameless_client) (some alice) empty).0
      ≡ cannot_work no_client_id)
    × ((handle marker here
          (create auth_ldap directory_form)
          (some alice)
          (serve marker here posted empty)).0
        ≡ name_taken)
    × ((handle marker here (create auth_ldap []) (some alice) empty).0 ≡ no_name)
unfolding handle role_required to_oauth_provider to_ldap_config is_name_taken serve update_provider
refusals = (refl, refl, refl)

serve-AllBuild_example :
    AllBuild marker here (serve marker here posted empty)
    × ((config : AuthConfig) × (effective_auth_config marker env table ≡ some config))
serve-AllBuild_example = serve-AllBuild marker here posted empty env table tt (All-listed table)
