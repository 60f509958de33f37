-- ===== src/Providers/Effective.antt =====
-- Which providers are in effect: get_provider, build, provider_problem and effective_auth_config of
-- webui/app/auth/store.py. The rows are an argument, in the order of all_providers, by kind and name.
-- The cache for one request is left out: it holds what the function returns.
use powerdns.Prelude.{
  ℕ, ◌==◌, Bool, true, false, not, ◌&&◌, Option, none, some, List, [], ◌∷◌, ◌++◌, find, keep, map,
  if◌then◌else◌,
}
use powerdns.Text.{Text, eq_text, contains}
use powerdns.Ldap.{LdapConfig}
use powerdns.Config.Providers.{OAuthProvider}
use powerdns.Config.Saml.{SamlConfig}
use powerdns.Config.Auth.{AuthConfig, provider}
use powerdns.Providers.{
  AuthProviderConfig, auth_ldap, auth_oauth, auth_saml, Unusable, unknown_kind, bad_timeout, Built,
  fine, unusable, Fernet, to_ldap_config, to_oauth_provider,
}
use powerdns.Providers.Saml.{to_saml_config}

unfoldable pub get_provider : ℕ → List AuthProviderConfig → Option AuthProviderConfig
get_provider id rows = find (λ (row : AuthProviderConfig). row.id == id) rows

-- A provider of any kind.
pub data Backend : Type 0 where
  ldap : LdapConfig → Backend
  oauth : OAuthProvider → Backend
  saml : SamlConfig → Backend

-- Why a row is not in effect: the environment has its place, or it cannot be used.
pub data Idle : Type 0 where
  shadowed : Idle
  broken : Unusable → Idle

abbrev pub mapped : {A : Type 0} → (A → Backend) → Built A → Built Backend
mapped f (fine a) = fine (f a)
mapped f (unusable p) = unusable p

-- The configuration while the rows are gone through, and the names that are taken.
pub record Widening : Type 0 where
  pub config : AuthConfig
  pub taken : List Text

-- A row that cannot be used is left out; a ValueError that is no ProviderConfigError is not caught.
abbrev pub unless_raised : Unusable → Widening → Option Widening
unless_raised bad_timeout w = none
unless_raised _ w = some w

abbrev pub with_ldap : Built LdapConfig → Widening → Option Widening
with_ldap (unusable p) w = unless_raised p w
with_ldap (fine c) w = some (record w { config = record w.config { ldap = c } })

abbrev pub with_saml : Built SamlConfig → Widening → Option Widening
with_saml (unusable p) w = unless_raised p w
with_saml (fine c) w = some (record w { config = record w.config { saml = c } })

abbrev pub with_oauth : Text → Built OAuthProvider → Widening → Option Widening
with_oauth name (unusable p) w = unless_raised p w
with_oauth name (fine p) w = some (record {
  config = record w.config { oauth_providers = w.config.oauth_providers ++ p ∷ [] };
  taken = name ∷ w.taken;
})

module _ (fernet : Fernet) where
  unfoldable pub build : AuthProviderConfig → Built Backend
  build row =
      if eq_text row.kind auth_ldap
      then mapped ldap (to_ldap_config fernet row)
      else if eq_text row.kind auth_oauth
      then mapped oauth (to_oauth_provider fernet row)
      else if eq_text row.kind auth_saml
      then mapped saml (to_saml_config fernet row)
      else unusable unknown_kind

  abbrev is_there : Option OAuthProvider → Bool
  is_there none = false
  is_there (some p) = true

  abbrev idle : Built Backend → Option Idle
  idle (fine b) = none
  idle (unusable p) = some (broken p)

  -- `none` is the empty text of a provider that is fine.
  unfoldable pub provider_problem : AuthConfig → AuthProviderConfig → Option Idle
  unfolding provider build
  provider_problem env row =
      if eq_text row.kind auth_ldap && env.ldap.enabled
      then some shadowed
      else if eq_text row.kind auth_saml && env.saml.enabled
      then some shadowed
      else if eq_text row.kind auth_oauth && is_there (provider row.name env)
      then some shadowed
      else idle (build row)

  unfoldable pub widen_by : AuthProviderConfig → Widening → Option Widening
  widen_by row w =
      if eq_text row.kind auth_ldap
      then (if w.config.ldap.enabled then some w else with_ldap (to_ldap_config fernet row) w)
      else if eq_text row.kind auth_saml
      then (if w.config.saml.enabled then some w else with_saml (to_saml_config fernet row) w)
      else if eq_text row.kind auth_oauth && not (contains row.name w.taken)
      then with_oauth row.name (to_oauth_provider fernet row) w
      else some w

  unfoldable pub widen : List AuthProviderConfig → Widening → Option Widening
  widen [] w = some w
  widen (row ∷ rows) w = elim (widen_by row w) [ none ↦ none | some w' ↦ widen rows w' ]

  abbrev config_of : Option Widening → Option AuthConfig
  config_of none = none
  config_of (some w) = some w.config

  -- `none` is a ValueError that nothing catches.
  unfoldable pub effective_auth_config : AuthConfig → List AuthProviderConfig → Option AuthConfig
  unfolding widen
  effective_auth_config env rows = config_of (
      widen (keep (λ (row : AuthProviderConfig). row.enabled) rows)
        (record { config = env; taken = map (λ (p : OAuthProvider). p.name) env.oauth_providers }))
