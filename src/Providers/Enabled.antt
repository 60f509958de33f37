-- ===== src/Providers/Enabled.antt =====
-- What a stored provider that can be used is called, and that it is enabled.
use powerdns.Prelude.{◌≡◌, true}
use powerdns.Ldap.{LdapConfig}
use powerdns.Config.Providers.{OAuthProvider}
use powerdns.Config.Saml.{SamlConfig}
use powerdns.Providers.{
  AuthProviderConfig, Built, fine, unusable, ◌>>=◌, Fernet, to_ldap_config, to_oauth_provider,
}
use powerdns.Providers.Saml.{to_saml_config}

-- Of every value that is built.
abbrev pub Each : {A : Type 0} → (A → Type 0) → Built A → Type 0
Each P (fine a) = P a
Each P (unusable p) = Unit

pub bind-Each :
    {A B : Type 0} (P : B → Type 0) (m : Built A) (f : A → Built B)
    → ((a : A) → Each P (f a))
    → Each P (m >>= f)
bind-Each P (fine a) f h = h a
bind-Each P (unusable p) f h = tt

pub to_ldap_config-Each :
    (fernet : Fernet) (row : AuthProviderConfig)
    → Each (λ (c : LdapConfig). c.enabled ≡ true) (to_ldap_config fernet row)
unfolding to_ldap_config
to_ldap_config-Each fernet row = search bind-Each

pub to_saml_config-Each :
    (fernet : Fernet) (row : AuthProviderConfig)
    → Each (λ (c : SamlConfig). c.enabled ≡ true) (to_saml_config fernet row)
unfolding to_saml_config
to_saml_config-Each fernet row = search bind-Each

pub to_oauth_provider-Each :
    (fernet : Fernet) (row : AuthProviderConfig)
    → Each (λ (p : OAuthProvider). p.name ≡ row.name) (to_oauth_provider fernet row)
unfolding to_oauth_provider
to_oauth_provider-Each fernet row = search bind-Each
