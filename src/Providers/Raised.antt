-- ===== src/Providers/Raised.antt =====
-- When effective_auth_config of webui/app/auth/store.py raises.
use powerdns.Prelude.{
  arith, sym, inl, inr, ap, ◌∙◌, Option-cases, ◌≡◌, Bool, true, false, not, ◌&&◌, Option, none,
  some, List, [], ◌∷◌, any, if_elim,
}
use powerdns.Text.{Text, contains}
use powerdns.Ldap.{LdapConfig}
use powerdns.Config.Providers.{OAuthProvider}
use powerdns.Config.Saml.{SamlConfig}
use powerdns.Providers.{
  AuthProviderConfig, Unusable, bad_timeout, Built, fine, unusable, Fernet, to_ldap_config,
  to_oauth_provider,
}
use powerdns.Providers.Saml.{to_saml_config}
use powerdns.Providers.Step.{and_true, one_kind, is_ldap, is_saml, is_oauth}
use powerdns.Providers.Chosen.{if_true, if_false}
use powerdns.Providers.Effective.{
  Backend, ldap, saml, oauth, mapped, Widening, unless_raised, with_ldap, with_saml, with_oauth,
  build, widen_by, widen,
}

abbrev pub is_bad : Unusable → Bool
is_bad bad_timeout = true
is_bad _ = false

abbrev pub is_bad_timeout : {A : Type 0} → Built A → Bool
is_bad_timeout (fine a) = false
is_bad_timeout (unusable p) = is_bad p

raised-bad : (p : Unusable) (w : Widening) → unless_raised p w ≡ none → is_bad p ≡ true
raised-bad p w h = ground arith

with_ldap-bad :
    (b : Built LdapConfig) (w : Widening) → with_ldap b w ≡ none → is_bad_timeout b ≡ true
with_ldap-bad (fine c) w h = cc
with_ldap-bad (unusable p) w h = raised-bad p w h

with_saml-bad :
    (b : Built SamlConfig) (w : Widening) → with_saml b w ≡ none → is_bad_timeout b ≡ true
with_saml-bad (fine c) w h = cc
with_saml-bad (unusable p) w h = raised-bad p w h

with_oauth-bad :
    (name : Text) (b : Built OAuthProvider) (w : Widening)
    → with_oauth name b w ≡ none
    → is_bad_timeout b ≡ true
with_oauth-bad name (fine c) w h = cc
with_oauth-bad name (unusable p) w h = raised-bad p w h

mapped-bad :
    {A : Type 0} (f : A → Backend) (b : Built A)
    → is_bad_timeout b ≡ true
    → is_bad_timeout (mapped f b) ≡ true
mapped-bad f (fine a) h = cc
mapped-bad f (unusable p) h = h

module _ (fernet : Fernet) where
  widen_by-raises :
      (row : AuthProviderConfig) (w : Widening)
      → widen_by fernet row w ≡ none
      → is_bad_timeout (build fernet row) ≡ true
  unfolding widen_by build
  widen_by-raises row w =
      if_elim (λ o. o ≡ none → is_bad_timeout (build fernet row) ≡ true) (is_ldap row)
        (λ l.
          if_elim (λ o. o ≡ none → is_bad_timeout (build fernet row) ≡ true) w.config.ldap.enabled
            (λ e k. cc)
            (λ e k.
              ap is_bad_timeout (if_true (is_ldap row) _ _ l)
              ∙ mapped-bad ldap _ (with_ldap-bad (to_ldap_config fernet row) w k)))
        (λ l.
          if_elim (λ o. o ≡ none → is_bad_timeout (build fernet row) ≡ true) (is_saml row)
            (λ s.
              if_elim (λ o. o ≡ none → is_bad_timeout (build fernet row) ≡ true)
                w.config.saml.enabled (λ e k. cc)
                (λ e k.
                  ap is_bad_timeout (
                    if_false (is_ldap row) _ _ l
                    ∙ if_false (is_oauth row) _ _ ((one_kind row.kind).1 s).1
                    ∙ if_true (is_saml row) _ _ s)
                  ∙ mapped-bad saml _ (with_saml-bad (to_saml_config fernet row) w k)))
            (λ s.
              if_elim (λ o. o ≡ none → is_bad_timeout (build fernet row) ≡ true)
                (is_oauth row && not (contains row.name w.taken))
                (λ e k.
                  ap is_bad_timeout
                    (if_false (is_ldap row) _ _ l ∙ if_true (is_oauth row) _ _ (and_true _ _ e).0)
                  ∙ mapped-bad oauth _ (with_oauth-bad row.name (to_oauth_provider fernet row) w k))
                (λ e k. cc)))

  -- What the rest of the rows makes of a row's result.
  abbrev rest : List AuthProviderConfig → Option Widening → Option Widening
  rest rows o = elim o [ none ↦ none | some w ↦ widen fernet rows w ]

  pub widen-raises :
      (rows : List AuthProviderConfig) (w : Widening)
      → widen fernet rows w ≡ none
      → any (λ row. is_bad_timeout (build fernet row)) rows ≡ true
  unfolding widen
  widen-raises [] w h = cc
  widen-raises (row ∷ rows) w h = elim (Option-cases (widen_by fernet row w)) [
    | inl e ↦ ground (arith, widen_by-raises row w e)
    | inr (v, e) ↦ ground (arith, widen-raises rows v (sym (ap (rest rows) e) ∙ h))
  ]
