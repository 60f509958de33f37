-- ===== src/Providers/Precedence.antt =====
-- The environment before the rows, and an earlier row before a later one.
use powerdns.Prelude.{
  ◌≡◌, refl, subst, inl, inr, true, ◌&&◌, Option, none, some, List, [], ◌∷◌, find, map, any, ap,
  sym, ◌∙◌, if◌then◌else◌, Option-cases,
}
use powerdns.Text.{Text, eq_text, lower}
use powerdns.Ldap.{LdapConfig}
use powerdns.Config.Providers.{OAuthProvider}
use powerdns.Config.Saml.{SamlConfig}
use powerdns.Config.Auth.{AuthConfig, is_named, provider}
use powerdns.Providers.{AuthProviderConfig, Fernet, to_ldap_config, to_oauth_provider}
use powerdns.Providers.Saml.{to_saml_config}
use powerdns.Providers.Step.{
  is_ldap, is_saml, is_oauth, Step, by_ldap, by_saml, by_oauth, kept, some-injective, widen_by-Step,
}
use powerdns.Providers.Named.{or_first, contains-found}
use powerdns.Providers.Enabled.{to_ldap_config-Each, to_saml_config-Each, to_oauth_provider-Each}
use powerdns.Providers.Raised.{is_bad_timeout, widen-raises}
use powerdns.Providers.Effective.{build, Widening, widen_by, widen, effective_auth_config}
use powerdns.Providers.Chosen.{
  named, enabled_rows, or_next, first_usable, ldap_of, saml_of, with_ldap-ldap_of,
  with_saml-saml_of, with_ldap-other, with_saml-other, with_oauth-other, if_true, if_false, Taken,
  with_oauth-named, idle-named, with_oauth-Taken, idle-ldap, idle-saml, ldap_of-none, saml_of-none,
  or_first-none,
}

module _ (fernet : Fernet) where
  Step-ldap :
      (row : AuthProviderConfig) (w w' : Widening) (next : Option LdapConfig)
      → Step fernet row w w'
      → ldap_of w.config.ldap
          (if is_ldap row then or_next (to_ldap_config fernet row) next else next)
        ≡ ldap_of w'.config.ldap next
  Step-ldap row w w' next (by_ldap l s o e k) =
      ap (ldap_of w.config.ldap) (if_true (is_ldap row) _ _ l)
      ∙ with_ldap-ldap_of (to_ldap_config fernet row) w w' next (to_ldap_config-Each fernet row) e k
  Step-ldap row w w' next (by_saml l s o e k) =
      ap (ldap_of w.config.ldap) (if_false (is_ldap row) _ _ l)
      ∙ ap (λ c. ldap_of c next) (with_saml-other (to_saml_config fernet row) w w' k).1
  Step-ldap row w w' next (by_oauth l s o e k) =
      ap (ldap_of w.config.ldap) (if_false (is_ldap row) _ _ l)
      ∙ ap (λ c. ldap_of c next) (with_oauth-other row.name (to_oauth_provider fernet row) w w' k).1
  Step-ldap row w w' next (kept e l s o) =
      idle-ldap (is_ldap row) w.config.ldap _ next l
      ∙ ap (λ (v : Widening). ldap_of v.config.ldap next) e

  Step-saml :
      (row : AuthProviderConfig) (w w' : Widening) (next : Option SamlConfig)
      → Step fernet row w w'
      → saml_of w.config.saml
          (if is_saml row then or_next (to_saml_config fernet row) next else next)
        ≡ saml_of w'.config.saml next
  Step-saml row w w' next (by_ldap l s o e k) =
      ap (saml_of w.config.saml) (if_false (is_saml row) _ _ s)
      ∙ ap (λ c. saml_of c next) (with_ldap-other (to_ldap_config fernet row) w w' k).1
  Step-saml row w w' next (by_saml l s o e k) =
      ap (saml_of w.config.saml) (if_true (is_saml row) _ _ s)
      ∙ with_saml-saml_of (to_saml_config fernet row) w w' next (to_saml_config-Each fernet row) e k
  Step-saml row w w' next (by_oauth l s o e k) =
      ap (saml_of w.config.saml) (if_false (is_saml row) _ _ s)
      ∙ ap (λ c. saml_of c next) (with_oauth-other row.name (to_oauth_provider fernet row) w w' k).2
  Step-saml row w w' next (kept e l s o) =
      idle-saml (is_saml row) w.config.saml _ next s
      ∙ ap (λ (v : Widening). saml_of v.config.saml next) e

  Step-local :
      (row : AuthProviderConfig) (w w' : Widening)
      → Step fernet row w w'
      → w.config.local_enabled ≡ w'.config.local_enabled
  Step-local row w w' (by_ldap l s o e k) = (with_ldap-other (to_ldap_config fernet row) w w' k).0
  Step-local row w w' (by_saml l s o e k) = (with_saml-other (to_saml_config fernet row) w w' k).0
  Step-local row w w' (by_oauth l s o e k) =
      (with_oauth-other row.name (to_oauth_provider fernet row) w w' k).0
  Step-local row w w' (kept e l s o) = ap (λ (v : Widening). v.config.local_enabled) e

  Step-Taken :
      (row : AuthProviderConfig) (w w' : Widening) → Step fernet row w w' → Taken w → Taken w'
  Step-Taken row w w' (by_ldap l s o e k) t n =
      let (_, _, p, q) = with_ldap-other (to_ldap_config fernet row) w w' k in cc (p, q, t n)
  Step-Taken row w w' (by_saml l s o e k) t n =
      let (_, _, p, q) = with_saml-other (to_saml_config fernet row) w w' k in cc (p, q, t n)
  Step-Taken row w w' (by_oauth l s o e k) t n =
      with_oauth-Taken row.name (to_oauth_provider fernet row) w w'
        (to_oauth_provider-Each fernet row) k t n
  Step-Taken row w w' (kept e l s o) t n = cc (e, t n)

  Step-named :
      (n : Text) (row : AuthProviderConfig) (w w' : Widening) (next : Option OAuthProvider)
      → Taken w
      → Step fernet row w w'
      → or_first (find (is_named n) w.config.oauth_providers) (
          if is_oauth row && eq_text row.name n
          then or_next (to_oauth_provider fernet row) next
          else next)
        ≡ or_first (find (is_named n) w'.config.oauth_providers) next
  Step-named n row w w' next t (by_ldap l s o e k) =
      let (_, _, p, _) = with_ldap-other (to_ldap_config fernet row) w w' k in
      idle-named (is_oauth row) row.name n w _ next (λ h. cc)
      ∙ ap (λ ps. or_first (find (is_named n) ps) next) p
  Step-named n row w w' next t (by_saml l s o e k) =
      let (_, _, p, _) = with_saml-other (to_saml_config fernet row) w w' k in
      idle-named (is_oauth row) row.name n w _ next (λ h. cc)
      ∙ ap (λ ps. or_first (find (is_named n) ps) next) p
  Step-named n row w w' next t (by_oauth l s o e k) =
      ap
        (λ b.
          or_first (find (is_named n) w.config.oauth_providers)
            (if b && eq_text row.name n then or_next (to_oauth_provider fernet row) next else next))
        o
      ∙ with_oauth-named row.name n (to_oauth_provider fernet row) w w' next
          (to_oauth_provider-Each fernet row) (sym (t row.name) ∙ e) k
  Step-named n row w w' next t (kept e l s o) =
      idle-named (is_oauth row) row.name n w _ next (λ h. sym (t row.name) ∙ o h)
      ∙ ap (λ (v : Widening). or_first (find (is_named n) v.config.oauth_providers) next) e

  abbrev Combines : List AuthProviderConfig → Widening → Widening → Type 0
  Combines rows w w' =
      (w'.config.local_enabled ≡ w.config.local_enabled)
      × (w'.config.ldap ≡ ldap_of w.config.ldap (first_usable is_ldap (to_ldap_config fernet) rows))
      × (w'.config.saml ≡ saml_of w.config.saml (first_usable is_saml (to_saml_config fernet) rows))
      × ((n : Text)
          → find (is_named n) w'.config.oauth_providers
            ≡ or_first (find (is_named n) w.config.oauth_providers)
                (first_usable (named n) (to_oauth_provider fernet) rows))

  Combines-refl : (w : Widening) → Combines [] w w
  Combines-refl w =
      (refl, ldap_of-none w.config.ldap, saml_of-none w.config.saml, λ n. or_first-none _)

  Combines-Step :
      (row : AuthProviderConfig) (rows : List AuthProviderConfig) (w v w' : Widening)
      → Taken w
      → Step fernet row w v
      → Combines rows v w'
      → Combines (row ∷ rows) w w'
  Combines-Step row rows w v w' t step (a, b, c, d) = (
    a ∙ sym (Step-local row w v step),
    b ∙ sym (Step-ldap row w v _ step),
    c ∙ sym (Step-saml row w v _ step),
    λ n. d n ∙ sym (Step-named n row w v _ t step),
  )

  -- What the rest of the rows makes of a row's result.
  abbrev rest : List AuthProviderConfig → Option Widening → Option Widening
  rest rows o = elim o [ none ↦ none | some w ↦ widen fernet rows w ]

  pub widen-Combines :
      (rows : List AuthProviderConfig) (w w' : Widening)
      → Taken w
      → widen fernet rows w ≡ some w'
      → Combines rows w w'
  unfolding widen
  widen-Combines [] w w' t h = subst (Combines [] w) (some-injective w w' h) (Combines-refl w)
  widen-Combines (row ∷ rows) w w' t h = elim (Option-cases (widen_by fernet row w)) [
    | inl e ↦ cc (h, ap (rest rows) e)
    | inr (v, e) ↦
        let step = widen_by-Step fernet row w v e in
        Combines-Step row rows w v w' t step
          (widen-Combines rows v w' (Step-Taken row w v step t) (sym (ap (rest rows) e) ∙ h))
  ]

  -- The widening that effective_auth_config starts with.
  abbrev start : AuthConfig → Widening
  start env = record {
    config = env;
    taken = map (λ (p : OAuthProvider). p.name) env.oauth_providers;
  }

  abbrev chosen : Option Widening → Option AuthConfig
  chosen none = none
  chosen (some w) = some w.config

  chosen-some :
      (o : Option Widening) (config : AuthConfig)
      → chosen o ≡ some config
      → (w : Widening) × (o ≡ some w) × (w.config ≡ config)
  chosen-some none config h = cc
  chosen-some (some w) config h = (w, refl, some-injective _ _ h)

  chosen-none : (o : Option Widening) → chosen o ≡ none → o ≡ none
  chosen-none none h = refl
  chosen-none (some w) h = cc

  -- For rows whose text settings hold texts or null, as the forms store them (a list or a number
  -- there is outside the model): if effective_auth_config returns, sign-in with a password is on
  -- exactly if the environment has it on; the LDAP and the SAML configuration are the
  -- environment's where that is enabled, else what the first enabled row of the kind that can be
  -- used is built into, and the environment's where there is none; and the OAuth provider that
  -- has a name is the environment's, else what the first enabled row with that name that can be
  -- used is built into. If it does not return, building one of the enabled rows raises the
  -- ValueError of a timeout that is no number.
  pub effective_auth_config_lem :
      (env : AuthConfig) (rows : List AuthProviderConfig)
      → ((config : AuthConfig)
          → effective_auth_config fernet env rows ≡ some config
          → (config.local_enabled ≡ env.local_enabled)
            × (config.ldap
                ≡ ldap_of env.ldap
                    (first_usable is_ldap (to_ldap_config fernet) (enabled_rows rows)))
            × (config.saml
                ≡ saml_of env.saml
                    (first_usable is_saml (to_saml_config fernet) (enabled_rows rows)))
            × ((name : Text)
                → provider name config
                  ≡ or_first (provider name env) (
                      first_usable
                        (named (lower name))
                        (to_oauth_provider fernet)
                        (enabled_rows rows))))
        × (effective_auth_config fernet env rows ≡ none
            → any (λ row. is_bad_timeout (build fernet row)) (enabled_rows rows) ≡ true)
  unfolding effective_auth_config provider
  effective_auth_config_lem env rows = (
    (λ config h.
        let (w, e, c) = chosen-some (widen fernet (enabled_rows rows) (start env)) config h in
        let (a, b, s, d) =
          widen-Combines (enabled_rows rows) (start env) w
            (λ n. contains-found n env.oauth_providers) e in
        subst
          (λ (c : AuthConfig).
            (c.local_enabled ≡ env.local_enabled)
            × (c.ldap
                ≡ ldap_of env.ldap
                    (first_usable is_ldap (to_ldap_config fernet) (enabled_rows rows)))
            × (c.saml
                ≡ saml_of env.saml
                    (first_usable is_saml (to_saml_config fernet) (enabled_rows rows)))
            × ((name : Text)
                → provider name c
                  ≡ or_first (provider name env) (
                      first_usable (named (lower name)) (to_oauth_provider fernet)
                        (enabled_rows rows))))
          c (a, b, s, (λ name. d (lower name)))),
    (λ h.
        widen-raises fernet (enabled_rows rows) (start env)
          (chosen-none (widen fernet (enabled_rows rows) (start env)) h)),
  )
