-- ===== src/Providers/Step.antt =====
-- What widen_by of Providers/Effective.antt has done with a row, by cases.
use powerdns.Prelude.{◌≡◌, refl, Bool, true, false, not, ◌&&◌, some, ap, if_elim}
use powerdns.Text.{Text, eq_text, contains}
use powerdns.Text.Laws.{eq_text_iff}
use powerdns.Providers.{
  AuthProviderConfig, auth_ldap, auth_oauth, auth_saml, Fernet, to_ldap_config, to_oauth_provider,
}
use powerdns.Providers.Saml.{to_saml_config}
use powerdns.Providers.Effective.{Widening, with_ldap, with_saml, with_oauth, widen_by}

abbrev pub is_ldap : AuthProviderConfig → Bool
is_ldap row = eq_text row.kind auth_ldap

abbrev pub is_saml : AuthProviderConfig → Bool
is_saml row = eq_text row.kind auth_saml

abbrev pub is_oauth : AuthProviderConfig → Bool
is_oauth row = eq_text row.kind auth_oauth

pub one_kind :
    (kind : Text)
    → (eq_text kind auth_ldap ≡ true
        → (eq_text kind auth_saml ≡ false) × (eq_text kind auth_oauth ≡ false))
      × (eq_text kind auth_saml ≡ true
          → (eq_text kind auth_ldap ≡ false) × (eq_text kind auth_oauth ≡ false))
unfolding eq_text
one_kind kind = (
  (λ h.
      let e = (eq_text_iff kind auth_ldap).0 h in
      (ap (λ k. eq_text k auth_saml) e, ap (λ k. eq_text k auth_oauth) e)),
  (λ h.
      let e = (eq_text_iff kind auth_saml).0 h in
      (ap (λ k. eq_text k auth_ldap) e, ap (λ k. eq_text k auth_oauth) e)),
)

pub data Step (fernet : Fernet) (row : AuthProviderConfig) (w w' : Widening) : Type 0 where
  by_ldap :
      is_ldap row ≡ true
      → is_saml row ≡ false
      → is_oauth row ≡ false
      → w.config.ldap.enabled ≡ false
      → with_ldap (to_ldap_config fernet row) w ≡ some w'
      → Step fernet row w w'
  by_saml :
      is_ldap row ≡ false
      → is_saml row ≡ true
      → is_oauth row ≡ false
      → w.config.saml.enabled ≡ false
      → with_saml (to_saml_config fernet row) w ≡ some w'
      → Step fernet row w w'
  by_oauth :
      is_ldap row ≡ false
      → is_saml row ≡ false
      → is_oauth row ≡ true
      → contains row.name w.taken ≡ false
      → with_oauth row.name (to_oauth_provider fernet row) w ≡ some w'
      → Step fernet row w w'
  kept :
      w ≡ w'
      → (is_ldap row ≡ true → w.config.ldap.enabled ≡ true)
      → (is_saml row ≡ true → w.config.saml.enabled ≡ true)
      → (is_oauth row ≡ true → contains row.name w.taken ≡ true)
      → Step fernet row w w'

pub and_true : (a b : Bool) → a && not b ≡ true → (a ≡ true) × (b ≡ false)
and_true true false h = (refl, refl)
and_true true true h = cc
and_true false b h = cc

and_false : (a b : Bool) → a && not b ≡ false → a ≡ true → b ≡ true
and_false true true h e = refl
and_false true false h e = cc
and_false false b h e = cc

pub some-injective : {A : Type 0} (a b : A) → some a ≡ some b → a ≡ b
some-injective a b h = cc

pub widen_by-Step :
    (fernet : Fernet) (row : AuthProviderConfig) (w w' : Widening)
    → widen_by fernet row w ≡ some w'
    → Step fernet row w w'
unfolding widen_by
widen_by-Step fernet row w w' =
    if_elim (λ o. o ≡ some w' → Step fernet row w w') (is_ldap row)
      (λ l.
        let (s, o) = (one_kind row.kind).0 l in
        if_elim (λ o. o ≡ some w' → Step fernet row w w') w.config.ldap.enabled
          (λ e k. kept (some-injective w w' k) (λ u. e) (λ u. cc) (λ u. cc))
          (λ e k. by_ldap l s o e k))
      (λ l.
        if_elim (λ o. o ≡ some w' → Step fernet row w w') (is_saml row)
          (λ s.
            let (l', o) = (one_kind row.kind).1 s in
            if_elim (λ o. o ≡ some w' → Step fernet row w w') w.config.saml.enabled
              (λ e k. kept (some-injective w w' k) (λ u. cc) (λ u. e) (λ u. cc))
              (λ e k. by_saml l s o e k))
          (λ s.
            if_elim (λ o. o ≡ some w' → Step fernet row w w')
              (is_oauth row && not (contains row.name w.taken))
              (λ e k. let (o, t) = and_true _ _ e in by_oauth l s o t k)
              (λ e k. kept (some-injective w w' k) (λ u. cc) (λ u. cc) (and_false _ _ e))))
