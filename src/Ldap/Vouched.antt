-- ===== src/Ldap/Vouched.antt =====
-- Whom authenticate of webui/app/auth/ldap_auth.py vouches for.
use powerdns.Prelude.{
  ◌≡◌, ◌≢◌, ◌⊎◌, not, refl, Bool, true, false, Option, none, some, List, [], ◌∷◌, is_empty, if_elim,
  inl, inr,
}
use powerdns.Text.{Text}
use powerdns.Provision.{IdentityClaim}
use powerdns.Ldap.{LdapConfig, build_server, Entry, Answer, got, ldap_exception, Ldap3}
use powerdns.Ldap.Entries.{groups_from_entry}
use powerdns.Ldap.Bind.{
  Verdict, vouched, no_match, service_connection, needs_start_tls, user_filter, wanted_attributes,
  claim_of, secure, after_bind, after_tls, check_password, after_search, search_for, with_service,
  authenticate,
}

both : (b : Bool) (t : Text) → not b ≡ false → is_empty t ≡ false → (b ≡ true) × (t ≢ [])
both true (c ∷ t) e f = (refl, (λ h. cc))
both true [] e f = cc
both false t e f = cc

not_both : (b : Bool) (t : Text) → (b ≡ false) ⊎ (t ≡ []) → not b ≡ false → is_empty t ≡ false → ⊥
not_both b t (inl h) e f = cc (h, (both b t e f).0)
not_both b t (inr h) e f = (both b t e f).1 h

module _ {S C : Type 0} (ldap3 : Ldap3 S C) (escape : Text → Text) (config : LdapConfig)
    (username password : Text) (claim : IdentityClaim) where
  -- The bind as the entry, with the password, has succeeded after whatever TLS is asked for.
  abbrev pub Binds : C → Entry → S → Type 0
  Binds connection entry s =
      (s' : S) × (s'' : S) × (groups : List Text) × (secure ldap3 escape config
          (needs_start_tls ldap3 escape config connection)
          (ldap3.prepare connection entry.dn password) s
        ≡ (got tt, s'))
      × (ldap3.bind (ldap3.prepare connection entry.dn password) s' ≡ (got true, s''))
      × (claim ≡ claim_of ldap3 escape config username entry groups)

  bind-vouched :
      (connection user_connection : C) (entry : Entry) (a : Answer Bool × S)
      → (after_bind ldap3 escape config connection user_connection username entry a).0
        ≡ vouched claim
      → (s : S) × (groups : List Text) × (a ≡ (got true, s))
        × (claim ≡ claim_of ldap3 escape config username entry groups)
  bind-vouched connection user_connection entry (ldap_exception e, s) h = cc
  bind-vouched connection user_connection entry (got false, s) h = cc
  bind-vouched connection user_connection entry (got true, s) h = (
    s,
    (groups_from_entry ldap3 escape config connection entry username
        (ldap3.unbind user_connection s)).0,
    refl,
    cc,
  )

  tls-Binds :
      (connection : C) (entry : Entry) (s : S) (a : Answer Unit × S)
      → secure ldap3 escape config
          (needs_start_tls ldap3 escape config connection)
          (ldap3.prepare connection entry.dn password)
          s
        ≡ a
      → (after_tls ldap3 escape config connection
          (ldap3.prepare connection entry.dn password)
          username
          entry
          a).0
        ≡ vouched claim
      → Binds connection entry s
  tls-Binds connection entry s (ldap_exception e, s') t h = cc
  tls-Binds connection entry s (got tt, s') t h =
      let (s'', groups, b, c) = bind-vouched connection _ entry _ h in (s', s'', groups, t, b, c)

  -- The search has found one entry, and the bind as it has succeeded.
  abbrev pub Finds : C → Text → S → Type 0
  Finds connection search_filter s =
      (entry : Entry) × (s' : S) × (ldap3.search connection config.base_dn search_filter
          (wanted_attributes ldap3 escape config) s
        ≡ (got (entry ∷ []), s'))
      × Binds connection entry s'

  search-Finds :
      (connection : C) (search_filter : Text) (s : S) (a : Answer (List Entry) × S)
      → ldap3.search connection config.base_dn search_filter
          (wanted_attributes ldap3 escape config)
          s
        ≡ a
      → (after_search ldap3 escape config connection username password a).0 ≡ vouched claim
      → Finds connection search_filter s
  unfolding check_password
  search-Finds connection f s (ldap_exception e, s') a h = cc
  search-Finds connection f s (got [], s') a h = cc
  search-Finds connection f s (got (entry ∷ []), s') a h =
      (entry, s', a, tls-Binds connection entry s' _ refl h)
  search-Finds connection f s (got (entry ∷ other ∷ rest), s') a h = cc

  -- The service account is bound, the filter is the configured one for the name, and the rest follows.
  abbrev pub Vouches : S → Type 0
  Vouches s =
      (connection : C) × (s' : S) × (search_filter : Text) × (service_connection ldap3 escape config
          (build_server config) s
        ≡ (got (connection, true), s'))
      × (user_filter ldap3 escape config username ≡ some search_filter)
      × Finds connection search_filter s'

  filter-Finds :
      (connection : C) (o : Option Text) (s : S)
      → (search_for ldap3 escape config connection username password o s).0 ≡ vouched claim
      → (search_filter : Text) × (o ≡ some search_filter) × Finds connection search_filter s
  filter-Finds connection none s h = cc
  filter-Finds connection (some f) s h = (f, refl, search-Finds connection f s _ refl h)

  service-Vouches :
      (s : S) (a : Answer (C × Bool) × S)
      → service_connection ldap3 escape config (build_server config) s ≡ a
      → (with_service ldap3 escape config username password a).0 ≡ vouched claim
      → Vouches s
  service-Vouches s (ldap_exception e, s') a h = cc
  service-Vouches s (got (connection, false), s') a h = cc
  service-Vouches s (got (connection, true), s') a h =
      let (f, o, finds) = filter-Finds connection _ s' h in (connection, s', f, a, o, finds)

  -- A directory that is switched off, and an empty password, reach no server: nobody is vouched for.
  -- Otherwise a claim is made only if the service account is bound, its search with the configured
  -- filter finds exactly one entry, and a bind as that entry with the password succeeds, after TLS has
  -- been started on it where it has to be; and the claim is that entry's, under its DN.
  pub authenticate_lem :
      (s : S)
      → ((config.enabled ≡ false) ⊎ (password ≡ [])
          → authenticate ldap3 escape config username password s ≡ (no_match, s))
        × ((authenticate ldap3 escape config username password s).0 ≡ vouched claim
            → (config.enabled ≡ true) × (password ≢ []) × Vouches s)
  unfolding authenticate
  authenticate_lem s = (
    (λ h.
        if_elim (λ x. x ≡ (no_match, s)) (not config.enabled) (λ _. refl)
          (λ on.
            if_elim (λ x. x ≡ (no_match, s)) (is_empty password) (λ _. refl)
              (λ there. absurd (not_both config.enabled password h on there)))),
    if_elim Claims (not config.enabled) (λ _ h. cc)
        (λ on.
          if_elim Claims (is_empty password) (λ _ h. cc)
            (λ there h.
              let (e, n) = both config.enabled password on there in
              (e, n, service-Vouches s _ refl h))),
  )
    where
      Claims : Verdict × S → Type 0
      Claims x = x.0 ≡ vouched claim → (config.enabled ≡ true) × (password ≢ []) × Vouches s
