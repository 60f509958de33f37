-- ===== src/Providers/Usable.antt =====
-- What the pages store can be used.
use powerdns.Prelude.{
  ◌==◌, arith, ◌≡◌, refl, Bool, true, false, not, Option, none, some, List, [], ◌∷◌, ◌++◌, find,
  keep, any, subst, is_empty, All, All-append, Any, Option-cases, if◌then◌else◌, if_elim, sym, ap,
  inl, inr,
}
use powerdns.Text.{Text, text, contains}
use powerdns.Roles.{roles}
use powerdns.Form.{Form, field}
use powerdns.Store.{User}
use powerdns.Session.{Gate, signed_out, forbidden, enter, admin_required}
use powerdns.Config.Auth.{AuthConfig}
use powerdns.Providers.{
  AuthProviderConfig, Unusable, Built, fine, unusable, Fernet, to_ldap_config, to_oauth_provider,
}
use powerdns.Providers.Saml.{to_saml_config}
use powerdns.Providers.Effective.{Backend, build, get_provider, effective_auth_config}
use powerdns.Providers.Forms.{
  no_name, bad_default_role, default_role_of, filled, slug, kinds, is_name_taken, Stored, Outcome,
  Request, create, edit, toggle, delete, update_provider, put, if_built, save, run, handle, serve,
  edited, toggled_row, new_row, switched, removed, behind,
}
use powerdns.Providers.Step.{some-injective}
use powerdns.Providers.Chosen.{enabled_rows}
use powerdns.Providers.Raised.{is_bad_timeout}
use powerdns.Providers.Precedence.{effective_auth_config_lem}

abbrev pub is_fine : {A : Type 0} → Built A → Bool
is_fine (fine a) = true
is_fine (unusable p) = false

module _ (fernet : Fernet) (addr : Text) where
  abbrev pub CanBuild : AuthProviderConfig → Type 0
  CanBuild row = is_fine (build fernet row) ≡ true

  abbrev pub AllBuild : Stored → Type 0
  AllBuild s = All CanBuild s.providers

  update_provider-CanBuild :
      (row : AuthProviderConfig) (rows : List AuthProviderConfig)
      → CanBuild row
      → All CanBuild rows
      → All CanBuild (update_provider row rows)
  unfolding update_provider
  update_provider-CanBuild row [] h k = tt
  update_provider-CanBuild row (r ∷ rows) h k = (
    if_elim CanBuild (r.id == row.id) (λ e. h) (λ e. k.0),
    update_provider-CanBuild row rows h k.1,
  )

  keep-CanBuild :
      (p : AuthProviderConfig → Bool) (rows : List AuthProviderConfig)
      → All CanBuild rows
      → All CanBuild (keep p rows)
  keep-CanBuild p [] k = tt
  keep-CanBuild p (r ∷ rows) k =
      if_elim (All CanBuild) (p r) (λ e. (k.0, keep-CanBuild p rows k.1))
        (λ e. keep-CanBuild p rows k.1)

  put-AllBuild :
      (creating : Bool) (row : AuthProviderConfig) (s : Stored)
      → CanBuild row
      → AllBuild s
      → AllBuild (put fernet addr creating row s)
  put-AllBuild true row s h k = All-append CanBuild s.providers (row ∷ []) k (h, tt)
  put-AllBuild false row s h k = update_provider-CanBuild row s.providers h k

  if_built-same :
      (creating : Bool) (row : AuthProviderConfig) (p : Unusable) (s : Stored)
      → (if_built fernet addr creating row (unusable p) s).1 ≡ s
  if_built-same creating row p s = ground arith

  if_built-AllBuild :
      (creating : Bool) (row : AuthProviderConfig) (b : Built Backend) (s : Stored)
      → build fernet row ≡ b
      → AllBuild s
      → AllBuild (if_built fernet addr creating row b s).1
  if_built-AllBuild creating row (fine b) s e k =
      if_elim (λ (o : Outcome × Stored). AllBuild o.1) (is_name_taken row s.providers) (λ t. k)
        (λ t. put-AllBuild creating row s (ap is_fine e) k)
  if_built-AllBuild creating row (unusable p) s e k =
      subst AllBuild (sym (if_built-same creating row p s)) k

  toggle-CanBuild : (row : AuthProviderConfig) → CanBuild row → CanBuild (toggled_row row)
  unfolding build to_ldap_config to_oauth_provider to_saml_config
  toggle-CanBuild row h = h

  save-AllBuild :
      (creating : Bool) (row : AuthProviderConfig) (form : Form) (s : Stored)
      → AllBuild s
      → AllBuild (save fernet addr creating row form s).1
  unfolding save
  save-AllBuild creating row form s k =
      let name = slug (field form (text "name")) in
      let row' = filled fernet addr form name row in
      let built = if_built fernet addr creating row' (build fernet row') s in
      let unlisted =
        not (contains (default_role_of row'.settings) (roles ++ text "none" ∷ [] ∷ [])) in
      if_elim (λ (o : Outcome × Stored). AllBuild o.1) (is_empty name) {x = (no_name, s)}
        {y = if unlisted then (bad_default_role, s) else built} (λ e. k)
        (λ e.
          if_elim (λ (o : Outcome × Stored). AllBuild o.1) unlisted {x = (bad_default_role, s)}
            {y = built} (λ t. k)
            (λ t. if_built-AllBuild creating row' (build fernet row') s refl k))

  find-CanBuild :
      (p : AuthProviderConfig → Bool) (row : AuthProviderConfig) (rows : List AuthProviderConfig)
      → All CanBuild rows
      → find p rows ≡ some row
      → CanBuild row
  find-CanBuild p row [] k h = cc
  find-CanBuild p row (r ∷ rows) k h =
      if_elim (λ o. o ≡ some row → CanBuild row) (p r)
        (λ e h. subst CanBuild (some-injective r row h) k.0) (λ e h. find-CanBuild p row rows k.1 h)
        h

  switched-AllBuild :
      (o : Option AuthProviderConfig) (s : Stored)
      → ((row : AuthProviderConfig) → o ≡ some row → CanBuild row)
      → AllBuild s
      → AllBuild (switched fernet addr o s).1
  switched-AllBuild none s h k = k
  switched-AllBuild (some row) s h k =
      update_provider-CanBuild _ s.providers (toggle-CanBuild row (h row refl)) k

  edited-AllBuild :
      (form : Form) (o : Option AuthProviderConfig) (s : Stored)
      → AllBuild s
      → AllBuild (edited fernet addr form o s).1
  edited-AllBuild form none s k = k
  edited-AllBuild form (some row) s k = save-AllBuild false row form s k

  removed-AllBuild :
      (o : Option AuthProviderConfig) (s : Stored)
      → AllBuild s
      → AllBuild (removed fernet addr o s).1
  removed-AllBuild none s k = k
  removed-AllBuild (some row) s k = keep-CanBuild _ s.providers k

  run-AllBuild : (q : Request) (s : Stored) → AllBuild s → AllBuild (run fernet addr q s).1
  unfolding run get_provider
  run-AllBuild (create kind form) s k =
      if_elim (λ (o : Outcome × Stored). AllBuild o.1) (contains kind kinds)
        (λ e. save-AllBuild true (new_row kind s.next_id) form s k) (λ e. k)
  run-AllBuild (edit id form) s k = edited-AllBuild form (get_provider id s.providers) s k
  run-AllBuild (toggle id) s k =
      switched-AllBuild (get_provider id s.providers) s
        (λ row e. find-CanBuild _ row s.providers k e) k
  run-AllBuild (delete id) s k = removed-AllBuild (get_provider id s.providers) s k

  behind-AllBuild :
      (gate : Gate) (q : Request) (s : Stored)
      → AllBuild s
      → AllBuild (behind fernet addr gate q s).1
  behind-AllBuild signed_out q s k = k
  behind-AllBuild forbidden q s k = k
  behind-AllBuild (enter user) q s k = run-AllBuild q s k

  served-AllBuild :
      (qs : List (Request × Option User)) (s : Stored)
      → AllBuild s
      → AllBuild (serve fernet addr qs s)
  unfolding serve handle
  served-AllBuild [] s k = k
  served-AllBuild ((q, user) ∷ qs) s k =
      served-AllBuild qs _ (behind-AllBuild (admin_required user) q s k)

  -- The rows are of the table.
  abbrev pub AllStored : Stored → List AuthProviderConfig → Type 0
  AllStored s rows = All (λ row. Any (λ r. r ≡ row) s.providers) rows

  stored-CanBuild :
      (row : AuthProviderConfig) (rows : List AuthProviderConfig)
      → All CanBuild rows
      → Any (λ r. r ≡ row) rows
      → CanBuild row
  stored-CanBuild row [] k h = absurd h
  stored-CanBuild row (r ∷ rows) k (inl e) = subst CanBuild e k.0
  stored-CanBuild row (r ∷ rows) k (inr h) = stored-CanBuild row rows k.1 h

  fine-in_time : (b : Built Backend) → is_fine b ≡ true → is_bad_timeout b ≡ false
  fine-in_time (fine b) h = refl
  fine-in_time (unusable p) h = cc

  none-in_time :
      (table rows : List AuthProviderConfig)
      → All CanBuild table
      → All (λ row. Any (λ r. r ≡ row) table) rows
      → any (λ row. is_bad_timeout (build fernet row)) (enabled_rows rows) ≡ false
  none-in_time table [] k h = refl
  none-in_time table (row ∷ rows) k h =
      let e = fine-in_time (build fernet row) (stored-CanBuild row table k h.0) in
      ground (arith, e, none-in_time table rows k h.1)

  -- If every row of the table of providers can be built into a configuration, then so it is after
  -- any requests to the pages that create, edit, switch and delete providers, by whichever users;
  -- and then effective_auth_config returns for any list of rows of the table.
  pub serve-AllBuild :
      (qs : List (Request × Option User)) (s : Stored) (env : AuthConfig)
      (rows : List AuthProviderConfig)
      → AllBuild s
      → AllStored (serve fernet addr qs s) rows
      → AllBuild (serve fernet addr qs s)
        × ((config : AuthConfig) × (effective_auth_config fernet env rows ≡ some config))
  serve-AllBuild qs s env rows k h =
      let built = served-AllBuild qs s k in
      (
        built,
        elim (Option-cases (effective_auth_config fernet env rows)) [
          | inl e ↦
              cc ((effective_auth_config_lem fernet env rows).1 e, none-in_time _ rows built h)
          | inr c ↦ c
        ],
      )
