-- ===== src/Login/Outcomes.antt =====
-- Who the sign-in form lets in: login of webui/app/views/auth_views.py.
use powerdns.Prelude.{
  ℕ, ◌==◌, ◌≡◌, ◌⊎◌, inl, inr, refl, sym, ap, ◌∙◌, subst, Bool, true, false, not, ◌||◌, Option,
  none, some, List, arith, Bool-cases, is_empty, if◌then◌else◌,
}
use powerdns.Text.{Text, strip}
use powerdns.Store.{User, Db}
use powerdns.Passwords.{verify_password}
use powerdns.Session.{Session, login_user, current_user}
use powerdns.Throttle.{LoginThrottle, is_locked}
use powerdns.Provision.{
  IdentityClaim, Denial, Admission, admitted, denied, integrity_error, resolve_identity,
}
use powerdns.Login.{
  LdapAnswer, ldap_error, no_claim, claimed, LoginOutcome, signed_in, AuthConfig, State,
  find_local_user, if_active, authenticate, fail, succeed, provisioned, by_directory, after_local,
  local_user, after_lock, submit, for_visitor, login,
}

-- The user is an active account of the panel itself, and the password is the account's.
abbrev pub IsLocalSignin : (Text → Text → Bool) → Text → Text → List User → User → Type 0
IsLocalSignin check username password us u =
    (find_local_user username us ≡ some u)
    × (u.is_active ≡ true)
    × ((stored : Text) × (u.password_hash ≡ some stored) × (check stored password ≡ true))

-- The directory vouches for the name and the password with a claim, and the claim is admitted as the user.
abbrev pub IsDirectorySignin :
    (Text → Text → LdapAnswer) → Text → AuthConfig → Text → Text → Db → User → Type 0
IsDirectorySignin ldap addr config username password db u =
    (claim : IdentityClaim) × (ldap username password ≡ claimed claim)
    × ((resolve_identity addr claim config.ldap_roles db).0 ≡ admitted u)

authenticate_lem :
    (check : Text → Text → Bool) (username password : Text) (us : List User) (u : User)
    → authenticate check username password us ≡ some u
    → IsLocalSignin check username password us u
unfolding authenticate verify_password
authenticate_lem check username password us u h = go (find_local_user username us) h
  where
    by_hash :
        (w : User) (hash : Option Text)
        → w.password_hash ≡ hash
        → if_active check (some w) (elim hash [
          | none ↦ false
          | some stored ↦ if is_empty stored then false else check stored password
        ])
          ≡ some u
        → (some w ≡ some u)
          × (u.is_active ≡ true)
          × ((stored : Text) × (u.password_hash ≡ some stored) × (check stored password ≡ true))
    by_hash w none e h = absurd (ground arith)
    by_hash w (some stored) e h =
        let same : w ≡ u = ground arith in
        (
          ap some same,
          subst (λ v. v.is_active ≡ true) same (ground arith),
          (stored, ap (λ (v : User). v.password_hash) (sym same) ∙ e, ground arith),
        )

    go :
        (o : Option User)
        → if_active check o (verify_password check o password) ≡ some u
        → (o ≡ some u)
          × (u.is_active ≡ true)
          × ((stored : Text) × (u.password_hash ≡ some stored) × (check stored password ≡ true))
    go none h = absurd (ground arith)
    go (some w) h = by_hash w w.password_hash refl h

module _ (check : Text → Text → Bool) (ldap : Text → Text → LdapAnswer) (describe : Denial → Text)
    (second now : ℕ) (token addr : Text) where
  -- What a post of the form comes to, where `username` is stripped: somebody is signed in, or the
  -- session is the one that `current_user` leaves.
  abbrev pub Result : AuthConfig → Text → Text → State → Session → LoginOutcome × State → Type 0
  Result config username password st session (signed_in u, st') =
      ((is_locked second username addr now st.throttle).0 ≡ 0)
      × (((config.local_enabled ≡ true) × IsLocalSignin check username password st.db.users u)
          ⊎ ((config.ldap_enabled ≡ true)
              × IsDirectorySignin ldap addr config username password st.db u))
      × (st'.session.uid ≡ some u.id)
  Result config username password st session (_, st') = st'.session ≡ session

  module _ (config : AuthConfig) (username password : Text) (st : State) where
    -- The state once the lock is asked; its throttle is what that leaves.
    module _ (throttle : LoginThrottle) (session : Session)
        (unlocked : (is_locked second username addr now st.throttle).0 ≡ 0) where
      asked : State
      asked = record { session = session; db = st.db; throttle = throttle }

      fail-Result :
          Result config username password st session
            (fail check ldap describe second now token addr username asked)
      unfolding fail asked
      fail-Result = refl

      provisioned-Result :
          (claim : IdentityClaim) (r : Admission × Db)
          → config.ldap_enabled ≡ true
          → ldap username password ≡ claimed claim
          → (resolve_identity addr claim config.ldap_roles st.db).0 ≡ r.0
          → Result config username password st session
              (provisioned check ldap describe second now token addr username r asked)
      unfolding succeed asked login_user
      provisioned-Result claim (admitted u, db) l c e = (unlocked, inr (l, (claim, c, e)), refl)
      provisioned-Result claim (denied d, db) l c e = refl
      provisioned-Result claim (integrity_error, db) l c e = refl

      by_directory-Result :
          (a : LdapAnswer)
          → config.ldap_enabled ≡ true
          → ldap username password ≡ a
          → Result config username password st session
              (by_directory check ldap describe second now token addr config username a asked)
      unfolding asked
      by_directory-Result (ldap_error e) l h = refl
      by_directory-Result no_claim l h = fail-Result
      by_directory-Result (claimed claim) l h = provisioned-Result claim _ l h refl

      after_local-Result :
          (o : Option User)
          → local_user check ldap describe second now token addr config username password asked ≡ o
          → Result config username password st session (
              after_local check ldap describe second now token addr config username password o
                asked)
      unfolding asked succeed login_user
      after_local-Result (some u) h = elim (Bool-cases config.local_enabled) [
        | inl e ↦ (
          unlocked,
          inl (e, authenticate_lem check username password st.db.users u (rw e at h)),
          refl,
        )
        | inr e ↦ absurd (ground arith)
      ]
      after_local-Result none h = elim (Bool-cases config.ldap_enabled) [
        | inl e ↦ simp e (by_directory-Result (ldap username password) e refl)
        | inr e ↦ simp e fail-Result
      ]

    after_lock-Result :
        (session : Session) (r : ℕ × LoginThrottle)
        → is_locked second username addr now st.throttle ≡ r
        → Result config username password st session (
            after_lock check ldap describe second now token addr config username password r
              (record st { session = session }))
    unfolding asked
    after_lock-Result session (seconds, throttle) h = elim (Bool-cases (seconds == 0)) [
      | inl e ↦ rw e (after_local-Result throttle session (ap (λ p. p.0) h ∙ ground arith) _ refl)
      | inr e ↦ rw e refl
    ]

    submit-Result :
        (session : Session)
        → Result config username password st session (
            submit check ldap describe second now token addr config username password
              (record st { session = session }))
    submit-Result session = elim (Bool-cases (is_empty username || is_empty password)) [
      | inl e ↦ rw e refl
      | inr e ↦ rw e (after_lock-Result session _ refl)
    ]

  -- A post of the sign-in form signs a user in only if the name is not locked out at the address,
  -- and if either local accounts are on and the user is an active one whose password it is, or the
  -- directory is on, vouches for name and password, and its claim is admitted as that user; the
  -- session is the user's then. Any other outcome leaves the session that was there, cleared if its
  -- user is gone or deactivated.
  pub login_lem :
      (config : AuthConfig) (username password : Text) (st : State)
      → Result config
          (strip username)
          password
          st
          (current_user st.session st.db).1
          (login check ldap describe second now token addr config username password st)
  unfolding login
  login_lem config username password st = visitor (current_user st.session st.db).0
    where
      visitor :
          (o : Option User)
          → Result config (strip username) password st (current_user st.session st.db).1 (
              for_visitor check ldap describe second now token addr config username password o
                (record st { session = (current_user st.session st.db).1 }))
      visitor (some u) = refl
      visitor none = elim (Bool-cases (not config.any_enabled)) [
        | inl e ↦ rw e refl
        | inr e ↦
            rw e
              (submit-Result config (strip username) password st (current_user st.session st.db).1)
      ]
