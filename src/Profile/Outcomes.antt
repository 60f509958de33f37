-- ===== src/Profile/Outcomes.antt =====
-- What a post to the profile changes in the table of users.
use powerdns.Prelude.{
  ◌≡◌, refl, ◌⊎◌, inl, inr, Bool, true, false, not, Option, none, some, List, [], ◌∷◌, if_elim,
  if◌then◌else◌,
}
use powerdns.Text.{Text, text, eq_text}
use powerdns.Text.Laws.{eq_text_iff}
use powerdns.Form.{Form, field}
use powerdns.Store.{User, Db, is_local, set_user, record_audit}
use powerdns.Passwords.{PasswordProblem, password_problems, verify_password}
use powerdns.Profile.{
  note, Outcome, not_here, wrong_password, passwords_differ, Request, update, change_password,
  if_accepted, save_profile, save_password, handle,
}

not-not : (b : Bool) → not b ≡ false → b ≡ true
not-not true h = refl
not-not false h = cc

module _ (check : Text → Text → Bool) (hash : Text → Text) (addr : Text) where
  -- The user, with another password, after the old one has been given.
  abbrev pub Changes : Request → User → Db → Db → Type 0
  Changes q user db db' =
      (form : Form) × (q ≡ change_password form)
      × (verify_password check (some user) (field form (text "current_password")) ≡ true)
      × (field form (text "new_password") ≡ field form (text "confirm_password"))
      × (password_problems (field form (text "new_password")) user.username ≡ [])
      × (db'.users
          ≡ set_user
              (record user { password_hash = some (hash (field form (text "new_password"))) })
              db.users)

  -- The user, with another name and e-mail address.
  abbrev pub Describes : User → Db → Db → Type 0
  Describes user db db' =
      (display_name email : Text) × (db'.users
        ≡ set_user (record user { display_name = display_name; email = email }) db.users)

  abbrev pub Leaves : Request → Option User → Db → Db → Type 0
  Leaves q user db db' =
      (db'.users ≡ db.users)
      ⊎ ((u : User) × (user ≡ some u)
          × (is_local u ≡ true)
          × (Describes u db db' ⊎ Changes q u db db'))

  if_accepted-Leaves :
      (form : Form) (u : User) (db : Db) (ps : List PasswordProblem)
      → is_local u ≡ true
      → verify_password check (some u) (field form (text "current_password")) ≡ true
      → field form (text "new_password") ≡ field form (text "confirm_password")
      → password_problems (field form (text "new_password")) u.username ≡ ps
      → Leaves
          (change_password form)
          (some u)
          db
          (if_accepted check hash addr ps (field form (text "new_password")) u db).1
  unfolding record_audit
  if_accepted-Leaves form u db (p ∷ ps) l v e w = inl refl
  if_accepted-Leaves form u db [] l v e w = inr (u, refl, l, inr (form, refl, v, e, w, refl))

  save_profile-Leaves :
      (form : Form) (u : User) (db : Db)
      → Leaves (update form) (some u) db (save_profile check hash addr form u db).1
  unfolding save_profile record_audit
  save_profile-Leaves form u db =
      if_elim (λ (r : Outcome × Db). Leaves (update form) (some u) db r.1) (not (is_local u))
        (λ l. inl refl) (λ l. inr (u, refl, not-not _ l, inl (_, _, refl)))

  save_password-Leaves :
      (form : Form) (u : User) (db : Db)
      → Leaves (change_password form) (some u) db (save_password check hash addr form u db).1
  unfolding save_password record_audit
  save_password-Leaves form u db =
      let secret = field form (text "new_password") in
      let verified = verify_password check (some u) (field form (text "current_password")) in
      let same = eq_text secret (field form (text "confirm_password")) in
      let P = λ (r : Outcome × Db). Leaves (change_password form) (some u) db r.1 in
      let accepted =
        if_accepted check hash addr (password_problems secret u.username) secret u db in
      let differ = if not same then (passwords_differ, db) else accepted in
      let wrong : Outcome × Db =
        (wrong_password, note check hash addr (text "profile.password_change") u false db) in
      if_elim P (not (is_local u)) {x = (not_here, db)} {y = if not verified then wrong else differ}
        (λ l. inl refl)
        (λ l.
          if_elim P (not verified) {x = wrong} {y = differ} (λ v. inl refl)
            (λ v.
              if_elim P (not same) {x = (passwords_differ, db)} {y = accepted} (λ e. inl refl)
                (λ e.
                  if_accepted-Leaves form u db _ (not-not _ l) (not-not _ v)
                    ((eq_text_iff secret (field form (text "confirm_password"))).0 (not-not _ e))
                    refl)))

  -- A post to the profile leaves the table of users as it was, or the user is signed in, is an
  -- account of the panel, and is the only one whose row changes: in its name and e-mail address, or
  -- in its password, and the latter only by a request with the current password, with the new one
  -- twice, and where the rules find nothing wrong with that.
  pub handle-Leaves :
      (q : Request) (user : Option User) (db : Db)
      → Leaves q user db (handle check hash addr q user db).1
  unfolding handle
  handle-Leaves q none db = inl refl
  handle-Leaves (update form) (some u) db = save_profile-Leaves form u db
  handle-Leaves (change_password form) (some u) db = save_password-Leaves form u db
