-- ===== src/Profile.antt =====
-- The signed-in user's own account: the posts of webui/app/views/profile.py, behind login_required.
pub mod Outcomes
mod Tests
use powerdns.Prelude.{
  ◌≡◌, Bool, true, false, not, Option, none, some, List, [], ◌∷◌, take, if◌then◌else◌,
}
use powerdns.Text.{Text, text, eq_text, strip}
use powerdns.Form.{Form, field}
use powerdns.Store.{User, Db, is_local, set_user, record_audit}
use powerdns.Passwords.{PasswordProblem, password_problems, verify_password}

pub data Outcome : Type 0 where
  sign_in_first not_here wrong_password passwords_differ saved password_changed : Outcome
  bad_password : List PasswordProblem → Outcome

pub data Request : Type 0 where
  update change_password : Form → Request

-- `check` and `hash` are Werkzeug's; `addr` is the request's remote address.
module _ (check : Text → Text → Bool) (hash : Text → Text) (addr : Text) where
  abbrev pub note : Text → User → Bool → Db → Db
  note action user success db = record_audit addr action user.username [] (some user) success db

  abbrev pub put : User → Db → Db
  put user db = record db { users = set_user user db.users }

  abbrev pub described : Form → User → User
  described form user = record user {
    display_name = take 190 (strip (field form (text "display_name")));
    email = take 254 (strip (field form (text "email")));
  }

  unfoldable pub save_profile : Form → User → Db → Outcome × Db
  unfolding field strip
  save_profile form user db = if not (is_local user) then (not_here, db) else (
    saved,
    note (text "profile.update") (described form user) true (put (described form user) db),
  )

  abbrev pub with_password : Text → User → User
  with_password secret user = record user { password_hash = some (hash secret) }

  -- The last step, on what is wrong with the new password.
  abbrev pub if_accepted : List PasswordProblem → Text → User → Db → Outcome × Db
  if_accepted (p ∷ ps) secret user db = (bad_password (p ∷ ps), db)
  if_accepted [] secret user db =
      let user' = with_password secret user in
      (password_changed, note (text "profile.password_change") user' true (put user' db))

  unfoldable pub save_password : Form → User → Db → Outcome × Db
  unfolding field eq_text verify_password password_problems
  save_password form user db =
      let secret = field form (text "new_password") in
      if not (is_local user)
      then (not_here, db)
      else if not (verify_password check (some user) (field form (text "current_password")))
      then (wrong_password, note (text "profile.password_change") user false db)
      else if not (eq_text secret (field form (text "confirm_password")))
      then (passwords_differ, db)
      else if_accepted (password_problems secret user.username) secret user db

  unfoldable pub handle : Request → Option User → Db → Outcome × Db
  unfolding save_profile save_password
  handle q none db = (sign_in_first, db)
  handle (update form) (some user) db = save_profile form user db
  handle (change_password form) (some user) db = save_password form user db
