-- ===== src/Passwords.antt =====
-- The password rules and the password check: password_problems and verify_password of
-- webui/app/security.py. The hash functions are Werkzeug's, and so parameters.
pub mod Rules
mod Tests
use powerdns.Prelude.{
  ℕ, Bool, true, false, not, ◌&&◌, Option, none, some, List, [], ◌∷◌, ◌++◌, find, is_empty, length,
  ltb, if◌then◌else◌,
}
use powerdns.Text.{Text, text, strip, lower, eq_text, has_part}
use powerdns.Store.{User}

pub data PasswordProblem : Type 0 where
  too_short same_as_username outer_space : PasswordProblem
  weak_part : Text → PasswordProblem

abbrev pub password_min_length : ℕ
password_min_length = 12

abbrev pub weak_parts : List Text
weak_parts =
    text "password"
    ∷ text "changeme"
    ∷ text "powerdns"
    ∷ text "letmein"
    ∷ text "12345678"
    ∷ text "qwerty"
    ∷ []

abbrev when : Bool → PasswordProblem → List PasswordProblem
when b p = if b then p ∷ [] else []

abbrev weak_problem : Option Text → List PasswordProblem
weak_problem none = []
weak_problem (some weak) = weak_part weak ∷ []

unfoldable pub password_problems : Text → Text → List PasswordProblem
password_problems password username =
    when (ltb (length password) password_min_length) too_short
    ++ when (not (is_empty username) && eq_text (strip (lower password)) (strip (lower username)))
        same_as_username
    ++ when (not (eq_text (strip password) password)) outer_space
    ++ weak_problem (find (λ weak. has_part weak (lower password)) weak_parts)

-- `check` is check_password_hash: the stored hash, then the password. The comparison with a dummy
-- hash, made where there is none, costs time and has no result.
module _ (check : Text → Text → Bool) where
  unfoldable pub verify_password : Option User → Text → Bool
  verify_password none password = false
  verify_password (some user) password = elim user.password_hash [
    | none ↦ false
    | some stored ↦ if is_empty stored then false else check stored password
  ]
