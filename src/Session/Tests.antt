-- ===== src/Session/Tests.antt =====
-- Sessions of two accounts.
use powerdns.Prelude.{◌≡◌, ◌≢◌, ◌⊎◌, ◌↔◌, true, false, none, some, List, [], ◌∷◌, Any}
use powerdns.Text.{Text, text}
use powerdns.Roles.{role_admin, role_operator}
use powerdns.Store.{User}
use powerdns.Session.{
  Answer, answered, to_login, unauthorized, not_allowed, viewed, Session, cleared, current_user,
  enter, role_required, require_zone_access, unsafe_methods, validate_csrf,
}
use powerdns.Session.Access.{
  SignedIn, current_user_iff, role_required_lem, MaySee, require_zone_access_iff, presented,
  validate_csrf_iff,
}
use powerdns.Samples.{bob, sample_db}

abbrev bobs : Session
bobs = record { uid = some 2; auth_time = some 5; csrf = text "token" }

abbrev operators : List Text
operators = role_admin ∷ role_operator ∷ []

current_user_iff_example :
    ((u : User) → ((current_user bobs sample_db).0 ≡ some u) ↔ SignedIn bobs sample_db u)
    × ((current_user bobs sample_db).0 ≡ none
        → bobs.uid ≢ none
        → (current_user bobs sample_db).1 ≡ cleared)
current_user_iff_example = current_user_iff bobs sample_db

abbrev answer : Answer
answer = answered true (role_required operators (current_user bobs sample_db).0)

role_required_lem_example :
    (answer ≡ viewed bob
      → SignedIn bobs sample_db bob × (Any (λ r. r ≡ bob.role) operators ⊎ (bob.role ≡ role_admin)))
    × (SignedIn bobs sample_db bob
        → Any (λ r. r ≡ bob.role) operators ⊎ (bob.role ≡ role_admin)
        → answer ≡ viewed bob)
    × (SignedIn bobs sample_db bob
        → ¬ Any (λ r. r ≡ bob.role) operators
        → bob.role ≢ role_admin
        → answer ≡ not_allowed)
    × ((current_user bobs sample_db).0 ≡ none → true ≡ false → answer ≡ to_login)
    × ((current_user bobs sample_db).0 ≡ none → true ≡ true → answer ≡ unauthorized)
role_required_lem_example = role_required_lem operators true bobs sample_db bob

require_zone_access_iff_example :
    (require_zone_access (text "example.org.") (current_user bobs sample_db).0 ≡ enter bob)
    ↔ (SignedIn bobs sample_db bob × MaySee bob (text "example.org."))
require_zone_access_iff_example = require_zone_access_iff (text "example.org.") bobs sample_db bob

validate_csrf_iff_example : (validate_csrf (text "POST") false [] (text "token") bobs ≡ true) ↔ (
    ¬ Any (λ m. m ≡ text "POST") unsafe_methods
    ⊎ (false ≡ true)
    ⊎ ((bobs.csrf ≢ []) × (presented [] (text "token") ≡ bobs.csrf)))
validate_csrf_iff_example = validate_csrf_iff (text "POST") false [] (text "token") bobs
