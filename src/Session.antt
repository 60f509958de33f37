-- ===== src/Session.antt =====
-- The signed-in session: login_user, logout_user, current_user, csrf_token, validate_csrf and the
-- access decorators of webui/app/security.py. Flask keeps the session in a signed cookie; here it is
-- the record of the three values the panel stores in it. The clock and the token generator are
-- arguments. The cache of `current_user` for one request is left out: it holds what the function
-- returns.
pub mod Access
pub mod Operators
mod Tests
use powerdns.Prelude.{
  ℕ, Bool, true, false, not, ◌&&◌, ◌||◌, Option, none, some, List, [], ◌∷◌, is_empty, if◌then◌else◌,
}
use powerdns.Text.{Text, text, eq_text, contains}
use powerdns.Roles.{role_admin, role_operator}
use powerdns.Store.{User, Db, get_user, set_user, is_admin, can_see_zone}

pub record Session : Type 0 where
  pub uid : Option ℕ
  pub auth_time : Option ℕ
  pub csrf : Text

abbrev pub cleared : Session
cleared = record { uid = none; auth_time = none; csrf = [] }

-- login_user, at the time `now` and with a fresh token.
unfoldable pub login_user : User → ℕ → Text → Db → Session × Db
login_user user now token db = (
  record { uid = some user.id; auth_time = some now; csrf = token },
  record db { users = set_user (record user { last_login_at = some now }) db.users },
)

unfoldable pub logout_user : Session → Session
logout_user s = cleared

abbrev active_only : Option User → Session → Option User × Session
active_only none s = (none, cleared)
active_only (some user) s = if user.is_active then (some user, s) else (none, cleared)

abbrev signed_in : Option ℕ → Session → Db → Option User × Session
signed_in none s db = (none, s)
signed_in (some i) s db = active_only (get_user i db.users) s

unfoldable pub current_user : Session → Db → Option User × Session
current_user s db = signed_in s.uid s db

-- csrf_token, with the token that it would mint.
unfoldable pub csrf_token : Text → Session → Text × Session
csrf_token fresh s = if is_empty s.csrf then (fresh, record s { csrf = fresh }) else (s.csrf, s)

abbrev pub unsafe_methods : List Text
unsafe_methods = text "POST" ∷ text "PUT" ∷ text "PATCH" ∷ text "DELETE" ∷ []

-- validate_csrf: whether the request goes on. `exempt` says that its endpoint is on CSRF_EXEMPT;
-- `form_token` and `header` are the two places of the token, empty if it is not there.
unfoldable pub validate_csrf : Text → Bool → Text → Text → Session → Bool
validate_csrf method exempt form_token header s =
    let provided = if is_empty form_token then header else form_token in
    if not (contains method unsafe_methods)
    then true
    else if exempt
    then true
    else not (is_empty s.csrf || is_empty provided || not (eq_text s.csrf provided))

-- Whom a decorated view is for: nobody is signed in, the user may not, or the user goes in.
pub data Gate : Type 0 where
  signed_out forbidden : Gate
  enter : User → Gate

-- How the gate answers: the redirect to the sign-in page, a 401, a 403, or the view.
pub data Answer : Type 0 where
  to_login unauthorized not_allowed : Answer
  viewed : User → Answer

-- The answer of login_required and of what is under it; `is_json` is whether the request would best
-- like JSON, and then nobody is redirected.
unfoldable pub answered : Bool → Gate → Answer
answered is_json signed_out = if is_json then unauthorized else to_login
answered is_json forbidden = not_allowed
answered is_json (enter user) = viewed user

-- role_required, over login_required.
unfoldable pub role_required : List Text → Option User → Gate
role_required roles none = signed_out
role_required roles (some user) =
    if not (contains user.role roles) && not (is_admin user) then forbidden else enter user

abbrev pub admin_required : Option User → Gate
admin_required user = role_required (role_admin ∷ []) user

abbrev pub operator_required : Option User → Gate
operator_required user = role_required (role_admin ∷ role_operator ∷ []) user

-- require_zone_access, which answers 401 to whoever is signed out.
unfoldable pub require_zone_access : Text → Option User → Gate
require_zone_access zone_name none = signed_out
require_zone_access zone_name (some user) =
    if not (can_see_zone user zone_name) then forbidden else enter user
