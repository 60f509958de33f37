-- ===== src/Session/Access.antt =====
-- Who gets through: the signed-in user, the role and zone checks, and the CSRF token.
use powerdns.Prelude.{
  ℕ, ◌≡◌, ◌≢◌, ◌↔◌, ◌⊎◌, inl, inr, Bool, true, false, not, ◌||◌, none, some, List, [], ◌∷◌, any,
  is_empty, arith, Any, Option-cases, if◌then◌else◌,
}
use powerdns.Text.{Text, eq_text, contains, rstrip_dots, lower}
use powerdns.Text.Laws.{eq_text_iff, contains_iff}
use powerdns.Roles.{role_admin, role_operator}
use powerdns.Store.{User, Db, get_user, can_see_zone}
use powerdns.Store.Users.{get_user-set_user_self}
use powerdns.Session.{
  Session, cleared, login_user, current_user, enter, to_login, unauthorized, not_allowed, viewed,
  answered, role_required, require_zone_access, unsafe_methods, validate_csrf,
}

-- The session names a row of the users table that is active.
abbrev pub SignedIn : Session → Db → User → Type 0
SignedIn s db u = (i : ℕ) × (s.uid ≡ some i) × (get_user i db.users ≡ some u) × (u.is_active ≡ true)

active_only_case :
    (s : Session) (db : Db) (u : User) (i : ℕ)
    → s.uid ≡ some i
    → ((current_user s db).0 ≡ some u) ↔ ((get_user i db.users ≡ some u) × (u.is_active ≡ true))
unfolding current_user
active_only_case s db u i e = ground arith

-- The current user is the active row that the session names, and nobody if there is none. A session
-- that names no active row is cleared.
pub current_user_iff :
    (s : Session) (db : Db)
    → ((u : User) → ((current_user s db).0 ≡ some u) ↔ SignedIn s db u)
      × ((current_user s db).0 ≡ none → s.uid ≢ none → (current_user s db).1 ≡ cleared)
current_user_iff s db = ((λ u. (to u, back u)), unfold current_user in ground arith)
  where
    to : (u : User) → (current_user s db).0 ≡ some u → SignedIn s db u
    to u h = elim (Option-cases s.uid) [
      | inl e ↦ absurd (unfold current_user in ground arith)
      | inr (i, e) ↦ let (g, a) = (active_only_case s db u i e).0 h in (i, e, g, a)
    ]

    back : (u : User) → SignedIn s db u → (current_user s db).0 ≡ some u
    back u (i, e, g, a) = (active_only_case s db u i e).1 (g, a)

-- A view behind a role check runs exactly for a signed-in, active user whose role is on its list or
-- who is an administrator; any other user is refused; and whoever is not signed in is sent to the
-- sign-in page, or gets a 401 on a request for JSON.
pub role_required_lem :
    (roles : List Text) (is_json : Bool) (s : Session) (db : Db) (u : User)
    → let answer = answered is_json (role_required roles (current_user s db).0) in
      (answer ≡ viewed u → SignedIn s db u × (Any (λ r. r ≡ u.role) roles ⊎ (u.role ≡ role_admin)))
      × (SignedIn s db u → Any (λ r. r ≡ u.role) roles ⊎ (u.role ≡ role_admin) → answer ≡ viewed u)
      × (SignedIn s db u
          → ¬ Any (λ r. r ≡ u.role) roles
          → u.role ≢ role_admin
          → answer ≡ not_allowed)
      × ((current_user s db).0 ≡ none → is_json ≡ false → answer ≡ to_login)
      × ((current_user s db).0 ≡ none → is_json ≡ true → answer ≡ unauthorized)
unfolding role_required answered
role_required_lem roles is_json s db u =
    ground
      (arith, contains_iff u.role roles, eq_text_iff u.role role_admin, (current_user_iff s db).0 u)

-- A zone is open to administrators and operators, and to whoever has a grant for it, where case and
-- trailing dots do not count.
abbrev pub MaySee : User → Text → Type 0
MaySee u zone =
    (u.role ≡ role_admin)
    ⊎ (u.role ≡ role_operator)
    ⊎ Any (λ grant. rstrip_dots (lower grant) ≡ rstrip_dots (lower zone)) u.zone_grants

pub any_grant_iff :
    (wanted : Text) (grants : List Text)
    → (any (λ grant. eq_text (rstrip_dots (lower grant)) wanted) grants ≡ true)
      ↔ Any (λ grant. rstrip_dots (lower grant) ≡ wanted) grants
any_grant_iff wanted [] = ground arith
any_grant_iff wanted (g ∷ gs) =
    ground (arith, eq_text_iff (rstrip_dots (lower g)) wanted, any_grant_iff wanted gs)

pub can_see_zone_iff : (u : User) (zone : Text) → (can_see_zone u zone ≡ true) ↔ MaySee u zone
unfolding can_see_zone contains
can_see_zone_iff u zone = ground (
  arith,
  eq_text_iff role_admin u.role,
  eq_text_iff role_operator u.role,
  any_grant_iff (rstrip_dots (lower zone)) u.zone_grants,
)

-- A request on a zone goes on exactly for a signed-in, active user who is an administrator, an
-- operator, or has a grant for the zone, where case and final dots do not count.
pub require_zone_access_iff :
    (zone : Text) (s : Session) (db : Db) (u : User)
    → (require_zone_access zone (current_user s db).0 ≡ enter u) ↔ (SignedIn s db u × MaySee u zone)
unfolding require_zone_access
require_zone_access_iff zone s db u =
    ground (arith, can_see_zone_iff u zone, (current_user_iff s db).0 u)

-- After a sign-in of an active user of the table the session belongs to that user, with the time of
-- the sign-in noted in the row, and carries the fresh token.
pub login-current_user :
    (user : User) (now : ℕ) (token : Text) (db : Db)
    → get_user user.id db.users ≡ some user
    → user.is_active ≡ true
    → let (s, db') = login_user user now token db in
      ((current_user s db').0 ≡ some (record user { last_login_at = some now })) × (s.csrf ≡ token)
unfolding login_user current_user
login-current_user user now token db g a =
    ground (
      arith,
      get_user-set_user_self (record user { last_login_at = some now }) db.users {v = user} g,
    )

-- The token that a request presents: in its form, or else in its header.
abbrev pub presented : Text → Text → Text
presented form_token header = if is_empty form_token then header else form_token

csrf_test :
    {P : Type 0} (unsafe exempt : Bool) (expected provided : Text)
    → (unsafe ≡ true) ↔ P
    → ((if not unsafe
          then true
          else if exempt
          then true
          else not (is_empty expected || is_empty provided || not (eq_text expected provided)))
        ≡ true)
      ↔ (¬ P ⊎ (exempt ≡ true) ⊎ ((expected ≢ []) × (provided ≡ expected)))
csrf_test false exempt expected provided h = ground arith
csrf_test true true expected provided h = ground arith
csrf_test true false [] provided h = ground arith
csrf_test true false (c ∷ expected) [] h = ground arith
csrf_test true false (c ∷ expected) (d ∷ provided) h =
    ground (arith, eq_text_iff (c ∷ expected) (d ∷ provided))

-- A request that changes state and is not exempt goes on exactly if the session has a token and the
-- request presents it. Other requests always go on.
pub validate_csrf_iff :
    (method : Text) (exempt : Bool) (form_token header : Text) (s : Session)
    → (validate_csrf method exempt form_token header s ≡ true) ↔ (
        ¬ Any (λ m. m ≡ method) unsafe_methods
        ⊎ (exempt ≡ true)
        ⊎ ((s.csrf ≢ []) × (presented form_token header ≡ s.csrf)))
unfolding validate_csrf
validate_csrf_iff method exempt form_token header s =
    csrf_test (contains method unsafe_methods) exempt s.csrf (presented form_token header)
      (contains_iff method unsafe_methods)
