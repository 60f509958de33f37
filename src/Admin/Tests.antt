-- ===== src/Admin/Tests.antt =====
-- User administration on two accounts.
use powerdns.Prelude.{◌≡◌, refl, true, some, List, [], ◌∷◌, arith}
use powerdns.Text.{Text, text, eq_text, contains, strip}
use powerdns.Form.{Form, field}
use powerdns.Store.{User, get_user, active_admins, other_admins}
use powerdns.Session.{Session}
use powerdns.Admin.{last_admin, Request, update, delete, update_user, update_found, serve}
use powerdns.Admin.Managed.{IsManaged}
use powerdns.Admin.Invariant.{serve-IsManaged}
use powerdns.Admin.Update.{Result, update_user_lem, update_user-actor}
use powerdns.Samples.{alice, bob, sample_db}

abbrev hash : Text → Text
hash password = text "#"

abbrev addr : Text
addr = text "192.0.2.1"

abbrev alices : Session
alices = record { uid = some 1; auth_time = some 0; csrf = text "t" }

-- Bob becomes an administrator; alice is deactivated by him, and then he deletes himself.
abbrev promotion : Form
promotion = (text "role", text "admin") ∷ (text "is_active", text "on") ∷ []

abbrev bobs : Session
bobs = record { uid = some 2; auth_time = some 0; csrf = text "u" }

abbrev requests : List (Session × Request)
requests =
    (alices, update 2 promotion)
    ∷ (bobs, update 1 ((text "role", text "admin") ∷ []))
    ∷ (bobs, delete 1)
    ∷ (bobs, update 2 ((text "role", text "user") ∷ (text "is_active", text "on") ∷ []))
    ∷ []

sample_db-IsManaged : IsManaged sample_db
unfolding active_admins eq_text
sample_db-IsManaged = record { unique = ground arith; below = ground arith; manned = omega arith }

serve-IsManaged_example : IsManaged (serve hash addr requests sample_db)
serve-IsManaged_example = serve-IsManaged hash addr requests sample_db sample_db-IsManaged

get_bob : get_user 2 sample_db.users ≡ some bob
unfolding get_user
get_bob = refl

get_alice : get_user 1 sample_db.users ≡ some alice
unfolding get_user
get_alice = refl

update_user_lem_example :
    Result 2 promotion bob sample_db
      (update_user hash addr 2 promotion alice sample_db).0
      (update_user hash addr 2 promotion alice sample_db).1
update_user_lem_example = update_user_lem hash addr 2 promotion alice bob sample_db get_bob

update_user-actor_example :
    (row : User) × (get_user 1 (update_user hash addr 1 [] alice sample_db).1.users ≡ some row)
    × (row.is_active ≡ true)
update_user-actor_example = update_user-actor hash addr 1 [] alice sample_db get_alice refl

-- The only administrator cannot give up the role.
demote_self :
    (update_user hash addr 1 ((text "role", text "user") ∷ []) alice sample_db).0 ≡ last_admin
unfolding update_user update_found get_user field eq_text contains strip other_admins
demote_self = refl
