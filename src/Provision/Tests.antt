-- ===== src/Provision/Tests.antt =====
-- Sign-ins of a directory account.
use powerdns.Prelude.{◌≡◌, refl, true, some, [], ◌∷◌, arith}
use powerdns.Text.{Text, text, eq_text, strip, lower, contains, dedup, join}
use powerdns.Form.{Form, field}
use powerdns.Roles.{resolve}
use powerdns.Store.{User, active_admins, get_user, set_user, record_audit, other_admins}
use powerdns.Admin.{saved, asked_role, update_user, update_found, changed_row, commit_update}
use powerdns.Admin.Managed.{IsManaged}
use powerdns.Provision.{
  IdentityClaim, admitted, resolve_identity, normalise_username, is_username, find_row, subject_row,
  admit_existing, commit, refreshed, is_taken, group_summary,
}
use powerdns.Provision.Signin.{IsKeyed, Admits, resolve_identity_lem, resolve_identity-local}
use powerdns.Provision.Pinned.{picked_role_survives}
use powerdns.Samples.{alice, bob, sample_db, by_cn}

abbrev bobs_claim : IdentityClaim
bobs_claim = record {
  username = text "Bob";
  auth_source = text "ldap";
  provider = text "ldap";
  external_id = some (text "uid-2");
  email = text "bob@example.org";
  display_name = text "Bob";
  groups = some (text "staff") ∷ [];
}

sample_db-IsKeyed : IsKeyed sample_db
sample_db-IsKeyed = record { unique = ground arith; below = ground arith }

resolve_identity_lem_example :
    Admits bobs_claim by_cn sample_db (resolve_identity [] bobs_claim by_cn sample_db)
resolve_identity_lem_example = resolve_identity_lem [] bobs_claim by_cn sample_db sample_db-IsKeyed

get_alice : get_user 1 sample_db.users ≡ some alice
unfolding get_user
get_alice = refl

resolve_identity-local_example :
    get_user 1 (resolve_identity [] bobs_claim by_cn sample_db).1.users ≡ some alice
unfolding eq_text
resolve_identity-local_example =
    resolve_identity-local [] bobs_claim by_cn sample_db alice sample_db-IsKeyed get_alice refl refl

-- Alice makes bob an operator by hand.
abbrev hash : Text → Text
hash password = text "#"

abbrev picked : Form
picked = (text "role", text "operator") ∷ (text "is_active", text "on") ∷ []

sample_db-IsManaged : IsManaged sample_db
unfolding active_admins eq_text
sample_db-IsManaged = record { unique = ground arith; below = ground arith; manned = omega arith }

get_bob : get_user 2 sample_db.users ≡ some bob
unfolding get_user
get_bob = refl

-- Bob's row after that, and after his next sign-in.
abbrev bob_after : User
bob_after = record bob {
  role = text "operator";
  role_locked = true;
  email = text "bob@example.org";
  display_name = text "Bob";
  last_groups = text "staff";
}

update_saved : (update_user hash [] 2 picked alice sample_db).0 ≡ saved
unfolding update_user update_found changed_row commit_update get_user field eq_text contains strip
    other_admins
update_saved = refl

admitted_after :
    (resolve_identity [] bobs_claim by_cn (update_user hash [] 2 picked alice sample_db).1).0
    ≡ admitted bob_after
unfolding update_user update_found changed_row commit_update get_user set_user field eq_text
    contains strip lower other_admins record_audit resolve_identity resolve normalise_username
    is_username find_row subject_row admit_existing commit refreshed is_taken dedup group_summary
    join
admitted_after = refl

picked_role_survives_example : bob_after.role ≡ asked_role picked bob
unfolding field eq_text strip
picked_role_survives_example =
    picked_role_survives hash [] 2 picked alice bob sample_db bobs_claim by_cn bob_after
      sample_db-IsManaged get_bob refl refl (λ e. ground (arith, e)) update_saved admitted_after
      refl
