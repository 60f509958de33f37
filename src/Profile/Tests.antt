-- ===== src/Profile/Tests.antt =====
-- Posts to the profile of an account whose hash marks the password.
use powerdns.Prelude.{◌≡◌, refl, some, [], ◌∷◌}
use powerdns.Text.{has_part, lower, Text, text, eq_text}
use powerdns.Store.{User}
use powerdns.Samples.{sample_db, alice, bob}
use powerdns.Profile.{
  Outcome, not_here, wrong_password, password_changed, Request, update, change_password, handle,
}
use powerdns.Profile.Outcomes.{Leaves, handle-Leaves}

abbrev mark : Text → Text
mark t = b'#' ∷ t

abbrev here : Text
here = text "::1"

abbrev changing : Text → Request
changing current = change_password (
    (text "current_password", current)
    ∷ (text "new_password", text "battery staple")
    ∷ (text "confirm_password", text "battery staple")
    ∷ [])

abbrev outcome : Request → User → Outcome
outcome q user = (handle (λ h t. eq_text h (mark t)) mark here q (some user) sample_db).0

outcomes :
    (outcome (changing (text "correct horse")) alice ≡ password_changed)
    × (outcome (changing (text "wrong horse")) alice ≡ wrong_password)
    × (outcome (update []) bob ≡ not_here)
unfolding handle lower has_part
outcomes = (refl, refl, refl)

handle-Leaves_example :
    Leaves
      (λ h t. eq_text h (mark t))
      mark
      here
      (changing (text "correct horse"))
      (some alice)
      sample_db
      (handle
        (λ h t. eq_text h (mark t))
        mark
        here
        (changing (text "correct horse"))
        (some alice)
        sample_db).1
handle-Leaves_example =
    handle-Leaves (λ h t. eq_text h (mark t)) mark here (changing (text "correct horse"))
      (some alice) sample_db
