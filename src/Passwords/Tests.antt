-- ===== src/Passwords/Tests.antt =====
-- Passwords, good and bad.
use powerdns.Prelude.{◌≡◌, ◌≢◌, ◌≤◌, ◌⊎◌, ◌↔◌, refl, false, [], ◌∷◌, length, All}
use powerdns.Text.{Text, text, strip, lower, has_part, eq_text}
use powerdns.Passwords.{too_short, weak_part, password_problems, password_min_length, weak_parts}
use powerdns.Passwords.Rules.{password_problems-nil_iff}

bad_password :
    password_problems (text "Qwerty") (text "alice") ≡ too_short ∷ weak_part (text "qwerty") ∷ []
unfolding password_problems strip lower has_part eq_text
bad_password = refl

abbrev good : Text
good = text "correct horse battery"

password_problems-nil_iff_example : (password_problems good (text "alice") ≡ []) ↔ (
    (password_min_length ≤ length good)
    × ((text "alice" ≡ []) ⊎ (strip (lower good) ≢ strip (lower (text "alice"))))
    × (strip good ≡ good)
    × All (λ weak. has_part weak (lower good) ≡ false) weak_parts)
password_problems-nil_iff_example = password_problems-nil_iff good (text "alice")
