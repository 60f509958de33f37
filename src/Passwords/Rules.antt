-- ===== src/Passwords/Rules.antt =====
-- When a password is acceptable.
use powerdns.Prelude.{
  ◌≤◌, ◌≡◌, ◌≢◌, ◌↔◌, ◌⊎◌, Bool, false, ◌&&◌, not, Option, none, some, List, [], ◌∷◌, ◌++◌, find,
  is_empty, length, ltb, arith, All,
}
use powerdns.Text.{Text, strip, lower, eq_text, has_part}
use powerdns.Text.Laws.{eq_text_iff}
use powerdns.Passwords.{
  too_short, same_as_username, outer_space, password_problems, password_min_length, weak_parts,
  weak_problem, when,
}

find-none :
    (lowered : Text) (weak : List Text)
    → (weak_problem (find (λ w. has_part w lowered) weak) ≡ [])
      ↔ All (λ w. has_part w lowered ≡ false) weak
find-none lowered [] = ground arith
find-none lowered (w ∷ ws) = ground (arith, find-none lowered ws)

no_problems :
    (a b c : Bool) (o : Option Text)
    → (when a too_short ++ when b same_as_username ++ when c outer_space ++ weak_problem o ≡ [])
      ↔ ((a ≡ false) × (b ≡ false) × (c ≡ false) × (weak_problem o ≡ []))
no_problems a b c none = ground arith
no_problems a b c (some w) = ground arith

username_test :
    (username password : Text)
    → ((not (is_empty username) && eq_text (strip (lower password)) (strip (lower username)))
        ≡ false)
      ↔ ((username ≡ []) ⊎ (strip (lower password) ≢ strip (lower username)))
username_test [] password = ground arith
username_test (c ∷ username) password =
    ground (arith, eq_text_iff (strip (lower password)) (strip (lower (c ∷ username))))

-- A password is acceptable exactly if it has twelve characters or more, is not the username (spaces
-- round it and case aside), has no space at an end, and holds none of the weak parts in any case.
pub password_problems-nil_iff :
    (password username : Text)
    → (password_problems password username ≡ []) ↔ (
        (password_min_length ≤ length password)
        × ((username ≡ []) ⊎ (strip (lower password) ≢ strip (lower username)))
        × (strip password ≡ password)
        × All (λ weak. has_part weak (lower password) ≡ false) weak_parts)
unfolding password_problems
password_problems-nil_iff password username = ground (
  arith,
  no_problems (ltb (length password) password_min_length)
      (not (is_empty username) && eq_text (strip (lower password)) (strip (lower username)))
      (not (eq_text (strip password) password))
      (find (λ weak. has_part weak (lower password)) weak_parts),
  username_test username password,
  eq_text_iff (strip password) password,
  find-none (lower password) weak_parts,
)
