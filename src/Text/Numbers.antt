-- ===== src/Text/Numbers.antt =====
-- Python's int of a text, in decimal ASCII digits.
use powerdns.Prelude.{
  ℕ, ◌+◌, ◌-◌, ◌*◌, leb, ◌==◌, Bool, true, false, ◌&&◌, Option, none, some, [], ◌∷◌, if◌then◌else◌,
}
use powerdns.Text.{Text, strip}

abbrev pub is_digit : ℕ → Bool
is_digit c = leb b'0' c && leb c b'9'

-- The digits that follow a digit, with single underscores between digits.
unfoldable pub digits_onto : ℕ → Text → Option ℕ
digits_onto n [] = some n
digits_onto n (c ∷ []) = if is_digit c then some (n * 10 + (c - b'0')) else none
digits_onto n (c ∷ d ∷ s) =
    let plain = digits_onto (n * 10 + (c - b'0')) (d ∷ s) in
    let joined = digits_onto (n * 10 + (d - b'0')) s in
    if is_digit c then plain else if c == b'_' && is_digit d then joined else none

unfoldable pub digits : Text → Option ℕ
unfolding digits_onto
digits [] = none
digits (c ∷ s) = if is_digit c then digits_onto (c - b'0') s else none

abbrev signed : Bool → Option ℕ → Option (Bool × ℕ)
signed negative none = none
signed negative (some n) = some (negative, n)

abbrev with_sign : Text → Option (Bool × ℕ)
with_sign [] = none
with_sign (c ∷ s) =
    if c == b'-'
    then signed true (digits s)
    else if c == b'+'
    then signed false (digits s)
    else signed false (digits (c ∷ s))

-- int(s): whether it is led by a minus, and its absolute value.
unfoldable pub parse_int : Text → Option (Bool × ℕ)
unfolding digits strip
parse_int s = with_sign (strip s)
