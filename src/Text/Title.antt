-- ===== src/Text/Title.antt =====
-- str.title, of ASCII texts.
use powerdns.Prelude.{ℕ, leb, Bool, false, ◌&&◌, ◌||◌, [], ◌∷◌, if◌then◌else◌}
use powerdns.Text.{Text, lower_char, upper_char}

abbrev is_letter : ℕ → Bool
is_letter c = leb b'a' c && leb c b'z' || leb b'A' c && leb c b'Z'

-- str.title of an ASCII text; `inside` says that a letter stands before.
unfoldable pub title_from : Bool → Text → Text
unfolding lower_char upper_char
title_from inside [] = []
title_from inside (c ∷ s) =
    (if inside then lower_char c else upper_char c) ∷ title_from (is_letter c) s

unfoldable pub title : Text → Text
unfolding title_from
title t = title_from false t
