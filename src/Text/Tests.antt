-- ===== src/Text/Tests.antt =====
-- Text methods on concrete texts.
use powerdns.Prelude.{◌≡◌, refl, [], ◌∷◌}
use powerdns.Text.{text, strip, words, comma_lines}

strip_both : strip (text " a b ") ≡ text "a b"
unfolding strip
strip_both = refl

words_of : words (text "  a  bc ") ≡ text "a" ∷ text "bc" ∷ []
unfolding words
words_of = refl

comma_lines_of : comma_lines (text " a,b ,, c") ≡ text "a" ∷ text "b" ∷ text "c" ∷ []
unfolding comma_lines
comma_lines_of = refl
