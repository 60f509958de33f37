-- ===== src/Form.antt =====
-- A posted form: what Flask's request.form holds, and the two ways in which the views read it.
use powerdns.Prelude.{Bool, List, [], ◌∷◌, if◌then◌else◌}
use powerdns.Text.{Text, text, eq_text}

abbrev pub Form : Type 0
Form = List (Text × Text)

-- request.form.get(key) or "": the first value under a key.
unfoldable pub field : Form → Text → Text
unfolding eq_text
field [] key = []
field ((k, v) ∷ form) key = if eq_text k key then v else field form key

-- request.form.getlist(key)
unfoldable pub field_list : Form → Text → List Text
unfolding eq_text
field_list [] key = []
field_list ((k, v) ∷ form) key =
    let rest = field_list form key in if eq_text k key then v ∷ rest else rest

-- request.form.get(key) == "on"
abbrev pub is_on : Form → Text → Bool
is_on form key = eq_text (field form key) (text "on")
