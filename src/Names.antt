-- ===== src/Names.antt =====
-- DNS names as the panel writes them: canonical, relative_name and absolute_name of
-- webui/app/pdns.py, and enclosing_zone and is_reverse_zone of webui/app/reverse.py.
pub mod Canonical
pub mod Relative
pub mod Absolute
mod Tests
use powerdns.Prelude.{
  ℕ, ◌+◌, ◌-◌, Bool, ◌&&◌, ◌||◌, not, Option, none, some, List, [], ◌∷◌, ◌++◌, is_empty, length,
  take, ltb, if◌then◌else◌,
}
use powerdns.Text.{Text, text, eq_text, strip, rstrip_dots, lower, ends_with, contains, starts_with}

abbrev pub dot : Text
dot = text "."

unfoldable pub canonical : Text → Text
canonical name =
    let n = lower (strip name) in
    if is_empty n then [] else if eq_text n dot then dot else rstrip_dots n ++ dot

-- name == zone or name.endswith("." + zone), on canonical names.
unfoldable pub is_within : Text → Text → Bool
is_within name zone = eq_text name zone || ends_with (dot ++ zone) name

unfoldable pub relative_name : Text → Text → Text
relative_name name zone =
    let name_c = canonical name in
    let zone_c = canonical zone in
    if eq_text name_c zone_c
    then text "@"
    else if ends_with (dot ++ zone_c) name_c
    then take (length name_c - (length zone_c + 1)) name_c
    else rstrip_dots name_c

unfoldable pub absolute_name : Text → Text → Text
absolute_name name zone =
    let n = lower (strip name) in
    let zone_c = canonical zone in
    if is_empty n || eq_text n (text "@")
    then zone_c
    else if ends_with dot n
    then canonical n
    else canonical (n ++ dot ++ rstrip_dots zone_c)
