-- ===== src/Ldap/Filters.antt =====
-- The texts of search filters: str.format with named fields, and str.replace, as
-- webui/app/auth/ldap_auth.py uses them.
mod Tests
use powerdns.Prelude.{
  ℕ, zero, suc, ◌-◌, ◌==◌, Bool, true, false, ◌&&◌, Option, none, some, List, [], ◌∷◌, ◌++◌, length,
  if◌then◌else◌,
}
use powerdns.Text.{Text, text, starts_with}
use powerdns.Dict.{Dict, lookup}

-- Where a scan of a format string stands: outside a field, after an opening or a closing brace, or in
-- the name of a field.
pub data Place : Type 0 where
  outside opened closed : Place
  inside : Text → Place

abbrev at_field : Option Text → Option (Place × Text)
at_field none = none
at_field (some v) = some (outside, v)

-- One character: the next place and what is put out. `none` is the error of a lone brace, of a field
-- without a name, or of a name that is not given.
abbrev pub scan : Dict Text → Place → ℕ → Option (Place × Text)
scan fields outside c =
    if c == b'{'
    then some (opened, [])
    else if c == b'}'
    then some (closed, [])
    else some (outside, c ∷ [])
scan fields opened c =
    if c == b'{'
    then some (outside, c ∷ [])
    else if c == b'}'
    then none
    else some (inside (c ∷ []), [])
scan fields closed c = if c == b'}' then some (outside, c ∷ []) else none
scan fields (inside name) c =
    if c == b'}' then at_field (lookup name fields) else some (inside (name ++ c ∷ []), [])

abbrev at_end : Place → Option Text
at_end outside = some []
at_end _ = none

abbrev prepend : Text → Option Text → Option Text
prepend out none = none
prepend out (some t) = some (out ++ t)

abbrev then_rest : Option (Place × Text) → (Place → Option Text) → Option Text
then_rest none rest = none
then_rest (some (place, out)) rest = prepend out (rest place)

-- template.format(**fields); conversions and format specifications within a field are taken for a part
-- of its name.
unfoldable pub format_from : Dict Text → Place → Text → Option Text
format_from fields place [] = at_end place
format_from fields place (c ∷ s) =
    then_rest (scan fields place c) (λ next. format_from fields next s)

unfoldable pub format : Dict Text → Text → Option Text
unfolding format_from lookup
format fields template = format_from fields outside template

-- t.replace(old, new), for an `old` that is not empty; `skip` characters belong to a place that has been
-- replaced.
unfoldable pub replace_from : ℕ → Text → Text → Text → Text
unfolding starts_with
replace_from skip old new [] = []
replace_from skip old new (c ∷ s) =
    let hit = skip == 0 && starts_with old (c ∷ s) in
    let rest = replace_from (if hit then length old - 1 else skip - 1) old new s in
    if hit then new ++ rest else if skip == 0 then c ∷ rest else rest

unfoldable pub replace : Text → Text → Text → Text
unfolding replace_from
replace old new t = replace_from 0 old new t
