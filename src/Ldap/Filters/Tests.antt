-- ===== src/Ldap/Filters/Tests.antt =====
-- Filters from their templates.
use powerdns.Prelude.{◌≡◌, refl, none, some, [], ◌∷◌}
use powerdns.Text.{Text, text, eq_text}
use powerdns.Dict.{Dict}
use powerdns.Ldap.Filters.{format, replace}

abbrev fields : Dict Text
fields = (text "username", text "ann") ∷ (text "username_attribute", text "uid") ∷ []

format_lem :
    format fields (text "(&(a=b)({username_attribute}={username}){{x}})")
    ≡ some (text "(&(a=b)(uid=ann){x})")
unfolding format eq_text
format_lem = refl

format_unknown : format fields (text "({cn}=1)") ≡ none
unfolding format eq_text
format_unknown = refl

replace_lem :
    replace (text "{dn}") (text "X{dn}") (text "(m={dn})(u={dn}{d") ≡ text "(m=X{dn})(u=X{dn}{d"
unfolding replace
replace_lem = refl
