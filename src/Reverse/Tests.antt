-- ===== src/Reverse/Tests.antt =====
-- The most specific of some zones.
use powerdns.Prelude.{◌≡◌, refl, some, List, [], ◌∷◌}
use powerdns.Text.{Text, text, lower, strip, rstrip_dots, eq_text, ends_with}
use powerdns.Names.{canonical, is_within}
use powerdns.Reverse.{enclosing_zone}
use powerdns.Reverse.Enclosing.{IsMostSpecific, enclosing_zone_lem}

abbrev zones : List Text
zones = text "192.in-addr.arpa" ∷ text "2.0.192.in-addr.arpa." ∷ text "example.org" ∷ []

enclosing_zone_lem_example :
    IsMostSpecific
      (canonical (text "1.2.0.192.in-addr.arpa"))
      zones
      (enclosing_zone (text "1.2.0.192.in-addr.arpa") zones)
enclosing_zone_lem_example = enclosing_zone_lem (text "1.2.0.192.in-addr.arpa") zones

enclosing_longest :
    enclosing_zone (text "1.2.0.192.in-addr.arpa") zones ≡ some (text "2.0.192.in-addr.arpa.")
unfolding enclosing_zone canonical is_within lower strip rstrip_dots eq_text ends_with
enclosing_longest = refl
