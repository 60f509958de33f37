-- ===== src/Names/Tests.antt =====
-- DNS names, normalised.
use powerdns.Prelude.{arith, ◌≡◌, refl}
use powerdns.Text.{is_space, text, strip, lower, rstrip_dots, eq_text}
use powerdns.Names.{canonical, relative_name, absolute_name}
use powerdns.Names.Relative.{relative_round_trip}

canonical_mixed : canonical (text " WWW.Example.org.. ") ≡ text "www.example.org."
unfolding canonical strip lower rstrip_dots eq_text
canonical_mixed = refl

relative_round_trip_example :
    absolute_name
      (relative_name (text "www.example.org.") (text "example.org."))
      (text "example.org.")
    ≡ text "www.example.org."
unfolding lower is_space
relative_round_trip_example =
    relative_round_trip (text "ww") b'w' (text "example.or") b'g' (refl, refl, refl, refl)
      (refl, refl, refl, refl) (λ e. ground (arith, e))
