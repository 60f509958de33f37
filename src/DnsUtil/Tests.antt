-- ===== src/DnsUtil/Tests.antt =====
-- Addresses and TTLs.
use powerdns.Prelude.{ℕ, true, false, ◌⊎◌, ◌↔◌, ◌≢◌, ◌≤◌, ◌≡◌, refl, none, some, arith}
use powerdns.Text.{Text, text, lower, strip, is_space}
use powerdns.Text.Numbers.{parse_int}
use powerdns.DnsUtil.Ttl.{validate_ttl_iff}
use powerdns.DnsUtil.{max_ttl, email_to_rname, rname_to_email, validate_ttl, negative}
use powerdns.DnsUtil.Email.{email_round_trip}

abbrev address : Text
address = text "first.last@example.org"

email_round_trip_example : rname_to_email (email_to_rname address) ≡ address
unfolding lower is_space
email_round_trip_example =
    email_round_trip (text "first.last") (text "example.or") b'g' (ground arith) (ground arith) refl
      refl refl refl refl

ttl_fine : validate_ttl (text " 3_600 ") ≡ (3600, none)
unfolding validate_ttl parse_int strip
ttl_fine = refl

ttl_negative : validate_ttl (text "-1") ≡ (0, some negative)
unfolding validate_ttl parse_int strip
ttl_negative = refl

abbrev minute : ℕ
minute = 60

validate_ttl_iff_example :
    ((validate_ttl (text "60") ≡ (minute, none)) ↔ (
      (minute ≤ max_ttl)
      × ((parse_int (strip (text "60")) ≡ some (false, minute))
          ⊎ ((parse_int (strip (text "60")) ≡ some (true, minute)) × (minute ≡ 0)))))
    × ((validate_ttl (text "60")).1 ≢ none → (validate_ttl (text "60")).0 ≡ 0)
validate_ttl_iff_example = validate_ttl_iff (text "60") minute
