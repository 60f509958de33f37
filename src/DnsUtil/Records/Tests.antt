-- ===== src/DnsUtil/Records/Tests.antt =====
-- A CNAME beside another record.
use powerdns.Prelude.{◌≡◌, ◌↔◌, Bool, true, refl, Option, some, List, [], ◌∷◌}
use powerdns.Text.{Text, text, eq_text, strip, upper, lower, contains, rstrip_dots, ends_with}
use powerdns.Names.{canonical}
use powerdns.DnsUtil.Records.{
  ParsedName, cname_with_others, validate_rrset, validate_name, validate_content, content_reports,
}
use powerdns.DnsUtil.Records.Valid.{IsValid, validate_rrset-nil_iff}

abbrev from_text : Text → Option ParsedName
from_text name = some (16, 3 ∷ 7 ∷ 3 ∷ 0 ∷ [])

abbrev known : Text → Bool
known rtype = true

abbrev parses : Text → Text → Bool
parses rtype content = true

abbrev target : List Text
target = text "example.net." ∷ []

beside_address :
    validate_rrset from_text known parses
      (text "www.example.org")
      (text "cname")
      target
      (text "example.org")
      (text "A" ∷ [])
    ≡ cname_with_others ∷ []
unfolding validate_rrset validate_name validate_content content_reports canonical strip upper lower
    rstrip_dots eq_text contains ends_with
beside_address = refl

validate_rrset-nil_iff_example :
    (validate_rrset from_text known parses
        (text "www.example.org")
        (text "cname")
        target
        (text "example.org")
        []
      ≡ [])
    ↔ IsValid from_text known parses
        (text "www.example.org")
        (text "cname")
        target
        (text "example.org")
        []
validate_rrset-nil_iff_example =
    validate_rrset-nil_iff from_text known parses (text "www.example.org") (text "cname") target
      (text "example.org") []
