-- ===== src/DnsUtil/Records.antt =====
-- Whether a record set may be saved: validate_name, validate_content and validate_rrset of
-- webui/app/dnsutil.py. dnspython's judgement of a name, of a type and of a content is a parameter;
-- str.isdigit is taken of ASCII digits.
pub mod Valid
mod Tests
use powerdns.Prelude.{
  ℕ, ltb, Bool, true, false, not, ◌&&◌, ◌||◌, Option, none, some, List, [], ◌∷◌, ◌++◌, ◌==◌, any,
  all, keep, is_empty, length, if◌then◌else◌,
}
use powerdns.Text.{Text, text, eq_text, strip, upper, words, contains, ends_with}
use powerdns.Text.Numbers.{is_digit}
use powerdns.Names.{dot, canonical, is_within}

pub data NameProblem : Type 0 where
  empty_name bad_name name_too_long label_too_long : NameProblem

pub data ContentProblem : Type 0 where
  empty_content no_type unknown_type bad_content : ContentProblem
  not_qualified : Text → ContentProblem

pub data RecordProblem : Type 0 where
  name_problem : NameProblem → RecordProblem
  content_problem : ContentProblem → RecordProblem
  no_content outside_zone two_soas soa_below_apex two_cnames cname_at_apex : RecordProblem
  cname_with_others cname_there : RecordProblem

-- What dns.name.from_text gives: the length of the name as a text, and those of its labels.
abbrev pub ParsedName : Type 0
ParsedName = ℕ × List ℕ

abbrev pub hostname_types : List Text
hostname_types =
    text "CNAME"
    ∷ text "NS"
    ∷ text "PTR"
    ∷ text "MX"
    ∷ text "SRV"
    ∷ text "ALIAS"
    ∷ text "DNAME"
    ∷ []

abbrev pub last_or : Text → List Text → Text
last_or d [] = d
last_or d (w ∷ ws) = last_or w ws

-- content.split()[-1] if " " in content else content
abbrev pub target_of : Text → Text
target_of content =
    if any (λ c. c == b' ') content then last_or content (words content) else content

abbrev pub is_number : Text → Bool
is_number t = not (is_empty t) && all is_digit t

abbrev pub report : Bool → RecordProblem → List RecordProblem
report b p = if b then p ∷ [] else []

module _ (from_text : Text → Option ParsedName) where
  abbrev pub name_error : Option ParsedName → Option NameProblem
  name_error none = some bad_name
  name_error (some (len, labels)) =
      if ltb 255 len
      then some name_too_long
      else if any (λ l. ltb 63 l) labels
      then some label_too_long
      else none

  unfoldable pub validate_name : Text → Option NameProblem
  validate_name name =
      if is_empty (strip name) then some empty_name else name_error (from_text (canonical name))

module _ (known_type : Text → Bool) (parses : Text → Text → Bool) where
  abbrev pub qualified : Text → Text → Option ContentProblem
  qualified rtype content =
      if contains rtype hostname_types && not (ends_with dot content)
      then (let target = target_of content in
          if not (ends_with dot target) && not (is_number target)
          then some (not_qualified target)
          else none)
      else none

  unfoldable pub validate_content : Text → Text → Option ContentProblem
  validate_content raw_type raw_content =
      let rtype = strip (upper raw_type) in
      let content = strip raw_content in
      if is_empty content
      then some empty_content
      else if is_empty rtype
      then some no_type
      else if not (known_type rtype)
      then some unknown_type
      else if not (parses rtype content)
      then some bad_content
      else qualified rtype content

abbrev pub cname : Text
cname = text "CNAME"

abbrev pub beside_cname : List Text
beside_cname = cname ∷ text "RRSIG" ∷ text "NSEC" ∷ text "NSEC3" ∷ []

abbrev pub soa : Text
soa = text "SOA"

abbrev pub name_report : Option NameProblem → List RecordProblem
name_report none = []
name_report (some p) = name_problem p ∷ []

abbrev pub content_report : Option ContentProblem → List RecordProblem
content_report none = []
content_report (some p) = content_problem p ∷ []

-- Both names are there, and they differ.
abbrev pub differ : Text → Text → Bool
differ name_c zone_c = not (is_empty name_c) && not (is_empty zone_c) && not (eq_text name_c zone_c)

abbrev pub at_apex : Text → Text → Bool
at_apex name_c zone_c = not (is_empty name_c) && not (is_empty zone_c) && eq_text name_c zone_c

abbrev pub soa_reports : Text → List Text → Text → Text → List RecordProblem
soa_reports rtype contents name_c zone_c =
    if eq_text rtype soa
    then report (ltb 1 (length contents)) two_soas ++ report (differ name_c zone_c) soa_below_apex
    else []

abbrev pub cname_reports : Text → List Text → Text → Text → List Text → List RecordProblem
cname_reports rtype contents name_c zone_c existing_types =
    if eq_text rtype cname
    then report (ltb 1 (length contents)) two_cnames
      ++ report (at_apex name_c zone_c) cname_at_apex
      ++ report (any (λ t. not (contains t beside_cname)) existing_types) cname_with_others
    else report (contains cname existing_types && not (contains rtype (cname ∷ soa ∷ [])))
        cname_there

module _ (from_text : Text → Option ParsedName) (known_type : Text → Bool)
    (parses : Text → Text → Bool) where
  unfoldable pub content_reports : Text → List Text → List RecordProblem
  content_reports rtype [] = []
  content_reports rtype (c ∷ cs) =
      content_report (validate_content known_type parses rtype c) ++ content_reports rtype cs

  unfoldable pub validate_rrset : Text → Text → List Text → Text → List Text → List RecordProblem
  validate_rrset name raw_type contents zone existing_types =
      let rtype = strip (upper raw_type) in
      let name_c = canonical name in
      let zone_c = canonical zone in
      name_report (validate_name from_text name)
      ++ report (is_empty contents) no_content
      ++ content_reports rtype contents
      ++ report (differ name_c zone_c && not (ends_with (dot ++ zone_c) name_c)) outside_zone
      ++ soa_reports rtype contents name_c zone_c
      ++ cname_reports rtype contents name_c zone_c existing_types
