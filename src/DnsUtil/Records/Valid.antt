-- ===== src/DnsUtil/Records/Valid.antt =====
-- Which record sets have no problem: validate_rrset of webui/app/dnsutil.py.
use powerdns.Prelude.{
  ltb, ◌≤◌, ◌≡◌, ◌≢◌, ◌⊎◌, ◌↔◌, inl, inr, Bool, true, false, not, ◌&&◌, Option, none, some, List,
  [], ◌∷◌, ◌++◌, any, is_empty, length, All, Any, arith, Bool-cases,
}
use powerdns.Text.{Text, eq_text, strip, upper, contains, ends_with}
use powerdns.Text.Laws.{eq_text_iff, contains_iff}
use powerdns.Names.{dot, canonical}
use powerdns.DnsUtil.Records.{
  NameProblem, ContentProblem, RecordProblem, ParsedName, report, validate_name, validate_content,
  cname, beside_cname, soa, name_report, content_report, content_reports, differ, at_apex,
  soa_reports, cname_reports, validate_rrset,
}

append-nil_iff : (xs ys : List RecordProblem) → (xs ++ ys ≡ []) ↔ ((xs ≡ []) × (ys ≡ []))
append-nil_iff [] ys = ground arith
append-nil_iff (x ∷ xs) ys = ground arith

report-nil_iff : (b : Bool) (p : RecordProblem) → (report b p ≡ []) ↔ (b ≡ false)
report-nil_iff true p = ground arith
report-nil_iff false p = ground arith

name_report-nil_iff : (o : Option NameProblem) → (name_report o ≡ []) ↔ (o ≡ none)
name_report-nil_iff none = ground arith
name_report-nil_iff (some p) = ground arith

content_report-nil_iff : (o : Option ContentProblem) → (content_report o ≡ []) ↔ (o ≡ none)
content_report-nil_iff none = ground arith
content_report-nil_iff (some p) = ground arith

module _ (from_text : Text → Option ParsedName) (known_type : Text → Bool)
    (parses : Text → Text → Bool) where
  content_reports-nil_iff :
      (rtype : Text) (cs : List Text)
      → (content_reports from_text known_type parses rtype cs ≡ [])
        ↔ All (λ c. validate_content known_type parses rtype c ≡ none) cs
  unfolding content_reports
  content_reports-nil_iff rtype [] = ground arith
  content_reports-nil_iff rtype (c ∷ cs) = ground (
    arith,
    append-nil_iff (content_report (validate_content known_type parses rtype c))
        (content_reports from_text known_type parses rtype cs),
    content_report-nil_iff (validate_content known_type parses rtype c),
    content_reports-nil_iff rtype cs,
  )

-- One of the names is missing, or they are the same.
abbrev pub Agree : Text → Text → Type 0
Agree name_c zone_c = (name_c ≡ []) ⊎ (zone_c ≡ []) ⊎ (name_c ≡ zone_c)

abbrev pub IsValid :
    (Text → Option ParsedName)
    → (Text → Bool)
    → (Text → Text → Bool)
    → Text
    → Text
    → List Text
    → Text
    → List Text
    → Type 0
IsValid from_text known_type parses name raw_type contents zone existing_types =
    let rtype = strip (upper raw_type) in
    let name_c = canonical name in
    let zone_c = canonical zone in
    (validate_name from_text name ≡ none)
    × (contents ≢ [])
    × All (λ c. validate_content known_type parses rtype c ≡ none) contents
    × (Agree name_c zone_c ⊎ (ends_with (dot ++ zone_c) name_c ≡ true))
    × (rtype ≡ soa → (length contents ≤ 1) × Agree name_c zone_c)
    × (rtype ≡ cname
        → (length contents ≤ 1)
          × ((name_c ≡ []) ⊎ (zone_c ≡ []) ⊎ (name_c ≢ zone_c))
          × All (λ t. Any (λ b. b ≡ t) beside_cname) existing_types)
    × (rtype ≢ cname → Any (λ t. t ≡ cname) existing_types → rtype ≡ soa)

empty_iff : (t : Text) → (is_empty t ≡ true) ↔ (t ≡ [])
empty_iff [] = ground arith
empty_iff (c ∷ t) = ground arith

no_content_iff : (ts : List Text) → (is_empty ts ≡ false) ↔ (ts ≢ [])
no_content_iff [] = ground arith
no_content_iff (t ∷ ts) = ground arith

differ_iff : (n z : Text) → (differ n z ≡ false) ↔ Agree n z
differ_iff n z = ground (arith, empty_iff n, empty_iff z, eq_text_iff n z)

beside_iff :
    (ts : List Text)
    → (any (λ t. not (contains t beside_cname)) ts ≡ false)
      ↔ All (λ t. Any (λ b. b ≡ t) beside_cname) ts
beside_iff [] = ground arith
beside_iff (t ∷ ts) = ground (arith, contains_iff t beside_cname, beside_iff ts)

soa_iff :
    (rtype n z : Text) (contents : List Text)
    → (soa_reports rtype contents n z ≡ []) ↔ (rtype ≡ soa → (length contents ≤ 1) × Agree n z)
soa_iff rtype n z contents = elim (Bool-cases (eq_text rtype soa)) [
  | inl e ↦ rw e (
      ground (
        arith,
        (eq_text_iff rtype soa).0 e,
        append-nil_iff (report (ltb 1 (length contents)) RecordProblem.two_soas)
            (report (differ n z) RecordProblem.soa_below_apex),
        report-nil_iff (ltb 1 (length contents)) RecordProblem.two_soas,
        report-nil_iff (differ n z) RecordProblem.soa_below_apex,
        differ_iff n z,
      ))
  | inr e ↦ rw e (ground (arith, eq_text_iff rtype soa))
]

at_apex_iff : (n z : Text) → (at_apex n z ≡ false) ↔ ((n ≡ []) ⊎ (z ≡ []) ⊎ (n ≢ z))
at_apex_iff n z = ground (arith, empty_iff n, empty_iff z, eq_text_iff n z)

one_cname_iff :
    (n z : Text) (contents existing_types : List Text)
    → ((report (ltb 1 (length contents)) RecordProblem.two_cnames
          ++ report (at_apex n z) RecordProblem.cname_at_apex
          ++ report
              (any (λ t. not (contains t beside_cname)) existing_types)
              RecordProblem.cname_with_others)
        ≡ [])
      ↔ ((length contents ≤ 1)
          × ((n ≡ []) ⊎ (z ≡ []) ⊎ (n ≢ z))
          × All (λ t. Any (λ b. b ≡ t) beside_cname) existing_types)
one_cname_iff n z contents existing_types = ground (
  arith,
  append-nil_iff
      (report (ltb 1 (length contents)) RecordProblem.two_cnames
        ++ report (at_apex n z) RecordProblem.cname_at_apex)
      (report (any (λ t. not (contains t beside_cname)) existing_types)
        RecordProblem.cname_with_others),
  append-nil_iff (report (ltb 1 (length contents)) RecordProblem.two_cnames)
      (report (at_apex n z) RecordProblem.cname_at_apex),
  report-nil_iff (ltb 1 (length contents)) RecordProblem.two_cnames,
  report-nil_iff (at_apex n z) RecordProblem.cname_at_apex,
  report-nil_iff (any (λ t. not (contains t beside_cname)) existing_types)
      RecordProblem.cname_with_others,
  at_apex_iff n z,
  beside_iff existing_types,
)

cname_iff :
    (rtype n z : Text) (contents existing_types : List Text)
    → (cname_reports rtype contents n z existing_types ≡ []) ↔ (
        (rtype ≡ cname
          → (length contents ≤ 1)
            × ((n ≡ []) ⊎ (z ≡ []) ⊎ (n ≢ z))
            × All (λ t. Any (λ b. b ≡ t) beside_cname) existing_types)
        × (rtype ≢ cname → Any (λ t. t ≡ cname) existing_types → rtype ≡ soa))
cname_iff rtype n z contents existing_types = elim (Bool-cases (eq_text rtype cname)) [
  | inl e ↦
      rw e
        (ground (arith, (eq_text_iff rtype cname).0 e, one_cname_iff n z contents existing_types))
  | inr e ↦ rw e (
      ground (
        arith,
        eq_text_iff rtype cname,
        report-nil_iff (contains cname existing_types && not (contains rtype (cname ∷ soa ∷ [])))
            RecordProblem.cname_there,
        contains_iff cname existing_types,
        contains_iff rtype (cname ∷ soa ∷ []),
      ))
]

six_nil :
    (a b c d e f : List RecordProblem)
    → (a ++ b ++ c ++ d ++ e ++ f ≡ [])
      ↔ ((a ≡ []) × (b ≡ []) × (c ≡ []) × (d ≡ []) × (e ≡ []) × (f ≡ []))
six_nil a b c d e f = ground (
  arith,
  append-nil_iff (a ++ b ++ c ++ d ++ e) f,
  append-nil_iff (a ++ b ++ c ++ d) e,
  append-nil_iff (a ++ b ++ c) d,
  append-nil_iff (a ++ b) c,
  append-nil_iff a b,
)

in_zone_iff :
    (n z : Text)
    → (report (differ n z && not (ends_with (dot ++ z) n)) RecordProblem.outside_zone ≡ [])
      ↔ (Agree n z ⊎ (ends_with (dot ++ z) n ≡ true))
in_zone_iff n z = ground (
  arith,
  report-nil_iff (differ n z && not (ends_with (dot ++ z) n)) RecordProblem.outside_zone,
  differ_iff n z,
)

content_iff :
    (contents : List Text)
    → (report (is_empty contents) RecordProblem.no_content ≡ []) ↔ (contents ≢ [])
content_iff [] = ground arith
content_iff (c ∷ cs) = ground arith

-- A record set has no problem exactly if its name is usable and in the zone; it has a content, and
-- each content is one of its type; an SOA or a CNAME has one content; an SOA stands at the apex of
-- the zone, and a CNAME below it with no other type but those of DNSSEC; and nothing else but an SOA
-- joins a CNAME. Where the zone is blank, it is not compared with the name.
pub validate_rrset-nil_iff :
    (from_text : Text → Option ParsedName) (known_type : Text → Bool) (parses : Text → Text → Bool)
    (name raw_type : Text) (contents : List Text) (zone : Text) (existing_types : List Text)
    → (validate_rrset from_text known_type parses name raw_type contents zone existing_types ≡ [])
      ↔ IsValid from_text known_type parses name raw_type contents zone existing_types
unfolding validate_rrset
validate_rrset-nil_iff from_text known_type parses name raw_type contents zone existing_types =
    let rtype = strip (upper raw_type) in
    let n = canonical name in
    let z = canonical zone in
    let all_six =
      six_nil (name_report (validate_name from_text name))
        (report (is_empty contents) RecordProblem.no_content)
        (content_reports from_text known_type parses rtype contents)
        (report (differ n z && not (ends_with (dot ++ z) n)) RecordProblem.outside_zone)
        (soa_reports rtype contents n z) (cname_reports rtype contents n z existing_types) in
    let named = name_report-nil_iff (validate_name from_text name) in
    let filled = content_iff contents in
    let read = content_reports-nil_iff from_text known_type parses rtype contents in
    let inside = in_zone_iff n z in
    let at_top = soa_iff rtype n z contents in
    let alone = cname_iff rtype n z contents existing_types in
    (
      (λ h.
          let (ha, hb, hc, hd, he, hf) = all_six.0 h in
          let (ours, theirs) = alone.0 hf in
          (named.0 ha, filled.0 hb, read.0 hc, inside.0 hd, at_top.0 he, ours, theirs)),
      (λ v.
          let (ha, hb, hc, hd, he, ours, theirs) = v in
          all_six.1
            (named.1 ha, filled.1 hb, read.1 hc, inside.1 hd, at_top.1 he, alone.1 (ours, theirs))),
    )
