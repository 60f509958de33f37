-- ===== src/Ldap/Tests.antt =====
-- Sign-ins against a directory with one person, which logs whom it is asked to bind.
use powerdns.Prelude.{◌≡◌, ◌≢◌, ◌⊎◌, refl, true, false, ◌&&◌, some, List, [], ◌∷◌, if◌then◌else◌}
use powerdns.Text.{lower, strip, Text, text, eq_text}
use powerdns.Provision.{identity_claim, IdentityClaim}
use powerdns.Samples.{by_cn}
use powerdns.Ldap.{LdapConfig, Entry, got, Ldap3}
use powerdns.Ldap.Entries.{entry_groups, groups_from_entry, attribute_value}
use powerdns.Ldap.Bind.{
  claim_of, check_password, user_filter, service_connection, Verdict, vouched, no_match, first,
  authenticate,
}
use powerdns.Ldap.Vouched.{Vouches, authenticate_lem}
use powerdns.Dict.{insert}

abbrev Log : Type 0
Log = List Text

abbrev ann : Entry
ann = record {
  dn = text "uid=ann,dc=example";
  attributes =
      (text "uid", text "ann" ∷ []) ∷ (text "memberof", text "cn=staff,dc=example" ∷ []) ∷ [];
}

-- A connection is its DN and password.
abbrev directory : Ldap3 Log (Text × Text)
directory = record {
  connect = λ servers binder s. (got ([], []), s);
  prepare = λ connection dn password. (dn, password);
  is_ssl = λ connection. false;
  is_bound = λ connection s. true;
  open_connection = λ connection s. (got tt, s);
  start_tls = λ connection s. (got tt, text "tls" ∷ s);
  bind = λ connection s.
      (got (eq_text connection.0 ann.dn && eq_text connection.1 (text "s3cret")), connection.0 ∷ s);
  unbind = λ connection s. s;
  search = λ connection base search_filter attributes s.
      (got (if eq_text search_filter (text "(uid=ann)") then ann ∷ [] else []), s);
  probe = λ connection base s. (got true, s);
}

abbrev config : LdapConfig
config = record {
  enabled = true;
  uri = text "ldap://a.example, ldaps://b.example";
  start_tls = true;
  tls_verify = true;
  ca_cert_file = [];
  bind_dn = [];
  bind_password = [];
  base_dn = text "dc=example";
  user_filter = text "({username_attribute}={username})";
  username_attribute = text "uid";
  email_attribute = text "mail";
  display_name_attribute = text "cn";
  group_attribute = text "memberOf";
  group_search_base = [];
  group_filter = [];
  connect_timeout = (false, 5);
  roles = by_cn;
}

abbrev same : Text → Text
same t = t

abbrev signing_in : Verdict × Log
signing_in = authenticate directory same config (text "ann") (text "s3cret") []

abbrev ann_claim : IdentityClaim
ann_claim = record {
  username = text "ann";
  auth_source = text "ldap";
  provider = text "ldap";
  external_id = some (text "uid=ann,dc=example");
  email = [];
  display_name = [];
  groups = some (text "cn=staff,dc=example") ∷ [];
}

signing_in_lem :
    (signing_in.0 ≡ vouched ann_claim)
    × (signing_in.1 ≡ text "uid=ann,dc=example" ∷ text "tls" ∷ text "tls" ∷ [])
unfolding authenticate service_connection user_filter eq_text check_password claim_of identity_claim
    strip groups_from_entry entry_groups attribute_value insert lower
signing_in_lem = (refl, refl)

wrong_password : (authenticate directory same config (text "ann") (text "secret") []).0 ≡ no_match
unfolding authenticate service_connection user_filter eq_text check_password
wrong_password = refl

-- first() reads the name of an attribute with its case: the value of `MAIL` is not found.
other_case :
    (attribute_value ((text "MAIL", text "a@example" ∷ []) ∷ []) (text "mail")
      ≡ text "a@example" ∷ [])
    × (first
          (record { dn = []; attributes = (text "MAIL", text "a@example" ∷ []) ∷ [] })
          (text "mail")
          []
        ≡ [])
unfolding attribute_value eq_text lower strip
other_case = (refl, refl)

authenticate_lem_example :
    ((config.enabled ≡ false) ⊎ (text "s3cret" ≡ []) → signing_in ≡ (no_match, []))
    × (signing_in.0 ≡ vouched ann_claim
        → (config.enabled ≡ true)
          × (text "s3cret" ≢ [])
          × Vouches directory same config (text "ann") (text "s3cret") ann_claim [])
authenticate_lem_example =
    authenticate_lem directory same config (text "ann") (text "s3cret") ann_claim []
