-- ===== src/Providers/Forms.antt =====
-- The pages that write stored providers: create, edit, toggle and delete of
-- webui/app/views/authproviders.py. These pages note their changes without the user's name.
use powerdns.Prelude.{
  ℕ, suc, ◌==◌, leb, Bool, true, false, not, ◌&&◌, ◌||◌, Option, none, some, List, [], ◌∷◌, ◌++◌,
  any, keep, map, is_empty, if◌then◌else◌,
}
use powerdns.Text.{Text, text, eq_text, lower, strip, lstrip, rstrip, join, contains}
use powerdns.Dict.{Dict, insert, erase, lookup}
use powerdns.Form.{Form, field, is_on}
use powerdns.Roles.{roles}
use powerdns.Ldap.{split_uris}
use powerdns.Store.{User, Db, record_audit}
use powerdns.Session.{Gate, signed_out, forbidden, enter, admin_required}
use powerdns.Zones.Create.{truth}
use powerdns.Providers.{
  AuthProviderConfig, auth_ldap, auth_oauth, auth_saml, Unusable, bad_timeout, Built, fine,
  unusable, Fernet, encrypt,
}
use powerdns.Providers.Effective.{Backend, build, get_provider}

-- The panel's database with the table auth_providers, in the order of the keys.
pub record Stored : Type 0 where
  pub db : Db
  pub providers : List AuthProviderConfig
  pub next_id : ℕ

-- `crashed` is an exception that nothing catches.
pub data Outcome : Type 0 where
  sign_in_first refused no_such_page no_name bad_default_role name_taken crashed : Outcome
  cannot_work : Unusable → Outcome
  saved toggled deleted : Outcome

pub data Request : Type 0 where
  create : Text → Form → Request
  edit : ℕ → Form → Request
  toggle delete : ℕ → Request

-- SECRET_FIELDS
abbrev pub secret_fields : Text → List Text
secret_fields kind =
    if eq_text kind auth_ldap
    then text "bind_password" ∷ []
    else if eq_text kind auth_oauth
    then text "client_secret" ∷ []
    else text "idp_x509_cert" ∷ text "sp_x509_cert" ∷ text "sp_private_key" ∷ []

-- SETTING_FIELDS
abbrev pub setting_fields : Text → List Text
setting_fields kind =
    if eq_text kind auth_ldap
    then text "uri"
      ∷ text "base_dn"
      ∷ text "bind_dn"
      ∷ text "user_filter"
      ∷ text "username_attribute"
      ∷ text "email_attribute"
      ∷ text "display_name_attribute"
      ∷ text "group_attribute"
      ∷ text "group_search_base"
      ∷ text "group_filter"
      ∷ text "ca_cert_file"
      ∷ []
    else if eq_text kind auth_oauth
    then text "discovery_url"
      ∷ text "authorize_url"
      ∷ text "token_url"
      ∷ text "userinfo_url"
      ∷ text "jwks_url"
      ∷ text "client_id"
      ∷ text "scopes"
      ∷ text "username_claim"
      ∷ text "email_claim"
      ∷ text "name_claim"
      ∷ text "groups_claim"
      ∷ text "icon"
      ∷ []
    else text "idp_metadata_url"
      ∷ text "idp_entity_id"
      ∷ text "idp_sso_url"
      ∷ text "idp_slo_url"
      ∷ text "sp_entity_id"
      ∷ text "name_id_format"
      ∷ text "attr_username"
      ∷ text "attr_email"
      ∷ text "attr_name"
      ∷ text "attr_groups"
      ∷ []

-- BOOLEAN_FIELDS
abbrev pub boolean_fields : Text → List Text
boolean_fields kind =
    if eq_text kind auth_ldap
    then text "start_tls" ∷ text "tls_verify" ∷ []
    else if eq_text kind auth_oauth
    then []
    else text "want_assertions_signed"
      ∷ text "want_messages_signed"
      ∷ text "want_name_id_encrypted"
      ∷ text "strict"
      ∷ []

-- ROLE_FIELDS
abbrev pub role_fields : List Text
role_fields =
    text "admin_group" ∷ text "operator_group" ∷ text "user_group" ∷ text "default_role" ∷ []

-- KINDS
abbrev pub kinds : List Text
kinds = auth_ldap ∷ auth_oauth ∷ auth_saml ∷ []

abbrev pub is_dash : ℕ → Bool
is_dash c = c == b'-'

-- A letter or a digit of ASCII, or one of "-_".
abbrev pub is_slug_char : ℕ → Bool
is_slug_char c = (leb b'a' c && leb c b'z') || (leb b'0' c && leb c b'9') || is_dash c || c == b'_'

abbrev pub is_end : ℕ → Bool
is_end c = is_dash c || c == b'_'

-- What the loop that replaces "--" by "-" ends with; `after` is whether a dash came before.
unfoldable pub squeeze : Bool → Text → Text
squeeze after [] = []
squeeze after (c ∷ s) =
    if is_dash c
    then (if after then squeeze true s else c ∷ squeeze true s)
    else c ∷ squeeze false s

-- _slug
unfoldable pub slug : Text → Text
unfolding strip lower squeeze lstrip rstrip
slug value = rstrip is_end (
    lstrip is_end
      (squeeze false (map (λ c. if is_slug_char c then c else b'-') (lower (strip value)))))

-- settings[field] = (request.form.get(field) or "").strip(), for each field
unfoldable pub put_settings : Form → List Text → Dict Text → Dict Text
unfolding field strip insert
put_settings form [] settings = settings
put_settings form (key ∷ keys) settings =
    put_settings form keys (insert key (strip (field form key)) settings)

unfoldable pub put_flags : Form → List Text → Dict Bool → Dict Bool
unfolding field insert
put_flags form [] flags = flags
put_flags form (key ∷ keys) flags = put_flags form keys (insert key (is_on form key) flags)

abbrev or_blank : Option Text → Text
or_blank none = []
or_blank (some t) = t

-- The servers are stored one on a line.
unfoldable pub put_uris : Text → Dict Text → Dict Text
unfolding lookup split_uris join insert
put_uris kind settings =
    if eq_text kind auth_ldap
    then insert (text "uri") (join (10 ∷ []) (split_uris (or_blank (lookup (text "uri") settings))))
        settings
    else settings

-- The settings of the form, and its role fields.
unfoldable pub form_settings : Form → AuthProviderConfig → Dict Text
unfolding put_settings put_uris
form_settings form row =
    put_settings form role_fields
      (put_uris row.kind (put_settings form (setting_fields row.kind) row.settings))

abbrev pub default_role_of : Dict Text → Text
default_role_of settings = or_blank (lookup (text "default_role") settings)

-- The table with a row that was loaded and changed.
unfoldable pub update_provider :
    AuthProviderConfig → List AuthProviderConfig → List AuthProviderConfig
update_provider row rows = map (λ (r : AuthProviderConfig). if r.id == row.id then row else r) rows

-- The unique constraint on the name.
unfoldable pub is_name_taken : AuthProviderConfig → List AuthProviderConfig → Bool
unfolding eq_text
is_name_taken row rows =
    any (λ (r : AuthProviderConfig). not (r.id == row.id) && eq_text r.name row.name) rows

abbrev pub new_row : Text → ℕ → AuthProviderConfig
new_row kind id = record {
  id = id;
  kind = kind;
  name = [];
  display_name = [];
  enabled = true;
  settings = [];
  flags = [];
  secrets = [];
}

abbrev pub toggled_row : AuthProviderConfig → AuthProviderConfig
toggled_row row = record row { enabled = not row.enabled }

module _ (fernet : Fernet) (addr : Text) where
  abbrev pub note : Text → AuthProviderConfig → Text → Stored → Stored
  note action row detail s = record s {
    db = record_audit addr action (row.kind ++ text ":" ++ row.name) detail none true s.db;
  }

  -- An empty secret is left as it was, unless it is to be cleared.
  unfoldable pub put_secrets : Form → List Text → Dict Text → Dict Text
  unfolding field encrypt insert erase
  put_secrets form [] secrets = secrets
  put_secrets form (key ∷ keys) secrets =
      let submitted = field form key in
      put_secrets form keys (
        if not (is_empty submitted)
        then insert key (encrypt fernet submitted) secrets
        else if is_on form (text "clear_" ++ key)
        then erase key secrets
        else secrets)

  -- The row with the values of the form.
  unfoldable pub filled : Form → Text → AuthProviderConfig → AuthProviderConfig
  unfolding field strip form_settings put_flags put_secrets
  filled form name row = record row {
    name = name;
    display_name = strip (field form (text "display_name"));
    enabled = is_on form (text "enabled");
    settings = form_settings form row;
    flags = put_flags form (boolean_fields row.kind) row.flags;
    secrets = put_secrets form (secret_fields row.kind) row.secrets;
  }

  abbrev pub detail_of : AuthProviderConfig → Text
  detail_of row = text "enabled=" ++ truth row.enabled

  abbrev pub put : Bool → AuthProviderConfig → Stored → Stored
  put true row s =
      note (text "auth_provider.create") row (detail_of row)
        (record s { providers = s.providers ++ row ∷ []; next_id = suc s.next_id })
  put false row s =
      note (text "auth_provider.update") row (detail_of row)
        (record s { providers = update_provider row s.providers })

  abbrev pub commit : Bool → AuthProviderConfig → Stored → Outcome × Stored
  commit creating row s =
      if is_name_taken row s.providers then (name_taken, s) else (saved, put creating row s)

  -- What cannot be built is not stored; a ValueError of another kind is not caught.
  abbrev pub if_built : Bool → AuthProviderConfig → Built Backend → Stored → Outcome × Stored
  if_built creating row (unusable bad_timeout) s = (crashed, s)
  if_built creating row (unusable p) s = (cannot_work p, s)
  if_built creating row (fine b) s = commit creating row s

  -- _save
  unfoldable pub save : Bool → AuthProviderConfig → Form → Stored → Outcome × Stored
  unfolding slug field filled build contains
  save creating row form s =
      let name = slug (field form (text "name")) in
      let row' = filled form name row in
      if is_empty name
      then (no_name, s)
      else if not (contains (default_role_of row'.settings) (roles ++ text "none" ∷ [] ∷ []))
      then (bad_default_role, s)
      else if_built creating row' (build fernet row') s

  abbrev pub edited : Form → Option AuthProviderConfig → Stored → Outcome × Stored
  edited form none s = (no_such_page, s)
  edited form (some row) s = save false row form s

  abbrev pub switched : Option AuthProviderConfig → Stored → Outcome × Stored
  switched none s = (no_such_page, s)
  switched (some row) s =
      let action =
        if row.enabled then text "auth_provider.disable" else text "auth_provider.enable" in
      (
        toggled,
        note action row [] (record s { providers = update_provider (toggled_row row) s.providers }),
      )

  abbrev pub removed : Option AuthProviderConfig → Stored → Outcome × Stored
  removed none s = (no_such_page, s)
  removed (some row) s = (
    deleted,
    note (text "auth_provider.delete") row [] (record s {
      providers = keep (λ (r : AuthProviderConfig). not (r.id == row.id)) s.providers;
    }),
  )

  unfoldable pub run : Request → Stored → Outcome × Stored
  unfolding contains get_provider save
  run (create kind form) s =
      if contains kind kinds then save true (new_row kind s.next_id) form s else (no_such_page, s)
  run (edit id form) s = edited form (get_provider id s.providers) s
  run (toggle id) s = switched (get_provider id s.providers) s
  run (delete id) s = removed (get_provider id s.providers) s

  abbrev pub behind : Gate → Request → Stored → Outcome × Stored
  behind signed_out q s = (sign_in_first, s)
  behind forbidden q s = (refused, s)
  behind (enter user) q s = run q s

  unfoldable pub handle : Request → Option User → Stored → Outcome × Stored
  unfolding run
  handle q user s = behind (admin_required user) q s

  -- Requests one after another, by whichever users.
  unfoldable pub serve : List (Request × Option User) → Stored → Stored
  unfolding handle
  serve [] s = s
  serve ((q, user) ∷ qs) s = serve qs (handle q user s).1
