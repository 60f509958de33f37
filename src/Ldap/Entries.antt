-- ===== src/Ldap/Entries.antt =====
-- What an entry of the directory says: attribute_value and _groups_from_entry of
-- webui/app/auth/ldap_auth.py.
use powerdns.Prelude.{
  not, Option, none, some, List, [], ◌∷◌, ◌++◌, find, keep, is_empty, if◌then◌else◌,
}
use powerdns.Text.{Text, text, eq_text, lower, strip, or_else}
use powerdns.Dict.{Dict, lookup, insert}
use powerdns.Ldap.{LdapConfig, Entry, Answer, got, ldap_exception, Ldap3}
use powerdns.Ldap.Filters.{replace}

abbrev as_values : Option (List Text) → List Text
as_values none = []
as_values (some values) = keep (λ v. not (is_empty (strip v))) values

abbrev value_of : Option (Text × List Text) → Option (List Text)
value_of none = none
value_of (some (k, values)) = some values

-- entry.get(name), or else the first item whose key is the name but for the case of its letters.
abbrev any_case : Text → Dict (List Text) → Option (List Text) → Option (List Text)
any_case name entry (some values) = some values
any_case name entry none =
    value_of (find (λ (item : Text × List Text). eq_text (lower item.0) (lower name)) entry)

unfoldable pub attribute_value : Dict (List Text) → Text → List Text
unfolding lookup
attribute_value entry name =
    if is_empty name then [] else as_values (any_case name entry (lookup name entry))

abbrev pub fallback_group_attributes : List Text
fallback_group_attributes =
    text "memberOf"
    ∷ text "isMemberOf"
    ∷ text "memberof"
    ∷ text "nsRole"
    ∷ text "groupMembership"
    ∷ []

abbrev or_more : List Text → List Text → List Text
or_more [] more = more
or_more (g ∷ gs) more = g ∷ gs

-- The first of the usual attributes that has values, without the one that is configured.
unfoldable pub fallback_groups : Text → Dict (List Text) → List Text → List Text
unfolding attribute_value
fallback_groups configured entry [] = []
fallback_groups configured entry (candidate ∷ candidates) =
    let rest = fallback_groups configured entry candidates in
    if eq_text (lower candidate) (lower configured)
    then rest
    else or_more (attribute_value entry candidate) rest

unfoldable pub entry_groups : LdapConfig → Dict (List Text) → List Text
entry_groups config entry =
    or_more (attribute_value entry config.group_attribute)
      (fallback_groups config.group_attribute entry fallback_group_attributes)

abbrev pub default_group_filter : Text
default_group_filter = text "(|(member={dn})(uniqueMember={dn})(memberUid={username}))"

abbrev names_of : Option (List Text) → List Text
names_of none = []
names_of (some names) = names

-- A found group goes by its names and by its DN.
unfoldable pub group_names : List Entry → List Text
unfolding lookup
group_names [] = []
group_names (group ∷ groups) =
    names_of (lookup (text "cn") group.attributes)
    ++ ((if is_empty group.dn then [] else group.dn ∷ []) ++ group_names groups)

-- A search that fails finds no groups.
abbrev found_groups : {S : Type 0} → Answer (List Entry) × S → List Text × S
found_groups (ldap_exception e, s) = ([], s)
found_groups (got groups, s) = (group_names groups, s)

-- `escape` is ldap3's escape_filter_chars.
module _ {S C : Type 0} (ldap3 : Ldap3 S C) (escape : Text → Text) where
  abbrev after_own : List Text → List Text × S → List Text × S
  after_own own (found, s) = (own ++ found, s)

  unfoldable pub group_search_filter : LdapConfig → Text → Text → Text
  unfolding replace
  group_search_filter config dn username =
      replace (text "{username}") (escape username)
        (replace (text "{dn}") (escape dn) (or_else config.group_filter default_group_filter))

  -- _groups_from_entry, of the entry with its DN and the name that was typed.
  unfoldable pub groups_from_entry : LdapConfig → C → Entry → Text → S → List Text × S
  groups_from_entry config connection entry username s =
      let own = entry_groups config (
        insert (text "username") (username ∷ [])
          (insert (text "dn") (entry.dn ∷ []) entry.attributes)) in
      if is_empty config.group_search_base
      then (own, s)
      else after_own own (
          found_groups (
            ldap3.search connection config.group_search_base
              (group_search_filter config entry.dn username) (text "cn" ∷ []) s))
