-- ===== src/Roles.antt =====
-- Roles, and the map from directory groups to them: the ROLE_ constants, `GroupRoleMap` and
-- `_role_or_none` of webui/app/config.py.
pub mod Grants
mod Tests
use powerdns.Prelude.{
  ℕ, Bool, not, ◌||◌, Option, none, some, List, [], ◌∷◌, ◌++◌, any, keep, is_empty, if◌then◌else◌,
}
use powerdns.Text.{Text, text, strip, lower, contains, before, after?, eq_text}

abbrev pub role_admin : Text
role_admin = text "admin"

abbrev pub role_operator : Text
role_operator = text "operator"

abbrev pub role_user : Text
role_user = text "user"

abbrev pub roles : List Text
roles = role_admin ∷ role_operator ∷ role_user ∷ []

-- An entry of a claim's group list: a text, or (`none`) any other value.
abbrev pub Group : Type 0
Group = Option Text

pub record GroupRoleMap : Type 0 where
  pub admin_groups : List Text
  pub operator_groups : List Text
  pub user_groups : List Text
  pub default_role : Option Text

-- The key that the first RDN of a distinguished name adds, if it has an equals sign.
abbrev rdn_keys : Option Text → List Text
rdn_keys none = []
rdn_keys (some value) = lower (strip value) ∷ []

-- GroupRoleMap._keys, of a group that is a text, after `strip`.
abbrev stripped_keys : Text → List Text
stripped_keys g = if is_empty g then [] else lower g ∷ rdn_keys (after? b'=' (before b',' g))

pub keys : Group → List Text
keys none = []
keys (some g) = stripped_keys (strip g)

-- `present` of GroupRoleMap.resolve
present : List Group → List Text
unfolding keys
present [] = []
present (g ∷ gs) = keys g ++ present gs

abbrev is_blank : Text → Bool
is_blank t = is_empty (strip t)

-- `matches` of GroupRoleMap.resolve
pub matches : List Text → List Group → Bool
unfolding present
matches configured groups =
    any (λ name. contains (lower (strip name)) (present groups))
      (keep (λ name. not (is_blank name)) configured)

-- `self.default_role if self.default_role else None`
abbrev or_none : Option Text → Option Text
or_none none = none
or_none (some r) = if is_empty r then none else some r

unfoldable pub resolve : GroupRoleMap → List Group → Option Text
unfolding matches strip lower contains before after?
resolve m groups =
    if matches m.admin_groups groups
    then some role_admin
    else if matches m.operator_groups groups
    then some role_operator
    else if matches m.user_groups groups
    then some role_user
    else if not (is_empty m.admin_groups)
        || not (is_empty m.operator_groups)
        || not (is_empty m.user_groups)
    then or_none m.default_role
    else m.default_role
