-- ===== src/Config.antt =====
-- Reading the environment: the env_ functions and _role_or_none of webui/app/config.py. The
-- environment and the files that it names are arguments: `env` is os.environ.get, `file` what a file
-- holds, with `none` for an OSError.
pub mod Providers
pub mod Saml
pub mod Auth
mod Tests
use powerdns.Prelude.{
  ℕ, ◌==◌, Bool, true, false, not, ◌||◌, Option, none, some, List, [], ◌∷◌, ◌++◌, keep, map,
  is_empty, if◌then◌else◌,
}
use powerdns.Text.{Text, text, lower, strip, rstrip, split_at, contains, or_else}
use powerdns.Text.Numbers.{parse_int}
use powerdns.Roles.{GroupRoleMap, role_user, roles}
use powerdns.Ldap.{LdapConfig, Signed}

-- What a ConfigError says.
pub data ConfigProblem : Type 0 where
  unreadable not_a_boolean not_an_integer bad_role : Text → Text → ConfigProblem
  no_ldap_uri no_base_dn no_saml_url no_saml_cert no_db_password : ConfigProblem
  no_client no_url listed_twice : Text → ConfigProblem
  also_required : Text → Text → ConfigProblem

pub data Setting (A : Type 0) : Type 0 where
  fine : A → Setting A
  config_error : ConfigProblem → Setting A

infixl 5 ◌>>=◌ ◌>>◌
abbrev pub ◌>>=◌ : {A B : Type 0} → Setting A → (A → Setting B) → Setting B
fine a >>= f = f a
config_error p >>= f = config_error p

abbrev pub ◌>>◌ : {A B : Type 0} → Setting A → Setting B → Setting B
m >> k = m >>= λ _. k

-- if wrong: raise ConfigError
abbrev pub refuse : Bool → ConfigProblem → Setting Unit
refuse true p = config_error p
refuse false p = fine tt

abbrev pub Env : Type 0
Env = Text → Option Text

abbrev stripped : Text → Option Text → Text
stripped default none = default
stripped default (some value) = strip value

module _ (env file : Env) where
  unfoldable pub env_str : Text → Text → Text
  unfolding strip
  env_str name default = stripped default (env name)

  abbrev of_file : Text → Text → Option Text → Setting Text
  of_file name path none = config_error (unreadable name path)
  of_file name path (some content) = fine (rstrip (λ c. c == 13 || c == 10) content)

  -- The contents of the file that NAME_FILE names, or else the variable.
  unfoldable pub env_secret : Text → Text → Setting Text
  unfolding strip rstrip env_str
  env_secret name default =
      let path = stripped [] (env (name ++ text "_FILE")) in
      if is_empty path then fine (env_str name default) else of_file name path (file path)

  abbrev as_bool : Text → Text → Setting Bool
  as_bool name raw =
      if contains (lower raw) (text "1" ∷ text "true" ∷ text "yes" ∷ text "on" ∷ [])
      then fine true
      else if contains (lower raw) (text "0" ∷ text "false" ∷ text "no" ∷ text "off" ∷ [])
      then fine false
      else config_error (not_a_boolean name raw)

  unfoldable pub env_bool : Text → Bool → Setting Bool
  unfolding env_str lower contains
  env_bool name default =
      let raw = env_str name [] in if is_empty raw then fine default else as_bool name raw

  abbrev as_int : Text → Text → Option Signed → Setting Signed
  as_int name raw none = config_error (not_an_integer name raw)
  as_int name raw (some n) = fine n

  unfoldable pub env_int : Text → Signed → Setting Signed
  unfolding env_str parse_int
  env_int name default =
      let raw = env_str name [] in
      if is_empty raw then fine default else as_int name raw (parse_int raw)

  -- A blank value is the default.
  unfoldable pub env_name : Text → Text → Text
  unfolding env_str
  env_name name default = or_else (env_str name default) default

  -- env_list, with an empty default.
  unfoldable pub env_list : Text → List Text
  unfolding env_str split_at strip
  env_list name =
      let raw = env_str name [] in
      if is_empty raw
      then []
      else keep (λ t. not (is_empty t)) (map strip (split_at (λ c. c == b',') raw))

  unfoldable pub role_or_none : Text → Text → Setting (Option Text)
  unfolding env_str lower contains
  role_or_none name default =
      let raw = lower (env_str name default) in
      if contains raw ([] ∷ text "none" ∷ text "deny" ∷ [])
      then fine none
      else if not (contains raw roles)
      then config_error (bad_role name raw)
      else fine (some raw)

  -- GroupRoleMap.from_env
  unfoldable pub group_roles : Text → Setting GroupRoleMap
  unfolding env_list role_or_none
  group_roles prefix = do
    default_role ← role_or_none (prefix ++ text "_DEFAULT_ROLE") role_user
    fine (record {
      admin_groups = env_list (prefix ++ text "_ADMIN_GROUP");
      operator_groups = env_list (prefix ++ text "_OPERATOR_GROUP");
      user_groups = env_list (prefix ++ text "_USER_GROUP");
      default_role = default_role;
    })
