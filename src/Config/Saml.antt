-- ===== src/Config/Saml.antt =====
-- SamlConfig and its from_env, in webui/app/config.py.
use powerdns.Prelude.{Bool, true, false, not, ◌&&◌, [], is_empty, if◌then◌else◌}
use powerdns.Text.{Text, text}
use powerdns.Roles.{GroupRoleMap}
use powerdns.Config.{
  no_saml_url, no_saml_cert, Setting, fine, ◌>>=◌, ◌>>◌, refuse, Env, env_str, env_secret, env_bool,
  group_roles,
}
use powerdns.Config.Providers.{no_roles}

abbrev pub default_name_id : Text
default_name_id = text "urn:oasis:names:tc:SAML:1.1:nameid-format:unspecified"

pub record SamlConfig : Type 0 where
  pub enabled : Bool
  pub sp_entity_id : Text
  pub sp_x509_cert : Text
  pub sp_private_key : Text
  pub idp_entity_id : Text
  pub idp_sso_url : Text
  pub idp_slo_url : Text
  pub idp_x509_cert : Text
  pub idp_metadata_url : Text
  pub name_id_format : Text
  pub attr_username : Text
  pub attr_email : Text
  pub attr_name : Text
  pub attr_groups : Text
  pub want_assertions_signed : Bool
  pub want_messages_signed : Bool
  pub want_name_id_encrypted : Bool
  pub strict : Bool
  pub roles : GroupRoleMap

abbrev pub no_saml : SamlConfig
no_saml = record {
  enabled = false;
  sp_entity_id = [];
  sp_x509_cert = [];
  sp_private_key = [];
  idp_entity_id = [];
  idp_sso_url = [];
  idp_slo_url = [];
  idp_x509_cert = [];
  idp_metadata_url = [];
  name_id_format = default_name_id;
  attr_username = text "username";
  attr_email = text "email";
  attr_name = text "displayName";
  attr_groups = text "groups";
  want_assertions_signed = true;
  want_messages_signed = false;
  want_name_id_encrypted = false;
  strict = true;
  roles = no_roles;
}

module _ (env file : Env) where
  abbrev str : Text → Text → Text
  str name default = env_str env file name default

  abbrev enabled_saml : Setting SamlConfig
  enabled_saml =
      let metadata_url = str (text "SAML_IDP_METADATA_URL") [] in
      let sso_url = str (text "SAML_IDP_SSO_URL") [] in
      do
        refuse (is_empty metadata_url && is_empty sso_url) no_saml_url
        refuse
            (not (is_empty sso_url)
              && is_empty (str (text "SAML_IDP_X509_CERT") [])
              && is_empty metadata_url)
            no_saml_cert
        sp_x509_cert ← env_secret env file (text "SAML_SP_X509_CERT") []
        sp_private_key ← env_secret env file (text "SAML_SP_PRIVATE_KEY") []
        idp_x509_cert ← env_secret env file (text "SAML_IDP_X509_CERT") []
        want_assertions_signed ← env_bool env file (text "SAML_WANT_ASSERTIONS_SIGNED") true
        want_messages_signed ← env_bool env file (text "SAML_WANT_MESSAGES_SIGNED") false
        want_name_id_encrypted ← env_bool env file (text "SAML_WANT_NAME_ID_ENCRYPTED") false
        strict ← env_bool env file (text "SAML_STRICT") true
        roles ← group_roles env file (text "SAML")
        fine (record {
          enabled = true;
          sp_entity_id = str (text "SAML_SP_ENTITY_ID") [];
          sp_x509_cert = sp_x509_cert;
          sp_private_key = sp_private_key;
          idp_entity_id = str (text "SAML_IDP_ENTITY_ID") [];
          idp_sso_url = sso_url;
          idp_slo_url = str (text "SAML_IDP_SLO_URL") [];
          idp_x509_cert = idp_x509_cert;
          idp_metadata_url = metadata_url;
          name_id_format = str (text "SAML_NAME_ID_FORMAT") default_name_id;
          attr_username = str (text "SAML_ATTR_USERNAME") (text "username");
          attr_email = str (text "SAML_ATTR_EMAIL") (text "email");
          attr_name = str (text "SAML_ATTR_NAME") (text "displayName");
          attr_groups = str (text "SAML_ATTR_GROUPS") (text "groups");
          want_assertions_signed = want_assertions_signed;
          want_messages_signed = want_messages_signed;
          want_name_id_encrypted = want_name_id_encrypted;
          strict = strict;
          roles = roles;
        })

  -- SamlConfig.from_env
  unfoldable pub saml_from_env : Setting SamlConfig
  unfolding env_str env_secret env_bool group_roles
  saml_from_env = do
    enabled ← env_bool env file (text "SAML_ENABLED") false
    if enabled then enabled_saml else fine no_saml
