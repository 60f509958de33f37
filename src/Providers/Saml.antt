-- ===== src/Providers/Saml.antt =====
-- to_saml_config of webui/app/auth/store.py.
use powerdns.Prelude.{Bool, true, false, not, ◌&&◌, [], is_empty}
use powerdns.Text.{Text, text}
use powerdns.Config.Saml.{SamlConfig, default_name_id}
use powerdns.Providers.{
  AuthProviderConfig, no_idp_url, no_idp_cert, Built, fine, ◌>>=◌, ◌>>◌, refuse, setting, flag,
  row_roles, Fernet, secret,
}

-- The certificate is read only where there is no metadata URL to take it from.
abbrev pub needs_cert : Bool → Built Text → Built Unit
needs_cert false cert = fine tt
needs_cert true cert = cert >>= λ t. refuse (is_empty t) no_idp_cert

unfoldable pub to_saml_config : Fernet → AuthProviderConfig → Built SamlConfig
unfolding setting secret row_roles
to_saml_config fernet row =
    let metadata_url = setting row (text "idp_metadata_url") [] in
    let sso_url = setting row (text "idp_sso_url") [] in
    do
      refuse (is_empty metadata_url && is_empty sso_url) no_idp_url
      needs_cert (not (is_empty sso_url) && is_empty metadata_url)
          (secret fernet row (text "idp_x509_cert"))
      sp_x509_cert ← secret fernet row (text "sp_x509_cert")
      sp_private_key ← secret fernet row (text "sp_private_key")
      idp_x509_cert ← secret fernet row (text "idp_x509_cert")
      fine (record {
        enabled = true;
        sp_entity_id = setting row (text "sp_entity_id") [];
        sp_x509_cert = sp_x509_cert;
        sp_private_key = sp_private_key;
        idp_entity_id = setting row (text "idp_entity_id") [];
        idp_sso_url = sso_url;
        idp_slo_url = setting row (text "idp_slo_url") [];
        idp_x509_cert = idp_x509_cert;
        idp_metadata_url = metadata_url;
        name_id_format = setting row (text "name_id_format") default_name_id;
        attr_username = setting row (text "attr_username") (text "username");
        attr_email = setting row (text "attr_email") (text "email");
        attr_name = setting row (text "attr_name") (text "displayName");
        attr_groups = setting row (text "attr_groups") (text "groups");
        want_assertions_signed = flag row (text "want_assertions_signed") true;
        want_messages_signed = flag row (text "want_messages_signed") false;
        want_name_id_encrypted = flag row (text "want_name_id_encrypted") false;
        strict = flag row (text "strict") true;
        roles = row_roles row;
      })
