-- ===== src/Zones/Tests.antt =====
-- Creating and deleting zones on a server and a Recursor that keep logs.
use powerdns.Prelude.{◌≡◌, ◌⊎◌, refl, some, none, [], ◌∷◌, List}
use powerdns.Text.{comma_lines, decimal, rstrip_dots, strip, lower, contains, Text, text}
use powerdns.Names.{canonical}
use powerdns.Form.{field, Form}
use powerdns.Store.{record_audit, User, Db}
use powerdns.Samples.{alice, sample_db}
use powerdns.Session.Operators.{IsOperator}
use powerdns.Zones.Samples.{
  Log, logging, recursing, recursor_config, ip_address, ip_network, zone_gone, zone_made,
}
use powerdns.Zones.Resolver.{forward_locally}
use powerdns.Zones.{Hosted}
use powerdns.Zones.Delete.{DeleteOutcome, delete, delete_confirmed}
use powerdns.Zones.Delete.Outcomes.{DeleteLeaves, delete_lem}
use powerdns.Zones.Create.{
  create_reverse_zones, wanted, create_problems, create_checked, CreateOutcome, create, created,
  sign_in_first, refused,
}
use powerdns.Zones.Create.Outcomes.{CreateLeaves, create_lem}
use powerdns.Session.{role_required}
use powerdns.Pdns.Zones.{create_zone, delete_zone}
use powerdns.Reverse.Links.{forget_zone}
use powerdns.Recursor.Config.{local_zone_target, is_configured}
use powerdns.Recursor.{insert_zone, sort_zones, normalise_server}
use powerdns.Recursor.Client.{
  save_forward_zone, resolve_zone_id, delete_forward_zone, get_forward_zone,
}

abbrev linked : Db
linked = record sample_db {
  reverse_links =
      (record {
        forward_zone = text "example.org.";
        forward_name = text "www.example.org.";
        forward_type = text "A";
        address = text "192.0.2.1";
        reverse_zone = text "2.0.192.in-addr.arpa.";
        ptr_name = text "1.2.0.192.in-addr.arpa.";
      })
      ∷ [];
}

abbrev confirmed : Form
confirmed = (text "confirm", text "Example.org") ∷ []

abbrev deletion : Hosted DeleteOutcome Log (List Text)
deletion =
    delete logging recursing ip_address recursor_config (text "::1") (text "example.org") confirmed
      (some alice) linked [] []

deletion_lem :
    (deletion.server ≡ zone_gone (text "example.org") ∷ [])
    × (deletion.db.reverse_links ≡ [])
    × (deletion.recursor ≡ text "example.org." ∷ [])
unfolding delete role_required contains delete_confirmed canonical lower strip field rstrip_dots
    delete_zone forget_zone record_audit forward_locally is_configured local_zone_target
    normalise_server get_forward_zone sort_zones insert_zone decimal delete_forward_zone
    resolve_zone_id
deletion_lem = (refl, refl, refl)

delete_lem_example :
    DeleteLeaves logging recursing ip_address recursor_config
      (text "::1")
      (text "example.org")
      confirmed
      (some alice)
      linked
      []
      []
      deletion
      deletion.outcome
delete_lem_example =
    delete_lem logging recursing ip_address recursor_config (text "::1") (text "example.org")
      confirmed (some alice) linked [] []

abbrev asked : Form
asked =
    (text "name", text "example.org")
    ∷ (text "kind", text "native")
    ∷ (text "nameservers", text "ns1.example.org, ns2.example.org")
    ∷ []

abbrev creation : Hosted CreateOutcome Log (List Text)
creation =
    create logging recursing ip_address ip_network recursor_config (text "DEFAULT") (text "::1")
      asked (some alice) linked [] []

creation_log :
    (creation.server ≡ zone_made (text "example.org.") ∷ [])
    × (creation.outcome ≡ created (text "example.org."))
    × (creation.recursor ≡ text "example.org." ∷ [])
unfolding create role_required contains create_checked create_problems wanted comma_lines
    create_zone create_reverse_zones canonical lower rstrip_dots forward_locally is_configured
    local_zone_target normalise_server save_forward_zone
creation_log = (refl, refl, refl)

create_lem_example :
    ((creation.outcome ≡ sign_in_first)
      × (some alice ≡ none)
      × (creation.db ≡ linked)
      × (creation.server ≡ [])
      × (creation.recursor ≡ []))
    ⊎ ((u : User) × (some alice ≡ some u)
        × ¬ IsOperator u
        × (creation.outcome ≡ refused)
        × (creation.db ≡ linked)
        × (creation.server ≡ [])
        × (creation.recursor ≡ []))
    ⊎ ((u : User) × (some alice ≡ some u)
        × IsOperator u
        × CreateLeaves logging recursing ip_address ip_network recursor_config
            (text "DEFAULT")
            (text "::1")
            asked
            linked
            []
            []
            creation
            creation.outcome)
create_lem_example =
    create_lem logging recursing ip_address ip_network recursor_config (text "DEFAULT") (text "::1")
      asked (some alice) linked [] []
