-- ===== src/Recursor/Client/Tests.antt =====
-- A sync of the hosted zones with a Recursor that logs the rules posted to it.
use powerdns.Prelude.{◌≡◌, refl, false, List, [], ◌∷◌, All}
use powerdns.Text.{Text, text, lower, strip, rstrip_dots, eq_text, contains, sorted, dedup}
use powerdns.Names.{canonical}
use powerdns.Pdns.{ok}
use powerdns.Recursor.{Listed, Rule, RecursorApi, sort_zones, insert_zone}
use powerdns.Recursor.Client.{
  forward_zones, resolve_zone_id, save_forward_zone, delete_forward_zone, sync_local_zones, add_all,
  remove_all, to_add, to_remove,
}
use powerdns.Recursor.Client.Local.{Synced, sync_local_zones_lem, sync_local_zones-server}

abbrev target : Text
target = text "192.0.2.53:53"

abbrev zones : List Listed
zones =
    (record {
      name = text "gone.example.";
      kind = text "Forwarded";
      servers = target ∷ [];
      recursion_desired = false;
      id = text "gone.example.";
    })
    ∷ (record {
      name = text "corp.example.";
      kind = text "Forwarded";
      servers = text "10.0.0.1:53" ∷ [];
      recursion_desired = false;
      id = text "corp.example.";
    })
    ∷ []

abbrev logging : RecursorApi (List Rule)
logging = record {
  zones = λ s. (ok zones, s);
  post = λ rule s. (ok tt, rule ∷ s);
  put = λ id rule s. (ok tt, rule ∷ s);
  delete = λ id s. (ok tt, s);
  flush = λ name s. (ok 0, s);
}

abbrev hosted : List Text
hosted = text "Example.org" ∷ text "corp.example" ∷ []

sync_local_zones_lem_example :
    Synced logging target hosted [] (sync_local_zones logging hosted target [])
sync_local_zones_lem_example = sync_local_zones_lem logging hosted target []

-- Every rule that was posted points at the target.
abbrev ToTarget : List Rule → Type 0
ToTarget rules = All (λ (r : Rule). r.servers ≡ target ∷ []) rules

sync_local_zones-server_example : ToTarget (sync_local_zones logging hosted target []).1
unfolding forward_zones save_forward_zone delete_forward_zone resolve_zone_id
sync_local_zones-server_example =
    sync_local_zones-server logging ToTarget hosted target [] (λ s h. h)
      (λ current t s e a h. (refl, h)) (λ current t s e r h. h) tt

added_and_removed :
    (sync_local_zones logging hosted target []).0
    ≡ ok (record { added = text "example.org." ∷ []; removed = text "gone.example." ∷ [] })
unfolding sync_local_zones forward_zones save_forward_zone delete_forward_zone resolve_zone_id
    add_all remove_all to_add to_remove canonical lower strip rstrip_dots eq_text contains sorted
    dedup sort_zones insert_zone
added_and_removed = refl
