-- ===== src/Forwarding.antt =====
-- The pages on forward zones that change something: webui/app/views/forwarding.py. The state is the
-- panel's database, the Authoritative Server's and the Recursor's. These pages note their changes
-- without the user's name.
pub mod Leaves
pub mod Outcomes
pub mod Rules
mod Tests
use powerdns.Prelude.{
  ℕ, Bool, true, false, not, ◌&&◌, ◌||◌, Option, none, some, List, [], ◌∷◌, ◌++◌, is_empty,
  if◌then◌else◌,
}
use powerdns.Text.{Text, text, eq_text, strip, join}
use powerdns.Names.{dot, canonical}
use powerdns.Form.{Form, field, is_on}
use powerdns.Store.{User, Db, record_audit}
use powerdns.Session.{Gate, signed_out, forbidden, enter, operator_required}
use powerdns.Pdns.{Reply, ok, pdns_error, Api, list_zones}
use powerdns.Pdns.Zones.{Call, ◌>>=◌, ◌>>◌, and_then, pure}
use powerdns.Recursor.{
  ForwardZone, Address, ServerProblem, Checked, fine, value_error, RecursorApi, parse_servers,
}
use powerdns.Recursor.Client.{
  LocalSync, forward_zones, save_forward_zone, delete_forward_zone, sync_local_zones,
}
use powerdns.Recursor.Config.{
  RecursorConfig, is_configured, LocalTarget, target_at, no_dns_address, bad_dns_address,
  local_zone_target,
}
use powerdns.Zones.{Hosted}
use powerdns.Zones.Create.{truth}

pub data SaveProblem : Type 0 where
  no_name : SaveProblem
  server_problem : ServerProblem → SaveProblem

pub data Outcome : Type 0 where
  sign_in_first refused unconfigured : Outcome
  invalid : List SaveProblem → Outcome
  api_failed : Text → Outcome
  saved deleted up_to_date : Outcome
  synced : LocalSync → Outcome

-- The requests that change something, and the GET of the index; `edit` has the name in its address.
pub data Request : Type 0 where
  create save_globally : Form → Request
  edit : Text → Form → Request
  remove : Text → Request
  resync index : Request

-- The default port of a forwarder.
abbrev pub dns_port : ℕ
dns_port = 53

abbrev pub servers_of : Checked (List Text) → List Text
servers_of (fine servers) = servers
servers_of (value_error p) = []

abbrev pub server_reports : Checked (List Text) → List SaveProblem
server_reports (fine servers) = []
server_reports (value_error p) = server_problem p ∷ []

-- ROOT_ZONE
abbrev pub root_zone : Text
root_zone = dot

abbrev pub listing : Text → List Text → Text
listing word [] = []
listing word (t ∷ ts) = word ++ text " forwarding " ++ join (text ", ") (t ∷ ts)

abbrev pub both : Text → Text → Text
both [] [] = text "no changes"
both [] b = b
both a [] = a
both a b = a ++ text "; " ++ b

-- SyncResult.summary
unfoldable pub summary : LocalSync → Text
unfolding join
summary r = both (listing (text "started") r.added) (listing (text "stopped") r.removed)

-- SyncResult.changed
abbrev pub is_changed : LocalSync → Bool
is_changed r = not (is_empty r.added) || not (is_empty r.removed)

-- `not_found` says of a PdnsError, by its message, whether its status was 404.
module _ {S R : Type 0} (api : Api S) (recursor : RecursorApi R)
    (ip_address : Text → Option Address) (not_found : Text → Bool) (config : RecursorConfig)
    (addr : Text) where
  abbrev pub left : Outcome → Db → S → R → Hosted Outcome S R
  left outcome db s r = record { outcome = outcome; db = db; server = s; recursor = r }

  abbrev pub note : Text → Text → Text → Db → Db
  note action name detail db = record_audit addr action name detail none true db

  abbrev pub form_servers : Form → Checked (List Text)
  form_servers form = parse_servers ip_address (field form (text "servers")) dns_port

  unfoldable pub save_problems : Form → List SaveProblem
  unfolding field strip parse_servers
  save_problems form =
      (if is_empty (strip (field form (text "name"))) then no_name ∷ [] else [])
      ++ server_reports (form_servers form)

  -- A rename is a different zone, so the old one goes first.
  abbrev pub drop_original : Text → Text → Call R Unit
  drop_original original_name name =
      if not (is_empty original_name) && not (eq_text (canonical original_name) name)
      then delete_forward_zone recursor original_name
      else pure tt

  unfoldable pub write_rule : Text → Text → List Text → Bool → Call R Unit
  write_rule original_name name servers recurse = do
    drop_original original_name name
    save_forward_zone recursor name servers recurse

  abbrev pub rule_detail : List Text → Bool → Text
  rule_detail servers recurse =
      text "servers=" ++ join (text ", ") servers ++ text " recursion_desired=" ++ truth recurse

  abbrev pub written : Text → Text → Db → S → Reply Unit × R → Hosted Outcome S R
  written name detail db s (pdns_error e, r) = left (api_failed e) db s r
  written name detail db s (ok _, r) = left saved (note (text "forwarding.save") name detail db) s r

  -- _save; an empty original name is that of create.
  unfoldable pub save_checked : List SaveProblem → Text → Form → Db → S → R → Hosted Outcome S R
  save_checked (p ∷ ps) original_name form db s r = left (invalid (p ∷ ps)) db s r
  save_checked [] original_name form db s r =
      let name = canonical (strip (field form (text "name"))) in
      let servers = servers_of (form_servers form) in
      let recurse = is_on form (text "recursion_desired") in
      written name (rule_detail servers recurse) db s
        (write_rule original_name name servers recurse r)

  abbrev pub save : Text → Form → Db → S → R → Hosted Outcome S R
  save original_name form db s r = save_checked (save_problems form) original_name form db s r

  abbrev pub cleared : Db → S → Reply Unit × R → Hosted Outcome S R
  cleared db s (ok _, r) =
      left saved (note (text "forwarding.save") root_zone (text "cleared") db) s r
  cleared db s (pdns_error e, r) =
      if not_found e
      then left saved (note (text "forwarding.save") root_zone (text "cleared") db) s r
      else left (api_failed e) db s r

  abbrev pub save_root : Checked (List Text) → Db → S → R → Hosted Outcome S R
  save_root (value_error p) db s r = left (invalid (server_problem p ∷ [])) db s r
  save_root (fine servers) db s r =
      written root_zone (text "servers=" ++ join (text ", ") servers) db s
        (save_forward_zone recursor root_zone servers true r)

  unfoldable pub save_global : Form → Db → S → R → Hosted Outcome S R
  save_global form db s r =
      if is_empty (strip (field form (text "servers")))
      then cleared db s (delete_forward_zone recursor root_zone r)
      else save_root (form_servers form) db s r

  abbrev pub removed : Text → Db → S → Reply Unit × R → Hosted Outcome S R
  removed name db s (pdns_error e, r) = left (api_failed e) db s r
  removed name db s (ok _, r) =
      left deleted (note (text "forwarding.delete") (canonical name) [] db) s r

  unfoldable pub delete : Text → Db → S → R → Hosted Outcome S R
  delete name db s r = removed name db s (delete_forward_zone recursor name r)

  abbrev pub reconciled : Db → S → Reply LocalSync × R → Hosted Outcome S R
  reconciled db s (pdns_error e, r) = left up_to_date db s r
  reconciled db s (ok result, r) =
      if is_changed result
      then left (synced result)
          (note (text "forwarding.sync") (text "local zones") (summary result) db) s r
      else left up_to_date db s r

  abbrev pub sync_to : Text → Db → R → Reply (List Text) × S → Hosted Outcome S R
  sync_to t db r (pdns_error e, s) = left up_to_date db s r
  sync_to t db r (ok names, s) = reconciled db s (sync_local_zones recursor names t r)

  -- _sync_local_zones: whatever stops it, the page goes on.
  abbrev pub sync_with : LocalTarget → Db → S → R → Hosted Outcome S R
  sync_with no_dns_address db s r = left up_to_date db s r
  sync_with (bad_dns_address p) db s r = left up_to_date db s r
  sync_with (target_at t) db s r = sync_to t db r (list_zones api s)

  unfoldable pub sync : Db → S → R → Hosted Outcome S R
  sync db s r = sync_with (local_zone_target ip_address config) db s r

  -- The page itself brings the rules of the hosted zones up to date, if the Recursor can be reached,
  -- and lists them again if that has changed any.
  abbrev pub relisted : Outcome → R → R
  relisted (synced result) r = (forward_zones recursor r).1
  relisted _ r = r

  abbrev pub index_at : Db → S → Reply (List ForwardZone) × R → Hosted Outcome S R
  index_at db s (pdns_error e, r) = left up_to_date db s r
  index_at db s (ok zones, r) =
      let h = sync db s r in record h { recursor = relisted h.outcome h.recursor }

  unfoldable pub run : Request → Db → S → R → Hosted Outcome S R
  run (create form) db s r = save [] form db s r
  run (edit name form) db s r = save name form db s r
  run (save_globally form) db s r = save_global form db s r
  run (remove name) db s r = delete name db s r
  run resync db s r = sync db s r
  run index db s r = index_at db s (forward_zones recursor r)

  -- recursor_required, over operator_required.
  abbrev pub behind : Gate → Request → Db → S → R → Hosted Outcome S R
  behind signed_out q db s r = left sign_in_first db s r
  behind forbidden q db s r = left refused db s r
  behind (enter user) q db s r =
      if is_configured config then run q db s r else left unconfigured db s r

  unfoldable pub handle : Request → Option User → Db → S → R → Hosted Outcome S R
  handle q user db s r = behind (operator_required user) q db s r
