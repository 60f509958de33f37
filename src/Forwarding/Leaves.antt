-- ===== src/Forwarding/Leaves.antt =====
-- What a request of webui/app/views/forwarding.py may leave, by its outcome: in the database and at
-- the Recursor.
use powerdns.Prelude.{
  ◌≡◌, ◌≢◌, ◌⊎◌, false, ◌&&◌, if◌then◌else◌, Bool, true, Option, List, [], is_empty,
}
use powerdns.Text.{Text, text, strip}
use powerdns.Names.{canonical}
use powerdns.Form.{Form, field, is_on}
use powerdns.Store.{Db}
use powerdns.Pdns.{Reply, ok, pdns_error, Api, list_zones}
use powerdns.Recursor.{parse_servers, Address, Checked, RecursorApi}
use powerdns.Recursor.Client.{
  LocalSync, forward_zones, save_forward_zone, delete_forward_zone, sync_local_zones,
}
use powerdns.Recursor.Config.{RecursorConfig, local_zone_target, target_at}
use powerdns.Zones.{Hosted}
use powerdns.Store.Audit.{OnlyNotes}
use powerdns.Forwarding.{
  invalid, index, dns_port, root_zone, servers_of, server_reports, save_problems, write_rule,
  SaveProblem, Outcome, api_failed, saved, deleted, up_to_date, synced, is_changed, Request, create,
  edit, save_globally, remove,
}

module _ {S R : Type 0} (api : Api S) (recursor : RecursorApi R)
    (ip_address : Text → Option Address) (not_found : Text → Bool) (config : RecursorConfig)
    (addr : Text) where
  abbrev pub name_of : Form → Text
  name_of form = canonical (strip (field form (text "name")))

  abbrev pub listed_in : Form → Checked (List Text)
  listed_in form = parse_servers ip_address (field form (text "servers")) dns_port

  abbrev pub is_blank : Form → Bool
  is_blank form = is_empty (strip (field form (text "servers")))

  abbrev pub asks_for : Text → Form → R → Reply Unit × R
  asks_for original_name form r =
      write_rule api recursor ip_address not_found config addr original_name (name_of form)
        (servers_of (listed_in form)) (is_on form (text "recursion_desired")) r

  -- What a request that is free of problems asks of the Recursor, and its answer.
  abbrev pub answer_to : Request → R → Reply Unit × R
  answer_to (create form) r = asks_for [] form r
  answer_to (edit name form) r = asks_for name form r
  answer_to (save_globally form) r =
      if is_blank form
      then delete_forward_zone recursor root_zone r
      else save_forward_zone recursor root_zone (servers_of (listed_in form)) true r
  answer_to (remove name) r = delete_forward_zone recursor name r
  answer_to _ r = (ok tt, r)

  -- What is wrong with the form of a request.
  abbrev pub problems_of : Request → List SaveProblem
  problems_of (create form) = save_problems api recursor ip_address not_found config addr form
  problems_of (edit name form) = save_problems api recursor ip_address not_found config addr form
  problems_of (save_globally form) = if is_blank form then [] else server_reports (listed_in form)
  problems_of _ = []

  -- Clearing global forwarders that are not there is no failure.
  abbrev pub is_forgiven : Request → Text → Bool
  is_forgiven (save_globally form) e = is_blank form && not_found e
  is_forgiven _ e = false

  -- What the Recursor has answered to what the request asks, in the end.
  abbrev pub Accepted : Request → R → R → Type 0
  Accepted q r r' =
      (problems_of q ≡ [])
      × ((answer_to q r ≡ (ok tt, r'))
          ⊎ ((e : Text) × (answer_to q r ≡ (pdns_error e, r')) × (is_forgiven q e ≡ true)))

  -- The Recursor when the sync of a request starts: the index page lists the forward zones first.
  abbrev pub before_sync : Request → R → R
  before_sync index r = (forward_zones recursor r).1
  before_sync _ r = r

  -- The answer to a sync that has nothing to report.
  abbrev pub IsQuiet : Reply LocalSync → Type 0
  IsQuiet (pdns_error e) = Unit
  IsQuiet (ok result) = is_changed result ≡ false

  -- Why a sync has nothing to report: there is no target, the server does not list its zones, or the
  -- sync of the listed ones fails or changes nothing.
  abbrev pub Quiet : S → R → Hosted Outcome S R → Type 0
  Quiet s r h =
      ((t : Text) → local_zone_target ip_address config ≢ target_at t)
      ⊎ ((t : Text) × (local_zone_target ip_address config ≡ target_at t)
          × (((e : Text) × (list_zones api s ≡ (pdns_error e, h.server)))
              ⊎ ((names : List Text) × (answer : Reply LocalSync) × (r' : R) × (list_zones api s
                    ≡ (ok names, h.server))
                  × (sync_local_zones recursor names t r ≡ (answer, r'))
                  × IsQuiet answer)))

  -- The index page makes no sync if the Recursor does not list its forward zones.
  abbrev pub Unlisted : Request → R → Type 0
  Unlisted index r = (e : Text) × (r' : R) × (forward_zones recursor r ≡ (pdns_error e, r'))
  Unlisted _ r = ⊥

  -- What the sync of the zones that the server lists to the target of the configuration has changed.
  abbrev pub Reconciled : LocalSync → Db → S → R → Hosted Outcome S R → Type 0
  Reconciled result db s r h =
      (is_changed result ≡ true)
      × ((names : List Text) × (t : Text) × (r' : R) × (local_zone_target ip_address config
            ≡ target_at t)
          × (list_zones api s ≡ (ok names, h.server))
          × (sync_local_zones recursor names t r ≡ (ok result, r')))
      × OnlyNotes 1 db h.db

  -- What is left, by the outcome: the links and all rows but those of the audit trail stay as they are.
  abbrev pub Leaves : Request → Db → S → R → Hosted Outcome S R → Outcome → Type 0
  Leaves q db s r h saved = Accepted q r h.recursor × OnlyNotes 1 db h.db × (h.server ≡ s)
  Leaves q db s r h deleted = Accepted q r h.recursor × OnlyNotes 1 db h.db × (h.server ≡ s)
  Leaves q db s r h (synced result) = Reconciled result db s (before_sync q r) h
  Leaves q db s r h up_to_date = (h.db ≡ db) × (Unlisted q r ⊎ Quiet s (before_sync q r) h)
  Leaves q db s r h (api_failed e) =
      (problems_of q ≡ [])
      × (answer_to q r ≡ (pdns_error e, h.recursor))
      × (is_forgiven q e ≡ false)
      × (h.db ≡ db)
      × (h.server ≡ s)
  Leaves q db s r h (invalid ps) =
      (ps ≡ problems_of q) × (ps ≢ []) × (h.db ≡ db) × (h.server ≡ s) × (h.recursor ≡ r)
  Leaves q db s r h _ = ⊥

  abbrev pub End : Request → Db → S → R → Hosted Outcome S R → Type 0
  End q db s r h = Leaves q db s r h h.outcome
