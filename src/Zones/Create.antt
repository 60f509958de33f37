-- ===== src/Zones/Create.antt =====
-- Creating a zone, with its reverse zones beside it: create and _create_reverse_zone of
-- webui/app/views/zones.py.
pub mod Outcomes
use powerdns.Prelude.{
  ℕ, leb, Bool, true, false, not, ◌&&◌, ◌||◌, Option, none, some, List, [], ◌∷◌, ◌++◌, map,
  is_empty, if◌then◌else◌,
}
use powerdns.Text.{
  Text, text, eq_text, contains, strip, or_else, comma_lines, lower_char, upper_char,
}
use powerdns.Text.Title.{title}
use powerdns.Names.{canonical}
use powerdns.Form.{Form, field, is_on}
use powerdns.Store.{User, Db, record_audit}
use powerdns.Session.{Gate, signed_out, forbidden, enter, operator_required}
use powerdns.Pdns.{Reply, ok, pdns_error}
use powerdns.Pdns.Zones.{Zone, ZoneApi, create_zone}
use powerdns.Reverse.Networks.{Network, Problem, zones_for_networks}
use powerdns.Recursor.{Address, RecursorApi}
use powerdns.Recursor.Config.{RecursorConfig}
use powerdns.Zones.Resolver.{Forwarding, forward_locally}
use powerdns.Zones.{Hosted}

abbrev pub zone_kinds : List Text
zone_kinds = text "Native" ∷ text "Master" ∷ text "Slave" ∷ []

abbrev pub slave : Text
slave = text "Slave"

pub data CreateProblem : Type 0 where
  no_name bad_kind no_masters no_nameservers no_networks : CreateProblem
  network_problem : Problem → CreateProblem

-- What the form asks for.
pub record Wanted : Type 0 where
  pub name : Text
  pub kind : Text
  pub nameservers : List Text
  pub masters : List Text
  pub dnssec : Bool
  pub reverse_zones : List Text

pub data CreateOutcome : Type 0 where
  sign_in_first refused : CreateOutcome
  invalid : List CreateProblem → CreateOutcome
  api_failed : Text → CreateOutcome
  created : Text → CreateOutcome

abbrev pub when : Bool → CreateProblem → List CreateProblem
when b p = if b then p ∷ [] else []

-- The problems with the networks that are typed for the reverse zones.
abbrev pub reverse_reports : Bool → List Text × List Problem → List CreateProblem
reverse_reports with_reverse (zones, problems) =
    if with_reverse
    then map network_problem problems ++ when (is_empty zones && is_empty problems) no_networks
    else []

abbrev pub only_if : Bool → List Text × List Problem → List Text
only_if with_reverse (zones, problems) = if with_reverse then zones else []

abbrev pub or_default : Text → Option Text → Text
or_default d none = d
or_default d (some t) = t

-- zone.get("name") or canonical(name)
abbrev pub name_or : Text → Option Text → Text
name_or d none = d
name_or d (some t) = or_else t d

abbrev pub truth : Bool → Text
truth true = text "True"
truth false = text "False"

-- What the creation of zones changes.
pub record Made (S R : Type 0) : Type 0 where
  pub db : Db
  pub server : S
  pub recursor_state : R

-- `ip_network` and `ip_address` are Python's ipaddress.
module _ {S R : Type 0} (api : ZoneApi S) (recursor : RecursorApi R)
    (ip_address : Text → Option Address) (ip_network : Text → Option Network)
    (config : RecursorConfig) (soa_edit_api addr : Text) where
  unfoldable pub wanted : Form → Wanted
  unfolding field strip title
  wanted form =
      let with_reverse = is_on form (text "create_reverse") in
      record {
        name = strip (field form (text "name"));
        kind = title (strip (or_else (field form (text "kind")) (text "Native")));
        nameservers = comma_lines (field form (text "nameservers"));
        masters = comma_lines (field form (text "masters"));
        dnssec = is_on form (text "dnssec");
        reverse_zones =
            only_if with_reverse
              (zones_for_networks ip_network (field form (text "reverse_networks")));
      }

  unfoldable pub create_problems : Form → List CreateProblem
  create_problems form =
      let w = wanted form in
      when (is_empty w.name) no_name
      ++ when (not (contains w.kind zone_kinds)) bad_kind
      ++ when (eq_text w.kind slave && is_empty w.masters) no_masters
      ++ when (not (eq_text w.kind slave) && is_empty w.nameservers) no_nameservers
      ++ reverse_reports (is_on form (text "create_reverse"))
          (zones_for_networks ip_network (field form (text "reverse_networks")))

  abbrev pub told : Db → S → Forwarding × R → Made S R
  told db s (forwarding, r) = record { db = db; server = s; recursor_state = r }

  abbrev pub made_reverse : Text → Text → User → Made S R → Reply Zone × S → Made S R
  made_reverse name forward user m (pdns_error e, s) = record m {
    db = record_audit addr (text "zone.create_reverse") name e (some user) false m.db;
    server = s;
  }
  made_reverse name forward user m (ok zone, s) =
      let created = or_default (canonical name) zone.name in
      told
        (record_audit addr (text "zone.create_reverse") created (text "for " ++ forward) (some user)
          true m.db)
        s (forward_locally recursor ip_address config created false m.recursor_state)

  -- _create_reverse_zone, with the options of the forward zone.
  unfoldable pub create_reverse_zone :
      Text → Text → User → Text → List Text → List Text → Bool → Made S R → Made S R
  create_reverse_zone name forward user kind nameservers masters dnssec m =
      made_reverse name forward user m
        (create_zone api name kind nameservers masters soa_edit_api dnssec m.server)

  unfoldable pub create_reverse_zones : List Text → Text → User → Wanted → Made S R → Made S R
  create_reverse_zones [] forward user w m = m
  create_reverse_zones (z ∷ zs) forward user w m =
      create_reverse_zones zs forward user w
        (create_reverse_zone z forward user w.kind w.nameservers w.masters w.dnssec m)

  abbrev pub hosted : CreateOutcome → Made S R → Hosted CreateOutcome S R
  hosted outcome m = record {
    outcome = outcome;
    db = m.db;
    server = m.server;
    recursor = m.recursor_state;
  }

  abbrev pub after_creation : Wanted → User → Db → R → Reply Zone × S → Hosted CreateOutcome S R
  after_creation w user db r (pdns_error e, s) = record {
    outcome = api_failed e;
    db = record_audit addr (text "zone.create") w.name e (some user) false db;
    server = s;
    recursor = r;
  }
  after_creation w user db r (ok zone, s) = hosted (created (name_or (canonical w.name) zone.id)) (
      create_reverse_zones w.reverse_zones (or_default (canonical w.name) zone.name) user w (
        told
          (record_audit addr (text "zone.create") (or_default w.name zone.name)
            (text "kind=" ++ w.kind ++ text " dnssec=" ++ truth w.dnssec) (some user) true db)
          s
          (forward_locally recursor ip_address config (name_or (canonical w.name) zone.name) false
            r)))

  abbrev pub stopped : CreateOutcome → Db → S → R → Hosted CreateOutcome S R
  stopped outcome db s r = record { outcome = outcome; db = db; server = s; recursor = r }

  unfoldable pub create_checked :
      List CreateProblem → Form → User → Db → S → R → Hosted CreateOutcome S R
  create_checked (p ∷ ps) form user db s r = stopped (invalid (p ∷ ps)) db s r
  create_checked [] form user db s r =
      let w = wanted form in
      after_creation w user db r
        (create_zone api w.name w.kind w.nameservers w.masters soa_edit_api w.dnssec s)

  abbrev pub at_gate : Gate → Form → Db → S → R → Hosted CreateOutcome S R
  at_gate signed_out form db s r = stopped sign_in_first db s r
  at_gate forbidden form db s r = stopped refused db s r
  at_gate (enter user) form db s r = create_checked (create_problems form) form user db s r

  -- The POST of create.
  unfoldable pub create : Form → Option User → Db → S → R → Hosted CreateOutcome S R
  create form user db s r = at_gate (operator_required user) form db s r
