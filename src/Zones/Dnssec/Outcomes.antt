-- ===== src/Zones/Dnssec/Outcomes.antt =====
-- What the switch of DNSSEC in webui/app/views/zones.py leaves on each branch.
use powerdns.Prelude.{ℕ, ◌≡◌, ◌≢◌, List, []}
use powerdns.Text.{Text}
use powerdns.Names.{canonical}
use powerdns.Form.{Form}
use powerdns.Store.{Db}
use powerdns.Pdns.Zones.{ZoneApi}
use powerdns.Zones.{Handled}
use powerdns.Store.Audit.{NotesFailure}
use powerdns.Zones.Dnssec.{DnssecOutcome, enabled, disabled, unknown_action, api_failed}
use powerdns.Zones.Dnssec.Keys.{HasKeys}

module _ {S : Type 0} (api : ZoneApi S) (zone_id : Text) (keys : S → List ℕ)
    (laws : HasKeys api zone_id keys) (addr : Text) where
  -- What is left by an operator's request, by its outcome.
  abbrev pub Settles : Db → S → Handled DnssecOutcome S → DnssecOutcome → Type 0
  Settles db s h enabled = keys h.server ≢ []
  Settles db s h disabled = keys h.server ≡ []
  Settles db s h unknown_action = (h.db ≡ db) × (h.server ≡ s)
  Settles db s h (api_failed e) = NotesFailure (canonical zone_id) e db h.db
  Settles db s h _ = ⊥
