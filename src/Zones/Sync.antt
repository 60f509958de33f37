-- ===== src/Zones/Sync.antt =====
-- The PTR side of a record that a view has written or deleted: _sync_reverse of
-- webui/app/views/zones.py. It never raises: a PdnsError is part of what it returns.
pub mod Links
use powerdns.Prelude.{
  ℕ, Bool, true, false, not, ◌&&◌, ◌||◌, Option, none, some, List, [], ◌∷◌, ◌++◌, is_empty, length,
  if◌then◌else◌,
}
use powerdns.Text.{Text, text, eq_text, decimal, join}
use powerdns.Names.{canonical}
use powerdns.Store.{User, Db, record_audit}
use powerdns.Pdns.{Reply, ok, pdns_error, Api}
use powerdns.Reverse.Sync.{SyncResult, Synced, sync_record}

-- The record set that a view has left, and whether it is to have PTRs.
pub record Target : Type 0 where
  pub zone : Text
  pub name : Text
  pub rtype : Text
  pub ttl : ℕ
  pub contents : List Text
  pub enabled : Bool

-- SyncResult.changed
abbrev pub is_changed : SyncResult → Bool
is_changed r = not (is_empty r.written) || not (is_empty r.removed)

abbrev stolen_note : List Text → Text
stolen_note [] = []
stolen_note (t ∷ ts) = text " stolen=" ++ join (text ",") (t ∷ ts)

abbrev pub sync_detail : SyncResult → Text
sync_detail r =
    text "written="
    ++ decimal (length r.written)
    ++ text " removed="
    ++ decimal (length r.removed)
    ++ stolen_note r.stolen

-- The test of `previous`: there is one, and it is not the record set itself.
abbrev pub is_other : Text × Text → Target → Bool
is_other p t = not (eq_text p.0 (canonical t.name) && eq_text p.1 t.rtype)

module _ {S : Type 0} (api : Api S) (ptr_of : Text → Option Text) (addr : Text) (user : User) where
  -- The sync of the record set itself.
  unfoldable pub sync_target : Target → Db → S → Synced S
  sync_target t db s =
      sync_record api ptr_of user t.zone t.name t.rtype t.ttl t.contents t.enabled none db s

  -- The sync of a set that a rename has left behind, which takes its PTRs away.
  unfoldable pub sync_stale : Text × Text → Target → Db → S → Synced S
  sync_stale p t db s = sync_record api ptr_of user t.zone p.0 p.1 t.ttl [] false none db s

  abbrev pub sync_next : Target → Reply SyncResult → Synced S → Synced S
  sync_next t (pdns_error e) y = y
  sync_next t (ok _) y = sync_target t y.db y.server

  abbrev pub sync_both : Option (Text × Text) → Target → Db → S → Synced S
  sync_both none t db s = sync_target t db s
  sync_both (some p) t db s =
      if is_other p t
      then (let y = sync_stale p t db s in sync_next t y.reply y)
      else sync_target t db s

  -- The note in the audit trail.
  abbrev pub noted : Target → Reply SyncResult → Synced S → Synced S
  noted t (pdns_error e) y = y
  noted t (ok r) y =
      if is_changed r
      then record y {
        db =
            record_audit addr (text "record.reverse_sync") (canonical t.name ++ text " " ++ t.rtype)
              (sync_detail r) (some user) true y.db;
      }
      else y

  unfoldable pub sync_reverse : Option (Text × Text) → Target → Db → S → Synced S
  sync_reverse previous t db s = let y = sync_both previous t db s in noted t y.reply y
