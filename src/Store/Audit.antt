-- ===== src/Store/Audit.antt =====
-- What `record` of webui/app/audit.py adds to the audit trail, and nothing else.
use powerdns.Prelude.{
  ℕ, ◌+◌, ◌≡◌, refl, Bool, false, Option, some, [], ◌∷◌, ◌++◌, length, length-append, take,
}
use powerdns.Text.{Text}
use powerdns.Store.{User, AuditLog, Db, record_audit}

-- Only the audit trail has changed, and by one entry that notes a failure with its message.
abbrev pub NotesFailure : Text → Text → Db → Db → Type 0
NotesFailure target e db db' =
    (entry : AuditLog) × (entry.success ≡ false)
    × (entry.detail ≡ e)
    × (entry.target ≡ take 255 target)
    × (db' ≡ record db { audit_log = db.audit_log ++ entry ∷ [] })

pub record_audit-NotesFailure :
    (addr action target e : Text) (user : User) (db : Db)
    → NotesFailure target e db (record_audit addr action target e (some user) false db)
unfolding record_audit
record_audit-NotesFailure addr action target e user db = (_, refl, refl, refl, refl)

-- Only the audit trail has grown, by that many entries.
abbrev pub OnlyNotes : ℕ → Db → Db → Type 0
OnlyNotes n db db' =
    (db' ≡ record db { audit_log = db'.audit_log })
    × (length db'.audit_log ≡ length db.audit_log + n)

pub record_audit-OnlyNotes :
    (addr action target detail : Text) (actor : Option User) (success : Bool) (db : Db)
    → OnlyNotes 1 db (record_audit addr action target detail actor success db)
unfolding record_audit
record_audit-OnlyNotes addr action target detail actor success db =
    (refl, length-append db.audit_log _)
