-- ===== src/Zones.antt =====
-- The views of webui/app/views/zones.py that change something: the records of a zone, and the zones
-- themselves. What the children share is here. A view gets the user that the session names; what it
-- flashes is its outcome, as a value.
pub mod Records
pub mod Sync
pub mod Samples
pub mod Resolver
pub mod Create
mod Tests
pub mod Delete
pub mod Dnssec
use powerdns.Prelude.{
  Bool, not, Option, none, some, List, [], ◌∷◌, keep, map, is_empty, if◌then◌else◌,
}
use powerdns.Text.{Text, text, contains, split_at, is_line_break, strip}
use powerdns.Names.{canonical}
use powerdns.Store.{ReverseLink, Db}
use powerdns.Reverse.Links.{link_for_ptr, forget_ptr}
use powerdns.Reverse.Sync.{names_record}

-- MANAGED_TYPES
abbrev pub managed_types : List Text
managed_types =
    text "RRSIG"
    ∷ text "NSEC"
    ∷ text "NSEC3"
    ∷ text "NSEC3PARAM"
    ∷ text "DNSKEY"
    ∷ text "CDS"
    ∷ text "CDNSKEY"
    ∷ []

-- [line.strip() for line in t.splitlines() if line.strip()]
unfoldable pub lines : Text → List Text
unfolding split_at is_line_break strip
lines t = keep (λ line. not (is_empty line)) (map strip (split_at is_line_break t))

-- _unlink_edited_ptr, with the link of the name.
abbrev pub unlink_edited : Option ReverseLink → Text → List Text → Db → Db
unlink_edited none name contents db = db
unlink_edited (some link) name contents db =
    if names_record contents link then db else (forget_ptr name db).1

unfoldable pub unlink_edited_ptr : Text → List Text → Db → Db
unlink_edited_ptr name contents db = unlink_edited (link_for_ptr name db) name contents db

-- What a view leaves: its outcome, the database, and the state of the server.
pub record Handled (A S : Type 0) : Type 0 where
  pub outcome : A
  pub db : Db
  pub server : S

-- What a view on a whole zone leaves, with the Recursor's state.
pub record Hosted (A S R : Type 0) : Type 0 where
  pub outcome : A
  pub db : Db
  pub server : S
  pub recursor : R
