-- ===== src/Reverse/Sync.antt =====
-- Keeping the reverse side of a record set in step: sync_record and _delete_if_ours of
-- webui/app/reverse.py. The state is the server's, the links and what the result collects; a PdnsError
-- that sync_record does not catch ends it before the commit.
pub mod Full
pub mod Desire
pub mod Loops
pub mod Owner
pub mod Server
pub mod Unique
pub mod Retired
mod Tests
use powerdns.Prelude.{
  ℕ, Bool, true, false, not, ◌&&◌, ◌||◌, Option, none, some, List, [], ◌∷◌, ◌++◌, map, is_empty,
  if◌then◌else◌,
}
use powerdns.Text.{Text, text, eq_text, upper, contains, rstrip_dots}
use powerdns.Names.{canonical}
use powerdns.Dict.{Dict, lookup, insert}
use powerdns.Store.{User, ReverseLink, Db, can_see_zone}
use powerdns.Pdns.{
  RrSet, Reply, ok, pdns_error, Api, list_zones, get_rrset, replace_rrset, delete_rrset,
}
use powerdns.Reverse.{enclosing_zone}
use powerdns.Reverse.Links.{linked_reverse_zones, links_for_record, link_at, remove_link, set_link}

abbrev pub address_types : List Text
address_types = text "A" ∷ text "AAAA" ∷ []

pub record SyncResult : Type 0 where
  pub written : List Text
  pub removed : List Text
  pub no_zone : List Text
  pub denied : List Text
  pub stolen : List Text
  pub failed : List Text

abbrev pub no_result : SyncResult
no_result = record {
  written = [];
  removed = [];
  no_zone = [];
  denied = [];
  stolen = [];
  failed = [];
}

abbrev pub failed_with : Text → SyncResult → SyncResult
failed_with e r = record r { failed = r.failed ++ e ∷ [] }

-- desired: under a PTR name the reverse zone and the address.
abbrev pub Desired : Type 0
Desired = Dict (Text × Text)

abbrev pub Ptr : Type 0
Ptr = Text × (Text × Text)

-- The record set, in normal form, and what the form says of it.
pub record Forward : Type 0 where
  pub zone : Text
  pub name : Text
  pub rtype : Text
  pub ttl : ℕ

abbrev pub link_of : Forward → Ptr → ReverseLink
link_of f (ptr, (reverse_zone, address)) = record {
  forward_zone = f.zone;
  forward_name = f.name;
  forward_type = f.rtype;
  address = address;
  reverse_zone = reverse_zone;
  ptr_name = ptr;
}

abbrev pub ptr_comment : Forward → Text
ptr_comment f = text "Linked to " ++ rstrip_dots f.name ++ text " " ++ f.rtype

abbrev pub is_stolen : Forward → Option ReverseLink → Bool
is_stolen f none = false
is_stolen f (some link) =
    not (eq_text link.forward_name f.name && eq_text link.forward_type f.rtype)

abbrev pub note_written : Forward → Text → Option ReverseLink → SyncResult → SyncResult
note_written f ptr old r = record r {
  stolen = if is_stolen f old then r.stolen ++ ptr ∷ [] else r.stolen;
  written = r.written ++ ptr ∷ [];
}

pub record Plan : Type 0 where
  pub every_zone : Option (List Text)
  pub result : SyncResult
  pub desired : Desired

-- The state of the two loops that follow.
pub record Work (S : Type 0) : Type 0 where
  pub server : S
  pub links : List ReverseLink
  pub result : SyncResult

pub record Synced (S : Type 0) : Type 0 where
  pub reply : Reply SyncResult
  pub db : Db
  pub server : S

-- [canonical(content) for content in current.contents] == [link.forward_name]
abbrev pub names_record : List Text → ReverseLink → Bool
names_record (content ∷ []) link = eq_text (canonical content) link.forward_name
names_record _ link = false

abbrev pub is_desired : Desired → Text → Bool
is_desired desired ptr = elim (lookup ptr desired) [ none ↦ false | some _ ↦ true ]

abbrev pub forward : Text → Text → Text → ℕ → Forward
forward zone name rtype ttl = record {
  zone = canonical zone;
  name = canonical name;
  rtype = upper rtype;
  ttl = ttl;
}

-- What becomes of an address, once its reverse zone is known.
abbrev pub place : User → Text → Text → Option Text → Plan → Plan
place user ptr address none p = record p {
  result = record p.result { no_zone = p.result.no_zone ++ address ∷ [] };
}
place user ptr address (some zone) p =
    if not (can_see_zone user zone)
    then record p { result = record p.result { denied = p.result.denied ++ zone ∷ [] } }
    else record p { desired = insert ptr (zone, address) p.desired }

-- `ptr_of` is ptr_name, which reads the address with Python's ipaddress; `none` is its ReverseError.
module _ {S : Type 0} (api : Api S) (ptr_of : Text → Option Text) (user : User) where
  abbrev pub place_anywhere : Text → Text → Reply (List Text) × S → Plan → Reply Plan × S
  place_anywhere ptr address (pdns_error e, s) p = (pdns_error e, s)
  place_anywhere ptr address (ok zones, s) p = (
    ok (place user ptr address (enclosing_zone ptr zones) (record p { every_zone = some zones })),
    s,
  )

  -- Every zone on the server, listed once at most.
  abbrev pub all_zones : Option (List Text) → S → Reply (List Text) × S
  all_zones (some zones) s = (ok zones, s)
  all_zones none s = list_zones api s

  abbrev pub place_in : Text → Text → Option Text → Plan → S → Reply Plan × S
  place_in ptr address (some zone) p s = (ok (place user ptr address (some zone) p), s)
  place_in ptr address none p s = place_anywhere ptr address (all_zones p.every_zone s) p

  abbrev pub desire_one : List Text → Text → Option Text → Plan → S → Reply Plan × S
  desire_one preferred address none p s = (ok p, s)
  desire_one preferred address (some ptr) p s =
      place_in ptr address (enclosing_zone ptr preferred) p s

  -- The loop over the addresses.
  unfoldable pub desire : List Text → List Text → Reply Plan × S → Reply Plan × S
  desire preferred addresses (pdns_error e, s) = (pdns_error e, s)
  desire preferred [] (ok p, s) = (ok p, s)
  desire preferred (address ∷ rest) (ok p, s) =
      desire preferred rest (desire_one preferred address (ptr_of address) p s)

  abbrev pub written_to : Forward → Ptr → Reply Unit × S → Work S → Work S
  written_to f p (pdns_error e, s) w = record w { server = s; result = failed_with e w.result }
  written_to f p (ok _, s) w = record w {
    server = s;
    links = set_link (link_of f p) w.links;
    result = note_written f p.0 (link_at p.0 w.links) w.result;
  }

  abbrev pub write_ptr : Forward → Ptr → Work S → Work S
  write_ptr f p w =
      written_to f p
        (replace_rrset api p.1.0 p.0 (text "PTR") f.ttl (f.name ∷ []) false (ptr_comment f)
          user.username w.server)
        w

  unfoldable pub write_all : Forward → List Ptr → Work S → Work S
  write_all f [] w = w
  write_all f (p ∷ ps) w = write_all f ps (write_ptr f p w)

  -- _delete_if_ours, with the note that the caller makes of a deleted PTR.
  abbrev pub deleted : ReverseLink → Reply Unit × S → Work S → Work S
  deleted link (pdns_error e, s) w = record w { server = s; result = failed_with e w.result }
  deleted link (ok _, s) w = record w {
    server = s;
    result = record w.result { removed = w.result.removed ++ link.ptr_name ∷ [] };
  }

  abbrev pub delete_if_ours : ReverseLink → Reply (Option RrSet) × S → Work S → Work S
  delete_if_ours link (pdns_error e, s) w = record w { server = s; result = failed_with e w.result }
  delete_if_ours link (ok none, s) w = record w { server = s }
  delete_if_ours link (ok (some current), s) w =
      if names_record current.contents link
      then deleted link (delete_rrset api link.reverse_zone link.ptr_name (text "PTR") s) w
      else record w { server = s }

  abbrev pub drop_link : ReverseLink → Work S → Work S
  drop_link link w =
      let w' =
        delete_if_ours link (get_rrset api link.reverse_zone link.ptr_name (text "PTR") w.server)
          w in
      record w' { links = remove_link link.ptr_name w'.links }

  unfoldable pub drop_all : Desired → List ReverseLink → Work S → Work S
  drop_all desired [] w = w
  drop_all desired (link ∷ links) w =
      drop_all desired links (if is_desired desired link.ptr_name then w else drop_link link w)

  -- Both loops, and the commit.
  unfoldable pub apply : Forward → List ReverseLink → Plan → S → List ReverseLink → Work S
  apply f existing p s links =
      drop_all p.desired existing
        (write_all f p.desired (record { server = s; links = links; result = p.result }))

  abbrev pub commit : Work S → Db → Synced S
  commit w db = record {
    reply = ok w.result;
    db = record db { reverse_links = w.links };
    server = w.server;
  }

  abbrev pub finish : Forward → Db → Reply Plan × S → Synced S
  finish f db (pdns_error e, s) = record { reply = pdns_error e; db = db; server = s }
  finish f db (ok p, s) =
      commit (apply f (links_for_record f.zone f.name f.rtype db) p s db.reverse_links) db

  -- The desired set of PTRs.
  abbrev pub plan_for : Forward → List Text → Bool → Option (List Text) → Db → S → Reply Plan × S
  plan_for f addresses enabled zone_names db s =
      let start : Plan = record { every_zone = zone_names; result = no_result; desired = [] } in
      if enabled && contains f.rtype address_types && not (is_empty addresses)
      then desire (linked_reverse_zones f.zone db) addresses (ok start, s)
      else (ok start, s)

  unfoldable pub sync_record :
      Text → Text → Text → ℕ → List Text → Bool → Option (List Text) → Db → S → Synced S
  sync_record zone name rtype ttl addresses enabled zone_names db s =
      let f = forward zone name rtype ttl in
      finish f db (plan_for f addresses enabled zone_names db s)
