-- ===== src/Reverse/Links.antt =====
-- The links between zones and between records: the functions on ZoneReverseLink and ReverseLink of
-- webui/app/reverse.py. The tables hold no two rows with the same forward and reverse zone, and no two
-- with the same PTR name, as their constraints say.
pub mod Pairing
pub mod Table
pub mod Unique
mod Tests
use powerdns.Prelude.{
  Bool, true, false, not, ◌&&◌, ◌||◌, Option, none, some, List, [], ◌∷◌, ◌++◌, find, keep, map,
  is_empty, if◌then◌else◌,
}
use powerdns.Text.{Text, eq_text, upper, contains, dedup, sorted}
use powerdns.Names.{canonical}
use powerdns.Store.{ReverseLink, ZoneReverseLink, Db}

-- The reverse zones of a forward zone, in the order of the rows.
unfoldable pub reverse_zones_of : Text → List ZoneReverseLink → List Text
reverse_zones_of zone_c [] = []
reverse_zones_of zone_c (l ∷ ls) =
    let rest = reverse_zones_of zone_c ls in
    if eq_text l.forward_zone zone_c then l.reverse_zone ∷ rest else rest

unfoldable pub linked_reverse_zones : Text → Db → List Text
unfolding reverse_zones_of
linked_reverse_zones zone db = sorted (reverse_zones_of (canonical zone) db.zone_reverse_links)

unfoldable pub linked_forward_zones : Text → Db → List Text
linked_forward_zones reverse_zone db = sorted (
    map (λ (l : ZoneReverseLink). l.forward_zone)
      (keep (λ l. eq_text l.reverse_zone (canonical reverse_zone)) db.zone_reverse_links))

-- wanted, of set_linked_reverse_zones, as a list without repetitions.
abbrev pub wanted_zones : List Text → List Text
wanted_zones zones = dedup (keep (λ z. not (is_empty z)) (map canonical zones))

-- db.delete(existing[name]) for each name on a list.
unfoldable pub drop_links : Text → List Text → List ZoneReverseLink → List ZoneReverseLink
drop_links zone_c removed ls =
    keep (λ l. not (eq_text l.forward_zone zone_c && contains l.reverse_zone removed)) ls

unfoldable pub new_links : Text → List Text → List ZoneReverseLink
new_links zone_c added = map (λ z. record { forward_zone = zone_c; reverse_zone = z }) added

unfoldable pub set_linked_reverse_zones : Text → List Text → Db → (List Text × List Text) × Db
unfolding drop_links new_links
set_linked_reverse_zones zone reverse_zones db =
    let zone_c = canonical zone in
    let wanted = wanted_zones reverse_zones in
    let existing = reverse_zones_of zone_c db.zone_reverse_links in
    let added = sorted (keep (λ z. not (contains z existing)) wanted) in
    let removed = sorted (keep (λ z. not (contains z wanted)) existing) in
    (
      (added, removed),
      record db {
        zone_reverse_links =
            drop_links zone_c removed db.zone_reverse_links ++ new_links zone_c added;
      },
    )

unfoldable pub forget_zone_links : Text → Db → Db
forget_zone_links zone db = record db {
  zone_reverse_links =
      keep
        (λ l.
          not (eq_text l.forward_zone (canonical zone) || eq_text l.reverse_zone (canonical zone)))
        db.zone_reverse_links;
}

abbrev pub is_of_record : Text → Text → Text → ReverseLink → Bool
is_of_record zone_c name_c rtype l =
    eq_text l.forward_zone zone_c && eq_text l.forward_name name_c && eq_text l.forward_type rtype

unfoldable pub links_for_record : Text → Text → Text → Db → List ReverseLink
links_for_record zone name rtype db =
    keep (is_of_record (canonical zone) (canonical name) (upper rtype)) db.reverse_links

abbrev pub mentions : Text → ReverseLink → Bool
mentions zone_c l = eq_text l.forward_zone zone_c || eq_text l.reverse_zone zone_c

unfoldable pub links_for_zone : Text → Db → List ReverseLink
links_for_zone zone db = keep (mentions (canonical zone)) db.reverse_links

-- The row with a PTR name.
unfoldable pub link_at : Text → List ReverseLink → Option ReverseLink
link_at ptr ls = find (λ l. eq_text l.ptr_name ptr) ls

unfoldable pub link_for_ptr : Text → Db → Option ReverseLink
unfolding link_at
link_for_ptr ptr db = link_at (canonical ptr) db.reverse_links

-- db.delete(link)
unfoldable pub remove_link : Text → List ReverseLink → List ReverseLink
remove_link ptr ls = keep (λ l. not (eq_text l.ptr_name ptr)) ls

-- db.delete of a row, if there is one.
abbrev pub forget_at : Option ReverseLink → Db → Bool × Db
forget_at none db = (false, db)
forget_at (some link) db =
    (true, record db { reverse_links = remove_link link.ptr_name db.reverse_links })

unfoldable pub forget_ptr : Text → Db → Bool × Db
unfolding link_at remove_link
forget_ptr ptr db = forget_at (link_at (canonical ptr) db.reverse_links) db

unfoldable pub forget_zone : Text → Db → Db
unfolding forget_zone_links
forget_zone zone db =
    let db' = forget_zone_links zone db in
    record db' { reverse_links = keep (λ l. not (mentions (canonical zone) l)) db'.reverse_links }

-- The row that sync_record writes: the one with the PTR name, changed, or else a new one.
unfoldable pub set_link : ReverseLink → List ReverseLink → List ReverseLink
set_link link [] = link ∷ []
set_link link (l ∷ ls) =
    if eq_text l.ptr_name link.ptr_name then link ∷ ls else l ∷ set_link link ls
