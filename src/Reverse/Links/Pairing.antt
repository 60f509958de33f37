-- ===== src/Reverse/Links/Pairing.antt =====
-- The pairing of forward and reverse zones: set_linked_reverse_zones of webui/app/reverse.py.
use powerdns.Prelude.{
  ◌≡◌, ◌≢◌, ◌↔◌, refl, Bool, true, false, not, ◌&&◌, ◌||◌, List, [], ◌∷◌, ◌++◌, keep, map, arith,
  Any, is_empty,
}
use powerdns.Text.{Text, contains, dedup}
use powerdns.Text.Laws.{eq_text_iff, eq_text_refl, contains_iff, contains-append}
use powerdns.Text.Sets.{contains-sorted, contains-dedup_onto, contains-keep, not_empty}
use powerdns.Names.{canonical}
use powerdns.Store.{ZoneReverseLink, Db}
use powerdns.Reverse.Links.{
  reverse_zones_of, linked_reverse_zones, wanted_zones, drop_links, new_links,
  set_linked_reverse_zones,
}

reverse_zones_of-append :
    (zone_c : Text) (ls ms : List ZoneReverseLink)
    → reverse_zones_of zone_c (ls ++ ms) ≡ reverse_zones_of zone_c ls ++ reverse_zones_of zone_c ms
unfolding reverse_zones_of
reverse_zones_of-append zone_c [] ms = refl
reverse_zones_of-append zone_c (l ∷ ls) ms = ground (arith, reverse_zones_of-append zone_c ls ms)

reverse_zones_of-drop_links :
    (zone_c t : Text) (removed : List Text) (ls : List ZoneReverseLink)
    → contains t (reverse_zones_of zone_c (drop_links zone_c removed ls))
      ≡ (contains t (reverse_zones_of zone_c ls) && not (contains t removed))
unfolding reverse_zones_of drop_links contains
reverse_zones_of-drop_links zone_c t removed [] = refl
reverse_zones_of-drop_links zone_c t removed (l ∷ ls) =
    ground (arith, reverse_zones_of-drop_links zone_c t removed ls, eq_text_iff l.reverse_zone t)

reverse_zones_of-new_links :
    (zone_c : Text) (added : List Text) → reverse_zones_of zone_c (new_links zone_c added) ≡ added
unfolding reverse_zones_of new_links
reverse_zones_of-new_links zone_c [] = refl
reverse_zones_of-new_links zone_c (z ∷ zs) =
    ground (arith, reverse_zones_of-new_links zone_c zs, eq_text_refl zone_c)

either_way : (e w : Bool) → (e && not (e && not w) || w && not e) ≡ w
either_way true true = refl
either_way true false = refl
either_way false true = refl
either_way false false = refl

contains-linked :
    (zone : Text) (zones : List Text) (db : Db) (t : Text)
    → contains t (linked_reverse_zones zone (set_linked_reverse_zones zone zones db).1)
      ≡ contains t (wanted_zones zones)
unfolding linked_reverse_zones set_linked_reverse_zones
contains-linked zone zones db t =
    let zone_c = canonical zone in
    let existing = reverse_zones_of zone_c db.zone_reverse_links in
    let wanted = wanted_zones zones in
    rw
      (
        contains-sorted,
        reverse_zones_of-append,
        contains-append,
        reverse_zones_of-new_links,
        reverse_zones_of-drop_links,
        contains-sorted,
        contains-sorted,
        contains-keep t (λ z. not (contains z wanted)) existing,
        contains-keep t (λ z. not (contains z existing)) wanted,
      )
      (either_way (contains t existing) (contains t wanted))

Any-canonical :
    (t : Text) (zones : List Text)
    → Any (λ z. z ≡ t) (map canonical zones) ↔ Any (λ z. canonical z ≡ t) zones
Any-canonical t [] = ((λ h. h), (λ h. h))
Any-canonical t (z ∷ zs) = ground (arith, Any-canonical t zs)

contains-wanted :
    (t : Text) (zones : List Text)
    → (contains t (wanted_zones zones) ≡ true) ↔ ((t ≢ []) × Any (λ z. canonical z ≡ t) zones)
unfolding dedup
contains-wanted t zones =
    rw
      (
        contains-dedup_onto t [] (keep (λ z. not (is_empty z)) (map canonical zones)),
        contains-keep t (λ z. not (is_empty z)) (map canonical zones),
      )
      (unfold contains in
        ground (arith, contains_iff t (map canonical zones), not_empty t, Any-canonical t zones))

-- After the links of a zone are set, its linked reverse zones are exactly the given ones, in normal form
-- and without blank ones.
pub set_linked-linked :
    (zone : Text) (zones : List Text) (db : Db) (t : Text)
    → (Any (λ z. z ≡ t) (linked_reverse_zones zone (set_linked_reverse_zones zone zones db).1))
      ↔ ((t ≢ []) × Any (λ z. canonical z ≡ t) zones)
set_linked-linked zone zones db t = ground (
  arith,
  contains_iff t (linked_reverse_zones zone (set_linked_reverse_zones zone zones db).1),
  contains-linked zone zones db t,
  contains-wanted t zones,
)
