-- ===== src/Reverse/Sync/Tests.antt =====
-- A sync of one address record on a server that keeps a log of the writes.
use powerdns.Prelude.{
  false, Any, sym, ap, ◌∙◌, subst, inl, inr, refl, find, ◌≡◌, true, Option, none, some, List, [],
  ◌∷◌, All,
}
use powerdns.Text.{
  ends_with, sorted, contains, upper, rstrip_dots, strip, lower, eq_text, Text, text,
}
use powerdns.Names.{is_within, canonical}
use powerdns.Store.{ReverseLink, Db, can_see_zone}
use powerdns.Pdns.{
  by_name, ok, Api, Change, replace, delete, list_zones, get_rrset, replace_rrset, delete_rrset,
}
use powerdns.Reverse.Links.{linked_reverse_zones, links_for_record}
use powerdns.Reverse.Sync.{
  address_types, drop_all, apply, desire, Forward, forward, plan_for, sync_record,
}
use powerdns.Reverse.Sync.Full.{IsFull}
use powerdns.Reverse.Sync.Desire.{IsPlanned, plan_for_lem}
use powerdns.Reverse.Sync.Owner.{Syncs, sync_record_lem}
use powerdns.Reverse.Sync.Server.{KeptByReads, KeptByWrites, KeptByDeletes, sync_record-server}
use powerdns.Samples.{alice, sample_db}
use powerdns.Reverse.{enclosing_zone}
use powerdns.Dict.{insert, lookup}

-- The server lists two zones, has no record, and logs each write with its zone.
abbrev Log : Type 0
Log = List (Text × Change)

abbrev logging : Api Log
logging = record {
  zones = λ s. (ok (text "2.0.192.in-addr.arpa." ∷ text "192.in-addr.arpa." ∷ []), s);
  rrsets = λ zone name rtype s. (ok [], s);
  patch = λ zone change s. (ok tt, (zone, change) ∷ s);
}

abbrev ptr_of : Text → Option Text
ptr_of address = some (text "1.2.0.192.in-addr.arpa.")

abbrev addresses : List Text
addresses = text "192.0.2.1" ∷ []

-- The PTR was another record's.
abbrev old_link : ReverseLink
old_link = record {
  forward_zone = text "example.org.";
  forward_name = text "old.example.org.";
  forward_type = text "A";
  address = text "192.0.2.1";
  reverse_zone = text "2.0.192.in-addr.arpa.";
  ptr_name = text "1.2.0.192.in-addr.arpa.";
}

abbrev linked : Db
linked = record sample_db { reverse_links = old_link ∷ [] }

abbrev www : Forward
www = forward (text "example.org") (text "www.example.org") (text "a") 300

plan_for_lem_example :
    let plan = plan_for logging ptr_of alice www addresses true none linked [] in
    IsPlanned ptr_of alice (linked_reverse_zones www.zone linked) addresses logging none [] plan
    × (true ≡ true
        → contains www.rtype address_types ≡ true
        → IsFull ptr_of alice (linked_reverse_zones www.zone linked) addresses plan)
plan_for_lem_example = plan_for_lem logging ptr_of alice www addresses true none linked []

sync_record_lem_example :
    Syncs www linked (plan_for logging ptr_of alice www addresses true none linked []) (
      sync_record logging ptr_of alice
        (text "example.org")
        (text "www.example.org")
        (text "a")
        300
        addresses
        true
        none
        linked
        [])
sync_record_lem_example =
    sync_record_lem logging ptr_of alice (text "example.org") (text "www.example.org") (text "a")
      300 addresses true none linked [] (tt, tt)

-- A server on which every PTR names the record.
abbrev naming : Api Log
naming = record logging {
  rrsets = λ zone name rtype s.
      (ok (record { name = name; rtype = rtype; contents = text "www.example.org." ∷ [] } ∷ []), s);
}

-- The record has a link to a PTR that it no longer wants, beside the link of another record.
abbrev stale_link : ReverseLink
stale_link = record {
  forward_zone = text "example.org.";
  forward_name = text "www.example.org.";
  forward_type = text "A";
  address = text "192.0.2.9";
  reverse_zone = text "2.0.192.in-addr.arpa.";
  ptr_name = text "9.2.0.192.in-addr.arpa.";
}

abbrev twice_linked : Db
twice_linked = record sample_db { reverse_links = old_link ∷ stale_link ∷ [] }

-- Zones that alice may edit are written, and no PTR is deleted but the one of the stale link.
abbrev IsOurs : Text × Change → Type 0
IsOurs (zone, replace name rtype ttl contents comments) = can_see_zone alice zone ≡ true
IsOurs (zone, delete name rtype) = name ≡ text "9.2.0.192.in-addr.arpa."

abbrev AllOurs : Log → Type 0
AllOurs log = All IsOurs log

reads_keep : KeptByReads naming ptr_of alice AllOurs
unfolding list_zones get_rrset
reads_keep = ((λ s h. h), (λ zone ptr s h. h))

writes_keep : KeptByWrites naming ptr_of alice AllOurs www
unfolding replace_rrset
writes_keep zone ptr s may h = (may, h)

stale_only : links_for_record www.zone www.name www.rtype twice_linked ≡ stale_link ∷ []
unfolding links_for_record eq_text canonical lower strip rstrip_dots upper
stale_only = refl

stale_name : canonical stale_link.ptr_name ≡ text "9.2.0.192.in-addr.arpa."
unfolding canonical lower strip eq_text rstrip_dots
stale_name = refl

deletes_keep : KeptByDeletes naming ptr_of alice AllOurs www twice_linked
unfolding delete_rrset
deletes_keep link current content s s' m e one ours h =
    let there = subst (Any (λ l. l ≡ link)) stale_only m in
    (
      elim there [
        | inl same ↦ ap (λ (l : ReverseLink). canonical l.ptr_name) (sym same) ∙ stale_name
        | inr none_else ↦ absurd none_else
      ],
      h,
    )

abbrev synced : Log
synced =
    (sync_record naming ptr_of alice (text "example.org") (text "www.example.org") (text "a") 300
      addresses true none twice_linked []).server

deletes_stale :
    find
      (λ (w : Text × Change). elim w.1 [ replace a b c d e ↦ false | delete name rtype ↦ true ])
      synced
    ≡ some (text "2.0.192.in-addr.arpa.", delete (text "9.2.0.192.in-addr.arpa.") (text "PTR"))
unfolding sync_record contains upper desire enclosing_zone linked_reverse_zones sorted list_zones
    apply drop_all links_for_record canonical lower strip rstrip_dots lookup by_name is_within
    ends_with can_see_zone insert get_rrset delete_rrset
deletes_stale = refl

sync_record-server_example : AllOurs synced
sync_record-server_example =
    sync_record-server naming ptr_of alice AllOurs (text "example.org") (text "www.example.org")
      (text "a") 300 addresses true none twice_linked [] reads_keep deletes_keep writes_keep tt
