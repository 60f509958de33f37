-- ===== src/Zones/Records/Tests.antt =====
-- Saves and deletions of record sets on a server that keeps a log of the writes.
use powerdns.Prelude.{◌&&◌, not, ◌≡◌, refl, true, false, some, [], ◌∷◌}
use powerdns.Text.{strip, rstrip_dots, ends_with, lower, decimal, upper, contains, Text, text}
use powerdns.Form.{Form, field}
use powerdns.Names.{absolute_name, canonical}
use powerdns.Store.{record_audit, can_see_zone, ReverseLink, Db}
use powerdns.Pdns.{ok, get_rrset, replace_rrset, delete_rrset, delete, replace}
use powerdns.Reverse.Links.Table.{HasUniquePtrs}
use powerdns.Reverse.Sync.{no_result, write_all, drop_all, apply, sync_record, forward}
use powerdns.Reverse.Sync.Retired.{OwnsNone}
use powerdns.Samples.{alice, sample_db}
use powerdns.Zones.{Handled}
use powerdns.Zones.Samples.{Log, logging, ptr_of, from_text, known_type, parses, record_set}
use powerdns.Zones.Records.{
  after_delete, delete_set, deleted, Submission, is_address, type_field, after_save, write_set,
  problems_of, submission, save_set, Outcome, save_record, delete_record, saved, api_failed,
}
use powerdns.Zones.Records.Outcomes.{Guarded, SaveLeaves, save_record_lem}
use powerdns.Zones.Records.Links.{records-HasUniquePtrs}
use powerdns.Zones.Records.Ptrs.{records-OwnsNone}
use powerdns.Session.{require_zone_access}
use powerdns.DnsUtil.{validate_ttl}
use powerdns.DnsUtil.Records.{validate_content, content_reports, validate_name, validate_rrset}
use powerdns.Pdns.Zones.{zone_rrsets}
use powerdns.Zones.Sync.{sync_target, sync_stale, sync_reverse}
use powerdns.Reverse.Links.{remove_link, links_for_record}
use powerdns.Dict.{lookup}

abbrev old_link : ReverseLink
old_link = record {
  forward_zone = text "example.org.";
  forward_name = text "old.example.org.";
  forward_type = text "A";
  address = text "192.0.2.1";
  reverse_zone = text "2.0.192.in-addr.arpa.";
  ptr_name = text "1.2.0.192.in-addr.arpa.";
}

abbrev linked : Db
linked = record sample_db { reverse_links = old_link ∷ [] }

abbrev here : Text
here = text "example.org."

-- A rename of an address record, with its PTR switched off.
abbrev renaming : Form
renaming =
    (text "type", text "a ")
    ∷ (text "name", text "new")
    ∷ (text "content", text "192.0.2.1")
    ∷ (text "original_name", text "old")
    ∷ (text "original_type", text "A")
    ∷ []

abbrev renamed : Handled Outcome Log
renamed =
    save_record logging ptr_of from_text known_type parses 300 (text "::1") here renaming
      (some alice) linked []

-- The same form sent to the deletion.
abbrev unrenamed : Handled Outcome Log
unrenamed =
    delete_record logging ptr_of from_text known_type parses 300 (text "::1") here renaming
      (some alice) linked []

abbrev removal : Form
removal = (text "type", text "A") ∷ (text "name", text "old") ∷ []

abbrev removed : Handled Outcome Log
removed =
    delete_record logging ptr_of from_text known_type parses 300 (text "::1") here removal
      (some alice) linked []

-- The rename deletes the old set before it writes the new one.
renamed_log :
    renamed.server
    ≡ record_set here
        (replace (text "new.example.org.") (text "A") 300 ((text "192.0.2.1", false) ∷ []) [])
      ∷ record_set here (delete (text "old.example.org.") (text "A"))
      ∷ []
unfolding save_record require_zone_access can_see_zone contains save_set submission upper
    problems_of validate_ttl decimal validate_rrset validate_name lower ends_with canonical
    rstrip_dots content_reports validate_content zone_rrsets write_set delete_rrset replace_rrset
    after_save sync_reverse sync_stale sync_record sync_target apply drop_all links_for_record
    record_audit lookup remove_link get_rrset write_all
renamed_log = refl

-- A rename from a SOA deletes the SOA, which delete_record refuses to do.
abbrev overwriting : Form
overwriting =
    (text "type", text "A")
    ∷ (text "name", text "@")
    ∷ (text "content", text "192.0.2.1")
    ∷ (text "original_name", text "@")
    ∷ (text "original_type", text "SOA")
    ∷ []

soa_log :
    (save_record logging ptr_of from_text known_type parses 300
      (text "::1")
      here
      overwriting
      (some alice)
      sample_db
      []).server
    ≡ record_set here (replace here (text "A") 300 ((text "192.0.2.1", false) ∷ []) [])
      ∷ record_set here (delete here (text "SOA"))
      ∷ []
unfolding save_record require_zone_access can_see_zone contains save_set submission upper
    problems_of validate_ttl decimal validate_rrset validate_name lower ends_with canonical
    rstrip_dots content_reports validate_content zone_rrsets write_set delete_rrset replace_rrset
    after_save sync_reverse sync_stale sync_record sync_target apply drop_all links_for_record
    record_audit lookup remove_link get_rrset write_all
soa_log = refl

-- Where the server takes the deletion and refuses the new set, a rename has lost the old set.
abbrev lost : Handled Outcome Log
lost =
    save_record logging ptr_of from_text known_type parses 300 (text "::1") (text "locked.")
      renaming (some alice) linked []

lost_log :
    (lost.server ≡ record_set (text "locked.") (delete (text "old.locked.") (text "A")) ∷ [])
    × (lost.outcome ≡ api_failed (text "zone is locked"))
    × (lost.db.reverse_links ≡ old_link ∷ [])
unfolding save_record require_zone_access can_see_zone contains save_set submission upper
    problems_of validate_ttl decimal validate_rrset validate_name lower ends_with canonical
    rstrip_dots content_reports validate_content zone_rrsets write_set delete_rrset replace_rrset
    after_save sync_reverse sync_stale sync_record sync_target apply drop_all links_for_record
    record_audit lookup remove_link get_rrset write_all
lost_log = (refl, refl, refl)

removed_outcome : removed.outcome ≡ deleted (some (ok no_result))
unfolding delete_record require_zone_access can_see_zone contains delete_set strip upper field
    delete_rrset after_delete sync_reverse sync_target sync_record apply drop_all links_for_record
    record_audit canonical lower rstrip_dots absolute_name ends_with lookup get_rrset write_all
removed_outcome = refl

renamed_outcome : renamed.outcome ≡ saved (some (ok no_result))
unfolding save_record require_zone_access can_see_zone contains save_set submission upper
    problems_of validate_ttl decimal validate_rrset validate_name lower ends_with canonical
    rstrip_dots content_reports validate_content zone_rrsets write_set delete_rrset replace_rrset
    after_save sync_reverse sync_stale sync_record sync_target apply drop_all links_for_record
    record_audit lookup remove_link get_rrset write_all
renamed_outcome = refl

save_record_lem_example :
    Guarded logging ptr_of from_text known_type parses 300
      (text "::1")
      (canonical here)
      (some alice)
      linked
      []
      renamed
      (λ u.
        SaveLeaves logging ptr_of from_text known_type parses 300
          (text "::1")
          here
          renaming
          u
          linked
          []
          renamed
          renamed.outcome)
save_record_lem_example =
    save_record_lem logging ptr_of from_text known_type parses 300 (text "::1") here renaming
      (some alice) linked []

records-HasUniquePtrs_example :
    HasUniquePtrs renamed.db.reverse_links
    × HasUniquePtrs
        (delete_record logging ptr_of from_text known_type parses 300
          (text "::1")
          here
          renaming
          (some alice)
          linked
          []).db.reverse_links
records-HasUniquePtrs_example =
    records-HasUniquePtrs logging ptr_of from_text known_type parses 300 (text "::1") here renaming
      (some alice) linked [] (tt, tt)

abbrev written_set : Submission
written_set = submission 300 renaming (canonical here)

records-OwnsNone_example :
    (renamed.outcome ≡ saved (some (ok no_result))
      → ((p : Text × Text)
          → written_set.previous ≡ some p
          → OwnsNone (forward (canonical here) p.0 p.1 written_set.ttl) renamed.db)
        × (is_address written_set.rtype ≡ true
            → (written_set.sync_ptr && not written_set.disabled) ≡ false
            → OwnsNone
                (forward (canonical here) written_set.name written_set.rtype written_set.ttl)
                renamed.db))
    × (is_address (type_field renaming (text "type")) ≡ true
        → unrenamed.outcome ≡ deleted (some (ok no_result))
        → OwnsNone
            (forward
              (canonical here)
              (absolute_name (field renaming (text "name")) (canonical here))
              (type_field renaming (text "type"))
              300)
            unrenamed.db)
records-OwnsNone_example =
    records-OwnsNone logging ptr_of from_text known_type parses 300 (text "::1") here renaming
      (some alice) linked [] (some (ok no_result)) (tt, tt)

-- The hypotheses of both parts hold here.
written_type : is_address written_set.rtype ≡ true
unfolding contains submission upper
written_type = refl

written_off : (written_set.sync_ptr && not written_set.disabled) ≡ false
unfolding submission
written_off = refl
