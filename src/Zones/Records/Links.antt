-- ===== src/Zones/Records/Links.antt =====
-- The links between address records and their PTRs, after save_record and delete_record of
-- webui/app/views/zones.py.
use powerdns.Prelude.{
  ℕ, ◌≡◌, Bool, true, false, ◌||◌, Option, none, some, List, subst, sym, if_elim,
}
use powerdns.Text.{Text, text, eq_text}
use powerdns.Names.{canonical}
use powerdns.Form.{Form}
use powerdns.Store.{User, ReverseLink, Db, record_audit}
use powerdns.DnsUtil.Records.{ParsedName}
use powerdns.Pdns.Zones.{ZoneApi}
use powerdns.Reverse.Links.{link_for_ptr, forget_ptr}
use powerdns.Reverse.Links.Table.{HasUniquePtrs}
use powerdns.Reverse.Links.Unique.{forget_ptr-HasUniquePtrs}
use powerdns.Reverse.Sync.{names_record}
use powerdns.Zones.{unlink_edited, unlink_edited_ptr, Handled}
use powerdns.Zones.Sync.{sync_reverse}
use powerdns.Zones.Sync.Links.{sync_reverse-HasUniquePtrs}
use powerdns.Zones.Records.{
  Outcome, Submission, unlink_if_ptr, forget_previous, target_of, deleted_target, after_save,
  save_record, after_delete, delete_record, is_address, is_some,
}
use powerdns.Zones.Records.Paths.{IsQuiet, save_record-elim, delete_record-elim}

module _ {S : Type 0} (api : ZoneApi S) (ptr_of : Text → Option Text)
    (from_text : Text → Option ParsedName) (known_type : Text → Bool) (parses : Text → Text → Bool)
    (default_ttl : ℕ) (addr : Text) where
  -- What forgetting a PTR keeps, the steps that follow a sync keep.
  module _ (Q : List ReverseLink → Type 0)
      (forget : (ptr : Text) (db : Db)
        → Q db.reverse_links
        → Q (forget_ptr ptr db).1.reverse_links) where
    unlink_edited-keeps :
        (o : Option ReverseLink) (name : Text) (contents : List Text) (db : Db)
        → Q db.reverse_links
        → Q (unlink_edited o name contents db).reverse_links
    unlink_edited-keeps none name contents db q = q
    unlink_edited-keeps (some link) name contents db q =
        if_elim (λ (d : Db). Q d.reverse_links) (names_record contents link) (λ _. q)
          (λ _. forget name db q)

    unlink_edited_ptr-keeps :
        (name : Text) (contents : List Text) (db : Db)
        → Q db.reverse_links
        → Q (unlink_edited_ptr name contents db).reverse_links
    unfolding unlink_edited_ptr
    unlink_edited_ptr-keeps name contents db q =
        unlink_edited-keeps (link_for_ptr name db) name contents db q

    unlink_if_ptr-keeps :
        (sub : Submission) (db : Db) → Q db.reverse_links → Q (unlink_if_ptr sub db).reverse_links
    unlink_if_ptr-keeps sub db q =
        if_elim (λ (d : Db). Q d.reverse_links) (eq_text sub.rtype (text "PTR"))
          (λ _. unlink_edited_ptr-keeps sub.name sub.contents db q) (λ _. q)

    forget_previous-keeps :
        (previous : Option (Text × Text)) (db : Db)
        → Q db.reverse_links
        → Q (forget_previous previous db).reverse_links
    forget_previous-keeps none db q = q
    forget_previous-keeps (some (name, rtype)) db q =
        if_elim (λ (d : Db). Q d.reverse_links) (eq_text rtype (text "PTR")) (λ _. forget name db q)
          (λ _. q)

    pub after_save-keeps :
        (zone_name : Text) (sub : Submission) (u : User) (db : Db) (s : S)
        → (is_address sub.rtype || is_some sub.previous ≡ true
            → Q
                (sync_reverse api.records ptr_of addr u sub.previous
                  (target_of zone_name sub)
                  db
                  s).db.reverse_links)
        → (is_address sub.rtype || is_some sub.previous ≡ false → Q db.reverse_links)
        → Q
            (after_save api ptr_of from_text known_type parses default_ttl addr zone_name sub u db
              s).db.reverse_links
    unfolding after_save
    after_save-keeps zone_name sub u db s synced plain =
        if_elim (λ (h : Handled Outcome S). Q h.db.reverse_links)
          (is_address sub.rtype || is_some sub.previous)
          (λ e. forget_previous-keeps sub.previous _ (unlink_if_ptr-keeps sub _ (synced e)))
          (λ e. forget_previous-keeps sub.previous _ (unlink_if_ptr-keeps sub _ (plain e)))

    pub after_delete-keeps :
        (zone_name name rtype : Text) (u : User) (db : Db) (s : S)
        → (is_address rtype ≡ true
            → Q
                (sync_reverse api.records ptr_of addr u none
                  (deleted_target default_ttl zone_name name rtype)
                  db
                  s).db.reverse_links)
        → (is_address rtype ≡ false → Q db.reverse_links)
        → Q
            (after_delete api ptr_of from_text known_type parses default_ttl addr zone_name name
              rtype u db s).db.reverse_links
    unfolding after_delete
    after_delete-keeps zone_name name rtype u db s synced plain =
        if_elim (λ (h : Handled Outcome S). Q h.db.reverse_links) (is_address rtype) synced
          (λ e.
            if_elim (λ (h : Handled Outcome S). Q h.db.reverse_links) (eq_text rtype (text "PTR"))
              (λ _. forget name db (plain e)) (λ _. plain e))

  -- If no two links have the same PTR name, then no two have after a request to save or to delete a
  -- record set, whatever its outcome, its user and the server's answers.
  pub records-HasUniquePtrs :
      (zone_id : Text) (form : Form) (user : Option User) (db : Db) (s : S)
      → HasUniquePtrs db.reverse_links
      → HasUniquePtrs
          (save_record api ptr_of from_text known_type parses default_ttl addr zone_id form user db
            s).db.reverse_links
        × HasUniquePtrs
            (delete_record api ptr_of from_text known_type parses default_ttl addr zone_id form user
              db s).db.reverse_links
  unfolding record_audit
  records-HasUniquePtrs zone_id form user db s u =
      let P : Handled Outcome S → Type 0 = λ h. HasUniquePtrs h.db.reverse_links in
      let quiet : (h : Handled Outcome S)
          → IsQuiet api ptr_of from_text known_type parses default_ttl addr db h
          → P h =
        λ h q. subst HasUniquePtrs (sym q.0) u in
      (
        save_record-elim api ptr_of from_text known_type parses default_ttl addr P zone_id form db
            quiet
            (λ v s'.
              after_save-keeps HasUniquePtrs forget_ptr-HasUniquePtrs (canonical zone_id) _ v _ s'
                (λ _. sync_reverse-HasUniquePtrs api.records ptr_of addr v _ _ _ s' u) (λ _. u))
            user s,
        delete_record-elim api ptr_of from_text known_type parses default_ttl addr P zone_id form db
            quiet
            (λ v s'.
              after_delete-keeps HasUniquePtrs forget_ptr-HasUniquePtrs (canonical zone_id) _ _ v _
                s' (λ _. sync_reverse-HasUniquePtrs api.records ptr_of addr v _ _ _ s' u) (λ _. u))
            user s,
      )
