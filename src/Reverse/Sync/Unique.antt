-- ===== src/Reverse/Sync/Unique.antt =====
-- No two links have the same PTR name, before and after a sync: the loops of sync_record of
-- webui/app/reverse.py
-- keep what the table's constraint says.
use powerdns.Prelude.{ℕ, Bool, Option, List, [], ◌∷◌, if_elim, subst, sym, if◌then◌else◌}
use powerdns.Text.{Text}
use powerdns.Store.{User, ReverseLink, Db}
use powerdns.Pdns.{Reply, ok, pdns_error, Api}
use powerdns.Reverse.Links.{links_for_record}
use powerdns.Reverse.Links.Table.{HasUniquePtrs}
use powerdns.Reverse.Links.Unique.{set_link-HasUniquePtrs, remove_link-HasUniquePtrs}
use powerdns.Reverse.Sync.{
  Forward, Plan, Work, Desired, Ptr, link_of, is_desired, forward, written_to, write_all, write_ptr,
  drop_link, drop_all, apply, finish, plan_for, sync_record,
}
use powerdns.Reverse.Sync.Loops.{links-delete_if_ours}

module _ {S : Type 0} (api : Api S) (ptr_of : Text → Option Text) (user : User) where
  written_to-HasUniquePtrs :
      (f : Forward) (p : Ptr) (r : Reply Unit × S) (w : Work S)
      → HasUniquePtrs w.links
      → HasUniquePtrs (written_to api ptr_of user f p r w).links
  written_to-HasUniquePtrs f p (pdns_error e, s) w u = u
  written_to-HasUniquePtrs f p (ok _, s) w u = set_link-HasUniquePtrs (link_of f p) w.links u

  write_all-HasUniquePtrs :
      (f : Forward) (ps : List Ptr) (w : Work S)
      → HasUniquePtrs w.links
      → HasUniquePtrs (write_all api ptr_of user f ps w).links
  unfolding write_all
  write_all-HasUniquePtrs f [] w u = u
  write_all-HasUniquePtrs f (p ∷ ps) w u =
      write_all-HasUniquePtrs f ps (write_ptr api ptr_of user f p w)
        (written_to-HasUniquePtrs f p _ w u)

  drop_all-HasUniquePtrs :
      (desired : Desired) (existing : List ReverseLink) (w : Work S)
      → HasUniquePtrs w.links
      → HasUniquePtrs (drop_all api ptr_of user desired existing w).links
  unfolding drop_all
  drop_all-HasUniquePtrs desired [] w u = u
  drop_all-HasUniquePtrs desired (l ∷ ls) w u =
      drop_all-HasUniquePtrs desired ls
        (if is_desired desired l.ptr_name then w else drop_link api ptr_of user l w)
        (if_elim (λ (w' : Work S). HasUniquePtrs w'.links) (is_desired desired l.ptr_name) (λ _. u)
          (λ _.
            remove_link-HasUniquePtrs l.ptr_name _
              (subst HasUniquePtrs (sym (links-delete_if_ours api ptr_of user l _ w)) u)))

  finish-HasUniquePtrs :
      (f : Forward) (db : Db) (r : Reply Plan × S)
      → HasUniquePtrs db.reverse_links
      → HasUniquePtrs (finish api ptr_of user f db r).db.reverse_links
  unfolding apply
  finish-HasUniquePtrs f db (pdns_error e, s) u = u
  finish-HasUniquePtrs f db (ok p, s) u =
      drop_all-HasUniquePtrs p.desired (links_for_record f.zone f.name f.rtype db) _ (
        write_all-HasUniquePtrs f p.desired
          (record { server = s; links = db.reverse_links; result = p.result }) u)

  pub sync_record-HasUniquePtrs :
      (zone name rtype : Text) (ttl : ℕ) (addresses : List Text) (enabled : Bool)
      (zone_names : Option (List Text)) (db : Db) (s : S)
      → HasUniquePtrs db.reverse_links
      → HasUniquePtrs
          (sync_record api ptr_of user zone name rtype ttl addresses enabled zone_names db
            s).db.reverse_links
  unfolding sync_record
  sync_record-HasUniquePtrs zone name rtype ttl addresses enabled zone_names db s u =
      finish-HasUniquePtrs (forward zone name rtype ttl) db
        (plan_for api ptr_of user (forward zone name rtype ttl) addresses enabled zone_names db s) u
