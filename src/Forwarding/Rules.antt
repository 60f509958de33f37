-- ===== src/Forwarding/Rules.antt =====
-- Which rules of the Recursor a request of webui/app/views/forwarding.py touches.
use powerdns.Prelude.{
  ◌≡◌, ◌≢◌, inl, inr, refl, Bool, true, false, not, ◌&&◌, Option, List, [], ◌∷◌, ◌++◌, is_empty,
  if_elim,
}
use powerdns.Text.{Text, text, eq_text, strip}
use powerdns.Text.Laws.{eq_text_iff}
use powerdns.Names.{canonical}
use powerdns.Form.{Form, field, is_on}
use powerdns.Store.{User, Db}
use powerdns.Session.Operators.{IsOperator-cases}
use powerdns.Pdns.{Reply, ok, pdns_error, Api, list_zones}
use powerdns.Pdns.Zones.{and_then}
use powerdns.Text.Sets.{not_empty}
use powerdns.Recursor.{ForwardZone, Address, Checked, fine, value_error, RecursorApi, parse_servers}
use powerdns.Recursor.Client.{
  LocalSync, save_forward_zone, delete_forward_zone, forward_zones, sync_local_zones,
}
use powerdns.Recursor.Config.{
  RecursorConfig, is_configured, LocalTarget, target_at, no_dns_address, bad_dns_address,
  local_zone_target,
}
use powerdns.Zones.{Hosted}
use powerdns.Forwarding.{
  SaveProblem, Outcome, dns_port, root_zone, server_reports, servers_of, written, write_rule,
  drop_original, save_problems, save_checked, cleared, save_root, save_global, removed, delete,
  is_changed, reconciled, sync_to, sync_with, sync, Request, create, edit, save_globally, remove,
  resync, index, relisted, index_at, sign_in_first, refused, unconfigured, invalid, api_failed,
  saved, deleted, up_to_date, synced, Outcome, run, handle,
}

both_true : (a b : Bool) → (a && b) ≡ true → (a ≡ true) × (b ≡ true)
both_true true true e = (refl, refl)
both_true true false e = cc
both_true false b e = cc

-- With no problem reported the forwarders have been read.
fine_of :
    (xs : List SaveProblem) (c : Checked (List Text))
    → xs ++ server_reports c ≡ []
    → c ≡ fine (servers_of c)
fine_of xs (fine servers) e = refl
fine_of [] (value_error p) e = cc
fine_of (x ∷ xs) (value_error p) e = cc

module _ {S R : Type 0} (api : Api S) (recursor : RecursorApi R)
    (ip_address : Text → Option Address) (not_found : Text → Bool) (config : RecursorConfig)
    (addr : Text) (P : R → Type 0) where
  abbrev form_name : Form → Text
  form_name form = canonical (strip (field form (text "name")))

  -- Saving the rule of the form's name, to the forwarders that the form lists.
  abbrev Saves : Form → Type 0
  Saves form =
      (servers : List Text) (r : R)
      → parse_servers ip_address (field form (text "servers")) dns_port ≡ fine servers
      → P r
      → P
          (save_forward_zone recursor (form_name form) servers
            (is_on form (text "recursion_desired")) r).1

  -- Syncing the rules with the target that is configured.
  abbrev Syncs : Type 0
  Syncs =
      (names : List Text) (t : Text) (r : R)
      → local_zone_target ip_address config ≡ target_at t
      → P r
      → P (sync_local_zones recursor names t r).1

  -- What a request may do to the Recursor keeps P.
  abbrev pub Permits : Request → Type 0
  Permits (create form) = Saves form
  Permits (edit name form) =
      Saves form
      × ((r : R)
          → canonical name ≢ form_name form
          → P r
          → P (delete_forward_zone recursor name r).1)
  Permits (save_globally form) =
      ((r : R) → P r → P (delete_forward_zone recursor root_zone r).1)
      × ((servers : List Text) (r : R)
          → parse_servers ip_address (field form (text "servers")) dns_port ≡ fine servers
          → P r
          → P (save_forward_zone recursor root_zone servers true r).1)
  Permits (remove name) = (r : R) → P r → P (delete_forward_zone recursor name r).1
  Permits resync = Syncs
  Permits index = ((r : R) → P r → P (forward_zones recursor r).1) × Syncs

  written-recursor :
      (name detail : Text) (db : Db) (s : S) (a : Reply Unit × R)
      → P a.1
      → P (written api recursor ip_address not_found config addr name detail db s a).recursor
  written-recursor name detail db s (pdns_error e, r) p = p
  written-recursor name detail db s (ok _, r) p = p

  -- The second request is made only once the first has succeeded.
  then-recursor :
      (a : Reply Unit × R) (f : Unit → R → Reply Unit × R)
      → P a.1
      → ((r : R) → P r → P (f tt r).1)
      → P (and_then a f).1
  then-recursor (pdns_error e, r) f p g = p
  then-recursor (ok tt, r) f p g = g r p

  drop_original-recursor :
      (original_name name : Text) (r : R)
      → (original_name ≢ []
          → canonical original_name ≢ name
          → P r
          → P (delete_forward_zone recursor original_name r).1)
      → P r
      → P (drop_original api recursor ip_address not_found config addr original_name name r).1
  drop_original-recursor original_name name r d p =
      if_elim (λ (f : R → Reply Unit × R). P (f r).1)
        (not (is_empty original_name) && not (eq_text (canonical original_name) name))
        (λ e.
          let (there, other) = both_true _ _ e in
          d ((not_empty original_name).0 there)
            (λ same. cc (other, (eq_text_iff (canonical original_name) name).1 same)) p)
        (λ _. p)

  save_checked-recursor :
      (ps : List SaveProblem) (original_name : Text) (form : Form) (db : Db) (s : S) (r : R)
      → save_problems api recursor ip_address not_found config addr form ≡ ps
      → Saves form
      → ((r' : R)
          → original_name ≢ []
          → canonical original_name ≢ form_name form
          → P r'
          → P (delete_forward_zone recursor original_name r').1)
      → P r
      → P
          (save_checked api recursor ip_address not_found config addr ps original_name form db s
            r).recursor
  unfolding save_checked write_rule save_problems
  save_checked-recursor [] original_name form db s r e saves drops p = written-recursor _ _ db s _ (
      then-recursor
        (drop_original api recursor ip_address not_found config addr original_name (form_name form)
          r)
        _ (drop_original-recursor original_name (form_name form) r (drops r) p)
        (λ r' p'.
          saves _ r' (fine_of _ (parse_servers ip_address (field form (text "servers")) dns_port) e)
            p'))
  save_checked-recursor (q ∷ ps) original_name form db s r e saves drops p = p

  cleared-recursor :
      (db : Db) (s : S) (a : Reply Unit × R)
      → P a.1
      → P (cleared api recursor ip_address not_found config addr db s a).recursor
  cleared-recursor db s (ok _, r) p = p
  cleared-recursor db s (pdns_error e, r) p =
      if_elim (λ (h : Hosted Outcome S R). P h.recursor) (not_found e) (λ _. p) (λ _. p)

  save_root-recursor :
      (servers : Checked (List Text)) (db : Db) (s : S) (r : R)
      → ((ts : List Text)
          → servers ≡ fine ts
          → P r
          → P (save_forward_zone recursor root_zone ts true r).1)
      → P r
      → P (save_root api recursor ip_address not_found config addr servers db s r).recursor
  save_root-recursor (value_error q) db s r saves p = p
  save_root-recursor (fine ts) db s r saves p = written-recursor _ _ db s _ (saves ts refl p)

  removed-recursor :
      (name : Text) (db : Db) (s : S) (a : Reply Unit × R)
      → P a.1
      → P (removed api recursor ip_address not_found config addr name db s a).recursor
  removed-recursor name db s (pdns_error e, r) p = p
  removed-recursor name db s (ok _, r) p = p

  reconciled-recursor :
      (db : Db) (s : S) (a : Reply LocalSync × R)
      → P a.1
      → P (reconciled api recursor ip_address not_found config addr db s a).recursor
  reconciled-recursor db s (pdns_error e, r) p = p
  reconciled-recursor db s (ok result, r) p =
      if_elim (λ (h : Hosted Outcome S R). P h.recursor) (is_changed result) (λ _. p) (λ _. p)

  sync_to-recursor :
      (t : Text) (db : Db) (r : R) (a : Reply (List Text) × S)
      → ((names : List Text) → P (sync_local_zones recursor names t r).1)
      → P r
      → P (sync_to api recursor ip_address not_found config addr t db r a).recursor
  sync_to-recursor t db r (pdns_error e, s) syncs p = p
  sync_to-recursor t db r (ok names, s) syncs p = reconciled-recursor db s _ (syncs names)

  sync_with-recursor :
      (l : LocalTarget) (db : Db) (s : S) (r : R)
      → ((names : List Text) (t : Text)
          → l ≡ target_at t
          → P (sync_local_zones recursor names t r).1)
      → P r
      → P (sync_with api recursor ip_address not_found config addr l db s r).recursor
  sync_with-recursor no_dns_address db s r syncs p = p
  sync_with-recursor (bad_dns_address q) db s r syncs p = p
  sync_with-recursor (target_at t) db s r syncs p =
      sync_to-recursor t db r (list_zones api s) (λ names. syncs names t refl) p

  relisted-recursor :
      (o : Outcome) (r : R)
      → ((r : R) → P r → P (forward_zones recursor r).1)
      → P r
      → P (relisted api recursor ip_address not_found config addr o r)
  relisted-recursor (synced result) r reads p = reads r p
  relisted-recursor sign_in_first r reads p = p
  relisted-recursor refused r reads p = p
  relisted-recursor unconfigured r reads p = p
  relisted-recursor (invalid ps) r reads p = p
  relisted-recursor (api_failed e) r reads p = p
  relisted-recursor saved r reads p = p
  relisted-recursor deleted r reads p = p
  relisted-recursor up_to_date r reads p = p

  index_at-recursor :
      (db : Db) (s : S) (a : Reply (List ForwardZone) × R)
      → ((r : R) → P r → P (forward_zones recursor r).1)
      → Syncs
      → P a.1
      → P (index_at api recursor ip_address not_found config addr db s a).recursor
  unfolding sync
  index_at-recursor db s (pdns_error e, r) reads syncs p = p
  index_at-recursor db s (ok zones, r) reads syncs p =
      relisted-recursor _ _ reads (sync_with-recursor _ db s r (λ names t e. syncs names t r e p) p)

  run-recursor :
      (q : Request) (db : Db) (s : S) (r : R)
      → Permits q
      → P r
      → P (run api recursor ip_address not_found config addr q db s r).recursor
  unfolding run save_global delete sync
  run-recursor (create form) db s r saves p =
      save_checked-recursor _ [] form db s r refl saves (λ r' there. absurd (there refl)) p
  run-recursor (edit name form) db s r (saves, drops) p =
      save_checked-recursor _ name form db s r refl saves (λ r' there. drops r') p
  run-recursor (save_globally form) db s r (drops, saves) p =
      if_elim (λ (h : Hosted Outcome S R). P h.recursor)
        (is_empty (strip (field form (text "servers")))) (λ _. cleared-recursor db s _ (drops r p))
        (λ _. save_root-recursor _ db s r (λ ts e. saves ts r e) p)
  run-recursor (remove name) db s r drops p = removed-recursor name db s _ (drops r p)
  run-recursor resync db s r syncs p =
      sync_with-recursor _ db s r (λ names t e. syncs names t r e p) p
  run-recursor index db s r (reads, syncs) p =
      index_at-recursor db s (forward_zones recursor r) reads syncs (reads r p)

  -- Whatever holds of the Recursor is kept by a request on the forward zones, if what the request is
  -- for keeps it: a form saves a rule for its own name only, with the forwarders that it lists if all of
  -- them can be read, and an edit may first delete the rule of the name that it was opened for, if that
  -- is another name; the global forwarders are saved or deleted under the root, a deletion deletes the
  -- named rule, and a sync, like the index page, which also lists the rules, brings them in step with the target that is
  -- configured.
  pub handle-recursor :
      (q : Request) (user : Option User) (db : Db) (s : S) (r : R)
      → Permits q
      → P r
      → P (handle api recursor ip_address not_found config addr q user db s r).recursor
  unfolding handle
  handle-recursor q user db s r permits p = elim (IsOperator-cases user) [
    | inl (e, g) ↦ rw g p
    | inr (inl (u, e, no_op, g)) ↦ rw g p
    | inr (inr (u, e, op, g)) ↦ rw g (
        if_elim (λ (h : Hosted Outcome S R). P h.recursor) (is_configured config)
          (λ _. run-recursor q db s r permits p) (λ _. p))
  ]
