-- ===== src/Zones/Delete/Outcomes.antt =====
-- What the deletion of a zone by webui/app/views/zones.py leaves on each branch.
use powerdns.Prelude.{
  ◌≡◌, ◌≢◌, ◌↔◌, inl, inr, refl, true, not, ◌||◌, Option, none, some, List, [], ◌∷◌, keep, Any,
  if_elim, arith,
}
use powerdns.Text.{Text, text, eq_text}
use powerdns.Text.Laws.{eq_text_iff}
use powerdns.Names.{canonical}
use powerdns.Names.Canonical.{canonical_idem}
use powerdns.Form.{Form, field}
use powerdns.Store.{User, ReverseLink, ZoneReverseLink, Db, record_audit}
use powerdns.Session.Operators.{IsOperator, IsOperator-cases}
use powerdns.Store.Audit.{NotesFailure}
use powerdns.Pdns.{Reply, ok, pdns_error}
use powerdns.Pdns.Zones.{ZoneApi, delete_zone}
use powerdns.Reverse.Links.{forget_zone, forget_zone_links}
use powerdns.Recursor.{Address, RecursorApi}
use powerdns.Recursor.Config.{RecursorConfig}
use powerdns.Zones.{Hosted}
use powerdns.Zones.Resolver.{forward_locally}
use powerdns.Zones.Delete.{
  DeleteOutcome, sign_in_first, refused, not_confirmed, api_failed, done, after_deletion,
  delete_confirmed, delete,
}

-- The rows that are left: those that were there and have nothing to do with the zone.
abbrev pub Forgets : Text → Db → Db → Type 0
Forgets zone db db' =
    ((l : ReverseLink)
      → Any (λ m. m ≡ l) db'.reverse_links
        ↔ (Any (λ m. m ≡ l) db.reverse_links × (l.forward_zone ≢ zone) × (l.reverse_zone ≢ zone)))
    × ((l : ZoneReverseLink)
        → Any (λ m. m ≡ l) db'.zone_reverse_links ↔ (
            Any (λ m. m ≡ l) db.zone_reverse_links
            × (l.forward_zone ≢ zone)
            × (l.reverse_zone ≢ zone)))

kept_iff :
    {A : Type 0} (forward reverse : A → Text) (zone : Text) (l : A) (ls : List A)
    → Any (λ m. m ≡ l) (keep (λ m. not (eq_text (forward m) zone || eq_text (reverse m) zone)) ls)
      ↔ (Any (λ m. m ≡ l) ls × (forward l ≢ zone) × (reverse l ≢ zone))
kept_iff forward reverse zone l [] = ground arith
kept_iff forward reverse zone l (m ∷ ls) = ground (
  arith,
  kept_iff forward reverse zone l ls,
  eq_text_iff (forward m) zone,
  eq_text_iff (reverse m) zone,
  eq_text_iff (forward l) zone,
  eq_text_iff (reverse l) zone,
)

forget_zone-Forgets :
    (zone : Text) (db : Db) → canonical zone ≡ zone → Forgets zone db (forget_zone zone db)
unfolding forget_zone forget_zone_links
forget_zone-Forgets zone db e = rw e (
  (λ l.
      kept_iff (λ (m : ReverseLink). m.forward_zone) (λ (m : ReverseLink). m.reverse_zone) zone l
        db.reverse_links),
  (λ l.
      kept_iff (λ (m : ZoneReverseLink). m.forward_zone) (λ (m : ZoneReverseLink). m.reverse_zone)
        zone l db.zone_reverse_links),
)

module _ {S R : Type 0} (api : ZoneApi S) (recursor : RecursorApi R)
    (ip_address : Text → Option Address) (config : RecursorConfig) (addr : Text) (zone_id : Text)
    (form : Form) where
  -- The name that the operator typed.
  abbrev typed : Text
  typed = canonical (field form (text "confirm"))

  -- What a deletion leaves, by its outcome.
  abbrev pub DeleteLeaves :
      Option User → Db → S → R → Hosted DeleteOutcome S R → DeleteOutcome → Type 0
  DeleteLeaves user db s r h sign_in_first =
      (user ≡ none) × (h.db ≡ db) × (h.server ≡ s) × (h.recursor ≡ r)
  DeleteLeaves user db s r h refused =
      (u : User) × (user ≡ some u)
      × ¬ IsOperator u
      × (h.db ≡ db)
      × (h.server ≡ s)
      × (h.recursor ≡ r)
  DeleteLeaves user db s r h not_confirmed =
      (typed ≢ canonical zone_id) × (h.db ≡ db) × (h.server ≡ s) × (h.recursor ≡ r)
  DeleteLeaves user db s r h (api_failed e) =
      (u : User) × (user ≡ some u)
      × IsOperator u
      × (typed ≡ canonical zone_id)
      × (delete_zone api zone_id s ≡ (pdns_error e, h.server))
      × NotesFailure (canonical zone_id) e db h.db
      × (h.recursor ≡ r)
  DeleteLeaves user db s r h (done forwarding) =
      (u : User) × (user ≡ some u)
      × IsOperator u
      × (typed ≡ canonical zone_id)
      × (delete_zone api zone_id s ≡ (ok tt, h.server))
      × Forgets (canonical zone_id) db h.db
      × (forward_locally recursor ip_address config (canonical zone_id) true r
          ≡ (forwarding, h.recursor))

  after_deletion-DeleteLeaves :
      (u : User) (db : Db) (s : S) (r : R) (answer : Reply Unit × S)
      → IsOperator u
      → typed ≡ canonical zone_id
      → delete_zone api zone_id s ≡ answer
      → let h =
          after_deletion api recursor ip_address config addr (canonical zone_id) u db r answer in
        DeleteLeaves (some u) db s r h h.outcome
  unfolding record_audit
  after_deletion-DeleteLeaves u db s r (pdns_error e, s') op t a =
      (u, refl, op, t, a, (_, refl, refl, refl, refl), refl)
  after_deletion-DeleteLeaves u db s r (ok tt, s') op t a =
      (u, refl, op, t, a, forget_zone-Forgets (canonical zone_id) _ (canonical_idem zone_id), refl)

  -- A zone is deleted only for an operator or administrator who has typed its name, and only if the
  -- server deletes it; then no link of either kind mentions it, all other links are there as before,
  -- and the Recursor is asked to drop its rule. If the server refuses, the message is noted in the
  -- audit trail and nothing else changes; on every other branch nothing changes at all.
  pub delete_lem :
      (user : Option User) (db : Db) (s : S) (r : R)
      → let h = delete api recursor ip_address config addr zone_id form user db s r in
        DeleteLeaves user db s r h h.outcome
  unfolding delete delete_confirmed
  delete_lem user db s r = elim (IsOperator-cases user) [
    | inl (e, g) ↦ rw g (e, refl, refl, refl)
    | inr (inl (u, e, no_op, g)) ↦ rw g (u, e, no_op, refl, refl, refl)
    | inr (inr (u, e, op, g)) ↦
        rw (g, e)
          (if_elim (λ (h : Hosted DeleteOutcome S R). DeleteLeaves (some u) db s r h h.outcome)
            (eq_text typed (canonical zone_id))
            (λ t.
              after_deletion-DeleteLeaves u db s r (delete_zone api zone_id s) op
                ((eq_text_iff typed (canonical zone_id)).0 t) refl)
            (λ f. ((λ t. cc (f, (eq_text_iff typed (canonical zone_id)).1 t)), refl, refl, refl)))
  ]
