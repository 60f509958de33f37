-- ===== src/Reverse/Sync/Server.antt =====
-- What a sync sends to the server: the requests of sync_record and _delete_if_ours of
-- webui/app/reverse.py.
use powerdns.Prelude.{
  false, ℕ, ◌≡◌, inl, inr, refl, sym, ◌∙◌, subst, Bool, true, not, ◌&&◌, Option, none, some, List,
  [], ◌∷◌, All, Any, Bool-cases, is_empty,
}
use powerdns.Text.{Text, text, contains, eq_text}
use powerdns.Names.{canonical}
use powerdns.Dict.{lookup}
use powerdns.Dict.Laws.{HasUniqueKeys}
use powerdns.Text.Laws.{eq_text_iff, eq_text_refl}
use powerdns.Store.{User, ReverseLink, Db, can_see_zone}
use powerdns.Pdns.{
  RrSet, Reply, ok, pdns_error, Api, list_zones, get_rrset, replace_rrset, delete_rrset,
}
use powerdns.Reverse.{enclosing_zone}
use powerdns.Reverse.Links.{links_for_record, linked_reverse_zones}
use powerdns.Reverse.Sync.{
  Desired, Ptr, Forward, ptr_comment, Plan, Work, names_record, is_desired, forward, place_anywhere,
  place_in, all_zones, desire_one, desire, written_to, write_all, deleted, delete_if_ours,
  drop_link, drop_all, apply, finish, plan_for, sync_record, address_types,
}
use powerdns.Reverse.Sync.Desire.{IsPlanned, plan_for_lem}

names_record-one :
    (contents : List Text) (link : ReverseLink)
    → names_record contents link ≡ true
    → (content : Text) × (contents ≡ content ∷ []) × (canonical content ≡ link.forward_name)
names_record-one [] link h = cc
names_record-one (c ∷ []) link h = (c, refl, (eq_text_iff (canonical c) link.forward_name).0 h)
names_record-one (c ∷ d ∷ cs) link h = cc

-- What holds of each item of a list holds of all.
All-each :
    {A : Type 0} (P : A → Type 0) (xs : List A) → ((x : A) → Any (λ y. y ≡ x) xs → P x) → All P xs
All-each P [] h = tt
All-each P (x ∷ xs) h = (h x (inl refl), All-each P xs (λ y m. h y (inr m)))

module _ {S : Type 0} (api : Api S) (ptr_of : Text → Option Text) (user : User)
    (P : S → Type 0) where
  -- Reading changes nothing that `P` speaks of.
  abbrev pub KeptByReads : Type 0
  KeptByReads =
      ((s : S) → P s → P (list_zones api s).1)
      × ((zone ptr : Text) (s : S) → P s → P (get_rrset api zone ptr (text "PTR") s).1)

  -- Nor does writing a PTR, with the record's name for its one content, into a zone that the user may edit.
  abbrev pub KeptByWrites : Forward → Type 0
  KeptByWrites f =
      (zone ptr : Text) (s : S)
      → can_see_zone user zone ≡ true
      → P s
      → P
          (replace_rrset api zone ptr (text "PTR") f.ttl (f.name ∷ []) false (ptr_comment f)
            user.username s).1

  -- Nor does deleting the PTR of a link of the record, right after the server has said that the one
  -- content of the PTR is the name that the link is of.
  abbrev pub KeptByDeletes : Forward → Db → Type 0
  KeptByDeletes f db =
      (link : ReverseLink) (current : RrSet) (content : Text) (s s' : S)
      → Any (λ l. l ≡ link) (links_for_record f.zone f.name f.rtype db)
      → get_rrset api link.reverse_zone link.ptr_name (text "PTR") s ≡ (ok (some current), s')
      → current.contents ≡ content ∷ []
      → canonical content ≡ link.forward_name
      → P s'
      → P (delete_rrset api link.reverse_zone link.ptr_name (text "PTR") s').1

  module _ (reads : KeptByReads) where
    place_anywhere-server :
        (ptr address : Text) (r : Reply (List Text) × S) (p : Plan)
        → P r.1
        → P (place_anywhere api ptr_of user ptr address r p).1
    place_anywhere-server ptr address (pdns_error e, s) p h = h
    place_anywhere-server ptr address (ok zones, s) p h = h

    all_zones-server :
        (every : Option (List Text)) (s : S) → P s → P (all_zones api ptr_of user every s).1
    all_zones-server none s h = reads.0 s h
    all_zones-server (some zones) s h = h

    place_in-server :
        (ptr address : Text) (found : Option Text) (p : Plan) (s : S)
        → P s
        → P (place_in api ptr_of user ptr address found p s).1
    place_in-server ptr address (some zone) p s h = h
    place_in-server ptr address none p s h =
        place_anywhere-server ptr address (all_zones api ptr_of user p.every_zone s) p
          (all_zones-server p.every_zone s h)

    desire_one-server :
        (preferred : List Text) (address : Text) (o : Option Text) (p : Plan) (s : S)
        → P s
        → P (desire_one api ptr_of user preferred address o p s).1
    desire_one-server preferred address none p s h = h
    desire_one-server preferred address (some ptr) p s h =
        place_in-server ptr address (enclosing_zone ptr preferred) p s h

    desire-server :
        (preferred addresses : List Text) (r : Reply Plan × S)
        → P r.1
        → P (desire api ptr_of user preferred addresses r).1
    unfolding desire
    desire-server preferred [] (ok p, s) h = h
    desire-server preferred [] (pdns_error e, s) h = h
    desire-server preferred (a ∷ rest) (pdns_error e, s) h = h
    desire-server preferred (a ∷ rest) (ok p, s) h =
        desire-server preferred rest _ (desire_one-server preferred a (ptr_of a) p s h)

    plan_for-server :
        (f : Forward) (addresses : List Text) (enabled : Bool) (zone_names : Option (List Text))
        (db : Db) (s : S)
        → P s
        → P (plan_for api ptr_of user f addresses enabled zone_names db s).1
    plan_for-server f addresses enabled zone_names db s h =
        elim (Bool-cases (enabled && contains f.rtype address_types && not (is_empty addresses))) [
          | inl e ↦ rw e (desire-server (linked_reverse_zones f.zone db) addresses _ h)
          | inr e ↦ rw e h
        ]

    written_to-server :
        (f : Forward) (p : Ptr) (r : Reply Unit × S) (w : Work S)
        → P r.1
        → P (written_to api ptr_of user f p r w).server
    written_to-server f p (pdns_error e, s) w h = h
    written_to-server f p (ok _, s) w h = h

    write_all-server :
        (f : Forward) (ps : Desired) (w : Work S)
        → KeptByWrites f
        → All (λ p. can_see_zone user p.1.0 ≡ true) ps
        → P w.server
        → P (write_all api ptr_of user f ps w).server
    unfolding write_all
    write_all-server f [] w writes a h = h
    write_all-server f (p ∷ ps) w writes a h =
        write_all-server f ps _ writes a.1
          (written_to-server f p _ w (writes p.1.0 p.0 w.server a.0 h))

    deleted-server :
        (link : ReverseLink) (r : Reply Unit × S) (w : Work S)
        → P r.1
        → P (deleted api ptr_of user link r w).server
    deleted-server link (pdns_error e, s) w h = h
    deleted-server link (ok _, s) w h = h

    -- What is to be kept by a deletion, at one link.
    abbrev MayDelete : ReverseLink → Type 0
    MayDelete link =
        (current : RrSet) (content : Text) (s s' : S)
        → get_rrset api link.reverse_zone link.ptr_name (text "PTR") s ≡ (ok (some current), s')
        → current.contents ≡ content ∷ []
        → canonical content ≡ link.forward_name
        → P s'
        → P (delete_rrset api link.reverse_zone link.ptr_name (text "PTR") s').1

    delete_if_ours-server :
        (link : ReverseLink) (s : S) (r : Reply (Option RrSet) × S) (w : Work S)
        → MayDelete link
        → get_rrset api link.reverse_zone link.ptr_name (text "PTR") s ≡ r
        → P r.1
        → P (delete_if_ours api ptr_of user link r w).server
    delete_if_ours-server link s (pdns_error e, s') w may same h = h
    delete_if_ours-server link s (ok none, s') w may same h = h
    delete_if_ours-server link s (ok (some current), s') w may same h =
        elim (Bool-cases (names_record current.contents link)) [
          | inl e ↦
              let (content, one, ours) = names_record-one current.contents link e in
              rw e (deleted-server link _ w (may current content s s' same one ours h))
          | inr e ↦ rw e h
        ]

    drop_all-server :
        (desired : Desired) (existing : List ReverseLink) (w : Work S)
        → All MayDelete existing
        → P w.server
        → P (drop_all api ptr_of user desired existing w).server
    unfolding drop_all
    drop_all-server desired [] w may h = h
    drop_all-server desired (link ∷ existing) w may h =
        elim (Bool-cases (is_desired desired link.ptr_name)) [
          | inl e ↦ rw (drop_all, e) (drop_all-server desired existing w may.1 h)
          | inr e ↦
              rw (drop_all, e)
                (drop_all-server desired existing (drop_link api ptr_of user link w) may.1 (
                  delete_if_ours-server link w.server _ w may.0 refl
                    (reads.1 link.reverse_zone link.ptr_name w.server h)))
        ]

editable :
    (user : User) (d : Desired)
    → HasUniqueKeys d
    → ((ptr : Text) (v : Text × Text) → lookup ptr d ≡ some v → can_see_zone user v.0 ≡ true)
    → All (λ p. can_see_zone user p.1.0 ≡ true) d
unfolding lookup
editable user [] u h = tt
editable user (p ∷ d) u h = (
  h p.0 p.1 (rw (eq_text_refl p.0)),
  editable user d u.1 (λ ptr v found. elim (Bool-cases (eq_text p.0 ptr)) [
    | inl same ↦
        absurd (
          some_none (sym found ∙ subst (λ q. lookup q d ≡ none) ((eq_text_iff p.0 ptr).0 same) u.0))
    | inr other ↦ h ptr v (rw other found)
  ]),
)
  where
    some_none : {v : Text × Text} → some v ≡ none → ⊥
    some_none e = cc

-- Whatever holds of the server before a sync holds after it, if it is kept by three kinds of
-- requests: reads; writes of a PTR that names the record, in a zone that the user may edit; and
-- deletions of a PTR that a link of this record in the database names, right after the server has
-- said that the one content of the PTR is still the name that the link is of.
pub sync_record-server :
    {S : Type 0} (api : Api S) (ptr_of : Text → Option Text) (user : User) (P : S → Type 0)
    (zone name rtype : Text) (ttl : ℕ) (addresses : List Text) (enabled : Bool)
    (zone_names : Option (List Text)) (db : Db) (s : S)
    → KeptByReads api ptr_of user P
    → KeptByDeletes api ptr_of user P (forward zone name rtype ttl) db
    → KeptByWrites api ptr_of user P (forward zone name rtype ttl)
    → P s
    → P (sync_record api ptr_of user zone name rtype ttl addresses enabled zone_names db s).server
unfolding sync_record apply
sync_record-server {S} api ptr_of user P zone name rtype ttl addresses enabled zone_names db s reads
      deletes writes h =
    ended (plan_for api ptr_of user f addresses enabled zone_names db s)
      (plan_for_lem api ptr_of user f addresses enabled zone_names db s).0
      (plan_for-server api ptr_of user P reads f addresses enabled zone_names db s h)
  where
    f : Forward
    f = forward zone name rtype ttl

    ended :
        (r : Reply Plan × S)
        → IsPlanned ptr_of user (linked_reverse_zones f.zone db) addresses api zone_names s r
        → P r.1
        → P (finish api ptr_of user f db r).server
    ended (pdns_error e, s') planned h = h
    ended (ok p, s') planned h =
        drop_all-server api ptr_of user P reads p.desired
          (links_for_record f.zone f.name f.rtype db) _
          (All-each _ (links_for_record f.zone f.name f.rtype db)
            (λ link m current content s₁ s₂. deletes link current content s₁ s₂ m))
          (write_all-server api ptr_of user P reads f p.desired _ writes
            (editable user p.desired planned.0.unique
              (λ ptr v found. (planned.0.wanted ptr v found).1))
            h)
