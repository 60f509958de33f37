-- ===== src/Zones/Create/Outcomes.antt =====
-- What the creation of a zone by webui/app/views/zones.py leaves on each branch.
use powerdns.Prelude.{
  ◌≡◌, ◌≢◌, ◌⊎◌, inl, inr, refl, true, false, Option, some, none, List, [], ◌∷◌, ap, sym, ◌∙◌,
  subst, ◌++◌, take, append-nil, append_assoc,
}
use powerdns.Text.{Text, text}
use powerdns.Form.{Form}
use powerdns.Names.{canonical}
use powerdns.Store.Audit.{NotesFailure, record_audit-NotesFailure}
use powerdns.Store.{User, AuditLog, Db, record_audit}
use powerdns.Session.Operators.{IsOperator, IsOperator-cases}
use powerdns.Pdns.{Reply, ok, pdns_error}
use powerdns.Pdns.Zones.{Zone, ZoneApi, create_zone}
use powerdns.Reverse.Networks.{Network}
use powerdns.Recursor.{Address, RecursorApi}
use powerdns.Recursor.Config.{RecursorConfig}
use powerdns.Zones.{Hosted}
use powerdns.Zones.Resolver.{forward_locally}
use powerdns.Zones.Create.{
  or_default, name_or, truth, told, CreateProblem, Wanted, CreateOutcome, sign_in_first, refused,
  invalid, api_failed, created, Made, wanted, create_problems, made_reverse, create_reverse_zone,
  create_reverse_zones, after_creation, create_checked, create,
}

module _ {S R : Type 0} (api : ZoneApi S) (recursor : RecursorApi R)
    (ip_address : Text → Option Address) (ip_network : Text → Option Network)
    (config : RecursorConfig) (soa_edit_api addr : Text) where
  -- What is noted of a reverse zone that was asked for, by the server's answer.
  abbrev pub NotesReverse : Text → Text → Reply Zone → AuditLog → Type 0
  NotesReverse name forward (ok zone) entry =
      (entry.action ≡ text "zone.create_reverse")
      × (entry.success ≡ true)
      × (entry.target ≡ take 255 (or_default (canonical name) zone.name))
      × (entry.detail ≡ text "for " ++ forward)
  NotesReverse name forward (pdns_error e) entry =
      (entry.action ≡ text "zone.create_reverse")
      × (entry.success ≡ false)
      × (entry.target ≡ take 255 name)
      × (entry.detail ≡ e)

  -- The server has been asked for the reverse zones, one after another, with the options of the zone,
  -- and there is an entry for each.
  abbrev pub Tries : Wanted → Text → List Text → S → S → List AuditLog → Type 0
  Tries w forward [] s s' entries = (s ≡ s') × (entries ≡ [])
  Tries w forward (z ∷ zs) s s' entries =
      (a : Reply Zone) × (s₁ : S) × (entry : AuditLog) × (rest : List AuditLog) × (create_zone api z
          w.kind w.nameservers w.masters soa_edit_api w.dnssec s
        ≡ (a, s₁))
      × (entries ≡ entry ∷ rest)
      × NotesReverse z forward a entry
      × Tries w forward zs s₁ s' rest

  -- The audit trail has grown by the entries, and nothing else has changed.
  abbrev pub Grows : Db → Db → List AuditLog → Type 0
  Grows db db' entries = db' ≡ record db { audit_log = db.audit_log ++ entries }

  Grows-trans :
      (a b c : Db) (entry : AuditLog) (rest : List AuditLog)
      → Grows a b (entry ∷ [])
      → Grows b c rest
      → Grows a c (entry ∷ rest)
  Grows-trans a b c entry rest h k =
      k
      ∙ ap (λ (d : Db). record d { audit_log = d.audit_log ++ rest }) h
      ∙ ap (λ es. record a { audit_log = es }) (append_assoc a.audit_log (entry ∷ []) rest)

  made_reverse-Grows :
      (name forward : Text) (user : User) (m : Made S R) (a : Reply Zone) (s : S)
      → let m' =
          made_reverse api recursor ip_address ip_network config soa_edit_api addr name forward user
            m
            (a, s) in
        (entry : AuditLog) × Grows m.db m'.db (entry ∷ [])
        × NotesReverse name forward a entry
        × (m'.server ≡ s)
  unfolding record_audit
  made_reverse-Grows name forward user m (pdns_error e) s =
      (_, refl, (refl, refl, refl, refl), refl)
  made_reverse-Grows name forward user m (ok zone) s = (_, refl, (refl, refl, refl, refl), refl)

  create_reverse_zones-Tries :
      (zs : List Text) (forward : Text) (user : User) (w : Wanted) (m : Made S R)
      → let m' =
          create_reverse_zones api recursor ip_address ip_network config soa_edit_api addr zs
            forward user w m in
        (entries : List AuditLog) × Grows m.db m'.db entries
        × Tries w forward zs m.server m'.server entries
  unfolding create_reverse_zones create_reverse_zone
  create_reverse_zones-Tries [] forward user w m = (
    [],
    ap (λ es. record m.db { audit_log = es }) (sym (append-nil m.db.audit_log)),
    (refl, refl),
  )
  create_reverse_zones-Tries (z ∷ zs) forward user w m =
      let (a, s₁) =
        create_zone api z w.kind w.nameservers w.masters soa_edit_api w.dnssec m.server in
      let m₁ =
        made_reverse api recursor ip_address ip_network config soa_edit_api addr z forward user m
          (a, s₁) in
      let (entry, first, notes, same) = made_reverse-Grows z forward user m a s₁ in
      let m₂ =
        create_reverse_zones api recursor ip_address ip_network config soa_edit_api addr zs forward
          user w m₁ in
      let (rest, later, tries) = create_reverse_zones-Tries zs forward user w m₁ in
      (
        entry ∷ rest,
        Grows-trans m.db m₁.db _ entry rest first later,
        (
          a,
          s₁,
          entry,
          rest,
          refl,
          refl,
          notes,
          subst (λ s. Tries w forward zs s m₂.server rest) same tries,
        ),
      )

  abbrev ask : Form → S → Reply Zone × S
  ask form s =
      let w = wanted api recursor ip_address ip_network config soa_edit_api addr form in
      create_zone api w.name w.kind w.nameservers w.masters soa_edit_api w.dnssec s

  abbrev problems : Form → List CreateProblem
  problems form = create_problems api recursor ip_address ip_network config soa_edit_api addr form

  -- What an operator's request leaves, by its outcome.
  abbrev pub CreateLeaves : Form → Db → S → R → Hosted CreateOutcome S R → CreateOutcome → Type 0
  CreateLeaves form db s r h (invalid ps) =
      (ps ≡ problems form) × (ps ≢ []) × (h.db ≡ db) × (h.server ≡ s) × (h.recursor ≡ r)
  CreateLeaves form db s r h (api_failed e) =
      let w = wanted api recursor ip_address ip_network config soa_edit_api addr form in
      (problems form ≡ [])
      × (ask form s ≡ (pdns_error e, h.server))
      × NotesFailure w.name e db h.db
      × (h.recursor ≡ r)
  CreateLeaves form db s r h (created id) =
      let w = wanted api recursor ip_address ip_network config soa_edit_api addr form in
      (zone : Zone) × (s₁ : S) × (entry : AuditLog) × (entries : List AuditLog) × (problems form
        ≡ [])
      × (ask form s ≡ (ok zone, s₁))
      × Grows db h.db (entry ∷ entries)
      × (entry.action ≡ text "zone.create")
      × (entry.success ≡ true)
      × (entry.target ≡ take 255 (or_default w.name zone.name))
      × Tries w (or_default (canonical w.name) zone.name) w.reverse_zones s₁ h.server entries
  CreateLeaves form db s r h _ = ⊥

  after_creation-CreateLeaves :
      (form : Form) (u : User) (db : Db) (s : S) (r : R) (a : Reply Zone × S)
      → problems form ≡ []
      → ask form s ≡ a
      → let w = wanted api recursor ip_address ip_network config soa_edit_api addr form in
        let h =
          after_creation api recursor ip_address ip_network config soa_edit_api addr w u db r a in
        CreateLeaves form db s r h h.outcome
  unfolding record_audit
  after_creation-CreateLeaves form u db s r (pdns_error e, s') none_found a = (
    none_found,
    a,
    record_audit-NotesFailure addr (text "zone.create")
        (wanted api recursor ip_address ip_network config soa_edit_api addr form).name e u db,
    refl,
  )
  after_creation-CreateLeaves form u db s r (ok zone, s') none_found a =
      let w = wanted api recursor ip_address ip_network config soa_edit_api addr form in
      let forward = or_default (canonical w.name) zone.name in
      let m : Made S R =
        told api recursor ip_address ip_network config soa_edit_api addr
          (record_audit addr (text "zone.create") (or_default w.name zone.name)
            (text "kind=" ++ w.kind ++ text " dnssec=" ++ truth w.dnssec) (some u) true db)
          s'
          (forward_locally recursor ip_address config (name_or (canonical w.name) zone.name) false
            r) in
      let (entries, later, tries) = create_reverse_zones-Tries w.reverse_zones forward u w m in
      (
        zone,
        s',
        _,
        entries,
        none_found,
        a,
        Grows-trans db m.db _ _ entries refl later,
        refl,
        refl,
        refl,
        tries,
      )

  create_checked-CreateLeaves :
      (ps : List CreateProblem) (form : Form) (u : User) (db : Db) (s : S) (r : R)
      → problems form ≡ ps
      → let h =
          create_checked api recursor ip_address ip_network config soa_edit_api addr ps form u db s
            r in
        CreateLeaves form db s r h h.outcome
  unfolding create_checked
  create_checked-CreateLeaves [] form u db s r e =
      after_creation-CreateLeaves form u db s r (ask form s) e refl
  create_checked-CreateLeaves (p ∷ ps) form u db s r e = (sym e, (λ h. cc), refl, refl, refl)

  -- A zone is created only for an operator or administrator whose form has no problem and only if the
  -- server takes it; then the server is asked, one after another, for the reverse zones that the form
  -- wants, with the options of the zone. The links and all other rows are as before, and the audit
  -- trail has one more entry for the zone, and one for each reverse zone, which names it and either
  -- the zone that it is for or, as a failure, the server's message.
  -- If the server refuses the zone, no reverse zone is tried and the Recursor is not told: its message
  -- is noted as a failure and nothing else changes; on every other branch nothing changes at all.
  pub create_lem :
      (form : Form) (user : Option User) (db : Db) (s : S) (r : R)
      → let h =
          create api recursor ip_address ip_network config soa_edit_api addr form user db s r in
        ((h.outcome ≡ sign_in_first)
          × (user ≡ none)
          × (h.db ≡ db)
          × (h.server ≡ s)
          × (h.recursor ≡ r))
        ⊎ ((u : User) × (user ≡ some u)
            × ¬ IsOperator u
            × (h.outcome ≡ refused)
            × (h.db ≡ db)
            × (h.server ≡ s)
            × (h.recursor ≡ r))
        ⊎ ((u : User) × (user ≡ some u) × IsOperator u × CreateLeaves form db s r h h.outcome)
  unfolding create
  create_lem form user db s r = elim (IsOperator-cases user) [
    | inl (e, g) ↦ rw g (inl (refl, e, refl, refl, refl))
    | inr (inl (u, e, no_op, g)) ↦ rw g (inr (inl (u, e, no_op, refl, refl, refl, refl)))
    | inr (inr (u, e, op, g)) ↦
        rw g (inr (inr (u, e, op, create_checked-CreateLeaves (problems form) form u db s r refl)))
  ]
