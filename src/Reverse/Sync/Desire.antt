-- ===== src/Reverse/Sync/Desire.antt =====
-- The PTRs that a record set wants: the first loop of sync_record of webui/app/reverse.py.
use powerdns.Prelude.{
  if_elim, ap, All-listed, All, ◌≡◌, ◌⊎◌, inl, inr, refl, sym, ◌∙◌, subst, Bool, true, not, ◌&&◌,
  Option, none, some, List, [], ◌∷◌, arith, Any, Bool-cases, is_empty,
}
use powerdns.Text.{Text, eq_text, contains}
use powerdns.Text.Laws.{eq_text_iff}
use powerdns.Dict.{lookup}
use powerdns.Dict.Laws.{HasUniqueKeys, lookup-insert, insert-HasUniqueKeys}
use powerdns.Names.{canonical}
use powerdns.Store.{User, Db, can_see_zone}
use powerdns.Pdns.{Reply, ok, pdns_error, Api, list_zones}
use powerdns.Reverse.{enclosing_zone}
use powerdns.Reverse.Enclosing.{IsMostSpecific, enclosing_zone_lem}
use powerdns.Reverse.Links.{linked_reverse_zones}
use powerdns.Reverse.Sync.Full.{IsFull, desire-IsFull}
use powerdns.Reverse.Sync.{
  no_result, Plan, Forward, place, place_anywhere, place_in, all_zones, desire_one, desire,
  plan_for, address_types,
}

module _ (ptr_of : Text → Option Text) (user : User) (preferred addresses : List Text) where
  -- The zone is the most specific of the linked ones, or, if the name is in none of them, of those on the
  -- server.
  abbrev pub IsChosen : Text → Text → Option (List Text) → Type 0
  IsChosen ptr zone every =
      IsMostSpecific (canonical ptr) preferred (some zone)
      ⊎ (IsMostSpecific (canonical ptr) preferred none
          × ((zones : List Text) × (every ≡ some zones)
              × IsMostSpecific (canonical ptr) zones (some zone)))

  -- A PTR that is wanted, with its zone and its address.
  abbrev pub IsWanted : Text → Text × Text → Option (List Text) → Type 0
  IsWanted ptr (zone, address) every =
      (Any (λ a. a ≡ address) addresses × (ptr_of address ≡ some ptr))
      × (can_see_zone user zone ≡ true)
      × IsChosen ptr zone every

  pub record IsPlan (p : Plan) : Type 0 where
    pub unique : HasUniqueKeys p.desired
    pub wanted :
        (ptr : Text) (v : Text × Text) → lookup ptr p.desired ≡ some v → IsWanted ptr v p.every_zone

  abbrev Grows : Option (List Text) → Option (List Text) → Type 0
  Grows old new = (old ≡ none) ⊎ (old ≡ new)

  IsWanted-Grows :
      (ptr : Text) (v : Text × Text) (old new : Option (List Text))
      → Grows old new
      → IsWanted ptr v old
      → IsWanted ptr v new
  IsWanted-Grows ptr v old new g (a, c, inl h) = (a, c, inl h)
  IsWanted-Grows ptr v old new (inl g) (a, c, inr (n, (zones, e, m))) = absurd (ground arith)
  IsWanted-Grows ptr v old new (inr g) (a, c, inr (n, (zones, e, m))) =
      (a, c, inr (n, (zones, sym g ∙ e, m)))

  place-IsPlan :
      (ptr address : Text) (found : Option Text) (every : Option (List Text)) (p : Plan)
      → IsPlan p
      → Grows p.every_zone every
      → ((zone : Text) → found ≡ some zone → IsChosen ptr zone every)
      → (Any (λ a. a ≡ address) addresses × (ptr_of address ≡ some ptr))
      → IsPlan (place user ptr address found (record p { every_zone = every }))
  place-IsPlan ptr address none every p h g c a = record {
    unique = h.unique;
    wanted = λ q v e. IsWanted-Grows q v p.every_zone every g (h.wanted q v e);
  }
  place-IsPlan ptr address (some zone) every p h g c a =
      elim (Bool-cases (can_see_zone user zone)) [
        | inl e ↦ rw e (record {
          unique = insert-HasUniqueKeys ptr (zone, address) p.desired h.unique;
          wanted = λ q v found. elim (Bool-cases (eq_text ptr q)) [
            | inl same ↦
                subst (λ r. IsWanted r v every) ((eq_text_iff ptr q).0 same)
                  (subst (λ w. IsWanted ptr w every)
                    (ground (arith, lookup-insert ptr q (zone, address) p.desired))
                    (a, e, c zone refl))
            | inr other ↦
                IsWanted-Grows q v p.every_zone every g
                  (h.wanted q v (ground (arith, lookup-insert ptr q (zone, address) p.desired)))
          ];
        })
        | inr e ↦ rw e (record {
          unique = h.unique;
          wanted = λ q v f. IsWanted-Grows q v p.every_zone every g (h.wanted q v f);
        })
      ]

  -- The zones that a plan takes for the server's are those that were given, and nothing was asked; or
  -- none were given, and they are what the server has answered.
  abbrev pub IsListed :
      {S : Type 0} → Api S → Option (List Text) → S → Option (List Text) → S → Type 0
  IsListed api given s every s' =
      ((every ≡ given) × (s' ≡ s))
      ⊎ ((given ≡ none)
          × ((zones : List Text) × (every ≡ some zones) × (list_zones api s ≡ (ok zones, s'))))

  -- A plan fails only if no zones were given, and the server does not list its own.
  abbrev pub IsUnlisted : {S : Type 0} → Api S → Option (List Text) → S → Text → S → Type 0
  IsUnlisted api given s e s' = (given ≡ none) × (list_zones api s ≡ (pdns_error e, s'))

  -- What a plan is worth that may have failed.
  abbrev pub IsPlanned : {S : Type 0} → Api S → Option (List Text) → S → Reply Plan × S → Type 0
  IsPlanned api given s (pdns_error e, s') = IsUnlisted api given s e s'
  IsPlanned api given s (ok p, s') = IsPlan p × IsListed api given s p.every_zone s'

  module _ {S : Type 0} (api : Api S) (given : Option (List Text)) (s₀ : S) where
    every_zone-place :
        (ptr address : Text) (found : Option Text) (p : Plan)
        → (place user ptr address found p).every_zone ≡ p.every_zone
    every_zone-place ptr address none p = refl
    every_zone-place ptr address (some zone) p =
        if_elim (λ (q : Plan). q.every_zone ≡ p.every_zone) (not (can_see_zone user zone))
          (λ _. refl) (λ _. refl)

    place_anywhere-IsPlanned :
        (ptr address : Text) (r : Reply (List Text) × S) (p : Plan)
        → IsPlan p
        → ((zones : List Text) (s : S)
            → r ≡ (ok zones, s)
            → Grows p.every_zone (some zones) × IsListed api given s₀ (some zones) s)
        → ((e : Text) (s : S) → r ≡ (pdns_error e, s) → IsUnlisted api given s₀ e s)
        → IsMostSpecific (canonical ptr) preferred none
        → (Any (λ a. a ≡ address) addresses × (ptr_of address ≡ some ptr))
        → IsPlanned api given s₀ (place_anywhere api ptr_of user ptr address r p)
    place_anywhere-IsPlanned ptr address (pdns_error e, s) p h g k n a = k e s refl
    place_anywhere-IsPlanned ptr address (ok zones, s) p h g k n a =
        let (grows, listed) = g zones s refl in
        (
          place-IsPlan ptr address (enclosing_zone ptr zones) (some zones) p h grows
              (λ zone e. inr (
                n,
                (
                  zones,
                  refl,
                  subst (IsMostSpecific (canonical ptr) zones) e (enclosing_zone_lem ptr zones),
                ),
              ))
              a,
          subst (λ every. IsListed api given s₀ every s)
              (sym (
                every_zone-place ptr address (enclosing_zone ptr zones)
                  (record p { every_zone = some zones })))
              listed,
        )

    all_zones-IsListed :
        (every : Option (List Text)) (s s' : S) (zones : List Text)
        → IsListed api given s₀ every s
        → all_zones api ptr_of user every s ≡ (ok zones, s')
        → Grows every (some zones) × IsListed api given s₀ (some zones) s'
    all_zones-IsListed none s s' zones (inl (e, t)) l =
        (inl refl, inr (sym e, (zones, refl, subst (λ x. list_zones api x ≡ (ok zones, s')) t l)))
    all_zones-IsListed none s s' zones (inr (e, (zs, f, t))) l = absurd (cc)
    all_zones-IsListed (some zs) s s' zones h l =
        let same : zs ≡ zones = ground arith in
        let there : s ≡ s' = ap (λ (x : Reply (List Text) × S). x.1) l in
        (
          inr (ap some same),
          subst (λ x. IsListed api given s₀ (some zones) x) there
              (subst (λ z. IsListed api given s₀ (some z) s) same h),
        )

    all_zones-IsUnlisted :
        (every : Option (List Text)) (s s' : S) (e : Text)
        → IsListed api given s₀ every s
        → all_zones api ptr_of user every s ≡ (pdns_error e, s')
        → IsUnlisted api given s₀ e s'
    all_zones-IsUnlisted none s s' e (inl (g, t)) l =
        (sym g, subst (λ x. list_zones api x ≡ (pdns_error e, s')) t l)
    all_zones-IsUnlisted none s s' e (inr (g, (zs, f, t))) l = absurd (cc)
    all_zones-IsUnlisted (some zs) s s' e h l = cc

    place_in-IsPlanned :
        (ptr address : Text) (found : Option Text) (p : Plan) (s : S)
        → IsPlan p × IsListed api given s₀ p.every_zone s
        → IsMostSpecific (canonical ptr) preferred found
        → (Any (λ a. a ≡ address) addresses × (ptr_of address ≡ some ptr))
        → IsPlanned api given s₀ (place_in api ptr_of user ptr address found p s)
    place_in-IsPlanned ptr address (some zone) p s (h, l) m a = (
      place-IsPlan ptr address (some zone) p.every_zone p h (inr refl)
          (λ z e. inl (subst (IsMostSpecific (canonical ptr) preferred) e m)) a,
      subst (λ every. IsListed api given s₀ every s)
          (sym (every_zone-place ptr address (some zone) p)) l,
    )
    place_in-IsPlanned ptr address none p s (h, l) m a =
        place_anywhere-IsPlanned ptr address (all_zones api ptr_of user p.every_zone s) p h
          (λ zones s' e. all_zones-IsListed p.every_zone s s' zones l e)
          (λ e s' k. all_zones-IsUnlisted p.every_zone s s' e l k) m a

    desire_one-IsPlanned :
        (address : Text) (o : Option Text) (p : Plan) (s : S)
        → IsPlan p × IsListed api given s₀ p.every_zone s
        → ptr_of address ≡ o
        → Any (λ a. a ≡ address) addresses
        → IsPlanned api given s₀ (desire_one api ptr_of user preferred address o p s)
    desire_one-IsPlanned address none p s h e a = h
    desire_one-IsPlanned address (some ptr) p s h e a =
        place_in-IsPlanned ptr address (enclosing_zone ptr preferred) p s h
          (enclosing_zone_lem ptr preferred) (a, e)

    desire-IsPlanned :
        (rest : List Text) (r : Reply Plan × S)
        → IsPlanned api given s₀ r
        → All (λ b. Any (λ a. a ≡ b) addresses) rest
        → IsPlanned api given s₀ (desire api ptr_of user preferred rest r)
    unfolding desire
    desire-IsPlanned [] (ok p, s) h a = h
    desire-IsPlanned [] (pdns_error e, s) h a = h
    desire-IsPlanned (b ∷ rest) (pdns_error e, s) h a = h
    desire-IsPlanned (b ∷ rest) (ok p, s) h a =
        desire-IsPlanned rest (desire_one api ptr_of user preferred b (ptr_of b) p s)
          (desire_one-IsPlanned b (ptr_of b) p s h refl a.0) a.1

-- A PTR that a save asks for belongs to one of the addresses, and goes to a zone that the user may edit:
-- to the most specific of the zones linked to the record's zone that the PTR falls in, or, if it falls
-- in none of them, of the zones that the caller has listed, or, where it has listed none, of those
-- that the server answers at the start of the sync, asked once. If PTRs are enabled for an address
-- record, each address whose PTR falls in such a zone has its PTR asked for. The plan fails only if the caller has
-- listed none and the server does not answer them either, with its message.
pub plan_for_lem :
    {S : Type 0} (api : Api S) (ptr_of : Text → Option Text) (user : User) (f : Forward)
    (addresses : List Text) (enabled : Bool) (zone_names : Option (List Text)) (db : Db) (s : S)
    → let plan = plan_for api ptr_of user f addresses enabled zone_names db s in
      IsPlanned ptr_of user (linked_reverse_zones f.zone db) addresses api zone_names s plan
      × (enabled ≡ true
          → contains f.rtype address_types ≡ true
          → IsFull ptr_of user (linked_reverse_zones f.zone db) addresses plan)
plan_for_lem {S} api ptr_of user f addresses enabled zone_names db s =
    elim (Bool-cases (enabled && contains f.rtype address_types && not (is_empty addresses))) [
      | inl e ↦ rw e (
        desire-IsPlanned ptr_of user (linked_reverse_zones f.zone db) addresses api zone_names s
            addresses (ok start, s) (empty, inl (refl, refl)) (All-listed addresses),
        λ _ _. desire-IsFull ptr_of user (linked_reverse_zones f.zone db) api addresses start s,
      )
      | inr e ↦ rw e (
        (empty, inl (refl, refl)),
        λ on address a m. absurd (no_address addresses a (ground (arith, e, on, address)) m),
      )
    ]
  where
    start : Plan
    start = record { every_zone = zone_names; result = no_result; desired = [] }

    empty : IsPlan ptr_of user (linked_reverse_zones f.zone db) addresses start
    empty = record { unique = tt; wanted = λ ptr v e. absurd (unfold lookup in cc) }

    no_address : (xs : List Text) (a : Text) → is_empty xs ≡ true → Any (λ b. b ≡ a) xs → ⊥
    no_address [] a e m = m
    no_address (x ∷ xs) a e m = cc
