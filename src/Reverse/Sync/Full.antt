-- ===== src/Reverse/Sync/Full.antt =====
-- Which PTRs a save asks for at least: the loop over the addresses of sync_record of
-- webui/app/reverse.py.
use powerdns.Prelude.{
  arith, ◌≡◌, ◌≢◌, ◌⊎◌, inl, inr, refl, sym, ◌∙◌, subst, true, not, Bool-cases, Option, none, some,
  List, [], ◌∷◌, Any, if_elim,
}
use powerdns.Text.{Text, eq_text}
use powerdns.Text.Laws.{eq_text_iff}
use powerdns.Dict.{lookup}
use powerdns.Dict.Laws.{lookup-insert}
use powerdns.Store.{User, can_see_zone}
use powerdns.Pdns.{Reply, ok, pdns_error, Api}
use powerdns.Reverse.{enclosing_zone}
use powerdns.Reverse.Sync.{Plan, place, place_anywhere, all_zones, place_in, desire_one, desire}

some-injective : {A : Type 0} (a b : A) → some a ≡ some b → a ≡ b
some-injective a b e = cc

some-none : {A : Type 0} (a : A) → some a ≢ none
some-none a e = cc

module _ (ptr_of : Text → Option Text) (user : User) (preferred : List Text) where
  -- The zone that the PTR falls in, of the linked ones, or else of all.
  abbrev pub Encloses : Text → Text → Option (List Text) → Type 0
  Encloses ptr zone every =
      (enclosing_zone ptr preferred ≡ some zone)
      ⊎ ((enclosing_zone ptr preferred ≡ none)
          × ((zones : List Text) × (every ≡ some zones) × (enclosing_zone ptr zones ≡ some zone)))

  abbrev IsPlaced : Text → Plan → Type 0
  IsPlaced ptr p = lookup ptr p.desired ≢ none

  -- The PTR of the address is in the plan, if the user may edit the zone that it falls in.
  abbrev pub IsAsked : Text → Plan → Type 0
  IsAsked address p =
      (ptr zone : Text)
      → ptr_of address ≡ some ptr
      → Encloses ptr zone p.every_zone
      → can_see_zone user zone ≡ true
      → IsPlaced ptr p

  -- If it falls in none of the linked zones, all zones have been listed.
  abbrev IsLooked : Text → Plan → Type 0
  IsLooked address p =
      (ptr : Text)
      → ptr_of address ≡ some ptr
      → enclosing_zone ptr preferred ≡ none
      → p.every_zone ≢ none

  -- A plan that is made has the PTRs of all the addresses.
  abbrev pub IsFull : {S : Type 0} → List Text → Reply Plan × S → Type 0
  IsFull addresses (pdns_error e, s) = Unit
  IsFull addresses (ok p, s) = (a : Text) → Any (λ b. b ≡ a) addresses → IsAsked a p

  -- A later plan has the PTRs of an earlier one, and its list of zones, if that had one.
  record Extends (p q : Plan) : Type 0 where
    placed : (ptr : Text) → IsPlaced ptr p → IsPlaced ptr q
    listed : (p.every_zone ≡ none) ⊎ (p.every_zone ≡ q.every_zone)

  Extends-trans : (p q r : Plan) → Extends p q → Extends q r → Extends p r
  Extends-trans p q r h k = record {
    placed = λ ptr x. k.placed ptr (h.placed ptr x);
    listed = elim h.listed [
      | inl e ↦ inl e
      | inr e ↦ elim k.listed [ inl f ↦ inl (e ∙ f) | inr f ↦ inr (e ∙ f) ]
    ];
  }

  place-Extends :
      (ptr address : Text) (found : Option Text) (every : Option (List Text)) (p : Plan)
      → (p.every_zone ≡ none) ⊎ (p.every_zone ≡ every)
      → Extends p (place user ptr address found (record p { every_zone = every }))
  place-Extends ptr address none every p l = record { placed = λ q x. x; listed = l }
  place-Extends ptr address (some zone) every p l = elim (Bool-cases (can_see_zone user zone)) [
    | inl e ↦ rw e (record {
      placed = λ q x n. elim (Bool-cases (eq_text ptr q)) [
        | inl s ↦ ground (arith, lookup-insert ptr q (zone, address) p.desired)
        | inr o ↦ x (ground (arith, lookup-insert ptr q (zone, address) p.desired))
      ];
      listed = l;
    })
    | inr e ↦ rw e (record { placed = λ q x. x; listed = l })
  ]

  place-IsPlaced :
      (ptr address zone : Text) (p : Plan)
      → can_see_zone user zone ≡ true
      → IsPlaced ptr (place user ptr address (some zone) p)
  place-IsPlaced ptr address zone p e =
      rw e
        (λ n. ground (arith, lookup-insert ptr ptr (zone, address) p.desired, eq_text_iff ptr ptr))

  place-listed :
      (ptr address : Text) (found : Option Text) (p : Plan)
      → (place user ptr address found p).every_zone ≡ p.every_zone
  place-listed ptr address none p = refl
  place-listed ptr address (some zone) p =
      if_elim (λ (q : Plan). q.every_zone ≡ p.every_zone) (not (can_see_zone user zone)) (λ _. refl)
        (λ _. refl)

  place-IsAsked :
      (ptr address : Text) (found : Option Text) (every : Option (List Text)) (p : Plan)
      → ptr_of address ≡ some ptr
      → ((zone : Text) → Encloses ptr zone every → found ≡ some zone)
      → IsAsked address (place user ptr address found (record p { every_zone = every }))
  place-IsAsked ptr address found every p a c other zone e encloses can =
      let p' : Plan = record p { every_zone = every } in
      let same : ptr ≡ other = some-injective ptr other (sym a ∙ e) in
      let there : Encloses ptr zone every =
        subst (λ x. Encloses ptr zone x) (place-listed ptr address found p')
          (subst (λ x. Encloses x zone (place user ptr address found p').every_zone) (sym same)
            encloses) in
      subst (λ x. IsPlaced x (place user ptr address found p')) same
        (subst (λ o. IsPlaced ptr (place user ptr address o p')) (sym (c zone there))
          (place-IsPlaced ptr address zone p' can))

  module _ {S : Type 0} (api : Api S) where
    -- What one address adds to a plan.
    abbrev Adds : Text → Plan → Reply Plan × S → Type 0
    Adds address p (pdns_error e, s) = Unit
    Adds address p (ok q, s) = Extends p q × IsAsked address q × IsLooked address q

    place_anywhere-Adds :
        (ptr address : Text) (r : Reply (List Text) × S) (p : Plan)
        → ((zones : List Text) (s : S)
            → r ≡ (ok zones, s)
            → (p.every_zone ≡ none) ⊎ (p.every_zone ≡ some zones))
        → enclosing_zone ptr preferred ≡ none
        → ptr_of address ≡ some ptr
        → Adds address p (place_anywhere api ptr_of user ptr address r p)
    place_anywhere-Adds ptr address (pdns_error e, s) p g n a = tt
    place_anywhere-Adds ptr address (ok zones, s) p g n a = (
      place-Extends ptr address (enclosing_zone ptr zones) (some zones) p (g zones s refl),
      place-IsAsked ptr address (enclosing_zone ptr zones) (some zones) p a (λ zone h. elim h [
        | inl e ↦ absurd (some-none zone (sym e ∙ n))
        | inr (_, (zs, e, f)) ↦
            subst (λ z. enclosing_zone ptr z ≡ some zone) (sym (some-injective zones zs e)) f
      ]),
      λ other e m n. some-none zones (
          sym (
            place-listed ptr address (enclosing_zone ptr zones)
              (record p { every_zone = some zones }))
          ∙ n),
    )

    all_zones-listed :
        (every : Option (List Text)) (s s' : S) (zones : List Text)
        → all_zones api ptr_of user every s ≡ (ok zones, s')
        → (every ≡ none) ⊎ (every ≡ some zones)
    all_zones-listed none s s' zones l = inl refl
    all_zones-listed (some zs) s s' zones l = inr (ground arith)

    place_in-Adds :
        (ptr address : Text) (found : Option Text) (p : Plan) (s : S)
        → enclosing_zone ptr preferred ≡ found
        → ptr_of address ≡ some ptr
        → Adds address p (place_in api ptr_of user ptr address found p s)
    place_in-Adds ptr address (some zone) p s m a = (
      place-Extends ptr address (some zone) p.every_zone p (inr refl),
      place-IsAsked ptr address (some zone) p.every_zone p a
          (λ z h. elim h [ inl e ↦ sym m ∙ e | inr (n, _) ↦ absurd (some-none zone (sym m ∙ n)) ]),
      λ other e n.
          let same : ptr ≡ other = some-injective ptr other (sym a ∙ e) in
          absurd
            (some-none zone (sym m ∙ subst (λ x. enclosing_zone x preferred ≡ none) (sym same) n)),
    )
    place_in-Adds ptr address none p s m a =
        place_anywhere-Adds ptr address (all_zones api ptr_of user p.every_zone s) p
          (λ zones s' e. all_zones-listed p.every_zone s s' zones e) m a

    desire_one-Adds :
        (address : Text) (o : Option Text) (p : Plan) (s : S)
        → ptr_of address ≡ o
        → Adds address p (desire_one api ptr_of user preferred address o p s)
    desire_one-Adds address none p s a = (
      record { placed = λ q x. x; listed = inr refl },
      λ ptr zone e. absurd (some-none ptr (sym e ∙ a)),
      λ ptr e. absurd (some-none ptr (sym e ∙ a)),
    )
    desire_one-Adds address (some ptr) p s a =
        place_in-Adds ptr address (enclosing_zone ptr preferred) p s refl a

    Extends-IsAsked :
        (address : Text) (p q : Plan)
        → Extends p q
        → IsAsked address p
        → IsLooked address p
        → IsAsked address q
    Extends-IsAsked address p q h k l ptr zone a (inl e) can =
        h.placed ptr (k ptr zone a (inl e) can)
    Extends-IsAsked address p q h k l ptr zone a (inr (n, (zones, e, f))) can = elim h.listed [
      | inl none_yet ↦ absurd (l ptr a n none_yet)
      | inr same ↦ h.placed ptr (k ptr zone a (inr (n, (zones, same ∙ e, f))) can)
    ]

    -- What the loop over the addresses adds to a plan.
    abbrev Completes : List Text → Plan → Reply Plan × S → Type 0
    Completes rest p (pdns_error e, s) = Unit
    Completes rest p (ok q, s) = Extends p q × ((a : Text) → Any (λ b. b ≡ a) rest → IsAsked a q)

    Completes-next :
        (b : Text) (rest : List Text) (p q : Plan) (r : Reply Plan × S)
        → Extends p q × IsAsked b q × IsLooked b q
        → Completes rest q r
        → Completes (b ∷ rest) p r
    Completes-next b rest p q (pdns_error e, s) h k = tt
    Completes-next b rest p q (ok q', s) (h, asked, looked) (k, later) = (
      Extends-trans p q q' h k,
      λ a m. elim m [
        | inl e ↦ subst (λ x. IsAsked x q') e (Extends-IsAsked b q q' k asked looked)
        | inr m ↦ later a m
      ],
    )

    desire-next :
        (b : Text) (rest : List Text) (p : Plan) (r : Reply Plan × S)
        → ((q : Plan) (s : S) → Completes rest q (desire api ptr_of user preferred rest (ok q, s)))
        → Adds b p r
        → Completes (b ∷ rest) p (desire api ptr_of user preferred rest r)
    unfolding desire
    desire-next b [] p (pdns_error e, s) k h = tt
    desire-next b (c ∷ rest) p (pdns_error e, s) k h = tt
    desire-next b rest p (ok q, s) k h =
        Completes-next b rest p q (desire api ptr_of user preferred rest (ok q, s)) h (k q s)

    desire-Completes :
        (rest : List Text) (p : Plan) (s : S)
        → Completes rest p (desire api ptr_of user preferred rest (ok p, s))
    unfolding desire
    desire-Completes [] p s = (record { placed = λ q x. x; listed = inr refl }, λ a m. absurd m)
    desire-Completes (b ∷ rest) p s =
        desire-next b rest p (desire_one api ptr_of user preferred b (ptr_of b) p s)
          (desire-Completes rest) (desire_one-Adds b (ptr_of b) p s refl)

    Completes-IsFull :
        (rest : List Text) (p : Plan) (r : Reply Plan × S) → Completes rest p r → IsFull rest r
    Completes-IsFull rest p (pdns_error e, s) h = tt
    Completes-IsFull rest p (ok q, s) (h, asked) = asked

    pub desire-IsFull :
        (rest : List Text) (p : Plan) (s : S)
        → IsFull rest (desire api ptr_of user preferred rest (ok p, s))
    desire-IsFull rest p s = Completes-IsFull rest p _ (desire-Completes rest p s)
