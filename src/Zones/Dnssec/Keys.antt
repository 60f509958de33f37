-- ===== src/Zones/Dnssec/Keys.antt =====
-- The keys of a zone once DNSSEC has been switched on or off by webui/app/views/zones.py, with a server
-- that does to its keys what its API says.
use powerdns.Prelude.{
  All-listed, ℕ, ◌≡◌, ◌≢◌, inl, inr, refl, true, false, not, ◌==◌, List, [], ◌∷◌, keep, All, Any,
  if_elim, subst, sym, ap, ◌∙◌, arith,
}
use powerdns.Text.{Text, text}
use powerdns.Pdns.{Reply, ok, pdns_error}
use powerdns.Pdns.Zones.{
  ZoneApi, Call, and_then, cryptokeys, create_cryptokey, delete_cryptokey, set_zone_dnssec,
}
use powerdns.Zones.Dnssec.{ensure_key, enable, delete_keys, disable}

-- What the API says of the keys of one zone: a list is the keys, a deletion takes one key away, and a
-- creation leaves one at least. The switch may add keys where it goes on and remove them where it goes
-- off; nothing is relied on but that a zone without keys has none once it is switched off.
pub record HasKeys {S : Type 0} (api : ZoneApi S) (zone_id : Text) (keys : S → List ℕ)
    : Type 0 where
  pub lists :
      (s s' : S) (ks : List ℕ)
      → cryptokeys api zone_id s ≡ (ok ks, s')
      → (ks ≡ keys s) × (keys s' ≡ keys s)
  pub deletes :
      (k : ℕ) (s s' : S)
      → delete_cryptokey api zone_id k s ≡ (ok tt, s')
      → keys s' ≡ keep (λ j. not (j == k)) (keys s)
  pub creates :
      (s s' : S) → create_cryptokey api zone_id (text "csk") true s ≡ (ok tt, s') → keys s' ≢ []
  pub switches_off :
      (s s' : S) → set_zone_dnssec api zone_id false s ≡ (ok tt, s') → keys s ≡ [] → keys s' ≡ []

-- A chain that succeeds has succeeded at each step.
and_then-ok :
    {S A B : Type 0} (r : Reply A × S) (f : A → Call S B) (b : B) (s' : S)
    → and_then r f ≡ (ok b, s')
    → (a : A) × (s : S) × (r ≡ (ok a, s)) × (f a s ≡ (ok b, s'))
and_then-ok (ok a, s) f b s' e = (a, s, refl, e)
and_then-ok (pdns_error x, s) f b s' e = cc

-- The keys that are all on a list are all on what is left of it, once one is deleted.
keep-listed :
    (k : ℕ) (ks js : List ℕ)
    → All (λ j. Any (λ i. i ≡ j) (k ∷ ks)) js
    → All (λ j. Any (λ i. i ≡ j) ks) (keep (λ j. not (j == k)) js)
keep-listed k ks [] h = tt
keep-listed k ks (j ∷ js) (inl e, h) =
    if_elim (All (λ j. Any (λ i. i ≡ j) ks)) (not (j == k)) (λ differs. absurd (ground arith))
      (λ _. keep-listed k ks js h)
keep-listed k ks (j ∷ js) (inr m, h) =
    if_elim (All (λ j. Any (λ i. i ≡ j) ks)) (not (j == k)) (λ _. (m, keep-listed k ks js h))
      (λ _. keep-listed k ks js h)

none_listed : (js : List ℕ) → All (λ j. Any (λ (i : ℕ). i ≡ j) []) js → js ≡ []
none_listed [] h = refl
none_listed (j ∷ js) h = absurd h.0

module _ {S : Type 0} (api : ZoneApi S) (zone_id : Text) (keys : S → List ℕ)
    (laws : HasKeys api zone_id keys) (addr : Text) where
  delete_keys-nil :
      (ks : List ℕ) (s s' : S)
      → All (λ j. Any (λ i. i ≡ j) ks) (keys s)
      → delete_keys api addr zone_id ks s ≡ (ok tt, s')
      → keys s' ≡ []
  unfolding delete_keys
  delete_keys-nil [] s s' h e =
      subst (λ t. keys t ≡ []) (ap (λ (x : Reply Unit × S). x.1) e) (none_listed (keys s) h)
  delete_keys-nil (k ∷ ks) s s' h e =
      let (done, s₁, d, rest) =
        and_then-ok (delete_cryptokey api zone_id k s) (λ _. delete_keys api addr zone_id ks) tt s'
          e in
      delete_keys-nil ks s₁ s'
        (subst (All (λ j. Any (λ i. i ≡ j) ks)) (sym (laws.deletes k s s₁ d))
          (keep-listed k ks (keys s) h))
        rest

  pub disable-nil : (s s' : S) → disable api addr zone_id s ≡ (ok tt, s') → keys s' ≡ []
  unfolding disable
  disable-nil s s' e =
      let (ks, s₁, l, rest) = and_then-ok (cryptokeys api zone_id s) _ tt s' e in
      let (done, s₂, d, last) = and_then-ok (delete_keys api addr zone_id ks s₁) _ tt s' rest in
      let (same, kept) = laws.lists s s₁ ks l in
      laws.switches_off s₂ s' last (
        delete_keys-nil ks s₁ s₂
          (subst (All (λ j. Any (λ i. i ≡ j) ks)) (same ∙ sym kept) (All-listed ks)) d)

  pub enable-ne-nil : (s s' : S) → enable api addr zone_id s ≡ (ok tt, s') → keys s' ≢ []
  unfolding enable
  enable-ne-nil s s' e =
      let (done, s₁, d, rest) = and_then-ok (set_zone_dnssec api zone_id true s) _ tt s' e in
      let (ks, s₂, l, last) = and_then-ok (cryptokeys api zone_id s₁) _ tt s' rest in
      let (same, kept) = laws.lists s₁ s₂ ks l in ensured ks s₂ (same ∙ sym kept) last
    where
      ensured :
          (ks : List ℕ) (s₂ : S)
          → ks ≡ keys s₂
          → ensure_key api addr zone_id ks s₂ ≡ (ok tt, s')
          → keys s' ≢ []
      ensured [] s₂ same last = laws.creates s₂ s' last
      ensured (k ∷ ks) s₂ same last =
          λ n. cc (same, ap keys (ap (λ (x : Reply Unit × S). x.1) last), n)
