-- ===== src/Providers/Chosen.antt =====
-- What is to be in effect, said of all the rows at once, and what each branch of widen_by in
-- Providers/Effective.antt does to it.
use powerdns.Prelude.{
  arith, ◌≡◌, refl, Bool, true, false, ◌&&◌, Option, none, some, List, [], ◌∷◌, find, keep,
  if◌then◌else◌,
}
use powerdns.Text.{Text, eq_text, contains}
use powerdns.Text.Laws.{eq_text_iff}
use powerdns.Ldap.{LdapConfig}
use powerdns.Config.Providers.{OAuthProvider}
use powerdns.Config.Saml.{SamlConfig}
use powerdns.Config.Auth.{is_named}
use powerdns.Providers.{AuthProviderConfig, Unusable, Built, fine, unusable}
use powerdns.Providers.Step.{is_oauth}
use powerdns.Providers.Named.{or_first, found, find-append, found-or_first}
use powerdns.Providers.Enabled.{Each}
use powerdns.Providers.Effective.{Widening, unless_raised, with_ldap, with_saml, with_oauth}

abbrev pub or_next : {A : Type 0} → Built A → Option A → Option A
or_next (fine a) next = some a
or_next (unusable p) next = next

-- What the first row that passes the test and can be used is built into.
abbrev pub first_usable :
    {A : Type 0}
    → (AuthProviderConfig → Bool)
    → (AuthProviderConfig → Built A)
    → List AuthProviderConfig
    → Option A
first_usable test f [] = none
first_usable test f (row ∷ rows) =
    if test row then or_next (f row) (first_usable test f rows) else first_usable test f rows

abbrev pub unless_some : {A : Type 0} → A → Option A → A
unless_some a none = a
unless_some a (some b) = b

abbrev pub ldap_of : LdapConfig → Option LdapConfig → LdapConfig
ldap_of c next = if c.enabled then c else unless_some c next

abbrev pub saml_of : SamlConfig → Option SamlConfig → SamlConfig
saml_of c next = if c.enabled then c else unless_some c next

abbrev pub named : Text → AuthProviderConfig → Bool
named n row = is_oauth row && eq_text row.name n

abbrev pub enabled_rows : List AuthProviderConfig → List AuthProviderConfig
enabled_rows rows = keep (λ (row : AuthProviderConfig). row.enabled) rows

pub raised-same : (p : Unusable) (w w' : Widening) → unless_raised p w ≡ some w' → w ≡ w'
raised-same p w w' h = ground arith

pub with_ldap-ldap_of :
    (b : Built LdapConfig) (w w' : Widening) (next : Option LdapConfig)
    → Each (λ (c : LdapConfig). c.enabled ≡ true) b
    → w.config.ldap.enabled ≡ false
    → with_ldap b w ≡ some w'
    → ldap_of w.config.ldap (or_next b next) ≡ ldap_of w'.config.ldap next
with_ldap-ldap_of (fine c) w w' next h e k = ground arith
with_ldap-ldap_of (unusable p) w w' next h e k = cc (raised-same p w w' k)

pub with_saml-saml_of :
    (b : Built SamlConfig) (w w' : Widening) (next : Option SamlConfig)
    → Each (λ (c : SamlConfig). c.enabled ≡ true) b
    → w.config.saml.enabled ≡ false
    → with_saml b w ≡ some w'
    → saml_of w.config.saml (or_next b next) ≡ saml_of w'.config.saml next
with_saml-saml_of (fine c) w w' next h e k = ground arith
with_saml-saml_of (unusable p) w w' next h e k = cc (raised-same p w w' k)

pub with_ldap-other :
    (b : Built LdapConfig) (w w' : Widening)
    → with_ldap b w ≡ some w'
    → (w.config.local_enabled ≡ w'.config.local_enabled)
      × (w.config.saml ≡ w'.config.saml)
      × (w.config.oauth_providers ≡ w'.config.oauth_providers)
      × (w.taken ≡ w'.taken)
with_ldap-other (fine c) w w' k = (cc, cc, cc, cc)
with_ldap-other (unusable p) w w' k = let e = raised-same p w w' k in (cc e, cc e, cc e, cc e)

pub with_saml-other :
    (b : Built SamlConfig) (w w' : Widening)
    → with_saml b w ≡ some w'
    → (w.config.local_enabled ≡ w'.config.local_enabled)
      × (w.config.ldap ≡ w'.config.ldap)
      × (w.config.oauth_providers ≡ w'.config.oauth_providers)
      × (w.taken ≡ w'.taken)
with_saml-other (fine c) w w' k = (cc, cc, cc, cc)
with_saml-other (unusable p) w w' k = let e = raised-same p w w' k in (cc e, cc e, cc e, cc e)

pub with_oauth-other :
    (name : Text) (b : Built OAuthProvider) (w w' : Widening)
    → with_oauth name b w ≡ some w'
    → (w.config.local_enabled ≡ w'.config.local_enabled)
      × (w.config.ldap ≡ w'.config.ldap)
      × (w.config.saml ≡ w'.config.saml)
with_oauth-other name (fine c) w w' k = (cc, cc, cc)
with_oauth-other name (unusable p) w w' k = let e = raised-same p w w' k in (cc e, cc e, cc e)

pub if_true : {A : Type 0} (b : Bool) (x y : A) → b ≡ true → (if b then x else y) ≡ x
if_true b x y h = ground arith

pub if_false : {A : Type 0} (b : Bool) (x y : A) → b ≡ false → (if b then x else y) ≡ y
if_false b x y h = ground arith

-- What the names that are taken are for.
abbrev pub Taken : Widening → Type 0
Taken w = (n : Text) → contains n w.taken ≡ found (find (is_named n) w.config.oauth_providers)

pub with_oauth-named :
    (name n : Text) (b : Built OAuthProvider) (w w' : Widening) (next : Option OAuthProvider)
    → Each (λ (p : OAuthProvider). p.name ≡ name) b
    → found (find (is_named name) w.config.oauth_providers) ≡ false
    → with_oauth name b w ≡ some w'
    → or_first
        (find (is_named n) w.config.oauth_providers)
        (if eq_text name n then or_next b next else next)
      ≡ or_first (find (is_named n) w'.config.oauth_providers) next
with_oauth-named name n (fine p) w w' next h f k =
    let e = find-append n w.config.oauth_providers p in ground (arith, eq_text_iff name n, e)
with_oauth-named name n (unusable p) w w' next h f k = ground (arith, raised-same p w w' k)

pub idle-named :
    (b : Bool) (name n : Text) (w : Widening) (this next : Option OAuthProvider)
    → (b ≡ true → found (find (is_named name) w.config.oauth_providers) ≡ true)
    → or_first
        (find (is_named n) w.config.oauth_providers)
        (if b && eq_text name n then this else next)
      ≡ or_first (find (is_named n) w.config.oauth_providers) next
idle-named true name n w this next h = ground (arith, eq_text_iff name n, h refl)
idle-named false name n w this next h = refl

pub with_oauth-Taken :
    (name : Text) (b : Built OAuthProvider) (w w' : Widening)
    → Each (λ (p : OAuthProvider). p.name ≡ name) b
    → with_oauth name b w ≡ some w'
    → Taken w
    → Taken w'
unfolding contains
with_oauth-Taken name (fine p) w w' h k t n =
    let e = find-append n w.config.oauth_providers p in
    let f =
      found-or_first (find (is_named n) w.config.oauth_providers)
        (if eq_text p.name n then some p else none) in
    ground (arith, t n)
with_oauth-Taken name (unusable p) w w' h k t n = cc (raised-same p w w' k, t n)

-- A row whose place is taken has no part in what is in effect.
pub idle-ldap :
    (b : Bool) (c : LdapConfig) (this next : Option LdapConfig)
    → (b ≡ true → c.enabled ≡ true)
    → ldap_of c (if b then this else next) ≡ ldap_of c next
idle-ldap true c this next h = ground (arith, h refl)
idle-ldap false c this next h = refl

pub idle-saml :
    (b : Bool) (c : SamlConfig) (this next : Option SamlConfig)
    → (b ≡ true → c.enabled ≡ true)
    → saml_of c (if b then this else next) ≡ saml_of c next
idle-saml true c this next h = ground (arith, h refl)
idle-saml false c this next h = refl

pub ldap_of-none : (c : LdapConfig) → c ≡ ldap_of c none
ldap_of-none c = ground arith

pub saml_of-none : (c : SamlConfig) → c ≡ saml_of c none
saml_of-none c = ground arith

pub or_first-none : {A : Type 0} (o : Option A) → o ≡ or_first o none
or_first-none none = refl
or_first-none (some a) = refl
