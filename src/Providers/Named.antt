-- ===== src/Providers/Named.antt =====
-- The OAuth providers by name: an earlier one hides a later one with its name.
use powerdns.Prelude.{
  arith, ◌≡◌, refl, Bool, true, false, ◌||◌, Option, none, some, List, [], ◌∷◌, ◌++◌, find, map,
  if◌then◌else◌,
}
use powerdns.Text.{Text, eq_text, contains}
use powerdns.Config.Providers.{OAuthProvider}
use powerdns.Config.Auth.{is_named}

abbrev pub or_first : {A : Type 0} → Option A → Option A → Option A
or_first none next = next
or_first (some a) next = some a

abbrev pub found : {A : Type 0} → Option A → Bool
found none = false
found (some a) = true

abbrev pub names_of : List OAuthProvider → List Text
names_of providers = map (λ (p : OAuthProvider). p.name) providers

pub find-append :
    (n : Text) (ps : List OAuthProvider) (p : OAuthProvider)
    → find (is_named n) (ps ++ p ∷ [])
      ≡ or_first (find (is_named n) ps) (if eq_text p.name n then some p else none)
find-append n [] p = refl
find-append n (q ∷ ps) p = ground (arith, find-append n ps p)

pub contains-found :
    (n : Text) (ps : List OAuthProvider) → contains n (names_of ps) ≡ found (find (is_named n) ps)
unfolding contains
contains-found n [] = refl
contains-found n (p ∷ ps) = ground (arith, contains-found n ps)

pub found-or_first :
    {A : Type 0} (o next : Option A) → found (or_first o next) ≡ found o || found next
found-or_first none next = refl
found-or_first (some a) next = refl
