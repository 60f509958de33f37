-- ===== src/Store/Users.antt =====
-- Rows of the users table: lookups after writes, and counts of active administrators.
use powerdns.Prelude.{
  ℕ, suc, ◌≤◌, ◌<◌, ◌≡◌, ◌≢◌, refl, subst, Bool, true, false, find, if◌then◌else◌, none, some, List,
  [], ◌∷◌, ◌++◌, ◌==◌, ==_iff, arith, All, All-append, Bool-cases, inl, inr,
}
use powerdns.Store.{
  User, get_user, set_user, remove_user, is_active_admin, active_admins, other_admins,
}

-- No two rows have the same primary key.
abbrev pub HasUniqueIds : List User → Type 0
HasUniqueIds [] = Unit
HasUniqueIds (u ∷ us) = All (λ v. v.id ≢ u.id) us × HasUniqueIds us

pub get_user-id : (i : ℕ) (us : List User) {u : User} → get_user i us ≡ some u → u.id ≡ i
unfolding get_user
get_user-id i [] h = cc
get_user-id i (v ∷ us) {u} h = ground (arith, get_user-id i us {u = u})

-- Writing one row leaves the lookup of any other as it was.
pub get_user-set_user :
    (i : ℕ) (u : User) (us : List User) → i ≢ u.id → get_user i (set_user u us) ≡ get_user i us
unfolding get_user set_user
get_user-set_user i u [] h = refl
get_user-set_user i u (v ∷ us) h = ground (arith, get_user-set_user i u us h)

pub get_user-set_user_self :
    (u : User) (us : List User) {v : User}
    → get_user u.id us ≡ some v
    → get_user u.id (set_user u us) ≡ some u
unfolding get_user set_user
get_user-set_user_self u [] h = cc
get_user-set_user_self u (w ∷ us) {v} h = ground (arith, get_user-set_user_self u us {v = v})

pub other_admins-le-set_user :
    (u : User) (us : List User) → other_admins u.id us ≤ active_admins (set_user u us)
unfolding other_admins active_admins set_user
other_admins-le-set_user u [] = omega arith
other_admins-le-set_user u (v ∷ us) = ground (arith, other_admins-le-set_user u us)

pub admin_stays :
    (u : User) (us : List User) {v : User}
    → get_user u.id us ≡ some v
    → is_active_admin u ≡ true
    → 0 < active_admins (set_user u us)
unfolding active_admins set_user get_user
admin_stays u [] h a = cc
admin_stays u (w ∷ us) {v} h a = ground (arith, admin_stays u us {v = v})

-- With unique keys, leaving out a row that is no active administrator leaves the count.
pub not_counted :
    (i : ℕ) (us : List User) → All (λ v. v.id ≢ i) us → other_admins i us ≡ active_admins us
unfolding other_admins active_admins
not_counted i [] h = refl
not_counted i (v ∷ us) h = ground (arith, not_counted i us h.1)

pub other_admins_of_inactive :
    (i : ℕ) (us : List User) {u : User}
    → HasUniqueIds us
    → get_user i us ≡ some u
    → is_active_admin u ≡ false
    → other_admins i us ≡ active_admins us
unfolding other_admins active_admins get_user
other_admins_of_inactive i [] h g a = cc
other_admins_of_inactive i (v ∷ us) {u} h g a = elim (Bool-cases (v.id == i)) [
  | inl e ↦
      ground
        (arith, not_counted i us (subst (λ j. All (λ w. w.id ≢ j) us) ((==_iff v.id i).0 e) h.0))
  | inr e ↦ ground (arith, other_admins_of_inactive i us {u = u} h.1)
]

pub active_admins-remove_user :
    (i : ℕ) (us : List User) → active_admins (remove_user i us) ≡ other_admins i us
unfolding active_admins other_admins remove_user
active_admins-remove_user i [] = refl
active_admins-remove_user i (v ∷ us) = ground (arith, active_admins-remove_user i us)

-- Keys stay unique under a write and a removal.
All-set_user :
    (j : ℕ) (u : User) (us : List User)
    → All (λ v. v.id ≢ j) us
    → All (λ v. v.id ≢ j) (set_user u us)
unfolding set_user
All-set_user j u [] h = tt
All-set_user j u (v ∷ us) h = ground (arith, All-set_user j u us h.1)

pub set_user-HasUniqueIds :
    (u : User) (us : List User) → HasUniqueIds us → HasUniqueIds (set_user u us)
unfolding set_user
set_user-HasUniqueIds u [] h = tt
set_user-HasUniqueIds u (v ∷ us) h = elim (Bool-cases (v.id == u.id)) [
  | inl e ↦ rw e (
    subst (λ j. All (λ w. w.id ≢ j) (set_user u us)) ((==_iff v.id u.id).0 e)
        (All-set_user v.id u us h.0),
    set_user-HasUniqueIds u us h.1,
  )
  | inr e ↦ rw e (All-set_user v.id u us h.0, set_user-HasUniqueIds u us h.1)
]

All-remove_user :
    (j i : ℕ) (us : List User) → All (λ v. v.id ≢ j) us → All (λ v. v.id ≢ j) (remove_user i us)
unfolding remove_user
All-remove_user j i [] h = tt
All-remove_user j i (v ∷ us) h = ground (arith, All-remove_user j i us h.1)

pub remove_user-HasUniqueIds :
    (i : ℕ) (us : List User) → HasUniqueIds us → HasUniqueIds (remove_user i us)
unfolding remove_user
remove_user-HasUniqueIds i [] h = tt
remove_user-HasUniqueIds i (v ∷ us) h =
    ground (arith, All-remove_user v.id i us h.0, remove_user-HasUniqueIds i us h.1)

-- What holds of every row, and of the row that is written, holds after the write; and after a removal.
module _ (P : User → Type 0) where
  pub set_user-All : (u : User) (us : List User) → P u → All P us → All P (set_user u us)
  unfolding set_user
  set_user-All u [] p h = tt
  set_user-All u (v ∷ us) p h = ground (arith, set_user-All u us p h.1)

  pub remove_user-All : (i : ℕ) (us : List User) → All P us → All P (remove_user i us)
  unfolding remove_user
  remove_user-All i [] h = tt
  remove_user-All i (v ∷ us) h = ground (arith, remove_user-All i us h.1)

  pub get_user-All : (i : ℕ) (us : List User) (u : User) → get_user i us ≡ some u → All P us → P u
  unfolding get_user
  get_user-All i [] u g h = cc
  get_user-All i (v ∷ us) u g h = elim (Bool-cases (v.id == i)) [
    | inl e ↦ let same : v ≡ u = ground arith in subst P same h.0
    | inr e ↦ get_user-All i us u (ground arith) h.1
  ]

pub append-HasUniqueIds :
    (us : List User) (u : User) (n : ℕ)
    → HasUniqueIds us
    → All (λ v. v.id < n) us
    → u.id ≡ n
    → HasUniqueIds (us ++ u ∷ [])
append-HasUniqueIds [] u n h b e = (tt, tt)
append-HasUniqueIds (v ∷ us) u n h b e = (
  All-append (λ w. w.id ≢ v.id) us (u ∷ []) h.0 ((omega arith), tt),
  append-HasUniqueIds us u n h.1 b.1 e,
)

pub All-weaken : (us : List User) (n : ℕ) → All (λ v. v.id < n) us → All (λ v. v.id < suc n) us
All-weaken [] n h = tt
All-weaken (v ∷ us) n h = (omega arith, All-weaken us n h.1)

pub active_admins-append :
    (us : List User) (u : User) → active_admins us ≤ active_admins (us ++ u ∷ [])
unfolding active_admins
active_admins-append [] u = omega arith
active_admins-append (v ∷ us) u = ground (arith, active_admins-append us u)

-- A row that a search finds is the row under its own key.
pub get_user-find :
    (p : User → Bool) (us : List User) (u : User)
    → HasUniqueIds us
    → find p us ≡ some u
    → (get_user u.id us ≡ some u) × (p u ≡ true)
unfolding get_user
get_user-find p [] u h e = cc
get_user-find p (v ∷ us) u h e = elim (Bool-cases (p v)) [
  | inl t ↦
      let same : v ≡ u = ground arith in
      subst (λ w. (get_user w.id (v ∷ us) ≡ some w) × (p w ≡ true)) same (ground arith, t)
  | inr f ↦
      let (found, holds) = get_user-find p us u h.1 (ground arith) in
      (ground (arith, get_user-All (λ w. w.id ≢ v.id) u.id us u found h.0), holds)
]

pub get_user_fresh : (us : List User) (n : ℕ) → All (λ v. v.id < n) us → get_user n us ≡ none
unfolding get_user
get_user_fresh [] n h = refl
get_user_fresh (v ∷ us) n h = ground (arith, get_user_fresh us n h.1)

pub get_user-append :
    (i : ℕ) (us : List User) (u : User)
    → get_user i (us ++ u ∷ [])
      ≡ elim (get_user i us) [ some v ↦ some v | none ↦ if u.id == i then some u else none ]
unfolding get_user
get_user-append i [] u = refl
get_user-append i (v ∷ us) u = ground (arith, get_user-append i us u)
