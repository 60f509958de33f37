-- ===== src/Recursor/Client/Names.antt =====
-- The names that a sync adds and takes away: the sets of sync_local_zones of webui/app/recursor.py.
use powerdns.Prelude.{
  ◌≡◌, ◌≢◌, ◌↔◌, inl, inr, refl, true, not, ◌&&◌, ◌||◌, List, [], ◌∷◌, keep, map, arith, Any,
  is_empty,
}
use powerdns.Text.{Text, strip, contains, dedup, sorted}
use powerdns.Text.Laws.{eq_text_iff, contains_iff}
use powerdns.Text.Sets.{contains-sorted, contains-dedup_onto, contains-keep, not_empty}
use powerdns.Names.{dot, canonical}
use powerdns.Recursor.{ForwardZone}
use powerdns.Recursor.Client.{
  is_ours, is_only, zone_names, our_names, wanted_names, to_add, to_remove,
}

-- A name of a zone that the panel hosts.
abbrev pub IsHosted : List Text → Text → Type 0
IsHosted names t = Any (λ n. (strip n ≢ []) × (canonical n ≡ t)) names

-- A rule has the name; a rule that has it points at the target, and at nothing else, and is not global.
abbrev pub HasRule : List ForwardZone → Text → Type 0
HasRule current t = Any (λ (z : ForwardZone). z.name ≡ t) current

abbrev pub HasOurRule : Text → List ForwardZone → Text → Type 0
HasOurRule target current t =
    Any (λ (z : ForwardZone). (z.name ≡ t) × (z.name ≢ dot) × (z.servers ≡ target ∷ [])) current

contains-wanted_names :
    (t : Text) (names : List Text) → (contains t (wanted_names names) ≡ true) ↔ IsHosted names t
unfolding dedup contains
contains-wanted_names t names =
    rw (contains-dedup_onto t [] (map canonical (keep (λ n. not (is_empty (strip n))) names)))
      (go names)
  where
    go :
        (ns : List Text)
        → ((contains t [] || contains t (map canonical (keep (λ n. not (is_empty (strip n))) ns)))
            ≡ true)
          ↔ IsHosted ns t
    go [] = ground arith
    go (n ∷ ns) = ground (arith, go ns, not_empty (strip n), eq_text_iff (canonical n) t)

contains-zone_names :
    (t : Text) (current : List ForwardZone)
    → (contains t (zone_names current) ≡ true) ↔ HasRule current t
unfolding contains
contains-zone_names t [] = ground arith
contains-zone_names t (z ∷ zs) = ground (arith, contains-zone_names t zs, eq_text_iff z.name t)

is_only_iff :
    (target : Text) (servers : List Text)
    → (is_only target servers ≡ true) ↔ (servers ≡ target ∷ [])
is_only_iff target [] = ground arith
is_only_iff target (s ∷ []) = ground (arith, eq_text_iff s target)
is_only_iff target (s ∷ r ∷ rest) = ground arith

is_ours_iff :
    (target : Text) (z : ForwardZone)
    → (is_ours target z ≡ true) ↔ ((z.name ≢ dot) × (z.servers ≡ target ∷ []))
is_ours_iff target z = ground (arith, is_only_iff target z.servers, eq_text_iff z.name dot)

contains-our_names :
    (target t : Text) (current : List ForwardZone)
    → (contains t (our_names target current) ≡ true) ↔ HasOurRule target current t
unfolding contains
contains-our_names target t [] = ground arith
contains-our_names target t (z ∷ zs) =
    ground (arith, contains-our_names target t zs, eq_text_iff z.name t, is_ours_iff target z)

-- What a sync adds: the hosted names that no rule has.
abbrev pub IsAdded : Text → List Text → List ForwardZone → Text → Type 0
IsAdded target names current t = IsHosted names t × ¬ HasRule current t

-- What it takes away: the names that are not hosted of rules that point at the target.
abbrev pub IsRemoved : Text → List Text → List ForwardZone → Text → Type 0
IsRemoved target names current t = HasOurRule target current t × ¬ IsHosted names t

ours_named :
    (target t : Text) (current : List ForwardZone) → HasOurRule target current t → HasRule current t
ours_named target t [] h = h
ours_named target t (z ∷ zs) (inl h) = inl h.0
ours_named target t (z ∷ zs) (inr h) = inr (ours_named target t zs h)

pub to_add_iff :
    (target : Text) (names : List Text) (current : List ForwardZone) (t : Text)
    → Any (λ n. n ≡ t) (to_add target names current) ↔ IsAdded target names current t
unfolding to_add
to_add_iff target names current t = ground (
  arith,
  contains_iff t (to_add target names current),
  test,
  contains-wanted_names t names,
  contains-zone_names t current,
  contains-our_names target t current,
  ours_named target t current,
)
  where
    test : contains t (to_add target names current) ≡ (
        contains t (wanted_names names)
        && not (contains t (our_names target current))
        && not (contains t (zone_names current)))
    test =
        rw
          (
            contains-keep t (λ n. not (contains n (zone_names current)))
                (sorted
                  (keep (λ n. not (contains n (our_names target current))) (wanted_names names))),
            contains-sorted t
                (keep (λ n. not (contains n (our_names target current))) (wanted_names names)),
            contains-keep t (λ n. not (contains n (our_names target current))) (wanted_names names),
          )
          (ground arith)

pub to_remove_iff :
    (target : Text) (names : List Text) (current : List ForwardZone) (t : Text)
    → Any (λ n. n ≡ t) (to_remove target names current) ↔ IsRemoved target names current t
unfolding to_remove dedup
to_remove_iff target names current t = ground (
  arith,
  contains_iff t (to_remove target names current),
  test,
  contains-wanted_names t names,
  contains-our_names target t current,
)
  where
    test : contains t (to_remove target names current) ≡ (
        (contains t [] || contains t (our_names target current))
        && not (contains t (wanted_names names)))
    test =
        rw
          (
            contains-sorted t (
                keep (λ n. not (contains n (wanted_names names)))
                  (dedup (our_names target current))),
            contains-keep t (λ n. not (contains n (wanted_names names)))
                (dedup (our_names target current)),
            contains-dedup_onto t [] (our_names target current),
          )
          refl
