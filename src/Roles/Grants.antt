-- ===== src/Roles/Grants.antt =====
-- Which role a list of groups gives.
use powerdns.Prelude.{
  ◌≡◌, refl, ◌≢◌, ◌↔◌, ◌⊎◌, inl, inr, true, false, not, none, some, List, [], ◌∷◌, any, ◌&&◌, ◌||◌,
  is_empty, arith, Any, Option-cases,
}
use mathlib.Core.Option
use powerdns.Text.{Text, strip, lower, contains, before, after?}
use powerdns.Text.Laws.{eq_text_iff, contains-append}
use powerdns.Roles.{
  Group, GroupRoleMap, role_admin, role_operator, role_user, keys, present, matches, resolve,
  is_blank,
}

-- A configured name stands for a group: it is not blank and, spaces and case aside, it is the
-- group's whole name, or the value of the first part of its distinguished name.
abbrev pub StandsFor : Text → Group → Type 0
StandsFor name none = ⊥
StandsFor name (some g) =
    (strip name ≢ [])
    × (strip g ≢ [])
    × ((lower (strip name) ≡ lower (strip g))
        ⊎ (Option.map (λ v. lower (strip v)) (after? b'=' (before b',' (strip g)))
            ≡ some (lower (strip name))))

-- One of the configured names stands for one of the groups.
abbrev pub Grants : List Text → List Group → Type 0
Grants configured groups = Any (λ name. Any (λ g. StandsFor name g) groups) configured

not_empty : (t : Text) → (is_empty t ≡ false) ↔ (t ≢ [])
not_empty [] = ground arith
not_empty (c ∷ t) = ground arith

keys_iff :
    (name : Text) (g : Group)
    → strip name ≢ []
    → (contains (lower (strip name)) (keys g) ≡ true) ↔ StandsFor name g
unfolding keys contains
keys_iff name none h = ground arith
keys_iff name (some g) h = elim (Option-cases (after? b'=' (before b',' (strip g)))) [
  | inl a ↦
      rw a (ground (arith, not_empty (strip g), eq_text_iff (lower (strip g)) (lower (strip name))))
  | inr (v, a) ↦ rw a (
      ground (
        arith,
        not_empty (strip g),
        eq_text_iff (lower (strip g)) (lower (strip name)),
        eq_text_iff (lower (strip v)) (lower (strip name)),
      ))
]

contains-present :
    (k : Text) (gs : List Group) → contains k (present gs) ≡ any (λ g. contains k (keys g)) gs
unfolding present
contains-present k [] = unfold contains in refl
contains-present k (g ∷ gs) = rw (contains-append, contains-present k gs)

any_stands :
    (name : Text) (gs : List Group)
    → strip name ≢ []
    → (any (λ g. contains (lower (strip name)) (keys g)) gs ≡ true) ↔ Any (λ g. StandsFor name g) gs
any_stands name [] h = ground arith
any_stands name (g ∷ gs) h = ground (arith, keys_iff name g h, any_stands name gs h)

matches-cons :
    (name : Text) (names : List Text) (gs : List Group)
    → matches (name ∷ names) gs ≡ (
        not (is_blank name) && any (λ g. contains (lower (strip name)) (keys g)) gs
        || matches names gs)
unfolding matches
matches-cons name names gs = rw (← contains-present (lower (strip name)) gs) (ground arith)

blank_stands : (name : Text) (gs : List Group) → strip name ≡ [] → ¬ Any (λ g. StandsFor name g) gs
blank_stands name (none ∷ gs) h = ground (arith, blank_stands name gs h)
blank_stands name (some g ∷ gs) h = ground (arith, blank_stands name gs h)
blank_stands name [] h = λ a. a

matches_iff :
    (configured : List Text) (gs : List Group)
    → (matches configured gs ≡ true) ↔ Grants configured gs
matches_iff [] gs = unfold matches in ground arith
matches_iff (name ∷ names) gs = ground (
  arith,
  matches-cons name names gs,
  matches_iff names gs,
  not_empty (strip name),
  blank_stands name gs,
  any_stands name gs,
)

-- A person gets the role of the highest list that one of their groups is in: admin before operator
-- before user. Somebody in no listed group gets the default role, if that is not the empty text.
pub resolve_lem :
    (m : GroupRoleMap) (gs : List Group)
    → (Grants m.admin_groups gs → resolve m gs ≡ some role_admin)
      × (¬ Grants m.admin_groups gs
          → Grants m.operator_groups gs
          → resolve m gs ≡ some role_operator)
      × (¬ Grants m.admin_groups gs
          → ¬ Grants m.operator_groups gs
          → Grants m.user_groups gs
          → resolve m gs ≡ some role_user)
      × (¬ Grants m.admin_groups gs
          → ¬ Grants m.operator_groups gs
          → ¬ Grants m.user_groups gs
          → m.default_role ≢ some []
          → resolve m gs ≡ m.default_role)
unfolding resolve
resolve_lem m gs = ground (
  arith,
  matches_iff m.admin_groups gs,
  matches_iff m.operator_groups gs,
  matches_iff m.user_groups gs,
)
