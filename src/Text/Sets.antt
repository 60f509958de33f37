-- ===== src/Text/Sets.antt =====
-- Membership in sorted, filtered and deduplicated lists of texts, which stand for Python's sets.
use powerdns.Prelude.{
  ◌≡◌, ◌≢◌, ◌↔◌, inl, inr, refl, ◌∙◌, Bool, true, not, ◌&&◌, ◌||◌, List, [], ◌∷◌, ◌++◌, keep, arith,
  Bool-cases, is_empty,
}
use powerdns.Text.{Text, contains, dedup_onto, sorted, insert_sorted}
use powerdns.Text.Laws.{eq_text_iff, contains-append}

contains-insert_sorted :
    (t z : Text) (ts : List Text) → contains t (insert_sorted z ts) ≡ contains t (z ∷ ts)
unfolding contains insert_sorted
contains-insert_sorted t z [] = refl
contains-insert_sorted t z (s ∷ ts) = ground (arith, contains-insert_sorted t z ts)

pub contains-sorted : (t : Text) (ts : List Text) → contains t (sorted ts) ≡ contains t ts
unfolding sorted contains
contains-sorted t [] = refl
contains-sorted t (z ∷ ts) =
    contains-insert_sorted t z (sorted ts) ∙ ground (arith, contains-sorted t ts)

pub contains-dedup_onto :
    (t : Text) (seen ts : List Text)
    → contains t (dedup_onto seen ts) ≡ (contains t seen || contains t ts)
unfolding dedup_onto
contains-dedup_onto t seen [] = unfold contains in ground arith
contains-dedup_onto t seen (z ∷ ts) = elim (Bool-cases (contains z seen)) [
  | inl e ↦ rw e (contains-dedup_onto t seen ts ∙ ground (arith, eq_text_iff z t))
  | inr e ↦ rw e (
      contains-dedup_onto t (seen ++ z ∷ []) ts
      ∙ rw (contains-append t seen (z ∷ [])) (unfold contains in ground arith))
]

pub contains-keep :
    (t : Text) (p : Text → Bool) (ts : List Text) → contains t (keep p ts) ≡ (contains t ts && p t)
unfolding contains
contains-keep t p [] = refl
contains-keep t p (z ∷ ts) = ground (arith, contains-keep t p ts, eq_text_iff z t)

pub not_empty : (t : Text) → (not (is_empty t) ≡ true) ↔ (t ≢ [])
not_empty [] = ground arith
not_empty (c ∷ t) = ground arith
