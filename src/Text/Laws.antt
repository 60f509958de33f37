-- ===== src/Text/Laws.antt =====
-- Laws of the text methods.
use powerdns.Prelude.{
  ℕ, ◌≡◌, refl, ◌∙◌, ◌↔◌, Bool, true, false, List, [], ◌∷◌, ◌++◌, arith, Any, ◌||◌, Bool-cases, inl,
  inr,
}
use powerdns.Text.{
  Text, contains, eq_text, is_space, close, lstrip, rstrip, lower_char, lower, upper_char, upper,
}

pub eq_text_iff : (s t : Text) → (eq_text s t ≡ true) ↔ (s ≡ t)
unfolding eq_text
eq_text_iff [] [] = ground arith
eq_text_iff [] (b ∷ t) = ground arith
eq_text_iff (a ∷ s) [] = ground arith
eq_text_iff (a ∷ s) (b ∷ t) = ground (arith, eq_text_iff s t)

pub eq_text_refl : (s : Text) → eq_text s s ≡ true
eq_text_refl s = (eq_text_iff s s).1 refl

pub lower_char_idem : (c : ℕ) → lower_char (lower_char c) ≡ lower_char c
unfolding lower_char
lower_char_idem c = ground arith

pub lower_idem : (s : Text) → lower (lower s) ≡ lower s
unfolding lower
lower_idem [] = refl
lower_idem (c ∷ s) = ground (arith, lower_char_idem c, lower_idem s)

upper_char_idem : (c : ℕ) → upper_char (upper_char c) ≡ upper_char c
unfolding upper_char
upper_char_idem c = ground arith

pub upper_idem : (s : Text) → upper (upper s) ≡ upper s
unfolding upper
upper_idem [] = refl
upper_idem (c ∷ s) = ground (arith, upper_char_idem c, upper_idem s)

is_space-lower_char : (c : ℕ) → is_space (lower_char c) ≡ is_space c
unfolding is_space lower_char
is_space-lower_char c = ground arith

-- The first character, if there is one, fails the test.
abbrev pub HeadNot : (ℕ → Bool) → Text → Type 0
HeadNot p [] = Unit
HeadNot p (c ∷ s) = p c ≡ false

pub lstrip-HeadNot : (p : ℕ → Bool) (s : Text) → HeadNot p (lstrip p s)
unfolding lstrip
lstrip-HeadNot p [] = tt
lstrip-HeadNot p (c ∷ s) = elim (Bool-cases (p c)) [
  | inl e ↦ rw e (lstrip-HeadNot p s)
  | inr e ↦ rw e e
]

pub lstrip_of_HeadNot : (p : ℕ → Bool) (s : Text) → HeadNot p s → lstrip p s ≡ s
unfolding lstrip
lstrip_of_HeadNot p [] h = refl
lstrip_of_HeadNot p (c ∷ s) h = rw h

-- Stripping on the right never uncovers another first character.
pub rstrip-HeadNot : (p q : ℕ → Bool) (s : Text) → HeadNot q s → HeadNot q (rstrip p s)
unfolding rstrip
rstrip-HeadNot p q [] h = tt
rstrip-HeadNot p q (c ∷ s) h = close-HeadNot p q c (rstrip p s) h
  where
    close-HeadNot : (p q : ℕ → Bool) (c : ℕ) (s : Text) → q c ≡ false → HeadNot q (close p c s)
    close-HeadNot p q c [] h = elim (Bool-cases (p c)) [ inl e ↦ rw e tt | inr e ↦ rw e h ]
    close-HeadNot p q c (d ∷ s) h = h

pub rstrip-snoc :
    (p : ℕ → Bool) (s : Text) (c : ℕ) → p c ≡ false → rstrip p (s ++ c ∷ []) ≡ s ++ c ∷ []
unfolding rstrip
rstrip-snoc p [] c h = rw h
rstrip-snoc p (d ∷ []) c h = rw h
rstrip-snoc p (d ∷ e ∷ s) c h = rw (rstrip-snoc p (e ∷ s) c h)

pub rstrip-snoc_drop :
    (p : ℕ → Bool) (s : Text) (c : ℕ) → p c ≡ true → rstrip p (s ++ c ∷ []) ≡ rstrip p s
unfolding rstrip
rstrip-snoc_drop p [] c h = rw h
rstrip-snoc_drop p (d ∷ s) c h = rw (rstrip-snoc_drop p s c h)

pub rstrip_idem : (p : ℕ → Bool) (s : Text) → rstrip p (rstrip p s) ≡ rstrip p s
unfolding rstrip
rstrip_idem p [] = refl
rstrip_idem p (c ∷ s) = close_idem p c (rstrip p s) (rstrip_idem p s)
  where
    close_idem :
        (p : ℕ → Bool) (c : ℕ) (s : Text) → rstrip p s ≡ s → rstrip p (close p c s) ≡ close p c s
    close_idem p c [] h = elim (Bool-cases (p c)) [ inl e ↦ rw e | inr e ↦ rw e (rw e) ]
    close_idem p c (d ∷ s) h = rw h

-- The lower-case texts are those that `lower` keeps.
pub lower-append : (s t : Text) → lower (s ++ t) ≡ lower s ++ lower t
unfolding lower
lower-append [] t = refl
lower-append (c ∷ s) t = rw (lower-append s t)

pub lower-rstrip : (p : ℕ → Bool) (s : Text) → lower s ≡ s → lower (rstrip p s) ≡ rstrip p s
unfolding lower rstrip
lower-rstrip p [] h = refl
lower-rstrip p (c ∷ s) h =
    close-lower p c (rstrip p s) (lower-rstrip p s (ground arith)) (ground arith)
  where
    close-lower :
        (p : ℕ → Bool) (c : ℕ) (s : Text)
        → lower s ≡ s
        → lower_char c ≡ c
        → lower (close p c s) ≡ close p c s
    close-lower p c [] h e = elim (Bool-cases (p c)) [ inl q ↦ rw q | inr q ↦ rw q (rw e) ]
    close-lower p c (d ∷ s) h e = rw (e, h)

pub HeadNot-lower : (s : Text) → HeadNot is_space s → HeadNot is_space (lower s)
unfolding lower
HeadNot-lower [] h = tt
HeadNot-lower (c ∷ s) h = is_space-lower_char c ∙ h

pub contains_iff : (t : Text) (ts : List Text) → (contains t ts ≡ true) ↔ Any (λ s. s ≡ t) ts
unfolding contains
contains_iff t [] = ground arith
contains_iff t (s ∷ ts) = ground (arith, eq_text_iff s t, contains_iff t ts)

pub contains-append :
    (t : Text) (xs ys : List Text) → contains t (xs ++ ys) ≡ (contains t xs || contains t ys)
unfolding contains
contains-append t [] ys = refl
contains-append t (x ∷ xs) ys = ground (arith, contains-append t xs ys)
