-- ===== src/Text/Upper.antt =====
-- Upper case: what `str.upper().strip()` leaves has no lower case in it.
use powerdns.Prelude.{ℕ, ◌≡◌, refl, inl, inr, Bool, [], ◌∷◌, Bool-cases, arith, if_elim}
use powerdns.Text.{Text, is_space, lstrip, close, rstrip, strip, upper_char, upper}
use powerdns.Text.Laws.{upper_idem}

upper-close :
    (p : ℕ → Bool) (c : ℕ) (s : Text)
    → upper s ≡ s
    → upper_char c ≡ c
    → upper (close p c s) ≡ close p c s
unfolding upper
upper-close p c [] h e = elim (Bool-cases (p c)) [ inl q ↦ rw q | inr q ↦ rw q (rw e) ]
upper-close p c (d ∷ s) h e = rw (e, h)

upper-rstrip : (p : ℕ → Bool) (s : Text) → upper s ≡ s → upper (rstrip p s) ≡ rstrip p s
unfolding upper rstrip
upper-rstrip p [] h = refl
upper-rstrip p (c ∷ s) h =
    upper-close p c (rstrip p s) (upper-rstrip p s (ground arith)) (ground arith)

upper-lstrip : (p : ℕ → Bool) (s : Text) → upper s ≡ s → upper (lstrip p s) ≡ lstrip p s
unfolding upper lstrip
upper-lstrip p [] h = refl
upper-lstrip p (c ∷ s) h =
    if_elim (λ t. upper t ≡ t) (p c) (λ _. upper-lstrip p s (ground arith)) (λ _. h)

pub upper-strip-upper : (s : Text) → upper (strip (upper s)) ≡ strip (upper s)
unfolding strip
upper-strip-upper s =
    upper-rstrip is_space (lstrip is_space (upper s))
      (upper-lstrip is_space (upper s) (upper_idem s))
