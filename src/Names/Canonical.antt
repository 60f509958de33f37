-- ===== src/Names/Canonical.antt =====
-- What `canonical` returns, and that it is a normal form.
use powerdns.Prelude.{
  arith, false, ℕ, ◌≡◌, refl, sym, ◌⊎◌, ◌↔◌, subst, [], ◌∷◌, ◌++◌, Bool-cases, inl, inr, is_empty,
  if◌then◌else◌,
}
use powerdns.Text.{Text, eq_text, is_space, is_dot, rstrip, strip, rstrip_dots, lower}
use powerdns.Text.Laws.{
  eq_text_iff, eq_text_refl, lower_idem, HeadNot, lstrip-HeadNot, lstrip_of_HeadNot, rstrip-HeadNot,
  rstrip-snoc, rstrip-snoc_drop, rstrip_idem, lower-append, lower-rstrip, HeadNot-lower,
}
use powerdns.Names.{dot, canonical}

-- Empty, or lower case, not led by white space, and ending with exactly one dot.
abbrev pub IsCanonical : Text → Type 0
IsCanonical n =
    (n ≡ [])
    ⊎ ((b : Text) × (n ≡ b ++ dot) × (rstrip_dots b ≡ b) × (lower n ≡ n) × HeadNot is_space n)

pub HeadNot-append_dot : (s : Text) → HeadNot is_space s → HeadNot is_space (s ++ dot)
unfolding is_space
HeadNot-append_dot [] h = refl
HeadNot-append_dot (c ∷ s) h = h

pub lower-dot : lower dot ≡ dot
unfolding lower
lower-dot = refl

-- What is left after trimming and lower-casing.
trimmed : (name : Text) → HeadNot is_space (lower (strip name))
unfolding strip
trimmed name = HeadNot-lower _ (rstrip-HeadNot is_space is_space _ (lstrip-HeadNot is_space name))

with_dot-IsCanonical :
    (n : Text) → lower n ≡ n → HeadNot is_space n → IsCanonical (rstrip_dots n ++ dot)
unfolding rstrip_dots
with_dot-IsCanonical n low head = inr (
  rstrip is_dot n,
  refl,
  rstrip_idem is_dot n,
  rw (lower-append, lower-rstrip is_dot n low, lower-dot),
  HeadNot-append_dot _ (rstrip-HeadNot is_dot is_space n head),
)

dot-IsCanonical : IsCanonical dot
unfolding rstrip_dots is_space
dot-IsCanonical = inr ([], refl, refl, lower-dot, refl)

pub canonical-IsCanonical : (name : Text) → IsCanonical (canonical name)
unfolding canonical
canonical-IsCanonical name = go (lower (strip name)) (lower_idem (strip name)) (trimmed name)
  where
    go :
        (n : Text)
        → lower n ≡ n
        → HeadNot is_space n
        → IsCanonical
            (if is_empty n then [] else if eq_text n dot then dot else rstrip_dots n ++ dot)
    go [] low head = inl refl
    go (c ∷ s) low head = elim (Bool-cases (eq_text (c ∷ s) dot)) [
      | inl e ↦ rw e dot-IsCanonical
      | inr e ↦ rw e (with_dot-IsCanonical (c ∷ s) low head)
    ]

pub rstrip_dots-snoc : (b : Text) → rstrip_dots (b ++ dot) ≡ rstrip_dots b
unfolding rstrip_dots
rstrip_dots-snoc b = rstrip-snoc_drop is_dot b b'.' refl

-- A name that ends with one dot is left alone by trimming.
pub strip_dotted : (b : Text) → HeadNot is_space (b ++ dot) → strip (b ++ dot) ≡ b ++ dot
unfolding strip
strip_dotted b head =
    rw (lstrip_of_HeadNot is_space (b ++ dot) head) (rstrip-snoc is_space b b'.' refl)

pub canonical_dotted :
    (b : Text)
    → rstrip_dots b ≡ b
    → lower (b ++ dot) ≡ b ++ dot
    → HeadNot is_space (b ++ dot)
    → canonical (b ++ dot) ≡ b ++ dot
unfolding canonical
canonical_dotted b bare low head = rw (strip_dotted b head, low) (go b bare)
  where
    go :
        (b : Text)
        → rstrip_dots b ≡ b
        → (if is_empty (b ++ dot)
            then []
            else if eq_text (b ++ dot) dot
            then dot
            else rstrip_dots (b ++ dot) ++ dot)
          ≡ b ++ dot
    go [] bare = rw (eq_text_refl dot)
    go (c ∷ s) bare = elim (Bool-cases (eq_text (c ∷ s ++ dot) dot)) [
      | inl e ↦ rw e (sym ((eq_text_iff (c ∷ s ++ dot) dot).0 e))
      | inr e ↦ rw e (rw (rstrip_dots-snoc (c ∷ s), bare))
    ]

bare_shape :
    (s : Text) (c : ℕ)
    → is_dot c ≡ false
    → (is_empty (s ++ c ∷ []) ≡ false) × (eq_text (s ++ c ∷ []) dot ≡ false)
unfolding eq_text
bare_shape [] c d = ground arith
bare_shape (a ∷ []) c d = ground arith
bare_shape (a ∷ b ∷ s) c d = ground arith

-- A name that is trimmed, in lower case, and ends with something else than a dot gets one dot.
pub canonical-bare :
    (s : Text) (c : ℕ)
    → is_dot c ≡ false
    → is_space c ≡ false
    → HeadNot is_space (s ++ c ∷ [])
    → lower (s ++ c ∷ []) ≡ s ++ c ∷ []
    → canonical (s ++ c ∷ []) ≡ (s ++ c ∷ []) ++ dot
unfolding canonical strip rstrip_dots
canonical-bare s c d b head low =
    rw (lstrip_of_HeadNot is_space (s ++ c ∷ []) head, rstrip-snoc is_space s c b, low)
      (let (e, n) = bare_shape s c d in rw (e, n, rstrip-snoc is_dot s c d) refl)

pub strip-address :
    (s : Text) (c : ℕ)
    → is_space c ≡ false
    → HeadNot is_space (s ++ c ∷ [])
    → strip (s ++ c ∷ []) ≡ s ++ c ∷ []
unfolding strip
strip-address s c b head =
    rw (lstrip_of_HeadNot is_space (s ++ c ∷ []) head) (rstrip-snoc is_space s c b)

canonical_of_IsCanonical : (n : Text) → IsCanonical n → canonical n ≡ n
unfolding canonical strip lower
canonical_of_IsCanonical n (inl e) = rw e
canonical_of_IsCanonical n (inr (b, e, bare, low, head)) =
    rw e (canonical_dotted b bare (rw e at low) (rw e at head))

-- A name is left as it is by `canonical` exactly when it is empty, or is in lower case, is not led
-- by white space and ends with exactly one dot.
pub canonical_fixed_iff : (n : Text) → (canonical n ≡ n) ↔ IsCanonical n
canonical_fixed_iff n =
    (λ e. subst IsCanonical e (canonical-IsCanonical n), canonical_of_IsCanonical n)

-- Normalising a name a second time changes nothing.
pub canonical_idem : (name : Text) → canonical (canonical name) ≡ canonical name
canonical_idem name = canonical_of_IsCanonical (canonical name) (canonical-IsCanonical name)
