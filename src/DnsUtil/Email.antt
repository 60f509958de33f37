-- ===== src/DnsUtil/Email.antt =====
-- An address written as a DNS name and read back: email_to_rname and rname_to_email of
-- webui/app/dnsutil.py.
use powerdns.Prelude.{
  ℕ, ◌≡◌, ◌≢◌, refl, sym, ap, ◌∙◌, subst, false, none, some, [], ◌∷◌, ◌++◌, ◌==◌, append_assoc,
  arith, All, Bool-cases, inl, inr,
}
use powerdns.Text.{Text, is_space, is_dot, strip, rstrip_dots, lower, lower_char}
use powerdns.Text.Laws.{HeadNot, rstrip-snoc, lower-append}
use powerdns.Names.{dot, canonical}
use powerdns.Names.Canonical.{
  canonical-bare, strip-address, rstrip_dots-snoc, strip_dotted, HeadNot-append_dot,
}
use powerdns.DnsUtil.{
  backslash, escape_dots, last_part, rname_of, email_to_rname, split_rname, or_whole,
  rname_to_email,
}

no_part : (d : Text) → All (λ c. c ≢ b'@') d → last_part d ≡ none
unfolding last_part
no_part [] h = refl
no_part (c ∷ d) h = rw (no_part d h.1) (ground (arith, h.0))

last_part-at : (l d : Text) → All (λ c. c ≢ b'@') d → last_part (l ++ b'@' ∷ d) ≡ some (l, d)
unfolding last_part
last_part-at [] d h = rw (no_part d h) refl
last_part-at (c ∷ l) d h = rw (last_part-at l d h) refl

split_plain :
    (acc : Text) (c : ℕ) (s : Text)
    → c ≢ backslash
    → c ≢ b'.'
    → s ≢ []
    → split_rname acc (c ∷ s) ≡ split_rname (acc ++ c ∷ []) s
unfolding split_rname
split_plain acc c [] h k n = absurd (n refl)
split_plain acc c (d ∷ s) h k n = ground arith

split_dot : (acc t : Text) → split_rname acc (b'.' ∷ t) ≡ some (acc ++ b'@' ∷ t)
unfolding split_rname
split_dot acc [] = refl
split_dot acc (c ∷ t) = refl

split_escaped :
    (acc : Text) (d : ℕ) (s : Text)
    → split_rname acc (backslash ∷ d ∷ s) ≡ split_rname (acc ++ d ∷ []) s
unfolding split_rname
split_escaped acc d s = refl

escaped_ne : (l t : Text) → escape_dots l ++ b'.' ∷ t ≢ []
unfolding escape_dots
escaped_ne [] t h = ground arith
escaped_ne (c ∷ l) t h = ground arith

split-escape :
    (acc l t : Text)
    → All (λ c. c ≢ backslash) l
    → split_rname acc (escape_dots l ++ b'.' ∷ t) ≡ some (acc ++ (l ++ b'@' ∷ t))
unfolding escape_dots
split-escape acc [] t h = split_dot acc t
split-escape acc (c ∷ l) t h = elim (Bool-cases (c == b'.')) [
  | inl e ↦
      let dot_c : c ≡ b'.' = ground arith in
      rw e (
        subst
          (λ d.
            split_rname acc (backslash ∷ d ∷ (escape_dots l ++ b'.' ∷ t))
            ≡ some (acc ++ (d ∷ (l ++ b'@' ∷ t))))
          (sym dot_c)
          (split_escaped acc b'.' (escape_dots l ++ b'.' ∷ t)
            ∙ split-escape (acc ++ b'.' ∷ []) l t h.1
            ∙ rw append_assoc refl))
  | inr e ↦ rw e (
      split_plain acc c _ h.0 (ground arith) (escaped_ne l t)
      ∙ split-escape (acc ++ c ∷ []) l t h.1
      ∙ rw append_assoc refl)
]

lower-escape : (l : Text) → lower l ≡ l → lower (escape_dots l) ≡ escape_dots l
unfolding escape_dots lower lower_char
lower-escape [] h = refl
lower-escape (c ∷ l) h = ground (arith, lower-escape l)

HeadNot-escape : (l t : Text) → HeadNot is_space l → HeadNot is_space (escape_dots l ++ b'.' ∷ t)
unfolding escape_dots is_space
HeadNot-escape [] t h = refl
HeadNot-escape (c ∷ l) t h = ground arith

rname_to_email-bare :
    (s : Text) (c : ℕ)
    → is_dot c ≡ false
    → HeadNot is_space (s ++ c ∷ [])
    → rname_to_email ((s ++ c ∷ []) ++ dot) ≡ or_whole (s ++ c ∷ []) (split_rname [] (s ++ c ∷ []))
unfolding rname_to_email rstrip_dots
rname_to_email-bare s c d head =
    rw
      (
        strip_dotted (s ++ c ∷ []) (HeadNot-append_dot (s ++ c ∷ []) head),
        rstrip_dots-snoc (s ++ c ∷ []),
      )
      (let bare : rstrip_dots (s ++ c ∷ []) ≡ s ++ c ∷ [] = rstrip-snoc is_dot s c d in
        rw bare refl)

HeadNot-at : (l t : Text) → HeadNot is_space l → HeadNot is_space (l ++ b'@' ∷ t)
unfolding is_space
HeadNot-at [] t h = refl
HeadNot-at (c ∷ l) t h = h

rname_of-at :
    (l d : Text) (c : ℕ)
    → All (λ a. a ≢ b'@') (d ++ c ∷ [])
    → rname_of (l ++ b'@' ∷ (d ++ c ∷ [])) ≡ canonical (escape_dots l ++ b'.' ∷ (d ++ c ∷ []))
rname_of-at [] d c h = rw (last_part-at [] (d ++ c ∷ []) h) refl
rname_of-at (a ∷ l) d c h = rw (last_part-at (a ∷ l) (d ++ c ∷ []) h) refl

lower-dot_cons : (t : Text) → lower t ≡ t → lower (b'.' ∷ t) ≡ b'.' ∷ t
unfolding lower lower_char
lower-dot_cons t h = ap (λ s. b'.' ∷ s) h

-- An address is read back from its DNS form as it was written, if it is in lower case, has no space at its
-- ends, no backslash in its local part, and no at sign and no final dot in its domain, which is not empty.
pub email_round_trip :
    (l d : Text) (c : ℕ)
    → All (λ a. a ≢ backslash) l
    → All (λ a. a ≢ b'@') (d ++ c ∷ [])
    → is_dot c ≡ false
    → is_space c ≡ false
    → HeadNot is_space l
    → lower l ≡ l
    → lower (d ++ c ∷ []) ≡ d ++ c ∷ []
    → rname_to_email (email_to_rname (l ++ b'@' ∷ (d ++ c ∷ []))) ≡ l ++ b'@' ∷ (d ++ c ∷ [])
unfolding email_to_rname
email_round_trip l d c plain at no_dot no_space head low_l low_d =
    let domain = d ++ c ∷ [] in
    let whole : (l ++ b'@' ∷ d) ++ c ∷ [] ≡ l ++ b'@' ∷ domain =
      append_assoc l (b'@' ∷ d) (c ∷ []) in
    let x = escape_dots l ++ b'.' ∷ d in
    let name : x ++ c ∷ [] ≡ escape_dots l ++ b'.' ∷ domain =
      append_assoc (escape_dots l) (b'.' ∷ d) (c ∷ []) in
    let trimmed : strip (l ++ b'@' ∷ domain) ≡ l ++ b'@' ∷ domain =
      subst (λ t. strip t ≡ t) whole
        (strip-address (l ++ b'@' ∷ d) c no_space
          (subst (HeadNot is_space) (sym whole) (HeadNot-at l domain head))) in
    let x_head : HeadNot is_space (x ++ c ∷ []) =
      subst (HeadNot is_space) (sym name) (HeadNot-escape l domain head) in
    let x_low : lower (x ++ c ∷ []) ≡ x ++ c ∷ [] =
      subst (λ t. lower t ≡ t) (sym name)
        (lower-append (escape_dots l) (b'.' ∷ domain)
          ∙ rw (lower-escape l low_l)
              (ap (λ t. escape_dots l ++ t) (lower-dot_cons domain low_d))) in
    rw
      (
        trimmed,
        rname_of-at l d c at,
        ← name,
        canonical-bare x c no_dot no_space x_head x_low,
        rname_to_email-bare x c no_dot x_head,
        name,
        split-escape [] l domain plain,
      )
      refl
