-- ===== src/Names/Absolute.antt =====
-- absolute_name of webui/app/pdns.py gives a name in normal form.
use powerdns.Prelude.{◌≡◌, ◌++◌, ◌||◌, is_empty, if_elim}
use powerdns.Text.{Text, text, eq_text, lower, strip, ends_with, rstrip_dots}
use powerdns.Names.{dot, canonical, absolute_name}
use powerdns.Names.Canonical.{canonical_idem}

pub canonical-absolute_name :
    (name zone : Text) → canonical (absolute_name name zone) ≡ absolute_name name zone
unfolding absolute_name
canonical-absolute_name name zone =
    let n = lower (strip name) in
    if_elim (λ t. canonical t ≡ t) (is_empty n || eq_text n (text "@")) (λ _. canonical_idem zone)
      (λ _.
        if_elim (λ t. canonical t ≡ t) (ends_with dot n) (λ _. canonical_idem n)
          (λ _. canonical_idem (n ++ dot ++ rstrip_dots (canonical zone))))
