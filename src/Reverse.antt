-- ===== src/Reverse.antt =====
-- Reverse DNS: webui/app/reverse.py. This module has the names; its children have the arithmetic of
-- networks, the links that the panel keeps, and the sync of a forward record with its PTRs.
pub mod Enclosing
pub mod Networks
pub mod Links
pub mod Sync
mod Tests
use powerdns.Prelude.{
  any, ℕ, Bool, true, not, ◌&&◌, ◌||◌, Option, none, some, List, [], ◌∷◌, ◌++◌, ltb, length,
  is_empty, if◌then◌else◌,
}
use powerdns.Text.{Text, text, eq_text, ends_with}
use powerdns.Names.{canonical, is_within}

abbrev pub reverse_suffixes : List Text
reverse_suffixes = text "in-addr.arpa." ∷ text "ip6.arpa." ∷ []

unfoldable pub is_reverse_zone : Text → Bool
is_reverse_zone name = any (λ suffix. ends_with suffix (canonical name)) reverse_suffixes

abbrev pub is_longer : Text → Option Text → Bool
is_longer zone none = true
is_longer zone (some best) = ltb (length best) (length zone)

-- One round of the loop of enclosing_zone.
abbrev pub better : Text → Text → Option Text → Option Text
better target zone best =
    if is_empty zone
    then best
    else if is_within target zone && is_longer zone best
    then some zone
    else best

pub enclosing_from : Text → Option Text → List Text → Option Text
enclosing_from target best [] = best
enclosing_from target best (candidate ∷ rest) =
    enclosing_from target (better target (canonical candidate) best) rest

unfoldable pub enclosing_zone : Text → List Text → Option Text
unfolding enclosing_from
enclosing_zone name zone_names = enclosing_from (canonical name) none zone_names
