-- ===== src/DnsUtil/Ttl.antt =====
-- Which TTLs are accepted: validate_ttl of webui/app/dnsutil.py.
use powerdns.Prelude.{
  ℕ, ◌≤◌, ◌≡◌, ◌≢◌, ◌⊎◌, ◌↔◌, refl, Bool, true, false, Option, none, some, arith,
}
use powerdns.Text.{Text, strip}
use powerdns.Text.Numbers.{parse_int}
use powerdns.DnsUtil.{max_ttl, validate_ttl}

-- A text is accepted as the TTL n exactly if it reads as the number n, or as minus zero, and n is at most
-- 2147483647. With an error comes the TTL 0.
pub validate_ttl_iff :
    (raw : Text) (n : ℕ)
    → ((validate_ttl raw ≡ (n, none)) ↔ (
        (n ≤ max_ttl)
        × ((parse_int (strip raw) ≡ some (false, n))
            ⊎ ((parse_int (strip raw) ≡ some (true, n)) × (n ≡ 0)))))
      × ((validate_ttl raw).1 ≢ none → (validate_ttl raw).0 ≡ 0)
unfolding validate_ttl
validate_ttl_iff raw n = go (parse_int (strip raw)) refl
  where
    go :
        (o : Option (Bool × ℕ))
        → parse_int (strip raw) ≡ o
        → ((validate_ttl raw ≡ (n, none))
            ↔ ((n ≤ max_ttl) × ((o ≡ some (false, n)) ⊎ ((o ≡ some (true, n)) × (n ≡ 0)))))
          × ((validate_ttl raw).1 ≢ none → (validate_ttl raw).0 ≡ 0)
    go none e = rw (validate_ttl, e) (ground arith)
    go (some (true, m)) e = rw (validate_ttl, e) (ground arith)
    go (some (false, m)) e = rw (validate_ttl, e) (ground arith)
