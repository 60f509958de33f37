-- ===== src/DnsUtil.antt =====
-- TTLs, and the administrator's address of an SOA record: validate_ttl, email_to_rname and rname_to_email
-- of webui/app/dnsutil.py.
pub mod Email
pub mod Ttl
pub mod Records
mod Tests
use powerdns.Prelude.{
  ℕ, zero, suc, ◌+◌, ltb, leb, ◌==◌, Bool, true, false, not, ◌&&◌, ◌||◌, Option, none, some, List,
  [], ◌∷◌, ◌++◌, any, count, keep, is_empty, length, if◌then◌else◌,
}
use powerdns.Text.{
  Text, text, eq_text, strip, upper, words, contains, rstrip_dots, ends_with, before, after?,
  decimal,
}
use powerdns.Text.Numbers.{parse_int}
use powerdns.Names.{dot, canonical}

pub data TtlProblem : Type 0 where
  not_a_number negative too_large : TtlProblem

abbrev pub max_ttl : ℕ
max_ttl = 2147483647

unfoldable pub validate_ttl : Text → ℕ × Option TtlProblem
unfolding parse_int strip
validate_ttl raw = elim (parse_int (strip raw)) [
  | none ↦ (0, some not_a_number)
  | some (minus, n) ↦
      if minus && ltb 0 n
      then (0, some negative)
      else if ltb max_ttl n
      then (0, some too_large)
      else (n, none)
]

-- A backslash.
abbrev pub backslash : ℕ
backslash = 92

-- local.replace(".", "\\.")
unfoldable pub escape_dots : Text → Text
escape_dots [] = []
escape_dots (c ∷ s) = if c == b'.' then backslash ∷ c ∷ escape_dots s else c ∷ escape_dots s

-- value.rpartition("@"), where there is an at sign: what stands before and after the last one.
unfoldable pub last_part : Text → Option (Text × Text)
last_part [] = none
last_part (c ∷ s) = elim (last_part s) [
  | some (l, d) ↦ some (c ∷ l, d)
  | none ↦ if c == b'@' then some ([], s) else none
]

abbrev pub joined : Text → Option (Text × Text) → Text
joined value none = canonical value
joined value (some (l, d)) = canonical (escape_dots l ++ (dot ++ d))

abbrev pub rname_of : Text → Text
rname_of value = if is_empty value then [] else joined value (last_part value)

unfoldable pub email_to_rname : Text → Text
unfolding last_part escape_dots
email_to_rname email = rname_of (strip email)

-- The loop of rname_to_email, with what it has read of the local part; `none` if there is no separator.
unfoldable pub split_rname : Text → Text → Option Text
split_rname l [] = none
split_rname l (c ∷ []) = if c == b'.' then some (l ++ text "@") else none
split_rname l (c ∷ d ∷ s) =
    let escaped = split_rname (l ++ d ∷ []) s in
    let plain = split_rname (l ++ c ∷ []) (d ∷ s) in
    if c == backslash then escaped else if c == b'.' then some (l ++ (text "@" ++ d ∷ s)) else plain

abbrev pub or_whole : Text → Option Text → Text
or_whole value none = value
or_whole value (some t) = t

unfoldable pub rname_to_email : Text → Text
unfolding split_rname
rname_to_email rname =
    let value = rstrip_dots (strip rname) in or_whole value (split_rname [] value)
