-- ===== src/Recursor.antt =====
-- The Recursor's forward zones: webui/app/recursor.py. The Recursor itself, with the network in between, is
-- a parameter: it answers each request, and may change its state `S` in any way.
pub mod Client
pub mod Config
use powerdns.Prelude.{
  ℕ, zero, suc, count, ◌+◌, ◌-◌, ◌*◌, ◌/◌, ◌%◌, ltb, leb, ◌==◌, Bool, true, false, not, ◌&&◌, ◌||◌,
  Option, none, some, List, [], ◌∷◌, ◌++◌, any, find, keep, map, is_empty, length, if◌then◌else◌,
}
use powerdns.Text.{
  Text, text, eq_text, lower, strip, starts_with, ends_with, has_part, contains, dedup, sorted,
  lt_text, comma_lines, decimal, before, after?,
}
use powerdns.Text.Numbers.{parse_int}
use powerdns.Names.{dot, canonical}
use powerdns.Pdns.{Reply, ok, pdns_error}

-- A zone as the API lists it; an absent value is the empty text.
pub record Listed : Type 0 where
  pub name : Text
  pub kind : Text
  pub servers : List Text
  pub recursion_desired : Bool
  pub id : Text

-- The body of a POST or a PUT, whose kind is "Forwarded".
pub record Rule : Type 0 where
  pub name : Text
  pub servers : List Text
  pub recursion_desired : Bool

pub record RecursorApi (S : Type 0) : Type 0 where
  pub zones : S → Reply (List Listed) × S
  pub post : Rule → S → Reply Unit × S
  pub put : Text → Rule → S → Reply Unit × S
  pub delete : Text → S → Reply Unit × S
  pub flush : Text → S → Reply ℕ × S

pub record ForwardZone : Type 0 where
  pub name : Text
  pub servers : List Text
  pub recursion_desired : Bool
  pub zone_id : Text

abbrev pub is_global : ForwardZone → Bool
is_global z = eq_text z.name dot

abbrev pub from_api : Listed → ForwardZone
from_api l = record {
  name = l.name;
  servers = l.servers;
  recursion_desired = l.recursion_desired;
  zone_id = l.id;
}

-- The order of forward_zones: global forwarders first, then by name.
abbrev pub comes_before : ForwardZone → ForwardZone → Bool
comes_before a b =
    if is_global a
    then not (is_global b) || lt_text a.name b.name
    else not (is_global b) && lt_text a.name b.name

unfoldable pub insert_zone : ForwardZone → List ForwardZone → List ForwardZone
insert_zone z [] = z ∷ []
insert_zone z (y ∷ ys) =
    let rest = insert_zone z ys in if comes_before y z then y ∷ rest else z ∷ y ∷ ys

unfoldable pub sort_zones : List ForwardZone → List ForwardZone
sort_zones [] = []
sort_zones (z ∷ zs) = insert_zone z (sort_zones zs)

abbrev pub forwarded : List Listed → List ForwardZone
forwarded zones = sort_zones (map from_api (keep (λ l. eq_text l.kind (text "Forwarded")) zones))

-- zone_id_for. A character is kept if it is an ASCII letter or digit, a dot or a dash.
abbrev pub is_plain : ℕ → Bool
is_plain c =
    leb b'a' c && leb c b'z'
    || leb b'A' c && leb c b'Z'
    || leb b'0' c && leb c b'9'
    || c == b'.'
    || c == b'-'

abbrev pub hex_digit : ℕ → ℕ
hex_digit d = if ltb d 10 then b'0' + d else b'A' + (d - 10)

-- The digits of a number in upper-case hexadecimal; n + 1 rounds are always enough.
unfoldable pub hex_onto : ℕ → ℕ → Text → Text
hex_onto zero n out = out
hex_onto (suc fuel) n out =
    let digit = hex_digit (n % 16) in
    let rest = hex_onto fuel (n / 16) (digit ∷ out) in if ltb n 16 then digit ∷ out else rest

abbrev padded : Text → Text
padded (d ∷ []) = b'0' ∷ d ∷ []
padded t = t

abbrev pub escape : ℕ → Text
escape c = if is_plain c then c ∷ [] else b'=' ∷ padded (hex_onto (c + 1) c [])

unfoldable pub escape_all : Text → Text
unfolding hex_onto
escape_all [] = []
escape_all (c ∷ s) = escape c ++ escape_all s

abbrev dotted : Text → Text
dotted t = if ends_with dot t then t else t ++ dot

abbrev pub root_id : Text
root_id = text "=2E"

unfoldable pub zone_id_for : Text → Text
unfolding escape_all canonical
zone_id_for name =
    let identifier = dotted (escape_all (canonical name)) in
    if eq_text identifier dot then root_id else identifier

-- What a ValueError says.
pub data ServerProblem : Type 0 where
  no_address no_servers no_forwarders : ServerProblem
  no_bracket bad_address not_an_ip port_not_a_number port_out_of_range : Text → ServerProblem

pub data Checked (A : Type 0) : Type 0 where
  fine : A → Checked A
  value_error : ServerProblem → Checked A

-- _port
unfoldable pub port : Text → Text → Checked ℕ
unfolding parse_int
port raw original = elim (parse_int raw) [
  | none ↦ value_error (port_not_a_number original)
  | some (negative, n) ↦
      if not negative && leb 1 n && leb n 65535
      then fine n
      else value_error (port_out_of_range original)
]

-- An address of Python's ipaddress: whether its version is 6, and its compressed form.
abbrev pub Address : Type 0
Address = Bool × Text

-- `ip_address` is ipaddress.ip_address, with `none` for its ValueError.
module _ (ip_address : Text → Option Address) where
  abbrev pub render : Text → Option Address → Checked ℕ → Checked Text
  render original a (value_error e) = value_error e
  render original none (fine p) = value_error (not_an_ip original)
  render original (some (true, t)) (fine p) = fine (text "[" ++ t ++ text "]:" ++ decimal p)
  render original (some (false, t)) (fine p) = fine (t ++ text ":" ++ decimal p)

  -- What follows the closing bracket.
  abbrev pub after_bracket : Text → ℕ → Text → Checked ℕ
  after_bracket original default [] = fine default
  after_bracket original default (c ∷ rest) =
      if c == b':' then port rest original else value_error (bad_address original)

  abbrev pub bracketed : Text → ℕ → Text → Checked Text
  bracketed original default inner = elim (after? b']' inner) [
    | none ↦ value_error (no_bracket original)
    | some rest ↦
        render original (ip_address (before b']' inner)) (after_bracket original default rest)
  ]

  abbrev pub plain : Text → ℕ → Checked Text
  plain t default =
      if count (λ c. c == b':') t == 1
      then elim (after? b':' t) [
        | none ↦ render t (ip_address t) (fine default)
        | some raw ↦ render t (ip_address (before b':' t)) (port raw t)
      ]
      else render t (ip_address t) (fine default)

  abbrev pub bracketed_or_plain : Text → ℕ → Checked Text
  bracketed_or_plain [] default = value_error no_address
  bracketed_or_plain (c ∷ s) default =
      if c == b'[' then bracketed (c ∷ s) default s else plain (c ∷ s) default

  unfoldable pub normalise_server : Text → ℕ → Checked Text
  unfolding strip before after?
  normalise_server value default = bracketed_or_plain (strip value) default

  abbrev pub push_checked : Checked Text → Checked (List Text) → Checked (List Text)
  push_checked (value_error e) r = value_error e
  push_checked (fine t) (value_error e) = value_error e
  push_checked (fine t) (fine ts) = fine (t ∷ ts)

  unfoldable pub normalise_all : ℕ → List Text → Checked (List Text)
  normalise_all default [] = fine []
  normalise_all default (p ∷ ps) =
      push_checked (normalise_server p default) (normalise_all default ps)

  abbrev pub deduplicated : Checked (List Text) → Checked (List Text)
  deduplicated (value_error e) = value_error e
  deduplicated (fine ts) = if is_empty ts then value_error no_servers else fine (dedup ts)

  unfoldable pub parse_servers : Text → ℕ → Checked (List Text)
  unfolding comma_lines dedup
  parse_servers raw default = deduplicated (normalise_all default (comma_lines raw))
