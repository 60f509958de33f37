-- ===== src/Reverse/Networks.antt =====
-- The zones that cover a network: reverse_zones_for_network, reverse_zones_for_networks and
-- _zone_name of webui/app/reverse.py. An address of Python's ipaddress is its version and its number;
-- a network has the number of its first address. Reading one from a text is a parameter.
pub mod Blocks
pub mod Spelled
pub mod Cover
mod Tests
use powerdns.Prelude.{
  ℕ, zero, suc, ◌+◌, ◌-◌, ◌*◌, ◌/◌, ◌%◌, ◌^◌, Bool, Option, none, some, List, [], ◌∷◌, ◌++◌, map,
  length, drop, ltb, leb, if◌then◌else◌,
}
use powerdns.Text.{Text, text, join, contains, comma_lines, decimal}
use powerdns.Names.{dot}

pub data Version : Type 0 where
  v4 v6 : Version

abbrev pub max_zones_per_network : ℕ
max_zones_per_network = 16

-- _SMALLEST_ZONE_PREFIX, _LABEL_BITS and the bits of an address.
abbrev pub smallest : Version → ℕ
smallest v4 = 24
smallest v6 = 64

abbrev pub label_bits : Version → ℕ
label_bits v4 = 8
label_bits v6 = 4

abbrev pub label_count : Version → ℕ
label_count v4 = 4
label_count v6 = 32

abbrev pub bits : Version → ℕ
bits v = label_bits v * label_count v

pub record Network : Type 0 where
  pub version : Version
  pub address : ℕ
  pub prefixlen : ℕ

-- One label: an octet in decimal, or a nibble in lower-case hexadecimal.
unfoldable pub label : Version → ℕ → Text
unfolding decimal
label v4 n = decimal n
label v6 n = (if ltb n 10 then b'0' + n else b'a' + (n - 10)) ∷ []

-- The labels of address.reverse_pointer before the suffix, least significant first.
unfoldable pub body : Version → ℕ → ℕ → List Text
unfolding label
body v zero n = []
body v (suc k) n = label v (n % 2 ^ label_bits v) ∷ body v k (n / 2 ^ label_bits v)

abbrev pub suffix : Version → List Text
suffix v4 = text "in-addr" ∷ text "arpa" ∷ [] ∷ []
suffix v6 = text "ip6" ∷ text "arpa" ∷ [] ∷ []

-- _zone_name
unfoldable pub zone_name : Version → ℕ → ℕ → Text
unfolding body join
zone_name v address boundary_bits =
    let labels = body v (label_count v) address in
    let keep = boundary_bits / label_bits v in
    join dot (drop (length labels - keep) labels ++ suffix v)

-- -(-prefixlen // label_bits) * label_bits
abbrev pub boundary : Network → ℕ
boundary net =
    (net.prefixlen + label_bits net.version - 1) / label_bits net.version * label_bits net.version

abbrev pub subnet_count : Network → ℕ
subnet_count net = 2 ^ (boundary net - net.prefixlen)

-- The first addresses of net.subnets(new_prefix=...): `count` of them, `size` apart.
unfoldable pub subnets : ℕ → ℕ → ℕ → List ℕ
subnets zero size address = []
subnets (suc count) size address = address ∷ subnets count size (address + size)

-- A ReverseError.
pub data Problem : Type 0 where
  not_a_network : Text → Problem
  too_many : Network → ℕ → Problem

pub data Zones : Type 0 where
  zones : List Text → Zones
  refused : Problem → Zones

-- The first addresses of the zones, and the bits that their names keep.
unfoldable pub starts : Network → ℕ → List ℕ
unfolding subnets
starts net b = subnets (2 ^ (b - net.prefixlen)) (2 ^ (bits net.version - b)) net.address

unfoldable pub zones_for_network : Network → Zones
unfolding zone_name starts
zones_for_network net =
    if leb (smallest net.version) net.prefixlen
    then zones (zone_name net.version net.address (smallest net.version) ∷ [])
    else if ltb max_zones_per_network (subnet_count net)
    then refused (too_many net (subnet_count net))
    else zones (map (λ a. zone_name net.version a (boundary net)) (starts net (boundary net)))

-- for zone in ...: if zone not in zones: zones.append(zone)
unfoldable pub add_new : List Text → List Text → List Text
unfolding contains
add_new seen [] = seen
add_new seen (z ∷ zs) = add_new (if contains z seen then seen else seen ++ z ∷ []) zs

-- `ip_network` is ipaddress.ip_network(raw, strict=False), with `none` for its ValueError.
module _ (ip_network : Text → Option Network) where
  abbrev pub zones_for : Text → Zones
  zones_for entry = elim (ip_network entry) [
    | none ↦ refused (not_a_network entry)
    | some net ↦ zones_for_network net
  ]

  abbrev pub collect : Zones → List Text × List Problem → List Text × List Problem
  collect (zones zs) (seen, problems) = (add_new seen zs, problems)
  collect (refused p) (seen, problems) = (seen, problems ++ p ∷ [])

  unfoldable pub collect_all : List Text × List Problem → List Text → List Text × List Problem
  collect_all found [] = found
  collect_all found (entry ∷ rest) = collect_all (collect (zones_for entry) found) rest

  -- reverse_zones_for_networks
  unfoldable pub zones_for_networks : Text → List Text × List Problem
  zones_for_networks raw = collect_all ([], []) (comma_lines raw)
