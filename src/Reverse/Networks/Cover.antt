-- ===== src/Reverse/Networks/Cover.antt =====
-- The zones named for a network, and its addresses: reverse_zones_for_network of webui/app/reverse.py.
use native.Mathlib.Nat.{div-add-mod', div-eq_of_lt-le, div-div-eq-div-mul, mul_assoc}
use powerdns.Prelude.{
  ℕ, zero, suc, ◌+◌, ◌-◌, ◌*◌, ◌/◌, ◌%◌, ◌^◌, ◌≤◌, ◌<◌, ◌≡◌, inl, inr, refl, sym, ap, ◌∙◌, subst,
  List, [], ◌∷◌, map, length, ltb, leb, arith, Any, Bool-cases,
}
use powerdns.Text.{Text}
use powerdns.Reverse.Networks.{
  Version, v4, v6, smallest, label_bits, label_count, bits, Network, zone_name, boundary,
  subnet_count, subnets, starts, Zones, zones, refused, zones_for_network, max_zones_per_network,
  too_many,
}
use powerdns.Reverse.Networks.Spelled.{spelled, zone_name-spelled}
use powerdns.Reverse.Networks.Blocks.{pow-add, pow_pos, subnets_cover, zone_name-block}

-- An IPv4 or IPv6 network: its first address has no bit set after the prefix.
abbrev pub IsNetwork : Network → Type 0
IsNetwork net =
    (net.prefixlen ≤ bits net.version) × (net.address % 2 ^ (bits net.version - net.prefixlen) ≡ 0)

-- The address is in the network.
abbrev pub IsIn : ℕ → Network → Type 0
IsIn a net = (net.address ≤ a) × (a < net.address + 2 ^ (bits net.version - net.prefixlen))

-- How many octets or nibbles the names of the zones have: three or sixteen in a network that is no
-- larger than the smallest zone, and else the fewest that hold the whole prefix.
abbrev pub HasLabels : Version → ℕ → ℕ → Type 0
HasLabels v4 p m = (24 ≤ p → m ≡ 3) × (p < 24 → (p ≤ m * 8) × (m * 8 < p + 8))
HasLabels v6 p m = (64 ≤ p → m ≡ 16) × (p < 64 → (p ≤ m * 4) × (m * 4 < p + 4))

-- A list of zones is enough for a network, and not too long.
abbrev pub Covers : Network → Zones → Type 0
Covers net (zones zs) =
    (m : ℕ) × HasLabels net.version net.prefixlen m
    × (length zs ≡ 2 ^ (m * label_bits net.version - net.prefixlen))
    × (length zs ≤ max_zones_per_network)
    × ((a : ℕ) → IsIn a net → Any (λ z. spelled net.version m a ≡ z) zs)
Covers net (refused p) =
    (max_zones_per_network < subnet_count net) × (p ≡ too_many net (subnet_count net))

length-subnets : (count size address : ℕ) → length (subnets count size address) ≡ count
unfolding subnets
length-subnets zero size address = refl
length-subnets (suc count) size address = ap suc (length-subnets count size (address + size))

length-map : (f : ℕ → Text) (xs : List ℕ) → length (map f xs) ≡ length xs
length-map f [] = refl
length-map f (x ∷ xs) = ap suc (length-map f xs)

Any-map :
    (f : ℕ → Text) (t : Text) (P : ℕ → Type 0) (xs : List ℕ)
    → ((x : ℕ) → P x → t ≡ f x)
    → Any P xs
    → Any (λ z. t ≡ z) (map f xs)
Any-map f t P [] h p = absurd p
Any-map f t P (x ∷ xs) h (inl p) = inl (h x p)
Any-map f t P (x ∷ xs) h (inr p) = inr (Any-map f t P xs h p)

-- A first address that is a multiple of a size is its multiple.
multiple : (a size : ℕ) → a % size ≡ 0 → a / size * size ≡ a
multiple a size h = omega (arith, div-add-mod' a size, h)

one_block :
    (x y first a : ℕ)
    → first % 2 ^ x ≡ 0
    → first ≤ a
    → a < first + 2 ^ x
    → a / 2 ^ (x + y) ≡ first / 2 ^ (x + y)
one_block x y first a h lo hi =
    let m = multiple first (2 ^ x) h in
    let same : a / 2 ^ x ≡ first / 2 ^ x =
      div-eq_of_lt-le (2 ^ x) (omega (arith, m, lo)) (omega (arith, m, hi)) in
    rw (pow-add x y, ← div-div-eq-div-mul, ← div-div-eq-div-mul, same) refl

-- The smallest zones have a whole number of labels.
smallest_labels :
    (v : Version)
    → (m : ℕ) × (m * label_bits v ≡ smallest v)
      × (m ≤ label_count v)
      × ((label_count v - m) * label_bits v ≡ bits v - smallest v)
smallest_labels v4 = (3, refl, omega arith, refl)
smallest_labels v6 = (16, refl, omega arith, refl)

small_block :
    (net : Network) (a : ℕ)
    → IsNetwork net
    → smallest net.version ≤ net.prefixlen
    → IsIn a net
    → zone_name net.version a (smallest net.version)
      ≡ zone_name net.version net.address (smallest net.version)
small_block net a h le within =
    let (m, bits_m, m_le, rest) = smallest_labels net.version in
    let x = bits net.version - net.prefixlen in
    let y = net.prefixlen - smallest net.version in
    let sum : x + y ≡ (label_count net.version - m) * label_bits net.version =
      omega (arith, rest, h.0, le) in
    subst (λ b. zone_name net.version a b ≡ zone_name net.version net.address b) bits_m
      (zone_name-block net.version m a net.address m_le (
        subst (λ e. a / 2 ^ e ≡ net.address / 2 ^ e) sum
          (one_block x y net.address a h.1 within.0 within.1)))

boundary_labels :
    (v : Version) (p : ℕ)
    → p ≤ bits v
    → let m = (p + label_bits v - 1) / label_bits v in
      (p ≤ m * label_bits v) × (m ≤ label_count v) × (m * label_bits v ≤ bits v)
boundary_labels v4 p h = omega arith
boundary_labels v6 p h = omega arith

length-starts : (net : Network) → length (starts net (boundary net)) ≡ subnet_count net
unfolding starts
length-starts net = length-subnets _ _ net.address

bits_left : (v : Version) (m : ℕ) → (label_count v - m) * label_bits v ≡ bits v - m * label_bits v
bits_left v4 m = omega arith
bits_left v6 m = omega arith

split_pow : (n b p : ℕ) → p ≤ b → b ≤ n → 2 ^ (n - p) ≡ 2 ^ (b - p) * 2 ^ (n - b)
split_pow n b p le fits =
    let sum : b - p + (n - b) ≡ n - p = omega arith in
    subst (λ e. 2 ^ e ≡ 2 ^ (b - p) * 2 ^ (n - b)) sum (pow-add (b - p) (n - b))

more : (q count size a : ℕ) → a < q * size + count * size → a < (q + count) * size
more q count size a h = omega (arith, h)

large_blocks :
    (net : Network) (a : ℕ)
    → IsNetwork net
    → IsIn a net
    → Any
        (λ z. zone_name net.version a (boundary net) ≡ z)
        (map (λ a. zone_name net.version a (boundary net)) (starts net (boundary net)))
unfolding starts
large_blocks net a h within =
    let v = net.version in
    let m = (net.prefixlen + label_bits v - 1) / label_bits v in
    let (le, m_le, fits) = boundary_labels v net.prefixlen h.0 in
    let rest = bits_left v m in
    let size = 2 ^ (bits v - boundary net) in
    let count = 2 ^ (boundary net - net.prefixlen) in
    let k = net.address / 2 ^ (bits v - net.prefixlen) in
    let total : 2 ^ (bits v - net.prefixlen) ≡ count * size =
      split_pow (bits v) (boundary net) net.prefixlen le fits in
    let first : k * count * size ≡ net.address =
      mul_assoc k count size
      ∙ ap (λ n. k * n) (sym total)
      ∙ multiple net.address (2 ^ (bits v - net.prefixlen)) h.1 in
    subst
      (λ n.
        Any (λ z. zone_name v a (boundary net) ≡ z)
          (map (λ a. zone_name v a (boundary net)) (subnets count size n)))
      first
      (Any-map (λ a. zone_name v a (boundary net)) (zone_name v a (boundary net))
        (λ start. a / size ≡ start / size) (subnets count size (k * count * size))
        (λ start same. zone_name-block v m a start m_le (rw rest same))
        (subnets_cover count size (k * count) a (pow_pos (bits v - boundary net))
          (rw first within.0) (more (k * count) count size a (rw (first, ← total) within.1))))

small-HasLabels : (v : Version) (p : ℕ) → smallest v ≤ p → HasLabels v p (smallest_labels v).0
unfolding smallest_labels
small-HasLabels v4 p h = ((λ _. refl), (λ l. absurd (omega arith)))
small-HasLabels v6 p h = ((λ _. refl), (λ l. absurd (omega arith)))

large-HasLabels :
    (v : Version) (p : ℕ) → p < smallest v → HasLabels v p ((p + label_bits v - 1) / label_bits v)
large-HasLabels v4 p h = ((λ l. absurd (omega arith)), (λ l. (omega arith, omega arith)))
large-HasLabels v6 p h = ((λ l. absurd (omega arith)), (λ l. (omega arith, omega arith)))

one_zone :
    (net : Network)
    → IsNetwork net
    → smallest net.version ≤ net.prefixlen
    → Covers net (zones (zone_name net.version net.address (smallest net.version) ∷ []))
one_zone net h le =
    let (m, bits_m, m_le, rest) = smallest_labels net.version in
    let none_left : m * label_bits net.version - net.prefixlen ≡ 0 = omega (arith, bits_m, le) in
    (
      m,
      small-HasLabels net.version net.prefixlen le,
      rw none_left refl,
      omega arith,
      λ a within. inl (
          sym (zone_name-spelled net.version m a m_le)
          ∙ ap (zone_name net.version a) bits_m
          ∙ small_block net a h le within),
    )

some_zones :
    (net : Network)
    → IsNetwork net
    → net.prefixlen < smallest net.version
    → subnet_count net ≤ max_zones_per_network
    → Covers net
        (zones (map (λ a. zone_name net.version a (boundary net)) (starts net (boundary net))))
some_zones net h lt few =
    let v = net.version in
    let m = (net.prefixlen + label_bits v - 1) / label_bits v in
    let (le, m_le, fits) = boundary_labels v net.prefixlen h.0 in
    let name = λ (a : ℕ). zone_name v a (boundary net) in
    let count : length (map name (starts net (boundary net))) ≡ subnet_count net =
      length-map name (starts net (boundary net)) ∙ length-starts net in
    (
      m,
      large-HasLabels v net.prefixlen lt,
      count,
      omega (arith, count, few),
      λ a within.
          subst (λ t. Any (λ z. t ≡ z) (map name (starts net (boundary net))))
            (zone_name-spelled v m a m_le) (large_blocks net a h within),
    )

-- For a network whose first address has no bit set after its prefix: the zones are sixteen at most, and the
-- zone of each address of the network, spelled as its first octets in decimal or nibbles in
-- hexadecimal, the last first, under in-addr.arpa or ip6.arpa, is among them. They have three octets
-- or sixteen nibbles if the prefix is at least as long, and else the fewest that hold it, and are as
-- many as the bits that these have beyond it can tell apart. A network is refused only if it needs
-- more than sixteen.
pub zones_for_network_lem : (net : Network) → IsNetwork net → Covers net (zones_for_network net)
unfolding zones_for_network
zones_for_network_lem net h = elim (Bool-cases (leb (smallest net.version) net.prefixlen)) [
  | inl small ↦ rw small (one_zone net h (ground arith))
  | inr e ↦ elim (Bool-cases (ltb max_zones_per_network (subnet_count net))) [
    | inl many ↦ rw (e, many) (ground (arith, many), refl)
    | inr few ↦ rw (e, few) (some_zones net h (ground arith) (ground (arith, few)))
  ]
]
