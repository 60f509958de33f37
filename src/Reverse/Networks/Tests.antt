-- ===== src/Reverse/Networks/Tests.antt =====
-- Networks from the docstring of reverse_zones_for_network.
use powerdns.Prelude.{arith, ◌≡◌, refl, [], ◌∷◌}
use powerdns.Text.{text}
use powerdns.Reverse.Networks.{Network, v4, v6, zones, zones_for_network}
use powerdns.Reverse.Networks.Cover.{Covers, zones_for_network_lem}

two_zones :
    zones_for_network (record { version = v4; address = 0xcb007000; prefixlen = 23 })
    ≡ zones (text "112.0.203.in-addr.arpa." ∷ text "113.0.203.in-addr.arpa." ∷ [])
unfolding zones_for_network
two_zones = refl

inside_a_zone :
    zones_for_network (record { version = v4; address = 0xc6336440; prefixlen = 26 })
    ≡ zones (text "100.51.198.in-addr.arpa." ∷ [])
unfolding zones_for_network
inside_a_zone = refl

nibbles :
    zones_for_network
      (record { version = v6; address = 0x20010db8000000000000000000000000; prefixlen = 32 })
    ≡ zones (text "8.b.d.0.1.0.0.2.ip6.arpa." ∷ [])
unfolding zones_for_network
nibbles = refl

abbrev block : Network
block = record { version = v4; address = 0xcb007000; prefixlen = 23 }

zones_for_network_lem_example : Covers block (zones_for_network block)
zones_for_network_lem_example = zones_for_network_lem block (omega arith, omega arith)
