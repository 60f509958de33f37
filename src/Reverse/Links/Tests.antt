-- ===== src/Reverse/Links/Tests.antt =====
-- A zone that is paired with reverse zones, and then with others.
use powerdns.Prelude.{◌≡◌, ◌≢◌, ◌↔◌, [], ◌∷◌, Any}
use powerdns.Text.{text}
use powerdns.Names.{canonical}
use powerdns.Store.{Db}
use powerdns.Reverse.Links.{linked_reverse_zones, set_linked_reverse_zones}
use powerdns.Reverse.Links.Pairing.{set_linked-linked}
use powerdns.Samples.{sample_db}

abbrev paired : Db
paired = record sample_db {
  zone_reverse_links =
      (record { forward_zone = text "example.org."; reverse_zone = text "a." }) ∷ [];
}

set_linked-linked_example :
    Any
      (λ z. z ≡ text "b.")
      (linked_reverse_zones
        (text "example.org")
        (set_linked_reverse_zones (text "example.org") (text "b" ∷ []) paired).1)
    ↔ ((text "b." ≢ []) × Any (λ z. canonical z ≡ text "b.") (text "b" ∷ []))
set_linked-linked_example =
    set_linked-linked (text "example.org") (text "b" ∷ []) paired (text "b.")
