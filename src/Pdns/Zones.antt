-- ===== src/Pdns/Zones.antt =====
-- The requests on whole zones and on their keys: get_zone, zone_rrsets, create_zone, update_zone,
-- delete_zone, notify_zone, retrieve_zone, export_zone, cryptokeys, create_cryptokey,
-- delete_cryptokey and set_zone_dnssec of webui/app/pdns.py. What a zone's JSON holds is a record;
-- a key is its number.
use powerdns.Prelude.{ℕ, Bool, Option, none, some, List, [], map, if◌then◌else◌}
use powerdns.Text.{Text, text, eq_text, lower}
use powerdns.Names.{canonical}
use powerdns.Pdns.{RrSet, Reply, ok, pdns_error, Api}

-- A zone as get_zone returns it. An absent list is empty, an absent name or kind `none`.
pub record Zone : Type 0 where
  pub name : Option Text
  pub kind : Option Text
  pub id : Option Text
  pub masters : List Text
  pub dnssec : Bool
  pub rrsets : List RrSet

-- The body of the POST of create_zone; `masters` is sent for a slave only.
pub record NewZone : Type 0 where
  pub name : Text
  pub kind : Text
  pub nameservers : List Text
  pub masters : Option (List Text)
  pub soa_edit_api : Text
  pub dnssec : Bool

-- The body of the PUT of update_zone.
pub data ZoneChange : Type 0 where
  set_dnssec : Bool → ZoneChange
  set_kind : Text → Option (List Text) → ZoneChange

pub record ZoneApi (S : Type 0) : Type 0 where
  pub records : Api S
  pub get : Text → S → Reply Zone × S
  pub post : NewZone → S → Reply Zone × S
  pub put : Text → ZoneChange → S → Reply Unit × S
  pub delete : Text → S → Reply Unit × S
  pub notify : Text → S → Reply Unit × S
  pub axfr_retrieve : Text → S → Reply Unit × S
  pub export : Text → S → Reply Text × S
  pub keys : Text → S → Reply (List ℕ) × S
  pub post_key : Text → Text → Bool → S → Reply Unit × S
  pub delete_key : Text → ℕ → S → Reply Unit × S

-- A chain of requests, which the first PdnsError ends.
abbrev pub Call : Type 0 → Type 0 → Type 0
Call S A = S → Reply A × S

abbrev pub and_then : {S A B : Type 0} → Reply A × S → (A → Call S B) → Reply B × S
and_then (ok a, s) f = f a s
and_then (pdns_error e, s) f = (pdns_error e, s)

infixl 5 ◌>>=◌ ◌>>◌
abbrev pub ◌>>=◌ : {S A B : Type 0} → Call S A → (A → Call S B) → Call S B
◌>>=◌ m f s = and_then (m s) f

abbrev pub ◌>>◌ : {S A B : Type 0} → Call S A → Call S B → Call S B
m >> k = m >>= λ _. k

abbrev pub pure : {S A : Type 0} → A → Call S A
pure a s = (ok a, s)

abbrev is_slave : Text → Bool
is_slave kind = eq_text (lower kind) (text "slave")

module _ {S : Type 0} (api : ZoneApi S) where
  unfoldable pub get_zone : Text → Call S Zone
  get_zone zone_id = api.get zone_id

  unfoldable pub zone_rrsets : Text → Call S (List RrSet)
  zone_rrsets zone_id = do zone ← api.get zone_id; pure zone.rrsets

  unfoldable pub create_zone : Text → Text → List Text → List Text → Text → Bool → Call S Zone
  create_zone name kind nameservers masters soa_edit_api dnssec = api.post (record {
    name = canonical name;
    kind = kind;
    nameservers = if is_slave kind then [] else map canonical nameservers;
    masters = if is_slave kind then some masters else none;
    soa_edit_api = soa_edit_api;
    dnssec = dnssec;
  })

  unfoldable pub update_zone : Text → ZoneChange → Call S Unit
  update_zone zone_id changes = api.put zone_id changes

  unfoldable pub delete_zone : Text → Call S Unit
  delete_zone zone_id = api.delete zone_id

  unfoldable pub notify_zone : Text → Call S Unit
  notify_zone zone_id = api.notify zone_id

  unfoldable pub retrieve_zone : Text → Call S Unit
  retrieve_zone zone_id = api.axfr_retrieve zone_id

  unfoldable pub export_zone : Text → Call S Text
  export_zone zone_id = api.export zone_id

  unfoldable pub cryptokeys : Text → Call S (List ℕ)
  cryptokeys zone_id = api.keys zone_id

  unfoldable pub create_cryptokey : Text → Text → Bool → Call S Unit
  create_cryptokey zone_id keytype active = api.post_key zone_id keytype active

  unfoldable pub delete_cryptokey : Text → ℕ → Call S Unit
  delete_cryptokey zone_id key_id = api.delete_key zone_id key_id

  unfoldable pub set_zone_dnssec : Text → Bool → Call S Unit
  unfolding update_zone
  set_zone_dnssec zone_id enabled = update_zone zone_id (set_dnssec enabled)
