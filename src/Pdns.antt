-- ===== src/Pdns.antt =====
-- The client of the Authoritative Server's API: RrSet, list_zones, get_rrset, replace_rrset and
-- delete_rrset of webui/app/pdns.py, which work on the records of a zone. The server itself, with the
-- network in between, is a parameter: it answers each request, and may change its state `S` in any way.
-- The requests on zones and keys are in the child.
pub mod Zones
use powerdns.Prelude.{
  ℕ, Bool, not, ◌&&◌, Option, List, [], ◌∷◌, find, keep, map, is_empty, if◌then◌else◌,
}
use powerdns.Text.{Text, eq_text, strip, upper, lt_text}
use powerdns.Names.{canonical}

pub record RrSet : Type 0 where
  pub name : Text
  pub rtype : Text
  pub contents : List Text

-- One entry of the body of a PATCH.
pub data Change : Type 0 where
  replace : Text → Text → ℕ → List (Text × Bool) → List (Text × Text) → Change
  delete : Text → Text → Change

-- A PdnsError is its message.
pub data Reply (A : Type 0) : Type 0 where
  ok : A → Reply A
  pdns_error : Text → Reply A

pub record Api (S : Type 0) : Type 0 where
  pub zones : S → Reply (List Text) × S
  pub rrsets : Text → Text → Text → S → Reply (List RrSet) × S
  pub patch : Text → Change → S → Reply Unit × S

-- sorted(payload, key=name), stable.
unfoldable pub insert_name : Text → List Text → List Text
insert_name t [] = t ∷ []
insert_name t (s ∷ ts) = let rest = insert_name t ts in if lt_text s t then s ∷ rest else t ∷ s ∷ ts

unfoldable pub by_name : List Text → List Text
unfolding insert_name
by_name [] = []
by_name (t ∷ ts) = insert_name t (by_name ts)

abbrev pub is_rrset : Text → Text → RrSet → Bool
is_rrset name rtype r = eq_text (canonical r.name) name && eq_text r.rtype rtype

abbrev comments : Text → Text → List (Text × Text)
comments comment account = if is_empty comment then [] else (comment, account) ∷ []

module _ {S : Type 0} (api : Api S) where
  abbrev sort_reply : Reply (List Text) × S → Reply (List Text) × S
  sort_reply (ok names, s) = (ok (by_name names), s)
  sort_reply (pdns_error e, s) = (pdns_error e, s)

  -- The names of list_zones.
  unfoldable pub list_zones : S → Reply (List Text) × S
  list_zones s = sort_reply (api.zones s)

  abbrev pick : Text → Text → Reply (List RrSet) × S → Reply (Option RrSet) × S
  pick name rtype (ok rs, s) = (ok (find (is_rrset name rtype) rs), s)
  pick name rtype (pdns_error e, s) = (pdns_error e, s)

  unfoldable pub get_rrset : Text → Text → Text → S → Reply (Option RrSet) × S
  get_rrset zone_id name rtype s =
      let wanted_name = canonical name in
      let wanted_type = upper rtype in
      pick wanted_name wanted_type (api.rrsets zone_id wanted_name wanted_type s)

  unfoldable pub replace_rrset :
      Text → Text → Text → ℕ → List Text → Bool → Text → Text → S → Reply Unit × S
  replace_rrset zone_id name rtype ttl contents disabled comment account s =
      api.patch zone_id
        (replace (canonical name) (upper rtype) ttl
          (map (λ content. (content, disabled))
            (keep (λ content. not (is_empty (strip content))) contents))
          (comments comment account))
        s

  unfoldable pub delete_rrset : Text → Text → Text → S → Reply Unit × S
  delete_rrset zone_id name rtype s = api.patch zone_id (delete (canonical name) (upper rtype)) s
