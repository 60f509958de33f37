-- ===== src/Recursor/Client.antt =====
-- The requests of RecursorClient and of sync_local_zones, in webui/app/recursor.py.
pub mod Names
pub mod Requests
pub mod Local
mod Tests
use powerdns.Prelude.{
  ℕ, Bool, true, false, not, ◌&&◌, ◌||◌, Option, none, some, List, [], ◌∷◌, ◌++◌, find, keep, map,
  is_empty, if◌then◌else◌,
}
use powerdns.Text.{Text, text, eq_text, lower, strip, has_part, contains, dedup, sorted}
use powerdns.Names.{canonical}
use powerdns.Pdns.{Reply, ok, pdns_error}
use powerdns.Recursor.{Listed, Rule, RecursorApi, ForwardZone, is_global, forwarded, zone_id_for}

abbrev pub rule : Text → List Text → Bool → Rule
rule name servers desired = record {
  name = canonical name;
  servers = servers;
  recursion_desired = desired;
}

-- The test of resolve_zone_id.
abbrev pub has_id : Text → Listed → Bool
has_id wanted l = eq_text (canonical l.name) wanted && not (is_empty l.id)

abbrev pub id_or : Text → Option Listed → Text
id_or name none = zone_id_for name
id_or name (some l) = l.id

-- tuple(zone.servers) == (target,)
abbrev pub is_only : Text → List Text → Bool
is_only target [] = false
is_only target (s ∷ []) = eq_text s target
is_only target (s ∷ r ∷ rest) = false

-- The rules that point at the target, and no global one: `ours` of sync_local_zones.
abbrev pub is_ours : Text → ForwardZone → Bool
is_ours target z = not (is_global z) && is_only target z.servers

abbrev pub zone_names : List ForwardZone → List Text
zone_names zones = map (λ (z : ForwardZone). z.name) zones

abbrev pub our_names : Text → List ForwardZone → List Text
our_names target zones = zone_names (keep (is_ours target) zones)

-- The names of sync_local_zones: those wanted, those to add, those to take away.
abbrev pub wanted_names : List Text → List Text
wanted_names names = dedup (map canonical (keep (λ n. not (is_empty (strip n))) names))

unfoldable pub to_add : Text → List Text → List ForwardZone → List Text
to_add target names current =
    keep (λ n. not (contains n (zone_names current)))
      (sorted (keep (λ n. not (contains n (our_names target current))) (wanted_names names)))

unfoldable pub to_remove : Text → List Text → List ForwardZone → List Text
to_remove target names current =
    sorted (keep (λ n. not (contains n (wanted_names names))) (dedup (our_names target current)))

pub record LocalSync : Type 0 where
  pub added : List Text
  pub removed : List Text

module _ {S : Type 0} (api : RecursorApi S) where
  abbrev sort_reply : Reply (List Listed) × S → Reply (List ForwardZone) × S
  sort_reply (ok zones, s) = (ok (forwarded zones), s)
  sort_reply (pdns_error e, s) = (pdns_error e, s)

  unfoldable pub forward_zones : S → Reply (List ForwardZone) × S
  forward_zones s = sort_reply (api.zones s)

  abbrev pick_zone : Text → Reply (List ForwardZone) × S → Reply (Option ForwardZone) × S
  pick_zone wanted (ok zones, s) =
      (ok (find (λ (z : ForwardZone). eq_text (canonical z.name) wanted) zones), s)
  pick_zone wanted (pdns_error e, s) = (pdns_error e, s)

  unfoldable pub get_forward_zone : Text → S → Reply (Option ForwardZone) × S
  unfolding forward_zones
  get_forward_zone name s = pick_zone (canonical name) (forward_zones s)

  abbrev found_id : Text → Reply (List Listed) × S → Reply Text × S
  found_id name (ok zones, s) = (ok (id_or name (find (has_id (canonical name)) zones)), s)
  found_id name (pdns_error e, s) = (pdns_error e, s)

  unfoldable pub resolve_zone_id : Text → S → Reply Text × S
  resolve_zone_id name s = found_id name (api.zones s)

  -- _flush_quietly: what it answers does not matter.
  abbrev flush_quietly : Text → S → S
  flush_quietly name s = (api.flush (canonical name) s).1

  abbrev then_flush : Text → Reply Unit × S → Reply Unit × S
  then_flush name (ok _, s) = (ok tt, flush_quietly name s)
  then_flush name (pdns_error e, s) = (pdns_error e, s)

  abbrev put_at : Rule → Reply Text × S → Reply Unit × S
  put_at r (ok id, s) = api.put id r s
  put_at r (pdns_error e, s) = (pdns_error e, s)

  -- What follows the POST: a PUT, where the Recursor has the zone already.
  abbrev or_replace : Text → Rule → Reply Unit × S → Reply Unit × S
  or_replace name r (ok _, s) = (ok tt, s)
  or_replace name r (pdns_error e, s) =
      if has_part (text "already exists") (lower e)
      then put_at r (resolve_zone_id name s)
      else (pdns_error e, s)

  -- save_forward_zone, with at least one server: an empty list is a ValueError before any request.
  unfoldable pub save_forward_zone : Text → List Text → Bool → S → Reply Unit × S
  save_forward_zone name servers desired s =
      let r = rule name servers desired in then_flush name (or_replace name r (api.post r s))

  abbrev delete_at : Reply Text × S → Reply Unit × S
  delete_at (ok id, s) = api.delete id s
  delete_at (pdns_error e, s) = (pdns_error e, s)

  unfoldable pub delete_forward_zone : Text → S → Reply Unit × S
  delete_forward_zone name s = then_flush name (delete_at (resolve_zone_id name s))

  -- The two loops of sync_local_zones; an error ends them.
  unfoldable pub add_all : Text → List Text → Reply Unit × S → Reply Unit × S
  add_all target names (pdns_error e, s) = (pdns_error e, s)
  add_all target [] (ok _, s) = (ok tt, s)
  add_all target (n ∷ ns) (ok _, s) = add_all target ns (save_forward_zone n (target ∷ []) false s)

  unfoldable pub remove_all : List Text → Reply Unit × S → Reply Unit × S
  remove_all names (pdns_error e, s) = (pdns_error e, s)
  remove_all [] (ok _, s) = (ok tt, s)
  remove_all (n ∷ ns) (ok _, s) = remove_all ns (delete_forward_zone n s)

  abbrev summed_up : LocalSync → Reply Unit × S → Reply LocalSync × S
  summed_up r (ok _, s) = (ok r, s)
  summed_up r (pdns_error e, s) = (pdns_error e, s)

  abbrev sync_listed : Text → List Text → Reply (List ForwardZone) × S → Reply LocalSync × S
  sync_listed target names (pdns_error e, s) = (pdns_error e, s)
  sync_listed target names (ok current, s) =
      let added = to_add target names current in
      let removed = to_remove target names current in
      summed_up (record { added = added; removed = removed })
        (remove_all removed (add_all target added (ok tt, s)))

  unfoldable pub sync_local_zones : List Text → Text → S → Reply LocalSync × S
  sync_local_zones names target s = sync_listed target names (forward_zones s)
