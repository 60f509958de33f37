-- ===== src/Zones/Resolver.antt =====
-- Telling the Recursor about one zone: _forward_locally of webui/app/views/zones.py.
use powerdns.Prelude.{Bool, false, Option, none, some, [], ◌∷◌, if◌then◌else◌}
use powerdns.Text.{Text}
use powerdns.Pdns.{Reply, ok, pdns_error}
use powerdns.Recursor.{Address, ServerProblem, RecursorApi, ForwardZone}
use powerdns.Recursor.Client.{is_only, get_forward_zone, save_forward_zone, delete_forward_zone}
use powerdns.Recursor.Config.{
  RecursorConfig, is_configured, LocalTarget, target_at, no_dns_address, bad_dns_address,
  local_zone_target,
}

-- What became of it; the last three are the warnings that it flashes.
pub data Forwarding : Type 0 where
  no_recursor told not_ours no_target : Forwarding
  bad_target : ServerProblem → Forwarding
  recursor_failed : Text → Forwarding

-- A rule is ours to remove only if it points at the target and nowhere else.
abbrev pub is_our_rule : Text → Option ForwardZone → Bool
is_our_rule t none = false
is_our_rule t (some rule) = is_only t rule.servers

module _ {R : Type 0} (recursor : RecursorApi R) (ip_address : Text → Option Address)
    (config : RecursorConfig) where
  abbrev pub said : Reply Unit × R → Forwarding × R
  said (ok _, r) = (told, r)
  said (pdns_error e, r) = (recursor_failed e, r)

  abbrev pub remove_ours : Text → Text → Reply (Option ForwardZone) × R → Forwarding × R
  remove_ours zone_name t (pdns_error e, r) = (recursor_failed e, r)
  remove_ours zone_name t (ok rule, r) =
      if is_our_rule t rule then said (delete_forward_zone recursor zone_name r) else (not_ours, r)

  abbrev pub tell : Text → Bool → LocalTarget → R → Forwarding × R
  tell zone_name remove no_dns_address r = (no_target, r)
  tell zone_name remove (bad_dns_address p) r = (bad_target p, r)
  tell zone_name remove (target_at t) r =
      if remove
      then remove_ours zone_name t (get_forward_zone recursor zone_name r)
      else said (save_forward_zone recursor zone_name (t ∷ []) false r)

  unfoldable pub forward_locally : Text → Bool → R → Forwarding × R
  forward_locally zone_name remove r =
      if is_configured config
      then tell zone_name remove (local_zone_target ip_address config) r
      else (no_recursor, r)
