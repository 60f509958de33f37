-- ===== src/Recursor/Config.antt =====
-- What the panel is told of the Recursor: client_from_config, is_configured and local_zone_target of
-- webui/app/recursor.py, on the values of the configuration that they read.
use powerdns.Prelude.{ℕ, Bool, not, ◌&&◌, ◌||◌, Option, none, some, is_empty, if◌then◌else◌}
use powerdns.Text.{Text, strip}
use powerdns.Recursor.{Address, Checked, fine, value_error, ServerProblem, normalise_server}

-- RECURSOR_API_URL, RECURSOR_API_KEY, PDNS_DNS_ADDRESS and PDNS_DNS_PORT; an absent text is empty.
pub record RecursorConfig : Type 0 where
  pub api_url : Text
  pub api_key : Text
  pub dns_address : Text
  pub dns_port : ℕ

-- Where the client connects, and its key.
pub record Endpoint : Type 0 where
  pub url : Text
  pub key : Text

-- `none` is RecursorNotConfigured.
unfoldable pub client_from_config : RecursorConfig → Option Endpoint
client_from_config config =
    let url = strip config.api_url in
    if is_empty url || is_empty config.api_key
    then none
    else some (record { url = url; key = config.api_key })

unfoldable pub is_configured : RecursorConfig → Bool
is_configured config = not (is_empty (strip config.api_url)) && not (is_empty config.api_key)

-- The target, or the exception: RecursorNotConfigured or a ValueError.
pub data LocalTarget : Type 0 where
  target_at : Text → LocalTarget
  no_dns_address : LocalTarget
  bad_dns_address : ServerProblem → LocalTarget

abbrev pub from_checked : Checked Text → LocalTarget
from_checked (fine t) = target_at t
from_checked (value_error p) = bad_dns_address p

unfoldable pub local_zone_target : (Text → Option Address) → RecursorConfig → LocalTarget
local_zone_target ip_address config =
    let address = strip config.dns_address in
    if is_empty address
    then no_dns_address
    else from_checked (normalise_server ip_address address config.dns_port)
