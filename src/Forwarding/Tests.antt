-- ===== src/Forwarding/Tests.antt =====
-- Forward zones saved on a Recursor that logs the names of the rules that it is given.
use powerdns.Prelude.{◌≡◌, refl, Bool, false, some, List, [], ◌∷◌, All}
use powerdns.Text.{rstrip_dots, lower, strip, contains, Text, text}
use powerdns.Form.{Form, field}
use powerdns.Samples.{alice, sample_db}
use powerdns.Recursor.Client.{save_forward_zone}
use powerdns.Recursor.Config.{is_configured}
use powerdns.Zones.{Hosted}
use powerdns.Zones.Samples.{Log, logging, recursing, recursor_config, ip_address}
use powerdns.Forwarding.{
  write_rule, save_problems, save_checked, run, Outcome, create, saved, handle,
}
use powerdns.Forwarding.Leaves.{Leaves}
use powerdns.Forwarding.Rules.{handle-recursor}
use powerdns.Session.{role_required}
use powerdns.Recursor.{normalise_server, normalise_all}
use powerdns.Names.{canonical}

abbrev corp : Form
corp = (text "name", text " Corp.example") ∷ (text "servers", text "10.0.0.1") ∷ []

abbrev not_found : Text → Bool
not_found e = false

abbrev saving : Hosted Outcome Log (List Text)
saving =
    handle logging.records recursing ip_address not_found recursor_config (text "::1") (create corp)
      (some alice) sample_db [] []

saving_lem : (saving.outcome ≡ saved) × (saving.recursor ≡ text "corp.example." ∷ [])
unfolding handle role_required contains is_configured strip run save_checked save_problems
    normalise_all normalise_server write_rule save_forward_zone canonical lower rstrip_dots
saving_lem = (refl, refl)

-- Every rule that was given is for the name on the form.
abbrev ForCorp : List Text → Type 0
ForCorp names = All (λ n. n ≡ text "corp.example.") names

handle-recursor_example : ForCorp saving.recursor
unfolding save_forward_zone canonical lower strip field rstrip_dots
handle-recursor_example =
    handle-recursor logging.records recursing ip_address not_found recursor_config (text "::1")
      ForCorp (create corp) (some alice) sample_db [] [] (λ servers r e p. (refl, p)) tt
