-- ===== src/Forwarding/Outcomes.antt =====
-- What the pages of webui/app/views/forwarding.py leave: in the database on each branch, and at the
-- Recursor.
use powerdns.Prelude.{◌≡◌, ◌⊎◌, false, Bool, Option, none, some}
use powerdns.Text.{Text}
use powerdns.Form.{Form}
use powerdns.Store.{User, Db}
use powerdns.Session.Operators.{IsOperator}
use powerdns.Pdns.{Api}
use powerdns.Recursor.{Address, RecursorApi}
use powerdns.Recursor.Config.{RecursorConfig, is_configured}
use powerdns.Zones.{Hosted}
use powerdns.Forwarding.{sign_in_first, refused, unconfigured, Outcome, up_to_date, synced}
use powerdns.Forwarding.Leaves.{Leaves, Quiet, Reconciled}

module _ {S R : Type 0} (api : Api S) (recursor : RecursorApi R)
    (ip_address : Text → Option Address) (not_found : Text → Bool) (config : RecursorConfig)
    (addr : Text) where
  -- What a sync leaves, whatever becomes of the Recursor afterwards.
  abbrev Reconciles : Db → S → R → Hosted Outcome S R → Outcome → Type 0
  Reconciles db s r h (synced result) =
      Reconciled api recursor ip_address not_found config addr result db s r h
  Reconciles db s r h up_to_date =
      (h.db ≡ db) × Quiet api recursor ip_address not_found config addr s r h
  Reconciles db s r h _ = ⊥

  -- The page is not entered, for one of three reasons.
  abbrev pub IsKeptOut : Option User → Outcome → Type 0
  IsKeptOut user o =
      ((user ≡ none) × (o ≡ sign_in_first))
      ⊎ ((u : User) × (user ≡ some u)
          × ((¬ IsOperator u × (o ≡ refused))
              ⊎ (IsOperator u × (is_configured config ≡ false) × (o ≡ unconfigured))))
