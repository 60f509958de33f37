-- ===== src/Session/Operators.antt =====
-- Who passes operator_required of webui/app/security.py.
use powerdns.Prelude.{
  ◌↔◌, ◌≡◌, ◌⊎◌, inl, inr, refl, false, not, ◌&&◌, Option, none, some, [], ◌∷◌, Bool-cases, arith,
}
use powerdns.Text.{Text, eq_text, contains}
use powerdns.Text.Laws.{eq_text_iff}
use powerdns.Store.{User, is_admin}
use powerdns.Roles.{role_admin, role_operator}
use powerdns.Session.{signed_out, forbidden, enter, operator_required, role_required}

abbrev pub IsOperator : User → Type 0
IsOperator u = (u.role ≡ role_admin) ⊎ (u.role ≡ role_operator)

passes_iff :
    (role a o : Text)
    → ((not (contains role (a ∷ o ∷ [])) && not (eq_text role a)) ≡ false)
      ↔ ((role ≡ a) ⊎ (role ≡ o))
unfolding contains
passes_iff role a o = ground (arith, eq_text_iff a role, eq_text_iff role a, eq_text_iff o role)

pub IsOperator-cases :
    (user : Option User)
    → ((user ≡ none) × (operator_required user ≡ signed_out))
      ⊎ ((u : User) × (user ≡ some u) × ¬ IsOperator u × (operator_required user ≡ forbidden))
      ⊎ ((u : User) × (user ≡ some u) × IsOperator u × (operator_required user ≡ enter u))
unfolding role_required
IsOperator-cases none = inl (refl, refl)
IsOperator-cases (some u) =
    elim (Bool-cases
      (not (contains u.role (role_admin ∷ role_operator ∷ [])) && not (is_admin u))) [
        | inl e ↦ inr (
            inl (
              u,
              refl,
              (λ op. cc (e, (passes_iff u.role role_admin role_operator).1 op)),
              rw e refl,
            ))
        | inr e ↦ inr (inr (u, refl, (passes_iff u.role role_admin role_operator).0 e, rw e refl))
      ]
