-- ===== src/Roles/Tests.antt =====
-- The group map on concrete groups.
use powerdns.Prelude.{◌≡◌, ◌≢◌, refl, none, some, [], ◌∷◌, List}
use powerdns.Text.{text}
use powerdns.Roles.{Group, role_admin, role_operator, role_user, resolve}
use powerdns.Roles.Grants.{Grants, resolve_lem}
use powerdns.Samples.{by_cn}

abbrev admins : List Group
admins = none ∷ some (text "CN=DNS-Admins,OU=Groups") ∷ []

resolve_dn : resolve by_cn admins ≡ some role_admin
unfolding resolve
resolve_dn = refl

resolve-none : resolve by_cn (some (text "guests") ∷ []) ≡ none
unfolding resolve
resolve-none = refl

resolve_lem_example :
    (Grants by_cn.admin_groups admins → resolve by_cn admins ≡ some role_admin)
    × (¬ Grants by_cn.admin_groups admins
        → Grants by_cn.operator_groups admins
        → resolve by_cn admins ≡ some role_operator)
    × (¬ Grants by_cn.admin_groups admins
        → ¬ Grants by_cn.operator_groups admins
        → Grants by_cn.user_groups admins
        → resolve by_cn admins ≡ some role_user)
    × (¬ Grants by_cn.admin_groups admins
        → ¬ Grants by_cn.operator_groups admins
        → ¬ Grants by_cn.user_groups admins
        → by_cn.default_role ≢ some []
        → resolve by_cn admins ≡ by_cn.default_role)
resolve_lem_example = resolve_lem by_cn admins
