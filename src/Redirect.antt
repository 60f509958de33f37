-- ===== src/Redirect.antt =====
-- Where the browser is sent after a sign-in: same_origin_path, is_safe_redirect_url and redirect_target
-- of webui/app/security.py, and _safe_next of webui/app/views/auth_views.py. Python's
-- urlparse(urljoin(request.host_url, target)) is a parameter, with `none` for its ValueError; its
-- urlunparse is written out for an empty scheme and host.
pub mod Relative
mod Tests
use powerdns.Prelude.{
  Bool, true, false, not, ◌&&◌, ◌||◌, Option, none, some, List, [], ◌∷◌, ◌++◌, ◌==◌, any, is_empty,
  if◌then◌else◌,
}
use powerdns.Text.{Text, text, eq_text, contains, starts_with}

pub record Url : Type 0 where
  pub scheme : Text
  pub netloc : Text
  pub path : Text
  pub params : Text
  pub query : Text
  pub fragment : Text

abbrev pub slash : Text
slash = text "/"

abbrev pub two_slashes : Text
two_slashes = text "//"

abbrev pub has_backslash : Text → Bool
has_backslash t = any (λ c. c == 92) t

-- What follows a separator, if there is anything.
abbrev pub tail : Text → Text → Text
tail sep t = if is_empty t then [] else sep ++ t

-- urlunparse(("", "", path, params, query, fragment))
unfoldable pub unparse : Text → Text → Text → Text → Text
unparse path params query fragment =
    let url = path ++ tail (text ";") params in
    let rooted = if starts_with two_slashes url then two_slashes ++ url else url in
    rooted ++ (tail (text "?") query ++ tail (text "#") fragment)

abbrev pub or_root : Text → Text
or_root t = if is_empty t then slash else t

pub data Target : Type 0 where
  value_error not_ours : Target
  ours : Text → Target

-- `host` is the network location of request.host_url.
module _ (parse : Text → Option Url) (host : Text) where
  abbrev pub rebuilt : Option Url → Target
  rebuilt none = value_error
  rebuilt (some url) =
      if not (contains url.scheme (text "http" ∷ text "https" ∷ []))
      then not_ours
      else if not (eq_text url.netloc host)
      then not_ours
      else if not (starts_with slash (or_root url.path))
      then not_ours
      else ours (unparse (or_root url.path) url.params url.query url.fragment)

  -- same_origin_path
  unfoldable pub same_origin_path : Text → Target
  unfolding unparse
  same_origin_path target =
      if is_empty target || starts_with two_slashes target || has_backslash target
      then not_ours
      else rebuilt (parse target)

  abbrev pub is_ours : Target → Bool
  is_ours (ours t) = true
  is_ours _ = false

  unfoldable pub is_safe_redirect_url : Text → Bool
  unfolding same_origin_path
  is_safe_redirect_url target = is_ours (same_origin_path target)

  -- same_origin_path(target) or default; `none` for an exception.
  abbrev pub or_default : Text → Target → Option Text
  or_default default value_error = none
  or_default default not_ours = some default
  or_default default (ours t) = some (if is_empty t then default else t)

  -- redirect_target, of the two places of `next`.
  unfoldable pub redirect_target : Text → Text → Text → Option Text
  unfolding same_origin_path
  redirect_target default args_next form_next =
      or_default default (same_origin_path (if is_empty args_next then form_next else args_next))

  -- _safe_next
  unfoldable pub safe_next : Text → Text → Option Text
  unfolding same_origin_path
  safe_next default candidate = or_default default (same_origin_path candidate)
