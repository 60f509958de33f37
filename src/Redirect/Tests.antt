-- ===== src/Redirect/Tests.antt =====
-- A link with two slashes in its path, as urlparse reads it after urljoin.
use powerdns.Prelude.{◌≡◌, refl, Option, some, []}
use powerdns.Text.{Text, text, eq_text, contains, starts_with}
use powerdns.Redirect.{Url, ours, same_origin_path}
use powerdns.Redirect.Relative.{IsRelative, same_origin_path-IsRelative}

abbrev target : Text
target = text "/.//other.test"

abbrev host : Text
host = text "panel.test"

abbrev parse : Text → Option Url
parse t = some (record {
  scheme = text "https";
  netloc = text "panel.test";
  path = text "//other.test";
  params = [];
  query = [];
  fragment = [];
})

-- The browser is sent to a text that it reads as a link to another host.
leaves_the_site : same_origin_path parse host target ≡ ours (text "////other.test")
unfolding same_origin_path starts_with contains eq_text
leaves_the_site = refl

same_origin_path-IsRelative_example : IsRelative parse host target (text "////other.test")
same_origin_path-IsRelative_example =
    same_origin_path-IsRelative parse host target (text "////other.test") leaves_the_site
