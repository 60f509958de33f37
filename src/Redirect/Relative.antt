-- ===== src/Redirect/Relative.antt =====
-- What kind of target a sign-in may lead to: same_origin_path of webui/app/security.py.
use powerdns.Prelude.{
  ◌≡◌, ◌↔◌, inl, inr, refl, subst, true, false, ◌||◌, Option, none, some, [], ◌∷◌, ◌++◌, arith, Any,
  Bool-cases, is_empty, if◌then◌else◌,
}
use powerdns.Text.{Text, text, eq_text, contains, starts_with}
use powerdns.Text.Laws.{eq_text_iff, contains_iff}
use powerdns.Redirect.{
  Url, slash, two_slashes, tail, unparse, or_root, has_backslash, ours, rebuilt, same_origin_path,
}

-- The target is a link to this site, and its rebuilt form is led by a slash; it is led by two, as a
-- link to another host is, exactly if the path in the link is.
abbrev pub IsRelative : (Text → Option Url) → Text → Text → Text → Type 0
IsRelative parse host target t =
    (starts_with two_slashes target ≡ false)
    × (has_backslash target ≡ false)
    × ((url : Url) × (parse target ≡ some url)
        × Any (λ s. s ≡ url.scheme) (text "http" ∷ text "https" ∷ [])
        × (url.netloc ≡ host)
        × (starts_with slash t ≡ true)
        × ((starts_with two_slashes t ≡ true) ↔ (starts_with two_slashes url.path ≡ true)))

slashes :
    (path params rest : Text)
    → starts_with slash (or_root path) ≡ true
    → starts_with slash rest ≡ false
    → let url = or_root path ++ tail (text ";") params in
      let t = (if starts_with two_slashes url then two_slashes ++ url else url) ++ rest in
      (starts_with slash t ≡ true)
      × ((starts_with two_slashes t ≡ true) ↔ (starts_with two_slashes path ≡ true))
unfolding starts_with
slashes [] [] [] h r = ground arith
slashes [] [] (a ∷ rest) h r = ground arith
slashes [] (p ∷ params) rest h r = ground arith
slashes (c ∷ []) [] [] h r = ground arith
slashes (c ∷ []) [] (a ∷ rest) h r = ground arith
slashes (c ∷ []) (p ∷ params) rest h r = ground arith
slashes (c ∷ d ∷ path) params rest h r = ground arith

suffix_lem :
    (query fragment : Text)
    → starts_with slash (tail (text "?") query ++ tail (text "#") fragment) ≡ false
unfolding starts_with
suffix_lem [] [] = refl
suffix_lem [] (f ∷ fragment) = refl
suffix_lem (q ∷ query) fragment = refl

rebuilt_lem :
    (parse : Text → Option Url) (host t : Text) (o : Option Url)
    → rebuilt parse host o ≡ ours t
    → (url : Url) × (o ≡ some url)
      × Any (λ s. s ≡ url.scheme) (text "http" ∷ text "https" ∷ [])
      × (url.netloc ≡ host)
      × (starts_with slash t ≡ true)
      × ((starts_with two_slashes t ≡ true) ↔ (starts_with two_slashes url.path ≡ true))
unfolding unparse
rebuilt_lem parse host t none h = absurd (ground arith)
rebuilt_lem parse host t (some url) h =
    let listed : contains url.scheme (text "http" ∷ text "https" ∷ []) ≡ true = ground arith in
    let here : eq_text url.netloc host ≡ true = ground arith in
    let rooted : starts_with slash (or_root url.path) ≡ true = ground arith in
    let same : unparse (or_root url.path) url.params url.query url.fragment ≡ t = ground arith in
    let rest = tail (text "?") url.query ++ tail (text "#") url.fragment in
    let (one, two) = slashes url.path url.params rest rooted (suffix_lem url.query url.fragment) in
    (
      url,
      refl,
      (contains_iff url.scheme (text "http" ∷ text "https" ∷ [])).0 listed,
      (eq_text_iff url.netloc host).0 here,
      subst (λ s. starts_with slash s ≡ true) same one,
      subst (λ s. (starts_with two_slashes s ≡ true) ↔ (starts_with two_slashes url.path ≡ true))
          same two,
    )

-- A target that is followed passed both tests of the text, and is a link to this site over HTTP. What the
-- browser gets is led by a slash; and it is led by two, as a link to another host is, exactly if the
-- path of the link is.
pub same_origin_path-IsRelative :
    (parse : Text → Option Url) (host target t : Text)
    → same_origin_path parse host target ≡ ours t
    → IsRelative parse host target t
unfolding same_origin_path
same_origin_path-IsRelative parse host target t h =
    elim (Bool-cases (is_empty target || starts_with two_slashes target || has_backslash target)) [
      | inl e ↦ absurd (ground arith)
      | inr e ↦ (ground arith, ground arith, rebuilt_lem parse host t (parse target) (rw e at h))
    ]
