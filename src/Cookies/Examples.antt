-- ===== src/Cookies/Examples.antt =====
-- Requests with cookies.
use support_center.Prelude.{
  ◌≡◌, refl, true, Option, none, some, List, [], ◌∷◌, arith, unwrap_or, nat_eq, string_eq,
  option_eq, pair_eq,
}
use support_center.Chars.{Text, codes, trim, is_whitespace, same_text}
use support_center.Cookies.{cookie_value}
use support_center.Cookies.Csrf.{
  Method, other_method, CsrfHeaders, csrf_check, stated_origin, is_allowed, csrf_check_passes,
}
use support_center.Cookies.RoundTrip.{
  cookie_header, lookup_cookie, ArePlain, cookie_value-cookie_header,
}

abbrev jar : List (Text × Text)
jar = (codes "mcss_csrf", codes "t0") ∷ (codes "mcss_csrf", codes "t1") ∷ []

abbrev access : Text × Text
access = (codes "mcss_access", codes "a.b.c")

plain_jar : ArePlain (access ∷ jar)
unfolding is_whitespace
plain_jar = ground arith

cookie_value-cookie_header_example :
    cookie_value (some (cookie_header access jar)) (codes "mcss_csrf")
    ≡ lookup_cookie (codes "mcss_csrf") (access ∷ jar)
cookie_value-cookie_header_example =
    cookie_value-cookie_header (codes "mcss_csrf") access jar plain_jar

abbrev headers : CsrfHeaders
headers = record {
  cookie = some (cookie_header access jar);
  csrf_token = some (codes "t0");
  origin = some (codes "https://app.example");
  referer = none;
}

abbrev delete : Method
delete = other_method "DELETE"

csrf_check_passes_example :
    (codes "t0" ≡ unwrap_or headers.csrf_token [])
    × ((stated : Option Text)
        → stated_origin headers ≡ some stated
        → is_allowed (codes "https://app.example" ∷ []) stated ≡ true)
unfolding csrf_check cookie_value trim is_whitespace same_text
csrf_check_passes_example =
    csrf_check_passes delete "/api/tags" headers (codes "https://app.example" ∷ []) (codes "t0")
      refl refl refl refl
