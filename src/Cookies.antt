-- ===== src/Cookies.antt =====
-- backend/src/middleware/cookies.rs and csrf.rs: the cookies of a session, and the test of requests that
-- change something. `print` is the decimal text of a number.
pub mod Csrf
pub mod RoundTrip
mod Examples
use support_center.Prelude.{
  ℕ, Bool, true, false, Option, none, some, List, [], ◌∷◌, ◌++◌, if◌then◌else◌, nat_eq, ◌==◌,
}
use support_center.Chars.{Text, codes, trim, same_text}

abbrev pub access_ttl_secs : ℕ
access_ttl_secs = 7200

abbrev pub refresh_ttl_secs : ℕ
refresh_ttl_secs = 604800

unfoldable pub build_cookie : (ℕ → Text) → Text → Text → ℕ → Bool → Text → Bool → Text
build_cookie print name value max_age http_only path secure =
    name
    ++ codes "="
    ++ value
    ++ codes "; SameSite=Lax; Path="
    ++ path
    ++ codes "; Max-Age="
    ++ print max_age
    ++ (if http_only then codes "; HttpOnly" else [])
    ++ (if secure then codes "; Secure" else [])

unfoldable pub auth_cookies : (ℕ → Text) → Text → Text → Text → Bool → List Text
unfolding build_cookie
auth_cookies print access refresh csrf secure =
    build_cookie print (codes "mcss_access") access access_ttl_secs true (codes "/") secure
    ∷ build_cookie print (codes "mcss_refresh") refresh refresh_ttl_secs true (codes "/api/auth")
        secure
    ∷ build_cookie print (codes "mcss_csrf") csrf refresh_ttl_secs false (codes "/") secure
    ∷ []

unfoldable pub clear_auth_cookies : (ℕ → Text) → Bool → List Text
unfolding build_cookie
clear_auth_cookies print secure =
    build_cookie print (codes "mcss_access") [] 0 true (codes "/") secure
    ∷ build_cookie print (codes "mcss_refresh") [] 0 true (codes "/api/auth") secure
    ∷ build_cookie print (codes "mcss_csrf") [] 0 false (codes "/") secure
    ∷ []

abbrev pub onto_first : ℕ → List Text → List Text
onto_first c [] = (c ∷ []) ∷ []
onto_first c (t ∷ ts) = (c ∷ t) ∷ ts

-- `str::split` with a character.
unfoldable pub split : ℕ → Text → List Text
split sep [] = [] ∷ []
split sep (c ∷ s) = if c == sep then [] ∷ split sep s else onto_first c (split sep s)

abbrev pub onto_name : ℕ → Option (Text × Text) → Option (Text × Text)
onto_name c none = none
onto_name c (some (n, v)) = some (c ∷ n, v)

-- `str::split_once` with a character.
unfoldable pub split_once : ℕ → Text → Option (Text × Text)
split_once sep [] = none
split_once sep (c ∷ s) = if c == sep then some ([], s) else onto_name c (split_once sep s)

abbrev pub named : Text → Option (Text × Text) → Option Text → Option Text
named name none rest = rest
named name (some (k, v)) rest = if same_text (trim k) name then some (trim v) else rest

unfoldable pub first_named : Text → List Text → Option Text
unfolding split_once same_text trim
first_named name [] = none
first_named name (pair ∷ pairs) = named name (split_once b'=' (trim pair)) (first_named name pairs)

-- On the header `cookie`, which counts as absent if it is no text.
unfoldable pub cookie_value : Option Text → Text → Option Text
unfolding first_named split
cookie_value none name = none
cookie_value (some raw) name = first_named name (split b';' raw)
