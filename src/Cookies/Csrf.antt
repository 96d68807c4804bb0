-- ===== src/Cookies/Csrf.antt =====
-- The test of requests that change something.
use support_center.Prelude.{
  ℕ, String, ◌≡◌, refl, sym, ap, ◌∙◌, Bool, true, false, ◌||◌, Option, none, some, List, [], ◌∷◌,
  ◌++◌, arith, if◌then◌else◌, unwrap_or, any, nat_eq, string_eq, option_eq, pair_eq, ◌==◌, ==_iff,
}
use support_center.Prelude.{drop}
use mathlib.Core.Path.{subst}
use support_center.Chars.{Text, codes, starts_with, same_text}
use support_center.Cookies.{cookie_value}

pub data Method : Type 0 where
  get_method head_method options_method : Method
  other_method : String → Method

pub record CsrfHeaders : Type 0 where
  pub cookie : Option Text
  pub csrf_token : Option Text
  pub origin : Option Text
  pub referer : Option Text

-- The message and the code of a 403.
pub record CsrfRejection : Type 0 where
  pub message : String
  pub code : String

abbrev pub token_mismatch : CsrfRejection
token_mismatch = record { message = "CSRF token mismatch"; code = "CSRF_TOKEN_MISMATCH" }

abbrev pub origin_rejected : CsrfRejection
origin_rejected = record { message = "Origin not allowed"; code = "CSRF_ORIGIN_REJECTED" }

abbrev pub until_slash : Text → Text
until_slash [] = []
until_slash (c ∷ s) = if c == b'/' then [] else c ∷ until_slash s

abbrev pub onto : ℕ → Option Text → Option Text
onto c none = none
onto c (some t) = some (c ∷ t)

-- The text up to the first slash after the first `://`.
unfoldable pub origin_of : Text → Option Text
unfolding starts_with
origin_of [] = none
origin_of (c ∷ s) =
    if starts_with (c ∷ s) (codes "://")
    then some (codes "://" ++ until_slash (drop 2 s))
    else onto c (origin_of s)

abbrev pub is_safe : Method → Bool
is_safe get_method = true
is_safe head_method = true
is_safe options_method = true
is_safe (other_method m) = false

abbrev pub is_allowed : List Text → Option Text → Bool
is_allowed allowed none = false
is_allowed allowed (some origin) = any (λ a. same_text a origin) allowed

-- Where neither header is there the token alone decides.
unfoldable pub check_origin : List Text → Option Text → Option Text → Option CsrfRejection
unfolding origin_of same_text
check_origin allowed (some origin) referer =
    if is_allowed allowed (some origin) then none else some origin_rejected
check_origin allowed none (some referer) =
    if is_allowed allowed (origin_of referer) then none else some origin_rejected
check_origin allowed none none = none

unfoldable pub check_token : List Text → Option Text → CsrfHeaders → Option CsrfRejection
unfolding check_origin same_text
check_token allowed none headers = none
check_token allowed (some expected) headers =
    if same_text expected (unwrap_or headers.csrf_token [])
    then check_origin allowed headers.origin headers.referer
    else some token_mismatch

-- `none` lets the request through.
unfoldable pub csrf_check : Method → String → CsrfHeaders → List Text → Option CsrfRejection
unfolding check_token cookie_value
csrf_check method path headers allowed =
    if is_safe method || path == "/api/auth/login"
    then none
    else check_token allowed (cookie_value headers.cookie (codes "mcss_csrf")) headers

-- The origin of a request that states one: that of `origin`, or else that of the referring address.
abbrev pub stated_origin : CsrfHeaders → Option (Option Text)
stated_origin headers = elim headers.origin [
  | some o ↦ some (some o)
  | none ↦ elim headers.referer [ some r ↦ some (origin_of r) | none ↦ none ]
]

same_text_sound : (s t : Text) → same_text s t ≡ true → s ≡ t
unfolding same_text
same_text_sound [] [] h = refl
same_text_sound [] (d ∷ t) h = ground (arith, h)
same_text_sound (c ∷ s) [] h = ground (arith, h)
same_text_sound (c ∷ s) (d ∷ t) h =
    let same : c ≡ d = ground (arith, h, ==_iff c d) in
    let rest : same_text s t ≡ true = ground (arith, h) in rw (same, same_text_sound s t rest) refl

if_none :
    (b : Bool) (o : Option CsrfRejection) (r : CsrfRejection)
    → (if b then o else some r) ≡ none
    → (b ≡ true) × (o ≡ none)
if_none true o r h = (refl, h)
if_none false o r h = ground (arith, h)

check_origin-none :
    (allowed : List Text) (origin referer : Option Text) (stated : Option Text)
    → check_origin allowed origin referer ≡ none
    → elim origin [
      | some o ↦ some (some o)
      | none ↦ elim referer [ some r ↦ some (origin_of r) | none ↦ none ]
    ]
      ≡ some stated
    → is_allowed allowed stated ≡ true
unfolding check_origin
check_origin-none allowed (some o) referer stated h e =
    let r = if_none (is_allowed allowed (some o)) none origin_rejected h in
    subst (λ x. is_allowed allowed x ≡ true) (ap (λ y. unwrap_or y none) e) r.0
check_origin-none allowed none (some r) stated h e =
    let a = if_none (is_allowed allowed (origin_of r)) none origin_rejected h in
    subst (λ x. is_allowed allowed x ≡ true) (ap (λ y. unwrap_or y none) e) a.0
check_origin-none allowed none none stated h e = ground (arith, e)

check_token-none :
    (allowed : List Text) (o : Option Text) (headers : CsrfHeaders) (expected : Text)
    → check_token allowed o headers ≡ none
    → o ≡ some expected
    → (expected ≡ unwrap_or headers.csrf_token [])
      × (check_origin allowed headers.origin headers.referer ≡ none)
unfolding check_token
check_token-none allowed none headers expected h e = ground (arith, e)
check_token-none allowed (some t) headers expected h e =
    let r = if_none (same_text t (unwrap_or headers.csrf_token [])) _ token_mismatch h in
    let same : t ≡ expected = ap (λ y. unwrap_or y t) e in
    (sym same ∙ same_text_sound t (unwrap_or headers.csrf_token []) r.0, r.1)

unguarded :
    (a b : Bool) (o : Option CsrfRejection)
    → a ≡ false
    → b ≡ false
    → (if a || b then none else o) ≡ none
    → o ≡ none
unguarded true b o h k e = ground (arith, h)
unguarded false true o h k e = ground (arith, k)
unguarded false false o h k e = e

-- A request that changes something, that is no sign-in and carries the token cookie, is let through only
-- if it repeats the cookie's value in the header (none counts as the empty text), and if the origin
-- that it states, or that of its referring address, is allowed.
pub csrf_check_passes :
    (method : Method) (path : String) (headers : CsrfHeaders) (allowed : List Text)
    (expected : Text)
    → is_safe method ≡ false
    → (path == "/api/auth/login") ≡ false
    → cookie_value headers.cookie (codes "mcss_csrf") ≡ some expected
    → csrf_check method path headers allowed ≡ none
    → (expected ≡ unwrap_or headers.csrf_token [])
      × ((stated : Option Text)
          → stated_origin headers ≡ some stated
          → is_allowed allowed stated ≡ true)
unfolding csrf_check
csrf_check_passes method path headers allowed expected safe login cookie h =
    let checked : check_token allowed (cookie_value headers.cookie (codes "mcss_csrf")) headers
        ≡ none =
      unguarded (is_safe method) (path == "/api/auth/login") _ safe login h in
    let r = check_token-none allowed _ headers expected checked cookie in
    (r.0, λ stated e. check_origin-none allowed headers.origin headers.referer stated r.1 e)
