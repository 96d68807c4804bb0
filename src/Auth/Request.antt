-- ===== src/Auth/Request.antt =====
-- `authenticate` and the middleware around it. A header that is no text counts as absent.
use support_center.Prelude.{
  ℕ, ◌*◌, String, Bool, true, false, not, ◌&&◌, ◌||◌, Option, none, some, List, if◌then◌else◌,
  is_some, length, any, find?, nat_eq, string_eq, option_eq, pair_eq, ◌==◌,
}
use support_center.Chars.{Text, codes, strip_prefix, parse_i64, same_text}
use support_center.Stores.TeamCache.{TeamCache, TeamMembership}
use support_center.Stores.Debounce.{LastActiveDebounce, should_persist}
use support_center.Auth.{
  Claims, AgentRow, Backend, AppError, unauthorized, forbidden, bad_request, service_unavailable,
  database, Result, ok, err, ◌>>=◌, ◌>>◌, require, ok_or, AuthUser, Area, is_admin, can_access_area,
  token_issued_before_valid_after, teams_of,
}

abbrev pub last_active_interval : ℕ
last_active_interval = 60 * 1000000000

-- A request's headers by name, and the value of its access cookie.
pub record RequestHeaders : Type 0 where
  pub get : String → Option Text
  pub access_cookie : Option Text

abbrev or_else {ℓ} : {A : Type ℓ} → Option A → Option A → Option A
or_else none b = b
or_else (some a) b = some a

unfoldable pub bearer : Text → Option Text
unfolding strip_prefix
bearer header =
    or_else (strip_prefix (codes "Bearer ") header) (strip_prefix (codes "bearer ") header)

-- The header decides where there is one, also where it is malformed.
unfoldable pub presented : Option Text → Option Text → Result AppError Text
unfolding bearer
presented (some header) cookie = ok_or (bearer header) (unauthorized "Authentication required")
presented none cookie = ok_or cookie (unauthorized "Authentication required")

abbrev pub is_full_access : String → Bool
is_full_access kind = kind == "access" || kind == "user" || kind == "monitoring"

-- The revocation test fails closed.
unfoldable pub check_revocation : Option Bool → Result AppError (Unit {0})
check_revocation (some true) = err (unauthorized "Token has been revoked")
check_revocation (some false) = ok tt
check_revocation none =
    err (service_unavailable "Unable to verify token revocation state" "REVOCATION_CHECK_FAILED")

unfoldable pub active : Option (Option AgentRow) → Result AppError AgentRow
active none = err database
active (some none) = err (unauthorized "Account is inactive or not found")
active (some (some row)) =
    if row.is_active == 0 then err (unauthorized "Account is inactive or not found") else ok row

-- All that is decided before any state is changed.
unfoldable pub identify : Backend → RequestHeaders → Result AppError (Claims × AgentRow)
unfolding presented check_revocation active token_issued_before_valid_after
identify backend headers = do
  token ← presented (headers.get "authorization") headers.access_cookie
  claims ← ok_or (backend.verify token) (unauthorized "Invalid or expired token")
  require (is_full_access claims.token_type) (unauthorized "Invalid token type")
  check_revocation (backend.is_jti_revoked claims.jti)
  row ← active (backend.find_agent_by_id claims.sub)
  require (not (token_issued_before_valid_after backend claims.iat row.tokens_valid_after))
      (unauthorized "Token is no longer valid")
  ok (claims, row)

unfoldable pub context_team :
    Option Text → String → List TeamMembership → Result AppError (Option ℕ)
unfolding parse_i64
context_team none role teams = ok none
context_team (some raw) role teams = do
  id ← ok_or (parse_i64 raw) (bad_request "Invalid team ID: must be numeric")
  require (role == "admin" || any (λ t. t.team_id == id) teams)
      (forbidden "You do not have access to the requested team")
  ok (some id)

pub record AuthState : Type 0 where
  pub team_cache : TeamCache
  pub last_active : LastActiveDebounce

unfoldable pub primary_team : List TeamMembership → Option ℕ
primary_team teams = elim (find? (λ t. t.is_primary) teams) [
  | none ↦ none
  | some t ↦ some t.team_id
]

abbrev pub auth_user : Claims → AgentRow → List TeamMembership → Option ℕ → AuthUser
auth_user claims row teams team = record {
  id = row.id;
  email = row.email;
  display_name = row.display_name;
  role = row.role;
  position = row.position;
  primary_team_id = primary_team teams;
  teams = teams;
  jti = some claims.jti;
  token_type = claims.token_type;
  context_team_id = team;
}

-- The last activity is noted only for a request that is let through.
unfoldable pub grant :
    Result AppError (Option ℕ)
    → Claims
    → AgentRow
    → List TeamMembership
    → ℕ
    → AuthState
    → Result AppError AuthUser × AuthState
unfolding should_persist
grant (err e) claims row teams now s = (err e, s)
grant (ok team) claims row teams now s = (
  ok (auth_user claims row teams team),
  record s { last_active = (should_persist row.id last_active_interval now s.last_active).1 },
)

unfoldable pub with_teams :
    Option (List TeamMembership)
    → Claims
    → AgentRow
    → RequestHeaders
    → ℕ
    → AuthState
    → Result AppError AuthUser × AuthState
unfolding grant context_team
with_teams none claims row headers now s = (err database, s)
with_teams (some teams) claims row headers now s =
    grant (context_team (headers.get "x-context-team-id") row.role teams) claims row teams now s

unfoldable pub with_identity :
    Result AppError (Claims × AgentRow)
    → Backend
    → RequestHeaders
    → ℕ
    → AuthState
    → Result AppError AuthUser × AuthState
unfolding with_teams teams_of
with_identity (err e) backend headers now s = (err e, s)
with_identity (ok (claims, row)) backend headers now s =
    let t = teams_of backend row.id now s.team_cache in
    with_teams t.0 claims row headers now (record s { team_cache = t.1 })

unfoldable pub authenticate :
    Backend → RequestHeaders → ℕ → AuthState → Result AppError AuthUser × AuthState
unfolding with_identity identify
authenticate backend headers now s = with_identity (identify backend headers) backend headers now s

-- The next handler runs, with the user if there is one, or the request is refused.
pub data Answer : Type 0 where
  runs : Option AuthUser → Answer
  refuses : AppError → Answer

unfoldable pub let_in : (AuthUser → Bool) → AppError → Result AppError AuthUser → Answer
let_in test e (err e') = refuses e'
let_in test e (ok user) = if test user then runs (some user) else refuses e

unfoldable pub require_auth : Backend → RequestHeaders → ℕ → AuthState → Answer × AuthState
unfolding authenticate let_in
require_auth backend headers now s =
    let r = authenticate backend headers now s in (let_in (λ u. true) database r.0, r.1)

unfoldable pub require_area_auth :
    Area → Backend → RequestHeaders → ℕ → AuthState → Answer × AuthState
unfolding authenticate let_in can_access_area
require_area_auth area backend headers now s =
    let r = authenticate backend headers now s in
    (
      let_in (λ u. can_access_area u area) (forbidden "Insufficient position for this area") r.0,
      r.1,
    )

unfoldable pub require_admin : Backend → RequestHeaders → ℕ → AuthState → Answer × AuthState
unfolding authenticate let_in
require_admin backend headers now s =
    let r = authenticate backend headers now s in
    (let_in is_admin (forbidden "Administrator role required") r.0, r.1)

-- Without any credential the request runs with no user; a bad one is refused.
unfoldable pub optional_auth : Backend → RequestHeaders → ℕ → AuthState → Answer × AuthState
unfolding require_auth
optional_auth backend headers now s =
    if is_some (headers.get "authorization") || is_some headers.access_cookie
    then require_auth backend headers now s
    else (runs none, s)

-- No configured key denies all.
unfoldable pub require_system_key : Option Text → Option Text → Bool
unfolding same_text
require_system_key (some expected) (some given) =
    not (length expected == 0) && same_text expected given
require_system_key none given = false
require_system_key expected none = false
