-- ===== src/Auth.antt =====
-- backend/src/middleware/auth.rs, and what the gate shares with it: claims (domain/auth/tokens.rs),
-- accounts (domain/auth/store.rs) and positions. Times in claims are seconds since the epoch, and
-- none is before it; a date before it counts as the epoch.
pub mod Request
pub mod Admission
pub mod Examples
use support_center.Prelude.{
  ℕ, ◌+◌, ◌-◌, ◌*◌, ◌^◌, min, String, Bool, true, false, ◌||◌, Option, none, some, List, [], ◌∷◌,
  ltb, leb, if◌then◌else◌, is_some, any, nat_eq, string_eq, ◌==◌,
}
use support_center.Chars.{Text}
use support_center.Stores.TeamCache
use support_center.Stores.TeamCache.{TeamCache, TeamMembership}

pub record TeamClaim : Type 0 where
  pub team_id : ℕ
  pub role : String
  pub is_primary : Bool

pub record Claims : Type 0 where
  pub iss : String
  pub aud : String
  pub sub : String
  pub email : Option String
  pub name : Option String
  pub role : String
  pub primary_team_id : Option ℕ
  pub teams : Option (List TeamClaim)
  pub token_type : String
  pub monitoring : Option Bool
  pub service_root_iat : Option ℕ
  pub jti : String
  pub iat : ℕ
  pub exp : ℕ

abbrev pub token_issuer : String
token_issuer = "mcss-backend"

abbrev pub token_audience : String
token_audience = "mcss-api"

-- `Claims::new` with the identifier that is drawn and the time.
unfoldable pub new_claims : String → String → String → ℕ → String → ℕ → Claims
new_claims sub role token_type ttl_secs jti now = record {
  iss = token_issuer;
  aud = token_audience;
  sub = sub;
  email = none;
  name = none;
  role = role;
  primary_team_id = none;
  teams = none;
  token_type = token_type;
  monitoring = none;
  service_root_iat = none;
  jti = jti;
  iat = now;
  exp = now + ttl_secs;
}

pub record AgentRow : Type 0 where
  pub id : String
  pub email : String
  pub password_hash : String
  pub display_name : String
  pub role : String
  pub is_active : ℕ
  pub password_policy : String
  pub last_active_at : Option String
  pub last_login_at : Option String
  pub deleted_at : Option String
  pub created_at : String
  pub updated_at : Option String
  pub position : Option String
  pub tokens_valid_after : Option String

-- What is asked of the database and of the libraries for signed tokens and for dates. `none` of a
-- query is its failure. `verify` tests the expiry and `decode` does not.
pub record Backend : Type 0 where
  pub verify : Text → Option Claims
  pub decode : Text → Option Claims
  pub is_jti_revoked : String → Option Bool
  pub find_agent_by_id : String → Option (Option AgentRow)
  pub memberships : String → Option (List TeamMembership)
  pub conversation_team : String → Option (Option (Option ℕ))
  pub timestamp_millis : String → Option ℕ

pub data AppError : Type 0 where
  unauthorized forbidden bad_request : String → AppError
  service_unavailable : String → String → AppError
  database : AppError

pub data Result {ℓ} (E : Type 0) (A : Type ℓ) : Type ℓ where
  ok : A → Result E A
  err : E → Result E A

infixl 5 ◌>>=◌ ◌>>◌
abbrev pub ◌>>=◌ {ℓ κ} :
    {E : Type 0} {A : Type ℓ} {B : Type κ} → Result E A → (A → Result E B) → Result E B
ok a >>= next = next a
err e >>= next = err e

abbrev pub ◌>>◌ {ℓ} : {E : Type 0} {B : Type ℓ} → Result E (Unit {0}) → Result E B → Result E B
m >> next = m >>= λ _. next

abbrev pub require : {E : Type 0} → Bool → E → Result E (Unit {0})
require true e = ok tt
require false e = err e

abbrev pub ok_or {ℓ} : {E : Type 0} {A : Type ℓ} → Option A → E → Result E A
ok_or none e = err e
ok_or (some a) e = ok a

pub record AuthUser : Type 0 where
  pub id : String
  pub email : String
  pub display_name : String
  pub role : String
  pub position : Option String
  pub primary_team_id : Option ℕ
  pub teams : List TeamMembership
  pub jti : Option String
  pub token_type : String
  pub context_team_id : Option ℕ

pub data Area : Type 0 where
  daily ops analytics system : Area

pub data Position : Type 0 where
  agent supervisor system_admin : Position

unfoldable pub position_for : String → Option String → Position
position_for role none = if role == "admin" then system_admin else agent
position_for role (some position) =
    if position == "system_admin"
    then system_admin
    else if position == "supervisor"
    then supervisor
    else if position == "agent"
    then agent
    else if role == "admin"
    then system_admin
    else agent

unfoldable pub allows : Position → Area → Bool
allows agent daily = true
allows agent ops = false
allows agent analytics = false
allows agent system = false
allows supervisor daily = true
allows supervisor ops = true
allows supervisor analytics = true
allows supervisor system = false
allows system_admin area = true

unfoldable pub position_allows : String → Option String → Area → Bool
unfolding position_for allows
position_allows role position area = allows (position_for role position) area

abbrev pub is_admin : AuthUser → Bool
is_admin user = user.role == "admin"

unfoldable pub can_access_area : AuthUser → Area → Bool
unfolding position_allows
can_access_area user area = position_allows user.role user.position area

unfoldable pub team_role : List TeamMembership → ℕ → Option String
team_role [] team = none
team_role (t ∷ teams) team = if t.team_id == team then some t.role else team_role teams team

unfoldable pub can_access_team : AuthUser → ℕ → Bool
unfolding team_role
can_access_team user team = is_admin user || is_some (team_role user.teams team)

unfoldable pub team_role_level : String → ℕ
team_role_level role =
    if role == "supervisor"
    then 3
    else if role == "lead"
    then 2
    else if role == "member"
    then 1
    else 0

unfoldable pub is_manager_or_admin : AuthUser → Bool
unfolding team_role_level
is_manager_or_admin user = is_admin user || any (λ t. leb 2 (team_role_level t.role)) user.teams

-- In seconds and milliseconds; the product saturates.
unfoldable pub token_issued_before_valid_after : Backend → ℕ → Option String → Bool
token_issued_before_valid_after backend iat none = false
token_issued_before_valid_after backend iat (some raw) = elim (backend.timestamp_millis raw) [
  | none ↦ false
  | some valid_after ↦ ltb (min (iat * 1000) (2 ^ 63 - 1)) valid_after
]

abbrev pub team_cache_ttl : ℕ
team_cache_ttl = 60 * 1000000000

-- The cached memberships, or those of the database, which are then cached. `none` is a failed query.
unfoldable pub loaded :
    Option (List TeamMembership) → String → ℕ → TeamCache → Option (List TeamMembership) × TeamCache
unfolding TeamCache.put
loaded none user now cache = (none, cache)
loaded (some teams) user now cache = (some teams, TeamCache.put user teams now cache)

unfoldable pub cached_or :
    Option (List TeamMembership)
    → Backend
    → String
    → ℕ
    → TeamCache
    → Option (List TeamMembership) × TeamCache
unfolding loaded
cached_or (some teams) backend user now cache = (some teams, cache)
cached_or none backend user now cache = loaded (backend.memberships user) user now cache

unfoldable pub teams_of :
    Backend → String → ℕ → TeamCache → Option (List TeamMembership) × TeamCache
unfolding cached_or TeamCache.get
teams_of backend user now cache =
    cached_or (TeamCache.get user team_cache_ttl now cache) backend user now cache
