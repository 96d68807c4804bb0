-- ===== src/Auth/Examples.antt =====
-- A request that is let through.
use support_center.Prelude.{
  refl, true, false, none, some, List, [], ◌∷◌, if◌then◌else◌, nat_eq, string_eq, option_eq,
  pair_eq, ◌==◌,
}
use support_center.Chars.{starts_with, codes}
use support_center.Stores.TeamCache.{TeamMembership}
use support_center.Auth.{Claims, new_claims, AgentRow, Backend, AuthUser}
use support_center.Auth.Request.{RequestHeaders, AuthState, primary_team, authenticate}
use support_center.Auth.Admission.{IsAdmitted, authenticate_admits}

abbrev pub claims : Claims
claims = new_claims "ann" "agent" "access" 7200 "j1" 1000

abbrev pub row : AgentRow
row = record {
  id = "ann";
  email = "ann@example.org";
  password_hash = "hash";
  display_name = "Ann";
  role = "agent";
  is_active = 1;
  password_policy = "none";
  last_active_at = none;
  last_login_at = none;
  deleted_at = none;
  created_at = "2026-01-01";
  updated_at = none;
  position = none;
  tokens_valid_after = some "then";
}

abbrev pub teams : List TeamMembership
teams = record { team_id = 7; role = "lead"; is_primary = true } ∷ []

abbrev pub backend : Backend
backend = record {
  verify = λ token. if starts_with token (codes "a.") then some claims else none;
  decode = λ token. some claims;
  is_jti_revoked = λ jti. some false;
  find_agent_by_id = λ id. some (some row);
  memberships = λ id. some teams;
  conversation_team = λ id. some (some (some 7));
  timestamp_millis = λ raw. some 900000;
}

abbrev headers : RequestHeaders
headers = record {
  get = λ name.
      if name == "authorization"
      then some (codes "Bearer a.b.c")
      else if name == "x-context-team-id"
      then some (codes "7")
      else none;
  access_cookie = none;
}

abbrev state : AuthState
state = record { team_cache = []; last_active = [] }

abbrev user : AuthUser
user = record {
  id = "ann";
  email = "ann@example.org";
  display_name = "Ann";
  role = "agent";
  position = none;
  primary_team_id = some 7;
  teams = teams;
  jti = some "j1";
  token_type = "access";
  context_team_id = some 7;
}

authenticate_admits_example :
    (c : Claims) × (r : AgentRow) × IsAdmitted backend headers 100 state user c r
unfolding authenticate new_claims starts_with primary_team
authenticate_admits_example = authenticate_admits backend headers 100 state user refl
