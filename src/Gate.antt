-- ===== src/Gate.antt =====
-- backend/src/realtime/gate.rs: who may open a realtime connection. `now` is the clock of the caches in
-- nanoseconds, `epoch` the time in seconds that tokens refer to, `iso` its text.
pub mod Admission
pub mod Entry
pub mod Relabel
pub mod Stale
mod Examples
use support_center.Prelude.{
  ℕ, suc, ◌-◌, String, Bool, true, false, not, ◌||◌, Option, none, some, List, [], ◌∷◌, map, ltb,
  if◌then◌else◌, length, any, nat_eq, string_eq, ◌==◌,
}
use support_center.Chars.{Text, codes, trim}
use support_center.Json.{
  Value, nil, cons, Fields, end, field, str, bool, pos_int, arr, obj, set_field,
}
use support_center.Stores.TeamCache.{TeamCache, TeamMembership}
use support_center.Hub.{HubInner, ConnIdentity}
use support_center.Hub.Users.{cached_access, cache_access}
use support_center.Auth.{
  ◌>>=◌, ◌>>◌, Claims, AgentRow, Backend, Result, ok, err, require, ok_or, teams_of,
}

abbrev pub expiry_reject_margin_secs : ℕ
expiry_reject_margin_secs = 30

pub record GateOutcome : Type 0 where
  pub identity : ConnIdentity
  pub exp : ℕ

-- The status, the value of both code headers, and the body.
pub record Rejection : Type 0 where
  pub status : ℕ
  pub code : ℕ
  pub body : Value

unfoldable pub with_extra : Fields → Fields → Fields
with_extra body end = body
with_extra body (field k v rest) = with_extra (set_field body k v) rest

unfoldable pub gate_error : String → ℕ → ℕ → String → String → String → Fields → Rejection
unfolding with_extra
gate_error iso status code label message action extra = record {
  status = status;
  code = code;
  body = obj (
      with_extra
        (field "success" (bool false) (
          field "error" (str label) (
            field "message" (str message) (
              field "code" (pos_int code)
                (field "action" (str action) (field "timestamp" (str iso) end))))))
        extra);
}

unfoldable pub unexpected_failure : String → Rejection
unfolding gate_error
unexpected_failure iso =
    gate_error iso 500 4500 "AUTH_SYSTEM_ERROR" "Authentication system error" "retry_with_new_token"
      end

abbrev pub nonempty : Option Text → Option Text
nonempty none = none
nonempty (some []) = none
nonempty (some (c ∷ s)) = some (c ∷ s)

-- `token.split('.').count()`
unfoldable pub segments : Text → ℕ
segments [] = 1
segments (c ∷ s) = if c == b'.' then suc (segments s) else segments s

abbrev pub is_blank : String → Bool
is_blank s = length (trim (codes s)) == 0

abbrev pub gate_role : Claims → String
gate_role claims = if is_blank claims.role then "agent" else claims.role

unfoldable pub active_account : String → Option (Option AgentRow) → Result Rejection AgentRow
unfolding gate_error unexpected_failure
active_account iso none = err (unexpected_failure iso)
active_account iso (some none) = err (
    gate_error iso 401 4406 "INVALID_USER_DATA" "Account is inactive or not found" "contact_admin"
      end)
active_account iso (some (some row)) =
    if row.is_active == 0
    then err (
        gate_error iso 401 4406 "INVALID_USER_DATA" "Account is inactive or not found"
          "contact_admin" end)
    else ok row

-- The token and the account, before any state is changed.
unfoldable pub credential :
    Backend → String → ℕ → Option Text → Result Rejection (Claims × AgentRow)
unfolding gate_error segments active_account trim
credential backend iso epoch token = do
  t ←
      ok_or (nonempty token)
        (gate_error iso 401 4401 "NO_TOKEN" "Authentication token is required" "provide_token" end)
  require (segments t == 3) (
      gate_error iso 401 4402 "INVALID_TOKEN_FORMAT"
        "Token must be a three-segment signed credential" "provide_token" end)
  claims ← ok_or (backend.decode t) (
      gate_error iso 401 4403 "INVALID_TOKEN" "Token verification failed" "retry_with_new_token"
        end)
  require (ltb epoch claims.exp) (
      gate_error iso 401 4404 "TOKEN_EXPIRED" "Token has expired" "refresh_token"
        (field "expiredAt" (pos_int claims.exp) (field "currentTime" (pos_int epoch) end)))
  require (not (ltb (claims.exp - epoch) expiry_reject_margin_secs)) (
      gate_error iso 401 4405 "TOKEN_EXPIRING_SOON"
        "Token expires too soon; refresh before connecting" "refresh_token"
        (field "secondsRemaining" (pos_int (claims.exp - epoch)) end))
  require (not (is_blank claims.sub || claims.sub == "0")) (
      gate_error iso 401 4406 "INVALID_USER_DATA" "Token does not carry a usable account identifier"
        "contact_admin" end)
  require (gate_role claims == "admin" || gate_role claims == "agent") (
      gate_error iso 401 4407 "INVALID_ROLE" "Role is not permitted to open a realtime connection"
        "contact_admin"
        (field "allowedRoles" (arr (cons (str "admin") (cons (str "agent") nil))) end))
  row ← active_account iso (backend.find_agent_by_id claims.sub)
  ok (claims, row)

pub record GateState : Type 0 where
  pub team_cache : TeamCache
  pub hub : HubInner

-- What other tasks do to the caches at the two places where the gate lets them: before it looks the
-- decision up, and while the conversation is queried; and when a decision is stored.
pub record Meanwhile : Type 0 where
  pub before_look_up : GateState → GateState
  pub during_query : GateState → GateState
  pub stored_at : ℕ

unfoldable pub identity_of : AgentRow → List TeamMembership → ConnIdentity
identity_of row teams = record {
  user_id = row.id;
  email = row.email;
  display_name = row.display_name;
  role = row.role;
  team_ids = map (λ t. t.team_id) teams;
}

abbrev pub nat_elem : ℕ → List ℕ → Bool
nat_elem x xs = any (λ y. y == x) xs

-- What the conversation's row says: the pool that is shared, or a team. `none` is a failed query.
unfoldable pub allowed_by : Option (Option (Option ℕ)) → List ℕ → Option Bool
allowed_by none ids = none
allowed_by (some none) ids = some false
allowed_by (some (some none)) ids = some true
allowed_by (some (some (some team))) ids = some (nat_elem team ids)

abbrev pub denied : String → Rejection
denied iso =
    gate_error iso 403 4403 "CONVERSATION_ACCESS_DENIED"
      "You do not have access to this conversation" "contact_admin" end

unfoldable pub admit_if : String → Bool → GateOutcome → Result Rejection GateOutcome
unfolding gate_error
admit_if iso allowed outcome = if allowed then ok outcome else err (denied iso)

-- A decision that was queried is cached; a failed query is an error of the gate.
unfoldable pub queried :
    String
    → Option Bool
    → String
    → Meanwhile
    → GateOutcome
    → GateState
    → Result Rejection GateOutcome × GateState
unfolding admit_if unexpected_failure cache_access
queried iso none cid m outcome s = (err (unexpected_failure iso), m.during_query s)
queried iso (some allowed) cid m outcome s = (
  admit_if iso allowed outcome,
  record (m.during_query s) {
    hub = cache_access outcome.identity.user_id cid allowed m.stored_at (m.during_query s).hub;
  },
)

unfoldable pub cached_or_queried :
    String
    → Option Bool
    → Backend
    → String
    → Meanwhile
    → GateOutcome
    → GateState
    → Result Rejection GateOutcome × GateState
unfolding admit_if queried allowed_by
cached_or_queried iso (some allowed) backend cid m outcome s = (admit_if iso allowed outcome, s)
cached_or_queried iso none backend cid m outcome s =
    queried iso (allowed_by (backend.conversation_team cid) outcome.identity.team_ids) cid m outcome
      s

-- An empty conversation id counts as none, and an administrator may open any.
unfoldable pub check_conversation :
    Backend
    → String
    → ℕ
    → Meanwhile
    → Option String
    → GateOutcome
    → GateState
    → Result Rejection GateOutcome × GateState
unfolding cached_or_queried cached_access
check_conversation backend iso now m none outcome s = (ok outcome, s)
check_conversation backend iso now m (some cid) outcome s =
    if cid == "" || outcome.identity.role == "admin"
    then (ok outcome, s)
    else cached_or_queried iso (cached_access outcome.identity.user_id cid now s.hub) backend cid m
        outcome s

unfoldable pub with_memberships :
    Option (List TeamMembership)
    → Backend
    → String
    → ℕ
    → Meanwhile
    → Option String
    → Claims
    → AgentRow
    → GateState
    → Result Rejection GateOutcome × GateState
unfolding identity_of check_conversation unexpected_failure
with_memberships none backend iso now m cid claims row s = (err (unexpected_failure iso), s)
with_memberships (some teams) backend iso now m cid claims row s =
    check_conversation backend iso now m cid
      (record { identity = identity_of row teams; exp = claims.exp }) s

unfoldable pub with_credential :
    Result Rejection (Claims × AgentRow)
    → Backend
    → String
    → ℕ
    → Meanwhile
    → Option String
    → GateState
    → Result Rejection GateOutcome × GateState
unfolding with_memberships teams_of
with_credential (err e) backend iso now m cid s = (err e, s)
with_credential (ok (claims, row)) backend iso now m cid s =
    let t = teams_of backend row.id now s.team_cache in
    with_memberships t.0 backend iso now m cid claims row
      (m.before_look_up (record s { team_cache = t.1 }))

unfoldable pub authorize :
    Backend
    → String
    → ℕ
    → ℕ
    → Meanwhile
    → Option Text
    → Option String
    → GateState
    → Result Rejection GateOutcome × GateState
unfolding credential with_credential
authorize backend iso epoch now m token cid s =
    with_credential (credential backend iso epoch token) backend iso now m cid s
