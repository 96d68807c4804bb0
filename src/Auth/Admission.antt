-- ===== src/Auth/Admission.antt =====
-- What a request that is let through has shown.
use support_center.Prelude.{
  ℕ, String, ◌≡◌, refl, sym, ap, ◌≢◌, ◌⊎◌, inl, inr, Bool, true, false, not, ◌||◌, Option, none,
  some, List, [], ◌∷◌, arith, Bool-cases, is_some, any, nat_eq, string_eq, option_eq, pair_eq, ◌==◌,
}
use mathlib.Core.Path.{subst}
use support_center.Chars.{Text, parse_i64}
use support_center.Stores.TeamCache
use support_center.Stores.TeamCache.{TeamCache, TeamMembership}
use support_center.Auth.{
  Claims, AgentRow, Backend, AppError, Result, ok, err, ◌>>=◌, require, ok_or, AuthUser,
  token_issued_before_valid_after, team_cache_ttl, teams_of, cached_or, loaded, team_role,
  can_access_team,
}
use support_center.Auth.Request.{
  RequestHeaders, AuthState, presented, is_full_access, check_revocation, active, identify,
  context_team, grant, with_teams, with_identity, authenticate, auth_user,
}

module _ {ℓ} {E : Type 0} {A : Type ℓ} where
  pub bind_ok {κ} :
      {B : Type κ} (m : Result E A) (next : A → Result E B) (b : B)
      → (m >>= next) ≡ ok b
      → (a : A) × ((m ≡ ok a) × (next a ≡ ok b))
  bind_ok (ok a) next b h = (a, (refl, h))
  bind_ok (err e) next b h = ground (arith, h)

  pub ok_or-some : (o : Option A) (e : E) (a : A) → ok_or o e ≡ ok a → o ≡ some a
  ok_or-some none e a h = ground (arith, h)
  ok_or-some (some b) e a h = ground (arith, h)

  unwrapped : A → Result E A → A
  unwrapped a (ok b) = b
  unwrapped a (err e) = a

  pub ok_inj : (a b : A) → ◌≡◌ {A = Result E A} (ok a) (ok b) → a ≡ b
  unfolding unwrapped
  ok_inj a b h = ap (unwrapped a) h

pub require-true : {E : Type 0} (b : Bool) (e : E) (u : Unit {0}) → require b e ≡ ok u → b ≡ true
require-true true e u h = refl
require-true false e u h = ground (arith, h)

-- The token and the account behind a request.
abbrev pub IsIdentified : Backend → RequestHeaders → Claims → AgentRow → Type 0
IsIdentified backend headers claims row =
    ((token : Text) × (presented (headers.get "authorization") headers.access_cookie ≡ ok token)
      × (backend.verify token ≡ some claims))
    × (is_full_access claims.token_type ≡ true)
    × (backend.is_jti_revoked claims.jti ≡ some false)
    × (backend.find_agent_by_id claims.sub ≡ some (some row))
    × (row.is_active ≢ 0)
    × (token_issued_before_valid_after backend claims.iat row.tokens_valid_after ≡ false)

check_revocation-ok : (o : Option Bool) (u : Unit {0}) → check_revocation o ≡ ok u → o ≡ some false
unfolding check_revocation
check_revocation-ok none u h = ground (arith, h)
check_revocation-ok (some true) u h = ground (arith, h)
check_revocation-ok (some false) u h = refl

active-ok :
    (o : Option (Option AgentRow)) (row : AgentRow)
    → active o ≡ ok row
    → (o ≡ some (some row)) × (row.is_active ≢ 0)
unfolding active
active-ok none row h = ground (arith, h)
active-ok (some none) row h = ground (arith, h)
active-ok (some (some r)) row h = ground (arith, h)

pub identify-ok :
    (backend : Backend) (headers : RequestHeaders) (claims : Claims) (row : AgentRow)
    → identify backend headers ≡ ok (claims, row)
    → IsIdentified backend headers claims row
unfolding identify
identify-ok backend headers claims row h =
    let r1 =
      bind_ok (presented (headers.get "authorization") headers.access_cookie) _ (claims, row) h in
    let r2 = bind_ok (ok_or (backend.verify r1.0) _) _ (claims, row) r1.1.1 in
    let r3 = bind_ok (require (is_full_access r2.0.token_type) _) _ (claims, row) r2.1.1 in
    let r4 = bind_ok (check_revocation (backend.is_jti_revoked r2.0.jti)) _ (claims, row) r3.1.1 in
    let r5 = bind_ok (active (backend.find_agent_by_id r2.0.sub)) _ (claims, row) r4.1.1 in
    let r6 =
      bind_ok
        (require (not (token_issued_before_valid_after backend r2.0.iat r5.0.tokens_valid_after)) _)
        _ (claims, row) r5.1.1 in
    subst (λ p. IsIdentified backend headers p.0 p.1) (ok_inj (r2.0, r5.0) (claims, row) r6.1.1)
      (
        (r1.0, r1.1.0, ok_or-some (backend.verify r1.0) _ r2.0 r2.1.0),
        require-true (is_full_access r2.0.token_type) _ r3.0 r3.1.0,
        check_revocation-ok (backend.is_jti_revoked r2.0.jti) r4.0 r4.1.0,
        (active-ok (backend.find_agent_by_id r2.0.sub) r5.0 r5.1.0).0,
        (active-ok (backend.find_agent_by_id r2.0.sub) r5.0 r5.1.0).1,
        ground (
          arith,
          require-true
              (not (token_issued_before_valid_after backend r2.0.iat r5.0.tokens_valid_after)) _
              r6.0 r6.1.0,
        ),
      )

-- The memberships that a user carries: those cached within the last minute, or those of the database.
abbrev pub AreMemberships : Backend → String → ℕ → TeamCache → List TeamMembership → Type 0
AreMemberships backend user now cache teams =
    (TeamCache.get user team_cache_ttl now cache ≡ some teams)
    ⊎ (backend.memberships user ≡ some teams)

loaded-some :
    (o : Option (List TeamMembership)) (user : String) (now : ℕ) (cache : TeamCache)
    (teams : List TeamMembership)
    → (loaded o user now cache).0 ≡ some teams
    → o ≡ some teams
unfolding loaded
loaded-some none user now cache teams h = h
loaded-some (some t) user now cache teams h = h

cached_or-some :
    (o : Option (List TeamMembership)) (backend : Backend) (user : String) (now : ℕ)
    (cache : TeamCache) (teams : List TeamMembership)
    → (cached_or o backend user now cache).0 ≡ some teams
    → (o ≡ some teams) ⊎ (backend.memberships user ≡ some teams)
unfolding cached_or
cached_or-some none backend user now cache teams h =
    inr (loaded-some (backend.memberships user) user now cache teams h)
cached_or-some (some t) backend user now cache teams h = inl h

pub teams_of-some :
    (backend : Backend) (user : String) (now : ℕ) (cache : TeamCache) (teams : List TeamMembership)
    → (teams_of backend user now cache).0 ≡ some teams
    → AreMemberships backend user now cache teams
unfolding teams_of
teams_of-some backend user now cache teams =
    cached_or-some (TeamCache.get user team_cache_ttl now cache) backend user now cache teams

-- Who a request acts as.
abbrev pub IsUserOf : AuthUser → Claims → AgentRow → Type 0
IsUserOf user claims row =
    (user ≡ auth_user claims row user.teams user.context_team_id)
    × ((team : ℕ) → user.context_team_id ≡ some team → can_access_team user team ≡ true)

any-team_role :
    (teams : List TeamMembership) (team : ℕ)
    → any (λ t. t.team_id == team) teams ≡ is_some (team_role teams team)
unfolding team_role
any-team_role [] team = refl
any-team_role (t ∷ teams) team = elim (Bool-cases (t.team_id == team)) [
  | inl e ↦ rw e refl
  | inr e ↦ rw e (any-team_role teams team)
]

module _ (claims : Claims) (row : AgentRow) (teams : List TeamMembership) where
  context_team-ok :
      (o : Option Text) (c : Option ℕ) (team : ℕ)
      → context_team o row.role teams ≡ ok c
      → c ≡ some team
      → can_access_team (auth_user claims row teams c) team ≡ true
  unfolding context_team can_access_team
  context_team-ok none c team h e = ground (arith, h, e)
  context_team-ok (some raw) c team h e =
      let r1 = bind_ok (ok_or (parse_i64 raw) _) _ c h in
      let r2 =
        bind_ok (require (row.role == "admin" || any (λ t. t.team_id == r1.0) teams) _) _ c
          r1.1.1 in
      let same : r1.0 ≡ team = ground (arith, ok_inj (some r1.0) c r2.1.1, e) in
      rw (sym same) (rw (sym (any-team_role teams r1.0)) (require-true _ _ r2.0 r2.1.0))

  grant-ok :
      (o : Option Text) (r : Result AppError (Option ℕ)) (user : AuthUser) (now : ℕ) (s : AuthState)
      → context_team o row.role teams ≡ r
      → (grant r claims row teams now s).0 ≡ ok user
      → (user.teams ≡ teams) × IsUserOf user claims row
  unfolding grant
  grant-ok o (err e) user now s g h = ground (arith, h)
  grant-ok o (ok c) user now s g h =
      subst (λ u. (u.teams ≡ teams) × IsUserOf u claims row)
        (ok_inj (auth_user claims row teams c) user h)
        (refl, (refl, λ team e. context_team-ok o c team g e))

with_teams-ok :
    (t : Option (List TeamMembership)) (claims : Claims) (row : AgentRow) (headers : RequestHeaders)
    (now : ℕ) (s : AuthState) (user : AuthUser)
    → (with_teams t claims row headers now s).0 ≡ ok user
    → (t ≡ some user.teams) × IsUserOf user claims row
unfolding with_teams
with_teams-ok none claims row headers now s user h = ground (arith, h)
with_teams-ok (some t) claims row headers now s user h =
    let o = headers.get "x-context-team-id" in
    let r = grant-ok claims row t o (context_team o row.role t) user now s refl h in
    (ap some (sym r.0), r.1)

-- What is known of a request that acts as a user.
abbrev pub IsAdmitted :
    Backend → RequestHeaders → ℕ → AuthState → AuthUser → Claims → AgentRow → Type 0
IsAdmitted backend headers now s user claims row =
    IsIdentified backend headers claims row
    × IsUserOf user claims row
    × AreMemberships backend row.id now s.team_cache user.teams

with_identity-ok :
    (r : Result AppError (Claims × AgentRow)) (backend : Backend) (headers : RequestHeaders)
    (now : ℕ) (s : AuthState) (user : AuthUser)
    → identify backend headers ≡ r
    → (with_identity r backend headers now s).0 ≡ ok user
    → (claims : Claims) × (row : AgentRow) × IsAdmitted backend headers now s user claims row
unfolding with_identity
with_identity-ok (err e) backend headers now s user g h = ground (arith, h)
with_identity-ok (ok (claims, row)) backend headers now s user g h =
    let t = teams_of backend row.id now s.team_cache in
    let w = with_teams-ok t.0 claims row headers now (record s { team_cache = t.1 }) user h in
    (
      claims,
      row,
      (
        identify-ok backend headers claims row g,
        w.1,
        teams_of-some backend row.id now s.team_cache user.teams w.0,
      ),
    )

module _ (backend : Backend) (headers : RequestHeaders) (now : ℕ) (s : AuthState) where
  -- A request that acts as a user presented a token that verifies, of a kind with full access, whose
  -- identifier the database said is not revoked, for an account it found active, and not issued before
  -- the account's tokens became valid. Who it acts as, the role included, is read from the account, the
  -- memberships are those of the database or were cached less than a minute ago, and the team it asks
  -- to act for is one it may access.
  pub authenticate_admits :
      (user : AuthUser)
      → (authenticate backend headers now s).0 ≡ ok user
      → (claims : Claims) × (row : AgentRow) × IsAdmitted backend headers now s user claims row
  unfolding authenticate
  authenticate_admits user h =
      with_identity-ok (identify backend headers) backend headers now s user refl h
