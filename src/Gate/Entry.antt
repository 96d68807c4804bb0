-- ===== src/Gate/Entry.antt =====
-- What a connection that is admitted has shown.
use support_center.Prelude.{
  unwrap_or, ℕ, String, ◌≡◌, refl, sym, ap, ◌⊎◌, inl, inr, Bool, true, false, ◌||◌, Option, none,
  some, List, arith, if◌then◌else◌, nat_eq, string_eq, option_eq, pair_eq, ◌==◌, ==_iff,
}
use mathlib.Core.Path.{subst}
use support_center.Chars.{Text}
use support_center.Stores.TeamCache.{TeamMembership}
use support_center.Hub.{HubInner}
use support_center.Hub.Users.{cached_access}
use support_center.Auth.{Claims, AgentRow, Backend, Result, ok, err, teams_of}
use support_center.Auth.Admission.{ok_inj, AreMemberships, teams_of-some}
use support_center.Gate.{
  GateOutcome, Rejection, GateState, Meanwhile, credential, identity_of, allowed_by, nat_elem,
  admit_if, queried, cached_or_queried, check_conversation, with_memberships, with_credential,
  authorize,
}
use support_center.Gate.Admission.{IsCredential, credential-ok}

-- A conversation of the shared pool, or of one of the teams.
abbrev pub IsInReach : Option (Option (Option ℕ)) → List ℕ → Type 0
IsInReach found ids =
    (found ≡ some (some none))
    ⊎ ((team : ℕ) × (found ≡ some (some (some team))) × (nat_elem team ids ≡ true))

allowed_by-IsInReach :
    (found : Option (Option (Option ℕ))) (ids : List ℕ)
    → allowed_by found ids ≡ some true
    → IsInReach found ids
unfolding allowed_by
allowed_by-IsInReach none ids h = ground (arith, h)
allowed_by-IsInReach (some none) ids h = ground (arith, h)
allowed_by-IsInReach (some (some none)) ids h = inl refl
allowed_by-IsInReach (some (some (some team))) ids h =
    inr (team, refl, ap (λ o. unwrap_or o false) h)

-- Who may open what is asked for: its decision is cached, or the database says so.
abbrev pub MayOpen : Backend → ℕ → HubInner → GateOutcome → Option String → Type 0
MayOpen backend now hub outcome none = Unit {0}
MayOpen backend now hub outcome (some cid) =
    (cid ≡ "")
    ⊎ (outcome.identity.role ≡ "admin")
    ⊎ (cached_access outcome.identity.user_id cid now hub ≡ some true)
    ⊎ (IsInReach (backend.conversation_team cid) outcome.identity.team_ids)

admit_if-ok :
    (iso : String) (b : Bool) (o o' : GateOutcome)
    → admit_if iso b o ≡ ok o'
    → (b ≡ true) × (o ≡ o')
unfolding admit_if
admit_if-ok iso true o o' h = (refl, ok_inj o o' h)
admit_if-ok iso false o o' h = ground (arith, h)

queried-ok :
    (iso : String) (a : Option Bool) (cid : String) (m : Meanwhile) (o o' : GateOutcome)
    (s : GateState)
    → (queried iso a cid m o s).0 ≡ ok o'
    → (a ≡ some true) × (o ≡ o')
unfolding queried
queried-ok iso none cid m o o' s h = ground (arith, h)
queried-ok iso (some b) cid m o o' s h = let r = admit_if-ok iso b o o' h in (ap some r.0, r.1)

cached_or_queried-ok :
    (iso : String) (a : Option Bool) (backend : Backend) (cid : String) (m : Meanwhile)
    (o o' : GateOutcome) (s : GateState)
    → (cached_or_queried iso a backend cid m o s).0 ≡ ok o'
    → ((a ≡ some true) ⊎ (IsInReach (backend.conversation_team cid) o.identity.team_ids)) × (o ≡ o')
unfolding cached_or_queried
cached_or_queried-ok iso none backend cid m o o' s h =
    let r =
      queried-ok iso (allowed_by (backend.conversation_team cid) o.identity.team_ids) cid m o o' s
        h in
    (inr (allowed_by-IsInReach (backend.conversation_team cid) o.identity.team_ids r.0), r.1)
cached_or_queried-ok iso (some b) backend cid m o o' s h =
    let r = admit_if-ok iso b o o' h in (inl (ap some r.0), r.1)

split_if :
    (b : Bool) {A B : Type 0} (x y : A × B) (a : A)
    → (if b then x else y).0 ≡ a
    → ((b ≡ true) × (x.0 ≡ a)) ⊎ ((b ≡ false) × (y.0 ≡ a))
split_if true x y a h = inl (refl, h)
split_if false x y a h = inr (refl, h)

either_lem :
    (cid role : String) → (cid == "" || role == "admin") ≡ true → (cid ≡ "") ⊎ (role ≡ "admin")
either_lem cid role h = ground (arith, h, ==_iff cid "", ==_iff role "admin")

check_conversation-ok :
    (backend : Backend) (iso : String) (now : ℕ) (m : Meanwhile) (c : Option String)
    (o o' : GateOutcome) (s : GateState)
    → (check_conversation backend iso now m c o s).0 ≡ ok o'
    → (o ≡ o') × MayOpen backend now s.hub o c
unfolding check_conversation
check_conversation-ok backend iso now m none o o' s h = (ok_inj o o' h, tt)
check_conversation-ok backend iso now m (some cid) o o' s h =
    elim (split_if (cid == "" || o.identity.role == "admin") (ok o, s)
      (cached_or_queried iso (cached_access o.identity.user_id cid now s.hub) backend cid m o s)
      (ok o') h) [
        | inl e ↦ (
          ok_inj o o' e.1,
          elim (either_lem cid o.identity.role e.0) [ inl p ↦ inl p | inr p ↦ inr (inl p) ],
        )
        | inr e ↦
            let r =
              cached_or_queried-ok iso (cached_access o.identity.user_id cid now s.hub) backend cid
                m o o' s e.1 in
            (r.1, inr (inr r.0))
      ]

with_memberships-ok :
    (t : Option (List TeamMembership)) (backend : Backend) (iso : String) (now : ℕ) (m : Meanwhile)
    (c : Option String) (claims : Claims) (row : AgentRow) (s : GateState) (o : GateOutcome)
    → (with_memberships t backend iso now m c claims row s).0 ≡ ok o
    → (teams : List TeamMembership) × (t ≡ some teams)
      × (o ≡ record { identity = identity_of row teams; exp = claims.exp })
      × MayOpen backend now s.hub o c
unfolding with_memberships
with_memberships-ok none backend iso now m c claims row s o h = ground (arith, h)
with_memberships-ok (some teams) backend iso now m c claims row s o h =
    let o0 : GateOutcome = record { identity = identity_of row teams; exp = claims.exp } in
    let r = check_conversation-ok backend iso now m c o0 o s h in
    (teams, refl, sym r.0, subst (λ o. MayOpen backend now s.hub o c) r.0 r.1)

-- The caches when the gate looks the decision up.
abbrev pub looked_up : Backend → ℕ → Meanwhile → AgentRow → GateState → GateState
looked_up backend now m row s =
    m.before_look_up (record s { team_cache = (teams_of backend row.id now s.team_cache).1 })

-- What is known of a connection that is admitted.
abbrev pub IsGranted :
    Backend
    → ℕ
    → ℕ
    → Meanwhile
    → Option Text
    → Option String
    → GateState
    → GateOutcome
    → Claims
    → AgentRow
    → List TeamMembership
    → Type 0
IsGranted backend epoch now m token c s o claims row teams =
    IsCredential backend epoch token claims row
    × AreMemberships backend row.id now s.team_cache teams
    × (o ≡ record { identity = identity_of row teams; exp = claims.exp })
    × MayOpen backend now (looked_up backend now m row s).hub o c

with_credential-ok :
    (r : Result Rejection (Claims × AgentRow)) (backend : Backend) (iso : String) (epoch now : ℕ)
    (m : Meanwhile) (token : Option Text) (c : Option String) (s : GateState) (o : GateOutcome)
    → credential backend iso epoch token ≡ r
    → (with_credential r backend iso now m c s).0 ≡ ok o
    → (claims : Claims) × (row : AgentRow) × (teams : List TeamMembership) × IsGranted backend epoch
        now m token c s o claims row teams
unfolding with_credential
with_credential-ok (err e) backend iso epoch now m token c s o g h = ground (arith, h)
with_credential-ok (ok (claims, row)) backend iso epoch now m token c s o g h =
    let t = teams_of backend row.id now s.team_cache in
    let w =
      with_memberships-ok t.0 backend iso now m c claims row (looked_up backend now m row s) o h in
    (
      claims,
      row,
      w.0,
      (
        credential-ok backend iso epoch token claims row g,
        teams_of-some backend row.id now s.team_cache w.0 w.1,
        w.2,
        w.3,
      ),
    )

-- A connection that the gate admits presented a token of three segments whose signature holds, that is
-- valid for 30 more seconds at least, with an account identifier and with the role of an agent or of
-- an administrator or none, for an account found active; its identity, the role and the teams
-- included, is that of the account, its expiry that of the token. The conversation it asks for, if
-- any, is open to it: it is an administrator, or a decision less than five minutes old says so, or
-- the conversation is in the shared pool or in one of its teams. Other tasks may do anything to the
-- caches before the decision is looked up and while the conversation is queried.
pub authorize_admits :
    (backend : Backend) (iso : String) (epoch now : ℕ) (m : Meanwhile) (token : Option Text)
    (c : Option String) (s : GateState) (o : GateOutcome)
    → (authorize backend iso epoch now m token c s).0 ≡ ok o
    → (claims : Claims) × (row : AgentRow) × (teams : List TeamMembership) × IsGranted backend epoch
        now m token c s o claims row teams
unfolding authorize
authorize_admits backend iso epoch now m token c s o h =
    with_credential-ok (credential backend iso epoch token) backend iso epoch now m token c s o refl
      h
