-- ===== src/Gate/Relabel.antt =====
-- What the gate does not look at.
use support_center.Prelude.{
  ℕ, ◌-◌, String, ◌≡◌, refl, ap, Bool, not, ◌||◌, Option, none, some, List, ltb, if◌then◌else◌,
  nat_eq, string_eq, option_eq, pair_eq, ◌==◌,
}
use support_center.Stores.TeamCache.{TeamCache, TeamMembership}
use support_center.Hub.Users.{cached_access}
use support_center.Chars.{Text}
use support_center.Auth.{
  Claims, AgentRow, Backend, Result, ok, err, ◌>>=◌, require, ok_or, teams_of, cached_or,
}
use support_center.Gate.{
  GateOutcome, Rejection, GateState, Meanwhile, nonempty, segments, is_blank, gate_role,
  active_account, credential, with_memberships, check_conversation, cached_or_queried,
  with_credential, authorize, expiry_reject_margin_secs,
}

module _ {E B C : Type 0} (change : B → C) where
  on_ok : Result E B → Result E C
  on_ok (ok b) = ok (change b)
  on_ok (err e) = err e

  bind-on_ok :
      {A : Type 0} (m : Result E A) (f : A → Result E B) (g : A → Result E C)
      → ((a : A) → g a ≡ on_ok (f a))
      → (m >>= g) ≡ on_ok (m >>= f)
  unfolding on_ok
  bind-on_ok (ok a) f g h = h a
  bind-on_ok (err e) f g h = refl

module _ (kind jti : String) (iat : ℕ) (revoked : String → Option Bool) where
  abbrev pub relabel : Claims → Claims
  relabel claims = record claims { token_type = kind; jti = jti; iat = iat }

  abbrev pub relabel_found : Option Claims → Option Claims
  relabel_found none = none
  relabel_found (some claims) = some (relabel claims)

  -- The same tokens with another kind, identifier and time of issue, and other revocations.
  abbrev pub relabelled : Backend → Backend
  relabelled backend = record backend {
    decode = λ t. relabel_found (backend.decode t);
    is_jti_revoked = revoked;
  }

  both : Claims × AgentRow → Claims × AgentRow
  both p = (relabel p.0, p.1)

  module _ (backend : Backend) (iso : String) (epoch : ℕ) where
    decoded :
        (o : Option Claims) (f : Claims → Result Rejection (Claims × AgentRow)) (r : Rejection)
        → ((claims : Claims) → f (relabel claims) ≡ on_ok both (f claims))
        → (ok_or (relabel_found o) r >>= f) ≡ on_ok both (ok_or o r >>= f)
    unfolding on_ok
    decoded none f r h = refl
    decoded (some claims) f r h = h claims

    credential-relabelled :
        (token : Option Text)
        → credential (relabelled backend) iso epoch token
          ≡ on_ok both (credential backend iso epoch token)
    unfolding credential both on_ok
    credential-relabelled token = bind-on_ok both (ok_or (nonempty token) _) _ _ λ t.
        bind-on_ok both (require (segments t == 3) _) _ _ λ u.
          decoded (backend.decode t) _ _ λ claims.
            bind-on_ok both (require (ltb epoch claims.exp) _) _ _ λ u.
              bind-on_ok both (require (not (ltb (claims.exp - epoch) expiry_reject_margin_secs)) _)
                _ _
                λ u.
                  bind-on_ok both (require (not (is_blank claims.sub || claims.sub == "0")) _) _ _
                    λ u.
                      bind-on_ok both
                        (require (gate_role claims == "admin" || gate_role claims == "agent") _) _ _
                        λ u.
                          bind-on_ok both (active_account iso (backend.find_agent_by_id claims.sub))
                            _ _ λ row. refl

    cached_or_queried-relabelled :
        (a : Option Bool) (cid : String) (m : Meanwhile) (o : GateOutcome) (s : GateState)
        → cached_or_queried iso a (relabelled backend) cid m o s
          ≡ cached_or_queried iso a backend cid m o s
    unfolding cached_or_queried
    cached_or_queried-relabelled none cid m o s = refl
    cached_or_queried-relabelled (some b) cid m o s = refl

    cached_or-relabelled :
        (a : Option (List TeamMembership)) (user : String) (now : ℕ) (cache : TeamCache)
        → cached_or a (relabelled backend) user now cache ≡ cached_or a backend user now cache
    unfolding cached_or
    cached_or-relabelled none user now cache = refl
    cached_or-relabelled (some t) user now cache = refl

    teams_of-relabelled :
        (user : String) (now : ℕ) (cache : TeamCache)
        → teams_of (relabelled backend) user now cache ≡ teams_of backend user now cache
    unfolding teams_of
    teams_of-relabelled user now cache = cached_or-relabelled _ user now cache

    check_conversation-relabelled :
        (now : ℕ) (m : Meanwhile) (c : Option String) (o : GateOutcome) (s : GateState)
        → check_conversation (relabelled backend) iso now m c o s
          ≡ check_conversation backend iso now m c o s
    unfolding check_conversation
    check_conversation-relabelled now m none o s = refl
    check_conversation-relabelled now m (some cid) o s =
        ap (λ r. if cid == "" || o.identity.role == "admin" then (ok o, s) else r)
          (cached_or_queried-relabelled (cached_access o.identity.user_id cid now s.hub) cid m o s)

    with_memberships-relabelled :
        (t : Option (List TeamMembership)) (now : ℕ) (m : Meanwhile) (c : Option String)
        (claims : Claims) (row : AgentRow) (s : GateState)
        → with_memberships t (relabelled backend) iso now m c (relabel claims) row s
          ≡ with_memberships t backend iso now m c claims row s
    unfolding with_memberships
    with_memberships-relabelled none now m c claims row s = refl
    with_memberships-relabelled (some teams) now m c claims row s =
        check_conversation-relabelled now m c _ s

    with_credential-relabelled :
        (r : Result Rejection (Claims × AgentRow)) (now : ℕ) (m : Meanwhile) (c : Option String)
        (s : GateState)
        → with_credential (on_ok both r) (relabelled backend) iso now m c s
          ≡ with_credential r backend iso now m c s
    unfolding with_credential both on_ok
    with_credential-relabelled (err e) now m c s = refl
    with_credential-relabelled (ok (claims, row)) now m c s =
        let t = teams_of backend row.id now s.team_cache in
        rw (teams_of-relabelled row.id now s.team_cache) (
          with_memberships-relabelled t.0 now m c claims row
            (m.before_look_up (record s { team_cache = t.1 })))

    -- The gate decides alike, and does alike, whatever kind, identifier and time of issue a token has and
    -- whatever the database says of revocations: a token that is only for renewal, one that is only for
    -- a change of password and one that was revoked open a connection wherever an access token does.
    pub authorize-relabelled :
        (now : ℕ) (m : Meanwhile) (token : Option Text) (c : Option String) (s : GateState)
        → authorize (relabelled backend) iso epoch now m token c s
          ≡ authorize backend iso epoch now m token c s
    unfolding authorize
    authorize-relabelled now m token c s =
        rw (credential-relabelled token)
          (with_credential-relabelled (credential backend iso epoch token) now m c s)
