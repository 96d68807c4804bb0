-- ===== src/Gate/Admission.antt =====
-- What a credential that the gate accepts has shown.
use support_center.Prelude.{
  ℕ, ◌+◌, ◌-◌, ◌≤◌, String, ◌≡◌, ◌≢◌, Bool, true, false, not, ◌||◌, Option, none, some, [], ◌∷◌,
  arith, ltb, nat_eq, string_eq, option_eq, pair_eq, ◌==◌, ==_sound,
}
use mathlib.Core.Path.{subst}
use support_center.Chars.{Text}
use support_center.Auth.{Claims, AgentRow, Backend, ok, require, ok_or}
use support_center.Auth.Admission.{bind_ok, ok_or-some, ok_inj, require-true}
use support_center.Gate.{
  nonempty, segments, is_blank, gate_role, active_account, credential, expiry_reject_margin_secs,
}

nonempty-some : (o : Option Text) (t : Text) → nonempty o ≡ some t → o ≡ some t
nonempty-some none t h = h
nonempty-some (some []) t h = ground (arith, h)
nonempty-some (some (c ∷ s)) t h = h

active_account-ok :
    (iso : String) (o : Option (Option AgentRow)) (row : AgentRow)
    → active_account iso o ≡ ok row
    → (o ≡ some (some row)) × (row.is_active ≢ 0)
unfolding active_account
active_account-ok iso none row h = ground (arith, h)
active_account-ok iso (some none) row h = ground (arith, h)
active_account-ok iso (some (some r)) row h = ground (arith, h)

-- The token and the account behind a connection.
abbrev pub IsCredential : Backend → ℕ → Option Text → Claims → AgentRow → Type 0
IsCredential backend epoch token claims row =
    ((t : Text) × (token ≡ some t) × (segments t ≡ 3) × (backend.decode t ≡ some claims))
    × (epoch + expiry_reject_margin_secs ≤ claims.exp)
    × ((is_blank claims.sub || claims.sub == "0") ≡ false)
    × ((gate_role claims == "admin" || gate_role claims == "agent") ≡ true)
    × (backend.find_agent_by_id claims.sub ≡ some (some row))
    × (row.is_active ≢ 0)

remaining_lem :
    (epoch exp : ℕ)
    → ltb epoch exp ≡ true
    → not (ltb (exp - epoch) expiry_reject_margin_secs) ≡ true
    → epoch + expiry_reject_margin_secs ≤ exp
remaining_lem epoch exp h k = ground (arith, h, k)

not-true : (b : Bool) → not b ≡ true → b ≡ false
not-true b h = ground (arith, h)

pub credential-ok :
    (backend : Backend) (iso : String) (epoch : ℕ) (token : Option Text) (claims : Claims)
    (row : AgentRow)
    → credential backend iso epoch token ≡ ok (claims, row)
    → IsCredential backend epoch token claims row
unfolding credential
credential-ok backend iso epoch token claims row h =
    let r1 = bind_ok (ok_or (nonempty token) _) _ (claims, row) h in
    let r2 = bind_ok (require (segments r1.0 == 3) _) _ (claims, row) r1.1.1 in
    let r3 = bind_ok (ok_or (backend.decode r1.0) _) _ (claims, row) r2.1.1 in
    let r4 = bind_ok (require (ltb epoch r3.0.exp) _) _ (claims, row) r3.1.1 in
    let r5 =
      bind_ok (require (not (ltb (r3.0.exp - epoch) expiry_reject_margin_secs)) _) _ (claims, row)
        r4.1.1 in
    let r6 =
      bind_ok (require (not (is_blank r3.0.sub || r3.0.sub == "0")) _) _ (claims, row) r5.1.1 in
    let r7 =
      bind_ok (require (gate_role r3.0 == "admin" || gate_role r3.0 == "agent") _) _ (claims, row)
        r6.1.1 in
    let r8 =
      bind_ok (active_account iso (backend.find_agent_by_id r3.0.sub)) _ (claims, row) r7.1.1 in
    subst (λ p. IsCredential backend epoch token p.0 p.1) (ok_inj (r3.0, r8.0) (claims, row) r8.1.1)
      (
        (
          r1.0,
          nonempty-some token r1.0 (ok_or-some (nonempty token) _ r1.0 r1.1.0),
          ==_sound (segments r1.0) 3 (require-true _ _ r2.0 r2.1.0),
          ok_or-some (backend.decode r1.0) _ r3.0 r3.1.0,
        ),
        remaining_lem epoch r3.0.exp (require-true _ _ r4.0 r4.1.0) (require-true _ _ r5.0 r5.1.0),
        not-true _ (require-true _ _ r6.0 r6.1.0),
        require-true _ _ r7.0 r7.1.0,
        (active_account-ok iso (backend.find_agent_by_id r3.0.sub) r8.0 r8.1.0).0,
        (active_account-ok iso (backend.find_agent_by_id r3.0.sub) r8.0 r8.1.0).1,
      )
