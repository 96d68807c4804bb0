-- ===== src/Uploads/Caps.antt =====
-- The caps hold: on concurrent uploads through every run, on the others at every admission.
use support_center.Prelude.{
  ℕ, ◌+◌, ◌-◌, ◌^◌, ◌≤◌, ◌<◌, String, ◌≡◌, refl, sym, ap, ◌∙◌, inl, inr, Bool, true, false, Option,
  none, some, List, [], ◌∷◌, arith, if◌then◌else◌, Bool-cases, Option-cases, unwrap_or, count_if,
  any, All, nat_eq, string_eq, option_eq, pair_eq, ◌==◌, ==_iff, ==_sound,
}
use support_center.HashMap.{HashMap, get, modify, entry}
use support_center.HashMap.Laws.{get-insert, get-modify_self, get-modify_ne, get-modify-none}
use support_center.Uploads.{
  UploadLimiter, UploadPolicy, UserCounters, Refusal, unavailable, no_uploads, with_upload, recent,
  refusal, settle, admit, drop,
}
use support_center.Uploads.Trace.{World, start, Event, begins, ends, take_guard, without, step, run}

abbrev pub concurrent_of : Option UserCounters → ℕ
concurrent_of none = 0
concurrent_of (some c) = c.concurrent

-- How many uploads of the user run.
unfoldable pub running : String → List String → ℕ
running user guards = count_if (λ g. g == user) guards

-- The counter of every user is the number of the user's uploads that run, and at most `most`.
pub record Inv (most : ℕ) (w : World) : Type 0 where
  pub healthy : w.limiter.poisoned ≡ false
  pub exact : (user : String) → concurrent_of (get w.limiter.users user) ≡ running user w.guards
  pub capped : (user : String) → running user w.guards ≤ most

-- Every policy that is used admits at most so many concurrent uploads.
abbrev pub HasCap : ℕ → Event → Type 0
HasCap most (begins user bytes policy now) = policy.max_concurrent ≤ most
HasCap most (ends user) = Unit

concurrent_entry : (o : Option UserCounters) → (unwrap_or o no_uploads).concurrent ≡ concurrent_of o
concurrent_entry none = refl
concurrent_entry (some c) = refl

refusal-concurrent :
    (bytes : ℕ) (policy : UploadPolicy) (now : ℕ) (c : UserCounters)
    → refusal bytes policy now c ≡ none
    → c.concurrent < policy.max_concurrent
unfolding refusal
refusal-concurrent bytes policy now c h = ground arith

settle-Inv :
    (most : ℕ) (o : Option Refusal) (user : String) (bytes now : ℕ) (c : UserCounters) (w : World)
    → c.concurrent ≡ running user w.guards
    → (o ≡ none → c.concurrent < most)
    → most < 2 ^ 32
    → Inv most w
    → Inv most (take_guard user (settle o user bytes now c w.limiter) w)
unfolding settle take_guard running
settle-Inv most (some r) user bytes now c w same room small v = record {
  healthy = v.healthy;
  exact = λ u. elim (Bool-cases (user == u)) [
    | inl e ↦
        rw (get-insert w.limiter.users user u c, e)
          (same ∙ ap (λ x. running x w.guards) (==_sound user u e))
    | inr e ↦ rw (get-insert w.limiter.users user u c, e) (v.exact u)
  ];
  capped = v.capped;
}
settle-Inv most none user bytes now c w same room small v = record {
  healthy = v.healthy;
  exact = λ u. elim (Bool-cases (user == u)) [
    | inl e ↦
        rw (get-insert w.limiter.users user u (with_upload now bytes c), e)
          (let now_same : c.concurrent ≡ running u w.guards =
              same ∙ ap (λ x. running x w.guards) (==_sound user u e) in
            omega (arith, now_same, room refl, small))
    | inr e ↦ rw (get-insert w.limiter.users user u (with_upload now bytes c), e) (v.exact u)
  ];
  capped = λ u. elim (Bool-cases (user == u)) [
    | inl e ↦ rw e (
        let now_same : c.concurrent ≡ running u w.guards =
          same ∙ ap (λ x. running x w.guards) (==_sound user u e) in
        omega (arith, now_same, room refl))
    | inr e ↦ rw e (v.capped u)
  ];
}

if_false {ℓ} : {A : Type ℓ} (b : Bool) (x y : A) → b ≡ false → (if b then x else y) ≡ y
if_false true x y h = cc
if_false false x y h = refl

pub admit_healthy :
    (user : String) (bytes : ℕ) (policy : UploadPolicy) (now : ℕ) (l : UploadLimiter)
    → l.poisoned ≡ false
    → admit user bytes policy now l
      ≡ settle
          (refusal bytes policy now (recent now (entry l.users user no_uploads)))
          user
          bytes
          now
          (recent now (entry l.users user no_uploads))
          l
unfolding admit
admit_healthy user bytes policy now l h =
    let c = recent now (entry l.users user no_uploads) in
    if_false l.poisoned (some unavailable, l)
      (settle (refusal bytes policy now c) user bytes now c l) h

drop_healthy :
    (user : String) (l : UploadLimiter)
    → l.poisoned ≡ false
    → drop user l
      ≡ record l { users = modify (λ c. record c { concurrent = c.concurrent - 1 }) l.users user }
unfolding drop
drop_healthy user l h = if_false l.poisoned l _ h

begins-Inv :
    (most : ℕ) (user : String) (bytes : ℕ) (policy : UploadPolicy) (now : ℕ) (w : World)
    → policy.max_concurrent ≤ most
    → most < 2 ^ 32
    → Inv most w
    → Inv most (step w (begins user bytes policy now))
unfolding step recent entry
begins-Inv most user bytes policy now w cap small v =
    let c = recent now (entry w.limiter.users user no_uploads) in
    let same : c.concurrent ≡ running user w.guards =
      concurrent_entry (get w.limiter.users user) ∙ v.exact user in
    let kept =
      settle-Inv most (refusal bytes policy now c) user bytes now c w same
        (λ e. let room = refusal-concurrent bytes policy now c e in omega (arith, room, cap)) small
        v in
    rw (admit_healthy user bytes policy now w.limiter v.healthy) kept

running-without :
    (user u : String) (guards : List String)
    → any (λ g. g == user) guards ≡ true
    → running u guards ≡ running u (without user guards) + (if user == u then 1 else 0)
unfolding running without
running-without user u [] h = cc
running-without user u (g ∷ guards) h =
    ground (arith, ==_iff g user, ==_iff g u, ==_iff user u, running-without user u guards)

concurrent-drop :
    (users : HashMap String UserCounters) (user : String)
    → concurrent_of (get (modify (λ c. record c { concurrent = c.concurrent - 1 }) users user) user)
      ≡ concurrent_of (get users user) - 1
concurrent-drop users user = elim (Option-cases (get users user)) [
  | inl e ↦
      rw (get-modify-none (λ c. record c { concurrent = c.concurrent - 1 }) users user e, e) refl
  | inr (c, e) ↦
      rw (get-modify_self (λ c. record c { concurrent = c.concurrent - 1 }) users user c e, e) refl
]

drop-concurrent :
    (user u : String) (l : UploadLimiter)
    → l.poisoned ≡ false
    → concurrent_of (get (drop user l).users u)
      ≡ concurrent_of (get l.users u) - (if user == u then 1 else 0)
drop-concurrent user u l h = elim (Bool-cases (user == u)) [
  | inl e ↦
      rw (drop_healthy user l h, e)
        (ap
            (λ x.
              concurrent_of
                (get (modify (λ c. record c { concurrent = c.concurrent - 1 }) l.users user) x))
            (sym (==_sound user u e))
          ∙ concurrent-drop l.users user
          ∙ ap (λ x. concurrent_of (get l.users x) - 1) (==_sound user u e))
  | inr e ↦
      rw (drop_healthy user l h, e)
        (ap concurrent_of
            (get-modify_ne (λ c. record c { concurrent = c.concurrent - 1 }) l.users user u e)
          ∙ (omega arith))
]

ends-Inv : (most : ℕ) (user : String) (w : World) → Inv most w → Inv most (step w (ends user))
unfolding step
ends-Inv most user w v = elim (Bool-cases (any (λ g. g == user) w.guards)) [
  | inr none_held ↦ rw none_held v
  | inl held ↦ rw held (record {
    healthy = rw (drop_healthy user w.limiter v.healthy) v.healthy;
    exact = λ u.
        let less = running-without user u w.guards held in
        let gone = drop-concurrent user u w.limiter v.healthy in
        let before = v.exact u in ground arith;
    capped = λ u.
        let less = running-without user u w.guards held in let before = v.capped u in ground arith;
  })
]

run-Inv :
    (most : ℕ) (w : World) (es : List Event)
    → most < 2 ^ 32
    → All (HasCap most) es
    → Inv most w
    → Inv most (run w es)
unfolding run
run-Inv most w [] small caps v = v
run-Inv most w (begins user bytes policy now ∷ es) small caps v =
    run-Inv most (step w (begins user bytes policy now)) es small caps.1
      (begins-Inv most user bytes policy now w caps.0 small v)
run-Inv most w (ends user ∷ es) small caps v =
    run-Inv most (step w (ends user)) es small caps.1 (ends-Inv most user w v)

-- If every policy that is used allows at most `most` concurrent uploads, then after any sequence of
-- beginnings and ends the counter of every user is the number of the user's uploads that run, and
-- that number is at most `most`.
pub concurrent_exact :
    (most : ℕ) (es : List Event) → most < 2 ^ 32 → All (HasCap most) es → Inv most (run start es)
unfolding running get
concurrent_exact most es small caps =
    run-Inv most start es small caps
      (record { healthy = refl; exact = λ user. refl; capped = λ user. omega arith })
