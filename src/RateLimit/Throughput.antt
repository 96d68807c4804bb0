-- ===== src/RateLimit/Throughput.antt =====
-- What a caller gets through over any sequence of requests, its own and others'.
use support_center.Prelude.{
  ℕ, ◌+◌, ◌^◌, ◌≤◌, ◌<◌, String, ◌≡◌, refl, inl, inr, Bool, true, ◌&&◌, List, [], ◌∷◌, ◌++◌, arith,
  ltb, leb, if◌then◌else◌, Bool-cases, count_if, All, count_if-append, nat_eq, string_eq, option_eq,
  pair_eq, ◌==◌, ==_iff,
}
use support_center.HashMap.{entry}
use support_center.RateLimit.{RatePolicy, RateLimiter, within, check, new}
use support_center.RateLimit.Window.{Tracks, check-Tracks, other-Tracks, note}

pub record Call : Type 0 where
  pub policy : RatePolicy
  pub caller : String
  pub now : ℕ

abbrev pub is_ours : RatePolicy → String → Call → Bool
is_ours p caller q = q.policy.scope == p.scope && q.caller == caller

-- The times at which the limiter, run on the calls, allowed the caller's requests in the scope.
unfoldable pub allowed_log : RatePolicy → String → RateLimiter → List ℕ → List Call → List ℕ
allowed_log p caller rl log [] = log
allowed_log p caller rl log (q ∷ qs) =
    let (d, rl') = check rl q.policy q.caller q.now in
    allowed_log p caller rl' (if is_ours p caller q && d.allowed then log ++ q.now ∷ [] else log) qs

-- The clock does not run backwards.
abbrev pub InOrder : ℕ → List Call → Type 0
InOrder last [] = Unit {0}
InOrder last (q ∷ qs) = (last ≤ q.now) × InOrder q.now qs

InOrder-mono : (a b : ℕ) (qs : List Call) → a ≤ b → InOrder b qs → InOrder a qs
InOrder-mono a b [] h o = tt
InOrder-mono a b (q ∷ qs) h o = (omega arith, o.1)

-- A scope has one policy.
abbrev pub OnePolicy : RatePolicy → List Call → Type 0
OnePolicy p = All (λ q. q.policy.scope ≡ p.scope → q.policy ≡ p)

abbrev pub in_window : ℕ → ℕ → ℕ → Bool
in_window from width t = leb from t && ltb t (from + width)

abbrev pub IsLimited : RatePolicy → List ℕ → Type 0
IsLimited p log = (from : ℕ) → count_if (in_window from p.window) log ≤ p.max_requests

count_if_mono {ℓ} :
    {A : Type ℓ} (p q : A → Bool) (xs : List A)
    → ((a : A) → p a ≡ true → q a ≡ true)
    → count_if p xs ≤ count_if q xs
count_if_mono p q [] h = omega arith
count_if_mono p q (x ∷ xs) h = ground (arith, h x, count_if_mono p q xs h)

in_window-within :
    (from width now t : ℕ)
    → in_window from width now ≡ true
    → in_window from width t ≡ true
    → within width now t ≡ true
in_window-within from width now t h k = ground arith

note-IsLimited :
    (p : RatePolicy) (log : List ℕ) (now : ℕ) → IsLimited p log → IsLimited p (note p log now)
note-IsLimited p log now l from = ground (
  arith,
  l from,
  count_if-append (in_window from p.window) log (now ∷ []),
  λ (h : in_window from p.window now ≡ true).
      count_if_mono (in_window from p.window) (within p.window now) log
        (λ t. in_window-within from p.window now t h),
)

-- A request of the caller in the scope is checked by the scope's policy.
ours_check :
    (p : RatePolicy) (caller : String) (rl : RateLimiter) (q : Call)
    → is_ours p caller q ≡ true
    → (q.policy.scope ≡ p.scope → q.policy ≡ p)
    → check rl q.policy q.caller q.now ≡ check rl p caller q.now
ours_check p caller rl q e one =
    ground (arith, ==_iff q.policy.scope p.scope, ==_iff q.caller caller, one)

Tracks-new : (p : RatePolicy) (caller : String) (now : ℕ) → Tracks p caller (new now) [] now
unfolding entry
Tracks-new p caller now = record { sound = refl; bucket = refl; capped = omega arith }

allowed_log-IsLimited :
    (p : RatePolicy) (caller : String) (rl : RateLimiter) (log : List ℕ) (last : ℕ)
    (calls : List Call)
    → 0 < p.window
    → p.max_requests < 2 ^ 32
    → OnePolicy p calls
    → InOrder last calls
    → Tracks p caller rl log last
    → IsLimited p log
    → IsLimited p (allowed_log p caller rl log calls)
unfolding allowed_log
allowed_log-IsLimited p caller rl log last [] w m one o t l = l
allowed_log-IsLimited p caller rl log last (q ∷ calls) w m one o t l =
    elim (Bool-cases (is_ours p caller q)) [
      | inl e ↦
          let c = check-Tracks p caller rl log last q.now o.0 w m t in
          rw (ours_check p caller rl q e one.0, e, c.0)
            (allowed_log-IsLimited p caller (check rl p caller q.now).1 (note p log q.now) q.now
              calls w m one.1 o.1 c.1 (note-IsLimited p log q.now l))
      | inr e ↦ rw e (
          allowed_log-IsLimited p caller (check rl q.policy q.caller q.now).1 log last calls w m
            one.1 (InOrder-mono last q.now calls o.0 o.1)
            (other-Tracks p q.policy caller q.caller rl log last q.now e t) l)
    ]

-- In every window of the policy's width, wherever it begins, at most `max_requests` requests of one
-- caller in one scope are allowed, whatever the order and the callers of the other requests.
pub allowed_in_window :
    (p : RatePolicy) (caller : String) (started from : ℕ) (calls : List Call)
    → 0 < p.window
    → p.max_requests < 2 ^ 32
    → OnePolicy p calls
    → InOrder started calls
    → count_if (in_window from p.window) (allowed_log p caller (new started) [] calls)
      ≤ p.max_requests
allowed_in_window p caller started from calls w m one o =
    allowed_log-IsLimited p caller (new started) [] started calls w m one o
      (Tracks-new p caller started) (λ f. omega arith) from
