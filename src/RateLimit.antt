-- ===== src/RateLimit.antt =====
-- backend/src/middleware/rate_limit.rs: the sliding-window limiter. An `Instant` and a `Duration` are
-- numbers of nanoseconds, `duration_since` stops at 0, the counters are `u64`, a request count is cast
-- to `u32`, and `poisoned` is the state of the standard mutex round the buckets.
pub mod Window
pub mod Throughput
pub mod Decisions
pub mod Clients
pub mod Middleware
mod Examples
use support_center.Prelude.{
  ℕ, suc, ◌+◌, ◌-◌, ◌*◌, ◌/◌, ◌%◌, ◌^◌, String, Bool, true, false, not, ◌||◌, List, [], ◌∷◌, ◌++◌,
  map, ltb, leb, if◌then◌else◌, length, retain, any, string_eq, pair_eq, ◌==◌,
}
use support_center.HashMap.{HashMap, insert, entry, keys}

abbrev pub second : ℕ
second = 1000000000

pub record RatePolicy : Type 0 where
  pub scope : String
  pub max_requests : ℕ
  pub window : ℕ

abbrev pub policy : String → ℕ → ℕ → RatePolicy
policy scope max_requests window_secs = record {
  scope = scope;
  max_requests = max_requests;
  window = window_secs * second;
}

abbrev pub standard : RatePolicy
standard = policy "standard" 100 60

abbrev pub auth : RatePolicy
auth = policy "auth" 10 60

abbrev pub login : RatePolicy
login = policy "login" 5 300

abbrev pub upload : RatePolicy
upload = policy "upload" 20 60

abbrev pub websocket : RatePolicy
websocket = policy "websocket" 30 60

abbrev pub admin : RatePolicy
admin = policy "admin" 200 60

abbrev pub high_frequency : RatePolicy
high_frequency = policy "high-frequency" 500 60

abbrev pub reports : RatePolicy
reports = policy "reports" 30 60

pub record RateLimiter : Type 0 where
  pub buckets : HashMap (String × String) (List ℕ)
  pub total_checks : ℕ
  pub total_blocked : ℕ
  pub started : ℕ
  pub poisoned : Bool

abbrev pub new : ℕ → RateLimiter
new now = record {
  buckets = [];
  total_checks = 0;
  total_blocked = 0;
  started = now;
  poisoned = false;
}

pub record RateDecision : Type 0 where
  pub allowed : Bool
  pub limit : ℕ
  pub remaining : ℕ
  pub reset_secs : ℕ

pub record RateStats : Type 0 where
  pub distinct_callers : ℕ
  pub checks : ℕ
  pub blocked : ℕ
  pub tracked_entries : ℕ
  pub uptime_secs : ℕ

-- The size of the set of these texts.
unfoldable pub distinct : List String → ℕ
distinct [] = 0
distinct (x ∷ xs) = if any (λ y. x == y) xs then distinct xs else suc (distinct xs)

unfoldable pub stats : RateLimiter → ℕ → RateStats
unfolding distinct
stats rl now = record {
  distinct_callers = if rl.poisoned then 0 else distinct (map (λ k. k.1) (keys rl.buckets));
  checks = rl.total_checks;
  blocked = rl.total_blocked;
  tracked_entries = if rl.poisoned then 0 else length rl.buckets;
  uptime_secs = (now - rl.started) / second;
}

-- `now.duration_since(*t) < window`
abbrev pub within : ℕ → ℕ → ℕ → Bool
within window now t = ltb (now - t) window

abbrev pub pruned : ℕ → ℕ → HashMap (String × String) (List ℕ) → HashMap (String × String) (List ℕ)
pruned window now [] = []
pruned window now ((key, hits) ∷ rest) = elim (retain (within window now) hits) [
  | [] ↦ pruned window now rest
  | t ∷ ts ↦ (key, t ∷ ts) ∷ pruned window now rest
]

unfoldable pub prune : RateLimiter → ℕ → ℕ → RateLimiter
prune rl max_window now =
    if rl.poisoned then rl else record rl { buckets = pruned max_window now rl.buckets }

abbrev pub count_up : ℕ → ℕ
count_up n = (n + 1) % 2 ^ 64

-- The scopes that fail closed.
abbrev pub fails_closed : RatePolicy → Bool
fails_closed p = p.scope == "auth" || p.scope == "login"

unfoldable pub poisoned_decision : RatePolicy → RateDecision
poisoned_decision p = record {
  allowed = not (fails_closed p);
  limit = p.max_requests;
  remaining = if fails_closed p then 0 else p.max_requests;
  reset_secs = p.window / second;
}

unfoldable pub reset_after : RatePolicy → ℕ → List ℕ → ℕ
reset_after p now [] = p.window / second
reset_after p now (t ∷ ts) = (p.window - (now - t)) / second + 1

-- What a bucket's hits and the policy decide, and the hits that stay.
unfoldable pub consume : RatePolicy → ℕ → List ℕ → RateDecision × List ℕ
unfolding reset_after
consume p now hits =
    if leb p.max_requests (length hits % 2 ^ 32)
    then (
      record {
        allowed = false;
        limit = p.max_requests;
        remaining = 0;
        reset_secs = reset_after p now hits;
      },
      hits,
    )
    else (
      record {
        allowed = true;
        limit = p.max_requests;
        remaining = p.max_requests - length (hits ++ now ∷ []) % 2 ^ 32;
        reset_secs = reset_after p now hits;
      },
      hits ++ now ∷ [],
    )

unfoldable pub check : RateLimiter → RatePolicy → String → ℕ → RateDecision × RateLimiter
check rl p caller now =
    let counted = record rl { total_checks = count_up rl.total_checks } in
    if rl.poisoned
    then (
      poisoned_decision p,
      if fails_closed p
          then record counted { total_blocked = count_up rl.total_blocked }
          else counted,
    )
    else let key : String × String = (p.scope, caller) in
      let hits = retain (within p.window now) (entry rl.buckets key []) in
      let (decision, hits') = consume p now hits in
      let stored = record counted { buckets = insert rl.buckets key hits' } in
      (
        decision,
        if decision.allowed
            then stored
            else record stored { total_blocked = count_up rl.total_blocked },
      )
