-- ===== src/RateLimit/Decisions.antt =====
-- The single decision: its numbers, what the caller is told to wait, pruning, and a poisoned mutex.
use support_center.Prelude.{
  ℕ, ◌+◌, ◌*◌, ◌%◌, ◌^◌, ◌≤◌, ◌<◌, String, ◌≡◌, refl, sym, ap, ◌∙◌, inl, inr, true, false, none,
  List, [], ◌∷◌, arith, leb, Bool-cases, length, retain, All, length-retain-le, All-append,
  All-retain, nat_eq, string_eq, option_eq, pair_eq, ==_iff,
}
use support_center.HashMap.{HashMap, get, entry, contains_key, IsDistinct}
use support_center.RateLimit.{
  RatePolicy, RateLimiter, within, consume, check, prune, pruned, second, reset_after,
}
use support_center.RateLimit.Window.{consume_lem, hits_of, check_consumes, retain-retain}

-- What a bucket holds between two checks: no more hits than allowed, the oldest first, none from
-- the future.
pub record IsBucket (p : RatePolicy) (now : ℕ) (hits : List ℕ) : Type 0 where
  pub capped : length hits ≤ p.max_requests
  pub past : All (λ t. t ≤ now) hits

consume_denied :
    (p : RatePolicy) (now : ℕ) (hits : List ℕ)
    → p.max_requests < 2 ^ 32
    → length hits ≤ p.max_requests
    → (consume p now hits).0.allowed ≡ false
    → (length hits ≡ p.max_requests)
      × ((consume p now hits).1 ≡ hits)
      × ((consume p now hits).0.reset_secs ≡ reset_after p now hits)
unfolding consume
consume_denied p now hits m h d = ground arith

consume_allows :
    (p : RatePolicy) (now : ℕ) (hits : List ℕ)
    → length hits < p.max_requests
    → p.max_requests < 2 ^ 32
    → (consume p now hits).0.allowed ≡ true
unfolding consume
consume_allows p now hits h m = ground arith

-- Waiting as long as one is told puts the oldest hit out of the window.
oldest_leaves :
    (p : RatePolicy) (now t : ℕ) (ts : List ℕ)
    → t ≤ now
    → within p.window (now + reset_after p now (t ∷ ts) * second) t ≡ false
unfolding reset_after
oldest_leaves p now t ts h = ground arith

waited :
    (p : RatePolicy) (now : ℕ) (hits : List ℕ)
    → 0 < p.max_requests
    → length hits ≡ p.max_requests
    → All (λ t. t ≤ now) hits
    → length (retain (within p.window (now + reset_after p now hits * second)) hits)
      < p.max_requests
waited p now [] m e a = absurd (omega arith)
waited p now (t ∷ ts) m e a = rw (oldest_leaves p now t ts a.0) (
    omega
      (arith, length-retain-le (within p.window (now + reset_after p now (t ∷ ts) * second)) ts))

-- The wait that a refused caller is told is long enough: the next request after it is allowed, if
-- the caller made none in between.
pub retry_after_suffices :
    (p : RatePolicy) (caller : String) (rl : RateLimiter) (now : ℕ)
    → rl.poisoned ≡ false
    → 0 < p.max_requests
    → p.max_requests < 2 ^ 32
    → IsBucket p now (hits_of rl p caller)
    → (check rl p caller now).0.allowed ≡ false
    → (check
        (check rl p caller now).1
        p
        caller
        (now + (check rl p caller now).0.reset_secs * second)).0.allowed
      ≡ true
retry_after_suffices p caller rl now s z m b d =
    let hits = retain (within p.window now) (hits_of rl p caller) in
    let c = check_consumes p caller rl now s in
    let n =
      consume_denied p now hits m
        (omega (arith, length-retain-le (within p.window now) (hits_of rl p caller), b.capped))
        (ap (λ x. x.allowed) (sym c.0) ∙ d) in
    let waits : (check rl p caller now).0.reset_secs ≡ reset_after p now hits =
      ap (λ x. x.reset_secs) c.0 ∙ n.2 in
    let later =
      check_consumes p caller (check rl p caller now).1 (now + reset_after p now hits * second)
        c.2 in
    rw (waits, later.0, c.1, n.1)
      (consume_allows p (now + reset_after p now hits * second) _
        (waited p now hits z n.0 (All-retain _ (within p.window now) _ b.past)) m)

past_stays :
    (last now : ℕ) (hits : List ℕ) → last ≤ now → All (λ t. t ≤ last) hits → All (λ t. t ≤ now) hits
past_stays last now [] h a = tt
past_stays last now (t ∷ ts) h a = (omega arith, past_stays last now ts h a.1)

consume_past :
    (p : RatePolicy) (now : ℕ) (hits : List ℕ)
    → All (λ t. t ≤ now) hits
    → All (λ t. t ≤ now) (consume p now hits).1
unfolding consume
consume_past p now hits a = elim (Bool-cases (leb p.max_requests (length hits % 2 ^ 32))) [
  | inl e ↦ rw e a
  | inr e ↦ rw e (All-append (λ t. t ≤ now) hits (now ∷ []) (omega arith) a)
]

-- A check keeps the bucket in order, at any later time.
pub check-IsBucket :
    (p : RatePolicy) (caller : String) (rl : RateLimiter) (last now : ℕ)
    → rl.poisoned ≡ false
    → p.max_requests < 2 ^ 32
    → last ≤ now
    → IsBucket p last (hits_of rl p caller)
    → IsBucket p now (hits_of (check rl p caller now).1 p caller)
check-IsBucket p caller rl last now s m h b =
    let c = check_consumes p caller rl now s in
    let kept = retain (within p.window now) (hits_of rl p caller) in
    let fits : length kept ≤ p.max_requests =
      omega (arith, length-retain-le (within p.window now) (hits_of rl p caller), b.capped) in
    record {
      capped = rw c.1 (consume_lem p now kept fits m).2;
      past = rw c.1 (
          consume_past p now kept
            (All-retain _ (within p.window now) _ (past_stays last now _ h b.past)));
    }

pruned_missing :
    (m : HashMap (String × String) (List ℕ)) (window now : ℕ) (k : String × String)
    → get m k ≡ none
    → get (pruned window now m) k ≡ none
unfolding get
pruned_missing [] window now k h = refl
pruned_missing ((j, hits) ∷ m) window now k h = ground (arith, pruned_missing m window now k)

-- Pruning with a window no shorter than the policy's changes no later decision.
get-pruned :
    (m : HashMap (String × String) (List ℕ)) (window now : ℕ) (k : String × String)
    → IsDistinct m
    → entry (pruned window now m) k [] ≡ retain (within window now) (entry m k [])
unfolding entry contains_key
get-pruned [] window now k d = refl
get-pruned ((j, hits) ∷ m) window now k d =
    ground (arith, get-pruned m window now k d.1, pruned_missing m window now k, ==_iff j k)

still_within :
    (window max_window now later t : ℕ)
    → window ≤ max_window
    → now ≤ later
    → within window later t ≡ true
    → within max_window now t ≡ true
still_within window max_window now later t w h e = ground arith

prune_lem :
    (rl : RateLimiter) (max_window now : ℕ)
    → rl.poisoned ≡ false
    → prune rl max_window now ≡ record rl { buckets = pruned max_window now rl.buckets }
unfolding prune
prune_lem rl max_window now s = ground arith

pub prune_transparent :
    (p : RatePolicy) (caller : String) (rl : RateLimiter) (max_window now later : ℕ)
    → IsDistinct rl.buckets
    → rl.poisoned ≡ false
    → p.window ≤ max_window
    → now ≤ later
    → (check (prune rl max_window now) p caller later).0 ≡ (check rl p caller later).0
prune_transparent p caller rl max_window now later d s w h = rw (
  prune_lem rl max_window now s,
  (check_consumes p caller rl later s).0,
  (check_consumes p caller (record rl { buckets = pruned max_window now rl.buckets }) later s).0,
  get-pruned rl.buckets max_window now (p.scope, caller) d,
  retain-retain (within max_window now) (within p.window later) (hits_of rl p caller)
      (λ t. still_within p.window max_window now later t w h),
)
