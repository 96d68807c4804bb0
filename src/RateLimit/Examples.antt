-- ===== src/RateLimit/Examples.antt =====
-- The theorems about the limiter at concrete inputs.
use support_center.Prelude.{
  ℕ, ◌+◌, ◌-◌, ◌*◌, ◌≤◌, max, String, ◌≡◌, refl, true, false, ◌&&◌, Option, none, some, List, [],
  ◌∷◌, arith, leb, if◌then◌else◌, count_if, nat_eq, string_eq, option_eq, pair_eq, ◌==◌,
}
use support_center.HashMap.{get, insert, entry, contains_key}
use support_center.Chars.{Text, codes}
use support_center.RateLimit.{RatePolicy, RateLimiter, policy, second, check, consume, prune, new}
use support_center.RateLimit.Window.{Tracks, check-Tracks, hits_of}
use support_center.RateLimit.Throughput.{Call, in_window, allowed_log, allowed_in_window}
use support_center.RateLimit.Decisions.{IsBucket, retry_after_suffices, prune_transparent}
use support_center.RateLimit.Clients.{Headers, caller_ip, untrusted_headers_ignored}
use support_center.RateLimit.Middleware.{Response, limit, told, response_of, limit_headers}

abbrev two : RatePolicy
two = policy "login" 2 60

abbrev ip : String
ip = "198.51.100.7"

-- Two requests of the caller, at 1 s and 2 s.
abbrev full : RateLimiter
full = record (new 0) { buckets = (("login", ip), second ∷ 2 * second ∷ []) ∷ [] }

abbrev call : ℕ → Call
call t = record { policy = two; caller = ip; now = t * second }

abbrev calls : List Call
calls = call 1 ∷ call 2 ∷ call 3 ∷ call 62 ∷ []

allowed_times : allowed_log two ip (new 0) [] calls ≡ second ∷ 2 * second ∷ 62 * second ∷ []
unfolding allowed_log check consume entry insert
allowed_times = refl

abbrev one : two.scope ≡ two.scope → two ≡ two
one e = refl

allowed_in_window_example :
    count_if (in_window (2 * second) two.window) (allowed_log two ip (new 0) [] calls) ≤ 2
allowed_in_window_example =
    allowed_in_window two ip 0 (2 * second) calls (omega arith) (omega arith)
      (one, (one, (one, (one, tt)))) (omega arith)

full-Tracks : Tracks two ip full (second ∷ 2 * second ∷ []) (2 * second)
unfolding entry get
full-Tracks = record { sound = refl; bucket = refl; capped = omega arith }

check-Tracks_example :
    let (d, rl) = check full two ip (3 * second) in
    (d.allowed ≡ false) × Tracks two ip rl (second ∷ 2 * second ∷ []) (3 * second)
check-Tracks_example =
    check-Tracks two ip full (second ∷ 2 * second ∷ []) (2 * second) (3 * second) (omega arith)
      (omega arith) (omega arith) full-Tracks

full-IsBucket : IsBucket two (3 * second) (hits_of full two ip)
unfolding entry get
full-IsBucket = record { capped = omega arith; past = omega arith }

retry_after_suffices_example :
    (check
      (check full two ip (3 * second)).1
      two
      ip
      (3 * second + (check full two ip (3 * second)).0.reset_secs * second)).0.allowed
    ≡ true
unfolding check consume entry get
retry_after_suffices_example =
    retry_after_suffices two ip full (3 * second) refl (omega arith) (omega arith) full-IsBucket
      refl

prune_transparent_example :
    (check (prune full (300 * second) (90 * second)) two ip (100 * second)).0
    ≡ (check full two ip (100 * second)).0
unfolding contains_key
prune_transparent_example =
    prune_transparent two ip full (300 * second) (90 * second) (100 * second) (refl, tt) refl
      (omega arith) (omega arith)

-- Addresses as numbers: the parser reads one digit.
abbrev digit : Text → Option ℕ
digit (c ∷ []) = if leb 48 c && leb c 57 then some (c - 48) else none
digit _ = none

abbrev shown : ℕ → String
shown n = if n == 1 then "one" else if n == 2 then "two" else "many"

abbrev spoofed : Headers
spoofed = record {
  cf_connecting_ip = some (codes "x");
  x_forwarded_for = some (codes " 2 , 7");
  x_real_ip = none;
}

untrusted_headers_ignored_example : caller_ip digit shown spoofed (some 1) (3 ∷ []) ≡ "one"
untrusted_headers_ignored_example = untrusted_headers_ignored digit shown spoofed 1 (3 ∷ []) refl

no_peer : caller_ip digit shown spoofed none (1 ∷ []) ≡ "unknown"
unfolding caller_ip
no_peer = refl

abbrev handler : Unit {0} → Response
handler u = record { status = 200; headers = [] }

limit_headers_example :
    ((response_of (limit full two ip (3 * second) handler).0).status ≡ 429)
    × (told (limit full two ip (3 * second) handler) "Retry-After"
        ≡ some (max (check full two ip (3 * second)).0.reset_secs 1))
unfolding check consume entry get
limit_headers_example = (limit_headers full two ip (3 * second) handler).4 refl
