-- ===== src/RateLimit/Middleware.antt =====
-- `limit` and `decorate`: what the middleware does with a decision. A response is its status and
-- its headers; `next` is the rest of the router. The body's message and time stamp are not modelled.
use support_center.Prelude.{
  ℕ, ◌/◌, max, String, ◌≡◌, refl, true, false, Option, some, [], arith, if◌then◌else◌, nat_eq,
  string_eq, option_eq, pair_eq,
}
use support_center.HashMap.{HashMap, get, insert}
use support_center.HashMap.Laws.{get-insert, get-insert_self}
use support_center.RateLimit.{RatePolicy, RateLimiter, RateDecision, check, second}

pub record Response : Type 0 where
  pub status : ℕ
  pub headers : HashMap String ℕ

unfoldable pub decorate : Response → RateDecision → Response
decorate resp d = record resp {
  headers =
      insert
        (insert (insert resp.headers "X-RateLimit-Limit" d.limit) "X-RateLimit-Remaining"
          d.remaining)
        "X-RateLimit-Reset" d.reset_secs;
}

decorate_headers :
    (resp : Response) (d : RateDecision) (v : ℕ)
    → (get (decorate resp d).headers "X-RateLimit-Limit" ≡ some d.limit)
      × (get (decorate resp d).headers "X-RateLimit-Remaining" ≡ some d.remaining)
      × (get (decorate resp d).headers "X-RateLimit-Reset" ≡ some d.reset_secs)
      × ((decorate resp d).status ≡ resp.status)
      × (get resp.headers "Retry-After" ≡ some v
          → get (decorate resp d).headers "Retry-After" ≡ some v)
unfolding decorate
decorate_headers resp d v =
    (simp get-insert, simp get-insert, simp get-insert, refl, λ e. simp get-insert e)

pub data Limited : Type 0 where
  -- limit, window in seconds, retry-after in seconds: the fields of the throttled body
  throttled : Response → ℕ → ℕ → ℕ → Limited
  passed : Response → Limited

abbrev pub too_many_requests : ℕ
too_many_requests = 429

unfoldable pub limit :
    RateLimiter → RatePolicy → String → ℕ → (Unit {0} → Response) → Limited × RateLimiter
limit rl p ip now next =
    let (d, rl') = check rl p ip now in
    let retry_after = max d.reset_secs 1 in
    (
      (if d.allowed
          then passed (decorate (next tt) d)
          else throttled
              (decorate
                (record {
                  status = too_many_requests;
                  headers = insert [] "Retry-After" retry_after;
                })
                d)
              d.limit (p.window / second) retry_after),
      rl',
    )

abbrev pub response_of : Limited → Response
response_of (throttled r limit window retry_after) = r
response_of (passed r) = r

abbrev pub told : Limited × RateLimiter → String → Option ℕ
told l name = get (response_of l.0).headers name

-- Every answer carries the three budget headers of its decision; a refusal has status 429 and a
-- Retry-After of at least one second, and a request that is let through keeps the handler's status.
pub limit_headers :
    (rl : RateLimiter) (p : RatePolicy) (ip : String) (now : ℕ) (next : Unit {0} → Response)
    → let d = (check rl p ip now).0 in
      let l = limit rl p ip now next in
      (told l "X-RateLimit-Limit" ≡ some d.limit)
      × (told l "X-RateLimit-Remaining" ≡ some d.remaining)
      × (told l "X-RateLimit-Reset" ≡ some d.reset_secs)
      × (d.allowed ≡ true → (response_of l.0).status ≡ (next tt).status)
      × (d.allowed ≡ false
          → ((response_of l.0).status ≡ 429) × (told l "Retry-After" ≡ some (max d.reset_secs 1)))
unfolding limit
limit_headers rl p ip now next =
    let d = (check rl p ip now).0 in
    let after = max d.reset_secs 1 in
    let refusal : Response = record {
      status = too_many_requests;
      headers = insert [] "Retry-After" after;
    } in
    ground (
      arith,
      decorate_headers (next tt) d after,
      decorate_headers refusal d after,
      get-insert_self {K = String} [] "Retry-After" after,
    )
