-- ===== src/Queue/Retry.antt =====
-- The retry policy: the delays that occur, and which failures are retried.
use support_center.Prelude.{
  ℕ, zero, suc, ◌+◌, ◌*◌, ◌<◌, String, ◌≡◌, refl, Bool, true, false, not, ◌||◌, arith,
  if◌then◌else◌, nat_eq, string_eq, option_eq, pair_eq, ◌==◌,
}
use support_center.Chars.{Text, codes, contains}
use support_center.Queue.{Job, max_retries, retry_delay_ms, categorize_lower, is_retryable}
use support_center.Queue.Worker.{WorkerError, retries}

pub retries_room :
    (to_lowercase : Text → Text) (job : Job) (e : WorkerError)
    → retries to_lowercase job e ≡ true
    → job.attempt + 1 < max_retries
unfolding retries
retries_room to_lowercase job e h = ground arith

delays : (n : ℕ) → n + 1 < max_retries → retry_delay_ms n ≡ (n + 1) * 1000
unfolding retry_delay_ms
delays zero h = refl
delays (suc zero) h = refl
delays (suc (suc n)) h = absurd (omega arith)

-- A job that is retried waits one second before its second attempt and two before its third, so the
-- 30-second cap and the 64-bit product never come into play.
pub retry_delay_of_retries :
    (to_lowercase : Text → Text) (job : Job) (e : WorkerError)
    → retries to_lowercase job e ≡ true
    → retry_delay_ms job.attempt ≡ (job.attempt + 1) * 1000
retry_delay_of_retries to_lowercase job e h = delays job.attempt (retries_room to_lowercase job e h)

-- What holds of every category that the tests can give holds of the one they give.
category_cases :
    (P : String → Type 0) (a b c d f g : Bool)
    → P "network"
    → P "timeout"
    → P "rate-limit"
    → P "validation"
    → P "permanent-failure"
    → P "temporary-failure"
    → P "system"
    → P (
        if a
        then "network"
        else if b
        then "timeout"
        else if c
        then "rate-limit"
        else if d
        then "validation"
        else if f
        then "permanent-failure"
        else if g
        then "temporary-failure"
        else "system")
category_cases P true b c d f g p1 p2 p3 p4 p5 p6 p7 = p1
category_cases P false true c d f g p1 p2 p3 p4 p5 p6 p7 = p2
category_cases P false false true d f g p1 p2 p3 p4 p5 p6 p7 = p3
category_cases P false false false true f g p1 p2 p3 p4 p5 p6 p7 = p4
category_cases P false false false false true g p1 p2 p3 p4 p5 p6 p7 = p5
category_cases P false false false false false true p1 p2 p3 p4 p5 p6 p7 = p6
category_cases P false false false false false false p1 p2 p3 p4 p5 p6 p7 = p7

-- Every failure is retryable except the validation and the permanent failures.
pub retryable_iff :
    (e : Text)
    → is_retryable (categorize_lower e)
      ≡ not (categorize_lower e == "validation" || categorize_lower e == "permanent-failure")
unfolding is_retryable categorize_lower
retryable_iff e =
    category_cases (λ c. is_retryable c ≡ not (c == "validation" || c == "permanent-failure"))
      (contains e (codes "network") || contains e (codes "connect"))
      (contains e (codes "timeout") || contains e (codes "timed out"))
      (contains e (codes "rate limit") || contains e (codes "429"))
      (contains e (codes "validation") || contains e (codes "invalid"))
      (contains e (codes "permanent")) (contains e (codes "temporary")) refl refl refl refl refl
      refl refl

-- An error that names the network is a network failure whatever else it says: the order of the tests
-- decides. So a validation error that mentions a connection is retried.
pub network_first :
    (e : Text) → contains e (codes "connect") ≡ true → categorize_lower e ≡ "network"
unfolding categorize_lower
network_first e h = ground arith
