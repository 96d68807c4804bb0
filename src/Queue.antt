-- ===== src/Queue.antt =====
-- backend/src/domain/queue/mod.rs: jobs, the retry policy, and the state of the work queue. `u32`,
-- `u64` and `u128` counters wrap. Lower-casing a text is a parameter.
pub mod Retry
pub mod Worker
pub mod Trace
pub mod Ledger
pub mod Outbound
pub mod Delivery
pub mod Outcome
mod Examples
use support_center.Prelude.{
  ℕ, ◌+◌, ◌*◌, ◌/◌, ◌%◌, ◌^◌, min, String, Bool, true, false, ◌||◌, Option, none, some, List, [],
  ◌∷◌, ◌++◌, if◌then◌else◌, length, nat_eq, string_eq, ◌==◌,
}
use support_center.Chars.{Text, codes, contains}
use support_center.Json.{Value}

abbrev pub max_retries : ℕ
max_retries = 3

abbrev pub base_delay_ms : ℕ
base_delay_ms = 1000

abbrev pub max_delay_ms : ℕ
max_delay_ms = 30000

abbrev pub backoff_multiplier : ℕ
backoff_multiplier = 2

abbrev pub max_batch_size : ℕ
max_batch_size = 10

pub record Job : Type 0 where
  pub body : Value
  pub attempt : ℕ

pub record QueueStats : Type 0 where
  pub total_processed : ℕ
  pub successes : ℕ
  pub errors : ℕ
  pub retries : ℕ
  pub total_time_ms : ℕ
  pub last_processed_at : Option ℕ

unfoldable pub average_ms : QueueStats → ℕ
average_ms s = if s.total_processed == 0 then 0 else s.total_time_ms / s.total_processed

-- `channel` holds what was sent and not yet received, the oldest first; `delayed` the jobs of tasks
-- that sleep before they requeue, with the time at which each wakes. The statistics and the dead
-- letters stand each behind a mutex, which a panic poisons; what finds it poisoned skips its update.
pub record JobQueue : Type 0 where
  pub channel : List Job
  pub receiver : Bool
  pub delayed : List (ℕ × Job)
  pub stats : QueueStats
  pub stats_poisoned : Bool
  pub dead_letter : List Job
  pub dead_letter_poisoned : Bool

abbrev pub new : JobQueue
new = record {
  channel = [];
  receiver = true;
  delayed = [];
  stats = record {
    total_processed = 0;
    successes = 0;
    errors = 0;
    retries = 0;
    total_time_ms = 0;
    last_processed_at = none;
  };
  stats_poisoned = false;
  dead_letter = [];
  dead_letter_poisoned = false;
}

unfoldable pub send : Job → JobQueue → JobQueue
send job q = record q { channel = q.channel ++ job ∷ [] }

-- `enqueue_outbound` and `enqueue_media`; the receiver lives as long as the process, so that sending
-- does not fail.
unfoldable pub enqueue : Value → JobQueue → JobQueue
unfolding send
enqueue body q = send (record { body = body; attempt = 0 }) q

unfoldable pub requeue : Job → JobQueue → JobQueue
unfolding send
requeue job q = send job q

-- Only the first caller gets the receiver.
unfoldable pub take_receiver : JobQueue → Bool × JobQueue
take_receiver q = (q.receiver, record q { receiver = false })

abbrev pub up : ℕ → ℕ
up n = (n + 1) % 2 ^ 64

unfoldable pub note : Bool → Bool → ℕ → ℕ → QueueStats → QueueStats
note done retried elapsed_ms now s = record {
  total_processed = up s.total_processed;
  successes = if done then up s.successes else s.successes;
  errors = if done then s.errors else up s.errors;
  retries = if retried then up s.retries else s.retries;
  total_time_ms = (s.total_time_ms + elapsed_ms) % 2 ^ 128;
  last_processed_at = some now;
}

-- `record`, which a poisoned mutex turns into nothing.
unfoldable pub recorded : Bool → Bool → ℕ → ℕ → JobQueue → QueueStats
recorded done retried elapsed_ms now q =
    if q.stats_poisoned then q.stats else note done retried elapsed_ms now q.stats

unfoldable pub dead_letter_size : JobQueue → ℕ
dead_letter_size q = if q.dead_letter_poisoned then 0 else length q.dead_letter

unfoldable pub retry_delay_ms : ℕ → ℕ
retry_delay_ms attempt =
    min (base_delay_ms * (backoff_multiplier ^ attempt % 2 ^ 64) % 2 ^ 64) max_delay_ms

-- The category of an error text that is in lower case already.
unfoldable pub categorize_lower : Text → String
categorize_lower e =
    if contains e (codes "network") || contains e (codes "connect")
    then "network"
    else if contains e (codes "timeout") || contains e (codes "timed out")
    then "timeout"
    else if contains e (codes "rate limit") || contains e (codes "429")
    then "rate-limit"
    else if contains e (codes "validation") || contains e (codes "invalid")
    then "validation"
    else if contains e (codes "permanent")
    then "permanent-failure"
    else if contains e (codes "temporary")
    then "temporary-failure"
    else "system"

unfoldable pub categorize : (Text → Text) → Text → String
unfolding categorize_lower
categorize to_lowercase error = categorize_lower (to_lowercase error)

unfoldable pub is_retryable : String → Bool
is_retryable c =
    c == "network"
    || c == "timeout"
    || c == "rate-limit"
    || c == "temporary-failure"
    || c == "system"
