-- ===== src/Queue/Worker.antt =====
-- backend/src/domain/queue/worker.rs: the consumer loop and `process_job`. How a job's work ends is
-- an argument, as is the clock.
use support_center.Prelude.{
  ℕ, zero, suc, ◌+◌, ◌-◌, ◌%◌, ◌^◌, String, Bool, true, false, ◌&&◌, Option, none, some, List, [],
  ◌∷◌, ◌++◌, ltb, leb, if◌then◌else◌, unwrap_or, nat_eq, string_eq, option_eq, pair_eq, ◌==◌,
}
use support_center.Chars.{Text, codes}
use support_center.Json.{Value, str_at}
use support_center.Queue.{
  Job, JobQueue, max_retries, max_batch_size, recorded, requeue, retry_delay_ms, categorize,
  is_retryable,
}

pub data WorkerError : Type 0 where
  validation network : String → WorkerError
  delivery database : Text → WorkerError

-- `Display`, with the error of a delivery shown as it is.
unfoldable pub error_text : WorkerError → Text
error_text (validation e) = codes "validation: " ++ codes e
error_text (network e) = codes "network: " ++ codes e
error_text (delivery e) = e
error_text (database e) = codes "database: " ++ e

-- Which of the two kinds of work a job is; no discriminator is outbound.
unfoldable pub is_media : Job → Bool
is_media job = unwrap_or (str_at job.body "type") "outbound_message" == "media_processing"

-- The two kinds of work, with the error text where they fail.
pub record Work : Type 0 where
  pub media : Value → Option WorkerError
  pub outbound : Value → Option WorkerError

unfoldable pub work_of : Work → Job → Option WorkerError
unfolding is_media
work_of work job = if is_media job then work.media job.body else work.outbound job.body

-- The dead letters after a job that is out of retries; on a poisoned mutex the job is lost.
abbrev pub buried : Job → JobQueue → List Job
buried job q = if q.dead_letter_poisoned then q.dead_letter else q.dead_letter ++ job ∷ []

module _ (to_lowercase : Text → Text) where
  unfoldable pub retries : Job → WorkerError → Bool
  unfolding error_text
  retries job error =
      ltb (job.attempt + 1) max_retries && is_retryable (categorize to_lowercase (error_text error))

  -- What `process_job` does once the work has ended.
  unfoldable pub settle : Option WorkerError → Job → ℕ → ℕ → JobQueue → JobQueue
  unfolding recorded
  settle none job elapsed now q = record q { stats = recorded true false elapsed now q }
  settle (some error) job elapsed now q =
      if retries job error
      then record q {
        stats = recorded false true elapsed now q;
        delayed =
            (now + retry_delay_ms job.attempt, record job { attempt = (job.attempt + 1) % 2 ^ 32 })
            ∷ q.delayed;
      }
      else record q { stats = recorded false false elapsed now q; dead_letter = buried job q }

  unfoldable pub process_job : Work → Job → ℕ → ℕ → JobQueue → JobQueue
  unfolding settle
  process_job work job elapsed now q = settle (work_of work job) job elapsed now q

-- The sleeping tasks whose time has come send their jobs.
unfoldable pub wake_all : ℕ → List (ℕ × Job) → JobQueue → JobQueue
wake_all now [] q = q
wake_all now ((due, job) ∷ rest) q =
    wake_all now rest
      (if leb due now then requeue job q else record q { delayed = (due, job) ∷ q.delayed })

unfoldable pub wake : ℕ → JobQueue → JobQueue
unfolding wake_all
wake now q = wake_all now q.delayed (record q { delayed = [] })

-- `while batch.len() < MAX_BATCH_SIZE && now < deadline`: at most `room` more jobs, while `in_time`
-- says so at each round.
unfoldable pub fill_batch : ℕ → (ℕ → Bool) → List Job → List Job → List Job × List Job
fill_batch zero in_time batch channel = (batch, channel)
fill_batch (suc room) in_time batch [] = (batch, [])
fill_batch (suc room) in_time batch (job ∷ rest) =
    let more = fill_batch room in_time (batch ++ job ∷ []) rest in
    if in_time room then more else (batch, job ∷ rest)

-- One turn of the loop: the batch that is collected, and the channel that is left. With nothing to
-- receive the loop waits.
unfoldable pub collect : (ℕ → Bool) → List Job → Option (List Job × List Job)
unfolding fill_batch
collect in_time [] = none
collect in_time (first ∷ rest) = some (fill_batch (max_batch_size - 1) in_time (first ∷ []) rest)
