-- ===== src/Queue/Trace.antt =====
-- A run of the queue: enqueues, collected batches, processed jobs and waking tasks, in any order.
use support_center.Prelude.{
  ℕ, ◌+◌, ◌++◌, Bool, true, not, ◌||◌, if◌then◌else◌, Option, none, some, List, [], ◌∷◌, nat_eq,
  string_eq, option_eq, pair_eq,
}
use support_center.Chars.{Text}
use support_center.Json.{Value}
use support_center.Queue.{Job, JobQueue, enqueue, new}
use support_center.Queue.Worker.{WorkerError, Work, work_of, retries, process_job, wake, collect}

-- `batch` is what the consumer has received and not yet processed. The bodies of the jobs that were
-- accepted, of those whose work succeeded, and of those that the code let go without a trace; and how
-- many attempts were made.
pub record World : Type 0 where
  pub queue : JobQueue
  pub batch : List Job
  pub accepted : List Value
  pub handled : ℕ
  pub delivered : List Value
  pub lost : List Value

abbrev pub start : World
start = record { queue = new; batch = []; accepted = []; handled = 0; delivered = []; lost = [] }

-- A panic may poison the mutex of the statistics or that of the dead letters at any time.
pub data Event : Type 0 where
  enqueues : Value → Event
  collects : (ℕ → Bool) → Event
  handles : Work → ℕ → ℕ → Event
  wakes : ℕ → Event
  poisons_stats poisons_dead_letter : Event

abbrev pub success : Option WorkerError → Job → List Value
success none job = job.body ∷ []
success (some e) job = []

unfoldable pub receive : World → Option (List Job × List Job) → World
receive w none = w
receive w (some (batch, rest)) = record w {
  batch = batch;
  queue = record w.queue { channel = rest };
}

module _ (to_lowercase : Text → Text) where
  -- A job that is out of retries and finds the dead letters poisoned.
  abbrev pub dropped : Option WorkerError → Job → JobQueue → List Value
  dropped none job q = []
  dropped (some e) job q =
      if retries to_lowercase job e || not q.dead_letter_poisoned then [] else job.body ∷ []

  unfoldable pub handle : World → List Job → Work → ℕ → ℕ → World
  handle w [] work elapsed now = w
  handle w (job ∷ rest) work elapsed now = record w {
    queue = process_job to_lowercase work job elapsed now w.queue;
    batch = rest;
    handled = w.handled + 1;
    delivered = success (work_of work job) job ++ w.delivered;
    lost = dropped (work_of work job) job w.queue ++ w.lost;
  }

  -- The consumer collects when its batch is done.
  unfoldable pub gather : World → List Job → (ℕ → Bool) → World
  gather w [] in_time = receive w (collect in_time w.queue.channel)
  gather w (job ∷ rest) in_time = w

  unfoldable pub step : World → Event → World
  step w (enqueues body) = record w { queue = enqueue body w.queue; accepted = body ∷ w.accepted }
  step w (collects in_time) = gather w w.batch in_time
  step w (handles work elapsed now) = handle w w.batch work elapsed now
  step w (wakes now) = record w { queue = wake now w.queue }
  step w poisons_stats = record w { queue = record w.queue { stats_poisoned = true } }
  step w poisons_dead_letter = record w { queue = record w.queue { dead_letter_poisoned = true } }

  unfoldable pub run : World → List Event → World
  run w [] = w
  run w (e ∷ es) = run (step w e) es
