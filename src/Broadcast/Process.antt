-- ===== src/Broadcast/Process.antt =====
-- `process_queue`: the loop over a batch that was taken, and what is requeued.
use support_center.Prelude.{
  ℕ, ◌+◌, ◌%◌, ◌^◌, String, Bool, not, ◌&&◌, Option, none, some, List, [], ◌∷◌, ◌++◌, ltb,
  if◌then◌else◌, nat_eq, string_eq, option_eq, pair_eq, ◌==◌,
}
use support_center.Hub.{wrapping_add}
use support_center.Broadcast.{
  QueuedEvent, QueueState, max_retries, take_batch, finish_drain, record_processed,
}

-- `delivery` is the counts of `deliver_targets`, or its error; `elapsed` is in milliseconds.
pub record Delivery : Type 0 where
  pub delivery : QueuedEvent → Option (ℕ × ℕ)
  pub elapsed : QueuedEvent → ℕ

pub record Tally : Type 0 where
  pub processed : ℕ
  pub delivered : ℕ
  pub failed : ℕ
  pub latency : ℕ
  pub requeue : List QueuedEvent

abbrev pub nothing : Tally
nothing = record { processed = 0; delivered = 0; failed = 0; latency = 0; requeue = [] }

unfoldable pub is_retried : QueuedEvent → Bool
is_retried item = not (item.priority == "low") && ltb item.retry_count max_retries

abbrev pub again : String → QueuedEvent → QueuedEvent
again iso item = record item {
  retry_count = (item.retry_count + 1) % 2 ^ 32;
  retry_after = some iso;
}

unfoldable pub tally_one : Option (ℕ × ℕ) → ℕ → String → QueuedEvent → Tally → Tally
unfolding is_retried
tally_one (some (ok, bad)) elapsed iso item t = record t {
  delivered = wrapping_add t.delivered ok;
  failed = wrapping_add t.failed bad;
  latency = wrapping_add t.latency elapsed;
  processed = t.processed + 1;
}
tally_one none elapsed iso item t =
    if is_retried item
    then record t { requeue = t.requeue ++ again iso item ∷ [] }
    else record t { failed = wrapping_add t.failed 1 }

unfoldable pub tally_all : Delivery → String → List QueuedEvent → Tally → Tally
unfolding tally_one
tally_all d iso [] t = t
tally_all d iso (item ∷ batch) t =
    tally_all d iso batch (tally_one (d.delivery item) (d.elapsed item) iso item t)

-- The two critical sections after the batch.
unfoldable pub finish : Bool → Tally → String → QueueState → QueueState
unfolding record_processed finish_drain
finish high t iso s =
    finish_drain high t.requeue (record_processed t.delivered t.failed t.latency t.processed iso s)

unfoldable pub drained :
    Bool → Delivery → String → Option (List QueuedEvent × QueueState) → QueueState → ℕ × QueueState
unfolding tally_all finish
drained high d iso none s = (0, s)
drained high d iso (some (batch, taken)) s =
    let t = tally_all d iso batch nothing in (t.processed, finish high t iso taken)

-- With nothing else in between; Broadcast/Trace lets other calls in.
unfoldable pub process_queue : Bool → Delivery → String → QueueState → ℕ × QueueState
unfolding drained take_batch
process_queue high d iso s = drained high d iso (take_batch high s) s
