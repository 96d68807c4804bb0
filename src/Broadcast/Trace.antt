-- ===== src/Broadcast/Trace.antt =====
-- The queues with enqueuers and processors interleaved: a processor takes a batch, and finishes it
-- later.
use support_center.Prelude.{
  String, Bool, true, false, ◌&&◌, ◌||◌, ◌==◌, Option, none, some, List, [], ◌∷◌, ◌++◌, map, leb,
  is_some, is_none, retain, nat_eq, string_eq, option_eq, pair_eq,
}
use support_center.Broadcast.{
  QueuedEvent, QueueState, Request, max_retries, empty, queued, push_all, take_batch,
}
use support_center.Broadcast.Process.{Delivery, nothing, tally_all, finish}

-- The batches being processed; the events that were accepted, those whose delivery returned, and
-- those that failed with no retry left to them; and the events of all attempts.
pub record World : Type 0 where
  pub state : QueueState
  pub flying_high : Option (List QueuedEvent)
  pub flying_normal : Option (List QueuedEvent)
  pub accepted : List QueuedEvent
  pub delivered : List QueuedEvent
  pub given_up : List QueuedEvent
  pub attempted : List QueuedEvent

abbrev pub start : World
start = record {
  state = empty;
  flying_high = none;
  flying_normal = none;
  accepted = [];
  delivered = [];
  given_up = [];
  attempted = [];
}

-- Low priority is never retried, the others three times.
abbrev pub is_abandoned : QueuedEvent → Bool
is_abandoned item = item.priority == "low" || leb max_retries item.retry_count

abbrev pub is_delivered : Delivery → QueuedEvent → Bool
is_delivered d item = is_some (d.delivery item)

abbrev pub is_given_up : Delivery → QueuedEvent → Bool
is_given_up d item = is_none (d.delivery item) && is_abandoned item

pub data Event : Type 0 where
  enqueues : List Request → String → Event
  takes : Bool → Event
  finishes : Bool → Delivery → String → Event

unfoldable pub took : Bool → Option (List QueuedEvent × QueueState) → World → World
took high none w = w
took true (some (batch, s)) w = record w { state = s; flying_high = some batch }
took false (some (batch, s)) w = record w { state = s; flying_normal = some batch }

unfoldable pub land : Bool → Option (List QueuedEvent) → Delivery → String → World → World
unfolding tally_all finish
land high none d iso w = w
land true (some batch) d iso w =
    let t = tally_all d iso batch nothing in
    record w {
      state = finish true t iso w.state;
      flying_high = none;
      delivered = retain (is_delivered d) batch ++ w.delivered;
      given_up = retain (is_given_up d) batch ++ w.given_up;
      attempted = batch ++ w.attempted;
    }
land false (some batch) d iso w =
    let t = tally_all d iso batch nothing in
    record w {
      state = finish false t iso w.state;
      flying_normal = none;
      delivered = retain (is_delivered d) batch ++ w.delivered;
      given_up = retain (is_given_up d) batch ++ w.given_up;
      attempted = batch ++ w.attempted;
    }

unfoldable pub step : World → Event → World
unfolding push_all took take_batch land
step w (enqueues requests iso) = record w {
  state = push_all iso requests w.state;
  accepted = map (queued iso) requests ++ w.accepted;
}
step w (takes high) = took high (take_batch high w.state) w
step w (finishes true d iso) = land true w.flying_high d iso w
step w (finishes false d iso) = land false w.flying_normal d iso w

unfoldable pub run : World → List Event → World
unfolding step
run w [] = w
run w (e ∷ es) = run (step w e) es
