-- ===== src/Broadcast/Landing.antt =====
-- What the end of a batch changes in the account of the events.
use support_center.Prelude.{
  ◌+◌, ◌≤◌, String, ◌≡◌, Bool, true, List, ◌++◌, arith, length, length-append, retain, All-append,
  nat_eq, string_eq, option_eq, pair_eq,
}
use support_center.Broadcast.{QueuedEvent}
use support_center.Broadcast.Process.{Delivery, nothing, tally_all}
use support_center.Broadcast.Trace.{World, is_delivered, is_given_up}
use support_center.Broadcast.Weights.{
  IsYoung, weigh, one, room, weigh-length, weigh-append, requeued, tally_all-requeue,
  requeued-IsYoung, weigh-requeued, room-requeued,
}

-- What finishing a batch does to the weights; `here` is the queue that gets the failed events back.
pub record Lands (batch here here' : List QueuedEvent) (d : Delivery) (w : World) : Type 0 where
  pub young : IsYoung here → IsYoung here'
  pub size :
      length here'
        + length (retain (is_delivered d) batch ++ w.delivered)
        + length (retain (is_given_up d) batch ++ w.given_up)
      ≡ length here + length batch + length w.delivered + length w.given_up
  pub genuine :
      (p : QueuedEvent → Bool)
      → weigh (one p) here'
          + weigh (one p) (retain (is_delivered d) batch ++ w.delivered)
          + weigh (one p) (retain (is_given_up d) batch ++ w.given_up)
        ≡ weigh (one p) here
          + weigh (one p) batch
          + weigh (one p) w.delivered
          + weigh (one p) w.given_up
  pub spent :
      (p : QueuedEvent → Bool)
      → IsYoung batch
      → weigh (room p) here' + weigh (one p) (batch ++ w.attempted)
        ≤ weigh (room p) here + weigh (room p) batch + weigh (one p) w.attempted

finishes_lem :
    (d : Delivery) (iso : String) (batch here : List QueuedEvent) (w : World)
    → Lands batch here (here ++ requeued d iso batch) d w
finishes_lem d iso batch here w = record {
  young = λ y. All-append _ here (requeued d iso batch) (requeued-IsYoung d iso batch) y;
  size =
      let all = λ (item : QueuedEvent). true in
      omega (
        arith,
        weigh-requeued d iso all batch,
        weigh-length batch,
        weigh-length (requeued d iso batch),
        weigh-length (retain (is_delivered d) batch),
        weigh-length (retain (is_given_up d) batch),
        length-append here (requeued d iso batch),
        length-append (retain (is_delivered d) batch) w.delivered,
        length-append (retain (is_given_up d) batch) w.given_up,
      );
  genuine = λ p. omega (
    arith,
    weigh-requeued d iso p batch,
    weigh-append (one p) here (requeued d iso batch),
    weigh-append (one p) (retain (is_delivered d) batch) w.delivered,
    weigh-append (one p) (retain (is_given_up d) batch) w.given_up,
  );
  spent = λ p y. omega (
    arith,
    room-requeued d iso p batch y,
    weigh-append (room p) here (requeued d iso batch),
    weigh-append (one p) batch w.attempted,
  );
}

pub tally_all-Lands :
    (d : Delivery) (iso : String) (batch here : List QueuedEvent) (w : World)
    → Lands batch here (here ++ (tally_all d iso batch nothing).requeue) d w
tally_all-Lands d iso batch here w =
    rw (tally_all-requeue d iso batch nothing) (finishes_lem d iso batch here w)
