-- ===== src/Broadcast/Ledger.antt =====
-- The account of every event in every interleaving of enqueuers and processors.
use support_center.Prelude.{
  ◌+◌, ◌*◌, ◌^◌, ◌<◌, ◌≤◌, String, ◌≡◌, refl, ap, ◌∙◌, Bool, true, false, Option, none, some, List,
  [], ◌∷◌, map, arith, if◌then◌else◌, is_some, length, length-append, nat_eq, string_eq, option_eq,
  pair_eq,
}
use support_center.Broadcast.{
  QueuedEvent, Request, max_retries, queued, take_batch, finish_drain, record_processed,
}
use support_center.Broadcast.Process.{Delivery, finish}
use support_center.Broadcast.Trace.{
  World, start, Event, enqueues, takes, finishes, took, land, step, run,
}
use support_center.Broadcast.Weights.{
  IsYoung, weigh, one, room, both, weigh-append, weigh-push_all, weigh-queued,
}
use support_center.Broadcast.Landing.{tally_all-Lands}
use support_center.Broadcast.Conservation.{
  held, push_all-held, push_all-total, push_all-IsYoung, push_all-flags,
}

abbrev pub flying : Option (List QueuedEvent) → List QueuedEvent
flying none = []
flying (some batch) = batch

-- While fewer than 2 ^ 64 events were accepted, the counter of all events is exact, and as many events
-- were evicted, delivered, given up, wait in a queue, or are in the one batch that a processor of its
-- queue has. Of those that are not evicted none is made up, doubled or changed but in its retries: for
-- every test of originals, as many accepted events pass it at least. A queue is marked as being drained
-- exactly while there is such a batch. The events that pass a test had at most four attempts for each
-- accepted one, with those that are left to them counted in.
pub record Inv (w : World) : Type 0 where
  pub total : length w.accepted < 2 ^ 64 → w.state.total_events ≡ length w.accepted
  pub conserved :
      length w.accepted < 2 ^ 64
      → length w.accepted
        ≡ held w.state
          + length (flying w.flying_high)
          + length (flying w.flying_normal)
          + length w.delivered
          + length w.given_up
  pub genuine :
      (p : QueuedEvent → Bool)
      → both (one p) w.state
          + weigh (one p) (flying w.flying_high)
          + weigh (one p) (flying w.flying_normal)
          + weigh (one p) w.delivered
          + weigh (one p) w.given_up
        ≤ weigh (one p) w.accepted
  pub bounded :
      (p : QueuedEvent → Bool)
      → weigh (one p) w.attempted
          + both (room p) w.state
          + weigh (room p) (flying w.flying_high)
          + weigh (room p) (flying w.flying_normal)
        ≤ (max_retries + 1) * weigh (one p) w.accepted
  pub exclusive_high : w.state.draining_high ≡ is_some w.flying_high
  pub exclusive_normal : w.state.draining_normal ≡ is_some w.flying_normal
  pub young_normal : IsYoung w.state.normal
  pub young_high : IsYoung w.state.high
  pub young_flying : IsYoung (flying w.flying_high) × IsYoung (flying w.flying_normal)

same_size : (iso : String) (rs : List Request) → length (map (queued iso) rs) ≡ length rs
same_size iso [] = refl
same_size iso (r ∷ rs) = omega (arith, same_size iso rs)

enqueues-Inv :
    (requests : List Request) (iso : String) (w : World)
    → Inv w
    → Inv (step w (enqueues requests iso))
unfolding step
enqueues-Inv requests iso w v =
    let young = push_all-IsYoung iso requests w.state (v.young_normal, v.young_high) in
    let flags = push_all-flags iso requests w.state in
    let new = map (queued iso) requests in
    let size = length-append new w.accepted in
    let count = same_size iso requests in
    record {
      total = λ small.
          let before = v.total (omega (arith, small, size)) in
          let now =
            push_all-total iso requests w.state (omega (arith, small, before, size, count)) in
          omega (arith, now, before, size, count);
      conserved = λ small.
          let before = v.conserved (omega (arith, small, size)) in
          let now =
            push_all-held iso requests w.state (omega (arith, small, before, size, count)) in
          omega (arith, now, before, size, count);
      genuine = λ p. omega (
        arith,
        v.genuine p,
        weigh-push_all (one p) iso requests w.state,
        weigh-append (one p) new w.accepted,
      );
      bounded = λ p. omega (
        arith,
        v.bounded p,
        weigh-push_all (room p) iso requests w.state,
        weigh-queued p iso requests,
        weigh-append (one p) new w.accepted,
      );
      exclusive_high = flags.0 ∙ v.exclusive_high;
      exclusive_normal = flags.1 ∙ v.exclusive_normal;
      young_normal = young.0;
      young_high = young.1;
      young_flying = v.young_flying;
    }

none_flying : (o : Option (List QueuedEvent)) (b : Bool) → b ≡ is_some o → b ≡ false → o ≡ none
none_flying none b e f = refl
none_flying (some batch) b e f = cc

takes_high :
    (b : Bool) (w : World)
    → w.state.draining_high ≡ b
    → Inv w
    → Inv (
        took true
          (if b
            then none
            else some (w.state.high, record w.state { high = []; draining_high = true }))
          w)
unfolding took
takes_high true w e v = v
takes_high false w e v =
    let idle = none_flying w.flying_high w.state.draining_high v.exclusive_high e in
    let none_there : length (flying w.flying_high) ≡ 0 = ap (λ o. length (flying o)) idle in
    record {
      total = v.total;
      conserved = λ small. let before = v.conserved small in omega (arith, before, none_there);
      genuine = λ p. omega (arith, v.genuine p, ap (λ o. weigh (one p) (flying o)) idle);
      bounded = λ p. omega (arith, v.bounded p, ap (λ o. weigh (room p) (flying o)) idle);
      exclusive_high = refl;
      exclusive_normal = v.exclusive_normal;
      young_normal = v.young_normal;
      young_high = tt;
      young_flying = (v.young_high, v.young_flying.1);
    }

takes_normal :
    (b : Bool) (w : World)
    → w.state.draining_normal ≡ b
    → Inv w
    → Inv (
        took false
          (if b
            then none
            else some (w.state.normal, record w.state { normal = []; draining_normal = true }))
          w)
unfolding took
takes_normal true w e v = v
takes_normal false w e v =
    let idle = none_flying w.flying_normal w.state.draining_normal v.exclusive_normal e in
    let none_there : length (flying w.flying_normal) ≡ 0 = ap (λ o. length (flying o)) idle in
    record {
      total = v.total;
      conserved = λ small. let before = v.conserved small in omega (arith, before, none_there);
      genuine = λ p. omega (arith, v.genuine p, ap (λ o. weigh (one p) (flying o)) idle);
      bounded = λ p. omega (arith, v.bounded p, ap (λ o. weigh (room p) (flying o)) idle);
      exclusive_high = v.exclusive_high;
      exclusive_normal = refl;
      young_normal = tt;
      young_high = v.young_high;
      young_flying = (v.young_flying.0, v.young_normal);
    }

takes-Inv : (high : Bool) (w : World) → Inv w → Inv (step w (takes high))
unfolding step take_batch
takes-Inv true w v = takes_high w.state.draining_high w refl v
takes-Inv false w v = takes_normal w.state.draining_normal w refl v

land-Inv :
    (high : Bool) (o : Option (List QueuedEvent)) (d : Delivery) (iso : String) (w : World)
    → (if high then w.flying_high else w.flying_normal) ≡ o
    → Inv w
    → Inv (land high o d iso w)
unfolding land finish record_processed finish_drain
land-Inv high none d iso w e v = v
land-Inv true (some batch) d iso w e v =
    let r = tally_all-Lands d iso batch w.state.high w in
    let here : flying w.flying_high ≡ batch = ap flying e in
    let y : IsYoung batch = rw here at v.young_flying.0 in
    record {
      total = v.total;
      conserved = λ small. omega (arith, v.conserved small, ap length here, r.size);
      genuine = λ p. omega (arith, v.genuine p, ap (weigh (one p)) here, r.genuine p);
      bounded = λ p. omega (arith, v.bounded p, ap (weigh (room p)) here, r.spent p y);
      exclusive_high = refl;
      exclusive_normal = v.exclusive_normal;
      young_normal = v.young_normal;
      young_high = r.young v.young_high;
      young_flying = (tt, v.young_flying.1);
    }
land-Inv false (some batch) d iso w e v =
    let r = tally_all-Lands d iso batch w.state.normal w in
    let here : flying w.flying_normal ≡ batch = ap flying e in
    let y : IsYoung batch = rw here at v.young_flying.1 in
    record {
      total = v.total;
      conserved = λ small. omega (arith, v.conserved small, ap length here, r.size);
      genuine = λ p. omega (arith, v.genuine p, ap (weigh (one p)) here, r.genuine p);
      bounded = λ p. omega (arith, v.bounded p, ap (weigh (room p)) here, r.spent p y);
      exclusive_high = v.exclusive_high;
      exclusive_normal = refl;
      young_normal = r.young v.young_normal;
      young_high = v.young_high;
      young_flying = (v.young_flying.0, tt);
    }

step-Inv : (w : World) (e : Event) → Inv w → Inv (step w e)
unfolding step
step-Inv w (enqueues requests iso) v = enqueues-Inv requests iso w v
step-Inv w (takes high) v = takes-Inv high w v
step-Inv w (finishes true d iso) v = land-Inv true w.flying_high d iso w refl v
step-Inv w (finishes false d iso) v = land-Inv false w.flying_normal d iso w refl v

run-Inv : (w : World) (es : List Event) → Inv w → Inv (run w es)
unfolding run
run-Inv w [] v = v
run-Inv w (e ∷ es) v = run-Inv (step w e) es (step-Inv w e v)

-- In every interleaving of enqueues, takes and finishes from the empty queues, while fewer than
-- 2 ^ 64 events were accepted: the event counter is exact, and as many events were evicted, delivered,
-- given up, wait, or are in a batch. Always: none of those not evicted is made up, doubled or changed
-- but in its retries; a queue is marked as being drained exactly while a processor has a batch of it;
-- and whichever events one asks for, they have had at most four attempts for each one accepted, those
-- left to them counted in.
pub all_accounted : (es : List Event) → Inv (run start es)
all_accounted es = run-Inv start es (record {
  total = λ small. refl;
  conserved = λ small. refl;
  genuine = λ p. omega arith;
  bounded = λ p. omega arith;
  exclusive_high = refl;
  exclusive_normal = refl;
  young_normal = tt;
  young_high = tt;
  young_flying = (tt, tt);
})
