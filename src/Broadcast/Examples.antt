-- ===== src/Broadcast/Examples.antt =====
-- A run of the queues in which a delivery fails.
use support_center.Prelude.{
  ◌≤◌, ◌≡◌, true, none, List, [], ◌∷◌, ◌++◌, map, arith, retain, nat_eq, string_eq, option_eq,
  pair_eq,
}
use support_center.Json.{null, object, str}
use support_center.Broadcast.{Request, empty, enqueue_batch, queued, is_urgent, normal_queue_cap}
use support_center.Broadcast.Process.{Delivery}
use support_center.Broadcast.Trace.{enqueues, takes, finishes, start, run}
use support_center.Broadcast.Eviction.{enqueue_batch-keeps}
use support_center.Broadcast.Ledger.{Inv, all_accounted}

abbrev requests : List Request
requests =
    (record { event = null; targets = []; options = null })
    ∷ (record { event = null; targets = []; options = object (("priority", str "urgent") ∷ []) })
    ∷ []

abbrev failing : Delivery
failing = record { delivery = λ item. none; elapsed = λ item. 3 }

all_accounted_example : Inv (
    run start (
      enqueues requests "t1"
      ∷ takes true
      ∷ enqueues requests "t2"
      ∷ finishes true failing "t3"
      ∷ []))
all_accounted_example =
    all_accounted (
      enqueues requests "t1"
      ∷ takes true
      ∷ enqueues requests "t2"
      ∷ finishes true failing "t3"
      ∷ [])

enqueue_batch-keeps_example :
    ((enqueue_batch "t1" requests empty).1.high
      ≡ [] ++ retain is_urgent (map (queued "t1") requests))
    × ((enqueue_batch "t1" requests empty).0 ≤ normal_queue_cap)
enqueue_batch-keeps_example = enqueue_batch-keeps "t1" requests empty (omega arith)
