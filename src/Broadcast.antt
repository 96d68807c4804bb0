-- ===== src/Broadcast.antt =====
-- backend/src/realtime/broadcaster.rs: the queues of routed events. How the delivery of an event ends
-- is an argument, and so is how long it takes.
pub mod Process
pub mod Trace
pub mod Weights
pub mod Landing
pub mod Eviction
pub mod Conservation
pub mod Ledger
mod Examples
use support_center.Prelude.{
  ℕ, zero, suc, ◌+◌, ◌-◌, String, Bool, true, false, ◌||◌, Option, none, some, List, [], ◌∷◌, ◌++◌,
  ltb, if◌then◌else◌, unwrap_or, length, all, string_eq, ◌==◌,
}
use support_center.HashMap.{HashMap, insert}
use support_center.Json.{Value, member, as_str, and_then}
use support_center.Hub.{elem, wrapping_add}
use support_center.Hub.Users.{set_insert, set_remove}

abbrev pub normal_queue_cap : ℕ
normal_queue_cap = 10000

abbrev pub max_retries : ℕ
max_retries = 3

pub record QueuedEvent : Type 0 where
  pub event : Value
  pub targets : List Value
  pub options : Value
  pub priority : String
  pub queued_at : String
  pub retry_count : ℕ
  pub retry_after : Option String

-- The registered connections never fall below zero, so they are a natural number.
pub record QueueState : Type 0 where
  pub normal : List QueuedEvent
  pub high : List QueuedEvent
  pub evicted : ℕ
  pub total_events : ℕ
  pub delivered : ℕ
  pub failed : ℕ
  pub latency_ms_total : ℕ
  pub latency_samples : ℕ
  pub last_processed : Option String
  pub reachable_users : List String
  pub reachable_conversations : List String
  pub registered_connections : ℕ
  pub filters : HashMap String Value
  pub draining_high : Bool
  pub draining_normal : Bool

abbrev pub empty : QueueState
empty = record {
  normal = [];
  high = [];
  evicted = 0;
  total_events = 0;
  delivered = 0;
  failed = 0;
  latency_ms_total = 0;
  latency_samples = 0;
  last_processed = none;
  reachable_users = [];
  reachable_conversations = [];
  registered_connections = 0;
  filters = [];
  draining_high = false;
  draining_normal = false;
}

pub record Request : Type 0 where
  pub event : Value
  pub targets : List Value
  pub options : Value

abbrev or_else {ℓ} : {A : Type ℓ} → Option A → Option A → Option A
or_else none b = b
or_else (some a) b = some a

unfoldable pub priority_of : Request → String
priority_of r =
    unwrap_or (and_then (or_else (member r.options "priority") (member r.event "priority")) as_str)
      "normal"

abbrev pub queued : String → Request → QueuedEvent
queued iso r = record {
  event = r.event;
  targets = r.targets;
  options = r.options;
  priority = priority_of r;
  queued_at = iso;
  retry_count = 0;
  retry_after = none;
}

-- `while s.normal.len() > cap { pop_front; evicted += 1 }`; as much fuel as there are entries is
-- enough.
unfoldable pub evict : ℕ → List QueuedEvent → ℕ → List QueuedEvent × ℕ
evict zero queue evicted = (queue, evicted)
evict (suc fuel) [] evicted = ([], evicted)
evict (suc fuel) (oldest ∷ queue) evicted =
    let later = evict fuel queue (wrapping_add evicted 1) in
    if ltb normal_queue_cap (length (oldest ∷ queue)) then later else (oldest ∷ queue, evicted)

unfoldable pub push_normal : QueuedEvent → QueueState → QueueState
unfolding evict
push_normal item s =
    let all = s.normal ++ item ∷ [] in
    let kept = evict (length all) all s.evicted in
    record s { total_events = wrapping_add s.total_events 1; normal = kept.0; evicted = kept.1 }

unfoldable pub push_high : QueuedEvent → QueueState → QueueState
push_high item s = record s {
  total_events = wrapping_add s.total_events 1;
  high = s.high ++ item ∷ [];
}

abbrev pub is_urgent : QueuedEvent → Bool
is_urgent item = item.priority == "high" || item.priority == "urgent"

unfoldable pub push : QueuedEvent → QueueState → QueueState
unfolding push_normal push_high
push item s = if is_urgent item then push_high item s else push_normal item s

unfoldable pub push_all : String → List Request → QueueState → QueueState
unfolding push
push_all iso [] s = s
push_all iso (r ∷ rs) s = push_all iso rs (push (queued iso r) s)

-- Returns the depth of the normal queue.
unfoldable pub enqueue_batch : String → List Request → QueueState → ℕ × QueueState
unfolding push_all
enqueue_batch iso requests s = (length (push_all iso requests s).normal, push_all iso requests s)

unfoldable pub enqueue : String → Request → QueueState → ℕ × QueueState
unfolding enqueue_batch
enqueue iso request s = enqueue_batch iso (request ∷ []) s

-- Nothing while another processor drains the queue.
unfoldable pub take_batch : Bool → QueueState → Option (List QueuedEvent × QueueState)
take_batch true s =
    if s.draining_high then none else some (s.high, record s { high = []; draining_high = true })
take_batch false s =
    if s.draining_normal
    then none
    else some (s.normal, record s { normal = []; draining_normal = true })

-- What is requeued goes to the back, in order.
unfoldable pub finish_drain : Bool → List QueuedEvent → QueueState → QueueState
finish_drain true requeue s = record s { high = s.high ++ requeue; draining_high = false }
finish_drain false requeue s = record s { normal = s.normal ++ requeue; draining_normal = false }

unfoldable pub record_processed : ℕ → ℕ → ℕ → ℕ → String → QueueState → QueueState
record_processed delivered failed latency_ms samples iso s = record s {
  delivered = wrapping_add s.delivered delivered;
  failed = wrapping_add s.failed failed;
  latency_ms_total = wrapping_add s.latency_ms_total latency_ms;
  latency_samples = wrapping_add s.latency_samples samples;
  last_processed = some iso;
}

unfoldable pub depths : QueueState → ℕ × ℕ
depths s = (length s.normal, length s.high)

unfoldable pub register : String → String → QueueState → ℕ × QueueState
unfolding elem set_insert
register kind id s =
    let users = kind == "user" in
    let known = if users then elem id s.reachable_users else elem id s.reachable_conversations in
    let count = if known then s.registered_connections else s.registered_connections + 1 in
    (
      count,
      record s {
        reachable_users = if users then set_insert id s.reachable_users else s.reachable_users;
        reachable_conversations =
            if users then s.reachable_conversations else set_insert id s.reachable_conversations;
        registered_connections = count;
      },
    )

unfoldable pub unregister : String → String → QueueState → ℕ × QueueState
unfolding elem set_remove
unregister kind id s =
    let users = kind == "user" in
    let known = if users then elem id s.reachable_users else elem id s.reachable_conversations in
    let count = if known then s.registered_connections - 1 else s.registered_connections in
    (
      count,
      record s {
        reachable_users = if users then set_remove id s.reachable_users else s.reachable_users;
        reachable_conversations =
            if users then s.reachable_conversations else set_remove id s.reachable_conversations;
        registered_connections = count;
      },
    )

unfoldable pub set_filters : String → Value → QueueState → QueueState
unfolding insert
set_filters target_key filters s = record s { filters = insert s.filters target_key filters }
