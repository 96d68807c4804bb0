-- ===== src/Latest.antt =====
-- backend/src/realtime/latest.rs: the cache of the latest message per conversation and its refreshes.
-- `iso` is the time text of a snapshot; identifiers of rows are not negative.
pub mod Refresh
pub mod Coalesced
mod Examples
use support_center.Prelude.{
  ℕ, ◌+◌, ◌-◌, ◌*◌, ◌%◌, ◌^◌, String, Bool, true, false, not, Option, none, some, List, [], ◌∷◌,
  ◌++◌, ltb, if◌then◌else◌, retain, count_if, nat_eq, string_eq, ◌==◌,
}
use support_center.HashMap
use support_center.HashMap.{HashMap}
use support_center.Json.{Value, null, str, pos_int, object, str_or_null}
use support_center.Hub.{elem}
use support_center.Auth.{Result, ok, err}

abbrev pub latest_ttl : ℕ
latest_ttl = 24 * 60 * 60 * 1000000000

abbrev pub refresh_max_retries : ℕ
refresh_max_retries = 3

abbrev pub warmup_default_limit : ℕ
warmup_default_limit = 50

-- `pending` is a set. The counters are of processed, succeeded and failed refreshes.
pub record LatestMessageCache : Type 0 where
  pub entries : HashMap String (ℕ × Value)
  pub pending : List String
  pub counters : ℕ × ℕ × ℕ

abbrev pub is_unexpired : ℕ → ℕ × Value → Bool
is_unexpired now e = ltb (now - e.0) latest_ttl

unfoldable pub unexpired_value : ℕ → Option (ℕ × Value) → Option Value
unexpired_value now none = none
unexpired_value now (some e) = if is_unexpired now e then some e.1 else none

unfoldable pub peek : String → ℕ → LatestMessageCache → Option Value
unfolding unexpired_value HashMap.get
peek cid now c = unexpired_value now (HashMap.get c.entries cid)

unfoldable pub store : String → Value → ℕ → LatestMessageCache → LatestMessageCache
unfolding HashMap.insert
store cid snapshot now c = record c {
  entries = HashMap.insert (retain (λ e. is_unexpired now e.1) c.entries) cid (now, snapshot);
}

unfoldable pub invalidate_latest : String → LatestMessageCache → LatestMessageCache
unfolding HashMap.remove
invalidate_latest cid c = record c { entries = HashMap.remove c.entries cid }

unfoldable pub begin_refresh : String → LatestMessageCache → Bool × LatestMessageCache
unfolding elem
begin_refresh cid c =
    if elem cid c.pending then (false, c) else (true, record c { pending = c.pending ++ cid ∷ [] })

abbrev pub add_u64 : ℕ → ℕ
add_u64 n = (n + 1) % 2 ^ 64

abbrev pub counted_refresh : Bool → ℕ × ℕ × ℕ → ℕ × ℕ × ℕ
counted_refresh true (processed, succeeded, failed) = (add_u64 processed, add_u64 succeeded, failed)
counted_refresh false (processed, succeeded, failed) =
    (add_u64 processed, succeeded, add_u64 failed)

unfoldable pub end_refresh : String → Bool → LatestMessageCache → LatestMessageCache
end_refresh cid succeeded c = record c {
  pending = retain (λ p. not (p == cid)) c.pending;
  counters = counted_refresh succeeded c.counters;
}

unfoldable pub cached_count : ℕ → LatestMessageCache → ℕ
cached_count now c = count_if (λ e. is_unexpired now e.1) c.entries

unfoldable pub is_cache_empty : ℕ → LatestMessageCache → Bool
unfolding cached_count
is_cache_empty now c = cached_count now c == 0

pub record LatestRow : Type 0 where
  pub id : String
  pub content : Option String
  pub created_at : String
  pub sender_type : String
  pub agent_id : Option String
  pub customer_id : Option ℕ
  pub content_type : String

abbrev number_or_null : Option ℕ → Value
number_or_null none = null
number_or_null (some n) = pos_int n

unfoldable pub snapshot_json : String → String → LatestRow → Value
snapshot_json iso cid row = object (
    ("conversationId", str cid)
    ∷ ("messageId", str row.id)
    ∷ ("content", str_or_null row.content)
    ∷ ("createdAt", str row.created_at)
    ∷ ("senderType", str row.sender_type)
    ∷ ("agentId", str_or_null row.agent_id)
    ∷ ("customerId", number_or_null row.customer_id)
    ∷ ("messageType", str row.content_type)
    ∷ ("cachedAt", str iso)
    ∷ [])

-- The answer of the query for the latest row: a failure, no message, or a row.
abbrev pub Answer : Type 0
Answer = Result String (Option LatestRow)

unfoldable pub derive : String → String → Answer → Result String (Option Value)
unfolding snapshot_json
derive iso cid (err e) = err e
derive iso cid (ok none) = ok none
derive iso cid (ok (some row)) = ok (some (snapshot_json iso cid row))

unfoldable pub stored_answer :
    String
    → ℕ
    → Result String (Option Value)
    → LatestMessageCache
    → Option Value × LatestMessageCache
unfolding store
stored_answer cid now (err e) c = (none, c)
stored_answer cid now (ok none) c = (none, c)
stored_answer cid now (ok (some v)) c = (some v, store cid v now c)

unfoldable pub hit_or_derived :
    Option Value
    → String
    → ℕ
    → Result String (Option Value)
    → LatestMessageCache
    → Option Value × LatestMessageCache
unfolding stored_answer
hit_or_derived (some hit) cid now answer c = (some hit, c)
hit_or_derived none cid now answer c = stored_answer cid now answer c

-- `query` is what the database answers for a conversation.
unfoldable pub get_latest :
    (String → Answer) → String → String → ℕ → LatestMessageCache → Option Value × LatestMessageCache
unfolding hit_or_derived peek derive
get_latest query iso cid now c =
    hit_or_derived (peek cid now c) cid now (derive iso cid (query cid)) c

abbrev added : String → Option Value → HashMap String Value → HashMap String Value
added cid none out = out
added cid (some v) out = HashMap.insert out cid v

unfoldable pub latest_of :
    (String → Answer)
    → String
    → ℕ
    → List String
    → HashMap String Value
    → LatestMessageCache
    → HashMap String Value × LatestMessageCache
unfolding get_latest HashMap.contains_key HashMap.insert
latest_of query iso now [] out c = (out, c)
latest_of query iso now (cid ∷ cids) out c =
    let r = get_latest query iso cid now c in
    let known = HashMap.contains_key out cid in
    latest_of query iso now cids (if known then out else added cid r.0 out)
      (if known then c else r.1)

unfoldable pub get_latest_many :
    (String → Answer)
    → String
    → ℕ
    → List String
    → LatestMessageCache
    → HashMap String Value × LatestMessageCache
unfolding latest_of
get_latest_many query iso now cids c = latest_of query iso now cids [] c
