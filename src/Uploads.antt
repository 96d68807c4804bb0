-- ===== src/Uploads.antt =====
-- backend/src/domain/files/limiter.rs: the limits on uploads. A refusal stands for its message.
pub mod Trace
pub mod Caps
pub mod Budget
mod Examples
use support_center.Prelude.{
  ℕ, ◌+◌, ◌-◌, ◌*◌, ◌/◌, ◌%◌, ◌^◌, String, Bool, Option, none, some, List, [], ◌∷◌, ◌++◌, ltb, leb,
  if◌then◌else◌, length, retain, count_if, string_eq,
}
use support_center.HashMap.{HashMap, insert, modify, entry}

pub record UploadPolicy : Type 0 where
  pub max_concurrent : ℕ
  pub per_minute : ℕ
  pub per_hour : ℕ
  pub bytes_per_hour : ℕ

abbrev pub standard_uploads : UploadPolicy
standard_uploads = record {
  max_concurrent = 3;
  per_minute = 20;
  per_hour = 100;
  bytes_per_hour = 100 * 1024 * 1024;
}

abbrev pub admin_uploads : UploadPolicy
admin_uploads = record {
  max_concurrent = 10;
  per_minute = 100;
  per_hour = 1000;
  bytes_per_hour = 1024 * 1024 * 1024;
}

-- The time and the bytes of each admitted upload.
pub record UserCounters : Type 0 where
  pub concurrent : ℕ
  pub events : List (ℕ × ℕ)

abbrev pub no_uploads : UserCounters
no_uploads = record { concurrent = 0; events = [] }

pub record UploadLimiter : Type 0 where
  pub users : HashMap String UserCounters
  pub poisoned : Bool

pub data Refusal : Type 0 where
  unavailable : Refusal
  too_many_concurrent too_many_per_minute too_many_per_hour : ℕ → Refusal
  budget_exceeded : Refusal

-- `now.duration_since(t).as_secs() < seconds`; a later `t` counts as now.
unfoldable pub is_within : ℕ → ℕ → ℕ × ℕ → Bool
is_within now seconds (t, bytes) = ltb ((now - t) / 1000000000) seconds

unfoldable pub recent : ℕ → UserCounters → UserCounters
unfolding is_within
recent now c = record c { events = retain (is_within now 3600) c.events }

-- `.sum()`, which wraps.
unfoldable pub sum_bytes : List (ℕ × ℕ) → ℕ
sum_bytes [] = 0
sum_bytes ((t, bytes) ∷ events) = (bytes + sum_bytes events) % 2 ^ 64

unfoldable pub refusal : ℕ → UploadPolicy → ℕ → UserCounters → Option Refusal
unfolding is_within sum_bytes
refusal bytes policy now c =
    if leb policy.max_concurrent c.concurrent
    then some (too_many_concurrent policy.max_concurrent)
    else if leb policy.per_minute (count_if (is_within now 60) c.events % 2 ^ 32)
    then some (too_many_per_minute policy.per_minute)
    else if leb policy.per_hour (length c.events % 2 ^ 32)
    then some (too_many_per_hour policy.per_hour)
    else if ltb policy.bytes_per_hour ((sum_bytes c.events + bytes) % 2 ^ 64)
    then some budget_exceeded
    else none

abbrev pub with_upload : ℕ → ℕ → UserCounters → UserCounters
with_upload now bytes c = record {
  concurrent = (c.concurrent + 1) % 2 ^ 32;
  events = c.events ++ (now, bytes) ∷ [];
}

-- No refusal is the guard. The events that are older than an hour are gone either way.
unfoldable pub settle :
    Option Refusal → String → ℕ → ℕ → UserCounters → UploadLimiter → Option Refusal × UploadLimiter
unfolding insert
settle (some r) user bytes now c l = (some r, record l { users = insert l.users user c })
settle none user bytes now c l =
    (none, record l { users = insert l.users user (with_upload now bytes c) })

unfoldable pub admit :
    String → ℕ → UploadPolicy → ℕ → UploadLimiter → Option Refusal × UploadLimiter
unfolding recent entry refusal settle
admit user bytes policy now l =
    let c = recent now (entry l.users user no_uploads) in
    if l.poisoned
    then (some unavailable, l)
    else settle (refusal bytes policy now c) user bytes now c l

-- The guard is dropped.
unfoldable pub drop : String → UploadLimiter → UploadLimiter
unfolding modify
drop user l =
    if l.poisoned
    then l
    else record l { users = modify (λ c. record c { concurrent = c.concurrent - 1 }) l.users user }
