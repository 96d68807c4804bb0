-- ===== src/Locks.antt =====
-- backend/src/locks.rs: keyed, leased mutual exclusion. An `Instant` and a `Duration` are numbers of
-- nanoseconds; `poisoned` is the state of the standard mutex round the holders, which a panic in a
-- thread that holds it sets. The counter is a `u64`.
pub mod Rounds
pub mod Trace
pub mod Contention
mod Examples
use support_center.Prelude.{
  ℕ, zero, suc, ◌+◌, ◌*◌, ◌%◌, ◌^◌, String, Bool, true, false, Option, none, some, [], leb,
  if◌then◌else◌, nat_eq, string_eq, option_eq, ◌==◌,
}
use support_center.HashMap.{HashMap, get, insert, remove}

pub record Locks : Type 0 where
  pub holders : HashMap String (ℕ × ℕ)
  pub counter : ℕ
  pub poisoned : Bool

pub record LeaseGuard : Type 0 where
  pub key : String
  pub token : ℕ

abbrev pub new : Locks
new = record { holders = []; counter = 0; poisoned = false }

abbrev pub token_of : Option (ℕ × ℕ) → Option ℕ
token_of none = none
token_of (some (t, expiry)) = some t

-- `impl Drop for LeaseGuard`
unfoldable pub drop : LeaseGuard → Locks → Locks
drop g s =
    if s.poisoned
    then s
    else if token_of (get s.holders g.key) == some g.token
    then record s { holders = remove s.holders g.key }
    else s

-- What one round of `acquire` finds while it holds the mutex.
pub data Attempt : Type 0 where
  unavailable : Attempt
  acquired : LeaseGuard → Attempt
  busy : Attempt

-- No holder, or a lapsed lease.
unfoldable pub is_free : Option (ℕ × ℕ) → ℕ → Bool
is_free none now = true
is_free (some (t, expiry)) now = leb expiry now

-- The block that holds the mutex, at time `now`.
unfoldable pub try_acquire : Locks → String → ℕ → ℕ → Attempt × Locks
unfolding is_free
try_acquire s key lease now =
    if s.poisoned
    then (unavailable, s)
    else if is_free (get s.holders key) now
    then (
      acquired (record { key = key; token = s.counter }),
      record s {
        holders = insert s.holders key (s.counter, now + lease);
        counter = (s.counter + 1) % 2 ^ 64;
      },
    )
    else (busy, s)

-- What the task that waits does not control: its clock readings in each round, and what the other
-- tasks do to the locks before each round.
pub record Env : Type 0 where
  pub locked_at : ℕ → ℕ
  pub checked_at : ℕ → ℕ
  pub others : ℕ → Locks → Locks

abbrev pub poll_interval : ℕ
poll_interval = 10 * 1000000

module _ (env : Env) (key : String) (lease deadline : ℕ) where
  open env use {locked_at, checked_at, others}

  -- The `loop`, from round `n`; the fuel bounds the rounds, and running out of it is `none`.
  unfoldable pub acquire_loop : ℕ → ℕ → Locks → Option (Option LeaseGuard × Locks)
  acquire_loop zero n s = none
  acquire_loop (suc fuel) n s =
      let (attempt, s') = try_acquire (others n s) key lease (locked_at n) in
      elim attempt [
        | unavailable ↦ some (none, s')
        | acquired g ↦ some (some g, s')
        | busy ↦ elim (leb deadline (checked_at n)) [
          | true ↦ some (none, s')
          | false ↦ acquire_loop fuel (suc n) s'
        ]
      ]

-- `started` is the clock reading that fixes the deadline.
unfoldable pub acquire : Env → ℕ → ℕ → String → ℕ → ℕ → Locks → Option (Option LeaseGuard × Locks)
acquire env fuel started key lease max_wait s =
    acquire_loop env key lease (started + max_wait) fuel 0 s
