-- ===== src/Locks/Examples.antt =====
-- The theorems about the locks at concrete inputs.
use support_center.Prelude.{
  ℕ, ◌*◌, ◌^◌, ◌≡◌, refl, false, Option, none, some, [], ◌∷◌, arith, nat_eq, string_eq, option_eq,
  pair_eq,
}
use support_center.HashMap.{get, insert}
use support_center.Locks.{
  Locks, LeaseGuard, try_acquire, Env, poll_interval, acquire_loop, acquire, drop,
}
use support_center.Locks.Rounds.{get-drop}
use support_center.Locks.Trace.{World, start, attempt_step, Reach, here, next, attempts, exclusive}
use support_center.Locks.Contention.{Outcome, acquire_total}

-- Token 0 holds the key until time 50.
abbrev held : Locks
held = record { holders = ("conv:9", (0, 50)) ∷ []; counter = 1; poisoned = false }

-- The guard whose lease was reclaimed does not free the key of the new owner.
get-drop_example :
    get (drop (record { key = "conv:9"; token = 7 }) held).holders "conv:9" ≡ some (0, 50)
unfolding get
get-drop_example = get-drop held (record { key = "conv:9"; token = 7 }) "conv:9" refl

taken : World
taken = attempt_step start "conv:9" 30 5

taken-Reach : Reach taken
unfolding taken
taken-Reach = next here (attempts "conv:9" 30 5 (omega arith) (omega arith))

exclusive_example : ◌≡◌ {A = ℕ} 0 0
unfolding taken attempt_step get insert try_acquire
exclusive_example = exclusive taken-Reach 0 0 35 35 "conv:9" refl refl (omega arith) (omega arith)

abbrev quiet : Env
quiet = record {
  locked_at = λ n. n * poll_interval;
  checked_at = λ n. n * poll_interval;
  others = λ n s. s;
}

-- A key that stays held: the contender gives up.
abbrev held_long : Locks
held_long = record { holders = ("conv:9", (0, 10 ^ 12)) ∷ []; counter = 1; poisoned = false }

acquire_gives_up :
    acquire quiet 4 0 "conv:9" 50 (2 * poll_interval) held_long ≡ some (none, held_long)
unfolding acquire acquire_loop try_acquire get
acquire_gives_up = refl

acquire_total_example :
    (r : Option LeaseGuard × Locks) × (acquire quiet 3 0 "conv:9" 50 (2 * poll_interval) held_long
      ≡ some r)
    × Outcome quiet "conv:9" 50 (2 * poll_interval) held_long r
acquire_total_example =
    acquire_total quiet "conv:9" 0 50 (2 * poll_interval) 2 held_long (λ n. omega arith)
      (omega arith) (omega arith)
