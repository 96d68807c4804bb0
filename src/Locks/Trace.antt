-- ===== src/Locks/Trace.antt =====
-- The locks shared by any number of tasks: a world holds the locks, the guards that the tasks hold,
-- and the time; a step is one critical section of one task, or the passing of time.
use support_center.Prelude.{
  ℕ, suc, ◌+◌, ◌^◌, ◌≤◌, ◌<◌, String, ◌≡◌, true, some, [], arith, nat_eq, string_eq, option_eq,
  pair_eq, ==_iff,
}
use support_center.HashMap.{HashMap, get, insert, remove}
use support_center.HashMap.Laws.{get-insert, get-remove}
use support_center.Locks.{
  Locks, Attempt, acquired, busy, unavailable, is_free, try_acquire, drop, new,
}

-- `guards` maps the token of each guard not yet dropped to its key and the end of its lease.
pub record World : Type 0 where
  pub locks : Locks
  pub guards : HashMap ℕ (String × ℕ)
  pub now : ℕ

abbrev pub start : World
start = record { locks = new; guards = []; now = 0 }

abbrev pub guards_after : Attempt → HashMap ℕ (String × ℕ) → ℕ → HashMap ℕ (String × ℕ)
guards_after (acquired g) gs expiry = insert gs g.token (g.key, expiry)
guards_after busy gs expiry = gs
guards_after unavailable gs expiry = gs

-- A round of some task at time `at`. The 64-bit counter has not run through all its values.
unfoldable pub attempt_step : World → String → ℕ → ℕ → World
attempt_step w key lease at =
    let (attempt, locks) = try_acquire w.locks key lease at in
    record { locks = locks; guards = guards_after attempt w.guards (at + lease); now = at }

unfoldable pub drop_step : World → ℕ → String → World
drop_step w token key = record w {
  locks = drop (record { key = key; token = token }) w.locks;
  guards = remove w.guards token;
}

pub data Step (w : World) : World → Type 0 where
  attempts :
      (key : String) (lease at : ℕ)
      → w.now ≤ at
      → suc w.locks.counter < 2 ^ 64
      → Step w (attempt_step w key lease at)
  drops :
      (token expiry : ℕ) (key : String)
      → get w.guards token ≡ some (key, expiry)
      → Step w (drop_step w token key)
  waits : (at : ℕ) → w.now ≤ at → Step w (record w { now = at })
  panics : Step w (record w { locks = record w.locks { poisoned = true } })

pub data Reach : World → Type 0 where
  here : Reach start
  next : {w u : World} → Reach w → Step w u → Reach u

-- Tokens are below the counter, and a guard whose lease runs owns its key.
record Inv (w : World) : Type 0 where
  issued : (t x : ℕ) (k : String) → get w.guards t ≡ some (k, x) → t < w.locks.counter
  owned :
      (t x : ℕ) (k : String)
      → get w.guards t ≡ some (k, x)
      → w.now < x
      → get w.locks.holders k ≡ some (t, x)

attempt-Inv :
    (w : World) (key : String) (lease at : ℕ)
    → w.now ≤ at
    → suc w.locks.counter < 2 ^ 64
    → Inv w
    → Inv (attempt_step w key lease at)
unfolding attempt_step try_acquire is_free
attempt-Inv w key lease at h room v = record {
  issued = λ t x k e.
      ground (arith, v.issued t x k, get-insert w.guards w.locks.counter t (key, at + lease));
  owned = λ t x k e l. ground (
    arith,
    v.issued t x k,
    v.owned t x k,
    get-insert w.guards w.locks.counter t (key, at + lease),
    get-insert w.locks.holders key k (w.locks.counter, at + lease),
    ==_iff key k,
  );
}

drop-Inv :
    (w : World) (token expiry : ℕ) (key : String)
    → get w.guards token ≡ some (key, expiry)
    → Inv w
    → Inv (drop_step w token key)
unfolding drop_step drop
drop-Inv w token expiry key g v = record {
  issued = λ t x k e. ground (arith, v.issued t x k, get-remove w.guards token t);
  owned = λ t x k e l. ground (
    arith,
    v.owned t x k,
    get-remove w.guards token t,
    get-remove w.locks.holders key k,
    ==_iff key k,
  );
}

Step-Inv : {w u : World} → Step w u → Inv w → Inv u
Step-Inv {w} (attempts key lease at h room) v = attempt-Inv w key lease at h room v
Step-Inv {w} (drops token expiry key g) v = drop-Inv w token expiry key g v
Step-Inv {w} (waits at h) v = record {
  issued = v.issued;
  owned = λ t x k e l. v.owned t x k e (omega arith);
}
Step-Inv {w} panics v = record { issued = v.issued; owned = v.owned }

get-empty : {v : String × ℕ} (t : ℕ) → get {V = String × ℕ} [] t ≡ some v → ⊥
unfolding get
get-empty t e = cc

Reach-Inv : {w : World} → Reach w → Inv w
Reach-Inv here = record {
  issued = λ t x k e. ground (arith, get-empty t e);
  owned = λ t x k e l. ground (arith, get-empty t e);
}
Reach-Inv (next r s) = Step-Inv s (Reach-Inv r)

-- Mutual exclusion: whatever the tasks did and in whatever order, two guards of the same key whose
-- leases both run are one and the same guard.
pub exclusive :
    {w : World} (r : Reach w) (s t x y : ℕ) (key : String)
    → get w.guards s ≡ some (key, x)
    → get w.guards t ≡ some (key, y)
    → w.now < x
    → w.now < y
    → s ≡ t
exclusive r s t x y key g h a b =
    let v = Reach-Inv r in ground (arith, v.owned s x key g a, v.owned t y key h b)
