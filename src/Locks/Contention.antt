-- ===== src/Locks/Contention.antt =====
-- The waiting loop of `acquire` ends, and what its answer means.
use support_center.Prelude.{
  ℕ, zero, suc, ◌+◌, ◌*◌, ◌%◌, ◌^◌, ◌≤◌, ◌<◌, String, ◌≡◌, refl, sym, ap, ◌⊎◌, inl, inr, Bool, true,
  false, Option, none, some, arith, leb, leb→le, Bool-cases, if◌then◌else◌, nat_eq, string_eq,
  option_eq, pair_eq, ◌==◌,
}
use mathlib.Core.Path.{subst}
use support_center.HashMap.{get}
use support_center.Locks.{
  Locks, LeaseGuard, Attempt, acquired, busy, unavailable, is_free, try_acquire, Env, poll_interval,
  acquire_loop, acquire,
}
use support_center.HashMap.Laws.{get-insert_self, get-insert_ne}
use support_center.Locks.Rounds.{IsFree, is_free_sound}

-- `tokio::time::sleep` waits at least as long as it is told to.
abbrev pub Sleeps : Env → Type 0
Sleeps env = (n : ℕ) → env.checked_at n + poll_interval ≤ env.checked_at (suc n)

-- The key has a holder whose lease runs.
abbrev pub IsHeld : Locks → String → ℕ → Type 0
IsHeld s key now =
    (s.poisoned ≡ false) × ((t : ℕ) × (x : ℕ) × (get s.holders key ≡ some (t, x)) × (now < x))

-- The key was free, and is held by the guard, with the next token and a full lease; the other keys
-- are as they were.
abbrev pub IsTaken : Locks → String → ℕ → ℕ → LeaseGuard → Locks → Type 0
IsTaken s key lease now g s' =
    (s.poisoned ≡ false)
    × IsFree s key now
    × (g ≡ record { key = key; token = s.counter })
    × (get s'.holders key ≡ some (s.counter, now + lease))
    × (s'.counter ≡ (s.counter + 1) % 2 ^ 64)
    × ((other : String) → (key == other) ≡ false → get s'.holders other ≡ get s.holders other)

abbrev Round : Locks → String → ℕ → ℕ → Attempt × Locks → Type 0
Round s key lease now (unavailable, s') = (s' ≡ s) × (s.poisoned ≡ true)
Round s key lease now (busy, s') = (s' ≡ s) × IsHeld s key now
Round s key lease now (acquired g, s') = IsTaken s key lease now g s'

held_lem :
    (s : Locks) (key : String) (now : ℕ) (o : Option (ℕ × ℕ))
    → s.poisoned ≡ false
    → get s.holders key ≡ o
    → is_free o now ≡ false
    → IsHeld s key now
unfolding is_free
held_lem s key now none p e h = cc
held_lem s key now (some (t, x)) p e h = (p, (t, x, e, ground (arith, h)))

branches :
    (P : Attempt × Locks → Type 0) (b c : Bool) (x y z : Attempt × Locks)
    → (b ≡ true → P x)
    → (b ≡ false → c ≡ true → P y)
    → (b ≡ false → c ≡ false → P z)
    → P (if b then x else if c then y else z)
branches P true c x y z f g h = f refl
branches P false true x y z f g h = g refl refl
branches P false false x y z f g h = h refl refl

try_acquire-Round :
    (s : Locks) (key : String) (lease now : ℕ) → Round s key lease now (try_acquire s key lease now)
unfolding try_acquire
try_acquire-Round s key lease now =
    branches (Round s key lease now) s.poisoned (is_free (get s.holders key) now) _ _ _
      (λ p. (refl, p))
      (λ p f. (
        p,
        is_free_sound s key now f,
        refl,
        get-insert_self s.holders key (s.counter, now + lease),
        refl,
        λ other. get-insert_ne s.holders key other (s.counter, now + lease),
      ))
      (λ p f. (refl, held_lem s key now (get s.holders key) p refl f))

module _ (env : Env) (key : String) (lease deadline : ℕ) where
  open env use {locked_at, checked_at, others}

  -- What a round finds when the ones before it found the key busy, and so changed nothing.
  abbrev pub found : ℕ → Locks → Locks
  found zero s = others zero s
  found (suc n) s = others (suc n) (found n s)

  -- The rounds before the `n`-th found the key held and the deadline ahead.
  abbrev pub Waited : ℕ → Locks → Type 0
  Waited n s = (m : ℕ) → m < n → IsHeld (found m s) key (locked_at m) × (checked_at m < deadline)

  -- Some round ended the wait, and none before it could have. With a guard, that round took the free
  -- key; with none, it changed nothing, and the mutex was poisoned, or the key held with the deadline
  -- reached.
  abbrev pub Outcome : Locks → Option LeaseGuard × Locks → Type 0
  Outcome s (some g, s') = (n : ℕ) × Waited n s × IsTaken (found n s) key lease (locked_at n) g s'
  Outcome s (none, s') =
      (n : ℕ) × Waited n s
      × (s' ≡ found n s)
      × (((found n s).poisoned ≡ true)
          ⊎ (IsHeld (found n s) key (locked_at n) × (deadline ≤ checked_at n)))

  one_more :
      (n : ℕ) (s : Locks)
      → Waited n s
      → IsHeld (found n s) key (locked_at n)
      → checked_at n < deadline
      → Waited (suc n) s
  one_more n s w h l m k = elim (Bool-cases (m == n)) [
    | inl e ↦
        let same : n ≡ m = ground (arith, e) in
        subst (λ m. IsHeld (found m s) key (locked_at m) × (checked_at m < deadline)) same (h, l)
    | inr e ↦ w m (ground (arith, e, k))
  ]

  -- The result of a round is given, and what the later rounds do if there are any.
  conclude :
      (s : Locks) (n : ℕ) (later : Option (Option LeaseGuard × Locks)) (p : Attempt × Locks)
      → Waited n s
      → Round (found n s) key lease (locked_at n) p
      → (Waited (suc n) s
          → p.1 ≡ found n s
          → checked_at n < deadline
          → (r : Option LeaseGuard × Locks) × (later ≡ some r) × Outcome s r)
      → (r : Option LeaseGuard × Locks) × ((elim p.0 [
        | unavailable ↦ some (none, p.1)
        | acquired g ↦ some (some g, p.1)
        | busy ↦ elim (leb deadline (checked_at n)) [ true ↦ some (none, p.1) | false ↦ later ]
      ])
          ≡ some r)
        × Outcome s r
  conclude s n later (unavailable, s') w h k = ((none, s'), refl, (n, w, h.0, inl h.1))
  conclude s n later (acquired g, s') w h k = ((some g, s'), refl, (n, w, h))
  conclude s n later (busy, s') w h k = elim (Bool-cases (leb deadline (checked_at n))) [
    | inl e ↦ rw e ((none, s'), refl, (n, w, h.0, inr (h.1, leb→le deadline (checked_at n) e)))
    | inr e ↦
        let early : checked_at n < deadline = ground arith in
        rw e (k (one_more n s w h.1 early) h.0 early)
  ]

  round_lem :
      (s s' : Locks) (n : ℕ)
      → others n s' ≡ found n s
      → Round
          (found n s)
          key
          lease
          (locked_at n)
          (try_acquire (others n s') key lease (locked_at n))
  round_lem s s' n e =
      subst (λ f. Round (found n s) key lease (locked_at n) (try_acquire f key lease (locked_at n)))
        (sym e) (try_acquire-Round (found n s) key lease (locked_at n))

  acquire_loop_total :
      Sleeps env
      → (fuel n : ℕ) (s s' : Locks) → others n s' ≡ found n s
      → Waited n s
      → deadline ≤ checked_at n + fuel * poll_interval
      → (r : Option LeaseGuard × Locks) × (acquire_loop env key lease deadline (suc fuel) n s'
          ≡ some r)
        × Outcome s r
  unfolding acquire_loop
  acquire_loop_total sleeps zero n s s' e w h =
      conclude s n _ (try_acquire (others n s') key lease (locked_at n)) w (round_lem s s' n e)
        (λ w' same l. absurd (omega arith))
  acquire_loop_total sleeps (suc fuel) n s s' e w h =
      conclude s n _ (try_acquire (others n s') key lease (locked_at n)) w (round_lem s s' n e)
        (λ w' same l.
          acquire_loop_total sleeps fuel (suc n) s _ (ap (others (suc n)) same) w'
            (omega (arith, sleeps n)))

-- Bounded contention: when every sleep lasts its interval, the clock does not run backwards at the
-- start and there is fuel for one round more than fit in the wait, `acquire` returns. The rounds
-- before the last one found the key held and the deadline ahead. With a guard, the last round found
-- the key free, and it is now held by the next token until a full lease after that round, the other
-- keys as they were. With none, the last round changed nothing, and found the mutex poisoned, or the
-- key held and the deadline reached.
pub acquire_total :
    (env : Env) (key : String) (started lease max_wait fuel : ℕ) (s : Locks)
    → Sleeps env
    → started ≤ env.checked_at 0
    → max_wait ≤ fuel * poll_interval
    → (r : Option LeaseGuard × Locks) × (acquire env (suc fuel) started key lease max_wait s
        ≡ some r)
      × Outcome env key lease (started + max_wait) s r
unfolding acquire
acquire_total env key started lease max_wait fuel s sleeps h m =
    acquire_loop_total env key lease (started + max_wait) sleeps fuel 0 s s refl
      (λ m l. absurd (omega arith)) (omega arith)
