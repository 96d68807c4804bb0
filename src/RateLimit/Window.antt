-- ===== src/RateLimit/Window.antt =====
-- The limiter against its specification: a log of every request that was allowed, never pruned,
-- where a request is allowed if fewer than the maximum stand in the window before it.
use support_center.Prelude.{
  ℕ, ◌^◌, ◌≤◌, ◌<◌, String, ◌≡◌, refl, ◌∙◌, Bool, true, false, ◌&&◌, List, [], ◌∷◌, ◌++◌, arith,
  ltb, if◌then◌else◌, length, length-append, retain, count_if, length-retain-le, length-retain,
  nat_eq, string_eq, option_eq, pair_eq, ◌==◌,
}
use support_center.HashMap.{entry}
use support_center.HashMap.Laws.{get-insert_ne, get-insert_self}
use support_center.RateLimit.{RatePolicy, RateLimiter, within, consume, check}

module _ {ℓ} {A : Type ℓ} where
  -- Dropping twice is dropping once, when the later test is the stricter one.
  pub retain-retain :
      (p q : A → Bool) (xs : List A)
      → ((a : A) → q a ≡ true → p a ≡ true)
      → retain q (retain p xs) ≡ retain q xs
  retain-retain p q [] h = refl
  retain-retain p q (x ∷ xs) h = ground (arith, h x, retain-retain p q xs h)

  pub retain-append :
      (p : A → Bool) (xs ys : List A) → retain p (xs ++ ys) ≡ retain p xs ++ retain p ys
  retain-append p [] ys = refl
  retain-append p (x ∷ xs) ys = ground (arith, retain-append p xs ys)

-- A request that is in the window now was in it before.
pub within_earlier :
    (window last now t : ℕ) → last ≤ now → within window now t ≡ true → within window last t ≡ true
within_earlier window last now t h w = ground arith

abbrev pub hits_of : RateLimiter → RatePolicy → String → List ℕ
hits_of rl p caller = entry rl.buckets (p.scope, caller) []

-- The bucket of a caller holds what of the log was in the window at the last check.
pub record Tracks (p : RatePolicy) (caller : String) (rl : RateLimiter) (log : List ℕ) (last : ℕ)
    : Type 0 where
  pub sound : rl.poisoned ≡ false
  pub bucket : hits_of rl p caller ≡ retain (within p.window last) log
  pub capped : length (hits_of rl p caller) ≤ p.max_requests

-- The specification.
abbrev pub permits : RatePolicy → List ℕ → ℕ → Bool
permits p log now = ltb (count_if (within p.window now) log) p.max_requests

abbrev pub note : RatePolicy → List ℕ → ℕ → List ℕ
note p log now = if permits p log now then log ++ now ∷ [] else log

fresh_hits :
    (p : RatePolicy) (caller : String) (rl : RateLimiter) (log : List ℕ) (last now : ℕ)
    → last ≤ now
    → Tracks p caller rl log last
    → retain (within p.window now) (hits_of rl p caller) ≡ retain (within p.window now) log
fresh_hits p caller rl log last now h t =
    rw (t.bucket) (retain-retain _ _ log (λ a. within_earlier p.window last now a h))

pub consume_lem :
    (p : RatePolicy) (now : ℕ) (hits : List ℕ)
    → length hits ≤ p.max_requests
    → p.max_requests < 2 ^ 32
    → ((consume p now hits).0.allowed ≡ ltb (length hits) p.max_requests)
      × ((consume p now hits).1
          ≡ (if ltb (length hits) p.max_requests then hits ++ now ∷ [] else hits))
      × (length (consume p now hits).1 ≤ p.max_requests)
unfolding consume
consume_lem p now hits h m = ground (arith, length-append hits (now ∷ []))

-- On a sound mutex a check consumes from the hits that are still in the window.
pub check_consumes :
    (p : RatePolicy) (caller : String) (rl : RateLimiter) (now : ℕ)
    → rl.poisoned ≡ false
    → let used = consume p now (retain (within p.window now) (hits_of rl p caller)) in
      ((check rl p caller now).0 ≡ used.0)
      × (hits_of (check rl p caller now).1 p caller ≡ used.1)
      × ((check rl p caller now).1.poisoned ≡ false)
unfolding check entry
check_consumes p caller rl now s = ground (
  arith,
  get-insert_self rl.buckets (p.scope, caller)
      (consume p now (retain (within p.window now) (hits_of rl p caller))).1,
)

retain-note :
    (p : RatePolicy) (now : ℕ) (log : List ℕ)
    → 0 < p.window
    → retain (within p.window now) (note p log now) ≡ (
        if permits p log now
        then retain (within p.window now) log ++ now ∷ []
        else retain (within p.window now) log)
retain-note p now log w = ground (arith, retain-append (within p.window now) log (now ∷ []))

-- A check answers as the specification does, and goes on tracking the log.
pub check-Tracks :
    (p : RatePolicy) (caller : String) (rl : RateLimiter) (log : List ℕ) (last now : ℕ)
    → last ≤ now
    → 0 < p.window
    → p.max_requests < 2 ^ 32
    → Tracks p caller rl log last
    → let (d, rl') = check rl p caller now in
      (d.allowed ≡ permits p log now) × Tracks p caller rl' (note p log now) now
check-Tracks p caller rl log last now h w m t =
    let f = fresh_hits p caller rl log last now h t in
    let c = check_consumes p caller rl now t.sound in
    let l =
      consume_lem p now (retain (within p.window now) (hits_of rl p caller))
        (omega (arith, length-retain-le (within p.window now) (hits_of rl p caller), t.capped)) m in
    let n = length-retain (within p.window now) log in
    let r = retain-note p now log w in
    (ground arith, record { sound = c.2; bucket = ground arith; capped = ground arith })

-- Requests of another caller or scope do not touch the bucket.
hits_of-other :
    (p q : RatePolicy) (caller other : String) (rl : RateLimiter) (now : ℕ)
    → (q.scope == p.scope && other == caller) ≡ false
    → (hits_of (check rl q other now).1 p caller ≡ hits_of rl p caller)
      × ((check rl q other now).1.poisoned ≡ rl.poisoned)
unfolding check entry
hits_of-other p q caller other rl now n = ground (
  arith,
  get-insert_ne rl.buckets (q.scope, other) (p.scope, caller)
      (consume q now (retain (within q.window now) (hits_of rl q other))).1,
)

pub other-Tracks :
    (p q : RatePolicy) (caller other : String) (rl : RateLimiter) (log : List ℕ) (last now : ℕ)
    → (q.scope == p.scope && other == caller) ≡ false
    → Tracks p caller rl log last
    → Tracks p caller (check rl q other now).1 log last
other-Tracks p q caller other rl log last now n t =
    let f = hits_of-other p q caller other rl now n in
    record { sound = f.1 ∙ t.sound; bucket = f.0 ∙ t.bucket; capped = rw f.0 t.capped }
