-- ===== src/Broadcast/Weights.antt =====
-- What a queue and a batch weigh, where each event has a weight.
use support_center.Prelude.{
  ℕ, zero, suc, ◌+◌, ◌-◌, ◌*◌, ◌%◌, ◌^◌, ◌≤◌, String, ◌≡◌, refl, sym, ap, ◌∙◌, inl, inr, Bool, true,
  not, ◌&&◌, Option, none, some, List, [], ◌∷◌, ◌++◌, map, arith, ltb, if◌then◌else◌, is_none,
  is_some, Bool-cases, length, retain, All, nat_eq, string_eq, option_eq, pair_eq,
}
use mathlib.Core.List.{append_assoc}
use support_center.Broadcast.{
  QueuedEvent, QueueState, Request, normal_queue_cap, max_retries, evict, push, push_normal,
  push_high, push_all, queued, is_urgent,
}
use support_center.Broadcast.Process.{Delivery, Tally, is_retried, again, tally_one, tally_all}
use support_center.Broadcast.Eviction.{append_nil, append_if}
use support_center.Broadcast.Trace.{is_abandoned, is_delivered, is_given_up}

abbrev pub IsYoung : List QueuedEvent → Type 0
IsYoung = All (λ item. item.retry_count ≤ max_retries)

abbrev pub weigh : (QueuedEvent → ℕ) → List QueuedEvent → ℕ
weigh w [] = 0
weigh w (item ∷ items) = w item + weigh w items

-- What an event was when it was accepted.
abbrev pub original : QueuedEvent → QueuedEvent
original item = record item { retry_count = 0; retry_after = none }

-- One for each event whose original passes the test.
abbrev pub one : (QueuedEvent → Bool) → QueuedEvent → ℕ
one p item = if p (original item) then 1 else 0

-- The attempts that such an event may still take.
abbrev pub room : (QueuedEvent → Bool) → QueuedEvent → ℕ
room p item = if p (original item) then (max_retries + 1) - item.retry_count else 0

pub weigh-length : (items : List QueuedEvent) → weigh (one (λ item. true)) items ≡ length items
weigh-length [] = refl
weigh-length (item ∷ items) = omega (arith, weigh-length items)

module _ (w : QueuedEvent → ℕ) where
  pub weigh-append : (xs ys : List QueuedEvent) → weigh w (xs ++ ys) ≡ weigh w xs + weigh w ys
  weigh-append [] ys = omega arith
  weigh-append (x ∷ xs) ys = omega (arith, weigh-append xs ys)

  -- An eviction adds nothing.
  weigh-evict :
      (fuel : ℕ) (queue : List QueuedEvent) (evicted : ℕ)
      → weigh w (evict fuel queue evicted).0 ≤ weigh w queue
  unfolding evict
  weigh-evict zero queue evicted = omega arith
  weigh-evict (suc fuel) [] evicted = omega arith
  weigh-evict (suc fuel) (oldest ∷ queue) evicted =
      elim (Bool-cases (ltb normal_queue_cap (length (oldest ∷ queue)))) [
        | inl e ↦
            let rest = weigh-evict fuel queue ((evicted + 1) % 2 ^ 64) in rw e (omega (arith, rest))
        | inr e ↦ rw e (omega arith)
      ]

  -- Both queues.
  abbrev pub both : QueueState → ℕ
  both s = weigh w s.normal + weigh w s.high

  weigh-push : (item : QueuedEvent) (s : QueueState) → both (push item s) ≤ both s + w item
  unfolding push push_high push_normal
  weigh-push item s = elim (Bool-cases (is_urgent item)) [
    | inl e ↦ rw e (omega (arith, weigh-append s.high (item ∷ [])))
    | inr e ↦
        let all = s.normal ++ item ∷ [] in
        let less = weigh-evict (length all) all s.evicted in
        rw e (omega (arith, less, weigh-append s.normal (item ∷ [])))
  ]

  pub weigh-push_all :
      (iso : String) (rs : List Request) (s : QueueState)
      → both (push_all iso rs s) ≤ both s + weigh w (map (queued iso) rs)
  unfolding push_all
  weigh-push_all iso [] s = omega arith
  weigh-push_all iso (r ∷ rs) s =
      omega (arith, weigh-push (queued iso r) s, weigh-push_all iso rs (push (queued iso r) s))

pub weigh-queued :
    (p : QueuedEvent → Bool) (iso : String) (rs : List Request)
    → weigh (room p) (map (queued iso) rs) ≡ (max_retries + 1) * weigh (one p) (map (queued iso) rs)
weigh-queued p iso [] = refl
weigh-queued p iso (r ∷ rs) = elim (Bool-cases (p (queued iso r))) [
  | inl e ↦ rw e (omega (arith, weigh-queued p iso rs))
  | inr e ↦ rw e (omega (arith, weigh-queued p iso rs))
]

is_some-not : (o : Option (ℕ × ℕ)) → is_some o ≡ not (is_none o)
is_some-not none = refl
is_some-not (some a) = refl

module _ (d : Delivery) (iso : String) where
  -- What a batch puts back: the failed events that may be retried, with one retry more.
  abbrev pub requeued : List QueuedEvent → List QueuedEvent
  requeued [] = []
  requeued (item ∷ batch) =
      if is_none (d.delivery item) && not (is_abandoned item)
      then again iso item ∷ requeued batch
      else requeued batch

  is_retried-is_abandoned : (item : QueuedEvent) → is_retried item ≡ not (is_abandoned item)
  unfolding is_retried
  is_retried-is_abandoned item = ground arith

  tally_one-requeue :
      (o : Option (ℕ × ℕ)) (elapsed : ℕ) (item : QueuedEvent) (t : Tally)
      → (tally_one o elapsed iso item t).requeue
        ≡ t.requeue ++ (if is_none o && not (is_abandoned item) then again iso item ∷ [] else [])
  unfolding tally_one
  tally_one-requeue (some (ok, bad)) elapsed item t = sym (append_nil t.requeue)
  tally_one-requeue none elapsed item t = elim (Bool-cases (is_abandoned item)) [
    | inl e ↦ rw (is_retried-is_abandoned item, e) (sym (append_nil t.requeue))
    | inr e ↦ rw (is_retried-is_abandoned item, e) refl
  ]

  pub tally_all-requeue :
      (batch : List QueuedEvent) (t : Tally)
      → (tally_all d iso batch t).requeue ≡ t.requeue ++ requeued batch
  unfolding tally_all
  tally_all-requeue [] t = sym (append_nil t.requeue)
  tally_all-requeue (item ∷ batch) t =
      let o = d.delivery item in
      let put_back = is_none o && not (is_abandoned item) in
      tally_all-requeue batch (tally_one o (d.elapsed item) iso item t)
      ∙ ap (λ r. r ++ requeued batch) (tally_one-requeue o (d.elapsed item) item t)
      ∙ append_assoc t.requeue (if put_back then again iso item ∷ [] else []) (requeued batch)
      ∙ ap (λ r. t.requeue ++ r) (append_if put_back (again iso item) (requeued batch))

  pub requeued-IsYoung : (batch : List QueuedEvent) → IsYoung (requeued batch)
  requeued-IsYoung [] = tt
  requeued-IsYoung (item ∷ batch) =
      elim (Bool-cases (is_none (d.delivery item) && not (is_abandoned item))) [
        | inl e ↦
            let young : (item.retry_count + 1) % 2 ^ 32 ≤ max_retries = ground (arith, e) in
            rw e (young, requeued-IsYoung batch)
        | inr e ↦ rw e (requeued-IsYoung batch)
      ]

  -- Every event of a batch is delivered, given up, or put back.
  pub weigh-requeued :
      (p : QueuedEvent → Bool) (batch : List QueuedEvent)
      → weigh (one p) (requeued batch)
          + weigh (one p) (retain (is_delivered d) batch)
          + weigh (one p) (retain (is_given_up d) batch)
        ≡ weigh (one p) batch
  weigh-requeued p [] = refl
  weigh-requeued p (item ∷ batch) =
      ground (arith, weigh-requeued p batch, is_some-not (d.delivery item))

  -- Each attempt takes one from what an event may still take.
  pub room-requeued :
      (p : QueuedEvent → Bool) (batch : List QueuedEvent)
      → IsYoung batch
      → weigh (room p) (requeued batch) + weigh (one p) batch ≤ weigh (room p) batch
  room-requeued p [] y = omega arith
  room-requeued p (item ∷ batch) (y, ys) = ground (arith, room-requeued p batch ys, y)
