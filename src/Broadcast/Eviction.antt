-- ===== src/Broadcast/Eviction.antt =====
-- The overflow of the normal queue, and what an enqueue keeps.
use support_center.Prelude.{
  ℕ, zero, suc, ◌+◌, ◌-◌, ◌%◌, ◌^◌, ◌≤◌, ◌<◌, String, ◌≡◌, refl, sym, ap, ◌∙◌, inl, inr, Bool, true,
  false, List, [], ◌∷◌, ◌++◌, map, arith, ltb, if◌then◌else◌, ltb→lt, Bool-cases, length, retain,
  All, nat_eq, string_eq, option_eq, pair_eq,
}
use mathlib.Core.List.{append_assoc}
use support_center.Prelude.{drop, length-drop}
use support_center.Broadcast.{
  QueuedEvent, QueueState, Request, normal_queue_cap, evict, push, push_normal, push_high, push_all,
  queued, is_urgent, enqueue_batch,
}

-- The counter loses nothing while it does not wrap.
pub evict-total :
    (fuel : ℕ) (queue : List QueuedEvent) (evicted : ℕ)
    → evicted + length queue < 2 ^ 64
    → length (evict fuel queue evicted).0 + (evict fuel queue evicted).1 ≡ length queue + evicted
unfolding evict
evict-total zero queue evicted h = refl
evict-total (suc fuel) [] evicted h = refl
evict-total (suc fuel) (oldest ∷ queue) evicted h =
    elim (Bool-cases (ltb normal_queue_cap (length (oldest ∷ queue)))) [
      | inl e ↦
          let up : (evicted + 1) % 2 ^ 64 ≡ evicted + 1 = omega (arith, h) in
          rw (e, up)
            (let rest = evict-total fuel queue (evicted + 1) (omega (arith, h)) in
              omega (arith, rest))
      | inr e ↦ rw e refl
    ]

pub evict-All :
    (P : QueuedEvent → Type 0) (fuel : ℕ) (queue : List QueuedEvent) (evicted : ℕ)
    → All P queue
    → All P (evict fuel queue evicted).0
unfolding evict
evict-All P zero queue evicted a = a
evict-All P (suc fuel) [] evicted a = a
evict-All P (suc fuel) (oldest ∷ queue) evicted a =
    elim (Bool-cases (ltb normal_queue_cap (length (oldest ∷ queue)))) [
      | inl e ↦ rw e (evict-All P fuel queue ((evicted + 1) % 2 ^ 64) a.1)
      | inr e ↦ rw e a
    ]

-- The newest entries, as many as the cap.
abbrev pub newest : List QueuedEvent → List QueuedEvent
newest queue = drop (length queue - normal_queue_cap) queue

pub evict-newest :
    (fuel : ℕ) (queue : List QueuedEvent) (evicted : ℕ)
    → length queue ≤ fuel
    → (evict fuel queue evicted).0 ≡ newest queue
unfolding evict
evict-newest zero [] evicted h = refl
evict-newest zero (x ∷ queue) evicted h = absurd (omega (arith, h))
evict-newest (suc fuel) [] evicted h = refl
evict-newest (suc fuel) (x ∷ queue) evicted h =
    elim (Bool-cases (ltb normal_queue_cap (length (x ∷ queue)))) [
      | inl e ↦
          let over = ltb→lt _ _ e in
          let same : suc (length queue) - normal_queue_cap ≡ suc (length queue - normal_queue_cap) =
            omega (arith, over) in
          rw e (
            evict-newest fuel queue ((evicted + 1) % 2 ^ 64) (omega (arith, h))
            ∙ sym (ap (λ i. drop i (x ∷ queue)) same))
      | inr e ↦
          let fits : suc (length queue) - normal_queue_cap ≡ 0 = ground (arith, e) in
          rw e (ap (λ i. drop i (x ∷ queue)) (sym fits))
    ]

push-cap :
    (item : QueuedEvent) (s : QueueState)
    → length s.normal ≤ normal_queue_cap
    → length (push item s).normal ≤ normal_queue_cap
unfolding push push_high push_normal
push-cap item s h = elim (Bool-cases (is_urgent item)) [
  | inl e ↦ rw e h
  | inr e ↦
      let all = s.normal ++ item ∷ [] in
      rw (e, evict-newest (length all) all s.evicted (omega arith))
        (omega (arith, length-drop (length all - normal_queue_cap) all))
]

push_all-cap :
    (iso : String) (rs : List Request) (s : QueueState)
    → length s.normal ≤ normal_queue_cap
    → length (push_all iso rs s).normal ≤ normal_queue_cap
unfolding push_all
push_all-cap iso [] s h = h
push_all-cap iso (r ∷ rs) s h =
    push_all-cap iso rs (push (queued iso r) s) (push-cap (queued iso r) s h)

pub append_nil : (xs : List QueuedEvent) → xs ++ [] ≡ xs
append_nil [] = refl
append_nil (x ∷ xs) = rw (append_nil xs)

push-high :
    (item : QueuedEvent) (s : QueueState)
    → (push item s).high ≡ s.high ++ (if is_urgent item then item ∷ [] else [])
unfolding push push_high push_normal
push-high item s = elim (Bool-cases (is_urgent item)) [
  | inl e ↦ rw e refl
  | inr e ↦ rw e (sym (append_nil s.high))
]

pub append_if :
    (b : Bool) (x : QueuedEvent) (xs : List QueuedEvent)
    → (if b then x ∷ [] else []) ++ xs ≡ (if b then x ∷ xs else xs)
append_if true x xs = refl
append_if false x xs = refl

push_all-high :
    (iso : String) (rs : List Request) (s : QueueState)
    → (push_all iso rs s).high ≡ s.high ++ retain is_urgent (map (queued iso) rs)
unfolding push_all
push_all-high iso [] s = sym (append_nil s.high)
push_all-high iso (r ∷ rs) s =
    push_all-high iso rs (push (queued iso r) s)
    ∙ ap (λ h. h ++ retain is_urgent (map (queued iso) rs)) (push-high (queued iso r) s)
    ∙ append_assoc s.high (if is_urgent (queued iso r) then queued iso r ∷ [] else [])
        (retain is_urgent (map (queued iso) rs))
    ∙ ap (λ h. s.high ++ h)
        (append_if (is_urgent (queued iso r)) (queued iso r)
          (retain is_urgent (map (queued iso) rs)))

-- Whatever is enqueued, every high or urgent request is added to the high-priority queue, in order,
-- and a normal queue of at most 10,000 entries stays one.
pub enqueue_batch-keeps :
    (iso : String) (rs : List Request) (s : QueueState)
    → length s.normal ≤ normal_queue_cap
    → ((enqueue_batch iso rs s).1.high ≡ s.high ++ retain is_urgent (map (queued iso) rs))
      × ((enqueue_batch iso rs s).0 ≤ normal_queue_cap)
unfolding enqueue_batch
enqueue_batch-keeps iso rs s h = (push_all-high iso rs s, push_all-cap iso rs s h)
