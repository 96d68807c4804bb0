-- ===== src/Broadcast/Conservation.antt =====
-- No event is lost or processed twice, and how often one is retried.
use support_center.Prelude.{
  ℕ, ◌+◌, ◌^◌, ◌≤◌, ◌<◌, String, ◌≡◌, refl, ◌∙◌, inl, inr, List, [], ◌∷◌, ◌++◌, arith, Bool-cases,
  length, length-append, All-append, nat_eq, string_eq, option_eq, pair_eq,
}
use support_center.Hub.{wrapping_add}
use support_center.Broadcast.{
  QueuedEvent, QueueState, Request, max_retries, push, push_normal, push_high, push_all, queued,
  is_urgent,
}
use support_center.Broadcast.Weights.{IsYoung}
use support_center.Broadcast.Eviction.{evict-total, evict-All}

abbrev pub held : QueueState → ℕ
held s = s.evicted + length s.normal + length s.high

push-held :
    (item : QueuedEvent) (s : QueueState) → held s + 1 < 2 ^ 64 → held (push item s) ≡ held s + 1
unfolding push push_high push_normal
push-held item s h = elim (Bool-cases (is_urgent item)) [
  | inl e ↦ rw e (omega (arith, length-append s.high (item ∷ [])))
  | inr e ↦
      let all = s.normal ++ item ∷ [] in
      let more = length-append s.normal (item ∷ []) in
      let total = evict-total (length all) all s.evicted (omega (arith, more, h)) in
      rw e (omega (arith, total, more))
]

push-total :
    (item : QueuedEvent) (s : QueueState)
    → (push item s).total_events ≡ wrapping_add s.total_events 1
unfolding push push_high push_normal
push-total item s = elim (Bool-cases (is_urgent item)) [ inl e ↦ rw e refl | inr e ↦ rw e refl ]

pub push_all-held :
    (iso : String) (rs : List Request) (s : QueueState)
    → held s + length rs < 2 ^ 64
    → held (push_all iso rs s) ≡ held s + length rs
unfolding push_all
push_all-held iso [] s h = omega arith
push_all-held iso (r ∷ rs) s h =
    let one = push-held (queued iso r) s (omega (arith, h)) in
    let rest = push_all-held iso rs (push (queued iso r) s) (omega (arith, one, h)) in
    omega (arith, one, rest)

pub push_all-total :
    (iso : String) (rs : List Request) (s : QueueState)
    → s.total_events + length rs < 2 ^ 64
    → (push_all iso rs s).total_events ≡ s.total_events + length rs
unfolding push_all
push_all-total iso [] s h = omega arith
push_all-total iso (r ∷ rs) s h =
    let one = push-total (queued iso r) s in
    let rest = push_all-total iso rs (push (queued iso r) s) (omega (arith, one, h)) in
    omega (arith, one, rest)

push-IsYoung :
    (item : QueuedEvent) (s : QueueState)
    → item.retry_count ≤ max_retries
    → IsYoung s.normal × IsYoung s.high
    → IsYoung (push item s).normal × IsYoung (push item s).high
unfolding push push_high push_normal
push-IsYoung item s h (n, u) = elim (Bool-cases (is_urgent item)) [
  | inl e ↦ rw e (n, All-append _ s.high (item ∷ []) (h, tt) u)
  | inr e ↦
      let all = s.normal ++ item ∷ [] in
      rw e (evict-All _ (length all) all s.evicted (All-append _ s.normal (item ∷ []) (h, tt) n), u)
]

pub push_all-IsYoung :
    (iso : String) (rs : List Request) (s : QueueState)
    → IsYoung s.normal × IsYoung s.high
    → IsYoung (push_all iso rs s).normal × IsYoung (push_all iso rs s).high
unfolding push_all
push_all-IsYoung iso [] s a = a
push_all-IsYoung iso (r ∷ rs) s a =
    push_all-IsYoung iso rs (push (queued iso r) s) (push-IsYoung (queued iso r) s (omega arith) a)

push-flags :
    (item : QueuedEvent) (s : QueueState)
    → ((push item s).draining_high ≡ s.draining_high)
      × ((push item s).draining_normal ≡ s.draining_normal)
unfolding push push_high push_normal
push-flags item s = elim (Bool-cases (is_urgent item)) [
  | inl e ↦ rw e (refl, refl)
  | inr e ↦ rw e (refl, refl)
]

pub push_all-flags :
    (iso : String) (rs : List Request) (s : QueueState)
    → ((push_all iso rs s).draining_high ≡ s.draining_high)
      × ((push_all iso rs s).draining_normal ≡ s.draining_normal)
unfolding push_all
push_all-flags iso [] s = (refl, refl)
push_all-flags iso (r ∷ rs) s =
    let one = push-flags (queued iso r) s in
    let rest = push_all-flags iso rs (push (queued iso r) s) in (rest.0 ∙ one.0, rest.1 ∙ one.1)
