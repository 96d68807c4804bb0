-- ===== src/Queue/Ledger.antt =====
-- The queue over any run of enqueues, collected batches, processed jobs and waking tasks: no job is
-- lost or made up, none is attempted more than three times, and the work ends.
use support_center.Prelude.{
  ℕ, zero, suc, false, true, count_if, count_if-append, ◌+◌, ◌-◌, ◌*◌, ◌≤◌, ◌<◌, ◌≡◌, refl, sym,
  if◌then◌else◌, ap, ◌∙◌, inl, inr, Bool, Option, none, some, List, [], ◌∷◌, ◌++◌, map, arith, leb,
  Bool-cases, length, All, All-append, All-split, nat_eq, string_eq, option_eq, pair_eq,
}
use mathlib.Core.List.{append_assoc}
use support_center.Chars.{Text}
use support_center.Json.{Value}
use support_center.Queue.{Job, JobQueue, QueueStats, max_retries, enqueue, requeue}
use support_center.Queue.Retry.{retries_room}
use support_center.Queue.Trace.{
  World, start, Event, enqueues, collects, handles, wakes, poisons_stats, poisons_dead_letter,
  success, dropped, handle, receive, gather, step, run,
}
use support_center.Queue.Worker.{
  WorkerError, Work, work_of, retries, buried, settle, process_job, wake_all, wake, fill_batch,
  collect,
}

-- The attempts that the jobs of a list may still take.
abbrev pub left : Job → ℕ
left job = max_retries - job.attempt

abbrev pub budget : List Job → ℕ
budget [] = 0
budget (job ∷ jobs) = left job + budget jobs

abbrev pub jobs_of : List (ℕ × Job) → List Job
jobs_of ds = map (λ d. d.1) ds

abbrev pub IsYoung : List Job → Type 0
IsYoung = All (λ job. job.attempt < max_retries)

budget-append : (xs ys : List Job) → budget (xs ++ ys) ≡ budget xs + budget ys
budget-append [] ys = omega arith
budget-append (x ∷ xs) ys = omega (arith, budget-append xs ys)

-- How many jobs of a list have a body that passes a test.
abbrev pub bodies : (Value → Bool) → List Job → ℕ
bodies p jobs = count_if (λ job. p job.body) jobs

-- For every test of bodies, as many accepted jobs pass it as delivered, dead-lettered, waiting and
-- lost ones do; so the accepted bodies are those, each as often. Only a poisoned mutex of the dead
-- letters loses a job.
pub record Inv (w : World) : Type 0 where
  pub conserved :
      (p : Value → Bool)
      → count_if p w.accepted
        ≡ count_if p w.delivered
          + bodies p w.queue.dead_letter
          + bodies p w.queue.channel
          + bodies p (jobs_of w.queue.delayed)
          + bodies p w.batch
          + count_if p w.lost
  pub kept : w.queue.dead_letter_poisoned ≡ false → w.lost ≡ []
  pub bounded :
      w.handled + budget w.queue.channel + budget (jobs_of w.queue.delayed) + budget w.batch
      ≤ max_retries * length w.accepted
  pub young_channel : IsYoung w.queue.channel
  pub young_delayed : IsYoung (jobs_of w.queue.delayed)
  pub young_batch : IsYoung w.batch
  pub young_dead : IsYoung w.queue.dead_letter

bodies-append :
    (p : Value → Bool) (xs ys : List Job) → bodies p (xs ++ ys) ≡ bodies p xs + bodies p ys
bodies-append p xs ys = count_if-append (λ job. p job.body) xs ys

if-IsYoung :
    (b : Bool) (xs ys : List Job) → IsYoung xs → IsYoung ys → IsYoung (if b then xs else ys)
if-IsYoung true xs ys h k = h
if-IsYoung false xs ys h k = k

bodies_one :
    (p : Value → Bool) (job : Job) (jobs : List Job)
    → bodies p (job ∷ jobs) ≡ bodies p jobs + bodies p (job ∷ [])
bodies_one p job jobs = ground arith

module _ (to_lowercase : Text → Text) where
  -- One job leaves the batch: it is delivered, delayed with one attempt less, dead or dropped.
  record Settles (r : Option WorkerError) (job : Job) (q q' : JobQueue) : Type 0 where
    channel : q'.channel ≡ q.channel
    moved :
        (p : Value → Bool)
        → bodies p (jobs_of q'.delayed)
            + bodies p q'.dead_letter
            + count_if p (success r job)
            + count_if p (dropped to_lowercase r job q)
          ≡ bodies p (jobs_of q.delayed) + bodies p q.dead_letter + bodies p (job ∷ [])
    poison : q'.dead_letter_poisoned ≡ q.dead_letter_poisoned
    kept : q.dead_letter_poisoned ≡ false → dropped to_lowercase r job q ≡ []
    spent : budget (jobs_of q'.delayed) + 1 ≤ budget (jobs_of q.delayed) + left job
    young_delayed : IsYoung (jobs_of q.delayed) → IsYoung (jobs_of q'.delayed)
    young_dead : IsYoung q.dead_letter → IsYoung q'.dead_letter

  -- A job that is out of retries is dead, or dropped on a poisoned mutex.
  bury-Settles :
      (e : WorkerError) (job : Job) (q : JobQueue) (stats : QueueStats)
      → retries to_lowercase job e ≡ false
      → job.attempt < max_retries
      → Settles (some e) job q (record q { stats = stats; dead_letter = buried job q })
  bury-Settles e job q stats last h = record {
    channel = refl;
    moved = λ p. ground (arith, last, bodies-append p q.dead_letter (job ∷ []));
    poison = refl;
    kept = λ k. ground (arith, last, k);
    spent = omega (arith, h);
    young_delayed = λ y. y;
    young_dead = λ y.
        if-IsYoung q.dead_letter_poisoned q.dead_letter (q.dead_letter ++ job ∷ []) y
          (All-append (λ j. j.attempt < max_retries) q.dead_letter (job ∷ []) (h, tt) y);
  }

  settle-Settles :
      (r : Option WorkerError) (job : Job) (elapsed now : ℕ) (q : JobQueue)
      → job.attempt < max_retries
      → Settles r job q (settle to_lowercase r job elapsed now q)
  unfolding settle
  settle-Settles none job elapsed now q h = record {
    channel = refl;
    moved = λ p. ground arith;
    poison = refl;
    kept = λ k. refl;
    spent = omega (arith, h);
    young_delayed = λ y. y;
    young_dead = λ y. y;
  }
  settle-Settles (some e) job elapsed now q h = elim (Bool-cases (retries to_lowercase job e)) [
    | inl again ↦
        let room = retries_room to_lowercase job e again in
        rw again (record {
          channel = refl;
          moved = λ p. ground (arith, again);
          poison = refl;
          kept = λ k. rw again refl;
          spent = omega (arith, room);
          young_delayed = λ y. (omega (arith, room), y);
          young_dead = λ y. y;
        })
    | inr last ↦ rw last (bury-Settles e job q _ last h)
  ]

  handle-Inv :
      (w : World) (batch : List Job) (work : Work) (elapsed now : ℕ)
      → w.batch ≡ batch
      → Inv w
      → Inv (handle to_lowercase w batch work elapsed now)
  unfolding handle process_job
  handle-Inv w [] work elapsed now b v = v
  handle-Inv w (job ∷ rest) work elapsed now b v =
      let y : IsYoung (job ∷ rest) = rw b at v.young_batch in
      let r = work_of work job in
      let s = settle-Settles r job elapsed now w.queue y.0 in
      let d = v.bounded in
      let m = ap budget b in
      record {
        conserved = λ p. omega (
          arith,
          v.conserved p,
          ap (bodies p) s.channel,
          s.moved p,
          ap (bodies p) b,
          bodies_one p job rest,
          count_if-append p (success r job) w.delivered,
          count_if-append p (dropped to_lowercase r job w.queue) w.lost,
        );
        kept = λ k.
            let sound : w.queue.dead_letter_poisoned ≡ false = sym s.poison ∙ k in
            rw (s.kept sound, v.kept sound) refl;
        bounded = omega (arith, ap budget s.channel, s.spent);
        young_channel = rw s.channel v.young_channel;
        young_delayed = s.young_delayed v.young_delayed;
        young_batch = y.1;
        young_dead = s.young_dead v.young_dead;
      }

-- Collecting keeps the jobs and their order.
pub fill_batch-append :
    (room : ℕ) (in_time : ℕ → Bool) (batch channel : List Job)
    → let (batch', channel') = fill_batch room in_time batch channel in
      batch' ++ channel' ≡ batch ++ channel
unfolding fill_batch
fill_batch-append zero in_time batch channel = refl
fill_batch-append (suc room) in_time batch [] = refl
fill_batch-append (suc room) in_time batch (job ∷ rest) = elim (Bool-cases (in_time room)) [
  | inl e ↦
      rw e (
        fill_batch-append room in_time (batch ++ job ∷ []) rest
        ∙ append_assoc batch (job ∷ []) rest)
  | inr e ↦ rw e
]

pub collect-append :
    (in_time : ℕ → Bool) (channel batch rest : List Job)
    → collect in_time channel ≡ some (batch, rest)
    → batch ++ rest ≡ channel
unfolding collect
collect-append in_time [] batch rest e = cc
collect-append in_time (first ∷ more) batch rest e =
    cc (fill_batch-append 9 in_time (first ∷ []) more)

receive-Inv :
    (w : World) (in_time : ℕ → Bool) (o : Option (List Job × List Job))
    → collect in_time w.queue.channel ≡ o
    → w.batch ≡ []
    → Inv w
    → Inv (receive w o)
unfolding receive
receive-Inv w in_time none e b v = v
receive-Inv w in_time (some (batch, rest)) e b v =
    let same = collect-append in_time w.queue.channel batch rest e in
    let y : IsYoung (batch ++ rest) = rw same v.young_channel in
    let parts = All-split _ batch rest y in
    let d = v.bounded in
    record {
      conserved = λ p.
          omega
            (arith, v.conserved p, ap (bodies p) same, ap (bodies p) b, bodies-append p batch rest);
      kept = v.kept;
      bounded = omega (arith, ap budget same, ap budget b, budget-append batch rest);
      young_channel = parts.1;
      young_delayed = v.young_delayed;
      young_batch = parts.0;
      young_dead = v.young_dead;
    }

-- What waking does to the channel and the sleepers, given those that are looked at.
record Wakes (ds : List (ℕ × Job)) (q q' : JobQueue) : Type 0 where
  moved :
      (p : Value → Bool)
      → bodies p q'.channel + bodies p (jobs_of q'.delayed)
        ≡ bodies p q.channel + bodies p (jobs_of q.delayed) + bodies p (jobs_of ds)
  poison : q'.dead_letter_poisoned ≡ q.dead_letter_poisoned
  kept :
      budget q'.channel + budget (jobs_of q'.delayed)
      ≡ budget q.channel + budget (jobs_of q.delayed) + budget (jobs_of ds)
  young_channel : IsYoung (jobs_of ds) → IsYoung q.channel → IsYoung q'.channel
  young_delayed : IsYoung (jobs_of ds) → IsYoung (jobs_of q.delayed) → IsYoung (jobs_of q'.delayed)
  dead : q'.dead_letter ≡ q.dead_letter

wake_all-Wakes : (now : ℕ) (ds : List (ℕ × Job)) (q : JobQueue) → Wakes ds q (wake_all now ds q)
unfolding wake_all requeue
wake_all-Wakes now [] q = record {
  moved = λ p. omega arith;
  poison = refl;
  kept = omega arith;
  young_channel = λ d y. y;
  young_delayed = λ d y. y;
  dead = refl;
}
wake_all-Wakes now ((due, job) ∷ rest) q = elim (Bool-cases (leb due now)) [
  | inl e ↦
      let r = wake_all-Wakes now rest (requeue job q) in
      rw e (record {
        moved = λ p. omega (
          arith,
          r.moved p,
          bodies-append p q.channel (job ∷ []),
          bodies_one p job (jobs_of rest),
        );
        poison = r.poison;
        kept = omega (arith, r.kept, budget-append q.channel (job ∷ []));
        young_channel = λ d y. r.young_channel d.1 (All-append _ q.channel (job ∷ []) (d.0, tt) y);
        young_delayed = λ d y. r.young_delayed d.1 y;
        dead = r.dead;
      })
  | inr e ↦
      let r = wake_all-Wakes now rest (record q { delayed = (due, job) ∷ q.delayed }) in
      rw e (record {
        moved = λ p. omega (
          arith,
          r.moved p,
          bodies_one p job (jobs_of q.delayed),
          bodies_one p job (jobs_of rest),
        );
        poison = r.poison;
        kept = omega (arith, r.kept);
        young_channel = λ d y. r.young_channel d.1 y;
        young_delayed = λ d y. r.young_delayed d.1 (d.0, y);
        dead = r.dead;
      })
]

module _ (to_lowercase : Text → Text) where
  gather-Inv :
      (w : World) (batch : List Job) (in_time : ℕ → Bool)
      → w.batch ≡ batch
      → Inv w
      → Inv (gather to_lowercase w batch in_time)
  unfolding gather
  gather-Inv w [] in_time b v = receive-Inv w in_time (collect in_time w.queue.channel) refl b v
  gather-Inv w (job ∷ rest) in_time b v = v

  wake-Inv : (now : ℕ) (w : World) → Inv w → Inv (record w { queue = wake now w.queue })
  unfolding wake
  wake-Inv now w v =
      let r = wake_all-Wakes now w.queue.delayed (record w.queue { delayed = [] }) in
      let d = v.bounded in
      record {
        conserved = λ p. omega (arith, v.conserved p, r.moved p, ap (bodies p) r.dead);
        kept = λ k. v.kept (sym r.poison ∙ k);
        bounded = omega (arith, r.kept);
        young_channel = r.young_channel v.young_delayed v.young_channel;
        young_delayed = r.young_delayed v.young_delayed tt;
        young_batch = v.young_batch;
        young_dead = rw r.dead v.young_dead;
      }

  step-Inv : (w : World) (e : Event) → Inv w → Inv (step to_lowercase w e)
  unfolding step enqueue
  step-Inv w (enqueues body) v =
      let job : Job = record { body = body; attempt = 0 } in
      let d = v.bounded in
      record {
        conserved = λ p. ground (arith, v.conserved p, bodies-append p w.queue.channel (job ∷ []));
        kept = v.kept;
        bounded = omega (arith, budget-append w.queue.channel (job ∷ []));
        young_channel = All-append _ w.queue.channel (job ∷ []) (omega arith, tt) v.young_channel;
        young_delayed = v.young_delayed;
        young_batch = v.young_batch;
        young_dead = v.young_dead;
      }
  step-Inv w (collects in_time) v = gather-Inv w w.batch in_time refl v
  step-Inv w (handles work elapsed now) v =
      handle-Inv to_lowercase w w.batch work elapsed now refl v
  step-Inv w (wakes now) v = wake-Inv now w v
  step-Inv w poisons_stats v = record {
    conserved = v.conserved;
    kept = v.kept;
    bounded = v.bounded;
    young_channel = v.young_channel;
    young_delayed = v.young_delayed;
    young_batch = v.young_batch;
    young_dead = v.young_dead;
  }
  step-Inv w poisons_dead_letter v = record {
    conserved = v.conserved;
    kept = λ k. cc;
    bounded = v.bounded;
    young_channel = v.young_channel;
    young_delayed = v.young_delayed;
    young_batch = v.young_batch;
    young_dead = v.young_dead;
  }

  run-Inv : (w : World) (es : List Event) → Inv w → Inv (run to_lowercase w es)
  unfolding run
  run-Inv w [] v = v
  run-Inv w (e ∷ es) v = run-Inv (step to_lowercase w e) es (step-Inv w e v)

-- After any run from the empty queue the bodies of the accepted jobs are, each as often, those of the
-- jobs that are delivered, dead-lettered, still waiting or lost, and none is lost unless the mutex of
-- the dead letters was poisoned; at most three attempts were made for each accepted job, and every job
-- that waits has one left.
pub run-start-Inv : (to_lowercase : Text → Text) (es : List Event) → Inv (run to_lowercase start es)
run-start-Inv to_lowercase es = run-Inv to_lowercase start es (record {
  conserved = λ p. refl;
  kept = λ k. refl;
  bounded = omega arith;
  young_channel = tt;
  young_delayed = tt;
  young_batch = tt;
  young_dead = tt;
})
