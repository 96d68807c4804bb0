-- ===== src/Uploads/Budget.antt =====
-- What an admission leaves of the caps per minute and per hour and of the byte budget.
use support_center.Prelude.{
  ℕ, ◌+◌, ◌%◌, ◌^◌, ◌≤◌, ◌<◌, String, ◌≡◌, refl, Bool, true, false, Option, none, some, List, [],
  ◌∷◌, arith, if◌then◌else◌, length, count_if, count_if-le-length, count_if-append, length-append,
  ◌++◌, nat_eq, string_eq, option_eq, pair_eq,
}
use support_center.HashMap.{entry}
use support_center.HashMap.Laws.{get-insert_self}
use support_center.Uploads.{
  UploadLimiter, UploadPolicy, UserCounters, Refusal, unavailable, no_uploads, with_upload,
  is_within, recent, sum_bytes, refusal, settle, admit,
}

unfoldable pub total_bytes : List (ℕ × ℕ) → ℕ
total_bytes [] = 0
total_bytes ((t, bytes) ∷ events) = bytes + total_bytes events

sum_bytes-total_bytes :
    (events : List (ℕ × ℕ)) → total_bytes events < 2 ^ 64 → sum_bytes events ≡ total_bytes events
unfolding sum_bytes total_bytes
sum_bytes-total_bytes [] h = refl
sum_bytes-total_bytes ((t, bytes) ∷ events) h =
    omega (arith, h, sum_bytes-total_bytes events (omega (arith, h)))

-- The uploads of the last hour before an admission.
abbrev pub last_hour : String → ℕ → UploadLimiter → UserCounters
last_hour user now l = recent now (entry l.users user no_uploads)

settle-none :
    (o : Option Refusal) (user : String) (bytes now : ℕ) (c : UserCounters) (l : UploadLimiter)
    → (settle o user bytes now c l).0 ≡ none
    → o ≡ none
unfolding settle
settle-none none user bytes now c l h = refl
settle-none (some r) user bytes now c l h = cc

healthy_none :
    (b : Bool) (r : Refusal) (l : UploadLimiter) (other : Option Refusal × UploadLimiter)
    → (if b then (some r, l) else other).0 ≡ none
    → other.0 ≡ none
healthy_none true r l other h = cc
healthy_none false r l other h = h

admit-refusal :
    (user : String) (bytes : ℕ) (policy : UploadPolicy) (now : ℕ) (l : UploadLimiter)
    → (admit user bytes policy now l).0 ≡ none
    → refusal bytes policy now (last_hour user now l) ≡ none
unfolding admit
admit-refusal user bytes policy now l h =
    let c = last_hour user now l in
    settle-none (refusal bytes policy now c) user bytes now c l (
      healthy_none l.poisoned unavailable l (settle (refusal bytes policy now c) user bytes now c l)
        h)

refusal-bounds :
    (bytes : ℕ) (policy : UploadPolicy) (now : ℕ) (c : UserCounters)
    → refusal bytes policy now c ≡ none
    → (count_if (is_within now 60) c.events % 2 ^ 32 < policy.per_minute)
      × (length c.events % 2 ^ 32 < policy.per_hour)
      × ((sum_bytes c.events + bytes) % 2 ^ 64 ≤ policy.bytes_per_hour)
unfolding refusal
refusal-bounds bytes policy now c h = (ground arith, ground arith, ground arith)

total_bytes-append :
    (xs ys : List (ℕ × ℕ)) → total_bytes (xs ++ ys) ≡ total_bytes xs + total_bytes ys
unfolding total_bytes
total_bytes-append [] ys = omega arith
total_bytes-append ((t, bytes) ∷ xs) ys = omega (arith, total_bytes-append xs ys)

settle-entry :
    (o : Option Refusal) (user : String) (bytes now : ℕ) (c : UserCounters) (l : UploadLimiter)
    → (settle o user bytes now c l).0 ≡ none
    → entry (settle o user bytes now c l).1.users user no_uploads ≡ with_upload now bytes c
unfolding settle entry
settle-entry none user bytes now c l h = rw (get-insert_self l.users user (with_upload now bytes c))
settle-entry (some r) user bytes now c l h = cc

healthy_entry :
    (b : Bool) (r : Refusal) (l : UploadLimiter) (other : Option Refusal × UploadLimiter)
    (user : String) (c : UserCounters)
    → (other.0 ≡ none → entry other.1.users user no_uploads ≡ c)
    → (if b then (some r, l) else other).0 ≡ none
    → entry (if b then (some r, l) else other).1.users user no_uploads ≡ c
healthy_entry true r l other user c f h = cc
healthy_entry false r l other user c f h = f h

-- An admission records the upload behind those of the last hour.
admit-entry :
    (user : String) (bytes : ℕ) (policy : UploadPolicy) (now : ℕ) (l : UploadLimiter)
    → (admit user bytes policy now l).0 ≡ none
    → entry (admit user bytes policy now l).1.users user no_uploads
      ≡ with_upload now bytes (last_hour user now l)
unfolding admit
admit-entry user bytes policy now l h =
    let c = last_hour user now l in
    healthy_entry l.poisoned unavailable l (settle (refusal bytes policy now c) user bytes now c l)
      user _ (settle-entry (refusal bytes policy now c) user bytes now c l) h

-- After an upload is admitted the limiter has recorded it behind the user's uploads of the last hour,
-- and what it has recorded is within the caps per minute and per hour and the hourly byte budget;
-- provided that the user had fewer than 2 ^ 32 uploads in the last hour and their bytes with those of
-- this one fit 64 bits.
pub admitted_within :
    (user : String) (bytes : ℕ) (policy : UploadPolicy) (now : ℕ) (l : UploadLimiter)
    → length (last_hour user now l).events < 2 ^ 32
    → total_bytes (last_hour user now l).events + bytes < 2 ^ 64
    → (admit user bytes policy now l).0 ≡ none
    → let after = entry (admit user bytes policy now l).1.users user no_uploads in
      (after.events ≡ (last_hour user now l).events ++ (now, bytes) ∷ [])
      × (count_if (is_within now 60) after.events ≤ policy.per_minute)
      × (length after.events ≤ policy.per_hour)
      × (total_bytes after.events ≤ policy.bytes_per_hour)
unfolding total_bytes
admitted_within user bytes policy now l short small h =
    let c = last_hour user now l in
    let few = count_if-le-length (is_within now 60) c.events in
    let bounds = refusal-bounds bytes policy now c (admit-refusal user bytes policy now l h) in
    let sum = sum_bytes-total_bytes c.events (omega (arith, small)) in
    let one = count_if-le-length (is_within now 60) ((now, bytes) ∷ []) in
    let this : List (ℕ × ℕ) = (now, bytes) ∷ [] in
    rw (admit-entry user bytes policy now l h) (
      refl,
      omega (arith, bounds.0, few, short, one, count_if-append (is_within now 60) c.events this),
      omega (arith, bounds.1, short, length-append c.events this),
      omega (arith, bounds.2, sum, small, total_bytes-append c.events this),
    )
