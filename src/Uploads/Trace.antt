-- ===== src/Uploads/Trace.antt =====
-- Uploads that begin and end in any order; a guard is known by its user.
use support_center.Prelude.{
  ℕ, String, false, Option, none, some, List, [], ◌∷◌, if◌then◌else◌, any, nat_eq, string_eq,
  option_eq, pair_eq, ◌==◌,
}
use support_center.Uploads.{UploadLimiter, UploadPolicy, Refusal, admit, drop}

pub record World : Type 0 where
  pub limiter : UploadLimiter
  pub guards : List String

abbrev pub start : World
start = record { limiter = record { users = []; poisoned = false }; guards = [] }

pub data Event : Type 0 where
  begins : String → ℕ → UploadPolicy → ℕ → Event
  ends : String → Event

unfoldable pub take_guard : String → Option Refusal × UploadLimiter → World → World
take_guard user (some r, l) w = record w { limiter = l }
take_guard user (none, l) w = record w { limiter = l; guards = user ∷ w.guards }

unfoldable pub without : String → List String → List String
without user [] = []
without user (g ∷ guards) = if g == user then guards else g ∷ without user guards

-- Only a guard that is held can be dropped.
unfoldable pub step : World → Event → World
unfolding take_guard without admit drop
step w (begins user bytes policy now) = take_guard user (admit user bytes policy now w.limiter) w
step w (ends user) =
    if any (λ g. g == user) w.guards
    then record w { limiter = drop user w.limiter; guards = without user w.guards }
    else w

unfoldable pub run : World → List Event → World
unfolding step
run w [] = w
run w (e ∷ es) = run (step w e) es
