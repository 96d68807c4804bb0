-- ===== src/Uploads/Examples.antt =====
-- Two uploads of one user, and the caps on them.
use support_center.Prelude.{
  ◌+◌, ◌++◌, ◌^◌, ◌≤◌, ◌<◌, ◌≡◌, refl, false, none, List, [], ◌∷◌, arith, length, count_if, nat_eq,
  string_eq, option_eq, pair_eq,
}
use support_center.HashMap.{get, entry}
use support_center.Uploads.{
  UploadLimiter, no_uploads, standard_uploads, is_within, recent, refusal, admit, settle,
}
use support_center.Uploads.Trace.{Event, begins, ends, start, run}
use support_center.Uploads.Caps.{Inv, concurrent_exact}
use support_center.Uploads.Budget.{admitted_within, last_hour, total_bytes}

abbrev two_uploads : List Event
two_uploads =
    begins "ann" 100 standard_uploads 5 ∷ begins "ann" 200 standard_uploads 6 ∷ ends "ann" ∷ []

concurrent_exact_example : Inv 3 (run start two_uploads)
concurrent_exact_example =
    concurrent_exact 3 two_uploads (omega arith) (omega arith, (omega arith, (tt, tt)))

abbrev idle : UploadLimiter
idle = record { users = []; poisoned = false }

nothing_before : length (last_hour "ann" 5 idle).events < 2 ^ 32
unfolding recent entry get
nothing_before = omega arith

few_bytes : total_bytes (last_hour "ann" 5 idle).events + 100 < 2 ^ 64
unfolding recent entry get total_bytes
few_bytes = omega arith

admitted : (admit "ann" 100 standard_uploads 5 idle).0 ≡ none
unfolding admit recent entry get refusal settle is_within
admitted = refl

admitted_within_example :
    let after = entry (admit "ann" 100 standard_uploads 5 idle).1.users "ann" no_uploads in
    (after.events ≡ (last_hour "ann" 5 idle).events ++ (5, 100) ∷ [])
    × (count_if (is_within 5 60) after.events ≤ standard_uploads.per_minute)
    × (length after.events ≤ standard_uploads.per_hour)
    × (total_bytes after.events ≤ standard_uploads.bytes_per_hour)
admitted_within_example =
    admitted_within "ann" 100 standard_uploads 5 idle nothing_before few_bytes admitted
