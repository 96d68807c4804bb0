-- ===== src/Latest/Examples.antt =====
-- Small runs of the cache.
use support_center.Prelude.{
  ℕ, ◌≤◌, ◌≡◌, refl, false, ◌||◌, none, some, [], ◌∷◌, arith, ltb, if◌then◌else◌, nat_eq, string_eq,
  option_eq, pair_eq,
}
use support_center.Json.{str}
use support_center.Hub.{elem}
use support_center.Hub.Step.{new}
use support_center.Hub.Examples.{config}
use support_center.Auth.{ok, err}
use support_center.Latest.{
  LatestMessageCache, LatestRow, Answer, begin_refresh, get_latest, refresh_max_retries,
}
use support_center.Latest.Refresh.{refresh, attempts_from, is_answered, refresh_bounded}
use support_center.Latest.Coalesced.{refreshing, after_refresh, coalesced_stale}

abbrev cache : LatestMessageCache
cache = record { entries = []; pending = "other" ∷ []; counters = (0, 0, 0) }

abbrev message : LatestRow
message = record {
  id = "m2";
  content = some "new";
  created_at = "t2";
  sender_type = "customer";
  agent_id = none;
  customer_id = some 9;
  content_type = "text";
}

-- Two failures, then an answer.
abbrev answers : ℕ → Answer
answers n = if ltb n 2 then err "connection lost" else ok (some message)

refresh_bounded_example :
    ((attempts_from answers "now" "c1" refresh_max_retries 0).1 ≤ 3)
    × ((refresh answers (λ v. "") "now" "c1" 5 cache (new config)).0
        ≡ (is_answered (answers 0) || is_answered (answers 1) || is_answered (answers 2)))
refresh_bounded_example = refresh_bounded answers "now" "c1" (λ v. "") 5 cache (new config)

coalesced_stale_example :
    (begin_refresh "c1" (refreshing "c1" cache) ≡ (false, refreshing "c1" cache))
    × ((get_latest
          (λ cid. ok (some message))
          "later"
          "c1"
          50
          (after_refresh "c1" cache
            (λ v. "")
            "now"
            5
            (str "old")
            (begin_refresh "c1" (refreshing "c1" cache)).1
            (new config))).0
        ≡ some (str "old"))
unfolding elem
coalesced_stale_example =
    coalesced_stale "c1" cache (λ v. "") "now" "later" 5 50 (str "old") (λ cid. ok (some message))
      (new config) refl (omega arith)
