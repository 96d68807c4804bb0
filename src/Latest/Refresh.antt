-- ===== src/Latest/Refresh.antt =====
-- The refresh of one conversation and the warm-up. `answer n` is what the database answers to the n-th
-- attempt, `print` the text of a frame.
use support_center.Prelude.{
  ℕ, zero, suc, ◌^◌, ◌≤◌, String, ◌≡◌, refl, ap, ◌∙◌, Bool, true, false, ◌||◌, Option, none, some,
  List, [], ◌∷◌, arith, leb, if◌then◌else◌, unwrap_or, is_some, nat_eq, string_eq, option_eq,
  pair_eq, ◌==◌,
}
use support_center.Json.{Value, null, str, object, member}
use support_center.Hub.{HubInner}
use support_center.Hub.FanOut.{to_conversation_raw}
use support_center.Auth.{Result, ok, err}
use support_center.Latest.{
  LatestMessageCache, Answer, refresh_max_retries, warmup_default_limit, store, invalidate_latest,
  end_refresh, derive,
}

-- What the attempts derive, and how many were made; `none` when all failed.
abbrev kept_attempt :
    Result String (Option Value) → Option (Option Value) × ℕ → Option (Option Value) × ℕ
kept_attempt (ok v) rest = (some v, 1)
kept_attempt (err e) rest = (rest.0, suc rest.1)

unfoldable pub attempts_from : (ℕ → Answer) → String → String → ℕ → ℕ → Option (Option Value) × ℕ
unfolding derive
attempts_from answer iso cid zero n = (none, 0)
attempts_from answer iso cid (suc left) n =
    kept_attempt (derive iso cid (answer n)) (attempts_from answer iso cid left (suc n))

abbrev at_key : Value → String → Value
at_key v k = unwrap_or (member v k) null

unfoldable pub updated_frame : String → String → Value → Value
updated_frame iso cid snapshot = object (
    ("type", str "latest_message_updated")
    ∷ ("conversationId", str cid)
    ∷ (
      "data",
      object (
          ("content", at_key snapshot "content")
          ∷ ("createdAt", at_key snapshot "createdAt")
          ∷ ("senderType", at_key snapshot "senderType")
          ∷ []),
    )
    ∷ ("timestamp", str iso)
    ∷ [])

unfoldable pub repopulate :
    (Value → String)
    → String
    → String
    → ℕ
    → Option (Option Value)
    → LatestMessageCache
    → HubInner
    → Bool × LatestMessageCache × HubInner
unfolding store updated_frame to_conversation_raw
repopulate print iso cid now none c hub = (false, c, hub)
repopulate print iso cid now (some none) c hub = (true, c, hub)
repopulate print iso cid now (some (some snapshot)) c hub = (
  true,
  store cid snapshot now c,
  (to_conversation_raw cid (print (updated_frame iso cid snapshot)) hub).1,
)

unfoldable pub refresh :
    (ℕ → Answer)
    → (Value → String)
    → String
    → String
    → ℕ
    → LatestMessageCache
    → HubInner
    → Bool × LatestMessageCache × HubInner
unfolding repopulate attempts_from invalidate_latest
refresh answer print iso cid now c hub =
    repopulate print iso cid now (attempts_from answer iso cid refresh_max_retries 0).0
      (invalidate_latest cid c) hub

-- The task that `schedule_refresh` spawns when nothing was pending.
unfoldable pub refresh_task :
    (ℕ → Answer)
    → (Value → String)
    → String
    → String
    → ℕ
    → LatestMessageCache
    → HubInner
    → LatestMessageCache × HubInner
unfolding refresh end_refresh
refresh_task answer print iso cid now c hub =
    let r = refresh answer print iso cid now c hub in (end_refresh cid r.0 r.1, r.2)

-- A limit that is absent or not positive is the default. `none` is a failed query.
abbrev pub warm_limit : Option ℕ → ℕ
warm_limit none = warmup_default_limit
warm_limit (some n) = if 0 == n || leb (2 ^ 63) n then warmup_default_limit else n

abbrev warmed :
    String → ℕ → Result String (Option Value) → ℕ × LatestMessageCache → ℕ × LatestMessageCache
warmed cid now (err e) r = r
warmed cid now (ok none) r = r
warmed cid now (ok (some v)) r = (suc r.0, store cid v now r.1)

unfoldable pub warm_each :
    (String → Answer) → String → ℕ → List String → ℕ × LatestMessageCache → ℕ × LatestMessageCache
unfolding derive store
warm_each query iso now [] r = r
warm_each query iso now (cid ∷ cids) r =
    warm_each query iso now cids (warmed cid now (derive iso cid (query cid)) r)

-- `recent` asks for the conversations that were active last, at most a number of them.
unfoldable pub warm_up :
    (ℕ → Option (List String))
    → (String → Answer)
    → String
    → ℕ
    → Option ℕ
    → LatestMessageCache
    → ℕ × LatestMessageCache
unfolding warm_each
warm_up recent query iso now limit c =
    warm_each query iso now (unwrap_or (recent (warm_limit limit)) []) (0, c)

abbrev pub is_answered : Answer → Bool
is_answered (ok v) = true
is_answered (err e) = false

kept_attempt-succeeds :
    (iso cid : String) (a : Answer) (rest : Option (Option Value) × ℕ)
    → is_some (kept_attempt (derive iso cid a) rest).0 ≡ (is_answered a || is_some rest.0)
unfolding derive
kept_attempt-succeeds iso cid (ok none) rest = refl
kept_attempt-succeeds iso cid (ok (some row)) rest = refl
kept_attempt-succeeds iso cid (err e) rest = refl

kept_attempt-calls :
    (iso cid : String) (a : Answer) (rest : Option (Option Value) × ℕ)
    → (kept_attempt (derive iso cid a) rest).1 ≤ suc rest.1
unfolding derive
kept_attempt-calls iso cid (ok none) rest = omega arith
kept_attempt-calls iso cid (ok (some row)) rest = omega arith
kept_attempt-calls iso cid (err e) rest = omega arith

abbrev pub answered_within : (ℕ → Answer) → ℕ → ℕ → Bool
answered_within answer zero n = false
answered_within answer (suc left) n = is_answered (answer n) || answered_within answer left (suc n)

or_three : (a b c : Bool) → (a || (b || (c || false))) ≡ (a || b || c)
or_three a b c = ground arith

module _ (answer : ℕ → Answer) (iso cid : String) where
  attempts_from-succeeds :
      (left n : ℕ) → is_some (attempts_from answer iso cid left n).0 ≡ answered_within answer left n
  unfolding attempts_from
  attempts_from-succeeds zero n = refl
  attempts_from-succeeds (suc left) n =
      kept_attempt-succeeds iso cid (answer n) (attempts_from answer iso cid left (suc n))
      ∙ ap (λ b. is_answered (answer n) || b) (attempts_from-succeeds left (suc n))

  attempts_from-calls : (left n : ℕ) → (attempts_from answer iso cid left n).1 ≤ left
  unfolding attempts_from
  attempts_from-calls zero n = omega arith
  attempts_from-calls (suc left) n = omega (
    arith,
    kept_attempt-calls iso cid (answer n) (attempts_from answer iso cid left (suc n)),
    attempts_from-calls left (suc n),
  )

  repopulate-succeeds :
      (print : Value → String) (now : ℕ) (o : Option (Option Value)) (c : LatestMessageCache)
      (hub : HubInner)
      → (repopulate print iso cid now o c hub).0 ≡ is_some o
  unfolding repopulate
  repopulate-succeeds print now none c hub = refl
  repopulate-succeeds print now (some none) c hub = refl
  repopulate-succeeds print now (some (some v)) c hub = refl

  -- A refresh asks the database three times at most, and it succeeds exactly when one of the three is
  -- answered, also where there is no message.
  pub refresh_bounded :
      (print : Value → String) (now : ℕ) (c : LatestMessageCache) (hub : HubInner)
      → ((attempts_from answer iso cid refresh_max_retries 0).1 ≤ 3)
        × ((refresh answer print iso cid now c hub).0
            ≡ (is_answered (answer 0) || is_answered (answer 1) || is_answered (answer 2)))
  unfolding refresh
  refresh_bounded print now c hub = (
    attempts_from-calls refresh_max_retries 0,
    repopulate-succeeds print now (attempts_from answer iso cid refresh_max_retries 0).0
          (invalidate_latest cid c) hub
        ∙ attempts_from-succeeds refresh_max_retries 0
        ∙ or_three (is_answered (answer 0)) (is_answered (answer 1)) (is_answered (answer 2)),
  )
