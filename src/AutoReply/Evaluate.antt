-- ===== src/AutoReply/Evaluate.antt =====
-- The evaluation of an inbound message. The
-- schedules are read as of one moment.
use support_center.Prelude.{
  ℕ, String, Bool, true, false, not, ◌&&◌, ◌||◌, Option, none, some, List, [], ◌∷◌, ◌++◌,
  if◌then◌else◌, is_some, length, find?, nat_eq, string_eq, option_eq, pair_eq, ◌==◌,
}
use support_center.Chars.{codes, trim}
use support_center.Json.{Value, Values, nil, cons, str, arr, object}
use support_center.Hub.{HubInner}
use support_center.Auth.{Result, ok, err}
use support_center.AutoReply.{CachedCondition, CachedRule, RuleCache, RuleTables, applicable_rules}
use support_center.AutoReply.Matching.{TextTools, keyword_rule_matches}
use support_center.AutoReply.Hours.{Schedules, within_business_hours}
use support_center.AutoReply.Ledger.{
  Deliveries, ReplyAttempt, Reservation, reserved, is_pending, already_succeeded, reservation_error,
  reserve_attempt, Delivered, complete, observe,
}
use support_center.AutoReply.Dispatch.{
  EvalResult, no_match, DeliveryUpdateOutcome, was_updated, is_missing, has_failed,
  apply_delivery_update_outcome, Outside, DispatchContext, Write, dispatch,
}

pub record MessageEvalInput : Type 0 where
  pub platform : String
  pub content : String
  pub message_type : String
  pub conversation_id : String
  pub team_id : Option ℕ
  pub customer_id : ℕ
  pub platform_user_id : String
  pub platform_message_id : Option String
  pub reply_token : Option String

abbrev or_team : Option ℕ → Option ℕ → Option ℕ
or_team none b = b
or_team (some a) b = some a

unfoldable pub is_eligible : TextTools → Schedules → MessageEvalInput → CachedRule → Bool
unfolding keyword_rule_matches within_business_hours trim
is_eligible tools schedules input rule =
    if rule.trigger_type == "welcome" || rule.trigger_type == "greeting"
    then false
    else if rule.trigger_type == "keyword"
    then input.message_type == "text"
      && not (length (trim (codes input.content)) == 0)
      && keyword_rule_matches tools rule input.content input.message_type
    else if rule.trigger_type == "off_hours"
    then not (within_business_hours schedules (or_team rule.team_id input.team_id))
    else rule.trigger_type == "fallback"

-- What an evaluation reads: the tables, the libraries, and which of the statements on the ledger fail;
-- `fresh_id` and `now` are drawn when they are needed.
pub record World : Type 0 where
  pub tables : RuleTables
  pub tools : TextTools
  pub schedules : Schedules
  pub out : Outside
  pub query_failure : Option String
  pub claim_failure : Option String
  pub update_failure : Option String
  pub fresh_id : String
  pub iso : String
  pub now : ℕ

pub record ReplyState : Type 0 where
  pub cache : RuleCache
  pub ledger : Deliveries
  pub hub : HubInner
  pub writes : List Write

abbrev conditions_json : List CachedCondition → Values
conditions_json [] = nil
conditions_json (c ∷ cs) =
    cons (object (("type", str c.condition_type) ∷ ("value", str c.value) ∷ []))
      (conditions_json cs)

unfoldable pub condition_json : CachedRule → Value
condition_json rule =
    if rule.trigger_type == "keyword"
    then arr (conditions_json rule.conditions)
    else object (("trigger", str rule.trigger_type) ∷ [])

abbrev pub context_of : MessageEvalInput → CachedRule → DispatchContext
context_of input rule = record {
  platform = input.platform;
  conversation_id = input.conversation_id;
  team_id = input.team_id;
  customer_id = input.customer_id;
  platform_user_id = input.platform_user_id;
  reply_token = input.reply_token;
  trigger_content = input.content;
  matched_condition = condition_json rule;
}

unfoldable pub send_reply :
    World → CachedRule → DispatchContext → ReplyState → EvalResult × ReplyState
unfolding dispatch
send_reply w rule ctx s =
    let d = dispatch w.out rule ctx w.fresh_id w.iso s.hub in
    (d.0, record s { hub = d.2; writes = s.writes ++ d.1 })

abbrev update_outcome : Option String → Option String → DeliveryUpdateOutcome
update_outcome (some e) found = has_failed e
update_outcome none none = is_missing
update_outcome none (some status) = was_updated

abbrev delivered_by : MessageEvalInput → CachedRule → EvalResult → Delivered
delivered_by input rule result = record {
  sent = result.sent;
  rule_id = rule.id;
  has_reply_token = is_some input.reply_token;
  error = result.error;
}

abbrev attempt_of : MessageEvalInput → CachedRule → String → ReplyAttempt
attempt_of input rule mid = record {
  platform = input.platform;
  mid = mid;
  rule_id = rule.id;
  conversation_id = input.conversation_id;
  customer_id = input.customer_id;
}

-- The update of the ledger after a dispatch.
unfoldable pub settle_delivery :
    World
    → MessageEvalInput
    → CachedRule
    → String
    → EvalResult × ReplyState
    → EvalResult × ReplyState
unfolding complete observe apply_delivery_update_outcome
settle_delivery w input rule mid (result, s) = (
  apply_delivery_update_outcome w.out.concat result
      (update_outcome w.update_failure (observe (attempt_of input rule mid) s.ledger)),
  if is_some w.update_failure then s else record s {
    ledger = complete w.iso (input.platform, mid) (delivered_by input rule result) s.ledger;
  },
)

unfoldable pub after_reservation :
    Reservation
    → World
    → MessageEvalInput
    → CachedRule
    → String
    → ReplyState
    → EvalResult × ReplyState
unfolding send_reply settle_delivery condition_json
after_reservation already_succeeded w input rule mid s =
    (record { matched = true; rule_id = some rule.id; sent = false; error = none }, s)
after_reservation is_pending w input rule mid s = (
  record {
    matched = true;
    rule_id = some rule.id;
    sent = false;
    error = some "a delivery attempt is already pending";
  },
  s,
)
after_reservation (reservation_error e) w input rule mid s =
    (record { matched = false; rule_id = some rule.id; sent = false; error = some e }, s)
after_reservation reserved w input rule mid s =
    settle_delivery w input rule mid (send_reply w rule (context_of input rule) s)

-- Without the platform's message id nothing protects from a second reply.
unfoldable pub reply_once :
    Option String → World → MessageEvalInput → CachedRule → ReplyState → EvalResult × ReplyState
unfolding after_reservation reserve_attempt send_reply condition_json
reply_once none w input rule s = send_reply w rule (context_of input rule) s
reply_once (some mid) w input rule s =
    let r =
      reserve_attempt w.iso (attempt_of input rule mid) w.query_failure w.claim_failure s.ledger in
    after_reservation r.0 w input rule mid (record s { ledger = r.1 })

unfoldable pub reply_with :
    Option CachedRule → World → MessageEvalInput → ReplyState → EvalResult × ReplyState
unfolding reply_once
reply_with none w input s = (no_match, s)
reply_with (some rule) w input s = reply_once input.platform_message_id w input rule s

abbrev pub failed_load : String → EvalResult
failed_load e = record { matched = false; rule_id = none; sent = false; error = some e }

unfoldable pub evaluate_rules :
    Result String (List CachedRule)
    → World
    → MessageEvalInput
    → ReplyState
    → EvalResult × ReplyState
unfolding reply_with is_eligible
evaluate_rules (err e) w input s = (failed_load e, s)
evaluate_rules (ok rules) w input s =
    reply_with (find? (is_eligible w.tools w.schedules input) rules) w input s

unfoldable pub evaluate_message : World → MessageEvalInput → ReplyState → EvalResult × ReplyState
unfolding evaluate_rules applicable_rules
evaluate_message w input s =
    let r = applicable_rules w.tables input.team_id w.now s.cache in
    evaluate_rules r.0 w input (record s { cache = r.1 })
