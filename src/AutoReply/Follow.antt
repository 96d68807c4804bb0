-- ===== src/AutoReply/Follow.antt =====
-- The evaluations of a follow and of a message that is delivered again.
use support_center.Prelude.{
  ℕ, String, false, ◌||◌, Option, none, some, List, [], ◌∷◌, unwrap_or, find?, nat_eq, string_eq,
  option_eq, pair_eq, ◌==◌,
}
use support_center.Json.{str, object}
use support_center.Auth.{Result, ok, err}
use support_center.AutoReply.{CachedRule, applicable_rules}
use support_center.AutoReply.Dispatch.{EvalResult, no_match, DispatchContext}
use support_center.AutoReply.Evaluate.{World, ReplyState, send_reply, failed_load, evaluate_message}

pub record Follow : Type 0 where
  pub platform : String
  pub team_id : Option ℕ
  pub conversation_id : String
  pub customer_id : ℕ
  pub platform_user_id : String
  pub reply_token : Option String

abbrev follow_context : Follow → DispatchContext
follow_context f = record {
  platform = f.platform;
  conversation_id = f.conversation_id;
  team_id = f.team_id;
  customer_id = f.customer_id;
  platform_user_id = f.platform_user_id;
  reply_token = f.reply_token;
  trigger_content = "[follow]";
  matched_condition = object (("trigger", str "welcome") ∷ ("event", str "follow") ∷ []);
}

unfoldable pub greet_with :
    Option CachedRule → World → Follow → ReplyState → EvalResult × ReplyState
unfolding send_reply
greet_with none w f s = (no_match, s)
greet_with (some rule) w f s = send_reply w rule (follow_context f) s

unfoldable pub greet_follower :
    Result String (List CachedRule) → World → Follow → ReplyState → EvalResult × ReplyState
unfolding greet_with
greet_follower (err e) w f s = (failed_load e, s)
greet_follower (ok rules) w f s =
    greet_with (find? (λ r. r.trigger_type == "welcome" || r.trigger_type == "greeting") rules) w f
      s

unfoldable pub evaluate_welcome : World → Follow → ReplyState → EvalResult × ReplyState
unfolding greet_follower applicable_rules
evaluate_welcome w f s =
    let r = applicable_rules w.tables f.team_id w.now s.cache in
    greet_follower r.0 w f (record s { cache = r.1 })

-- The message that is delivered again, as it was stored; `none` also if the query failed.
pub record OriginalMessage : Type 0 where
  pub content : String
  pub content_type : String
  pub conversation_id : String
  pub team_id : Option ℕ
  pub customer_id : Option ℕ

unfoldable pub retry_redelivered :
    Option OriginalMessage
    → String
    → String
    → String
    → Option String
    → World
    → ReplyState
    → EvalResult × ReplyState
unfolding evaluate_message
retry_redelivered none platform mid platform_user_id reply_token w s = (
  record {
    matched = false;
    rule_id = none;
    sent = false;
    error = some "original message not found for redelivered identifier";
  },
  s,
)
retry_redelivered (some m) platform mid platform_user_id reply_token w s =
    evaluate_message w
      (record {
        platform = platform;
        content = m.content;
        message_type = m.content_type;
        conversation_id = m.conversation_id;
        team_id = m.team_id;
        customer_id = unwrap_or m.customer_id 0;
        platform_user_id = platform_user_id;
        platform_message_id = some mid;
        reply_token = reply_token;
      })
      s
