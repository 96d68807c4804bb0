-- ===== src/AutoReply/Examples.antt =====
-- Small runs of the automatic replies.
use support_center.Prelude.{
  ℕ, ◌+◌, ◌≤◌, ◌≡◌, refl, true, false, ◌||◌, Option, none, some, List, [], ◌∷◌, arith, unwrap_or,
  head?, any, nat_eq, string_eq, option_eq, pair_eq,
}
use support_center.Chars.{codes, text_lt}
use support_center.Hub.Step.{new}
use support_center.Hub.Examples.{config}
use support_center.Auth.{ok}
use support_center.AutoReply.{CachedRule, RuleRow, ActionRow, RuleTables, applicable_rules, rule_of}
use support_center.AutoReply.Hours.{
  ScheduleRow, Schedules, within_business_hours, covers, is_early, within_business_hours_lem,
}
use support_center.AutoReply.Ledger.{ReplyAttempt, Delivered}
use support_center.AutoReply.Evaluate.{World, MessageEvalInput, ReplyState, evaluate_message}
use support_center.AutoReply.Winner.{Decides, evaluate_message-Decides}
use support_center.AutoReply.Attempts.{Event, claims, completes, run, nothing_yet}
use support_center.AutoReply.AtMostOnce.{at_most_once}

-- Mondays from ten in the evening to six.
abbrev overnight : ScheduleRow
overnight = record {
  day_of_week = 1;
  start_time = codes "22:00";
  end_time = codes "06:00";
  timezone = "Asia/Taipei";
}

abbrev schedules : Schedules
schedules = record {
  active_rows = λ team. some (overnight ∷ []);
  local_time = λ tz. (1, codes "03:00");
}

within_business_hours_lem_example :
    within_business_hours schedules (some 7)
    ≡ any (λ r. covers r 1 (codes "03:00") || is_early r 1 (codes "03:00")) (overnight ∷ [])
within_business_hours_lem_example =
    within_business_hours_lem schedules 7 overnight [] 1 (codes "03:00") refl refl (omega arith)
      (omega arith, tt)

-- On Monday at three no window covers the time, and yet it counts as open.
open_early : within_business_hours schedules (some 7) ≡ true
unfolding within_business_hours text_lt
open_early = refl

not_covered : covers overnight 1 (codes "03:00") ≡ false
unfolding text_lt
not_covered = refl

abbrev attempt : ReplyAttempt
attempt = record {
  platform = "line";
  mid = "m1";
  rule_id = 4;
  conversation_id = "c1";
  customer_id = 9;
}

abbrev refused : Delivered
refused = record { sent = false; rule_id = 4; has_reply_token = true; error = some "timeout" }

abbrev done : Delivered
done = record { sent = true; rule_id = 4; has_reply_token = true; error = none }

-- Two tasks see no row, the first fails, one tries again, and its update is lost.
abbrev race : List Event
race =
    claims "t1" attempt none none
    ∷ claims "t1" attempt none none
    ∷ completes "t2" ("line", "m1") refused false
    ∷ claims "t3" attempt none (some "failed")
    ∷ claims "t3" attempt none (some "failed")
    ∷ completes "t4" ("line", "m1") done true
    ∷ claims "t5" attempt none (some "failed")
    ∷ []

at_most_once_example :
    (run race nothing_yet).holders ("line", "m1") + (run race nothing_yet).sends ("line", "m1") ≤ 1
at_most_once_example = at_most_once race ("line", "m1")

sent_once : (run race nothing_yet).sends ("line", "m1") ≡ 1
unfolding run
sent_once = refl

abbrev row : ℕ → Option ℕ → RuleRow
row id team = record {
  id = id;
  team_id = team;
  name = "all";
  trigger_type = "fallback";
  priority = 3;
  allow_fallback = 0;
}

abbrev hello : ActionRow
hello = record { action_type = "text"; content = some "hello" }

abbrev tables : RuleTables
tables = record {
  rule_rows = λ scope. ok (elim scope [ none ↦ row 1 none ∷ [] | some t ↦ row 2 (some t) ∷ [] ]);
  condition_rows = λ id. ok [];
  action_rows = λ id. ok (hello ∷ []);
}

abbrev world : World
world = record {
  tables = tables;
  tools = record { to_lowercase = λ s. s; regex = λ p c s. false };
  schedules = schedules;
  out = record {
    from_str = λ s. none;
    to_string = λ v. "";
    concat = λ ts. unwrap_or (head? ts) "";
    send_batch = λ platform user items. none;
  };
  query_failure = none;
  claim_failure = none;
  update_failure = none;
  fresh_id = "id1";
  iso = "now";
  now = 5;
}

abbrev input : MessageEvalInput
input = record {
  platform = "line";
  content = "hi";
  message_type = "text";
  conversation_id = "c1";
  team_id = some 7;
  customer_id = 9;
  platform_user_id = "u1";
  platform_message_id = some "m1";
  reply_token = some "token";
}

abbrev start : ReplyState
start = record { cache = []; ledger = []; hub = new config; writes = [] }

-- At equal priority the rule of the team comes first.
abbrev rules : List CachedRule
rules = rule_of (row 2 (some 7)) [] (hello ∷ []) ∷ rule_of (row 1 none) [] (hello ∷ []) ∷ []

team_first : (evaluate_message world input start).0.rule_id ≡ some 2
unfolding evaluate_message
team_first = refl

evaluate_message-Decides_example : Decides world input rules (evaluate_message world input start).0
unfolding applicable_rules
evaluate_message-Decides_example = evaluate_message-Decides world input start rules refl
