-- ===== src/AutoReply/Winner.antt =====
-- The rule that answers a message.
use support_center.Prelude.{
  ℕ, String, ◌≡◌, refl, ◌∙◌, ◌⊎◌, inl, inr, false, Option, none, some, List, ◌++◌, find?, All,
  nat_eq, string_eq, option_eq, pair_eq,
}
use mathlib.Core.Path.{subst}
use support_center.Auth.{Result, ok, err}
use support_center.Hub.{HubInner}
use support_center.AutoReply.{
  RuleTables, RuleCache, applicable_rules, with_general, rules_of, CachedRule, merge_rules,
}
use support_center.AutoReply.Ledger.{
  Reservation, reserved, is_pending, already_succeeded, reservation_error,
}
use support_center.AutoReply.Dispatch.{
  EvalResult, DeliveryUpdateOutcome, was_updated, is_missing, has_failed,
  apply_delivery_update_outcome, dispatch, dispatch_built, build_actions, after_batch,
  DispatchContext, Outside,
}
use support_center.AutoReply.Evaluate.{
  World, MessageEvalInput, ReplyState, is_eligible, send_reply, settle_delivery, after_reservation,
  reply_once, reply_with, evaluate_rules, evaluate_message, context_of,
}
use support_center.AutoReply.Order.{
  IsSorted, sort_rules-IsSorted, IsAmong, each-IsAmong, Wins, first_lem, none_lem,
}

ok-IsSorted : Result String (List CachedRule) → Type 0
ok-IsSorted (err e) = Unit {0}
ok-IsSorted (ok rules) = IsSorted rules

merge_rules-IsSorted :
    (general : List CachedRule) (team_rules : Result String (List CachedRule))
    → ok-IsSorted (merge_rules general team_rules)
unfolding merge_rules ok-IsSorted
merge_rules-IsSorted general (err e) = tt
merge_rules-IsSorted general (ok team_rules) = sort_rules-IsSorted (general ++ team_rules)

with_general-IsSorted :
    (r : Result String (List CachedRule)) (tables : RuleTables) (team : Option ℕ) (now : ℕ)
    (cache : RuleCache)
    → ok-IsSorted (with_general r tables team now cache).0
unfolding with_general ok-IsSorted
with_general-IsSorted (err e) tables team now cache = tt
with_general-IsSorted (ok general) tables none now cache = sort_rules-IsSorted general
with_general-IsSorted (ok general) tables (some team) now cache =
    merge_rules-IsSorted general (rules_of tables (some team) now cache).0

after_batch-rule_id :
    (failure : Option String) (rule : CachedRule) (ctx : DispatchContext) (summary id now : String)
    (hub : HubInner)
    → (after_batch failure rule ctx summary id now hub).0.rule_id ≡ some rule.id
unfolding after_batch
after_batch-rule_id none rule ctx summary id now hub = refl
after_batch-rule_id (some e) rule ctx summary id now hub = refl

dispatch_built-rule_id :
    (built : Result String (List String × String)) (out : Outside) (rule : CachedRule)
    (ctx : DispatchContext) (id now : String) (hub : HubInner)
    → (dispatch_built built out rule ctx id now hub).0.rule_id ≡ some rule.id
unfolding dispatch_built
dispatch_built-rule_id (err e) out rule ctx id now hub = refl
dispatch_built-rule_id (ok (items, summary)) out rule ctx id now hub =
    after_batch-rule_id (out.send_batch ctx.platform ctx.platform_user_id items) rule ctx summary id
      now hub

apply-rule_id :
    (join : List String → String) (r : EvalResult) (o : DeliveryUpdateOutcome)
    → (apply_delivery_update_outcome join r o).rule_id ≡ r.rule_id
unfolding apply_delivery_update_outcome
apply-rule_id join r was_updated = refl
apply-rule_id join r is_missing = refl
apply-rule_id join r (has_failed e) = refl

module _ (w : World) (input : MessageEvalInput) (rule : CachedRule) where
  send_reply-rule_id :
      (s : ReplyState) → (send_reply w rule (context_of input rule) s).0.rule_id ≡ some rule.id
  unfolding send_reply dispatch
  send_reply-rule_id s =
      dispatch_built-rule_id (build_actions w.out rule) w.out rule (context_of input rule)
        w.fresh_id w.iso s.hub

  after_reservation-rule_id :
      (r : Reservation) (mid : String) (s : ReplyState)
      → (after_reservation r w input rule mid s).0.rule_id ≡ some rule.id
  unfolding after_reservation settle_delivery
  after_reservation-rule_id reserved mid s = apply-rule_id w.out.concat _ _ ∙ send_reply-rule_id s
  after_reservation-rule_id is_pending mid s = refl
  after_reservation-rule_id already_succeeded mid s = refl
  after_reservation-rule_id (reservation_error e) mid s = refl

  reply_once-rule_id :
      (id : Option String) (s : ReplyState)
      → (reply_once id w input rule s).0.rule_id ≡ some rule.id
  unfolding reply_once
  reply_once-rule_id none s = send_reply-rule_id s
  reply_once-rule_id (some mid) s = after_reservation-rule_id _ mid _

-- What an evaluation says of the rules: none is eligible, or the rule that it names wins.
abbrev pub Decides : World → MessageEvalInput → List CachedRule → EvalResult → Type 0
Decides w input rules result =
    ((result.rule_id ≡ none) × All (λ r. is_eligible w.tools w.schedules input r ≡ false) rules)
    ⊎ ((rule : CachedRule) × (result.rule_id ≡ some rule.id)
        × Wins (is_eligible w.tools w.schedules input) (λ r. IsAmong r rules) rules rule)

reply_with-Decides :
    (o : Option CachedRule) (w : World) (input : MessageEvalInput) (rules : List CachedRule)
    (s : ReplyState)
    → IsSorted rules
    → find? (is_eligible w.tools w.schedules input) rules ≡ o
    → Decides w input rules (reply_with o w input s).0
unfolding reply_with
reply_with-Decides none w input rules s h e =
    inl (refl, none_lem (is_eligible w.tools w.schedules input) (λ r. IsAmong r rules) rules e)
reply_with-Decides (some rule) w input rules s h e = inr (
  rule,
  reply_once-rule_id w input rule input.platform_message_id s,
  first_lem (is_eligible w.tools w.schedules input) (λ r. IsAmong r rules) rules rule h
      (each-IsAmong rules) e,
)

-- When the rules that apply to a message are loaded, the evaluation names no rule and none is eligible,
-- or it names an eligible one of them such that no eligible one has a smaller priority, nor an equal
-- priority and a team where it has none: whatever the ledger answers and the delivery returns.
pub evaluate_message-Decides :
    (w : World) (input : MessageEvalInput) (s : ReplyState) (rules : List CachedRule)
    → (applicable_rules w.tables input.team_id w.now s.cache).0 ≡ ok rules
    → Decides w input rules (evaluate_message w input s).0
unfolding evaluate_message evaluate_rules applicable_rules ok-IsSorted
evaluate_message-Decides w input s rules e =
    let sorted =
      with_general-IsSorted (rules_of w.tables none w.now s.cache).0 w.tables input.team_id w.now
        (rules_of w.tables none w.now s.cache).1 in
    rw e (reply_with-Decides _ w input rules _ (subst (λ r. ok-IsSorted r) e sorted) refl)
