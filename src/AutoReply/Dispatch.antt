-- ===== src/AutoReply/Dispatch.antt =====
-- The dispatch of a rule. What it asks for and what it writes are values here; identifiers of rows are
-- not negative. A message that was stored also sets the time of its conversation.
use support_center.Prelude.{
  ℕ, String, Bool, true, false, Option, none, some, List, [], ◌∷◌, if◌then◌else◌, unwrap_or, nat_eq,
  string_eq, option_eq, pair_eq, ◌==◌,
}
use support_center.Json.{Value, null, str, bool, pos_int, object, member, as_str, str_at, and_then}
use support_center.Hub.{HubInner}
use support_center.Hub.FanOut.{to_conversation}
use support_center.Auth.{Result, ok, err}
use support_center.AutoReply.{CachedAction, CachedRule}

pub record EvalResult : Type 0 where
  pub matched : Bool
  pub rule_id : Option ℕ
  pub sent : Bool
  pub error : Option String

abbrev pub no_match : EvalResult
no_match = record { matched = false; rule_id = none; sent = false; error = none }

pub data DeliveryUpdateOutcome : Type 0 where
  was_updated is_missing : DeliveryUpdateOutcome
  has_failed : String → DeliveryUpdateOutcome

abbrev get_or_insert : Option String → String → Option String
get_or_insert none e = some e
get_or_insert (some e') e = some e'

-- An error that is there stays. `join` puts texts together.
unfoldable pub apply_delivery_update_outcome :
    (List String → String) → EvalResult → DeliveryUpdateOutcome → EvalResult
apply_delivery_update_outcome join result was_updated = result
apply_delivery_update_outcome join result is_missing = record result {
  error = get_or_insert result.error "auto-reply delivery ledger update affected no rows";
}
apply_delivery_update_outcome join result (has_failed e) = record result {
  error = get_or_insert result.error (join ("auto-reply delivery ledger update failed: " ∷ e ∷ []));
}

-- The libraries: parsing and printing of JSON, concatenation of texts, and the channel gateway, which
-- takes the texts of the items and says what failed.
pub record Outside : Type 0 where
  pub from_str : String → Option Value
  pub to_string : Value → String
  pub concat : List String → String
  pub send_batch : String → String → List String → Option String

abbrev or_null : Option Value → Value
or_null none = null
or_null (some v) = v

abbrev or_try {ℓ} : {A : Type ℓ} → Option A → Option A → Option A
or_try none b = b
or_try (some a) b = some a

unfoldable pub text_of : Outside → CachedAction → Result String String
text_of out action =
    let payload = or_null (out.from_str action.content) in
    if action.action_type == "text"
    then ok (unwrap_or (or_try (str_at payload "text") (as_str payload)) action.content)
    else if action.action_type == "image"
    then (let url =
          unwrap_or
            (and_then (or_try (member payload "imageUrl") (member payload "originalContentUrl"))
              as_str)
            "" in
        if url == ""
        then err "image action is missing an image URL"
        else ok (out.concat ("[Image] " ∷ url ∷ [])))
    else if action.action_type == "flex"
    then ok (unwrap_or (str_at payload "altText") "[Rich message]")
    else err (out.concat ("unsupported action type '" ∷ action.action_type ∷ "'" ∷ []))

abbrev after_text : Result String String → Result String (List String) → Result String (List String)
after_text (err e) rest = err e
after_text (ok t) (err e) = err e
after_text (ok t) (ok ts) = ok (t ∷ ts)

-- The texts of the actions, or the first error.
unfoldable pub texts_of : Outside → List CachedAction → Result String (List String)
unfolding text_of
texts_of out [] = ok []
texts_of out (action ∷ actions) = after_text (text_of out action) (texts_of out actions)

abbrev lines_of : List String → List String
lines_of [] = []
lines_of (t ∷ []) = t ∷ []
lines_of (t ∷ u ∷ ts) = t ∷ "\n" ∷ lines_of (u ∷ ts)

abbrev some_text : Outside → Result String (List String) → Result String (List String × String)
some_text out (err e) = err e
some_text out (ok []) = err "rule has no valid actions"
some_text out (ok (t ∷ ts)) = ok (t ∷ ts, out.concat (lines_of (t ∷ ts)))

unfoldable pub build_actions : Outside → CachedRule → Result String (List String × String)
unfolding texts_of
build_actions out rule = some_text out (texts_of out rule.actions)

pub record DispatchContext : Type 0 where
  pub platform : String
  pub conversation_id : String
  pub team_id : Option ℕ
  pub customer_id : ℕ
  pub platform_user_id : String
  pub reply_token : Option String
  pub trigger_content : String
  pub matched_condition : Value

-- What is written to the database after a send; each fails alone, and none changes the result.
pub data Write : Type 0 where
  stores_message : String → String → String → String → Value → Write
  logs_reply : ℕ → String → ℕ → String → String → Value → String → String → String → Write

abbrev pub reply_method : CachedRule → Option String → String
reply_method rule (some token) = "reply"
reply_method rule none = if rule.allow_fallback then "push" else "reply"

abbrev team_json : Option ℕ → Value
team_json none = null
team_json (some t) = pos_int t

unfoldable pub new_message_frame : DispatchContext → String → String → String → Value
new_message_frame ctx message_id summary now = object (
    ("conversationId", str ctx.conversation_id)
    ∷ (
      "message",
      object (
          ("id", str message_id)
          ∷ ("content", str summary)
          ∷ ("type", str "text")
          ∷ ("senderType", str "agent")
          ∷ ("senderName", str "Auto-Reply")
          ∷ ("autoReply", bool true)
          ∷ ("platform", str ctx.platform)
          ∷ ("timestamp", str now)
          ∷ ("deliveryStatus", str "delivered")
          ∷ []),
    )
    ∷ ("teamId", team_json ctx.team_id)
    ∷ [])

unfoldable pub after_batch :
    Option String
    → CachedRule
    → DispatchContext
    → String
    → String
    → String
    → HubInner
    → EvalResult × List Write × HubInner
unfolding new_message_frame to_conversation
after_batch (some e) rule ctx summary message_id now hub =
    (record { matched = true; rule_id = some rule.id; sent = false; error = some e }, [], hub)
after_batch none rule ctx summary message_id now hub = (
  record { matched = true; rule_id = some rule.id; sent = true; error = none },
  stores_message message_id ctx.conversation_id summary now (
        object (
          ("autoReply", bool true)
          ∷ ("ruleId", pos_int rule.id)
          ∷ ("platform", str ctx.platform)
          ∷ []))
      ∷ logs_reply rule.id ctx.conversation_id ctx.customer_id ctx.trigger_content summary
          ctx.matched_condition ctx.platform (reply_method rule ctx.reply_token) now
      ∷ [],
  (to_conversation ctx.conversation_id "new_message" (new_message_frame ctx message_id summary now)
      now hub).1,
)

unfoldable pub dispatch_built :
    Result String (List String × String)
    → Outside
    → CachedRule
    → DispatchContext
    → String
    → String
    → HubInner
    → EvalResult × List Write × HubInner
unfolding after_batch
dispatch_built (err e) out rule ctx message_id now hub =
    (record { matched = false; rule_id = some rule.id; sent = false; error = some e }, [], hub)
dispatch_built (ok (items, summary)) out rule ctx message_id now hub =
    after_batch (out.send_batch ctx.platform ctx.platform_user_id items) rule ctx summary message_id
      now hub

unfoldable pub dispatch :
    Outside
    → CachedRule
    → DispatchContext
    → String
    → String
    → HubInner
    → EvalResult × List Write × HubInner
unfolding dispatch_built build_actions
dispatch out rule ctx message_id now hub =
    dispatch_built (build_actions out rule) out rule ctx message_id now hub
