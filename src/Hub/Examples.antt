-- ===== src/Hub/Examples.antt =====
-- A small hub, and the laws of the hub on it.
use support_center.Prelude.{
  ◌+◌, ◌≤◌, max, String, ◌≡◌, refl, ◌≢◌, true, false, none, some, List, [], ◌∷◌, ◌++◌, arith, ltb,
  if◌then◌else◌, retain, nat_eq, string_eq, option_eq, pair_eq, ◌==◌, ==_iff,
}
use support_center.HashMap.{get, entry, contains_key}
use support_center.Json.{Value, object, str, end}
use support_center.Hub.{
  HubInner, ConnEntry, ConnIdentity, GatewayConfig, challenge_ttl, default_room,
  max_subscriptions_per_user,
}
use support_center.Hub.Closing.{unregister, remove_connection}
use support_center.Hub.FanOut.{sync_since, is_missed, to_conversation_message}
use support_center.Hub.Rooms.{create_challenge, consume_challenge}
use support_center.Hub.Users.{subscribe, is_subscribed, subscription_count, has_user_state}
use support_center.Hub.Step.{Event, registers, unregisters, subscribes, beats, run, new}
use support_center.Hub.Sound.{Sound}
use support_center.Hub.Soundness.{run-Sound}
use support_center.Hub.Departure.{is_connected, unregister_evicts, remove_connection_denied}
use support_center.Hub.Subscriptions.{subscribe_accepted}
use support_center.Hub.History.{newest, sync_since-to_conversation_message}
use support_center.Hub.Challenges.{consume_challenge-create_challenge, consume_challenge_once}

abbrev pub config : GatewayConfig
config = record {
  enabled = true;
  strategy = "immediate";
  rollout_percentage = 100;
  feature_flags = end;
}

abbrev ann : ConnIdentity
ann = record {
  user_id = "ann";
  email = "ann@example.com";
  display_name = "Ann";
  role = "agent";
  team_ids = 7 ∷ [];
}

abbrev room : String
room = "room"

abbrev day : List Event
day =
    registers ann none none "c1" 1 "t1"
    ∷ subscribes "ann" "room"
    ∷ beats "ann" "t2"
    ∷ unregisters "c1" "t3"
    ∷ []

run-Sound_example : Sound (run (new config) day)
run-Sound_example = run-Sound config day

-- Ann is connected once.
abbrev entry_of_ann : ConnEntry
entry_of_ann = record {
  id = "c1";
  identity = ann;
  conversation_id = none;
  device_id = none;
  connected_at = "t1";
  last_activity = 1;
  inbox = [];
  is_open = true;
}

abbrev hub : HubInner
hub = record (new config) { conns = ("c1", entry_of_ann) ∷ [] }

ann_connected : get hub.conns "c1" ≡ some entry_of_ann
unfolding get
ann_connected = refl

ann_left : is_connected "ann" (unregister "c1" "t2" hub).1 ≡ false
unfolding is_connected unregister get
ann_left = refl

unregister_evicts_example : has_user_state "ann" (unregister "c1" "t2" hub).1 ≡ false
unregister_evicts_example = unregister_evicts "c1" "t2" hub entry_of_ann ann_connected ann_left

other_account : entry_of_ann.identity.user_id ≢ "bob"
other_account e = ground (arith, ==_iff entry_of_ann.identity.user_id "bob")

remove_connection_denied_example :
    contains_key (remove_connection "c1" "bob" false "t2" hub).1.conns "c1" ≡ true
remove_connection_denied_example =
    remove_connection_denied "c1" "c1" "bob" "t2" hub entry_of_ann ann_connected other_account

first_subscription : (subscribe "ann" "room" hub).0 ≡ some 1
unfolding subscribe entry get
first_subscription = refl

subscribe_accepted_example :
    (is_subscribed "ann" "room" (subscribe "ann" "room" hub).1 ≡ true)
    × (subscription_count "ann" (subscribe "ann" "room" hub).1 ≡ 1)
    × (1 ≤ max max_subscriptions_per_user (subscription_count "ann" hub))
subscribe_accepted_example = subscribe_accepted "ann" "room" hub 1 first_subscription

abbrev greeting : Value
greeting = object (("timestamp", str "2026-01-01T10:00:00.000Z") ∷ [])

full_mode : (entry hub.rooms "room" (default_room 5 "t5")).mode == "simplified" ≡ false
unfolding entry get
full_mode = refl

sync_since-to_conversation_message_example :
    sync_since "room"
      (some "2026-01-01T09:00:00.000Z")
      (to_conversation_message "room" "message" greeting 5 "t5" hub).1
    ≡ (
      retain
          (is_missed "2026-01-01T09:00:00.000Z")
          (newest ((entry hub.rooms "room" (default_room 5 "t5")).history ++ greeting ∷ [])),
      some "t5",
    )
sync_since-to_conversation_message_example =
    sync_since-to_conversation_message "room" "message" greeting 5 "t5" "2026-01-01T09:00:00.000Z"
      hub full_mode

consume_challenge-create_challenge_example :
    (consume_challenge "room" "ch" 20
      (create_challenge "room" "ann" "agent" "Ann" "token" 99 "ch" 10 "t" hub)).0
    ≡ (if ltb 20 (10 + challenge_ttl)
        then some (record {
          user_id = "ann";
          role = "agent";
          display_name = "Ann";
          token = "token";
          token_exp = 99;
          expires = 10 + challenge_ttl;
        })
        else none)
consume_challenge-create_challenge_example =
    consume_challenge-create_challenge "room" "ann" "agent" "Ann" "token" 99 "ch" 10 "t" hub 20

consume_challenge_once_example :
    (consume_challenge "room" "ch" 21 (consume_challenge "room" "ch" 20 hub).1).0 ≡ none
consume_challenge_once_example = consume_challenge_once "room" "ch" 20 21 hub
