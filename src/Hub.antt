-- ===== src/Hub.antt =====
-- backend/src/realtime/hub.rs: the state of the realtime hub. Time is in nanoseconds, a stored time
-- text (`now_iso`) is an argument. A team id is only compared and stands as its 64 bits. A
-- connection's channel is the list of the frames that were sent to it; it is open until the receiver
-- is dropped. A frame stands for its serialized text.
pub mod Connections
pub mod Closing
pub mod FanOut
pub mod Rooms
pub mod Users
pub mod Owners
pub mod Step
pub mod Sound
pub mod Arrival
pub mod Departing
pub mod Soundness
pub mod Subscriptions
pub mod Departure
pub mod History
pub mod Challenges
pub mod Access
pub mod Examples
use support_center.Prelude.{
  ℕ, ◌+◌, ◌*◌, ◌%◌, ◌^◌, String, Bool, true, false, ◌&&◌, ◌||◌, Option, none, some, List, [], ◌∷◌,
  ◌++◌, if◌then◌else◌, unwrap_or, any, nat_eq, string_eq, option_eq, ◌==◌,
}
use support_center.HashMap.{HashMap, map_values, modify}
use support_center.Json.{Value, null, bool, pos_int, object, Fields, lookup_field}

abbrev pub max_connections_per_user : ℕ
max_connections_per_user = 5

abbrev pub max_connections_global : ℕ
max_connections_global = 10000

abbrev pub room_capacity : ℕ
room_capacity = 100

abbrev pub max_subscriptions_per_user : ℕ
max_subscriptions_per_user = 50

abbrev pub room_history_cap : ℕ
room_history_cap = 50

abbrev pub access_cache_ttl : ℕ
access_cache_ttl = 300 * 1000000000

abbrev pub idle_timeout : ℕ
idle_timeout = 300 * 1000000000

abbrev pub challenge_ttl : ℕ
challenge_ttl = 30 * 1000000000

pub record ConnIdentity : Type 0 where
  pub user_id : String
  pub email : String
  pub display_name : String
  pub role : String
  pub team_ids : List ℕ

-- An event frame, or one that was serialized elsewhere.
pub data Frame : Type 0 where
  framed : String → Value → String → Frame
  raw : String → Frame

pub record ConnEntry : Type 0 where
  pub id : String
  pub identity : ConnIdentity
  pub conversation_id : Option String
  pub device_id : Option String
  pub connected_at : String
  pub last_activity : ℕ
  pub inbox : List Frame
  pub is_open : Bool

pub record Challenge : Type 0 where
  pub user_id : String
  pub role : String
  pub display_name : String
  pub token : String
  pub token_exp : ℕ
  pub expires : ℕ

pub record RoomState : Type 0 where
  pub mode : String
  pub seq : ℕ
  pub history : List Value
  pub last_message_at : Option String
  pub last_activity : String
  pub created : ℕ
  pub challenges : HashMap String Challenge

abbrev pub default_room : ℕ → String → RoomState
default_room now iso = record {
  mode = "full";
  seq = 0;
  history = [];
  last_message_at = none;
  last_activity = iso;
  created = now;
  challenges = [];
}

-- `subscriptions` is a set: a list without repetitions.
pub record UserState : Type 0 where
  pub subscriptions : List String
  pub online : Bool
  pub last_seen : Option String
  pub total_sessions : ℕ
  pub messages_sent : ℕ
  pub messages_received : ℕ
  pub conversations_joined : ℕ
  pub preferences : Option Value

abbrev pub default_user : UserState
default_user = record {
  subscriptions = [];
  online = false;
  last_seen = none;
  total_sessions = 0;
  messages_sent = 0;
  messages_received = 0;
  conversations_joined = 0;
  preferences = none;
}

abbrev pub stats_json : UserState → Value
stats_json u = object (
    ("totalSessions", pos_int u.total_sessions)
    ∷ ("messagesSent", pos_int u.messages_sent)
    ∷ ("messagesReceived", pos_int u.messages_received)
    ∷ ("conversationsJoined", pos_int u.conversations_joined)
    ∷ [])

abbrev pub default_preferences : Value
default_preferences = object (
    (
      "notificationSettings",
      object (
          ("newMessage", bool true)
          ∷ ("messageRecall", bool true)
          ∷ ("conversationAssignment", bool true)
          ∷ ("systemNotifications", bool true)
          ∷ []),
    )
    ∷ [])

pub record GatewayConfig : Type 0 where
  pub enabled : Bool
  pub strategy : String
  pub rollout_percentage : ℕ
  pub feature_flags : Fields

pub record HubInner : Type 0 where
  pub conns : HashMap String ConnEntry
  pub rooms : HashMap String RoomState
  pub users : HashMap String UserState
  pub access_cache : HashMap (String × String) (ℕ × Bool)
  pub broadcasts_attempted : ℕ
  pub broadcasts_delivered : ℕ
  pub send_failures : ℕ
  pub config : GatewayConfig

abbrev pub as_bool : Value → Option Bool
as_bool (bool b) = some b
as_bool null = none
as_bool _ = none

unfoldable pub broadcasts_enabled : HubInner → Bool
broadcasts_enabled h =
    h.config.enabled && elim (lookup_field h.config.feature_flags "realtimeMessaging") [
      | none ↦ true
      | some v ↦ unwrap_or (as_bool v) true
    ]

abbrev pub wrapping_add : ℕ → ℕ → ℕ
wrapping_add a b = (a + b) % 2 ^ 64

-- `tx.send`: it fails once the receiver is gone.
unfoldable pub send : Frame → ConnEntry → ConnEntry
send f c = if c.is_open then record c { inbox = c.inbox ++ f ∷ [] } else c

unfoldable pub send_where :
    (ConnEntry → Bool) → Frame → HashMap String ConnEntry → HashMap String ConnEntry
unfolding send map_values
send_where p f conns = map_values (λ c. if p c then send f c else c) conns

unfoldable pub send_to : String → Frame → HashMap String ConnEntry → HashMap String ConnEntry
unfolding send modify
send_to id f conns = modify (send f) conns id

unfoldable pub elem : String → List String → Bool
elem x [] = false
elem x (y ∷ ys) = y == x || elem x ys

abbrev pub in_room : String → ConnEntry → Bool
in_room cid c = c.conversation_id == some cid

abbrev pub of_user : String → ConnEntry → Bool
of_user uid c = c.identity.user_id == uid

-- The distinct users of a list of connections, each where it first occurs.
unfoldable pub distinct_users : List String → List ConnEntry → List String
unfolding elem
distinct_users seen [] = []
distinct_users seen (c ∷ cs) =
    if elem c.identity.user_id seen
    then distinct_users seen cs
    else c.identity.user_id ∷ distinct_users (c.identity.user_id ∷ seen) cs

unfoldable pub shares_team : List ℕ → List ℕ → Bool
shares_team mine theirs = any (λ t. any (λ u. u == t) theirs) mine
