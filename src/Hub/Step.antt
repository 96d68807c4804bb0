-- ===== src/Hub/Step.antt =====
-- The hub as a state machine: the calls that change its state, in any order.
use support_center.Prelude.{
  ℕ, String, Bool, false, Option, List, [], ◌∷◌, nat_eq, string_eq, option_eq, pair_eq,
}
use support_center.HashMap.{modify}
use support_center.Json.{Value}
use support_center.Hub.{HubInner, ConnEntry, ConnIdentity, GatewayConfig, Frame}
use support_center.Hub.Connections.{register, presence}
use support_center.Hub.Closing.{unregister, remove_connection, touch}
use support_center.Hub.FanOut.{
  fan_out, to_conversation_raw, to_conversation_message, to_connection, next_seq,
}
use support_center.Hub.Rooms.{ensure_room, create_challenge, consume_challenge}
use support_center.Hub.Users.{
  subscribe, unsubscribe, note_message_sent, note_messages_received, hydrate_user, heartbeat,
  merge_preferences, cache_access, invalidate_access,
}

-- `vanishes` is a peer whose receiver is dropped: sends to it fail from then on.
pub data Event : Type 0 where
  vanishes : String → Event
  registers : ConnIdentity → Option String → Option String → String → ℕ → String → Event
  unregisters : String → String → Event
  removes : String → String → Bool → String → Event
  touches : String → ℕ → String → Event
  reports : ConnIdentity → String → String → Event
  fans : (ConnEntry → Bool) → String → Value → String → Event
  mirrors : String → String → Event
  posts : String → String → Value → ℕ → String → Event
  answers : String → Frame → Event
  counts : String → ℕ → String → Event
  opens : String → Option String → ℕ → String → Event
  challenges : String → String → String → String → String → ℕ → String → ℕ → String → Event
  consumes : String → String → ℕ → Event
  subscribes unsubscribes : String → String → Event
  sends : String → Event
  receives : String → ℕ → Event
  hydrates : String → Option String → List String → Option Value → Option Value → Event
  beats : String → String → Event
  prefers : String → Value → Event
  allows : String → String → Bool → ℕ → Event
  reassigns : String → Event
  configures : GatewayConfig → Event

unfoldable pub step : HubInner → Event → HubInner
step h (vanishes id) = record h { conns = modify (λ c. record c { is_open = false }) h.conns id }
step h (registers who cid device id now iso) = (register who cid device id now iso h).1
step h (unregisters id iso) = (unregister id iso h).1
step h (removes id caller is_admin iso) = (remove_connection id caller is_admin iso h).1
step h (touches id now iso) = touch id now iso h
step h (reports who status iso) = presence who status iso h
step h (fans p event payload iso) = (fan_out p event payload iso h).1
step h (mirrors cid text) = (to_conversation_raw cid text h).1
step h (posts cid event payload now iso) = (to_conversation_message cid event payload now iso h).1
step h (answers id f) = (to_connection id f h).1
step h (counts cid now iso) = (next_seq cid now iso h).1
step h (opens cid mode now iso) = (ensure_room cid mode now iso h).1
step h (challenges cid user role name token token_exp id now iso) =
    create_challenge cid user role name token token_exp id now iso h
step h (consumes cid id now) = (consume_challenge cid id now h).1
step h (subscribes uid cid) = (subscribe uid cid h).1
step h (unsubscribes uid cid) = (unsubscribe uid cid h).1
step h (sends uid) = note_message_sent uid h
step h (receives uid count) = note_messages_received uid count h
step h (hydrates uid last_seen subscriptions preferences stats) =
    hydrate_user uid last_seen subscriptions preferences stats h
step h (beats uid iso) = (heartbeat uid iso h).1
step h (prefers uid patch) = (merge_preferences uid patch h).1
step h (allows uid cid allowed now) = cache_access uid cid allowed now h
step h (reassigns cid) = invalidate_access cid h
step h (configures config) = record h { config = config }

unfoldable pub run : HubInner → List Event → HubInner
unfolding step
run h [] = h
run h (e ∷ es) = run (step h e) es

abbrev pub new : GatewayConfig → HubInner
new config = record {
  conns = [];
  rooms = [];
  users = [];
  access_cache = [];
  broadcasts_attempted = 0;
  broadcasts_delivered = 0;
  send_failures = 0;
  config = config;
}
