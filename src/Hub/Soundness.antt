-- ===== src/Hub/Soundness.antt =====
-- The ceilings on connections, and that a connected account is online, through every run.
use support_center.Prelude.{
  String, ◌≡◌, refl, inl, inr, Bool, true, false, not, ◌&&◌, Option, none, some, List, [], ◌∷◌,
  arith, leb, Bool-cases, Option-cases, unwrap_or, length, nat_eq, string_eq, option_eq, pair_eq,
}
use support_center.HashMap.{HashMap, get, insert, entry, contains_key}
use support_center.Json.{Value}
use support_center.Hub.{
  HubInner, ConnEntry, ConnIdentity, GatewayConfig, UserState, default_user, wrapping_add,
  default_room, default_preferences, elem, max_subscriptions_per_user, broadcasts_enabled,
}
use support_center.Hub.Owners.{owners, owners-modify, owners-send_where, owners-send_to}
use support_center.Hub.Connections.{register, presence, ceiling}
use support_center.Hub.Closing.{unregister, touch, room_of}
use support_center.Hub.FanOut.{
  fan_out, to_conversation_raw, to_conversation_message, to_conversation, to_connection, next_seq,
  audience, record_message,
}
use support_center.Hub.Rooms.{ensure_room, create_challenge, consume_challenge}
use support_center.Hub.Users.{
  subscribe, unsubscribe, note_message_sent, note_messages_received, hydrate_user, heartbeat,
  merge_preferences, cache_access, invalidate_access, update_user, merge_values, follow, unfollow,
}
use support_center.Hub.Step.{
  Event, vanishes, registers, unregisters, removes, touches, reports, fans, mirrors, posts, answers,
  counts, opens, challenges, consumes, subscribes, unsubscribes, sends, receives, hydrates, beats,
  prefers, allows, reassigns, configures, step, run, new,
}
use support_center.Hub.Sound.{
  is_online, Sound, GoodHub, Sound-of, Good-users, Good-moved, update-Stays, online_entry,
}
use support_center.Hub.Arrival.{admit-Good}
use support_center.Hub.Departing.{close-Good, remove_connection-Good, touch_room-Good}

presence-Good :
    (who : ConnIdentity) (status iso : String) (h : HubInner)
    → GoodHub h
    → GoodHub (presence who status iso h)
unfolding presence
presence-Good who status iso h v = elim (Bool-cases (broadcasts_enabled h)) [
  | inl e ↦ rw e (Good-moved (owners h.conns) _ h.users (owners-send_where _ _ h.conns) v)
  | inr e ↦ rw e v
]

fan_out-Good :
    (p : ConnEntry → Bool) (event : String) (payload : Value) (iso : String) (h : HubInner)
    → GoodHub h
    → GoodHub (fan_out p event payload iso h).1
unfolding fan_out
fan_out-Good p event payload iso h v = elim (Bool-cases (broadcasts_enabled h)) [
  | inl e ↦ rw e (Good-moved (owners h.conns) _ h.users (owners-send_where p _ h.conns) v)
  | inr e ↦ rw e v
]

to_conversation_raw-Good :
    (cid text : String) (h : HubInner) → GoodHub h → GoodHub (to_conversation_raw cid text h).1
unfolding to_conversation_raw
to_conversation_raw-Good cid text h v = elim (Bool-cases (broadcasts_enabled h)) [
  | inl e ↦ rw e (Good-moved (owners h.conns) _ h.users (owners-send_where _ _ h.conns) v)
  | inr e ↦ rw e v
]

to_conversation-Good :
    (cid event : String) (payload : Value) (iso : String) (h : HubInner)
    → GoodHub h
    → GoodHub (to_conversation cid event payload iso h).1
unfolding to_conversation
to_conversation-Good cid event payload iso h v = elim (Bool-cases (broadcasts_enabled h)) [
  | inl e ↦
      rw e (Good-moved (owners h.conns) _ h.users (owners-send_where (audience cid h) _ h.conns) v)
  | inr e ↦ rw e v
]

update_user-Good :
    (change : UserState → UserState) (uid : String) (h : HubInner)
    → ((u : UserState) → u.online ≡ true → (change u).online ≡ true)
    → GoodHub h
    → GoodHub (update_user change uid h)
unfolding update_user
update_user-Good change uid h keeps v =
    Good-users (owners h.conns) h.users _
      (update-Stays h.users uid (change (entry h.users uid default_user))
        (λ e. keeps (entry h.users uid default_user) (online_entry h.users uid e)))
      v

subscribe-Good : (uid cid : String) (h : HubInner) → GoodHub h → GoodHub (subscribe uid cid h).1
unfolding subscribe follow
subscribe-Good uid cid h v =
    elim (Bool-cases (
      not (elem cid (entry h.users uid default_user).subscriptions)
      && leb max_subscriptions_per_user (length (entry h.users uid default_user).subscriptions))) [
        | inl e ↦ rw e (update_user-Good (λ u. u) uid h (λ u o. o) v)
        | inr e ↦ rw e (update_user-Good (follow cid) uid h (λ u o. o) v)
      ]

not_online :
    (users : HashMap String UserState) (uid : String)
    → get users uid ≡ none
    → ¬ (is_online users uid ≡ true)
unfolding is_online
not_online users uid e o = cc

hydrate_user-Good :
    (uid : String) (last_seen : Option String) (subscriptions : List String)
    (preferences stats : Option Value) (h : HubInner)
    → GoodHub h
    → GoodHub (hydrate_user uid last_seen subscriptions preferences stats h)
unfolding hydrate_user contains_key
hydrate_user-Good uid last_seen subscriptions preferences stats h v =
    elim (Option-cases (get h.users uid)) [
      | inl e ↦ rw e (
          Good-users (owners h.conns) h.users _
            (update-Stays h.users uid _ (λ o. absurd (not_online h.users uid e o))) v)
      | inr (u, e) ↦ rw e v
    ]

step-Good : (h : HubInner) (e : Event) → GoodHub h → GoodHub (step h e)
unfolding step register unregister touch to_conversation_message to_connection next_seq ensure_room
    create_challenge consume_challenge unsubscribe note_message_sent note_messages_received
    heartbeat merge_preferences cache_access invalidate_access unfollow
step-Good h (vanishes id) v =
    Good-moved (owners h.conns) _ h.users
      (owners-modify (λ c. record c { is_open = false }) (λ c. refl) h.conns id) v
step-Good h (registers who cid device id now iso) v =
    admit-Good (ceiling who.user_id cid h.conns) who cid device id now iso h refl v
step-Good h (unregisters id iso) v = close-Good (get h.conns id) id iso h v
step-Good h (removes id caller is_admin iso) v = remove_connection-Good id caller is_admin iso h v
step-Good h (touches id now iso) v = touch_room-Good (room_of (get h.conns id)) iso _ (
    Good-moved (owners h.conns) _ h.users
      (owners-modify (λ c. record c { last_activity = now }) (λ c. refl) h.conns id) v)
step-Good h (reports who status iso) v = presence-Good who status iso h v
step-Good h (fans p event payload iso) v = fan_out-Good p event payload iso h v
step-Good h (mirrors cid text) v = to_conversation_raw-Good cid text h v
step-Good h (posts cid event payload now iso) v =
    to_conversation-Good cid event payload iso
      (record h {
        rooms =
            insert h.rooms cid
              (record_message payload iso (entry h.rooms cid (default_room now iso)));
      })
      v
step-Good h (answers id f) v = Good-moved (owners h.conns) _ h.users (owners-send_to id f h.conns) v
step-Good h (counts cid now iso) v = v
step-Good h (opens cid mode now iso) v = v
step-Good h (challenges cid user role name token token_exp id now iso) v = v
step-Good h (consumes cid id now) v = v
step-Good h (subscribes uid cid) v = subscribe-Good uid cid h v
step-Good h (unsubscribes uid cid) v = update_user-Good (unfollow cid) uid h (λ u o. o) v
step-Good h (sends uid) v =
    update_user-Good (λ u. record u { messages_sent = wrapping_add u.messages_sent 1 }) uid h
      (λ u o. o) v
step-Good h (receives uid count) v =
    update_user-Good (λ u. record u { messages_received = wrapping_add u.messages_received count })
      uid h (λ u o. o) v
step-Good h (hydrates uid last_seen subscriptions preferences stats) v =
    hydrate_user-Good uid last_seen subscriptions preferences stats h v
step-Good h (beats uid iso) v =
    update_user-Good (λ u. record u { online = true; last_seen = some iso }) uid h (λ u o. refl) v
step-Good h (prefers uid patch) v =
    update_user-Good
      (λ w. record w {
        preferences = some (
            merge_values
              (unwrap_or (entry h.users uid default_user).preferences default_preferences) patch);
      })
      uid h (λ u o. o) v
step-Good h (allows uid cid allowed now) v = v
step-Good h (reassigns cid) v = v
step-Good h (configures config) v = v

run-Good : (h : HubInner) (es : List Event) → GoodHub h → GoodHub (run h es)
unfolding run
run-Good h [] v = v
run-Good h (e ∷ es) v = run-Good (step h e) es (step-Good h e v)

new-Good : (config : GatewayConfig) → GoodHub (new config)
unfolding owners
new-Good config = record {
  per_user = λ uid. omega arith;
  per_room = λ cid. omega arith;
  overall = omega arith;
  online = tt;
}

-- After any sequence of calls on a new hub an account has at most 5 connections, a room at most 100
-- and the hub at most 10,000, and the account of every connection has a state in memory that says
-- that it is online.
pub run-Sound : (config : GatewayConfig) (es : List Event) → Sound (run (new config) es)
run-Sound config es = Sound-of (run (new config) es) (run-Good (new config) es (new-Good config))
