-- ===== src/Hub/FanOut.antt =====
-- backend/src/realtime/hub.rs: the broadcast operations. Each returns how many connections took the
-- frame.
use support_center.Prelude.{
  ℕ, zero, suc, String, Bool, true, false, not, ◌&&◌, ◌||◌, Option, none, some, List, [], ◌∷◌, ◌++◌,
  map, ltb, if◌then◌else◌, is_none, length, retain, count_if, any, nat_eq, string_eq, option_eq,
  pair_eq, ◌==◌,
}
use support_center.HashMap.{HashMap, get, insert, entry, values}
use support_center.Chars.{codes, text_lt}
use support_center.Json.{Value, str_at}
use support_center.Hub.{
  HubInner, ConnEntry, RoomState, UserState, Frame, framed, raw, default_room, wrapping_add,
  send_where, send_to, elem, of_user, shares_team, room_history_cap, broadcasts_enabled,
}

unfoldable pub delivered_to : (ConnEntry → Bool) → HubInner → ℕ
delivered_to p h = count_if (λ c. p c && c.is_open) (values h.conns)

unfoldable pub failed_to : (ConnEntry → Bool) → HubInner → ℕ
failed_to p h = count_if (λ c. p c && not c.is_open) (values h.conns)

unfoldable pub fan_out : (ConnEntry → Bool) → String → Value → String → HubInner → ℕ × HubInner
unfolding broadcasts_enabled send_where delivered_to failed_to
fan_out p event payload iso h =
    if broadcasts_enabled h
    then (
      delivered_to p h,
      record h {
        broadcasts_attempted = wrapping_add h.broadcasts_attempted 1;
        conns = send_where p (framed event payload iso) h.conns;
        broadcasts_delivered = wrapping_add h.broadcasts_delivered (delivered_to p h);
        send_failures = wrapping_add h.send_failures (failed_to p h);
      },
    )
    else (0, h)

-- The users whose personal channel follows a conversation.
unfoldable pub subscribed : String → HashMap String UserState → List String
unfolding elem
subscribed cid users = map (λ e. e.0) (retain (λ e. elem cid e.1.subscriptions) users)

-- Its room connections, and the personal channels that are subscribed to it.
unfoldable pub audience : String → HubInner → ConnEntry → Bool
unfolding subscribed elem
audience cid h c =
    c.conversation_id == some cid
    || (is_none c.conversation_id && elem c.identity.user_id (subscribed cid h.users))

unfoldable pub to_conversation : String → String → Value → String → HubInner → ℕ × HubInner
unfolding fan_out audience
to_conversation cid event payload iso h =
    if broadcasts_enabled h then fan_out (audience cid h) event payload iso h else (0, h)

-- No counter is kept of raw frames.
unfoldable pub to_conversation_raw : String → String → HubInner → ℕ × HubInner
unfolding audience send_where delivered_to broadcasts_enabled
to_conversation_raw cid text h =
    if broadcasts_enabled h
    then (
      delivered_to (audience cid h) h,
      record h { conns = send_where (audience cid h) (raw text) h.conns },
    )
    else (0, h)

unfoldable pub to_conversation_except_user :
    String → String → String → Value → String → HubInner → ℕ × HubInner
unfolding fan_out audience
to_conversation_except_user cid excluded event payload iso h =
    if broadcasts_enabled h
    then fan_out (λ c. not (c.identity.user_id == excluded) && audience cid h c) event payload iso h
    else (0, h)

-- `push_back`, then `pop_front` while the cap is exceeded; as much fuel as there are entries is
-- enough.
unfoldable pub pop_over : ℕ → List Value → List Value
pop_over zero history = history
pop_over (suc fuel) [] = []
pop_over (suc fuel) (v ∷ vs) =
    let popped = pop_over fuel vs in
    if ltb room_history_cap (length (v ∷ vs)) then popped else v ∷ vs

unfoldable pub record_message : Value → String → RoomState → RoomState
unfolding pop_over
record_message payload iso r = record r {
  last_message_at = some iso;
  last_activity = iso;
  history =
      if r.mode == "simplified"
      then r.history
      else pop_over (length (r.history ++ payload ∷ [])) (r.history ++ payload ∷ []);
}

unfoldable pub to_conversation_message :
    String → String → Value → ℕ → String → HubInner → ℕ × HubInner
unfolding record_message to_conversation insert entry
to_conversation_message cid event payload now iso h =
    to_conversation cid event payload iso (record h {
      rooms =
          insert h.rooms cid
            (record_message payload iso (entry h.rooms cid (default_room now iso)));
    })

unfoldable pub accepts : Option ConnEntry → Bool
accepts none = false
accepts (some c) = c.is_open

unfoldable pub to_connection : String → Frame → HubInner → Bool × HubInner
unfolding send_to get accepts
to_connection id f h = (accepts (get h.conns id), record h { conns = send_to id f h.conns })

unfoldable pub to_user : String → String → Value → String → HubInner → ℕ × HubInner
unfolding fan_out
to_user uid event payload iso h = fan_out (of_user uid) event payload iso h

unfoldable pub to_team : ℕ → String → Value → String → HubInner → ℕ × HubInner
unfolding fan_out
to_team team event payload iso h =
    fan_out (λ c. any (λ t. t == team) c.identity.team_ids) event payload iso h

unfoldable pub to_teams_and_admins : List ℕ → String → Value → String → HubInner → ℕ × HubInner
unfolding fan_out shares_team
to_teams_and_admins teams event payload iso h =
    fan_out (λ c. c.identity.role == "admin" || shares_team c.identity.team_ids teams) event payload
      iso h

unfoldable pub to_admins : String → Value → String → HubInner → ℕ × HubInner
unfolding fan_out
to_admins event payload iso h = fan_out (λ c. c.identity.role == "admin") event payload iso h

unfoldable pub global : String → Value → String → HubInner → ℕ × HubInner
unfolding fan_out
global event payload iso h = fan_out (λ c. true) event payload iso h

unfoldable pub global_role : String → String → Value → String → HubInner → ℕ × HubInner
unfolding fan_out
global_role role event payload iso h = fan_out (λ c. c.identity.role == role) event payload iso h

unfoldable pub next_seq : String → ℕ → String → HubInner → ℕ × HubInner
unfolding insert entry
next_seq cid now iso h =
    let room = entry h.rooms cid (default_room now iso) in
    let seq = wrapping_add room.seq 1 in
    (seq, record h { rooms = insert h.rooms cid (record room { seq = seq }) })

unfoldable pub relay_to_room_others :
    String → String → String → Value → String → HubInner → ℕ × HubInner
unfolding fan_out
relay_to_room_others cid sender event payload iso h =
    fan_out (λ c. c.conversation_id == some cid && not (c.id == sender)) event payload iso h

unfoldable pub is_missed : String → Value → Bool
unfolding text_lt
is_missed since v = elim (str_at v "timestamp") [
  | none ↦ false
  | some t ↦ text_lt (codes since) (codes t)
]

unfoldable pub missed_since : Option RoomState → Option String → List Value × Option String
unfolding is_missed
missed_since none since = ([], none)
missed_since (some r) none = ([], r.last_message_at)
missed_since (some r) (some since) = (retain (is_missed since) r.history, r.last_message_at)

unfoldable pub sync_since : String → Option String → HubInner → List Value × Option String
unfolding missed_since get
sync_since cid since h = missed_since (get h.rooms cid) since
