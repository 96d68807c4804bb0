-- ===== src/Hub/Rooms.antt =====
-- backend/src/realtime/hub/room_state.rs: rooms and their single-use challenges. The id of a new
-- challenge is an argument.
use support_center.Prelude.{
  ℕ, ◌+◌, ◌-◌, ◌/◌, String, Option, none, some, List, [], ◌∷◌, ltb, if◌then◌else◌, unwrap_or,
  length, retain, count_if, nat_eq, string_eq, option_eq, pair_eq, ◌==◌,
}
use support_center.HashMap.{HashMap, get, insert, remove, modify, entry, values}
use support_center.Json.{Value, null, bool, pos_int, str, arr, object, strings, str_at}
use support_center.Hub.{HubInner, RoomState, Challenge, default_room, in_room, challenge_ttl}
use support_center.Hub.Connections.{participants}
use support_center.Hub.FanOut.{fan_out}

abbrev pub new_room : Option String → ℕ → String → RoomState
new_room mode now iso =
    if mode == some "simplified"
    then record (default_room now iso) { mode = "simplified" }
    else default_room now iso

unfoldable pub ensure_room : String → Option String → ℕ → String → HubInner → String × HubInner
unfolding entry insert
ensure_room cid mode now iso h =
    let room = entry h.rooms cid (new_room mode now iso) in
    (room.mode, record h { rooms = insert h.rooms cid room })

abbrev pub mode_of : Option RoomState → String
mode_of none = "full"
mode_of (some r) = r.mode

unfoldable pub room_mode : String → HubInner → String
unfolding get
room_mode cid h = mode_of (get h.rooms cid)

unfoldable pub room_participants_locked : String → HubInner → List String × ℕ
unfolding participants
room_participants_locked cid h = (participants cid h.conns, count_if (in_room cid) (values h.conns))

abbrev pub last_activity_of : Option RoomState → Value
last_activity_of none = null
last_activity_of (some r) = str r.last_activity

unfoldable pub room_info : String → HubInner → Value
unfolding room_participants_locked get
room_info cid h =
    let present = room_participants_locked cid h in
    object (
      ("participants", arr (strings present.0))
      ∷ ("activeConnections", pos_int present.1)
      ∷ ("lastActivity", last_activity_of (get h.rooms cid))
      ∷ [])

abbrev pub seq_of : Option RoomState → ℕ
seq_of none = 0
seq_of (some r) = r.seq

abbrev pub history_length : Option RoomState → ℕ
history_length none = 0
history_length (some r) = length r.history

abbrev pub uptime_seconds : Option RoomState → ℕ → ℕ
uptime_seconds none now = 0
uptime_seconds (some r) now = (now - r.created) / 1000000000

unfoldable pub room_metrics_snapshot : String → ℕ → HubInner → Value
unfolding room_participants_locked get
room_metrics_snapshot cid now h =
    let present = room_participants_locked cid h in
    let room = get h.rooms cid in
    object (
      ("conversationId", str cid)
      ∷ ("mode", str (mode_of room))
      ∷ ("activeConnections", pos_int present.1)
      ∷ ("participantCount", pos_int (length present.0))
      ∷ ("messageSequence", pos_int (seq_of room))
      ∷ ("lastActivity", last_activity_of room)
      ∷ ("active", bool (ltb 0 present.1))
      ∷ (if mode_of room == "simplified"
          then []
          else ("historyLength", pos_int (history_length room))
            ∷ ("uptimeSeconds", pos_int (uptime_seconds room now))
            ∷ []))

unfoldable pub room_broadcast_raw : String → Value → String → HubInner → ℕ × HubInner
unfolding fan_out
room_broadcast_raw cid event iso h =
    fan_out (in_room cid) (unwrap_or (str_at event "type") "event") event iso h

-- Retaining by value.
unfoldable pub unexpired : ℕ → HashMap String Challenge → HashMap String Challenge
unexpired now cs = retain (λ e. ltb now e.1.expires) cs

unfoldable pub create_challenge :
    String → String → String → String → String → ℕ → String → ℕ → String → HubInner → HubInner
unfolding unexpired entry insert
create_challenge cid user_id role display_name token token_exp id now iso h =
    let room = entry h.rooms cid (default_room now iso) in
    let challenge : Challenge = record {
      user_id = user_id;
      role = role;
      display_name = display_name;
      token = token;
      token_exp = token_exp;
      expires = now + challenge_ttl;
    } in
    record h {
      rooms =
          insert h.rooms cid
            (record room { challenges = insert (unexpired now room.challenges) id challenge });
    }

unfoldable pub still_valid : ℕ → Option Challenge → Option Challenge
still_valid now none = none
still_valid now (some c) = if ltb now c.expires then some c else none

unfoldable pub find_challenge : Option RoomState → String → Option Challenge
unfolding get
find_challenge none id = none
find_challenge (some r) id = get r.challenges id

-- The challenge is removed whether or not it has expired.
unfoldable pub consume_challenge : String → String → ℕ → HubInner → Option Challenge × HubInner
unfolding find_challenge still_valid get modify remove
consume_challenge cid id now h = (
  still_valid now (find_challenge (get h.rooms cid) id),
  record h { rooms = modify (λ r. record r { challenges = remove r.challenges id }) h.rooms cid },
)
