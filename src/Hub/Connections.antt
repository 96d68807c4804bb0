-- ===== src/Hub/Connections.antt =====
-- backend/src/realtime/hub.rs: register and the presence events. The id of a new connection is an
-- argument.
use support_center.Prelude.{
  ℕ, String, Bool, true, not, ◌&&◌, ◌||◌, Option, none, some, List, [], ◌∷◌, leb, if◌then◌else◌,
  unwrap_or, length, retain, count_if, nat_eq, string_eq, option_eq, pair_eq, ◌==◌,
}
use support_center.HashMap.{HashMap, get, insert, entry, values}
use support_center.Json.{pos_int, str, arr, object, strings, str_or_null}
use support_center.Hub.{
  HubInner, ConnEntry, ConnIdentity, RoomState, UserState, Frame, framed, default_room,
  default_user, default_preferences, stats_json, wrapping_add, send, send_where, send_to, elem,
  in_room, of_user, distinct_users, shares_team, max_connections_per_user, max_connections_global,
  room_capacity, broadcasts_enabled,
}

pub record PresenceTransition : Type 0 where
  pub identity : ConnIdentity
  pub status : String

-- `Result<Registration, RegisterError>`.
pub data Registration : Type 0 where
  registered : String → Option PresenceTransition → Registration
  ceiling_reached : String → Registration

-- An administrator or a member of one of the teams, other than the account itself.
unfoldable pub hears : ConnIdentity → ConnEntry → Bool
unfolding shares_team
hears who c =
    (c.identity.role == "admin" || shares_team c.identity.team_ids who.team_ids)
    && not (c.identity.user_id == who.user_id)

unfoldable pub notify :
    ConnIdentity → Frame → List String → HashMap String ConnEntry → HashMap String ConnEntry
unfolding hears elem send
notify who f sent [] = []
notify who f sent ((k, c) ∷ rest) =
    let fresh = hears who c && not (elem c.id sent) in
    (k, if fresh then send f c else c) ∷ notify who f (if fresh then c.id ∷ sent else sent) rest

unfoldable pub presence_locked : ConnIdentity → String → String → HubInner → HubInner
unfolding notify
presence_locked who status iso h =
    let event = if status == "online" then "user_connected" else "user_disconnected" in
    record h {
      conns =
          notify who
            (framed event
              (object (
                ("userId", str who.user_id)
                ∷ ("userName", str who.display_name)
                ∷ ("status", str status)
                ∷ []))
              iso)
            [] h.conns;
    }

unfoldable pub presence : ConnIdentity → String → String → HubInner → HubInner
unfolding broadcasts_enabled send_where hears
presence who status iso h =
    if broadcasts_enabled h
    then record h {
      conns =
          send_where (hears who)
            (framed "presence_changed"
              (object (
                ("userId", str who.user_id)
                ∷ ("userName", str who.display_name)
                ∷ ("status", str status)
                ∷ []))
              iso)
            h.conns;
    }
    else h

-- The ceiling that a new connection would break, if any.
unfoldable pub ceiling : String → Option String → HashMap String ConnEntry → Option String
ceiling uid cid conns =
    if leb max_connections_per_user (count_if (of_user uid) (values conns))
    then some "per-user connection limit reached"
    else if leb max_connections_global (length conns)
    then some "global connection limit reached"
    else elim cid [
      | none ↦ none
      | some room ↦
          if leb room_capacity (count_if (in_room room) (values conns))
          then some "room connection limit reached"
          else none
    ]

unfoldable pub online_user : String → UserState → UserState
online_user iso u = record u {
  total_sessions = wrapping_add u.total_sessions 1;
  online = true;
  last_seen = some iso;
  preferences = some (unwrap_or u.preferences default_preferences);
}

unfoldable pub enter :
    ConnIdentity → Option String → Option String → String → ℕ → String → HubInner → HubInner
unfolding online_user insert entry
enter who cid device id now iso h = record h {
  conns = insert h.conns id (record {
    id = id;
    identity = who;
    conversation_id = cid;
    device_id = device;
    connected_at = iso;
    last_activity = now;
    inbox = [];
    is_open = true;
  });
  users = insert h.users who.user_id (online_user iso (entry h.users who.user_id default_user));
}

unfoldable pub participants : String → HashMap String ConnEntry → List String
unfolding distinct_users
participants cid conns = distinct_users [] (retain (in_room cid) (values conns))

-- The mode and the stored time that the welcome shows.
unfoldable pub room_view : Option RoomState → String × Option String
room_view none = ("full", none)
room_view (some r) = (r.mode, if r.mode == "simplified" then none else r.last_message_at)

-- The welcome, and for a room the news to everyone in it.
unfoldable pub greet : ConnIdentity → Option String → String → ℕ → String → HubInner → HubInner
unfolding participants room_view send_to send_where entry insert get
greet who none id now iso h =
    let u = entry h.users who.user_id default_user in
    record h {
      conns =
          send_to id
            (framed "user_connected"
              (object (
                ("userId", str who.user_id)
                ∷ ("connectionId", str id)
                ∷ ("subscriptions", arr (strings u.subscriptions))
                ∷ ("preferences", unwrap_or u.preferences default_preferences)
                ∷ ("stats", stats_json u)
                ∷ []))
              iso)
            h.conns;
    }
greet who (some cid) id now iso h =
    let rooms = insert h.rooms cid (entry h.rooms cid (default_room now iso)) in
    let present = participants cid h.conns in
    let view = room_view (get rooms cid) in
    let welcome =
      framed "connection_established"
        (object (
          ("conversationId", str cid)
          ∷ ("connectionId", str id)
          ∷ ("participants", arr (strings present))
          ∷ ("roomMode", str view.0)
          ∷ ("lastMessageAt", str_or_null view.1)
          ∷ []))
        iso in
    let joined =
      framed "user_joined"
        (object (
          ("userId", str who.user_id)
          ∷ ("connectionId", str id)
          ∷ ("role", str who.role)
          ∷ ("participantCount", pos_int (length present))
          ∷ []))
        iso in
    record h { rooms = rooms; conns = send_where (in_room cid) joined (send_to id welcome h.conns) }

unfoldable pub announce : Bool → ConnIdentity → String → HubInner → HubInner
unfolding presence_locked
announce first who iso h = if first then presence_locked who "online" iso h else h

unfoldable pub admit :
    Option String
    → ConnIdentity
    → Option String
    → Option String
    → String
    → ℕ
    → String
    → HubInner
    → Registration × HubInner
unfolding enter greet announce
admit (some reason) who cid device id now iso h = (ceiling_reached reason, h)
admit none who cid device id now iso h =
    let first = count_if (of_user who.user_id) (values h.conns) == 0 in
    (
      registered id (if first then some (record { identity = who; status = "online" }) else none),
      announce first who iso (greet who cid id now iso (enter who cid device id now iso h)),
    )

unfoldable pub register :
    ConnIdentity
    → Option String
    → Option String
    → String
    → ℕ
    → String
    → HubInner
    → Registration × HubInner
unfolding ceiling admit
register who cid device id now iso h =
    admit (ceiling who.user_id cid h.conns) who cid device id now iso h
