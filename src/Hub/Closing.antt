-- ===== src/Hub/Closing.antt =====
-- backend/src/realtime/hub.rs: unregister, remove_connection, touch and idle_connections.
use support_center.Prelude.{
  ℕ, ◌-◌, String, Bool, false, ◌&&◌, ◌||◌, Option, none, some, List, [], ◌∷◌, map, ltb,
  if◌then◌else◌, unwrap_or, length, retain, any, nat_eq, string_eq, option_eq, pair_eq, ◌==◌,
}
use support_center.HashMap.{get, remove, modify, values}
use support_center.Json.{Value, pos_int, str, arr, object, strings, str_or_null, bool}
use support_center.Hub.{
  HubInner, ConnEntry, ConnIdentity, UserState, framed, default_preferences, stats_json, send_where,
  in_room, of_user, idle_timeout,
}
use support_center.Hub.Connections.{PresenceTransition, presence_locked, participants}

pub record UnregisterOutcome : Type 0 where
  pub snapshot : Value
  pub presence_transition : PresenceTransition

unfoldable pub user_snapshot_json : String → UserState → ℕ → Value
user_snapshot_json uid u sessions = object (
    ("userId", str uid)
    ∷ ("online", bool u.online)
    ∷ ("lastSeen", str_or_null u.last_seen)
    ∷ ("sessionCount", pos_int sessions)
    ∷ ("subscriptions", arr (strings u.subscriptions))
    ∷ ("preferences", unwrap_or u.preferences default_preferences)
    ∷ ("stats", stats_json u)
    ∷ [])

-- `user_left`, once the user has no other connection in the room. The connection is gone already.
unfoldable pub leave_room : ConnEntry → String → Option String → HubInner → HubInner
unfolding participants send_where
leave_room c iso none h = h
leave_room c iso (some cid) h =
    if any (λ d. in_room cid d && of_user c.identity.user_id d) (values h.conns)
    then h
    else record h {
      conns =
          send_where (in_room cid)
            (framed "user_left"
              (object (
                ("userId", str c.identity.user_id)
                ∷ ("connectionId", str c.id)
                ∷ ("participantCount", pos_int (length (participants cid h.conns)))
                ∷ []))
              iso)
            h.conns;
    }

-- The user state goes with the last connection; its final snapshot is returned.
unfoldable pub go_offline : ConnIdentity → String → HubInner → Option UnregisterOutcome × HubInner
unfolding presence_locked remove get user_snapshot_json
go_offline who iso h = (
  elim (get h.users who.user_id) [
    | none ↦ none
    | some u ↦ some (record {
      snapshot =
          user_snapshot_json who.user_id (record u { online = false; last_seen = some iso }) 0;
      presence_transition = record { identity = who; status = "offline" };
    })
  ],
  presence_locked who "offline" iso (record h { users = remove h.users who.user_id }),
)

unfoldable pub depart : ConnEntry → String → HubInner → Option UnregisterOutcome × HubInner
unfolding leave_room go_offline
depart c iso h =
    let left = leave_room c iso c.conversation_id h in
    if any (of_user c.identity.user_id) (values left.conns)
    then (none, left)
    else go_offline c.identity iso left

unfoldable pub close :
    Option ConnEntry → String → String → HubInner → Option UnregisterOutcome × HubInner
unfolding depart remove
close none id iso h = (none, h)
close (some c) id iso h = depart c iso (record h { conns = remove h.conns id })

unfoldable pub unregister : String → String → HubInner → Option UnregisterOutcome × HubInner
unfolding close get
unregister id iso h = close (get h.conns id) id iso h

-- Between the look and the removal the lock is released; here nothing happens there.
unfoldable pub owned : Option ConnEntry → String → Bool → Bool
owned none caller is_admin = false
owned (some c) caller is_admin = is_admin || c.identity.user_id == caller

unfoldable pub remove_connection :
    String → String → Bool → String → HubInner → Option UnregisterOutcome × HubInner
unfolding unregister get owned
remove_connection id caller is_admin iso h =
    if owned (get h.conns id) caller is_admin then unregister id iso h else (none, h)

-- The room of the touched connection, if the connection is there and in one.
unfoldable pub room_of : Option ConnEntry → Option String
room_of none = none
room_of (some c) = c.conversation_id

unfoldable pub touch_room : Option String → String → HubInner → HubInner
unfolding modify
touch_room none iso h = h
touch_room (some cid) iso h = record h {
  rooms = modify (λ r. record r { last_activity = iso }) h.rooms cid;
}

unfoldable pub touch : String → ℕ → String → HubInner → HubInner
unfolding touch_room modify get room_of
touch id now iso h =
    touch_room (room_of (get h.conns id)) iso
      (record h { conns = modify (λ c. record c { last_activity = now }) h.conns id })

-- A clock that reads earlier than the last activity counts as no idle time.
unfoldable pub idle_connections : ℕ → HubInner → List String
idle_connections now h =
    map (λ c. c.id) (retain (λ c. ltb idle_timeout (now - c.last_activity)) (values h.conns))
