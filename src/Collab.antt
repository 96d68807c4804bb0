-- ===== src/Collab.antt =====
-- backend/src/realtime/collaboration.rs: viewers of conversations, typing and presence. A conversation
-- id is a positive number. `iso` is a time text; a time text is ordered as a text.
pub mod Listing
pub mod Capacity
mod Examples
use support_center.Prelude.{
  ℕ, ◌+◌, ◌-◌, ◌*◌, String, Bool, true, false, Option, none, some, List, [], ◌∷◌, ltb, leb,
  if◌then◌else◌, length, retain, count_if, nat_eq, string_eq, ◌==◌,
}
use support_center.HashMap
use support_center.HashMap.{HashMap, values, map_values}
use support_center.Json.{Value}

abbrev pub viewer_cap : ℕ
viewer_cap = 50

abbrev pub typing_ttl : ℕ
typing_ttl = 5 * 1000000000

abbrev pub presence_ttl : ℕ
presence_ttl = 300 * 1000000000

abbrev pub top_active_cap : ℕ
top_active_cap = 5

-- `typing` is the expiry of the indicator and the time text of its start.
pub record Viewer : Type 0 where
  pub user_id : String
  pub username : String
  pub display_name : String
  pub role : String
  pub joined_at : String
  pub last_activity : String
  pub typing : Option (ℕ × String)

pub record Presence : Type 0 where
  pub status : String
  pub current_conversation : Option ℕ
  pub last_seen : String
  pub metadata : Value
  pub expires : ℕ

abbrev pub Room : Type 0
Room = HashMap String Viewer

pub record CollabState : Type 0 where
  pub rooms : HashMap ℕ Room
  pub presence : HashMap String Presence
  pub initialized : Bool

-- Who calls: the names that a new viewer gets.
pub record Caller : Type 0 where
  pub user_id : String
  pub username : String
  pub display_name : String
  pub role : String

abbrev pub new_viewer : Caller → String → Viewer
new_viewer who now = record {
  user_id = who.user_id;
  username = who.username;
  display_name = who.display_name;
  role = who.role;
  joined_at = now;
  last_activity = now;
  typing = none;
}

abbrev pub seen_at : String → Viewer → Viewer
seen_at now v = record v { last_activity = now }

-- False where the room is full. A viewer that is there is refreshed, also in a full room.
unfoldable pub join_room : Caller → String → Room → Bool × Room
unfolding HashMap.contains_key HashMap.modify HashMap.insert
join_room who now room =
    if HashMap.contains_key room who.user_id
    then (true, HashMap.modify (seen_at now) room who.user_id)
    else if leb viewer_cap (length room)
    then (false, room)
    else (true, HashMap.insert room who.user_id (new_viewer who now))

abbrev pub viewers_of : ℕ → CollabState → Room
viewers_of cid s = HashMap.entry s.rooms cid []

-- The room exists from then on, also where the caller was refused.
unfoldable pub join : ℕ → Caller → String → CollabState → Bool × CollabState
unfolding join_room HashMap.entry HashMap.insert
join cid who iso s =
    let r = join_room who iso (viewers_of cid s) in
    (r.0, record s { initialized = true; rooms = HashMap.insert s.rooms cid r.1 })

abbrev is_empty_room : Room → Bool
is_empty_room room = length room == 0

unfoldable pub left_room : ℕ → String → Option Room → HashMap ℕ Room → HashMap ℕ Room
unfolding HashMap.remove HashMap.insert
left_room cid user_id none rooms = rooms
left_room cid user_id (some room) rooms =
    let rest = HashMap.remove room user_id in
    if is_empty_room rest then HashMap.remove rooms cid else HashMap.insert rooms cid rest

unfoldable pub leave : ℕ → String → CollabState → CollabState
unfolding left_room HashMap.get
leave cid user_id s = record s {
  initialized = true;
  rooms = left_room cid user_id (HashMap.get s.rooms cid) s.rooms;
}

abbrev pub typing_at : Bool → ℕ → String → Viewer → Viewer
typing_at is_active now iso v = record v {
  last_activity = iso;
  typing = if is_active then some (now + typing_ttl, iso) else none;
}

-- A caller that is no viewer becomes one, whatever the capacity.
unfoldable pub set_typing : ℕ → Caller → Bool → ℕ → String → CollabState → CollabState
unfolding HashMap.entry HashMap.insert
set_typing cid who is_active now iso s =
    let room = viewers_of cid s in
    let viewer = HashMap.entry room who.user_id (new_viewer who iso) in
    record s {
      initialized = true;
      rooms =
          HashMap.insert s.rooms cid
            (HashMap.insert room who.user_id (typing_at is_active now iso viewer));
    }

unfoldable pub set_presence :
    String → String → Option ℕ → Value → ℕ → String → CollabState → CollabState
unfolding HashMap.insert
set_presence user_id status current_conversation metadata now iso s = record s {
  initialized = true;
  presence = HashMap.insert s.presence user_id (record {
    status = status;
    current_conversation = current_conversation;
    last_seen = iso;
    metadata = metadata;
    expires = now + presence_ttl;
  });
}

abbrev pub has_expired_typing : ℕ → Viewer → Bool
has_expired_typing now v = elim v.typing [ none ↦ false | some t ↦ leb t.0 now ]

abbrev pub cleaned : ℕ → Viewer → Viewer
cleaned now v = if has_expired_typing now v then record v { typing = none } else v

unfoldable pub expired_in : ℕ → HashMap ℕ Room → ℕ
expired_in now [] = 0
expired_in now ((cid, room) ∷ rooms) =
    count_if (has_expired_typing now) (values room) + expired_in now rooms

-- The two locks are taken one after the other; here no call comes between them.
unfoldable pub cleanup : ℕ → CollabState → ℕ × CollabState
unfolding expired_in map_values
cleanup now s =
    let kept_presence = retain (λ e. ltb now e.1.expires) s.presence in
    (
      expired_in now s.rooms + (length s.presence - length kept_presence),
      record s { rooms = map_values (map_values (cleaned now)) s.rooms; presence = kept_presence },
    )

-- The calls that change the state.
pub data Call : Type 0 where
  joins : ℕ → Caller → String → Call
  leaves : ℕ → String → Call
  types : ℕ → Caller → Bool → ℕ → String → Call
  sets_presence : String → String → Option ℕ → Value → ℕ → String → Call
  cleans : ℕ → Call

unfoldable pub after_call : Call → CollabState → CollabState
unfolding join leave set_typing set_presence cleanup
after_call (joins cid who iso) s = (join cid who iso s).1
after_call (leaves cid user_id) s = leave cid user_id s
after_call (types cid who is_active now iso) s = set_typing cid who is_active now iso s
after_call (sets_presence user status current metadata now iso) s =
    set_presence user status current metadata now iso s
after_call (cleans now) s = (cleanup now s).1

unfoldable pub after_calls : List Call → CollabState → CollabState
unfolding after_call
after_calls [] s = s
after_calls (c ∷ cs) s = after_calls cs (after_call c s)

abbrev pub no_rooms : CollabState
no_rooms = record { rooms = []; presence = []; initialized = false }
