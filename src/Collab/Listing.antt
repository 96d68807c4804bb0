-- ===== src/Collab/Listing.antt =====
-- What is reported of viewers, typing and presence.
use support_center.Prelude.{
  ℕ, zero, suc, ◌+◌, ◌-◌, String, Bool, false, ◌&&◌, ◌||◌, Option, none, some, List, [], ◌∷◌, ltb,
  leb, if◌then◌else◌, length, count_if, nat_eq, string_eq, option_eq, pair_eq, ◌==◌,
}
use mathlib.Core.Option
use support_center.Chars.{codes, text_lt}
use support_center.HashMap
use support_center.HashMap.{HashMap, values}
use support_center.Json.{Value, Values, nil, cons, null, bool, str, pos_int, float, arr, object}
use support_center.Collab.{Viewer, Presence, Room, CollabState, viewers_of, top_active_cap}

-- The libraries for numbers, texts and dates: the bits of a text that is a finite number,
-- concatenation, and the text of a time in a number of nanoseconds.
pub record Formats : Type 0 where
  pub finite_number : String → Option ℕ
  pub concat : List String → String
  pub time_in : ℕ → String

abbrev nonempty_or : String → String → String
nonempty_or s other = if s == "" then other else s

abbrev is_typing : ℕ → Viewer → Bool
is_typing now v = elim v.typing [ none ↦ false | some t ↦ ltb now t.0 ]

-- A viewer whose identifier is no finite number is left out.
unfoldable pub viewer_json : Formats → ℕ → Viewer → Option Value
viewer_json formats now v =
    let username = nonempty_or v.username (formats.concat ("User " ∷ v.user_id ∷ [])) in
    Option.map
      (λ user_id. object (
        ("userId", float user_id)
        ∷ ("username", str username)
        ∷ ("displayName", str (nonempty_or v.display_name username))
        ∷ ("role", str (nonempty_or v.role "agent"))
        ∷ ("joinedAt", str v.joined_at)
        ∷ ("protocol", str "websocket")
        ∷ ("isTyping", bool (is_typing now v))
        ∷ ("lastActivity", str v.last_activity)
        ∷ []))
      (formats.finite_number v.user_id)

unfoldable pub typing_entry : Formats → ℕ → ℕ → Viewer → Option (ℕ × String) → Option Value
typing_entry formats cid now v none = none
typing_entry formats cid now v (some (expiry, started_at)) =
    if leb expiry now
    then none
    else some (
        object (
          ("userId", str v.user_id)
          ∷ ("username", str v.username)
          ∷ ("displayName", str v.display_name)
          ∷ ("conversationId", pos_int cid)
          ∷ ("startedAt", str started_at)
          ∷ ("expiresAt", str (formats.time_in (expiry - now)))
          ∷ []))

unfoldable pub typing_json : Formats → ℕ → ℕ → Viewer → Option Value
unfolding typing_entry
typing_json formats cid now v = typing_entry formats cid now v v.typing

abbrev or_skip : Option Value → List Value → List Value
or_skip none vs = vs
or_skip (some v) vs = v ∷ vs

-- `filter_map`.
unfoldable pub listed : (Viewer → Option Value) → List Viewer → List Value
listed f [] = []
listed f (v ∷ vs) = or_skip (f v) (listed f vs)

unfoldable pub viewers : Formats → ℕ → ℕ → CollabState → List Value
unfolding listed viewer_json HashMap.entry
viewers formats cid now s = listed (viewer_json formats now) (values (viewers_of cid s))

unfoldable pub typing_entries : Formats → ℕ → ℕ → CollabState → List Value
unfolding listed typing_json HashMap.entry
typing_entries formats cid now s = listed (typing_json formats cid now) (values (viewers_of cid s))

abbrev id_or_null : Option ℕ → Value
id_or_null none = null
id_or_null (some n) = pos_int n

unfoldable pub presence_json : String → ℕ → Option Presence → Option Value
presence_json user_id now none = none
presence_json user_id now (some p) =
    if ltb now p.expires
    then some (
        object (
          ("userId", str user_id)
          ∷ ("status", str p.status)
          ∷ ("currentConversation", id_or_null p.current_conversation)
          ∷ ("lastSeen", str p.last_seen)
          ∷ ("metadata", p.metadata)
          ∷ []))
    else none

unfoldable pub presence_snapshot : String → ℕ → CollabState → Option Value
unfolding presence_json HashMap.get
presence_snapshot user_id now s = presence_json user_id now (HashMap.get s.presence user_id)

unfoldable pub total_of : (Room → ℕ) → HashMap ℕ Room → ℕ
total_of size [] = 0
total_of size ((cid, room) ∷ rooms) = size room + total_of size rooms

-- More viewers first, and at equal numbers the smaller id.
unfoldable pub rank : ℕ × ℕ → List (ℕ × ℕ) → List (ℕ × ℕ)
rank e [] = e ∷ []
rank e (f ∷ ranked) =
    if ltb f.1 e.1 || e.1 == f.1 && leb e.0 f.0 then e ∷ f ∷ ranked else f ∷ rank e ranked

unfoldable pub ranked_rooms : HashMap ℕ Room → List (ℕ × ℕ)
unfolding rank
ranked_rooms [] = []
ranked_rooms ((cid, room) ∷ rooms) = rank (cid, length room) (ranked_rooms rooms)

abbrev first_json : ℕ → List (ℕ × ℕ) → Values
first_json zero ranked = nil
first_json (suc n) [] = nil
first_json (suc n) ((cid, count) ∷ ranked) =
    cons (object (("conversationId", pos_int cid) ∷ ("viewerCount", pos_int count) ∷ []))
      (first_json n ranked)

unfoldable pub collab_stats : ℕ → CollabState → Value
unfolding total_of ranked_rooms
collab_stats now s =
    let total_viewers = total_of length s.rooms in
    object (
      ("totalViewers", pos_int total_viewers)
      ∷ ("totalTyping", pos_int (total_of (λ room. count_if (is_typing now) (values room)) s.rooms))
      ∷ ("totalRooms", pos_int (length s.rooms))
      ∷ ("connectionsByProtocol", object (("websocket", pos_int total_viewers) ∷ []))
      ∷ ("mostActiveConversations", arr (first_json top_active_cap (ranked_rooms s.rooms)))
      ∷ [])

abbrev later_of : String → Option String → Option String
later_of s none = some s
later_of s (some t) = if text_lt (codes s) (codes t) then some t else some s

unfoldable pub latest_activity : List Viewer → Option String
unfolding text_lt
latest_activity [] = none
latest_activity (v ∷ vs) = later_of v.last_activity (latest_activity vs)

unfoldable pub room_last_activity : ℕ → CollabState → Option String
unfolding latest_activity HashMap.entry
room_last_activity cid s = latest_activity (values (viewers_of cid s))
