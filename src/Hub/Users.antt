-- ===== src/Hub/Users.antt =====
-- backend/src/realtime/hub/user_state.rs: subscriptions, activity counts, preferences, and the cache
-- of access decisions.
use support_center.Prelude.{
  ℕ, ◌-◌, String, Bool, true, false, not, ◌&&◌, Option, none, some, List, [], ◌∷◌, ◌++◌, ltb, leb,
  if◌then◌else◌, unwrap_or, length, retain, count_if, nat_eq, string_eq, option_eq, pair_eq, ◌==◌,
}
use support_center.HashMap.{get, insert, contains_key, entry, values}
use support_center.Json.{Value, obj, Fields, end, field, null, set_field, member, as_u64, and_then}
use support_center.Hub.{
  HubInner, UserState, default_user, default_preferences, wrapping_add, elem, of_user,
  max_subscriptions_per_user, access_cache_ttl,
}
use support_center.Hub.Closing.{user_snapshot_json}

-- `HashSet::insert` and `remove`.
unfoldable pub set_insert : String → List String → List String
unfolding elem
set_insert x xs = if elem x xs then xs else xs ++ x ∷ []

unfoldable pub set_remove : String → List String → List String
set_remove x xs = retain (λ y. not (y == x)) xs

unfoldable pub set_of : List String → List String → List String
unfolding set_insert
set_of acc [] = acc
set_of acc (x ∷ xs) = set_of (set_insert x acc) xs

unfoldable pub update_user : (UserState → UserState) → String → HubInner → HubInner
unfolding insert entry
update_user change uid h = record h {
  users = insert h.users uid (change (entry h.users uid default_user));
}

unfoldable pub follow : String → UserState → UserState
unfolding elem set_insert
follow cid u = record u {
  subscriptions = set_insert cid u.subscriptions;
  conversations_joined =
      if elem cid u.subscriptions
      then u.conversations_joined
      else wrapping_add u.conversations_joined 1;
}

-- At the ceiling the entry that was looked up stays, as it was or new.
unfoldable pub subscribe : String → String → HubInner → Option ℕ × HubInner
unfolding update_user follow elem entry
subscribe uid cid h =
    let u = entry h.users uid default_user in
    if not (elem cid u.subscriptions) && leb max_subscriptions_per_user (length u.subscriptions)
    then (none, update_user (λ v. v) uid h)
    else (some (length (follow cid u).subscriptions), update_user (follow cid) uid h)

unfoldable pub unfollow : String → UserState → UserState
unfolding set_remove
unfollow cid u = record u { subscriptions = set_remove cid u.subscriptions }

unfoldable pub unsubscribe : String → String → HubInner → ℕ × HubInner
unfolding update_user unfollow entry
unsubscribe uid cid h = (
  length (unfollow cid (entry h.users uid default_user)).subscriptions,
  update_user (unfollow cid) uid h,
)

abbrev pub subscriptions_of : Option UserState → List String
subscriptions_of none = []
subscriptions_of (some u) = u.subscriptions

unfoldable pub is_subscribed : String → String → HubInner → Bool
unfolding get elem
is_subscribed uid cid h = elem cid (subscriptions_of (get h.users uid))

unfoldable pub note_message_sent : String → HubInner → HubInner
unfolding update_user
note_message_sent uid h =
    update_user (λ u. record u { messages_sent = wrapping_add u.messages_sent 1 }) uid h

unfoldable pub note_messages_received : String → ℕ → HubInner → HubInner
unfolding update_user
note_messages_received uid count h =
    update_user (λ u. record u { messages_received = wrapping_add u.messages_received count }) uid h

unfoldable pub has_user_state : String → HubInner → Bool
unfolding contains_key
has_user_state uid h = contains_key h.users uid

abbrev pub stat : Option Value → String → ℕ
stat stats key = unwrap_or (and_then (and_then stats (λ s. member s key)) as_u64) 0

unfoldable pub hydrate_user :
    String → Option String → List String → Option Value → Option Value → HubInner → HubInner
unfolding contains_key insert set_of
hydrate_user uid last_seen subscriptions preferences stats h =
    if contains_key h.users uid then h else record h {
      users = insert h.users uid (record {
        subscriptions = set_of [] subscriptions;
        online = false;
        last_seen = last_seen;
        total_sessions = stat stats "totalSessions";
        messages_sent = stat stats "messagesSent";
        messages_received = stat stats "messagesReceived";
        conversations_joined = stat stats "conversationsJoined";
        preferences = preferences;
      });
    }

unfoldable pub user_state_snapshot : String → HubInner → Value
unfolding entry user_snapshot_json
user_state_snapshot uid h =
    user_snapshot_json uid (entry h.users uid default_user)
      (count_if (of_user uid) (values h.conns))

unfoldable pub heartbeat : String → String → HubInner → (Bool × String) × HubInner
unfolding update_user
heartbeat uid iso h =
    ((true, iso), update_user (λ u. record u { online = true; last_seen = some iso }) uid h)

abbrev pub preferences_of : Option UserState → Value
preferences_of none = default_preferences
preferences_of (some u) = unwrap_or u.preferences default_preferences

unfoldable pub preferences : String → HubInner → Value
unfolding get
preferences uid h = preferences_of (get h.users uid)

unfoldable pub merge_fields : Fields → Fields → Fields
merge_fields current end = current
merge_fields current (field k v rest) = merge_fields (set_field current k v) rest

-- Where either is no object the current preferences stay.
unfoldable pub merge_values : Value → Value → Value
unfolding merge_fields
merge_values (obj current) (obj patch) = obj (merge_fields current patch)
merge_values current null = current
merge_values current _ = current

unfoldable pub merge_preferences : String → Value → HubInner → Value × HubInner
unfolding update_user entry merge_values
merge_preferences uid patch h =
    let u = entry h.users uid default_user in
    let merged = merge_values (unwrap_or u.preferences default_preferences) patch in
    (merged, update_user (λ v. record v { preferences = some merged }) uid h)

unfoldable pub subscription_count : String → HubInner → ℕ
unfolding get
subscription_count uid h = length (subscriptions_of (get h.users uid))

-- The time since a decision, which a clock that runs back makes zero.
unfoldable pub is_recent : ℕ → ℕ × Bool → Bool
is_recent now (at, allowed) = ltb (now - at) access_cache_ttl

unfoldable pub fresh_access : ℕ → Option (ℕ × Bool) → Option Bool
unfolding is_recent
fresh_access now none = none
fresh_access now (some (at, allowed)) = if is_recent now (at, allowed) then some allowed else none

unfoldable pub cached_access : String → String → ℕ → HubInner → Option Bool
unfolding get fresh_access
cached_access uid cid now h = fresh_access now (get h.access_cache (uid, cid))

unfoldable pub cache_access : String → String → Bool → ℕ → HubInner → HubInner
unfolding insert is_recent
cache_access uid cid allowed now h = record h {
  access_cache = insert (retain (λ e. is_recent now e.1) h.access_cache) (uid, cid) (now, allowed);
}

unfoldable pub invalidate_access : String → HubInner → HubInner
invalidate_access cid h = record h {
  access_cache = retain (λ e. not (e.0.1 == cid)) h.access_cache;
}
