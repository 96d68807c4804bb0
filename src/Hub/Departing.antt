-- ===== src/Hub/Departing.antt =====
-- The end of a connection keeps the ceilings: unregister, remove_connection and touch.
use support_center.Prelude.{
  String, ◌≡◌, inl, inr, Bool, true, false, ◌&&◌, Option, none, some, [], ◌∷◌, arith, Bool-cases,
  any, All, nat_eq, string_eq, option_eq, pair_eq, ◌==◌, ==_iff,
}
use support_center.HashMap.{HashMap, get, remove, values}
use support_center.HashMap.Laws.{get-remove}
use support_center.Hub.{HubInner, ConnEntry, ConnIdentity, UserState, of_user, in_room}
use support_center.Hub.Owners.{
  owners, count-owners-remove, length-owners-remove, All-owners-remove, owners-send_where,
}
use support_center.Hub.Closing.{
  unregister, remove_connection, touch_room, leave_room, go_offline, depart, close, owned,
}
use support_center.Hub.Sound.{is_online, GoodHub, Good-moved}
use support_center.Hub.Arrival.{presence_locked-Good}

pub remove-Good :
    (h : HubInner) (id : String) → GoodHub h → GoodHub (record h { conns = remove h.conns id })
remove-Good h id v = record {
  per_user = λ uid.
      let bound = count-owners-remove (λ o. o.0 == uid) h.conns id in
      let old = v.per_user uid in omega arith;
  per_room = λ room.
      let bound = count-owners-remove (λ o. o.1 == some room) h.conns id in
      let old = v.per_room room in omega arith;
  overall = let old = v.overall in omega (arith, length-owners-remove h.conns id);
  online = All-owners-remove (λ o. is_online h.users o.0 ≡ true) h.conns id v.online;
}

pub leave_room-Good :
    (c : ConnEntry) (iso : String) (cid : Option String) (h : HubInner)
    → GoodHub h
    → GoodHub (leave_room c iso cid h)
unfolding leave_room
leave_room-Good c iso none h v = v
leave_room-Good c iso (some cid) h v =
    elim (Bool-cases (any (λ d. in_room cid d && of_user c.identity.user_id d) (values h.conns))) [
      | inl e ↦ rw e v
      | inr e ↦
          rw e (Good-moved (owners h.conns) _ h.users (owners-send_where (in_room cid) _ h.conns) v)
    ]

-- Whoever else is connected stays online when a user state is dropped.
pub others_stay :
    (uid : String) (users : HashMap String UserState) (m : HashMap String ConnEntry)
    → any (of_user uid) (values m) ≡ false
    → All (λ o. is_online users o.0 ≡ true) (owners m)
    → All (λ o. is_online (remove users uid) o.0 ≡ true) (owners m)
unfolding owners is_online
others_stay uid users [] h a = tt
others_stay uid users ((k, c) ∷ m) h a = (
  elim (Bool-cases (uid == c.identity.user_id)) [
    | inl e ↦ absurd (ground (arith, ==_iff uid c.identity.user_id, ==_iff c.identity.user_id uid))
    | inr e ↦ rw (get-remove users uid c.identity.user_id, e) a.0
  ],
  others_stay uid users m (ground arith) a.1,
)

pub go_offline-Good :
    (who : ConnIdentity) (iso : String) (h : HubInner)
    → any (of_user who.user_id) (values h.conns) ≡ false
    → GoodHub h
    → GoodHub (go_offline who iso h).1
unfolding go_offline
go_offline-Good who iso h e v =
    presence_locked-Good who "offline" iso (record h { users = remove h.users who.user_id })
      (record {
        per_user = v.per_user;
        per_room = v.per_room;
        overall = v.overall;
        online = others_stay who.user_id h.users h.conns e v.online;
      })

pub depart-Good :
    (c : ConnEntry) (iso : String) (h : HubInner) → GoodHub h → GoodHub (depart c iso h).1
unfolding depart
depart-Good c iso h v =
    let left = leave_room c iso c.conversation_id h in
    let good = leave_room-Good c iso c.conversation_id h v in
    elim (Bool-cases (any (of_user c.identity.user_id) (values left.conns))) [
      | inl e ↦ rw e good
      | inr e ↦ rw e (go_offline-Good c.identity iso left e good)
    ]

pub close-Good :
    (o : Option ConnEntry) (id iso : String) (h : HubInner)
    → GoodHub h
    → GoodHub (close o id iso h).1
unfolding close
close-Good none id iso h v = v
close-Good (some c) id iso h v =
    depart-Good c iso (record h { conns = remove h.conns id }) (remove-Good h id v)

pub remove_connection-Good :
    (id caller : String) (is_admin : Bool) (iso : String) (h : HubInner)
    → GoodHub h
    → GoodHub (remove_connection id caller is_admin iso h).1
unfolding remove_connection unregister
remove_connection-Good id caller is_admin iso h v =
    elim (Bool-cases (owned (get h.conns id) caller is_admin)) [
      | inl e ↦ rw e (close-Good (get h.conns id) id iso h v)
      | inr e ↦ rw e v
    ]

pub touch_room-Good :
    (cid : Option String) (iso : String) (h : HubInner) → GoodHub h → GoodHub (touch_room cid iso h)
unfolding touch_room
touch_room-Good none iso h v = v
touch_room-Good (some cid) iso h v = v
