-- ===== src/Hub/Arrival.antt =====
-- A new connection keeps the ceilings: register.
use support_center.Prelude.{
  ℕ, ◌≤◌, ◌<◌, String, ◌≡◌, refl, sym, ◌∙◌, inl, inr, Bool, true, false, Option, none, some, [],
  arith, Bool-cases, length, count_if, nat_eq, string_eq, option_eq, pair_eq, ◌==◌, ==_sound,
}
use support_center.HashMap.{HashMap, insert, entry, values}
use support_center.HashMap.Laws.{get-insert_self}
use support_center.Hub.{
  HubInner, ConnEntry, ConnIdentity, UserState, default_user, of_user, in_room, send_to,
  max_connections_per_user, max_connections_global, room_capacity,
}
use support_center.Hub.Owners.{
  owners, place, count_if-owners, count-owners-insert, length-owners, length-owners-insert,
  All-owners-insert, owners-send_where, owners-send_to, owners-notify,
}
use support_center.Hub.Connections.{
  presence_locked, ceiling, enter, greet, announce, admit, online_user,
}
use support_center.Hub.Sound.{is_online, GoodHub, All-map, Good-moved, update-Stays}

-- What the ceilings leave room for.
pub record Room (uid : String) (cid : Option String) (conns : HashMap String ConnEntry)
    : Type 0 where
  pub user_room : count_if (of_user uid) (values conns) < max_connections_per_user
  pub all_room : length conns < max_connections_global
  pub room_room : (r : String) → cid ≡ some r → count_if (in_room r) (values conns) < room_capacity

pub ceiling-Room :
    (uid : String) (cid : Option String) (conns : HashMap String ConnEntry)
    → ceiling uid cid conns ≡ none
    → Room uid cid conns
unfolding ceiling
ceiling-Room uid none conns h = record {
  user_room = ground arith;
  all_room = ground arith;
  room_room = λ r e. cc;
}
ceiling-Room uid (some room) conns h = record {
  user_room = ground arith;
  all_room = ground arith;
  room_room = λ r e. ground arith;
}

pub insert_limit :
    (p : String × Option String → Bool) (n : ℕ) (conns : HashMap String ConnEntry) (id : String)
    (c : ConnEntry)
    → (p (place c) ≡ true → count_if p (owners conns) < n)
    → count_if p (owners conns) ≤ n
    → count_if p (owners (insert conns id c)) ≤ n
insert_limit p n conns id c room h = elim (Bool-cases (p (place c))) [
  | inl e ↦ let bound = count-owners-insert p conns id c in let left = room e in ground arith
  | inr e ↦ let bound = count-owners-insert p conns id c in ground arith
]

pub user_limit :
    (uid u : String) (cid : Option String) (conns : HashMap String ConnEntry)
    → Room uid cid conns
    → (uid == u) ≡ true
    → count_if (λ o. o.0 == u) (owners conns) < max_connections_per_user
user_limit uid u cid conns r e =
    rw (count_if-owners (λ o. o.0 == u) conns, sym (==_sound uid u e)) r.user_room

pub Room-limit :
    (uid room : String) (cid : Option String) (conns : HashMap String ConnEntry)
    → Room uid cid conns
    → (cid == some room) ≡ true
    → count_if (λ o. o.1 == some room) (owners conns) < room_capacity
Room-limit uid room cid conns r e =
    rw (count_if-owners (λ o. o.1 == some room) conns)
      (r.room_room room (==_sound cid (some room) e))

pub online_new :
    (users : HashMap String UserState) (uid : String) (u : UserState)
    → u.online ≡ true
    → is_online (insert users uid u) uid ≡ true
unfolding is_online
online_new users uid u h = rw (get-insert_self users uid u) h

pub enter-Good :
    (who : ConnIdentity) (cid device : Option String) (id : String) (now : ℕ) (iso : String)
    (h : HubInner)
    → Room who.user_id cid h.conns
    → GoodHub h
    → GoodHub (enter who cid device id now iso h)
unfolding enter online_user
enter-Good who cid device id now iso h r v =
    let fresh : ConnEntry = record {
      id = id;
      identity = who;
      conversation_id = cid;
      device_id = device;
      connected_at = iso;
      last_activity = now;
      inbox = [];
      is_open = true;
    } in
    let later =
      insert h.users who.user_id (online_user iso (entry h.users who.user_id default_user)) in
    record {
      per_user = λ uid.
          insert_limit (λ o. o.0 == uid) max_connections_per_user h.conns id fresh
            (user_limit who.user_id uid cid h.conns r) (v.per_user uid);
      per_room = λ room.
          insert_limit (λ o. o.1 == some room) room_capacity h.conns id fresh
            (Room-limit who.user_id room cid h.conns r) (v.per_room room);
      overall =
          omega (arith, length-owners-insert h.conns id fresh, r.all_room, length-owners h.conns);
      online =
          All-owners-insert (λ o. is_online later o.0 ≡ true) h.conns id fresh
            (online_new h.users who.user_id
              (online_user iso (entry h.users who.user_id default_user)) refl)
            (All-map _ _ (owners h.conns)
              (λ o.
                update-Stays h.users who.user_id
                  (online_user iso (entry h.users who.user_id default_user)) (λ e. refl) o.0)
              v.online);
    }

pub greet-Good :
    (who : ConnIdentity) (cid : Option String) (id : String) (now : ℕ) (iso : String) (h : HubInner)
    → GoodHub h
    → GoodHub (greet who cid id now iso h)
unfolding greet
greet-Good who none id now iso h v =
    Good-moved (owners h.conns) _ h.users (owners-send_to id _ h.conns) v
greet-Good who (some cid) id now iso h v =
    Good-moved (owners h.conns) _ h.users
      (owners-send_where (in_room cid) _ (send_to id _ h.conns) ∙ owners-send_to id _ h.conns) v

pub presence_locked-Good :
    (who : ConnIdentity) (status iso : String) (h : HubInner)
    → GoodHub h
    → GoodHub (presence_locked who status iso h)
unfolding presence_locked
presence_locked-Good who status iso h v =
    Good-moved (owners h.conns) _ h.users (owners-notify who _ [] h.conns) v

pub announce-Good :
    (first : Bool) (who : ConnIdentity) (iso : String) (h : HubInner)
    → GoodHub h
    → GoodHub (announce first who iso h)
unfolding announce
announce-Good true who iso h v = presence_locked-Good who "online" iso h v
announce-Good false who iso h v = v

pub admit-Good :
    (o : Option String) (who : ConnIdentity) (cid device : Option String) (id : String) (now : ℕ)
    (iso : String) (h : HubInner)
    → ceiling who.user_id cid h.conns ≡ o
    → GoodHub h
    → GoodHub (admit o who cid device id now iso h).1
unfolding admit
admit-Good (some reason) who cid device id now iso h e v = v
admit-Good none who cid device id now iso h e v = announce-Good _ who iso _ (
    greet-Good who cid id now iso _
      (enter-Good who cid device id now iso h (ceiling-Room who.user_id cid h.conns e) v))
