-- ===== src/Hub/Sound.antt =====
-- What holds of the connections and the users of a hub, and the ways in which it is kept.
use support_center.Prelude.{
  ◌≤◌, String, ◌≡◌, sym, inl, inr, Bool, true, false, Option, none, some, List, [], ◌∷◌, arith,
  Bool-cases, length, count_if, All, nat_eq, string_eq, option_eq, pair_eq, ◌==◌, ==_sound,
}
use support_center.HashMap.{HashMap, get, insert, entry, values}
use support_center.HashMap.Laws.{get-insert}
use support_center.Hub.{
  HubInner, UserState, default_user, of_user, in_room, max_connections_per_user,
  max_connections_global, room_capacity,
}
use support_center.Hub.Owners.{owners, count_if-owners, length-owners}

abbrev pub online_of : Option UserState → Bool
online_of none = false
online_of (some u) = u.online

-- The account has a state in memory, which says that it is online.
unfoldable pub is_online : HashMap String UserState → String → Bool
unfolding get
is_online users uid = online_of (get users uid)

pub record Sound (h : HubInner) : Type 0 where
  pub per_user : (uid : String) → count_if (of_user uid) (values h.conns) ≤ max_connections_per_user
  pub per_room : (cid : String) → count_if (in_room cid) (values h.conns) ≤ room_capacity
  pub overall : length h.conns ≤ max_connections_global
  pub online : All (λ o. is_online h.users o.0 ≡ true) (owners h.conns)

-- The same of the accounts and rooms of the connections alone.
pub record Good (os : List (String × Option String)) (users : HashMap String UserState)
    : Type 0 where
  pub per_user : (uid : String) → count_if (λ o. o.0 == uid) os ≤ max_connections_per_user
  pub per_room : (cid : String) → count_if (λ o. o.1 == some cid) os ≤ room_capacity
  pub overall : length os ≤ max_connections_global
  pub online : All (λ o. is_online users o.0 ≡ true) os

abbrev pub GoodHub : HubInner → Type 0
GoodHub h = Good (owners h.conns) h.users

pub Sound-of : (h : HubInner) → GoodHub h → Sound h
Sound-of h v = record {
  per_user = λ uid. rw (sym (count_if-owners (λ o. o.0 == uid) h.conns)) (v.per_user uid);
  per_room = λ cid. rw (sym (count_if-owners (λ o. o.1 == some cid) h.conns)) (v.per_room cid);
  overall = rw (sym (length-owners h.conns)) v.overall;
  online = v.online;
}

pub All-map {ℓ} :
    {A : Type ℓ} (P Q : A → Type 0) (xs : List A) → ((x : A) → P x → Q x) → All P xs → All Q xs
All-map P Q [] f a = tt
All-map P Q (x ∷ xs) f a = (f x a.0, All-map P Q xs f a.1)

abbrev pub Stays : HashMap String UserState → HashMap String UserState → Type 0
Stays users later = (uid : String) → is_online users uid ≡ true → is_online later uid ≡ true

pub Good-users :
    (os : List (String × Option String)) (users later : HashMap String UserState)
    → Stays users later
    → Good os users
    → Good os later
Good-users os users later stays v = record {
  per_user = v.per_user;
  per_room = v.per_room;
  overall = v.overall;
  online = All-map _ _ os (λ o. stays o.0) v.online;
}

pub Good-moved :
    (os later : List (String × Option String)) (users : HashMap String UserState)
    → later ≡ os
    → Good os users
    → Good later users
Good-moved os later users e v = rw e v

-- What an account's own changes do to the accounts that are online.
pub update-Stays :
    (users : HashMap String UserState) (uid : String) (u : UserState)
    → (is_online users uid ≡ true → u.online ≡ true)
    → Stays users (insert users uid u)
unfolding is_online
update-Stays users uid u h j e = elim (Bool-cases (uid == j)) [
  | inl same ↦ rw (get-insert users uid j u, same) (h (rw (==_sound uid j same) e))
  | inr other ↦ rw (get-insert users uid j u, other) e
]

pub online_entry :
    (users : HashMap String UserState) (uid : String)
    → is_online users uid ≡ true
    → (entry users uid default_user).online ≡ true
unfolding is_online entry
online_entry users uid e = ground arith
