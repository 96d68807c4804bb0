-- ===== src/Hub/Departure.antt =====
-- Who may close a connection, and what is left of an account after its last one.
use support_center.Prelude.{
  String, ◌≡◌, refl, sym, ap, ◌∙◌, ◌≢◌, inl, inr, Bool, true, false, not, ◌&&◌, Option, none, some,
  List, [], ◌∷◌, arith, if◌then◌else◌, Bool-cases, any, nat_eq, string_eq, option_eq, pair_eq, ◌==◌,
  ==_sound,
}
use support_center.HashMap.{HashMap, get, remove, map_values, values, contains_key}
use support_center.HashMap.Laws.{get-remove, get-remove_self}
use support_center.Hub.{
  HubInner, ConnEntry, ConnIdentity, Frame, send_where, of_user, in_room, elem,
}
use support_center.Hub.Connections.{presence_locked, notify, hears}
use support_center.Hub.Closing.{
  unregister, remove_connection, close, depart, leave_room, go_offline, owned,
}
use support_center.Hub.Users.{has_user_state}

-- The account has a connection.
unfoldable pub is_connected : String → HubInner → Bool
is_connected uid h = any (of_user uid) (values h.conns)

true-false : ¬ (true ≡ false)
true-false e = cc

go_offline-evicts :
    (who : ConnIdentity) (iso : String) (h : HubInner)
    → has_user_state who.user_id (go_offline who iso h).1 ≡ false
unfolding has_user_state go_offline presence_locked contains_key
go_offline-evicts who iso h = rw (get-remove_self h.users who.user_id) refl

depart_evicts :
    (c : ConnEntry) (iso : String) (h : HubInner)
    → is_connected c.identity.user_id (depart c iso h).1 ≡ false
    → has_user_state c.identity.user_id (depart c iso h).1 ≡ false
unfolding depart is_connected
depart_evicts c iso h =
    let left = leave_room c iso c.conversation_id h in
    elim (Bool-cases (any (of_user c.identity.user_id) (values left.conns))) [
      | inl e ↦ rw e (λ f. absurd (true-false (sym e ∙ f)))
      | inr e ↦ rw e (λ f. go_offline-evicts c.identity iso left)
    ]

-- When a connection is unregistered and its account has no other, the account's state has left the
-- memory.
pub unregister_evicts :
    (id iso : String) (h : HubInner) (c : ConnEntry)
    → get h.conns id ≡ some c
    → is_connected c.identity.user_id (unregister id iso h).1 ≡ false
    → has_user_state c.identity.user_id (unregister id iso h).1 ≡ false
unfolding unregister close
unregister_evicts id iso h c e = rw e (depart_evicts c iso (record h { conns = remove h.conns id }))

owns :
    (c : ConnEntry) (o : Option ConnEntry)
    → o ≡ some c
    → (caller : String) → owned o caller false ≡ true
    → (c.identity.user_id == caller) ≡ true
unfolding owned
owns c none e caller h = cc
owns c (some d) e caller h =
    let same : d ≡ c = cc in ap (λ d. d.identity.user_id == caller) (sym same) ∙ h

module _ (j : String) where
  present_modify :
      (change : ConnEntry → ConnEntry) (m : HashMap String ConnEntry)
      → contains_key (map_values change m) j ≡ contains_key m j
  unfolding contains_key get map_values
  present_modify change [] = refl
  present_modify change ((i, d) ∷ m) = ground (arith, present_modify change m)

  present_notify :
      (who : ConnIdentity) (f : Frame) (sent : List String) (m : HashMap String ConnEntry)
      → contains_key (notify who f sent m) j ≡ contains_key m j
  unfolding contains_key get notify
  present_notify who f sent [] = refl
  present_notify who f sent ((i, d) ∷ m) =
      let fresh = hears who d && not (elem d.id sent) in
      ground (arith, present_notify who f (if fresh then d.id ∷ sent else sent) m)

  present_leave :
      (c : ConnEntry) (iso : String) (cid : Option String) (h : HubInner)
      → contains_key (leave_room c iso cid h).conns j ≡ contains_key h.conns j
  unfolding leave_room send_where
  present_leave c iso none h = refl
  present_leave c iso (some cid) h =
      elim (Bool-cases
        (any (λ d. in_room cid d && of_user c.identity.user_id d) (values h.conns))) [
          | inl e ↦ rw e refl
          | inr e ↦ rw e (present_modify _ h.conns)
        ]

  present_offline :
      (who : ConnIdentity) (iso : String) (h : HubInner)
      → contains_key (go_offline who iso h).1.conns j ≡ contains_key h.conns j
  unfolding go_offline presence_locked
  present_offline who iso h = present_notify who _ [] h.conns

  present_depart :
      (c : ConnEntry) (iso : String) (h : HubInner)
      → contains_key (depart c iso h).1.conns j ≡ contains_key h.conns j
  unfolding depart
  present_depart c iso h =
      let left = leave_room c iso c.conversation_id h in
      elim (Bool-cases (any (of_user c.identity.user_id) (values left.conns))) [
        | inl e ↦ rw e (present_leave c iso c.conversation_id h)
        | inr e ↦
            rw e (present_offline c.identity iso left ∙ present_leave c iso c.conversation_id h)
      ]

  present_remove :
      (m : HashMap String ConnEntry) (id : String)
      → (id == j) ≡ false
      → contains_key (remove m id) j ≡ contains_key m j
  unfolding contains_key
  present_remove m id e = rw (get-remove m id j, e) refl

  present_close :
      (o : Option ConnEntry) (id iso : String) (h : HubInner)
      → (id == j) ≡ false
      → contains_key (close o id iso h).1.conns j ≡ contains_key h.conns j
  unfolding close
  present_close none id iso h e = refl
  present_close (some c) id iso h e =
      present_depart c iso (record h { conns = remove h.conns id }) ∙ present_remove h.conns id e

  present_of :
      (m : HashMap String ConnEntry) (c : ConnEntry) → get m j ≡ some c → contains_key m j ≡ true
  unfolding contains_key
  present_of m c e = rw e refl

  not_owned :
      (m : HashMap String ConnEntry) (caller id : String) (c : ConnEntry)
      → get m j ≡ some c
      → c.identity.user_id ≢ caller
      → (id == j) ≡ true
      → ¬ (owned (get m id) caller false ≡ true)
  unfolding owned
  not_owned m caller id c e other same o = other (
      ==_sound c.identity.user_id caller
        (owns c (get m id) (ap (λ k. get m k) (==_sound id j same) ∙ e) caller o))

  -- A caller that is no administrator closes no connection of another account: whichever connection
  -- is named, those of the others stay in the table.
  pub remove_connection_denied :
      (id caller iso : String) (h : HubInner) (c : ConnEntry)
      → get h.conns j ≡ some c
      → c.identity.user_id ≢ caller
      → contains_key (remove_connection id caller false iso h).1.conns j ≡ true
  unfolding remove_connection unregister
  remove_connection_denied id caller iso h c e other =
      elim (Bool-cases (owned (get h.conns id) caller false)) [
        | inl o ↦ rw o (elim (Bool-cases (id == j)) [
          | inl same ↦ absurd (not_owned h.conns caller id c e other same o)
          | inr away ↦ present_close (get h.conns id) id iso h away ∙ present_of h.conns c e
        ])
        | inr o ↦ rw o (present_of h.conns c e)
      ]
