-- ===== src/Hub/Challenges.antt =====
-- Challenges of a room are single-use and expire.
use support_center.Prelude.{
  ℕ, ◌+◌, String, ◌≡◌, refl, Option, none, some, ltb, if◌then◌else◌, nat_eq, string_eq, option_eq,
  pair_eq,
}
use support_center.HashMap.{HashMap, get, remove, modify}
use support_center.HashMap.Laws.{get-insert_self, get-remove_self, get-modify_self, get-modify-none}
use support_center.Hub.{HubInner, RoomState, challenge_ttl}
use support_center.Hub.Rooms.{create_challenge, consume_challenge, find_challenge, still_valid}

-- A challenge that was created is returned, with the identity and the credential it was made for, in
-- less than 30 seconds, and not after.
pub consume_challenge-create_challenge :
    (cid user_id role display_name token : String) (token_exp : ℕ) (id : String) (now : ℕ)
    (iso : String) (h : HubInner) (later : ℕ)
    → (consume_challenge cid id later
        (create_challenge cid user_id role display_name token token_exp id now iso h)).0
      ≡ (if ltb later (now + challenge_ttl)
          then some (record {
            user_id = user_id;
            role = role;
            display_name = display_name;
            token = token;
            token_exp = token_exp;
            expires = now + challenge_ttl;
          })
          else none)
unfolding consume_challenge create_challenge find_challenge still_valid
consume_challenge-create_challenge cid user_id role display_name token token_exp id now iso h
      later =
    rw (get-insert_self, get-insert_self) refl

missing-remove :
    (room : Option RoomState) (rooms : HashMap String RoomState) (cid id : String)
    → get rooms cid ≡ room
    → find_challenge
        (get (modify (λ r. record r { challenges = remove r.challenges id }) rooms cid) cid)
        id
      ≡ none
unfolding find_challenge
missing-remove none rooms cid id e = rw (get-modify-none _ rooms cid e) refl
missing-remove (some r) rooms cid id e =
    rw (get-modify_self (λ s. record s { challenges = remove s.challenges id }) rooms cid r e)
      (get-remove_self r.challenges id)

-- Whatever came before, a challenge that was consumed once is not returned a second time.
pub consume_challenge_once :
    (cid id : String) (now later : ℕ) (h : HubInner)
    → (consume_challenge cid id later (consume_challenge cid id now h).1).0 ≡ none
unfolding consume_challenge still_valid
consume_challenge_once cid id now later h =
    rw (missing-remove (get h.rooms cid) h.rooms cid id refl) refl
