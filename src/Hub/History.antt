-- ===== src/Hub/History.antt =====
-- The bounded history of a room, and what a client that reconnects is sent of it.
use support_center.Prelude.{
  ℕ, zero, suc, ◌+◌, ◌-◌, ◌≤◌, ◌<◌, String, ◌≡◌, refl, sym, ap, ◌∙◌, inl, inr, false, some, List,
  [], ◌∷◌, ◌++◌, arith, ltb, ltb→lt, Bool-cases, length, retain, nat_eq, string_eq, option_eq,
  pair_eq, ◌==◌,
}
use support_center.Prelude.{drop}
use support_center.HashMap.{entry}
use support_center.HashMap.Laws.{get-insert_self}
use support_center.Json.{Value}
use support_center.Hub.{HubInner, default_room, room_history_cap, broadcasts_enabled}
use support_center.Hub.FanOut.{
  pop_over, record_message, to_conversation, to_conversation_message, fan_out, sync_since,
  missed_since, is_missed,
}

-- The newest entries, as many as the cap.
abbrev pub newest : List Value → List Value
newest vs = drop (length vs - room_history_cap) vs

drop_more :
    (n : ℕ) (v : Value) (vs : List Value)
    → n < length vs + 1
    → drop (suc (length vs) - n) (v ∷ vs) ≡ drop (length vs - n) vs
drop_more n v vs h =
    let same : suc (length vs) - n ≡ suc (length vs - n) = omega (arith, h) in
    ap (λ i. drop i (v ∷ vs)) same

pub pop_over-newest : (fuel : ℕ) (vs : List Value) → length vs ≤ fuel → pop_over fuel vs ≡ newest vs
unfolding pop_over
pop_over-newest zero [] h = refl
pop_over-newest zero (v ∷ vs) h = absurd (omega (arith, h))
pop_over-newest (suc fuel) [] h = refl
pop_over-newest (suc fuel) (v ∷ vs) h = elim (Bool-cases (ltb room_history_cap (length (v ∷ vs)))) [
  | inl e ↦
      let over = ltb→lt _ _ e in
      rw e (
        pop_over-newest fuel vs (omega (arith, h))
        ∙ sym (drop_more room_history_cap v vs (omega (arith, over))))
  | inr e ↦
      let fits : suc (length vs) - room_history_cap ≡ 0 = ground (arith, e) in
      rw e (ap (λ i. drop i (v ∷ vs)) (sym fits))
]

to_conversation-rooms :
    (cid event : String) (payload : Value) (iso : String) (h : HubInner)
    → (to_conversation cid event payload iso h).1.rooms ≡ h.rooms
unfolding to_conversation fan_out
to_conversation-rooms cid event payload iso h = elim (Bool-cases (broadcasts_enabled h)) [
  | inl e ↦ rw e refl
  | inr e ↦ rw e refl
]

-- A client that reconnects after a message was posted to a room in full mode is sent exactly those of
-- the newest 50 messages, that one included, that are later than what it has seen; this holds whether
-- or not the message was broadcast.
pub sync_since-to_conversation_message :
    (cid event : String) (payload : Value) (now : ℕ) (iso since : String) (h : HubInner)
    → (entry h.rooms cid (default_room now iso)).mode == "simplified" ≡ false
    → sync_since cid (some since) (to_conversation_message cid event payload now iso h).1 ≡ (
      retain
          (is_missed since)
          (newest ((entry h.rooms cid (default_room now iso)).history ++ payload ∷ [])),
      some iso,
    )
unfolding sync_since to_conversation_message missed_since record_message
sync_since-to_conversation_message cid event payload now iso since h e =
    let room = entry h.rooms cid (default_room now iso) in
    let all = room.history ++ payload ∷ [] in
    rw (to_conversation-rooms, get-insert_self, e, pop_over-newest (length all) all (omega arith))
      refl
