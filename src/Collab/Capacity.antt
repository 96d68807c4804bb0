-- ===== src/Collab/Capacity.antt =====
-- How many viewers a conversation has.
use support_center.Prelude.{
  ℕ, suc, ◌+◌, ◌≤◌, max, String, ◌≡◌, refl, sym, inl, inr, Bool, true, false, Option, none, some,
  List, [], ◌∷◌, arith, if◌then◌else◌, Bool-cases, unwrap_or, length, count_if, nat_eq, string_eq,
  option_eq, pair_eq, ◌==◌, ==_iff, ==_sound,
}
use mathlib.Core.Path.{subst}
use support_center.HashMap
use support_center.HashMap.{HashMap, map_values}
use support_center.HashMap.Laws.{get-insert, get-remove}
use support_center.HashMap.Counts.{
  length-insert-le, length-remove-le, length-modify, length-map_values,
}
use support_center.Collab.{
  Room, Caller, CollabState, Call, joins, leaves, types, sets_presence, cleans, join_room, join,
  left_room, leave, set_typing, set_presence, cleanup, cleaned, after_call, after_calls, no_rooms,
  viewers_of, viewer_cap, seen_at, new_viewer, typing_at,
}

abbrev held : Option Room → Room
held o = unwrap_or o []

-- The calls that set the typing indicator in a conversation.
abbrev pub is_typing_in : ℕ → Call → Bool
is_typing_in cid (types other who is_active now iso) = other == cid
is_typing_in cid (joins other who iso) = false
is_typing_in cid (leaves other user) = false
is_typing_in cid (sets_presence user status current metadata now iso) = false
is_typing_in cid (cleans now) = false

length-join_room :
    (who : Caller) (iso : String) (room : Room)
    → length (join_room who iso room).1 ≤ max (length room) viewer_cap
unfolding join_room
length-join_room who iso room = ground (
  arith,
  length-modify (seen_at iso) room who.user_id,
  length-insert-le room who.user_id (new_viewer who iso),
)

abbrev size_in : HashMap ℕ Room → ℕ → ℕ
size_in rooms cid = length (held (HashMap.get rooms cid))

size_in-insert :
    (rooms : HashMap ℕ Room) (other cid : ℕ) (room : Room) (bound : ℕ)
    → (other ≡ cid → length room ≤ bound)
    → size_in rooms cid ≤ bound
    → size_in (HashMap.insert rooms other room) cid ≤ bound
size_in-insert rooms other cid room bound h k = elim (Bool-cases (other == cid)) [
  | inl e ↦ rw (get-insert rooms other cid room, e) (h (==_sound other cid e))
  | inr e ↦ rw (get-insert rooms other cid room, e) k
]

size_in-remove :
    (rooms : HashMap ℕ Room) (other cid : ℕ)
    → size_in (HashMap.remove rooms other) cid ≤ size_in rooms cid
size_in-remove rooms other cid = ground (arith, get-remove rooms other cid)

size_in-map_values :
    (now : ℕ) (rooms : HashMap ℕ Room) (cid : ℕ)
    → size_in (map_values (map_values (cleaned now)) rooms) cid ≡ size_in rooms cid
unfolding map_values HashMap.get
size_in-map_values now [] cid = refl
size_in-map_values now ((other, room) ∷ rooms) cid =
    ground (arith, length-map_values (cleaned now) room, size_in-map_values now rooms cid)

size_in-left_room :
    (other cid : ℕ) (user : String) (o : Option Room) (rooms : HashMap ℕ Room)
    → HashMap.get rooms other ≡ o
    → size_in (left_room other user o rooms) cid ≤ size_in rooms cid
unfolding left_room
size_in-left_room other cid user none rooms e = omega arith
size_in-left_room other cid user (some room) rooms e =
    let rest = HashMap.remove room user in
    elim (Bool-cases (length rest == 0)) [
      | inl z ↦ rw z (size_in-remove rooms other cid)
      | inr z ↦ rw z (
          size_in-insert rooms other cid rest (size_in rooms cid)
            (λ same.
              subst (λ c. length rest ≤ size_in rooms c) same (rw e (length-remove-le room user)))
            (omega arith))
    ]

-- The viewers of a conversation.
abbrev pub viewer_count : ℕ → CollabState → ℕ
viewer_count cid s = length (viewers_of cid s)

after_call-viewer_count :
    (cid : ℕ) (c : Call) (s : CollabState) (bound : ℕ)
    → viewer_cap ≤ bound
    → viewer_count cid s ≤ bound
    → viewer_count cid (after_call c s) ≤ bound + (if is_typing_in cid c then 1 else 0)
unfolding after_call join leave set_typing set_presence cleanup HashMap.entry
after_call-viewer_count cid (joins other who iso) s bound h k =
    let below =
      size_in-insert s.rooms other cid (join_room who iso (viewers_of other s)).1 bound
        (λ same. omega (
          arith,
          length-join_room who iso (viewers_of other s),
          subst (λ c. viewer_count c s ≤ bound) (sym same) k,
          h,
        ))
        k in
    omega (arith, below)
after_call-viewer_count cid (leaves other user) s bound h k =
    omega (arith, size_in-left_room other cid user (HashMap.get s.rooms other) s.rooms refl, k)
after_call-viewer_count cid (types other who is_active now iso) s bound h k =
    let room = viewers_of other s in
    let next =
      HashMap.insert room who.user_id
        (typing_at is_active now iso (HashMap.entry room who.user_id (new_viewer who iso))) in
    elim (Bool-cases (other == cid)) [
      | inl e ↦ rw e (
          size_in-insert s.rooms other cid next (bound + 1)
            (λ same. omega (
              arith,
              length-insert-le room who.user_id (
                  typing_at is_active now iso
                    (HashMap.entry room who.user_id (new_viewer who iso))),
              subst (λ c. viewer_count c s ≤ bound) (sym same) k,
            ))
            (omega (arith, k)))
      | inr e ↦ rw e (
          size_in-insert s.rooms other cid next (bound + 0)
            (λ same. ground (arith, e, ==_iff other cid, same)) (omega (arith, k)))
    ]
after_call-viewer_count cid (sets_presence user status current metadata now iso) s bound h k =
    omega (arith, k)
after_call-viewer_count cid (cleans now) s bound h k =
    omega (arith, size_in-map_values now s.rooms cid, k)

le_cong :
    (b : Bool) {size : ℕ} (bound n : ℕ)
    → size ≤ bound + (if b then 1 else 0) + n
    → size ≤ bound + (if b then suc n else n)
le_cong true bound n h = omega (arith, h)
le_cong false bound n h = omega (arith, h)

after_calls-viewer_count :
    (cid : ℕ) (cs : List Call) (s : CollabState) (bound : ℕ)
    → viewer_cap ≤ bound
    → viewer_count cid s ≤ bound
    → viewer_count cid (after_calls cs s) ≤ bound + count_if (is_typing_in cid) cs
unfolding after_calls
after_calls-viewer_count cid [] s bound h k = omega (arith, k)
after_calls-viewer_count cid (c ∷ cs) s bound h k =
    let more = if is_typing_in cid c then 1 else 0 in
    let rest =
      after_calls-viewer_count cid cs (after_call c s) (bound + more) (omega (arith, h))
        (after_call-viewer_count cid c s bound h k) in
    le_cong (is_typing_in cid c) bound (count_if (is_typing_in cid) cs) rest

-- After any calls a conversation has at most fifty viewers, and one more for each call that set the
-- typing indicator in it: joining stays within the capacity, and typing does not look at it.
pub viewers_bounded :
    (cid : ℕ) (cs : List Call)
    → viewer_count cid (after_calls cs no_rooms) ≤ viewer_cap + count_if (is_typing_in cid) cs
unfolding HashMap.entry HashMap.get
viewers_bounded cid cs =
    after_calls-viewer_count cid cs no_rooms viewer_cap (omega arith) (omega arith)
