-- ===== src/Hub/Owners.antt =====
-- The account and the room of each connection, and how the changes of the table change them.
use support_center.Prelude.{
  ◌+◌, ◌≤◌, String, ◌≡◌, refl, ap, ◌∙◌, inl, inr, Bool, true, false, not, ◌&&◌, Option, List, [],
  ◌∷◌, arith, if◌then◌else◌, Bool-cases, length, count_if, All, nat_eq, string_eq, option_eq,
  pair_eq, ◌==◌,
}
use support_center.HashMap.{HashMap, insert, remove, modify, map_values, values}
use support_center.Hub.{ConnEntry, ConnIdentity, Frame, send, send_where, send_to, elem}
use support_center.Hub.Connections.{notify, hears}

abbrev pub place : ConnEntry → String × Option String
place c = (c.identity.user_id, c.conversation_id)

unfoldable pub owners : HashMap String ConnEntry → List (String × Option String)
owners [] = []
owners ((k, c) ∷ rest) = place c ∷ owners rest

module _ (p : String × Option String → Bool) where
  pub count_if-owners :
      (m : HashMap String ConnEntry)
      → count_if p (owners m) ≡ count_if (λ c. p (place c)) (values m)
  unfolding owners
  count_if-owners [] = refl
  count_if-owners ((k, c) ∷ m) = ground (arith, count_if-owners m)

  pub count-owners-insert :
      (m : HashMap String ConnEntry) (k : String) (c : ConnEntry)
      → count_if p (owners (insert m k c)) ≤ count_if p (owners m) + (if p (place c) then 1 else 0)
  unfolding owners insert
  count-owners-insert [] k c = ground arith
  count-owners-insert ((i, d) ∷ m) k c = ground (arith, count-owners-insert m k c)

  pub count-owners-remove :
      (m : HashMap String ConnEntry) (k : String)
      → count_if p (owners (remove m k)) ≤ count_if p (owners m)
  unfolding owners remove
  count-owners-remove [] k = omega arith
  count-owners-remove ((i, d) ∷ m) k = ground (arith, count-owners-remove m k)

pub length-owners : (m : HashMap String ConnEntry) → length (owners m) ≡ length m
unfolding owners
length-owners [] = refl
length-owners ((k, c) ∷ m) = omega (arith, length-owners m)

pub length-owners-insert :
    (m : HashMap String ConnEntry) (k : String) (c : ConnEntry)
    → length (owners (insert m k c)) ≤ length (owners m) + 1
unfolding owners insert
length-owners-insert [] k c = ground arith
length-owners-insert ((i, d) ∷ m) k c = ground (arith, length-owners-insert m k c)

pub length-owners-remove :
    (m : HashMap String ConnEntry) (k : String) → length (owners (remove m k)) ≤ length (owners m)
unfolding owners remove
length-owners-remove [] k = omega arith
length-owners-remove ((i, d) ∷ m) k = ground (arith, length-owners-remove m k)

module _ (P : String × Option String → Type 0) where
  pub All-owners-insert :
      (m : HashMap String ConnEntry) (k : String) (c : ConnEntry)
      → P (place c)
      → All P (owners m)
      → All P (owners (insert m k c))
  unfolding owners insert
  All-owners-insert [] k c h a = (h, tt)
  All-owners-insert ((i, d) ∷ m) k c h a = elim (Bool-cases (i == k)) [
    | inl e ↦ rw e (h, a.1)
    | inr e ↦ rw e (a.0, All-owners-insert m k c h a.1)
  ]

  pub All-owners-remove :
      (m : HashMap String ConnEntry) (k : String) → All P (owners m) → All P (owners (remove m k))
  unfolding owners remove
  All-owners-remove [] k a = tt
  All-owners-remove ((i, d) ∷ m) k a = elim (Bool-cases (i == k)) [
    | inl e ↦ rw e (All-owners-remove m k a.1)
    | inr e ↦ rw e (a.0, All-owners-remove m k a.1)
  ]

-- Sending a frame moves no connection.
pub place-send : (f : Frame) (c : ConnEntry) → place (send f c) ≡ place c
unfolding send
place-send f c = elim (Bool-cases c.is_open) [ inl e ↦ rw e refl | inr e ↦ rw e refl ]

pub place_if : (b : Bool) (f : Frame) (c : ConnEntry) → place (if b then send f c else c) ≡ place c
place_if true f c = place-send f c
place_if false f c = refl

module _ (change : ConnEntry → ConnEntry)
    (stays : (c : ConnEntry) → place (change c) ≡ place c) where
  pub owners-modify :
      (m : HashMap String ConnEntry) (k : String) → owners (modify change m k) ≡ owners m
  unfolding owners modify
  owners-modify [] k = refl
  owners-modify ((i, d) ∷ m) k = elim (Bool-cases (i == k)) [
    | inl e ↦ rw e (ap (λ o. o ∷ owners m) (stays d))
    | inr e ↦ rw e (ap (λ os. place d ∷ os) (owners-modify m k))
  ]

  pub owners-map_values : (m : HashMap String ConnEntry) → owners (map_values change m) ≡ owners m
  unfolding owners map_values
  owners-map_values [] = refl
  owners-map_values ((i, d) ∷ m) =
      ap (λ o. o ∷ owners (map_values change m)) (stays d)
      ∙ ap (λ os. place d ∷ os) (owners-map_values m)

pub owners-send_where :
    (p : ConnEntry → Bool) (f : Frame) (m : HashMap String ConnEntry)
    → owners (send_where p f m) ≡ owners m
unfolding send_where
owners-send_where p f m =
    owners-map_values (λ c. if p c then send f c else c) (λ c. place_if (p c) f c) m

pub owners-send_to :
    (id : String) (f : Frame) (m : HashMap String ConnEntry) → owners (send_to id f m) ≡ owners m
unfolding send_to
owners-send_to id f m = owners-modify (send f) (place-send f) m id

pub owners-notify :
    (who : ConnIdentity) (f : Frame) (sent : List String) (m : HashMap String ConnEntry)
    → owners (notify who f sent m) ≡ owners m
unfolding owners notify
owners-notify who f sent [] = refl
owners-notify who f sent ((k, c) ∷ m) =
    let fresh = hears who c && not (elem c.id sent) in
    let later = if fresh then c.id ∷ sent else sent in
    ap (λ o. o ∷ owners (notify who f later m)) (place_if fresh f c)
    ∙ ap (λ os. place c ∷ os) (owners-notify who f later m)
