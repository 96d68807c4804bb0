-- ===== src/AutoReply/Attempts.antt =====
-- Attempts at deliveries, interleaved: the tasks that hold a reservation and what was sent are counted
-- by key.
use support_center.Prelude.{
  ℕ, suc, ◌+◌, ◌-◌, ◌≤◌, String, ◌≡◌, refl, sym, ◌⊎◌, inl, inr, Bool, true, false, Option, none,
  some, List, [], ◌∷◌, arith, if◌then◌else◌, Bool-cases, nat_eq, string_eq, option_eq, pair_eq,
  ◌==◌, ==_refl, ==_sound,
}
use mathlib.Core.Path.{subst}
use support_center.HashMap
use support_center.HashMap.Laws.{get-insert_self, get-insert_ne}
use support_center.AutoReply.Ledger.{
  DeliveryRow, Deliveries, ReplyAttempt, Reservation, reserved, is_pending, already_succeeded,
  reservation_error, key_of, retried, first, unless_failed, retry_row, insert_row, claim, Delivered,
  complete,
}

pub record Attempts : Type 0 where
  pub rows : Deliveries
  pub holders : String × String → ℕ
  pub sends : String × String → ℕ

-- A task claims after what it observed, whenever that was; the task that holds the reservation ends its
-- delivery, and its update may be lost.
pub data Event : Type 0 where
  claims : String → ReplyAttempt → Option String → Option String → Event
  completes : String → String × String → Delivered → Bool → Event

abbrev pub bump : String × String → (String × String → ℕ) → String × String → ℕ
bump key count k = if key == k then suc (count k) else count k

abbrev pub release : String × String → (String × String → ℕ) → String × String → ℕ
release key count k = if key == k then count k - 1 else count k

unfoldable pub after_claim : ReplyAttempt → Reservation → Deliveries → Attempts → Attempts
after_claim a reserved rows s = record s { rows = rows; holders = bump (key_of a) s.holders }
after_claim a is_pending rows s = record s { rows = rows }
after_claim a already_succeeded rows s = record s { rows = rows }
after_claim a (reservation_error e) rows s = record s { rows = rows }

abbrev pub updated : Bool → String → String × String → Delivered → Deliveries → Deliveries
updated true now key d rows = rows
updated false now key d rows = complete now key d rows

abbrev pub counted : Bool → String × String → (String × String → ℕ) → String × String → ℕ
counted sent key count k = if sent then bump key count k else count k

unfoldable pub ended : String → String × String → Delivered → Bool → Attempts → Attempts
unfolding complete
ended now key d lost s = record {
  rows = updated lost now key d s.rows;
  holders = release key s.holders;
  sends = counted d.sent key s.sends;
}

unfoldable pub step : Event → Attempts → Attempts
unfolding after_claim claim ended
step (claims now a failure observed) s =
    let r = claim now a failure observed s.rows in after_claim a r.0 r.1 s
step (completes now key d lost) s = if s.holders key == 0 then s else ended now key d lost s

unfoldable pub run : List Event → Attempts → Attempts
unfolding step
run [] s = s
run (e ∷ es) s = run es (step e s)

abbrev pub nothing_yet : Attempts
nothing_yet = record { rows = []; holders = λ k. 0; sends = λ k. 0 }

-- One task holds the reservation or one delivery was sent, and neither where a new attempt may begin.
abbrev pub Good : Option DeliveryRow → ℕ → ℕ → Type 0
Good none holders sends = holders + sends ≡ 0
Good (some row) holders sends =
    (holders + sends ≤ 1) × ((row.status == "failed") ≡ true → holders + sends ≡ 0)

abbrev IsFree : Option DeliveryRow → Type 0
IsFree none = Unit {0}
IsFree (some row) = (row.status == "failed") ≡ true

abbrev takes : Reservation → Bool
takes reserved = true
takes is_pending = false
takes already_succeeded = false
takes (reservation_error e) = false

-- What a claim does: nothing, or it takes a key that is free.
abbrev ClaimEffect : ReplyAttempt → Deliveries → Reservation × Deliveries → Type 0
ClaimEffect a rows r =
    ((takes r.0 ≡ false) × (r.1 ≡ rows))
    ⊎ ((row : DeliveryRow) × (takes r.0 ≡ true)
        × (r.1 ≡ HashMap.insert rows (key_of a) row)
        × (row.status ≡ "pending")
        × IsFree (HashMap.get rows (key_of a)))

module _ (a : ReplyAttempt) (rows : Deliveries) where
  ClaimEffect-if :
      (b : Bool) (x y : Reservation × Deliveries)
      → (b ≡ true → ClaimEffect a rows x)
      → ClaimEffect a rows y
      → ClaimEffect a rows (if b then x else y)
  ClaimEffect-if true x y h k = h refl
  ClaimEffect-if false x y h k = k

  ClaimEffect-unless_failed :
      (failure : Option String) (r : Reservation × Deliveries)
      → ClaimEffect a rows r
      → ClaimEffect a rows (unless_failed failure r rows)
  ClaimEffect-unless_failed none r h = h
  ClaimEffect-unless_failed (some e) r h = inl (refl, refl)

  ClaimEffect-retry_row :
      (now : String) (o : Option DeliveryRow)
      → HashMap.get rows (key_of a) ≡ o
      → ClaimEffect a rows (retry_row now a o rows)
  unfolding retry_row
  ClaimEffect-retry_row now none g = inl (refl, refl)
  ClaimEffect-retry_row now (some row) g =
      ClaimEffect-if (row.status == "failed") _ (is_pending, rows)
        (λ e. inr (retried now row, refl, refl, refl, rw g e)) (inl (refl, refl))

  ClaimEffect-insert_row :
      (now : String) (o : Option DeliveryRow)
      → HashMap.get rows (key_of a) ≡ o
      → ClaimEffect a rows (insert_row now a o rows)
  unfolding insert_row
  ClaimEffect-insert_row now none g = inr (first now a, refl, refl, refl, rw g tt)
  ClaimEffect-insert_row now (some row) g = inl (refl, refl)

  pub ClaimEffect-claim :
      (now : String) (failure observed : Option String)
      → ClaimEffect a rows (claim now a failure observed rows)
  unfolding claim
  ClaimEffect-claim now failure none =
      ClaimEffect-unless_failed failure _
        (ClaimEffect-insert_row now (HashMap.get rows (key_of a)) refl)
  ClaimEffect-claim now failure (some status) =
      ClaimEffect-if (status == "success") (already_succeeded, rows) _ (λ e. inl (refl, refl))
        (ClaimEffect-if (status == "pending") (is_pending, rows) _ (λ e. inl (refl, refl))
          (ClaimEffect-unless_failed failure _
            (ClaimEffect-retry_row now (HashMap.get rows (key_of a)) refl)))

abbrev pub GoodAt : String × String → Attempts → Type 0
GoodAt k s = Good (HashMap.get s.rows k) (s.holders k) (s.sends k)

free_lem : (o : Option DeliveryRow) (h n : ℕ) → IsFree o → Good o h n → h + n ≡ 0
free_lem none h n f g = g
free_lem (some row) h n f g = g.1 f

taken_lem :
    (row : DeliveryRow) (h n : ℕ) → row.status ≡ "pending" → h + n ≡ 0 → Good (some row) (suc h) n
taken_lem row h n e z =
    let running : (row.status == "failed") ≡ false = rw e refl in
    (omega (arith, z), λ f. ground (arith, running, f))

-- The key that was free is taken by one.
took_key :
    (a : ReplyAttempt) (s : Attempts) (row : DeliveryRow)
    → row.status ≡ "pending"
    → IsFree (HashMap.get s.rows (key_of a))
    → GoodAt (key_of a) s
    → Good
        (HashMap.get (HashMap.insert s.rows (key_of a) row) (key_of a))
        (bump (key_of a) s.holders (key_of a))
        (s.sends (key_of a))
took_key a s row p free g =
    rw (get-insert_self s.rows (key_of a) row, ==_refl (key_of a))
      (taken_lem row (s.holders (key_of a)) (s.sends (key_of a)) p
        (free_lem (HashMap.get s.rows (key_of a)) _ _ free g))

pub after_claim-Good :
    (a : ReplyAttempt) (k : String × String) (s : Attempts) (r : Reservation) (after : Deliveries)
    → ClaimEffect a s.rows (r, after)
    → GoodAt k s
    → GoodAt k (after_claim a r after s)
unfolding after_claim
after_claim-Good a k s reserved after (inl (e, f)) g = ground (arith, e)
after_claim-Good a k s reserved after (inr (row, e, f, p, free)) g =
    elim (Bool-cases (key_of a == k)) [
      | inl same ↦
          let path = ==_sound (key_of a) k same in
          rw f (
            subst
              (λ j.
                Good (HashMap.get (HashMap.insert s.rows (key_of a) row) j)
                  (bump (key_of a) s.holders j) (s.sends j))
              path (took_key a s row p free (subst (λ j. GoodAt j s) (sym path) g)))
      | inr other ↦ rw (f, get-insert_ne s.rows (key_of a) k row other, other) g
    ]
after_claim-Good a k s is_pending after (inl (e, f)) g = rw f g
after_claim-Good a k s is_pending after (inr (row, e, f, p, free)) g = ground (arith, e)
after_claim-Good a k s already_succeeded after (inl (e, f)) g = rw f g
after_claim-Good a k s already_succeeded after (inr (row, e, f, p, free)) g = ground (arith, e)
after_claim-Good a k s (reservation_error x) after (inl (e, f)) g = rw f g
after_claim-Good a k s (reservation_error x) after (inr (row, e, f, p, free)) g = ground (arith, e)
