-- ===== src/AutoReply/AtMostOnce.antt =====
-- The ends of deliveries, and the count of replies.
use support_center.Prelude.{
  ℕ, suc, ◌+◌, ◌-◌, ◌≤◌, String, ◌≡◌, refl, sym, inl, inr, Bool, true, false, Option, none, some,
  List, [], ◌∷◌, arith, if◌then◌else◌, Bool-cases, nat_eq, string_eq, option_eq, pair_eq, ◌==◌,
  ==_refl, ==_sound,
}
use mathlib.Core.Path.{subst}
use support_center.HashMap
use support_center.HashMap.Laws.{get-modify_self, get-modify_ne}
use support_center.AutoReply.Ledger.{DeliveryRow, Deliveries, claim, Delivered, settled, complete}
use support_center.AutoReply.Attempts.{
  Attempts, Event, claims, completes, updated, counted, ended, step, run, nothing_yet, Good,
  ClaimEffect-claim, GoodAt, after_claim-Good,
}

settled-Good :
    (now : String) (d : Delivered) (row : DeliveryRow) (h n : ℕ)
    → Good (some row) (suc h) n
    → Good (some (settled now d row)) h (if d.sent then suc n else n)
settled-Good now d row h n g = elim (Bool-cases d.sent) [
  | inl e ↦ rw e (omega (arith, g.0), λ f. ground (arith, f))
  | inr e ↦ rw e (omega (arith, g.0), λ f. omega (arith, g.0))
]

kept-Good :
    (o : Option DeliveryRow) (h n : ℕ) (sent : Bool)
    → Good o (suc h) n
    → Good o h (if sent then suc n else n)
kept-Good none h n sent g = ground (arith, g)
kept-Good (some row) h n true g = (omega (arith, g.0), λ f. absurd (omega (arith, g.1 f)))
kept-Good (some row) h n false g = (omega (arith, g.0), λ f. absurd (omega (arith, g.1 f)))

written-Good :
    (now : String) (key : String × String) (d : Delivered) (rows : Deliveries)
    (o : Option DeliveryRow) (h n : ℕ)
    → HashMap.get rows key ≡ o
    → Good o (suc h) n
    → Good (HashMap.get (complete now key d rows) key) h (if d.sent then suc n else n)
unfolding complete
written-Good now key d rows none h n e g = ground (arith, g)
written-Good now key d rows (some row) h n e g =
    rw (get-modify_self (settled now d) rows key row e) (settled-Good now d row h n g)

updated-Good :
    (lost : Bool) (now : String) (key : String × String) (d : Delivered) (rows : Deliveries)
    (h n : ℕ)
    → Good (HashMap.get rows key) (suc h) n
    → Good (HashMap.get (updated lost now key d rows) key) h (if d.sent then suc n else n)
updated-Good true now key d rows h n g = kept-Good (HashMap.get rows key) h n d.sent g
updated-Good false now key d rows h n g =
    written-Good now key d rows (HashMap.get rows key) h n refl g

get-updated :
    (lost : Bool) (now : String) (key k : String × String) (d : Delivered) (rows : Deliveries)
    → (key == k) ≡ false
    → HashMap.get (updated lost now key d rows) k ≡ HashMap.get rows k
unfolding complete
get-updated true now key k d rows h = refl
get-updated false now key k d rows h = get-modify_ne (settled now d) rows key k h

counted_ne :
    (sent : Bool) (key k : String × String) (count : String × String → ℕ)
    → (key == k) ≡ false
    → counted sent key count k ≡ count k
counted_ne true key k count h = rw h refl
counted_ne false key k count h = refl

held_lem : (n : ℕ) → (n == 0) ≡ false → n ≡ suc (n - 1)
held_lem n h = ground (arith, h)

module _ (now : String) (key : String × String) (d : Delivered) (lost : Bool) (s : Attempts) where
  ended-Good : (s.holders key == 0) ≡ false → GoodAt key s → GoodAt key (ended now key d lost s)
  unfolding ended
  ended-Good held g = rw (==_refl key) (
      updated-Good lost now key d s.rows (s.holders key - 1) (s.sends key) (
        subst (λ n. Good (HashMap.get s.rows key) n (s.sends key)) (held_lem (s.holders key) held)
          g))

  ended_other-Good :
      (k : String × String) → (key == k) ≡ false → GoodAt k s → GoodAt k (ended now key d lost s)
  unfolding ended
  ended_other-Good k other g =
      rw (counted_ne d.sent key k s.sends other, other, get-updated lost now key k d s.rows other) g

  completes-Good : (k : String × String) → GoodAt k s → GoodAt k (step (completes now key d lost) s)
  unfolding step
  completes-Good k g = elim (Bool-cases (s.holders key == 0)) [
    | inl free ↦ rw free g
    | inr held ↦ rw held (elim (Bool-cases (key == k)) [
      | inl same ↦
          let path = ==_sound key k same in
          subst (λ j. GoodAt j (ended now key d lost s)) path
            (ended-Good held (subst (λ j. GoodAt j s) (sym path) g))
      | inr other ↦ ended_other-Good k other g
    ])
  ]

step-Good : (e : Event) (k : String × String) (s : Attempts) → GoodAt k s → GoodAt k (step e s)
unfolding step
step-Good (claims now a failure observed) k s g =
    let r = claim now a failure observed s.rows in
    after_claim-Good a k s r.0 r.1 (ClaimEffect-claim a s.rows now failure observed) g
step-Good (completes now key d lost) k s g = completes-Good now key d lost s k g

run-Good : (es : List Event) (k : String × String) (s : Attempts) → GoodAt k s → GoodAt k (run es s)
unfolding run
run-Good [] k s g = g
run-Good (e ∷ es) k s g = run-Good es k (step e s) (step-Good e k s g)

total_lem : (o : Option DeliveryRow) (h n : ℕ) → Good o h n → h + n ≤ 1
total_lem none h n g = omega (arith, g)
total_lem (some row) h n g = g.0

start-Good : (k : String × String) → GoodAt k nothing_yet
unfolding HashMap.get
start-Good k = refl

-- However attempts interleave, on whatever they have observed, and whichever statements fail and updates
-- are lost: for each inbound message of a platform at most one task holds a reservation or was its
-- reply sent, so that no reply is sent twice.
pub at_most_once :
    (es : List Event) (k : String × String)
    → (run es nothing_yet).holders k + (run es nothing_yet).sends k ≤ 1
at_most_once es k =
    total_lem (HashMap.get (run es nothing_yet).rows k) _ _
      (run-Good es k nothing_yet (start-Good k))
