-- ===== src/Latest/Coalesced.antt =====
-- A message that arrives while a refresh is under way.
use support_center.Prelude.{
  ℕ, ◌-◌, ◌<◌, String, ◌≡◌, refl, true, false, Option, none, some, List, [], ◌∷◌, ◌++◌, arith,
  retain, nat_eq, string_eq, option_eq, pair_eq, ==_refl,
}
use support_center.HashMap.Laws.{get-insert_self}
use support_center.Json.{Value}
use support_center.Hub.{HubInner, elem}
use support_center.Auth.{Result}
use support_center.Latest.{
  LatestMessageCache, Answer, latest_ttl, is_unexpired, peek, unexpired_value, store,
  invalidate_latest, begin_refresh, end_refresh, get_latest, hit_or_derived, derive,
}
use support_center.Latest.Refresh.{repopulate}

elem-append : (x : String) (xs : List String) → elem x (xs ++ x ∷ []) ≡ true
unfolding elem
elem-append x [] = ground (arith, ==_refl x)
elem-append x (y ∷ xs) = ground (arith, elem-append x xs)

begin_again :
    (cid : String) (c : LatestMessageCache)
    → elem cid c.pending ≡ true
    → begin_refresh cid c ≡ (false, c)
unfolding begin_refresh
begin_again cid c h = rw h refl

recent_lem :
    (snapshot : Value) (now later : ℕ)
    → later - now < latest_ttl
    → unexpired_value later (some (now, snapshot)) ≡ some snapshot
unfolding unexpired_value
recent_lem snapshot now later h = ground (arith, h)

stored_lem :
    (cid : String) (snapshot : Value) (now later : ℕ) (c : LatestMessageCache)
    → later - now < latest_ttl
    → peek cid later (end_refresh cid true (store cid snapshot now c)) ≡ some snapshot
unfolding peek end_refresh store
stored_lem cid snapshot now later c h =
    rw (get-insert_self (retain (λ e. is_unexpired now e.1) c.entries) cid (now, snapshot))
      (recent_lem snapshot now later h)

hit_lem :
    (cid : String) (now : ℕ) (hit : Value) (answer : Result String (Option Value))
    (c : LatestMessageCache) (o : Option Value)
    → o ≡ some hit
    → (hit_or_derived o cid now answer c).0 ≡ some hit
unfolding hit_or_derived
hit_lem cid now hit answer c (some v) e = e
hit_lem cid now hit answer c none e = ground (arith, e)

module _ (cid : String) (c : LatestMessageCache) where
  -- The cache once a refresh has begun.
  abbrev pub refreshing : LatestMessageCache
  refreshing = invalidate_latest cid (begin_refresh cid c).1

  begun : elem cid c.pending ≡ false → begin_refresh cid refreshing ≡ (false, refreshing)
  unfolding begin_refresh invalidate_latest
  begun idle = begin_again cid refreshing (rw idle (elem-append cid c.pending))

  -- The snapshot that the refresh has read is stored, and the refresh ends.
  abbrev pub after_refresh :
      (Value → String) → String → ℕ → Value → LatestMessageCache → HubInner → LatestMessageCache
  after_refresh print iso now snapshot c' hub =
      end_refresh cid true (repopulate print iso cid now (some (some snapshot)) c' hub).1

  -- A refresh that is asked for while another has read the database, and not yet stored what it read, is
  -- dropped: for 24 hours from then a read returns what was read before, whatever the database says
  -- by now.
  pub coalesced_stale :
      (print : Value → String) (iso iso' : String) (now later : ℕ) (snapshot : Value)
      (query : String → Answer) (hub : HubInner)
      → elem cid c.pending ≡ false
      → later - now < latest_ttl
      → (begin_refresh cid refreshing ≡ (false, refreshing))
        × ((get_latest query iso' cid later
              (after_refresh print iso now snapshot (begin_refresh cid refreshing).1 hub)).0
            ≡ some snapshot)
  unfolding get_latest repopulate
  coalesced_stale print iso iso' now later snapshot query hub idle recent = (
    begun idle,
    hit_lem cid later snapshot (derive iso' cid (query cid)) _
        (peek cid later (after_refresh print iso now snapshot (begin_refresh cid refreshing).1 hub))
        (stored_lem cid snapshot now later (begin_refresh cid refreshing).1 recent),
  )
