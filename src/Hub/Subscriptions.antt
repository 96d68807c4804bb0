-- ===== src/Hub/Subscriptions.antt =====
-- Subscriptions of an account: the ceiling, and that they are a set.
use support_center.Prelude.{
  ℕ, ◌≤◌, max, String, ◌≡◌, refl, sym, ap, inl, inr, true, false, not, ◌&&◌, ◌||◌, Option, none,
  some, List, [], ◌∷◌, ◌++◌, arith, leb, Bool-cases, unwrap_or, length, length-append, nat_eq,
  string_eq, option_eq, pair_eq, ◌==◌, ==_iff, ==_refl, ==_sound,
}
use support_center.HashMap.{get, entry}
use support_center.HashMap.Laws.{get-insert_self, get-insert}
use support_center.Hub.{HubInner, UserState, default_user, elem, max_subscriptions_per_user}
use support_center.Hub.Users.{
  subscribe, unsubscribe, is_subscribed, subscription_count, subscriptions_of, update_user, follow,
  unfollow, set_insert, set_remove,
}

elem-append : (x : String) (xs ys : List String) → elem x (xs ++ ys) ≡ (elem x xs || elem x ys)
unfolding elem
elem-append x [] ys = refl
elem-append x (y ∷ xs) ys = ground (arith, elem-append x xs ys)

elem-set_insert : (x : String) (xs : List String) → elem x (set_insert x xs) ≡ true
unfolding set_insert elem
elem-set_insert x xs = elim (Bool-cases (elem x xs)) [
  | inl e ↦ rw e e
  | inr e ↦ rw (e, elem-append x xs (x ∷ []), e, ==_refl x) refl
]

elem-set_remove :
    (x y : String) (xs : List String) → elem y (set_remove x xs) ≡ (not (y == x) && elem y xs)
unfolding set_remove elem
elem-set_remove x y [] = ground arith
elem-set_remove x y (z ∷ xs) =
    ground (arith, elem-set_remove x y xs, ==_iff z x, ==_iff z y, ==_iff y x)

subscriptions_entry :
    (o : Option UserState) → (unwrap_or o default_user).subscriptions ≡ subscriptions_of o
subscriptions_entry none = refl
subscriptions_entry (some u) = refl

length-set_insert :
    (x : String) (xs : List String)
    → (not (elem x xs) && leb max_subscriptions_per_user (length xs)) ≡ false
    → length (set_insert x xs) ≤ max max_subscriptions_per_user (length xs)
unfolding set_insert
length-set_insert x xs h = ground (arith, length-append xs (x ∷ []))

-- A subscription that is accepted is in force afterwards; the number that is returned is the number
-- of subscriptions, and it exceeds 50 only if there were as many before.
pub subscribe_accepted :
    (uid cid : String) (h : HubInner) (n : ℕ)
    → (subscribe uid cid h).0 ≡ some n
    → (is_subscribed uid cid (subscribe uid cid h).1 ≡ true)
      × (subscription_count uid (subscribe uid cid h).1 ≡ n)
      × (n ≤ max max_subscriptions_per_user (subscription_count uid h))
unfolding subscribe is_subscribed subscription_count update_user follow entry
subscribe_accepted uid cid h n =
    let u = entry h.users uid default_user in
    let count : length u.subscriptions ≡ subscription_count uid h =
      ap length (subscriptions_entry (get h.users uid)) in
    elim (Bool-cases
      (not (elem cid u.subscriptions) && leb max_subscriptions_per_user (length u.subscriptions))) [
        | inl full ↦ rw full (λ e. cc)
        | inr room ↦
            rw (room, get-insert_self)
              (λ e.
                let bound = length-set_insert cid u.subscriptions room in
                let same : length (set_insert cid u.subscriptions) ≡ n = cc in
                (elem-set_insert cid u.subscriptions, same, omega (arith, bound, same, count)))
      ]

-- After `unsubscribe` the account follows what it followed before, less that conversation, and every
-- other account what it did.
pub is_subscribed-unsubscribe :
    (uid cid other topic : String) (h : HubInner)
    → is_subscribed other topic (unsubscribe uid cid h).1
      ≡ (not (uid == other && topic == cid) && is_subscribed other topic h)
unfolding is_subscribed unsubscribe update_user unfollow entry
is_subscribed-unsubscribe uid cid other topic h = elim (Bool-cases (uid == other)) [
  | inl e ↦
      rw (get-insert, e, elem-set_remove, sym (==_sound uid other e), subscriptions_entry) refl
  | inr e ↦ rw (get-insert, e) refl
]
