-- ===== src/AutoReply/Order.antt =====
-- The order of the rules, and the first that passes a test.
use support_center.Prelude.{
  ℕ, ◌+◌, ◌%◌, ◌^◌, ◌<◌, ◌≡◌, refl, ap, ◌⊎◌, inl, inr, Bool, true, false, not, ◌&&◌, ◌||◌, Option,
  none, some, List, [], ◌∷◌, arith, ltb, if◌then◌else◌, Bool-cases, unwrap_or, is_none, is_some,
  find?, All, nat_eq, string_eq, option_eq, pair_eq, ◌==◌,
}
use mathlib.Core.Path.{subst}
use support_center.AutoReply.{CachedRule, signed, key_le, insert_rule, sort_rules}

is_none-some : (o : Option ℕ) → is_none o ≡ not (is_some o)
is_none-some none = refl
is_none-some (some a) = refl

key_trans :
    (p q r : ℕ) (a b c : Option ℕ)
    → (ltb p q || p == q && (is_some a || is_none b)) ≡ true
    → (ltb q r || q == r && (is_some b || is_none c)) ≡ true
    → (ltb p r || p == r && (is_some a || is_none c)) ≡ true
key_trans p q r a b c h k = ground (arith, h, k, is_none-some b, is_none-some c)

key_total :
    (p q : ℕ) (a b : Option ℕ)
    → (ltb p q || p == q && (is_some a || is_none b)) ≡ false
    → (ltb q p || q == p && (is_some b || is_none a)) ≡ true
key_total p q a b h = ground (arith, h, is_none-some b, is_none-some a)

key_le_trans : (r s t : CachedRule) → key_le r s ≡ true → key_le s t ≡ true → key_le r t ≡ true
unfolding key_le
key_le_trans r s t =
    key_trans (signed r.priority) (signed s.priority) (signed t.priority) r.team_id s.team_id
      t.team_id

key_le_total : (r s : CachedRule) → key_le r s ≡ false → key_le s r ≡ true
unfolding key_le
key_le_total r s = key_total (signed r.priority) (signed s.priority) r.team_id s.team_id

-- The place of a priority among the signed 64-bit numbers, whose bits are `p`.
abbrev pub place_of : ℕ → ℕ
place_of p = (p + 2 ^ 63) % 2 ^ 64

-- A smaller priority comes first; of equal ones those of a team come before the general ones.
abbrev pub IsBelow : CachedRule → CachedRule → Type 0
IsBelow r s =
    (place_of r.priority < place_of s.priority)
    ⊎ ((place_of r.priority ≡ place_of s.priority) × ((r.team_id ≡ none) → s.team_id ≡ none))

is_none-none : (o : Option ℕ) → is_none o ≡ true → o ≡ none
is_none-none none h = refl
is_none-none (some a) h = cc

both_none : (a b : Option ℕ) → is_some a ≡ true ⊎ is_none b ≡ true → a ≡ none → b ≡ none
both_none none b (inl h) e = cc
both_none (some x) b (inl h) e = cc
both_none a b (inr h) e = is_none-none b h

below_cases :
    (p q : ℕ) (a b : Option ℕ)
    → (ltb p q || p == q && (is_some a || is_none b)) ≡ true
    → (p < q) ⊎ ((p ≡ q) × (is_some a ≡ true ⊎ is_none b ≡ true))
below_cases p q a b h = ground (arith, h)

key_le-IsBelow : (r s : CachedRule) → key_le r s ≡ true → IsBelow r s
unfolding key_le
key_le-IsBelow r s h =
    elim (below_cases (place_of r.priority) (place_of s.priority) r.team_id s.team_id h) [
      | inl l ↦ inl l
      | inr e ↦ inr (e.0, both_none r.team_id s.team_id e.1)
    ]

abbrev IsLe : CachedRule → CachedRule → Type 0
IsLe r s = key_le r s ≡ true

abbrev pub IsSorted : List CachedRule → Type 0
IsSorted [] = Unit {0}
IsSorted (r ∷ rules) = All (IsLe r) rules × IsSorted rules

module _ (holds : CachedRule → Type 0) where
  All-insert_rule :
      (r : CachedRule) (rules : List CachedRule)
      → holds r
      → All holds rules
      → All holds (insert_rule r rules)
  unfolding insert_rule
  All-insert_rule r [] h k = (h, tt)
  All-insert_rule r (s ∷ rules) h (k, ks) = elim (Bool-cases (key_le r s)) [
    | inl e ↦ rw e (h, (k, ks))
    | inr e ↦ rw e (k, All-insert_rule r rules h ks)
  ]

All-IsLe :
    (r s : CachedRule) (rules : List CachedRule)
    → IsLe r s
    → All (IsLe s) rules
    → All (IsLe r) rules
All-IsLe r s [] h k = tt
All-IsLe r s (t ∷ rules) h (k, ks) = (key_le_trans r s t h k, All-IsLe r s rules h ks)

insert_rule-IsSorted :
    (r : CachedRule) (rules : List CachedRule) → IsSorted rules → IsSorted (insert_rule r rules)
unfolding insert_rule
insert_rule-IsSorted r [] h = (tt, tt)
insert_rule-IsSorted r (s ∷ rules) (h, hs) = elim (Bool-cases (key_le r s)) [
  | inl e ↦ rw e ((e, All-IsLe r s rules e h), (h, hs))
  | inr e ↦
      rw e
        (All-insert_rule (IsLe s) r rules (key_le_total r s e) h, insert_rule-IsSorted r rules hs)
]

pub sort_rules-IsSorted : (rules : List CachedRule) → IsSorted (sort_rules rules)
unfolding sort_rules
sort_rules-IsSorted [] = tt
sort_rules-IsSorted (r ∷ rules) =
    insert_rule-IsSorted r (sort_rules rules) (sort_rules-IsSorted rules)

All-weaken :
    (P Q : CachedRule → Type 0) (rules : List CachedRule)
    → ((r : CachedRule) → P r → Q r)
    → All P rules
    → All Q rules
All-weaken P Q [] f h = tt
All-weaken P Q (r ∷ rules) f (h, hs) = (f r h, All-weaken P Q rules f hs)

-- A rule is one of a list.
abbrev pub IsAmong : CachedRule → List CachedRule → Type 0
IsAmong r [] = ⊥
IsAmong r (s ∷ rules) = (s ≡ r) ⊎ IsAmong r rules

pub each-IsAmong : (rules : List CachedRule) → All (λ r. IsAmong r rules) rules
each-IsAmong [] = tt
each-IsAmong (r ∷ rules) = (
  inl refl,
  All-weaken (λ s. IsAmong s rules) (λ s. IsAmong s (r ∷ rules)) rules (λ s a. inr a)
      (each-IsAmong rules),
)

key_le_refl : (r : CachedRule) → IsLe r r
unfolding key_le
key_le_refl r = ground (arith, is_none-some r.team_id)

if_cases :
    (b : Bool) (x y o : Option CachedRule)
    → (if b then x else y) ≡ o
    → ((b ≡ true) × (x ≡ o)) ⊎ ((b ≡ false) × (y ≡ o))
if_cases true x y o e = inl (refl, e)
if_cases false x y o e = inr (refl, e)

-- A rule that passes, that is below all others that do, and that has what all have.
abbrev pub Wins :
    (CachedRule → Bool) → (CachedRule → Type 0) → List CachedRule → CachedRule → Type 0
Wins test holds rules r = (test r ≡ true) × All (λ s. test s ≡ true → IsBelow r s) rules × holds r

module _ (test : CachedRule → Bool) (holds : CachedRule → Type 0) where
  -- The first of a sorted list that passes.
  pub first_lem :
      (rules : List CachedRule) (r : CachedRule)
      → IsSorted rules
      → All holds rules
      → find? test rules ≡ some r
      → Wins test holds rules r
  first_lem [] r h p e = ground (arith, e)
  first_lem (s ∷ rules) r (h, hs) (p, ps) e =
      elim (if_cases (test s) (some s) (find? test rules) (some r) e) [
        | inl c ↦
            subst (λ x. Wins test holds (s ∷ rules) x) (ap (λ o. unwrap_or o s) c.1)
              (
                c.0,
                (
                  (λ k. key_le-IsBelow s s (key_le_refl s)),
                  All-weaken (IsLe s) (λ t. test t ≡ true → IsBelow s t) rules
                      (λ t b k. key_le-IsBelow s t b) h,
                ),
                p,
              )
        | inr c ↦
            let w = first_lem rules r hs ps c.1 in (w.0, ((λ k. ground (arith, k, c.0)), w.1), w.2)
      ]

  pub none_lem :
      (rules : List CachedRule) → find? test rules ≡ none → All (λ s. test s ≡ false) rules
  none_lem [] e = tt
  none_lem (s ∷ rules) e = elim (if_cases (test s) (some s) (find? test rules) none e) [
    | inl c ↦ ground (arith, c.1)
    | inr c ↦ (c.0, none_lem rules c.1)
  ]
