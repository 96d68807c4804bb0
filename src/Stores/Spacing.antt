-- ===== src/Stores/Spacing.antt =====
-- How often the debounce lets a write through.
use support_center.Prelude.{
  ℕ, ◌+◌, ◌≤◌, ◌<◌, String, ◌≡◌, refl, ap, ◌∙◌, inl, inr, true, ◌&&◌, List, [], ◌∷◌, arith,
  if◌then◌else◌, Bool-cases, head?, nat_eq, string_eq, option_eq, pair_eq, ◌==◌, ==_sound,
}
use support_center.HashMap
use support_center.HashMap.{HashMap}
use support_center.HashMap.Laws.{get-insert}
use support_center.Stores.Debounce.{LastActiveDebounce, is_due, should_persist}

-- The times at which a user's activity is written, the newest first, over calls of any users.
unfoldable pub written : String → ℕ → List (String × ℕ) → LastActiveDebounce → List ℕ → List ℕ
unfolding should_persist
written user_id interval [] entries log = log
written user_id interval ((other, now) ∷ calls) entries log =
    let r = should_persist other interval now entries in
    written user_id interval calls r.1 (if other == user_id && r.0 then now ∷ log else log)

-- Each time is at least the interval after the one before it.
abbrev pub IsSpaced : ℕ → List ℕ → Type 0
IsSpaced interval [] = Unit
IsSpaced interval (t ∷ []) = Unit
IsSpaced interval (t ∷ s ∷ log) = (s + interval ≤ t) × IsSpaced interval (s ∷ log)

push-IsSpaced :
    (interval now : ℕ) (log : List ℕ)
    → 0 < interval
    → is_due interval now (head? log) ≡ true
    → IsSpaced interval log
    → IsSpaced interval (now ∷ log)
unfolding is_due
push-IsSpaced interval now [] positive due s = tt
push-IsSpaced interval now (last ∷ log) positive due s = (ground arith, s)

module _ (user_id : String) (interval : ℕ) (positive : 0 < interval) where
  step-IsSpaced :
      (other : String) (now : ℕ) (entries : LastActiveDebounce) (log : List ℕ)
      → HashMap.get entries user_id ≡ head? log
      → IsSpaced interval log
      → let r = should_persist other interval now entries in
        let later = if other == user_id && r.0 then now ∷ log else log in
        (HashMap.get r.1 user_id ≡ head? later) × IsSpaced interval later
  unfolding should_persist
  step-IsSpaced other now entries log e s = elim (Bool-cases (other == user_id)) [
    | inl same ↦
        let mine : HashMap.get entries other ≡ head? log =
          ap (λ k. HashMap.get entries k) (==_sound other user_id same) ∙ e in
        elim (Bool-cases (is_due interval now (head? log))) [
          | inl due ↦
              rw (same, mine, due)
                (
                  rw (get-insert entries other user_id now, same) refl,
                  push-IsSpaced interval now log positive due s,
                )
          | inr early ↦ rw (same, mine, early) (e, s)
        ]
    | inr away ↦ elim (Bool-cases (is_due interval now (HashMap.get entries other))) [
      | inl due ↦ rw (away, due) (rw (get-insert entries other user_id now, away) e, s)
      | inr early ↦ rw (away, early) (e, s)
    ]
  ]

  written-IsSpaced :
      (calls : List (String × ℕ)) (entries : LastActiveDebounce) (log : List ℕ)
      → HashMap.get entries user_id ≡ head? log
      → IsSpaced interval log
      → IsSpaced interval (written user_id interval calls entries log)
  unfolding written
  written-IsSpaced [] entries log e s = s
  written-IsSpaced ((other, now) ∷ calls) entries log e s =
      let r = step-IsSpaced other now entries log e s in
      written-IsSpaced calls (should_persist other interval now entries).1 _ r.0 r.1

-- Whatever users act at whatever times, two writes of one user's last activity are at least the
-- interval apart.
pub debounced :
    (user_id : String) (interval : ℕ) (calls : List (String × ℕ))
    → 0 < interval
    → IsSpaced interval (written user_id interval calls [] [])
unfolding HashMap.get
debounced user_id interval calls positive =
    written-IsSpaced user_id interval positive calls [] [] refl tt
