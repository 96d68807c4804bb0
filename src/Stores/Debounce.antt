-- ===== src/Stores/Debounce.antt =====
-- LastActiveDebounce: when the last activity of a user is written.
use support_center.Prelude.{
  ℕ, ◌-◌, String, Bool, true, not, Option, none, some, ltb, if◌then◌else◌, nat_eq, string_eq,
  option_eq, pair_eq,
}
use support_center.HashMap
use support_center.HashMap.{HashMap}

abbrev pub LastActiveDebounce : Type 0
LastActiveDebounce = HashMap String ℕ

unfoldable pub is_due : ℕ → ℕ → Option ℕ → Bool
is_due interval now none = true
is_due interval now (some last) = not (ltb (now - last) interval)

unfoldable pub should_persist : String → ℕ → ℕ → LastActiveDebounce → Bool × LastActiveDebounce
unfolding is_due HashMap.get HashMap.insert
should_persist user_id interval now entries =
    let due = is_due interval now (HashMap.get entries user_id) in
    (due, if due then HashMap.insert entries user_id now else entries)
