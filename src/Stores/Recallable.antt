-- ===== src/Stores/Recallable.antt =====
-- RecallableMarkers: the delayed messages that can still be recalled, with the end of that time.
use support_center.Prelude.{
  ℕ, ◌+◌, String, Bool, false, Option, none, some, ltb, if◌then◌else◌, retain, nat_eq, string_eq,
  option_eq, pair_eq,
}
use support_center.HashMap
use support_center.HashMap.{HashMap}

abbrev pub RecallableMarkers : Type 0
RecallableMarkers = HashMap String ℕ

unfoldable pub mark : String → ℕ → ℕ → RecallableMarkers → RecallableMarkers
unfolding HashMap.insert
mark id ttl now entries = HashMap.insert (retain (λ e. ltb now e.1) entries) id (now + ttl)

unfoldable pub answer : ℕ → Option ℕ → Bool
answer now none = false
answer now (some expiry) = ltb now expiry

-- An expired marker is removed on the way.
unfoldable pub is_recallable : String → ℕ → RecallableMarkers → Bool × RecallableMarkers
unfolding answer HashMap.get HashMap.remove
is_recallable id now entries =
    let live = answer now (HashMap.get entries id) in
    (live, if live then entries else HashMap.remove entries id)

unfoldable pub clear : String → RecallableMarkers → RecallableMarkers
unfolding HashMap.remove
clear id entries = HashMap.remove entries id
