-- ===== src/Stores/TeamCache.antt =====
-- TeamCache: the memberships of a user, for as long as the caller accepts.
use support_center.Prelude.{
  ℕ, ◌-◌, String, Bool, Option, none, some, List, ltb, if◌then◌else◌, nat_eq, string_eq, option_eq,
  pair_eq,
}
use support_center.HashMap
use support_center.HashMap.{HashMap}

-- The team id is only compared.
pub record TeamMembership : Type 0 where
  pub team_id : ℕ
  pub role : String
  pub is_primary : Bool

abbrev pub TeamCache : Type 0
TeamCache = HashMap String (ℕ × List TeamMembership)

unfoldable pub fresh : ℕ → ℕ → Option (ℕ × List TeamMembership) → Option (List TeamMembership)
fresh max_age now none = none
fresh max_age now (some (at, teams)) = if ltb (now - at) max_age then some teams else none

unfoldable pub get : String → ℕ → ℕ → TeamCache → Option (List TeamMembership)
unfolding fresh HashMap.get
get user_id max_age now entries = fresh max_age now (HashMap.get entries user_id)

unfoldable pub put : String → List TeamMembership → ℕ → TeamCache → TeamCache
unfolding HashMap.insert
put user_id teams now entries = HashMap.insert entries user_id (now, teams)

unfoldable pub invalidate : String → TeamCache → TeamCache
unfolding HashMap.remove
invalidate user_id entries = HashMap.remove entries user_id
