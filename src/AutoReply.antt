-- ===== src/AutoReply.antt =====
-- backend/src/domain/auto_reply/engine.rs: the rules, their cache and their order. A team id is only
-- compared; a priority is the 64 bits of a signed number.
pub mod Matching
pub mod Hours
pub mod Dispatch
pub mod Ledger
pub mod Evaluate
pub mod Follow
pub mod Order
pub mod Winner
pub mod Attempts
pub mod AtMostOnce
mod Examples
use support_center.Prelude.{
  ℕ, ◌+◌, ◌-◌, ◌*◌, ◌%◌, ◌^◌, String, Bool, not, ◌&&◌, ◌||◌, Option, none, some, List, [], ◌∷◌,
  ◌++◌, map, ltb, if◌then◌else◌, unwrap_or, is_none, is_some, nat_eq, option_eq, ◌==◌,
}
use support_center.HashMap
use support_center.HashMap.{HashMap}
use support_center.Auth.{Result, ok, err, ◌>>=◌}

abbrev pub cache_ttl : ℕ
cache_ttl = 60 * 1000000000

pub record CachedCondition : Type 0 where
  pub condition_type : String
  pub value : String
  pub case_sensitive : Bool
  pub match_mode : String

pub record CachedAction : Type 0 where
  pub action_type : String
  pub content : String

pub record CachedRule : Type 0 where
  pub id : ℕ
  pub team_id : Option ℕ
  pub name : String
  pub trigger_type : String
  pub priority : ℕ
  pub allow_fallback : Bool
  pub conditions : List CachedCondition
  pub actions : List CachedAction

-- A scope is a team, or none for the rules of all teams.
abbrev pub RuleCache : Type 0
RuleCache = HashMap (Option ℕ) (ℕ × List CachedRule)

unfoldable pub unexpired_rules : ℕ → Option (ℕ × List CachedRule) → Option (List CachedRule)
unexpired_rules now none = none
unexpired_rules now (some (at, rules)) = if ltb (now - at) cache_ttl then some rules else none

unfoldable pub cached_rules : Option ℕ → ℕ → RuleCache → Option (List CachedRule)
unfolding unexpired_rules HashMap.get
cached_rules scope now entries = unexpired_rules now (HashMap.get entries scope)

unfoldable pub store_rules : Option ℕ → List CachedRule → ℕ → RuleCache → RuleCache
unfolding HashMap.insert
store_rules scope rules now entries = HashMap.insert entries scope (now, rules)

unfoldable pub invalidate_rules : Option ℕ → RuleCache → RuleCache
unfolding HashMap.remove
invalidate_rules scope entries = HashMap.remove entries scope

pub record RuleRow : Type 0 where
  pub id : ℕ
  pub team_id : Option ℕ
  pub name : String
  pub trigger_type : String
  pub priority : ℕ
  pub allow_fallback : ℕ

pub record ConditionRow : Type 0 where
  pub condition_type : String
  pub value : Option String
  pub case_sensitive : ℕ
  pub match_mode : String

pub record ActionRow : Type 0 where
  pub action_type : String
  pub content : Option String

-- The queries for rules, or the text of their failure.
pub record RuleTables : Type 0 where
  pub rule_rows : Option ℕ → Result String (List RuleRow)
  pub condition_rows : ℕ → Result String (List ConditionRow)
  pub action_rows : ℕ → Result String (List ActionRow)

unfoldable pub condition_of : ConditionRow → CachedCondition
condition_of row = record {
  condition_type = row.condition_type;
  value = unwrap_or row.value "";
  case_sensitive = not (row.case_sensitive == 0);
  match_mode = row.match_mode;
}

unfoldable pub action_of : ActionRow → CachedAction
action_of row = record { action_type = row.action_type; content = unwrap_or row.content "" }

unfoldable pub rule_of : RuleRow → List ConditionRow → List ActionRow → CachedRule
unfolding condition_of action_of
rule_of row conditions actions = record {
  id = row.id;
  team_id = row.team_id;
  name = row.name;
  trigger_type = row.trigger_type;
  priority = row.priority;
  allow_fallback = not (row.allow_fallback == 0);
  conditions = map condition_of conditions;
  actions = map action_of actions;
}

unfoldable pub load_rows : RuleTables → List RuleRow → Result String (List CachedRule)
unfolding rule_of
load_rows tables [] = ok []
load_rows tables (row ∷ rows) = do
  conditions ← tables.condition_rows row.id
  actions ← tables.action_rows row.id
  rules ← load_rows tables rows
  ok (rule_of row conditions actions ∷ rules)

unfoldable pub load_scope : RuleTables → Option ℕ → Result String (List CachedRule)
unfolding load_rows
load_scope tables scope = do rows ← tables.rule_rows scope; load_rows tables rows

unfoldable pub load_and_store :
    Result String (List CachedRule)
    → Option ℕ
    → ℕ
    → RuleCache
    → Result String (List CachedRule) × RuleCache
unfolding store_rules
load_and_store (err e) scope now cache = (err e, cache)
load_and_store (ok rules) scope now cache = (ok rules, store_rules scope rules now cache)

unfoldable pub cached_or_loaded :
    Option (List CachedRule)
    → RuleTables
    → Option ℕ
    → ℕ
    → RuleCache
    → Result String (List CachedRule) × RuleCache
unfolding load_and_store load_scope
cached_or_loaded (some rules) tables scope now cache = (ok rules, cache)
cached_or_loaded none tables scope now cache =
    load_and_store (load_scope tables scope) scope now cache

unfoldable pub rules_of :
    RuleTables → Option ℕ → ℕ → RuleCache → Result String (List CachedRule) × RuleCache
unfolding cached_or_loaded cached_rules
rules_of tables scope now cache =
    cached_or_loaded (cached_rules scope now cache) tables scope now cache

-- The order of signed numbers, on their 64 bits.
abbrev pub signed : ℕ → ℕ
signed n = (n + 2 ^ 63) % 2 ^ 64

-- `(r.priority, r.team_id.is_none())` is not above that of the other.
unfoldable pub key_le : CachedRule → CachedRule → Bool
key_le r s =
    ltb (signed r.priority) (signed s.priority)
    || signed r.priority == signed s.priority && (is_some r.team_id || is_none s.team_id)

-- `sort_by_key`, which keeps the order of equal keys.
unfoldable pub insert_rule : CachedRule → List CachedRule → List CachedRule
unfolding key_le
insert_rule r [] = r ∷ []
insert_rule r (s ∷ rules) = if key_le r s then r ∷ s ∷ rules else s ∷ insert_rule r rules

unfoldable pub sort_rules : List CachedRule → List CachedRule
unfolding insert_rule
sort_rules [] = []
sort_rules (r ∷ rules) = insert_rule r (sort_rules rules)

unfoldable pub merge_rules :
    List CachedRule → Result String (List CachedRule) → Result String (List CachedRule)
unfolding sort_rules
merge_rules general (err e) = err e
merge_rules general (ok team_rules) = ok (sort_rules (general ++ team_rules))

unfoldable pub with_general :
    Result String (List CachedRule)
    → RuleTables
    → Option ℕ
    → ℕ
    → RuleCache
    → Result String (List CachedRule) × RuleCache
unfolding merge_rules rules_of
with_general (err e) tables team now cache = (err e, cache)
with_general (ok general) tables none now cache = (ok (sort_rules general), cache)
with_general (ok general) tables (some team) now cache =
    let t = rules_of tables (some team) now cache in (merge_rules general t.0, t.1)

unfoldable pub applicable_rules :
    RuleTables → Option ℕ → ℕ → RuleCache → Result String (List CachedRule) × RuleCache
unfolding with_general rules_of
applicable_rules tables team now cache =
    let g = rules_of tables none now cache in with_general g.0 tables team now g.1
