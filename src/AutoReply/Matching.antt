-- ===== src/AutoReply/Matching.antt =====
-- Conditions on a message. Lower-casing and regular expressions are the libraries'.
use support_center.Prelude.{
  ◌+◌, String, Bool, true, false, ◌&&◌, List, [], ◌∷◌, map, leb, if◌then◌else◌, any, all, nat_eq,
  string_eq, option_eq, pair_eq, ◌==◌,
}
use support_center.Chars.{Text, codes, trim, contains, same_text}
use support_center.AutoReply.{CachedCondition, CachedRule}

-- `regex` tells if a pattern is valid and matches, given whether the case counts.
pub record TextTools : Type 0 where
  pub to_lowercase : Text → Text
  pub regex : String → Bool → String → Bool

unfoldable pub ascii_lower : Text → Text
ascii_lower s = map (λ c. if leb b'A' c && leb c b'Z' then c + 32 else c) s

unfoldable pub eq_ignore_ascii_case : Text → Text → Bool
unfolding ascii_lower same_text
eq_ignore_ascii_case s t = same_text (ascii_lower s) (ascii_lower t)

abbrev folded : TextTools → Bool → String → Text
folded tools case_sensitive s = if case_sensitive then codes s else tools.to_lowercase (codes s)

unfoldable pub condition_matches : TextTools → CachedCondition → String → String → Bool
unfolding eq_ignore_ascii_case same_text contains trim
condition_matches tools cond text message_type =
    let hay = folded tools cond.case_sensitive text in
    let needle = folded tools cond.case_sensitive cond.value in
    if cond.condition_type == "exact"
    then same_text (trim hay) (trim needle)
    else if cond.condition_type == "contains"
    then contains hay needle
    else if cond.condition_type == "regex"
    then tools.regex cond.value cond.case_sensitive text
    else if cond.condition_type == "message_type"
    then eq_ignore_ascii_case (codes message_type) (trim (codes cond.value))
    else false

abbrev pub has_no_conditions : List CachedCondition → Bool
has_no_conditions [] = true
has_no_conditions (c ∷ cs) = false

-- One condition that asks for all makes the rule ask for all.
unfoldable pub keyword_rule_matches : TextTools → CachedRule → String → String → Bool
unfolding condition_matches
keyword_rule_matches tools rule text message_type =
    if has_no_conditions rule.conditions
    then false
    else if any (λ c. c.match_mode == "all") rule.conditions
    then all (λ c. condition_matches tools c text message_type) rule.conditions
    else any (λ c. condition_matches tools c text message_type) rule.conditions
