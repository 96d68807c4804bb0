-- ===== src/Gate/Examples.antt =====
-- Connections that are admitted, and what the gate does not look at.
use support_center.Prelude.{
  String, ◌≡◌, refl, true, some, List, [], ◌∷◌, nat_eq, string_eq, option_eq, pair_eq,
}
use support_center.Chars.{codes, trim, is_whitespace}
use support_center.Hub.{GatewayConfig}
use support_center.Json.{end}
use support_center.Hub.Step.{new}
use support_center.Hub.Users.{invalidate_access}
use support_center.Auth.{new_claims, AgentRow, Claims, Backend}
use support_center.Stores.TeamCache.{TeamMembership}
use support_center.Auth.Examples.{backend}
use support_center.Gate.{GateOutcome, GateState, Meanwhile, authorize, segments}
use support_center.Gate.Entry.{IsGranted, authorize_admits}
use support_center.Gate.Relabel.{relabelled, authorize-relabelled}

abbrev config : GatewayConfig
config = record {
  enabled = true;
  strategy = "immediate";
  rollout_percentage = 100;
  feature_flags = end;
}

abbrev asked : String
asked = "c1"

abbrev state : GateState
state = record { team_cache = []; hub = new config }

-- Nobody else is there.
abbrev alone : Meanwhile
alone = record { before_look_up = λ s. s; during_query = λ s. s; stored_at = 120 }

-- The conversation is assigned anew while its row is queried.
abbrev reassigned : Meanwhile
reassigned = record alone { during_query = λ s. record s { hub = invalidate_access "c1" s.hub } }

-- The database after the new assignment: the conversation belongs to another team.
abbrev moved : Backend
moved = record backend { conversation_team = λ cid. some (some (some 8)) }

abbrev outcome : GateOutcome
outcome = record {
  identity = record {
    user_id = "ann";
    email = "ann@example.org";
    display_name = "Ann";
    role = "agent";
    team_ids = 7 ∷ [];
  };
  exp = 8200;
}

authorize_admits_example :
    (c : Claims) × (r : AgentRow) × (t : List TeamMembership) × IsGranted backend 1500 100 alone
      (some (codes "a.b.c"))
      (some "c1")
      state
      outcome
      c
      r
      t
unfolding authorize new_claims segments trim is_whitespace
authorize_admits_example =
    authorize_admits backend "now" 1500 100 alone (some (codes "a.b.c")) (some "c1") state outcome
      refl

authorize-relabelled_example :
    authorize
      (relabelled "refresh" "j2" 5 (λ jti. some true) backend)
      "now"
      1500
      100
      alone
      (some (codes "a.b.c"))
      (some "c1")
      state
    ≡ authorize backend "now" 1500 100 alone (some (codes "a.b.c")) (some "c1") state
authorize-relabelled_example =
    authorize-relabelled "refresh" "j2" 5 (λ jti. some true) backend "now" 1500 100 alone
      (some (codes "a.b.c")) (some "c1") state
