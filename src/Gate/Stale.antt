-- ===== src/Gate/Stale.antt =====
-- How long a decision of the gate on a conversation lasts.
use support_center.Prelude.{String, Bool, nat_eq, string_eq, option_eq, pair_eq}
use support_center.Auth.{Result}
use support_center.Gate.{GateOutcome, Rejection, GateState, admit_if}

-- The later decision: that of the earlier one, and nothing changed.
abbrev pub same_answer :
    String → Bool → GateOutcome → GateState → Result Rejection GateOutcome × GateState
same_answer iso allowed o s = (admit_if iso allowed o, s)
