-- ===== src/Collab/Examples.antt =====
-- A small run of joining and typing.
use support_center.Prelude.{
  ◌+◌, ◌≤◌, ◌≡◌, refl, false, List, [], ◌∷◌, count_if, nat_eq, string_eq, option_eq, pair_eq,
}
use support_center.HashMap
use support_center.Collab.{Caller, Call, joins, leaves, types, after_calls, no_rooms, viewer_cap}
use support_center.Collab.Capacity.{viewer_count, is_typing_in, viewers_bounded}

abbrev ann : Caller
ann = record { user_id = "1"; username = "ann"; display_name = "Ann"; role = "agent" }

abbrev bob : Caller
bob = record { user_id = "2"; username = "bob"; display_name = "Bob"; role = "agent" }

abbrev calls : List Call
calls = joins 4 ann "t1" ∷ types 4 bob false 5 "t2" ∷ leaves 4 "1" ∷ []

viewers_bounded_example :
    viewer_count 4 (after_calls calls no_rooms) ≤ viewer_cap + count_if (is_typing_in 4) calls
viewers_bounded_example = viewers_bounded 4 calls

-- The end of a typing indicator alone makes a viewer.
one_viewer : viewer_count 4 (after_calls calls no_rooms) ≡ 1
unfolding after_calls HashMap.entry
one_viewer = refl
