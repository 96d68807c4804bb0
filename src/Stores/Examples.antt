-- ===== src/Stores/Examples.antt =====
-- The laws of the stores at small inputs.
use support_center.Prelude.{
  ◌-◌, ◌≡◌, refl, none, some, List, [], ◌∷◌, arith, ltb, if◌then◌else◌, nat_eq, string_eq,
  option_eq, pair_eq,
}
use support_center.Json.{null}
use support_center.Stores.BatchUndo
use support_center.Stores.BatchUndo.{batch_undo_retention, take-restore}
use support_center.Stores.ShopeeOauth
use support_center.Stores.ShopeeOauth.{Call, puts, takes, take_once}
use support_center.Stores.Spacing.{written, IsSpaced, debounced}

take-restore_example :
    (BatchUndo.take "t" 70 (
      BatchUndo.restore "t" "ann" null 55
        (BatchUndo.take "t" 55 (BatchUndo.put "t" "ann" null 5 [])).1)).0
    ≡ (if ltb (70 - 55) batch_undo_retention then some ("ann", null) else none)
take-restore_example = take-restore "t" "ann" null [] 5 55 70

abbrev calls : List Call
calls = puts "other" "bob" 9 none 7 ∷ takes "other" 8 ∷ []

take_once_example :
    (ShopeeOauth.take "state" 20 (
      ShopeeOauth.run calls
        (ShopeeOauth.take "state" 6 (ShopeeOauth.put "state" "ann" 42 (some 7) 5 [])).1)).0
    ≡ none
take_once_example =
    take_once "state" 6 20 calls (ShopeeOauth.put "state" "ann" 42 (some 7) 5 []) (refl, (tt, tt))

debounced_example :
    IsSpaced 30
      (written "ann" 30 (("ann", 100) ∷ ("bob", 110) ∷ ("ann", 120) ∷ ("ann", 140) ∷ []) [] [])
debounced_example =
    debounced "ann" 30 (("ann", 100) ∷ ("bob", 110) ∷ ("ann", 120) ∷ ("ann", 140) ∷ [])
      (omega arith)
