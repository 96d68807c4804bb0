-- ===== src/Stores/BatchUndo.antt =====
-- BatchUndoStore: the prior state of a batch edit, under its undo token.
use support_center.Prelude.{
  ℕ, ◌-◌, ◌*◌, String, ◌≡◌, refl, Bool, Option, none, some, ltb, if◌then◌else◌, retain, nat_eq,
  string_eq, option_eq, pair_eq,
}
use support_center.HashMap
use support_center.HashMap.{HashMap}
use support_center.HashMap.Laws.{get-insert_self}
use support_center.Json.{Value}

pub record BatchUndoEntry : Type 0 where
  pub user_id : String
  pub created : ℕ
  pub snapshot : Value

abbrev pub batch_undo_retention : ℕ
batch_undo_retention = 60 * 1000000000

abbrev pub BatchUndoStore : Type 0
BatchUndoStore = HashMap String BatchUndoEntry

abbrev pub is_retained : ℕ → BatchUndoEntry → Bool
is_retained now e = ltb (now - e.created) batch_undo_retention

unfoldable pub restore : String → String → Value → ℕ → BatchUndoStore → BatchUndoStore
unfolding HashMap.insert
restore token user_id snapshot now entries =
    HashMap.insert entries token (record { user_id = user_id; created = now; snapshot = snapshot })

unfoldable pub put : String → String → Value → ℕ → BatchUndoStore → BatchUndoStore
unfolding HashMap.insert
put token user_id snapshot now entries =
    HashMap.insert (retain (λ e. is_retained now e.1) entries) token
      (record { user_id = user_id; created = now; snapshot = snapshot })

unfoldable pub taken : ℕ → Option BatchUndoEntry → Option (String × Value)
taken now none = none
taken now (some e) = if is_retained now e then some (e.user_id, e.snapshot) else none

-- Found, the entry is removed, whether or not it has expired.
unfoldable pub take : String → ℕ → BatchUndoStore → Option (String × Value) × BatchUndoStore
unfolding taken HashMap.get HashMap.remove
take token now entries = (taken now (HashMap.get entries token), HashMap.remove entries token)

module _ (token user_id : String) (snapshot : Value) (entries : BatchUndoStore) where
  -- A snapshot that was put, taken and restored, as it is for a caller who is not the owner, is
  -- returned exactly in the minute after the restore, whenever it was put.
  pub take-restore :
      (now again later : ℕ)
      → (take token later (
          restore token user_id snapshot again
            (take token again (put token user_id snapshot now entries)).1)).0
        ≡ (if ltb (later - again) batch_undo_retention then some (user_id, snapshot) else none)
  unfolding take restore taken
  take-restore now again later = rw get-insert_self refl
