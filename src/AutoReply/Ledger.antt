-- ===== src/AutoReply/Ledger.antt =====
-- The ledger of deliveries (`auto_reply_deliveries`): a reservation asks for the status, then inserts or
-- updates under a condition, which the database does in one step.
use support_center.Prelude.{
  ℕ, ◌+◌, String, Bool, Option, none, some, if◌then◌else◌, nat_eq, string_eq, option_eq, pair_eq,
  ◌==◌,
}
use support_center.HashMap
use support_center.HashMap.{HashMap}

pub record DeliveryRow : Type 0 where
  pub rule_id : ℕ
  pub conversation_id : String
  pub customer_id : ℕ
  pub status : String
  pub attempt_count : ℕ
  pub last_attempt_at : String
  pub delivery_method : Option String
  pub last_error : Option String
  pub sent_at : Option String
  pub created_at : String

-- By platform and the platform's message id, the key of the table.
abbrev pub Deliveries : Type 0
Deliveries = HashMap (String × String) DeliveryRow

pub record ReplyAttempt : Type 0 where
  pub platform : String
  pub mid : String
  pub rule_id : ℕ
  pub conversation_id : String
  pub customer_id : ℕ

pub data Reservation : Type 0 where
  reserved is_pending already_succeeded : Reservation
  reservation_error : String → Reservation

abbrev pub key_of : ReplyAttempt → String × String
key_of a = (a.platform, a.mid)

-- The status that a query returns.
abbrev status_in : Option DeliveryRow → Option String
status_in none = none
status_in (some row) = some row.status

unfoldable pub observe : ReplyAttempt → Deliveries → Option String
unfolding HashMap.get
observe a rows = status_in (HashMap.get rows (key_of a))

-- `UPDATE … WHERE … AND status = 'failed'`: the row count is one or nothing.
abbrev pub retried : String → DeliveryRow → DeliveryRow
retried now row = record row {
  status = "pending";
  attempt_count = row.attempt_count + 1;
  last_attempt_at = now;
}

unfoldable pub retry_row :
    String → ReplyAttempt → Option DeliveryRow → Deliveries → Reservation × Deliveries
unfolding HashMap.insert
retry_row now a none rows = (is_pending, rows)
retry_row now a (some row) rows =
    if row.status == "failed"
    then (reserved, HashMap.insert rows (key_of a) (retried now row))
    else (is_pending, rows)

abbrev pub first : String → ReplyAttempt → DeliveryRow
first now a = record {
  rule_id = a.rule_id;
  conversation_id = a.conversation_id;
  customer_id = a.customer_id;
  status = "pending";
  attempt_count = 1;
  last_attempt_at = now;
  delivery_method = none;
  last_error = none;
  sent_at = none;
  created_at = now;
}

-- `INSERT … ON CONFLICT DO NOTHING`.
unfoldable pub insert_row :
    String → ReplyAttempt → Option DeliveryRow → Deliveries → Reservation × Deliveries
unfolding HashMap.insert
insert_row now a none rows = (reserved, HashMap.insert rows (key_of a) (first now a))
insert_row now a (some row) rows = (is_pending, rows)

-- A statement that fails changes nothing.
abbrev pub unless_failed :
    Option String → Reservation × Deliveries → Deliveries → Reservation × Deliveries
unless_failed none r rows = r
unless_failed (some e) r rows = (reservation_error e, rows)

-- What follows the query, which other attempts may have made obsolete.
unfoldable pub claim :
    String → ReplyAttempt → Option String → Option String → Deliveries → Reservation × Deliveries
unfolding retry_row insert_row HashMap.get
claim now a failure none rows =
    unless_failed failure (insert_row now a (HashMap.get rows (key_of a)) rows) rows
claim now a failure (some status) rows =
    if status == "success"
    then (already_succeeded, rows)
    else if status == "pending"
    then (is_pending, rows)
    else unless_failed failure (retry_row now a (HashMap.get rows (key_of a)) rows) rows

-- Undisturbed; the failures are those of the query and of the statement after it.
unfoldable pub reserve_attempt :
    String → ReplyAttempt → Option String → Option String → Deliveries → Reservation × Deliveries
unfolding claim observe
reserve_attempt now a none failure rows = claim now a failure (observe a rows) rows
reserve_attempt now a (some e) failure rows = (reservation_error e, rows)

-- The result of a delivery, as the update after it writes it.
pub record Delivered : Type 0 where
  pub sent : Bool
  pub rule_id : ℕ
  pub has_reply_token : Bool
  pub error : Option String

abbrev pub settled : String → Delivered → DeliveryRow → DeliveryRow
settled now d row = record row {
  status = if d.sent then "success" else "failed";
  rule_id = d.rule_id;
  delivery_method = some (if d.has_reply_token then "reply" else "push");
  last_error = if d.sent then none else d.error;
  sent_at = if d.sent then some now else none;
}

unfoldable pub complete : String → String × String → Delivered → Deliveries → Deliveries
unfolding HashMap.modify
complete now key d rows = HashMap.modify (settled now d) rows key
