-- ===== src/Queue/Outbound.antt =====
-- `process_outbound`: the message set of a job, its chunks, and what is written and broadcast. The
-- gateway is an argument: the error of the n-th chunk that is handed to it, if it fails.
use support_center.Prelude.{
  ℕ, zero, suc, ◌+◌, ◌/◌, ◌%◌, String, Bool, true, false, ◌&&◌, ◌||◌, Option, none, some, List, [],
  ◌∷◌, ◌++◌, map, ltb, if◌then◌else◌, unwrap_or, length, nat_eq, string_eq, option_eq, pair_eq,
  ◌==◌,
}
use support_center.Prelude.{drop}
use support_center.Chars.{Text, codes, trim, starts_with, ends_with}
use support_center.Json.{Value, str_at, u64_at, array_at, member, and_then}
use support_center.Queue.Worker.{WorkerError, validation, delivery, error_text}

abbrev pub batch_cap : ℕ
batch_cap = 5

-- `format!("{n}")`; a number has no more digits than its value plus one.
unfoldable pub decimal_from : ℕ → ℕ → Text
decimal_from zero n = []
decimal_from (suc fuel) n =
    let higher = decimal_from fuel (n / 10) in
    if ltb n 10 then (48 + n) ∷ [] else higher ++ (48 + n % 10) ∷ []

unfoldable pub decimal : ℕ → Text
unfolding decimal_from
decimal n = decimal_from (n + 1) n

-- The full-width parentheses are U+FF08 and U+FF09.
unfoldable pub is_placeholder : Text → Bool
is_placeholder content =
    let c = trim content in
    starts_with c (codes "Sent a file:")
    || (starts_with c (codes "Sent ") && ends_with c (codes " files"))
    || (starts_with c (b'[' ∷ []) && ends_with c (b']' ∷ []))
    || (starts_with c (0xff08 ∷ []) && ends_with c (0xff09 ∷ []))

unfoldable pub attachment_text : Value → Text
unfolding decimal
attachment_text att =
    let url = codes (unwrap_or (str_at att "url") "") in
    if unwrap_or (str_at att "type") "file" == "image"
    then codes "[Image] " ++ url
    else codes "[File] "
      ++ codes (unwrap_or (str_at att "filename") "file")
      ++ codes " ("
      ++ codes (unwrap_or (str_at att "mimeType") "")
      ++ codes ", "
      ++ decimal (unwrap_or (u64_at att "size") 0)
      ++ codes " bytes) "
      ++ url

unfoldable pub assemble : Value → List Text
unfolding is_placeholder attachment_text
assemble body =
    let content = codes (unwrap_or (str_at body "content") "") in
    (if length content == 0 || is_placeholder content then [] else content ∷ [])
    ++ map attachment_text (array_at body "attachments")

-- `items.chunks(size)`; as much fuel as there are items is enough.
unfoldable pub take {ℓ} : {A : Type ℓ} → ℕ → List A → List A
take zero xs = []
take (suc n) [] = []
take (suc n) (x ∷ xs) = x ∷ take n xs

unfoldable pub chunks {ℓ} : {A : Type ℓ} → ℕ → ℕ → List A → List (List A)
unfolding take
chunks zero size xs = []
chunks (suc fuel) size [] = []
chunks (suc fuel) size (x ∷ xs) = take size (x ∷ xs) ∷ chunks fuel size (drop size (x ∷ xs))

abbrev pub Sent : Type 0
Sent = List (List Text) × Option WorkerError

-- An accepted chunk goes on to the later ones, a failed one ends the loop.
unfoldable pub after_send : Option Text → List Text → Sent → Sent
after_send none chunk later = (chunk ∷ later.0, later.1)
after_send (some e) chunk later = (chunk ∷ [], some (delivery e))

-- The chunks that were handed to the gateway, the failed one too, and how the loop ended. `n` is
-- the number of the next chunk.
unfoldable pub send_chunks : (ℕ → List Text → Option Text) → ℕ → List (List Text) → Sent
unfolding after_send
send_chunks gateway n [] = ([], none)
send_chunks gateway n (chunk ∷ rest) =
    after_send (gateway n chunk) chunk (send_chunks gateway (suc n) rest)

-- The status broadcast to the conversation and mirrored to the other instances.
pub record DeliveryStatus : Type 0 where
  pub message_id : String
  pub conversation_id : String
  pub success : Bool
  pub error : Option Text
  pub retry_count : Option ℕ

-- `delivery_status` is what the row of the message is given; `none` leaves it as it is.
pub record Outcome : Type 0 where
  pub sent : List (List Text)
  pub delivery_status : Option String
  pub broadcast : DeliveryStatus
  pub result : Option WorkerError

unfoldable pub deliver : (ℕ → List Text → Option Text) → List Text → Sent
unfolding send_chunks chunks
deliver gateway [] = ([], some (validation "no messages to send"))
deliver gateway (item ∷ items) =
    send_chunks gateway 0 (chunks (length (item ∷ items)) batch_cap (item ∷ items))

-- What an UPDATE writes; that it failed is logged and changes nothing else.
abbrev pub row_status : Bool → String → Option String
row_status true status = some status
row_status false status = none

-- `updated` says whether the UPDATE of the row succeeds.
unfoldable pub report : Bool → Value → Sent → Outcome
report updated body (sent, none) = record {
  sent = sent;
  delivery_status = row_status updated "delivered";
  broadcast = record {
    message_id = unwrap_or (str_at body "messageId") "";
    conversation_id = unwrap_or (str_at body "conversationId") "";
    success = true;
    error = none;
    retry_count = none;
  };
  result = none;
}
report updated body (sent, some e) = record {
  sent = sent;
  delivery_status = row_status updated "failed";
  broadcast = record {
    message_id = unwrap_or (str_at body "messageId") "";
    conversation_id = unwrap_or (str_at body "conversationId") "";
    success = false;
    error = some (error_text e);
    retry_count =
        some (unwrap_or (and_then (member body "metadata") (λ m. u64_at m "retryCount")) 0);
  };
  result = some e;
}

-- The gateway is told the recipient of the body.
unfoldable pub process_outbound : (String → ℕ → List Text → Option Text) → Bool → Value → Outcome
unfolding assemble deliver report
process_outbound gateway updated body =
    report updated body
      (deliver (gateway (unwrap_or (str_at body "recipientId") "")) (assemble body))
