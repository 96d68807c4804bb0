-- ===== src/Queue/Outcome.antt =====
-- How `process_outbound` ends, and that what it returns, writes and broadcasts agree.
use support_center.Prelude.{
  ℕ, suc, ◌+◌, String, ◌≡◌, ◌≢◌, refl, ap, ◌∙◌, ◌⊎◌, inl, inr, Bool, true, false, Option, none,
  some, List, [], ◌∷◌, ◌++◌, arith, unwrap_or, length, nat_eq, string_eq, option_eq, pair_eq,
}
use support_center.Chars.{Text}
use support_center.Json.{Value, str_at}
use support_center.Queue.Worker.{WorkerError, validation, delivery, error_text}
use support_center.Queue.Outbound.{
  batch_cap, Sent, chunks, after_send, send_chunks, deliver, Outcome, row_status, report, assemble,
  process_outbound,
}
use support_center.Queue.Delivery.{concat, concat-chunks}

module _ (gateway : ℕ → List Text → Option Text) where
  -- The gateway accepts the chunks, the first of which has number `n`.
  abbrev pub Accepts : ℕ → List (List Text) → Type 0
  Accepts n [] = Unit {0}
  Accepts n (c ∷ cs) = (gateway n c ≡ none) × Accepts (suc n) cs

  -- The gateway accepts all chunks but the last, which it refuses with the error.
  abbrev pub Refuses : ℕ → List (List Text) → WorkerError → Type 0
  Refuses n sent e =
      (before : List (List Text)) × (chunk : List Text) × (t : Text) × (sent ≡ before ++ chunk ∷ [])
      × Accepts n before
      × (gateway (n + length before) chunk ≡ some t)
      × (e ≡ delivery t)

  abbrev Ends : ℕ → List (List Text) → Sent → Type 0
  Ends n cs (sent, none) = (sent ≡ cs) × Accepts n sent
  Ends n cs (sent, some e) = Refuses n sent e

  after_send-Ends :
      (n : ℕ) (o : Option Text) (c : List Text) (cs : List (List Text)) (later : Sent)
      → gateway n c ≡ o
      → Ends (suc n) cs later
      → Ends n (c ∷ cs) (after_send o c later)
  unfolding after_send
  after_send-Ends n none c cs (sent, none) g (same, a) = (ap (λ s. c ∷ s) same, (g, a))
  after_send-Ends n none c cs (sent, some e) g (before, chunk, t, s, a, h, k) =
      let index : n + length (c ∷ before) ≡ suc n + length before = omega arith in
      (c ∷ before, chunk, t, ap (λ s. c ∷ s) s, (g, a), ap (λ i. gateway i chunk) index ∙ h, k)
  after_send-Ends n (some t) c cs later g h =
      let index : n + 0 ≡ n = omega arith in
      ([], c, t, refl, tt, ap (λ i. gateway i c) index ∙ g, refl)

  send_chunks-Ends : (n : ℕ) (cs : List (List Text)) → Ends n cs (send_chunks gateway n cs)
  unfolding send_chunks
  send_chunks-Ends n [] = (refl, tt)
  send_chunks-Ends n (c ∷ cs) =
      after_send-Ends n (gateway n c) c cs (send_chunks gateway (suc n) cs) refl
        (send_chunks-Ends (suc n) cs)

  -- All messages were accepted, and there were some.
  abbrev pub IsComplete : List Text → List (List Text) → Type 0
  IsComplete items sent = (items ≢ []) × (concat sent ≡ items) × Accepts 0 sent

  -- There was no message, or the last chunk that was handed over was refused.
  abbrev pub HasFailed : List Text → List (List Text) → WorkerError → Type 0
  HasFailed items sent e =
      ((items ≡ []) × (sent ≡ []) × (e ≡ validation "no messages to send")) ⊎ (Refuses 0 sent e)

  abbrev Delivers : List Text → Sent → Type 0
  Delivers items (sent, none) = IsComplete items sent
  Delivers items (sent, some e) = HasFailed items sent e

  Ends-Delivers :
      (item : Text) (items : List Text) (cs : List (List Text)) (s : Sent)
      → concat cs ≡ item ∷ items
      → Ends 0 cs s
      → Delivers (item ∷ items) s
  Ends-Delivers item items cs (sent, none) whole (same, a) =
      ((λ e. cc), ap (λ cs. concat cs) same ∙ whole, a)
  Ends-Delivers item items cs (sent, some e) whole h = inr h

  deliver-Delivers : (items : List Text) → Delivers items (deliver gateway items)
  unfolding deliver
  deliver-Delivers [] = inl (refl, refl, refl)
  deliver-Delivers (item ∷ items) =
      let cs = chunks (length (item ∷ items)) batch_cap (item ∷ items) in
      Ends-Delivers item items cs (send_chunks gateway 0 cs)
        (concat-chunks (length (item ∷ items)) batch_cap (item ∷ items) (omega arith) (omega arith))
        (send_chunks-Ends 0 cs)

  -- What is returned, written and broadcast for a complete delivery, or for a failed one.
  abbrev pub Agrees : Bool → List Text → Outcome → Type 0
  Agrees updated items o =
      ((o.result ≡ none)
        × IsComplete items o.sent
        × (o.broadcast.success ≡ true)
        × (o.broadcast.error ≡ none)
        × (o.delivery_status ≡ row_status updated "delivered"))
      ⊎ ((e : WorkerError) × (o.result ≡ some e)
          × HasFailed items o.sent e
          × (o.broadcast.success ≡ false)
          × (o.broadcast.error ≡ some (error_text e))
          × (o.delivery_status ≡ row_status updated "failed"))

  report-Agrees :
      (updated : Bool) (body : Value) (items : List Text) (s : Sent)
      → Delivers items s
      → Agrees updated items (report updated body s)
  unfolding report
  report-Agrees updated body items (sent, none) h = inl (refl, h, refl, refl, refl)
  report-Agrees updated body items (sent, some e) h = inr (e, refl, h, refl, refl, refl)

-- Either there is no error, the gateway accepted every chunk and these are together the assembled
-- messages, of which there is one at least, and a success is broadcast; or there is an error, because
-- there was no message or because the gateway refused the last chunk it was handed and accepted those
-- before, and a failure with the text of the error is broadcast. If the UPDATE of the row succeeds it
-- writes "delivered" or "failed" accordingly; if it fails, the row is left and all else is the same.
pub process_outbound-Agrees :
    (gateway : String → ℕ → List Text → Option Text) (updated : Bool) (body : Value)
    → Agrees
        (gateway (unwrap_or (str_at body "recipientId") ""))
        updated
        (assemble body)
        (process_outbound gateway updated body)
unfolding process_outbound
process_outbound-Agrees gateway updated body =
    let to = gateway (unwrap_or (str_at body "recipientId") "") in
    report-Agrees to updated body (assemble body) (deliver to (assemble body))
      (deliver-Delivers to (assemble body))
