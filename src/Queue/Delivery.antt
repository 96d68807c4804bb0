-- ===== src/Queue/Delivery.antt =====
-- What `process_outbound` hands to the gateway: chunks of at most five messages, in order.
use support_center.Prelude.{
  ℕ, zero, suc, ◌+◌, ◌≤◌, ◌<◌, String, ◌≡◌, refl, sym, ap, ◌∙◌, Option, none, some, List, [], ◌∷◌,
  ◌++◌, arith, Bool, unwrap_or, length, length-append, All, nat_eq, string_eq, option_eq, pair_eq,
}
use support_center.Prelude.{drop, length-drop}
use support_center.Chars.{Text}
use support_center.Json.{Value, str_at}
use support_center.Queue.Outbound.{
  batch_cap, Sent, take, chunks, after_send, send_chunks, deliver, report, assemble,
  process_outbound,
}

unfoldable pub concat {ℓ} : {A : Type ℓ} → List (List A) → List A
concat [] = []
concat (x ∷ xs) = x ++ concat xs

module _ {ℓ} {A : Type ℓ} where
  append_nil : (xs : List A) → xs ++ [] ≡ xs
  append_nil [] = refl
  append_nil (x ∷ xs) = rw (append_nil xs)

  take-drop : (n : ℕ) (xs : List A) → take n xs ++ drop n xs ≡ xs
  unfolding take
  take-drop zero xs = refl
  take-drop (suc n) [] = refl
  take-drop (suc n) (x ∷ xs) = rw (take-drop n xs)

  length-take : (n : ℕ) (xs : List A) → length (take n xs) ≤ n
  unfolding take
  length-take zero xs = omega arith
  length-take (suc n) [] = omega arith
  length-take (suc n) (x ∷ xs) = omega (arith, length-take n xs)

  pub concat-chunks :
      (fuel size : ℕ) (xs : List A)
      → 0 < size
      → length xs ≤ fuel
      → concat (chunks fuel size xs) ≡ xs
  unfolding concat chunks
  concat-chunks zero size [] h e = refl
  concat-chunks zero size (x ∷ xs) h e = absurd (omega (arith, e))
  concat-chunks (suc fuel) size [] h e = refl
  concat-chunks (suc fuel) size (x ∷ xs) h e =
      rw (concat-chunks fuel size (drop size (x ∷ xs)) h (omega (arith, length-drop size (x ∷ xs))))
        (take-drop size (x ∷ xs))

  -- At least one message and at most `size`.
  abbrev pub IsChunk : ℕ → List A → Type 0
  IsChunk size c = (0 < length c) × (length c ≤ size)

  chunks-IsChunk :
      (fuel size : ℕ) (xs : List A) → 0 < size → All (IsChunk size) (chunks fuel size xs)
  unfolding chunks take
  chunks-IsChunk zero size xs h = tt
  chunks-IsChunk (suc fuel) size [] h = tt
  chunks-IsChunk (suc fuel) zero (x ∷ xs) h = absurd (omega (arith, h))
  chunks-IsChunk (suc fuel) (suc n) (x ∷ xs) h =
      ((omega arith, omega (arith, length-take n xs)), chunks-IsChunk fuel (suc n) (drop n xs) h)

  take_prefix : (xs ys : List A) → take (length xs) (xs ++ ys) ≡ xs
  unfolding take
  take_prefix [] ys = refl
  take_prefix (x ∷ xs) ys = rw (take_prefix xs ys)

  take_nil : (n : ℕ) → take {A = A} n [] ≡ []
  unfolding take
  take_nil zero = refl
  take_nil (suc n) = refl

  take-append : (n : ℕ) (xs ys : List A) → take (length xs + n) (xs ++ ys) ≡ xs ++ take n ys
  unfolding take
  take-append n [] ys = ap (λ i. take i ys) (omega arith)
  take-append n (x ∷ xs) ys =
      let same : suc (length xs) + n ≡ suc (length xs + n) = omega arith in
      ap (λ i. take i (x ∷ (xs ++ ys))) same ∙ ap (λ zs. x ∷ zs) (take-append n xs ys)

after_send-prefix :
    (o : Option Text) (c : List Text) (later : Sent) (cs : List (List Text))
    → (take (length (concat later.0)) (concat cs) ≡ concat later.0)
    → take (length (concat (after_send o c later).0)) (c ++ concat cs)
      ≡ concat (after_send o c later).0
unfolding after_send concat
after_send-prefix none c later cs h =
    rw (length-append c (concat later.0))
      (take-append (length (concat later.0)) c (concat cs) ∙ ap (λ r. c ++ r) h)
after_send-prefix (some m) c later cs h = rw (append_nil c) (take_prefix c (concat cs))

after_send-IsChunk :
    (size : ℕ) (o : Option Text) (c : List Text) (later : Sent)
    → IsChunk size c
    → All (IsChunk size) later.0
    → All (IsChunk size) (after_send o c later).0
unfolding after_send
after_send-IsChunk size none c later h hs = (h, hs)
after_send-IsChunk size (some m) c later h hs = (h, tt)

module _ (gateway : ℕ → List Text → Option Text) where
  sent_prefix :
      (n : ℕ) (cs : List (List Text))
      → take (length (concat (send_chunks gateway n cs).0)) (concat cs)
        ≡ concat (send_chunks gateway n cs).0
  unfolding send_chunks concat
  sent_prefix n [] = take_nil {A = Text} 0
  sent_prefix n (c ∷ cs) =
      after_send-prefix (gateway n c) c (send_chunks gateway (suc n) cs) cs (sent_prefix (suc n) cs)

  sent-IsChunk :
      (size n : ℕ) (cs : List (List Text))
      → All (IsChunk size) cs
      → All (IsChunk size) (send_chunks gateway n cs).0
  unfolding send_chunks
  sent-IsChunk size n [] h = h
  sent-IsChunk size n (c ∷ cs) h =
      after_send-IsChunk size (gateway n c) c (send_chunks gateway (suc n) cs) h.0
        (sent-IsChunk size (suc n) cs h.1)

  deliver-prefix :
      (items : List Text)
      → take (length (concat (deliver gateway items).0)) items ≡ concat (deliver gateway items).0
  unfolding deliver concat
  deliver-prefix [] = take_nil {A = Text} 0
  deliver-prefix (item ∷ items) =
      let whole =
        concat-chunks (length (item ∷ items)) batch_cap (item ∷ items) (omega arith)
          (omega arith) in
      ap (λ xs. take (length (concat (deliver gateway (item ∷ items)).0)) xs) (sym whole)
      ∙ sent_prefix 0 (chunks (length (item ∷ items)) batch_cap (item ∷ items))

  deliver-IsChunk : (items : List Text) → All (IsChunk batch_cap) (deliver gateway items).0
  unfolding deliver
  deliver-IsChunk [] = tt
  deliver-IsChunk (item ∷ items) =
      sent-IsChunk batch_cap 0 (chunks (length (item ∷ items)) batch_cap (item ∷ items))
        (chunks-IsChunk (length (item ∷ items)) batch_cap (item ∷ items) (omega arith))

report_sent : (updated : Bool) (body : Value) (s : Sent) → (report updated body s).sent ≡ s.0
unfolding report
report_sent updated body (sent, none) = refl
report_sent updated body (sent, some e) = refl

-- However the delivery ends, what was handed to the gateway is an initial part of the assembled
-- messages, in their order, in chunks of at least one and at most five.
pub process_outbound-prefix :
    (gateway : String → ℕ → List Text → Option Text) (updated : Bool) (body : Value)
    → (take (length (concat (process_outbound gateway updated body).sent)) (assemble body)
        ≡ concat (process_outbound gateway updated body).sent)
      × All (IsChunk batch_cap) (process_outbound gateway updated body).sent
unfolding process_outbound
process_outbound-prefix gateway updated body =
    let to = gateway (unwrap_or (str_at body "recipientId") "") in
    rw (report_sent updated body (deliver to (assemble body)))
      (deliver-prefix to (assemble body), deliver-IsChunk to (assemble body))
