-- ===== src/Queue/Examples.antt =====
-- Runs of the queue and of a delivery.
use support_center.Prelude.{
  ℕ, String, ◌≡◌, refl, true, false, Option, none, some, List, [], ◌∷◌, length, All, nat_eq,
  string_eq, option_eq, pair_eq,
}
use support_center.Chars.{Text, codes, contains, starts_with, trim}
use support_center.Json.{Value, obj, arr, str, field, end, cons, nil, null}
use support_center.Queue.{categorize_lower}
use support_center.Queue.Worker.{network, Work}
use support_center.Queue.Trace.{
  start, Event, enqueues, collects, handles, wakes, poisons_dead_letter, run,
}
use support_center.Queue.Ledger.{Inv, run-start-Inv}
use support_center.Queue.Retry.{network_first}
use support_center.Queue.Outbound.{assemble, process_outbound, take, batch_cap}
use support_center.Queue.Delivery.{IsChunk, concat, process_outbound-prefix}
use support_center.Queue.Outcome.{Agrees, process_outbound-Agrees}

abbrev same : Text → Text
same t = t

-- Work that always meets a network error.
abbrev offline : Work
offline = record { media = λ body. none; outbound = λ body. some (network "connection refused") }

abbrev story : List Event
story =
    enqueues null
    ∷ collects (λ n. true)
    ∷ handles offline 5 100
    ∷ wakes (1000000)
    ∷ collects (λ n. true)
    ∷ handles offline 5 2000000
    ∷ poisons_dead_letter
    ∷ wakes (9000000)
    ∷ collects (λ n. true)
    ∷ handles offline 5 9000001
    ∷ []

run-start-Inv_example : Inv (run same start story)
run-start-Inv_example = run-start-Inv same story

mentions_connect : contains (codes "validation: lost connection") (codes "connect") ≡ true
unfolding contains starts_with
mentions_connect = refl

network_first_example : categorize_lower (codes "validation: lost connection") ≡ "network"
network_first_example = network_first (codes "validation: lost connection") mentions_connect

abbrev message : Value
message = obj (
    field "content" (str "hello") (
      field "recipientId" (str "u1") (
        field "attachments"
          (arr (cons (obj (field "type" (str "image") (field "url" (str "https://a") end))) nil))
          end)))

abbrev accepting : String → ℕ → List Text → Option Text
accepting to n chunk = none

process_outbound-prefix_example :
    (take (length (concat (process_outbound accepting true message).sent)) (assemble message)
      ≡ concat (process_outbound accepting true message).sent)
    × All (IsChunk batch_cap) (process_outbound accepting true message).sent
process_outbound-prefix_example = process_outbound-prefix accepting true message

accepted_message : (process_outbound accepting false message).result ≡ none
unfolding process_outbound starts_with trim
accepted_message = refl

process_outbound-Agrees_example :
    Agrees (accepting "u1") false (assemble message) (process_outbound accepting false message)
process_outbound-Agrees_example = process_outbound-Agrees accepting false message
