-- ===== src/AuditStore/Tests.antt =====
-- The audit writer at concrete sequences of events.
use sheeld.Prelude.{ℕ, ◌≡◌, refl, true, not, ◌==◌, nat_eq, str, List, [], ◌∷◌, none}
use sheeld.Json.{obj, end}
use sheeld.AuditStore.{
  Entry, WriterEvent, recorded, received, ticked, steps, close, new_writer, Closing, timed_out,
  receives, ticks,
}
use sheeld.AuditStore.Delivery.{admitted, Stores, stored_once_in_order}

abbrev entry_for : ℕ → Entry
entry_for source_id = record {
  org_id = 7;
  source_id = source_id;
  input_hash = "hash";
  guard_results = obj end;
  overall_result = "pass";
  usage = none;
  model = str "gpt";
}

abbrev two_records : List WriterEvent
two_records = recorded (entry_for 1) ∷ received ∷ recorded (entry_for 2) ∷ received ∷ ticked ∷ []

-- Two entries that wait in the buffer; the deadline meets the consumer with the second one there.
abbrev waiting : List WriterEvent
waiting = recorded (entry_for 1) ∷ recorded (entry_for 2) ∷ []

abbrev met_deadline : Closing
met_deadline = timed_out (receives ∷ ticks ∷ []) 0 0

stored_once_in_order_example :
    Stores met_deadline
      (admitted (λ n. true) waiting new_writer)
      (close (λ n. true) met_deadline (steps (λ n. true) waiting new_writer)).stored
stored_once_in_order_example = stored_once_in_order (λ n. true) waiting met_deadline (λ n. refl)

lost_at_deadline :
    (close (λ n. true) met_deadline (steps (λ n. true) waiting new_writer)).stored
    ≡ entry_for 1 ∷ []
unfolding steps close
lost_at_deadline = refl

-- The second insert fails once: the second attempt inserts the first entry again.
retry_inserts_again :
    (steps (λ n. not (n == 1)) two_records new_writer).stored
    ≡ entry_for 1 ∷ entry_for 1 ∷ entry_for 2 ∷ []
unfolding steps
retry_inserts_again = refl
