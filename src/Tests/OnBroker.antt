-- ===== src/Tests/OnBroker.antt =====
-- The theorems on the drivers at concrete batches and errors.
use go_outbox.Base.Int.{ℤ}
use go_outbox.Base.{
  Bool, Option, ℕ, zero, suc, is_some, List, ◌≡◌, refl, true, none, some, [], ◌∷◌, String, length,
  get_elem?, ◌⊎◌,
}
use go_outbox.Core.Errors.{Result, ok, Err, KafkaError, leaf, server, kafka}
use go_outbox.Broker.{Naming, format, resolve}
use go_outbox.Broker.Rabbitmq.{
  Attempt, Accepted, publish_one, publish_one-Accepted, on_channel, declare, written, confirmed,
  reported, take_return, drain_returns,
}
use go_outbox.Store.Operations.{Fault, fine, refused}
use go_outbox.Core.{Message}
use go_outbox.Broker.Postgres.Inbox.{Entry, entry_of, publish}
use go_outbox.Broker.Postgres.Extension.{Extended}
use go_outbox.Broker.Postgres.Delivery.{publish-Extended}
use go_outbox.Tests.Fixtures.{message}

abbrev as_is : String → String
as_is s = s

abbrev no_leader : Err
no_leader = leaf (kafka KafkaError.leader_not_available)

abbrev attempt : Attempt
attempt = record {
  acquired = none;
  returns = some (record { message_id = 8; reason = "312 NO_ROUTE" } ∷ []);
  declaring = none;
  written = none;
  arrived = [];
  waited = none;
  acked = true;
  live = true;
}

publish_one-Accepted_example : Accepted attempt 1
unfolding publish_one on_channel declare written confirmed reported take_return drain_returns
    resolve format
publish_one-Accepted_example =
    publish_one-Accepted (λ v. "1") as_is
      (record {
        naming = record { prefix = ""; prefix_sep = "."; version_sep = "." };
        declare = true;
      })
      attempt message [] refl

-- The database refuses the batch, and then the second of its messages.
abbrev other_message : Message
other_message = record message { id = 9 }

abbrev second_refused : ℕ → Fault
second_refused zero = fine
second_refused (suc i) = refused (leaf (server "23514" "check"))

abbrev bare : Naming
bare = record { prefix = ""; prefix_sep = "."; version_sep = "." }

abbrev no_json : List (String × String) → Result (List ℕ)
no_json hs = ok []

abbrev version_text : ℤ → String
version_text v = ""

abbrev always : ℕ → Bool
always i = true

abbrev outcome : List (Option Err) × List Entry
outcome =
    publish version_text as_is no_json bare (refused (leaf (server "23514" "check"))) true
      second_refused always (message ∷ other_message ∷ []) []

publish-Extended_example :
    (length outcome.0 ≡ 2)
    × Extended [] outcome.1
    × ((get_elem? (message ∷ other_message ∷ []) 0 ≡ none)
        ⊎ ((e : Err) × (get_elem? outcome.0 0 ≡ some (some e)))
        ⊎ ((m : Message) × (get_elem? (message ∷ other_message ∷ []) 0 ≡ some m)
            × (is_some (entry_of m.id outcome.1) ≡ true)))
publish-Extended_example =
    publish-Extended version_text as_is no_json bare (refused (leaf (server "23514" "check"))) true
      second_refused always (message ∷ other_message ∷ []) [] 0
