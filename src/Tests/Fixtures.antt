-- ===== src/Tests/Fixtures.antt =====
-- A table with one row in each state, and what the tests share.
use go_outbox.Base.{ℕ, refl, Bool, false, Option, none, some, List, [], ◌∷◌, String, map}
use go_outbox.Base.Int.{ℤ, pos, negsuc}
use go_outbox.Core.{Status, pending, processing, sent, failed, Target, Message, RetryLimits}
use go_outbox.Core.Errors.{Err, Result, ok}
use go_outbox.Store.Table.{Row, Table, WellFormed}
use go_outbox.Store.Operations.{At, fine}
use go_outbox.Dispatch.Pipeline.{Config, Cycle}

abbrev pub row : ℕ → Status → Option ℕ → Option ℕ → Option ℕ → Row
row i status token until dispatched = record {
  id = i;
  stream = "orders";
  topic = "order.created";
  payload = [];
  headers = [];
  target = [];
  status = status;
  attempts = 1;
  available_at = 10;
  lease_token = token;
  lease_until = until;
  owner = none;
  last_error = none;
  created_at = 5;
  dispatched_at = dispatched;
  deferred_since = none;
}

abbrev pub waiting : Row
waiting = row 1 pending none none none

abbrev pub leased : Row
leased = row 2 processing (some 7) (some 100) none

abbrev pub done : Row
done = row 3 sent none none (some 20)

abbrev pub dead : Row
dead = row 4 failed none none none

abbrev pub table : Table
table = waiting ∷ leased ∷ done ∷ dead ∷ []

pub table-WellFormed : WellFormed table
table-WellFormed = record {
  leases = (
    record { while_processing = refl; with_deadline = refl },
    (
      record { while_processing = refl; with_deadline = refl },
      (
        record { while_processing = refl; with_deadline = refl },
        (record { while_processing = refl; with_deadline = refl }, tt),
      ),
    ),
  );
  keys = (refl, (refl, (refl, (refl, tt))));
}

abbrev pub nobody : ℕ → Bool
nobody i = false

abbrev pub limits : RetryLimits
limits = record { max_attempts = pos 5; max_defer = pos 0 }

abbrev pub at : ℕ → At
at now = record { now = now; locked = nobody; fault = fine }

abbrev pub no_headers : List ℕ → Result (List (String × String))
no_headers bs = ok []

abbrev pub no_target : List ℕ → Result Target
no_target bs = ok (record { key = ""; version = pos 0; exchange = ""; routing_key = "" })

abbrev pub no_text : Err → String
no_text e = ""

abbrev pub least : ℕ → ℤ
least n = negsuc 0x7fffffffffffffff

-- `waiting` as it is claimed.
abbrev pub message : Message
message = record {
  id = 1;
  stream = "orders";
  topic = "order.created";
  payload = [];
  headers = [];
  target = record { key = ""; version = pos 0; exchange = ""; routing_key = "" };
  attempts = 1;
  created_at = 5;
}

abbrev pub config : Config
config = record {
  stream = "orders";
  owner = "host-1";
  batch_size = 10;
  workers = pos 2;
  lease_ttl = 60;
  limits = limits;
  backoff = record { base = pos 100; max = pos 1000; jitter = 0 };
}

-- A cycle in which the broker accepts everything, at the instants from 50 on.
abbrev pub cycle : Cycle
cycle = record {
  clock = 50;
  claim_clock = 50;
  token = 9;
  claim_at = at 50;
  answers = map (λ m. none);
  started = 1;
  order = record { start = 0; end = 1 } ∷ [];
  during = [];
  release_at = at 51;
  before_ack = [];
  ack_at = at 52;
  before_nack = [];
  nack_at = at 53;
  draws = λ i. 0;
}
