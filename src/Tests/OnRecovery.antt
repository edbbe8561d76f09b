-- ===== src/Tests/OnRecovery.antt =====
-- The theorems on dead letters and on the supervised connection at concrete inputs.
use go_outbox.Base.{
  arith, ◌≡◌, refl, true, false, Option, some, List, [], ◌∷◌, String, length, get_elem?,
}
use go_outbox.Base.Int.{ℤ, pos}
use go_outbox.Core.{Message}
use go_outbox.Core.Errors.{Err}
use go_outbox.Store.Operations.{fetch_by_ids, scan_all, scan}
use go_outbox.Dispatch.Pipeline.{Terminal}
use go_outbox.Dispatch.DeadLetter.{DeadLetter, handle, rewrite_all}
use go_outbox.Dispatch.DeadLetter.Forwarding.{Forwarded, handle-Forwarded}
use go_outbox.Broker.{Router, route}
use go_outbox.Broker.Rabbitmq.Connection.{
  Conn, connected, dial, forget, request, take, failed, rebuilt, close, live, forgets, requests,
  takes, fails, rebuilds, closes, Steps, here, then_steps,
}
use go_outbox.Broker.Rabbitmq.Recovery.{Steps-reconnects}
use go_outbox.Broker.Rabbitmq.Abandoned.{is_abandoned, Steps-abandoned}
use go_outbox.Config.Settings.{DlqConfig}
use go_outbox.Tests.Fixtures.{table, at, no_headers, no_target}

abbrev as_is : String → String
as_is s = s

abbrev digits : ℤ → String
digits n = "5"

abbrev cfg : DlqConfig
cfg = record { enabled = true; stream = "alerts"; topic = "outbox.dead-letter" }

abbrev no_router : Router
no_router = record { streams = []; publishers = [] }

abbrev stopped_at : Terminal
stopped_at = record { id = 4; attempts = 5; permanent = false; deferred = false }

-- `dead`, as it is read back.
abbrev dead_message : Message
dead_message = record {
  id = 4;
  stream = "orders";
  topic = "order.created";
  payload = [];
  headers = [];
  target = record { key = ""; version = pos 0; exchange = ""; routing_key = "" };
  attempts = 1;
  created_at = 5;
}

handle-Forwarded_example :
    (rs : List DeadLetter) × (m' : Message) × (answer : Option Err) × (handle digits as_is
        no_headers no_target cfg no_router
        (at 200)
        "orders"
        (stopped_at ∷ [])
        table
      ≡ some rs)
    × (length rs ≡ 1)
    × (get_elem? (rewrite_all digits cfg (stopped_at ∷ []) (dead_message ∷ [])) 0 ≡ some m')
    × Forwarded digits cfg (stopped_at ∷ []) dead_message m'
    × (get_elem?
          (route as_is no_router "alerts"
            (rewrite_all digits cfg (stopped_at ∷ []) (dead_message ∷ [])))
          0
        ≡ some answer)
    × (get_elem? rs 0 ≡ some (record { stream = "alerts"; id = 4; err = answer }))
unfolding fetch_by_ids scan_all scan
handle-Forwarded_example =
    handle-Forwarded digits as_is no_headers no_target cfg no_router (at 200) "orders" stopped_at []
      table (dead_message ∷ []) 0 dead_message refl refl refl

-- A publish fails, and the request is queued.
abbrev asked : Conn
asked = request 0 (forget dial)

-- The supervisor takes it and dials once in vain.
abbrev lost : Conn
lost = failed (pos 7) (take (pos 7) asked)

Steps-reconnects_example : (c : Conn) × Steps (pos 7) lost c × (live c ≡ true)
unfolding forget request take failed dial connected
Steps-reconnects_example =
    Steps-reconnects 7 lost
      (then_steps
        (then_steps
          (then_steps (then_steps (here dial) (forgets dial)) (requests (forget dial) 0 refl))
          (takes asked refl refl))
        (fails (take (pos 7) asked) (pos 7) refl))
      refl refl

-- The first connection is put aside, another is dialed, and the publisher is closed.
abbrev redialed : Conn
redialed = rebuilt (take (pos 7) asked)

Steps-abandoned_example : is_abandoned 0 (close redialed) ≡ true
unfolding forget request take dial connected
Steps-abandoned_example =
    Steps-abandoned (pos 7) 0 dial
      (then_steps
        (then_steps
          (then_steps (then_steps (here (forget dial)) (requests (forget dial) 0 refl))
            (takes asked refl refl))
          (rebuilds (take (pos 7) asked) (pos 7) refl))
        (closes redialed))
      refl (omega arith) ((((tt, refl), refl), refl), refl)
