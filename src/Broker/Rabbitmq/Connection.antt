-- ===== src/Broker/Rabbitmq/Connection.antt =====
-- internal/broker/rabbitmq/conn.go: one AMQP connection, and the supervisor that rebuilds it.
--
-- The goroutines that take part are publishers, the supervisor, one watcher for each connection, and
-- whoever closes. Each function is what one of them does without letting go of the lock, and `Step`
-- says when it can be next; a history is any interleaving. Connections are numbered. The client
-- library is taken to tell a watcher of every connection that the broker ends.
use go_outbox.Base.{
  ℕ, suc, ◌≡◌, Bool, true, false, not, Option, none, some, List, [], ◌∷◌, String, if◌then◌else◌,
  keep, elem, ◌==◌,
}
use go_outbox.Base.Int.{ℤ, pos, ltb_ℤ}
use go_outbox.Core.Errors.{Err, leaf, not_connected}
use go_outbox.Dispatch.Breaker.{double}

-- The supervisor waits for a request, waits for a delay to pass before it dials, or has returned.
pub data Phase : Type 0 where
  idle : Phase
  waiting : ℤ → Phase
  stopped : Phase

-- `opened` are the connections that were dialed and that neither the process nor the broker has
-- closed. `asking` goroutines are between the two halves of `requestRedial`, and `broken` watchers
-- were told of an end that they have not acted on.
pub record Conn : Type 0 where
  pub current : Option ℕ
  pub queued : Bool
  pub closed : Bool
  pub declared : List String
  pub phase : Phase
  pub opened : List ℕ
  pub asking : ℕ
  pub broken : ℕ
  pub dialed : ℕ

-- `connect`, when it succeeds.
unfoldable pub connected : Conn → Conn
connected c = record c {
  current = some c.dialed;
  declared = [];
  opened = c.dialed ∷ c.opened;
  dialed = suc c.dialed;
}

-- `Dial`
unfoldable pub dial : Conn
unfolding connected
dial = connected (record {
  current = none;
  queued = false;
  closed = false;
  declared = [];
  phase = idle;
  opened = [];
  asking = 0;
  broken = 0;
  dialed = 0;
})

-- `requestRedial`: the connection is forgotten, and then the request is queued, unless one is.
unfoldable pub forget : Conn → Conn
forget c = record c { current = none; asking = suc c.asking }

unfoldable pub request : ℕ → Conn → Conn
request n c = record c { queued = true; asking = n }

-- The broker, or the network, ends a connection.
unfoldable pub breaks : ℕ → Conn → Conn
breaks i c = record c { opened = keep (λ j. not (j == i)) c.opened; broken = suc c.broken }

-- 30 s
abbrev max_reconnect_delay : ℤ
max_reconnect_delay = pos 30000000000

-- `supervise`: a request is taken.
unfoldable pub take : ℤ → Conn → Conn
take reconnect_delay c = record c { queued = false; phase = waiting reconnect_delay }

unfoldable pub grown : ℤ → ℤ
unfolding double
grown delay = if ltb_ℤ delay max_reconnect_delay then double delay else delay

-- After a dial that failed.
unfoldable pub failed : ℤ → Conn → Conn
unfolding grown
failed delay c = record c { phase = waiting (grown delay) }

-- After one that succeeded.
unfoldable pub rebuilt : Conn → Conn
unfolding connected
rebuilt c = record (connected c) { phase = idle }

abbrev pub without : Option ℕ → List ℕ → List ℕ
without none opened = opened
without (some i) opened = keep (λ j. not (j == i)) opened

-- `Close`, of which only the first does anything.
unfoldable pub close : Conn → Conn
close c =
    if c.closed
    then c
    else record c { closed = true; current = none; opened = without c.current c.opened }

-- `acquire`, up to the wait for a channel of the pool.
unfoldable acquire : Conn → Option Err
acquire c = elim c.current [ none ↦ some (leaf not_connected) | some i ↦ none ]

-- `live`
unfoldable pub live : Conn → Bool
live c = elim c.current [ none ↦ false | some i ↦ elem i c.opened ]

-- `HealthCheck`
unfoldable pub health_check : Conn → Option Err
unfolding live
health_check c = if not (live c) then some (leaf not_connected) else none

pub data Step (reconnect_delay : ℤ) : Conn → Conn → Type 0 where
  -- a publish failed
  forgets : (c : Conn) → Step reconnect_delay c (forget c)
  -- a watcher
  notices :
      (c : Conn) (n : ℕ)
      → c.broken ≡ suc n
      → Step reconnect_delay c (forget (record c { broken = n }))
  requests : (c : Conn) (n : ℕ) → c.asking ≡ suc n → Step reconnect_delay c (request n c)
  ends : (c : Conn) (i : ℕ) → elem i c.opened ≡ true → Step reconnect_delay c (breaks i c)
  takes :
      (c : Conn)
      → c.phase ≡ idle
      → c.queued ≡ true
      → Step reconnect_delay c (take reconnect_delay c)
  fails : (c : Conn) (delay : ℤ) → c.phase ≡ waiting delay → Step reconnect_delay c (failed delay c)
  rebuilds : (c : Conn) (delay : ℤ) → c.phase ≡ waiting delay → Step reconnect_delay c (rebuilt c)
  returns : (c : Conn) → c.closed ≡ true → Step reconnect_delay c (record c { phase = stopped })
  closes : (c : Conn) → Step reconnect_delay c (close c)

pub data Steps (reconnect_delay : ℤ) : Conn → Conn → Type 0 where
  here : (c : Conn) → Steps reconnect_delay c c
  then_steps :
      {a b c : Conn}
      → Steps reconnect_delay a b
      → Step reconnect_delay b c
      → Steps reconnect_delay a c
