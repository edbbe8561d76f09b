-- ===== src/Broker/Rabbitmq.antt =====
-- internal/broker/rabbitmq: publishing with confirms (publisher.go), the return stream of a channel
-- (channel.go) and the classification of failures (classify.go).
--
-- What the client library and the broker do in one publish is an `Attempt`.
pub mod Connection
pub mod Recovery
pub mod Abandoned
use go_outbox.Base.{
  ℕ, ◌≡◌, refl, Bool, true, false, ◌&&◌, ◌||◌, Option, none, some, List, [], ◌∷◌, ◌++◌, map, String,
  str_eq, if◌then◌else◌, is_some, elem, ◌==◌, arith, Option-cases, Bool-cases, inl, inr,
}
use go_outbox.Base.Int.{ℤ}
use go_outbox.Core.{Message}
use go_outbox.Core.Errors.{
  Err, Leaf, leaf, wrap, text, not_connected, amqp_closed, permanent, unavailable, find_leaf,
  is_permanent,
}
use go_outbox.Broker.{Naming, Destination, resolve}

abbrev pub as_unreachable : Leaf → Option Bool
as_unreachable not_connected = some true
as_unreachable amqp_closed = some true
as_unreachable _ = none

-- `classify` of an error, on a connection that is live or not.
unfoldable pub classify : Bool → Err → Err
classify live e =
    if is_permanent e
    then e
    else if is_some (find_leaf as_unreachable e)
    then unavailable "rabbitmq unreachable" e
    else if live
    then e
    else unavailable "rabbitmq unreachable" e

-- amqp.Return: a message that the broker could not route.
pub record Returned : Type 0 where
  pub message_id : ℕ
  pub reason : String

abbrev pub take_from : List Returned → ℕ → Option String × List Returned
take_from [] i = (none, [])
take_from (r ∷ rs) i =
    let rest = take_from rs i in if r.message_id == i then (some r.reason, rs) else rest

-- `takeReturn`: without the mandatory flag there is no return stream.
unfoldable pub take_return : Option (List Returned) → ℕ → Option String × Option (List Returned)
take_return none i = (none, none)
take_return (some rs) i = let (reason, rest) = take_from rs i in (reason, some rest)

-- `drainReturns`
unfoldable pub drain_returns : Option (List Returned) → Option (List Returned)
drain_returns none = none
drain_returns (some rs) = some []

abbrev pub arrive : List Returned → Option (List Returned) → Option (List Returned)
arrive more none = none
arrive more (some rs) = some (rs ++ more)

-- `returns` is the channel's buffer when it is acquired, and `arrived` what the broker sends before
-- it confirms.
pub record Attempt : Type 0 where
  pub acquired : Option Err
  pub returns : Option (List Returned)
  pub declaring : Option Err
  pub written : Option Err
  pub arrived : List Returned
  pub waited : Option Err
  pub acked : Bool
  pub live : Bool

-- What the source reads of the driver's configuration.
pub record Config : Type 0 where
  pub naming : Naming
  pub declare : Bool

-- The error, the queues that the connection has declared, and whether a redial was asked for.
pub record Answer : Type 0 where
  pub err : Option Err
  pub declared : List String
  pub redial : Bool

abbrev pub has : String → List String → Bool
has q [] = false
has q (d ∷ ds) = str_eq d q || has q ds

-- `declare`
unfoldable pub declare : Attempt → String → List String → Answer
declare a queue declared =
    if has queue declared
    then record { err = none; declared = declared; redial = false }
    else elim a.declaring [
      | some e ↦ record {
        err = some (wrap "rabbitmq: declare queue" e);
        declared = declared;
        redial = true;
      }
      | none ↦ record { err = none; declared = queue ∷ declared; redial = false }
    ]

-- What a confirmation and the return stream say together.
unfoldable pub reported : Option String → Bool → Option Err
unfolding permanent
reported (some reason) acked = some (permanent "unroutable" (leaf (text reason)))
reported none true = none
reported none false = some (leaf (text "rabbitmq: broker nacked"))

-- The end of a publish that was written: the confirmation, then the return stream.
unfoldable pub confirmed : Attempt → ℕ → Option (List Returned) → Option Err
unfolding classify take_return reported
confirmed a i buffer = elim a.waited [
  | some e ↦ some (classify a.live (wrap "rabbitmq: awaiting confirmation" e))
  | none ↦ reported (take_return buffer i).0 a.acked
]

-- `publishOne`, once the queue is declared.
unfoldable pub written : Attempt → Message → List String → Answer
unfolding confirmed drain_returns classify
written a m declared = elim a.written [
  | some e ↦ record {
    err = some (classify a.live (wrap "rabbitmq: publish" e));
    declared = declared;
    redial = true;
  }
  | none ↦ record {
    err = confirmed a m.id (arrive a.arrived (drain_returns a.returns));
    declared = declared;
    redial = false;
  }
]

-- `publishOne` on a channel.
unfoldable pub on_channel : Destination → Config → Attempt → Message → List String → Answer
unfolding declare written classify
on_channel dest cfg a m declared =
    if cfg.declare && str_eq dest.exchange ""
    then (let d = declare a dest.routing_key declared in
        elim d.err [
          | some e ↦ record d { err = some (classify a.live e) }
          | none ↦ written a m d.declared
        ])
    else written a m declared

-- `publishOne`
unfoldable pub publish_one :
    (ℤ → String) → (String → String) → Config → Attempt → Message → List String → Answer
unfolding on_channel classify
publish_one itoa trim cfg a m declared = elim a.acquired [
  | some e ↦ record { err = some (classify a.live e); declared = declared; redial = false }
  | none ↦ on_channel (resolve itoa trim cfg.naming m) cfg a m declared
]

take_from-none :
    (rs : List Returned) (i : ℕ)
    → (take_from rs i).0 ≡ none
    → elem i (map (λ r. r.message_id) rs) ≡ false
take_from-none [] i h = refl
take_from-none (r ∷ rs) i h = ground (arith, take_from-none rs i)

-- The broker has the message: it confirmed it, and with the mandatory flag it gave nothing back
-- under the message's identifier.
pub record Accepted (a : Attempt) (i : ℕ) : Type 0 where
  pub on_a_channel : a.acquired ≡ none
  pub sent : a.written ≡ none
  pub answered : a.waited ≡ none
  pub confirms : a.acked ≡ true
  pub routed : (is_some a.returns && elem i (map (λ r. r.message_id) a.arrived)) ≡ false

take_return-none :
    (buffer : Option (List Returned)) (arrived : List Returned) (i : ℕ)
    → (take_return (arrive arrived (drain_returns buffer)) i).0 ≡ none
    → (is_some buffer && elem i (map (λ r. r.message_id) arrived)) ≡ false
unfolding take_return drain_returns
take_return-none none arrived i h = refl
take_return-none (some rs) arrived i h = take_from-none arrived i h

reported-none :
    (o : Option String) (acked : Bool) → reported o acked ≡ none → (o ≡ none) × (acked ≡ true)
unfolding reported
reported-none (some r) acked h = cc
reported-none none true h = (refl, refl)
reported-none none false h = ground arith

confirmed-none :
    (a : Attempt) (i : ℕ) (buffer : Option (List Returned))
    → confirmed a i buffer ≡ none
    → (a.waited ≡ none) × (a.acked ≡ true) × ((take_return buffer i).0 ≡ none)
unfolding confirmed
confirmed-none a i buffer h = elim (Option-cases a.waited) [
  | inr (e, w) ↦ cc (rw w at h)
  | inl w ↦ let (t, y) = reported-none (take_return buffer i).0 a.acked (rw w at h) in (w, y, t)
]

written-none :
    (a : Attempt) (m : Message) (declared : List String)
    → a.acquired ≡ none
    → (written a m declared).err ≡ none
    → Accepted a m.id
unfolding written
written-none a m declared q h = elim (Option-cases a.written) [
  | inr (e, w) ↦ cc (rw w at h)
  | inl w ↦
      let (answered, confirms, quiet) =
        confirmed-none a m.id (arrive a.arrived (drain_returns a.returns)) (rw w at h) in
      record {
        on_a_channel = q;
        sent = w;
        answered = answered;
        confirms = confirms;
        routed = take_return-none a.returns a.arrived m.id quiet;
      }
]

on_channel-none :
    (dest : Destination) (cfg : Config) (a : Attempt) (m : Message) (declared : List String)
    → a.acquired ≡ none
    → (on_channel dest cfg a m declared).err ≡ none
    → Accepted a m.id
unfolding on_channel
on_channel-none dest cfg a m declared q h =
    elim (Bool-cases (cfg.declare && str_eq dest.exchange "")) [
      | inr plain ↦ written-none a m declared q (rw plain at h)
      | inl first ↦ elim (Option-cases (declare a dest.routing_key declared).err) [
        | inr (e, d) ↦ cc (rw (first, d) at h)
        | inl d ↦
            written-none a m (declare a dest.routing_key declared).declared q (rw (first, d) at h)
      ]
    ]

-- A publish that reports no error is one for which the broker has confirmed the message, and that
-- it did not return as unroutable where the mandatory flag asks for returns.
pub publish_one-Accepted :
    (itoa : ℤ → String) (trim : String → String) (cfg : Config) (a : Attempt) (m : Message)
    (declared : List String)
    → (publish_one itoa trim cfg a m declared).err ≡ none
    → Accepted a m.id
unfolding publish_one
publish_one-Accepted itoa trim cfg a m declared h = elim (Option-cases a.acquired) [
  | inr (e, q) ↦ cc (rw q at h)
  | inl q ↦ on_channel-none (resolve itoa trim cfg.naming m) cfg a m declared q (rw q at h)
]
