-- ===== src/Broker.antt =====
-- internal/broker: where a message goes, and the router that sends a batch to its stream's driver.
--
-- A Go map is an association list; ranging over one takes its entries in the order of the list. The
-- text of an error is kept without the values that the source formats into it.
pub mod Postgres
pub mod Kafka
pub mod Rabbitmq
pub mod Routing
use go_outbox.Base.{
  ℕ, Bool, true, false, Option, none, some, List, [], ◌∷◌, String, length, replicate, str_eq,
  if◌then◌else◌, ◌==◌, is_some, lookup,
}
use Prim.Native.String.{◌++◌ as cat}
use go_outbox.Base.Int.{ℤ, pos, ltb_ℤ}
use go_outbox.Core.{Message, Target}
use go_outbox.Core.Errors.{
  Err, leaf, wrap, text, unknown_stream, unknown_driver, permanent, Result, ok, err,
}

pub record Naming : Type 0 where
  pub prefix : String
  pub prefix_sep : String
  pub version_sep : String

-- `Naming.Format`; `itoa` is strconv.Itoa.
unfoldable pub format : (ℤ → String) → Naming → String → ℤ → String
format itoa n topic version =
    let name =
      if ltb_ℤ (pos 0) version
      then cat topic (cat n.version_sep (cat "v" (itoa version)))
      else topic in
    if str_eq n.prefix "" then name else cat n.prefix (cat n.prefix_sep name)

pub record Destination : Type 0 where
  pub topic : String
  pub key : Option String
  pub exchange : String
  pub routing_key : String

-- `Resolve`; `trim` is strings.TrimSpace.
unfoldable pub resolve : (ℤ → String) → (String → String) → Naming → Message → Destination
unfolding format
resolve itoa trim naming m =
    let topic = format itoa naming m.topic m.target.version in
    record {
      topic = topic;
      key = if str_eq (trim m.target.key) "" then none else some (trim m.target.key);
      exchange = m.target.exchange;
      routing_key = if str_eq m.target.routing_key "" then topic else m.target.routing_key;
    }

-- A driver: what it answers for a batch, when it is asked for its health, and when it is closed.
pub record Publisher : Type 0 where
  pub publish : List Message → List (Option Err)
  pub health_check : Option Err
  pub close : Option Err

pub record Router : Type 0 where
  pub streams : List (String × String)
  pub publishers : List (String × Publisher)

abbrev pub missing_driver : List (String × Publisher) → List (String × String) → Bool
missing_driver pubs [] = false
missing_driver pubs ((s, d) ∷ rest) =
    if is_some (lookup d pubs) then missing_driver pubs rest else true

-- `NewRouter`.
unfoldable pub new_router : List (String × String) → List (String × Publisher) → Result Router
new_router streams pubs =
    if missing_driver pubs streams
    then err (wrap "stream needs a driver which was not built" (leaf unknown_driver))
    else ok (record { streams = streams; publishers = pubs })

-- `Router.DriverFor`; `lower` is strings.ToLower.
unfoldable pub driver_for : (String → String) → Router → String → Option String
driver_for lower r stream = lookup (lower stream) r.streams

-- What the router makes of a driver's answers.
abbrev pub answered : List Message → List (Option Err) → List (Option Err)
answered msgs results =
    if length results == length msgs
    then results
    else replicate (length msgs) (some (leaf (text "driver returned a wrong number of results")))

abbrev pub through : List Message → Option Publisher → List (Option Err)
through msgs none =
    replicate (length msgs) (some (permanent "unknown driver" (leaf unknown_driver)))
through msgs (some p) = answered msgs (p.publish msgs)

abbrev pub by_driver : Router → List Message → Option String → List (Option Err)
by_driver r msgs none =
    replicate (length msgs) (some (permanent "unknown stream" (leaf unknown_stream)))
by_driver r msgs (some d) = through msgs (lookup d r.publishers)

-- `Router.Publish`.
unfoldable pub route : (String → String) → Router → String → List Message → List (Option Err)
unfolding driver_for
route lower r stream [] = []
route lower r stream (m ∷ ms) = by_driver r (m ∷ ms) (driver_for lower r stream)

abbrev pub first_unhealthy : List (String × Publisher) → Option Err
first_unhealthy [] = none
first_unhealthy ((d, p) ∷ rest) = elim p.health_check [
  | some e ↦ some (wrap "driver" e)
  | none ↦ first_unhealthy rest
]

-- `Router.HealthCheck`.
unfoldable pub health_check : Router → Option Err
health_check r = first_unhealthy r.publishers

-- `Router.Close`: the error, and the drivers that were closed.
abbrev pub close_from :
    List (String × Publisher) → Option Err → List String → Option Err × List String
close_from [] first closed = (first, closed)
close_from ((d, p) ∷ rest) first closed =
    close_from rest
      (elim first [
        | some e ↦ some e
        | none ↦ elim p.close [ some e ↦ some (wrap "close driver" e) | none ↦ none ]
      ])
      (d ∷ closed)

unfoldable pub close : Router → Option Err × List String
close r = close_from r.publishers none []
