-- ===== src/Broker/Routing.antt =====
-- What the router promises the dispatcher.
use go_outbox.Base.{
  ◌≡◌, refl, false, Option, none, some, List, [], ◌∷◌, String, length, str_eq, ◌==◌, ==_iff,
  length-replicate, Bool-cases, inl, inr, arith, Option-cases, lookup,
}
use go_outbox.Core.{Message}
use go_outbox.Core.Errors.{Err, ok, leaf, text}
use go_outbox.Broker.{
  Publisher, Router, missing_driver, new_router, driver_for, answered, through, by_driver, route,
}

length-answered :
    (msgs : List Message) (results : List (Option Err))
    → length (answered msgs results) ≡ length msgs
length-answered msgs results = elim (Bool-cases (length results == length msgs)) [
  | inl e ↦ rw e ((==_iff (length results) (length msgs)).0 e)
  | inr e ↦ rw e (
      length-replicate (length msgs)
        (some (leaf (text "driver returned a wrong number of results"))))
]

length-through :
    (msgs : List Message) (o : Option Publisher) → length (through msgs o) ≡ length msgs
length-through msgs none = length-replicate (length msgs) _
length-through msgs (some p) = length-answered msgs (p.publish msgs)

length-by_driver :
    (r : Router) (msgs : List Message) (o : Option String)
    → length (by_driver r msgs o) ≡ length msgs
length-by_driver r msgs none = length-replicate (length msgs) _
length-by_driver r msgs (some d) = length-through msgs (lookup d r.publishers)

-- The router answers for every message of a batch, whatever the driver returned and whether or not
-- the stream is known.
pub length-route :
    (lower : String → String) (r : Router) (stream : String) (msgs : List Message)
    → length (route lower r stream msgs) ≡ length msgs
unfolding route
length-route lower r stream [] = refl
length-route lower r stream (m ∷ ms) = length-by_driver r (m ∷ ms) (driver_for lower r stream)

served :
    (pubs : List (String × Publisher)) (streams : List (String × String)) (s d : String)
    → missing_driver pubs streams ≡ false
    → lookup s streams ≡ some d
    → (p : Publisher) × (lookup d pubs ≡ some p)
served pubs [] s d h f = cc
served pubs ((j, e) ∷ rest) s d h f = elim (Option-cases (lookup e pubs)) [
  | inl n ↦ cc (rw n at h)
  | inr (p, q) ↦ elim (Bool-cases (str_eq j s)) [
    | inl same ↦ (p, ground arith)
    | inr other ↦ served pubs rest s d (rw q at h) (rw other at f)
  ]
]

-- A router that was built knows the driver of every stream that is configured: a batch for such a
-- stream reaches a publisher, and the answers are the publisher's as long as there is one for each
-- message.
pub new_router-serves :
    (lower : String → String) (streams : List (String × String)) (pubs : List (String × Publisher))
    (r : Router) (stream d : String) (m : Message) (ms : List Message)
    → new_router streams pubs ≡ ok r
    → lookup (lower stream) streams ≡ some d
    → (p : Publisher) × (lookup d pubs ≡ some p)
      × (route lower r stream (m ∷ ms) ≡ answered (m ∷ ms) (p.publish (m ∷ ms)))
unfolding new_router route driver_for
new_router-serves lower streams pubs r stream d m ms h f =
    elim (Bool-cases (missing_driver pubs streams)) [
      | inl gap ↦ cc (rw gap at h)
      | inr full ↦
          let (p, q) = served pubs streams (lower stream) d full f in (p, q, cc (rw full at h))
    ]
