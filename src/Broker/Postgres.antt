-- ===== src/Broker/Postgres.antt =====
-- internal/broker/postgres/classify.go: what a failed insert means.
pub mod Inbox
pub mod Extension
pub mod Delivery
use go_outbox.Base.{
  ◌≡◌, Bool, true, false, ◌&&◌, ◌||◌, Option, none, some, List, [], ◌∷◌, String, str_eq,
  if◌then◌else◌, is_some, arith, ◌⊎◌, some_eq,
}
use Prim.Native.String.{◌++◌ as cat}
use go_outbox.Core.Errors.{
  Err, Leaf, server, deadline_exceeded, canceled, connect, network, permanent, unavailable,
  find_leaf, is_permanent, is_unavailable,
}

abbrev pub as_server : Leaf → Option (String × String)
as_server (server code message) = some (code, message)
as_server _ = none

abbrev pub as_deadline : Leaf → Option Bool
as_deadline deadline_exceeded = some true
as_deadline _ = none

abbrev pub as_canceled : Leaf → Option Bool
as_canceled canceled = some true
as_canceled _ = none

abbrev pub as_connect : Leaf → Option Bool
as_connect connect = some true
as_connect _ = none

-- `errors.As` with a net.Error, which context.DeadlineExceeded is too.
abbrev pub as_network : Leaf → Option Bool
as_network network = some true
as_network deadline_exceeded = some true
as_network _ = none

abbrev pub one_of : String → List String → Bool
one_of code [] = false
one_of code (c ∷ cs) = str_eq code c || one_of code cs

-- `class`: the first two characters.
unfoldable pub class : String → String
class String.[] = ""
class (String.◌∷◌ a String.[]) = ""
class (String.◌∷◌ a (String.◌∷◌ b rest)) = String.◌∷◌ a (String.◌∷◌ b String.[])

-- The codes with which a server says that it cannot take the write.
abbrev pub out_of_service : List String
out_of_service = "53300" ∷ "53100" ∷ "53200" ∷ "57P01" ∷ "57P02" ∷ "57P03" ∷ "58030" ∷ []

-- `classifyServer`.
unfoldable pub classify_server : String → String → Err → Err
classify_server code message e =
    let reason = cat code (cat " " message) in
    if one_of code ("42P01" ∷ "42703" ∷ "42501" ∷ "3F000" ∷ "42804" ∷ "42P02" ∷ [])
    then permanent reason e
    else if one_of code out_of_service
    then unavailable reason e
    else if str_eq code "57014"
    then unavailable reason e
    else if str_eq (class code) "23"
    then permanent reason e
    else if one_of (class code) ("40" ∷ "55" ∷ [])
    then e
    else if str_eq (class code) "08"
    then unavailable reason e
    else if one_of (class code) ("22" ∷ "42" ∷ [])
    then permanent reason e
    else e

-- What is left when no server answered.
unfoldable pub classify_unanswered : Bool → Err → Err
classify_unanswered parent_live e =
    if is_some (find_leaf as_deadline e) || is_some (find_leaf as_canceled e)
    then (if parent_live && is_some (find_leaf as_deadline e)
        then unavailable "insert timed out" e
        else e)
    else if is_some (find_leaf as_connect e)
    then unavailable "cannot connect" e
    else if is_some (find_leaf as_network e)
    then unavailable "network" e
    else e

-- `classify` of an error; the absence of one stays so.
unfoldable pub classify : Bool → Option Err → Option Err
unfolding classify_server classify_unanswered
classify parent_live none = none
classify parent_live (some e) = some (elim (find_leaf as_server e) [
  | some (code, message) ↦ classify_server code message e
  | none ↦ classify_unanswered parent_live e
])
