-- ===== src/Dispatch/Listener.antt =====
-- internal/dispatch/listener.go, and Pipeline.Wake of pipeline.go: waking the pipelines when the
-- database announces new messages.
--
-- A pipeline's wake channel holds at most one signal, so it is a Boolean; the channels are a map
-- from the pipelines' streams. What PostgreSQL announces is given as it comes: a notification with
-- what arrives in the window after it. Instants and durations are nanoseconds.
pub mod Wakes
pub mod Delays
use go_outbox.Base.{
  ℕ, Bool, true, false, not, Option, none, some, List, [], ◌∷◌, String, if◌then◌else◌, lookup,
  assign, map, any, str_eq,
}
use go_outbox.Base.Int.{ℤ, pos, ◌+ℤ◌, leb_ℤ, ltb_ℤ, ◌-ℤ◌}
use go_outbox.Core.Errors.{Err, wrap}

abbrev pub Wakes : Type 0
Wakes = List (String × Bool)

-- `NewListener`: the map of the pipelines, none of them woken.
unfoldable pub new_listener : List String → Wakes → Wakes
new_listener [] pipelines = pipelines
new_listener (stream ∷ rest) pipelines = new_listener rest (assign stream false pipelines)

-- `Pipeline.Wake`, at a channel with the given signal.
unfoldable pub wake_pipeline : Bool → Bool
wake_pipeline signal = true

-- `wakeAll`
unfoldable pub wake_all : Wakes → Wakes
unfolding wake_pipeline
wake_all [] = []
wake_all ((stream, signal) ∷ rest) = (stream, wake_pipeline signal) ∷ wake_all rest

-- One turn of the loop of `wake`; a stream without a pipeline is passed over.
abbrev pub wake_one : String → Option Bool → Wakes → Wakes
wake_one stream none pipelines = pipelines
wake_one stream (some signal) pipelines = assign stream (wake_pipeline signal) pipelines

-- `wake`, after its jitter.
unfoldable pub wake : List String → Wakes → Wakes
unfolding wake_pipeline
wake [] pipelines = pipelines
wake (stream ∷ rest) pipelines = wake rest (wake_one stream (lookup stream pipelines) pipelines)

-- `sleepJitter`: how long it sleeps, if it does; `draw` is rand.Int64N.
unfoldable pub jitter_delay : (ℤ → ℤ) → ℤ → Option ℤ
jitter_delay draw jitter = if leb_ℤ jitter (pos 0) then none else some (draw jitter)

-- `streams[payload] = struct{}{}`
abbrev pub add : String → List String → List String
add s streams = if any (str_eq s) streams then streams else s ∷ streams

-- One turn of the loop of `coalesce`: the clock's reading, and what the wait answers, none where it
-- failed or its time was over.
pub record Wait : Type 0 where
  pub now : ℤ
  pub payload : Option String

abbrev pub gather : ℤ → List Wait → List String → List String
gather deadline [] streams = streams
gather deadline (w ∷ rest) streams =
    let gathered = λ (s : String). gather deadline rest (add s streams) in
    if leb_ℤ (deadline -ℤ w.now) (pos 0)
    then streams
    else elim w.payload [ none ↦ streams | some s ↦ gathered s ]

-- `coalesce`, from the instant at which its window opens.
unfoldable pub coalesce : ℤ → ℤ → List Wait → List String → List String
coalesce debounce start window streams =
    if leb_ℤ debounce (pos 0) then streams else gather (start +ℤ debounce) window streams

-- A notification, and its window.
pub record Notification : Type 0 where
  pub payload : String
  pub start : ℤ
  pub window : List Wait

-- What happens on a connection after LISTEN: a notification is received, or a pipeline takes the
-- signal from its channel.
pub data Event : Type 0 where
  notified : Notification → Event
  taken : String → Event

-- The streams of one turn of the loop of `listen`.
unfoldable pub turn_streams : ℤ → Notification → List String
unfolding coalesce
turn_streams debounce n = coalesce debounce n.start n.window (n.payload ∷ [])

abbrev pub take_signal : String → Option Bool → Wakes → Wakes
take_signal stream none pipelines = pipelines
take_signal stream (some signal) pipelines = assign stream false pipelines

unfoldable pub on_event : ℤ → Event → Wakes → Wakes
unfolding turn_streams wake
on_event debounce (notified n) pipelines = wake (turn_streams debounce n) pipelines
on_event debounce (taken stream) pipelines = take_signal stream (lookup stream pipelines) pipelines

unfoldable pub on_events : ℤ → List Event → Wakes → Wakes
unfolding on_event
on_events debounce [] pipelines = pipelines
on_events debounce (e ∷ rest) pipelines = on_events debounce rest (on_event debounce e pipelines)

-- A connection: why there was none, or why LISTEN failed, or what came on it and how it ended.
pub data Session : Type 0 where
  no_connection no_listen : Err → Session
  connected : List Event → Err → Session

-- `listen`
unfoldable pub listen : ℤ → Session → Wakes → Err × Wakes
unfolding wake_all on_events
listen debounce (no_connection e) pipelines =
    (wrap "acquire a connection to listen on" e, pipelines)
listen debounce (no_listen e) pipelines = (wrap "listen on the channel" e, pipelines)
listen debounce (connected events e) pipelines = (e, on_events debounce events (wake_all pipelines))

abbrev pub listener_retry_delay : ℤ
listener_retry_delay = pos 1000000000

abbrev pub listener_max_retry_delay : ℤ
listener_max_retry_delay = pos 30000000000

-- How the delay grows after a wait in `Run`.
unfoldable pub grown_delay : ℤ → ℤ
grown_delay delay = if ltb_ℤ delay listener_max_retry_delay then delay +ℤ delay else delay

-- `Run` until a shutdown: the delays that it waited, and the channels.
unfoldable pub run : ℤ → ℤ → List Session → Wakes → List ℤ × Wakes
unfolding listen grown_delay
run debounce delay [] pipelines = ([], pipelines)
run debounce delay (s ∷ rest) pipelines =
    let (e, after) = listen debounce s pipelines in
    let (delays, final) = run debounce (grown_delay delay) rest after in (delay ∷ delays, final)
