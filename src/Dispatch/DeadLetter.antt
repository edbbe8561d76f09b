-- ===== src/Dispatch/DeadLetter.antt =====
-- internal/dispatch/deadletter.go: forwarding the messages that stopped being retried.
--
-- `itoa` is strconv.Itoa, `lower` is strings.ToLower, and the jsonb columns are read by
-- `decode_headers` and `decode_target`. The events are returned in the order in which they are
-- emitted; an index out of range is no list at all.
pub mod Forwarding
use go_outbox.Base.{
  ℕ, Bool, true, false, not, ◌||◌, Option, none, some, List, [], ◌∷◌, map, String, if◌then◌else◌,
  ◌==◌, str_eq, length, assign,
}
use go_outbox.Base.Int.{ℤ, pos}
use go_outbox.Core.{Message, Target}
use go_outbox.Core.Errors.{Err, Result, ok, err}
use go_outbox.Store.Table.{Table}
use go_outbox.Store.Operations.{At, fetch_by_ids}
use go_outbox.Dispatch.Pipeline.{Terminal}
use go_outbox.Broker.{Router, route}
use go_outbox.Config.Settings.{DlqConfig}

-- `events.DeadLetter`
pub record DeadLetter : Type 0 where
  pub stream : String
  pub id : ℕ
  pub err : Option Err

-- The map `attempts`, whose entry for an identifier is the last one that was stored.
unfoldable pub noted : ℕ → List Terminal → Option Terminal
noted i [] = none
noted i (f ∷ fs) = elim (noted i fs) [ some x ↦ some x | none ↦ if f.id == i then some f else none ]

-- The zero value where the map has no entry.
abbrev pub attempts_of : Option Terminal → ℕ
attempts_of none = 0
attempts_of (some f) = f.attempts

abbrev pub permanent_of : Option Terminal → Bool
permanent_of none = false
permanent_of (some f) = f.permanent

-- strconv.FormatBool
abbrev pub format_bool : Bool → String
format_bool true = "true"
format_bool false = "false"

abbrev pub terminal_ids : List Terminal → List ℕ
terminal_ids [] = []
terminal_ids (f ∷ fs) = f.id ∷ terminal_ids fs

-- The loop over the router's answers.
unfoldable pub reports : String → List (Option Err) → List Message → Option (List DeadLetter)
reports stream [] forwarded = some []
reports stream (e ∷ es) [] = none
reports stream (e ∷ es) (m ∷ ms) = elim (reports stream es ms) [
  | none ↦ none
  | some rs ↦ some (record { stream = stream; id = m.id; err = e } ∷ rs)
]

module _ (itoa : ℤ → String) where
  -- `rewrite`
  unfoldable pub rewrite : DlqConfig → Message → Option Terminal → Message
  unfolding assign
  rewrite cfg m terminal = record m {
    headers = assign "x-outbox-permanent" (format_bool (permanent_of terminal)) (
        assign "x-outbox-attempts" (itoa (pos (attempts_of terminal))) (
          assign "x-outbox-original-stream" m.stream
            (assign "x-outbox-original-topic" m.topic m.headers)));
    topic = cfg.topic;
    stream = cfg.stream;
    target = record m.target { exchange = ""; routing_key = ""; version = pos 0 };
  }

  unfoldable pub rewrite_all : DlqConfig → List Terminal → List Message → List Message
  unfolding rewrite noted
  rewrite_all cfg failed [] = []
  rewrite_all cfg failed (m ∷ ms) = rewrite cfg m (noted m.id failed) ∷ rewrite_all cfg failed ms

  module _ (lower : String → String) (decode_headers : List ℕ → Result (List (String × String)))
      (decode_target : List ℕ → Result Target) where
    abbrev unread : String → Err → List ℕ → List DeadLetter
    unread stream e [] = []
    unread stream e (i ∷ is) = record { stream = stream; id = i; err = some e } ∷ unread stream e is

    unfoldable pub forward :
        DlqConfig
        → Router
        → String
        → List Terminal
        → Result (List Message)
        → Option (List DeadLetter)
    unfolding rewrite_all reports route
    forward cfg router stream failed (err e) = some (unread stream e (terminal_ids failed))
    forward cfg router stream failed (ok msgs) =
        let forwarded = rewrite_all cfg failed msgs in
        reports cfg.stream (route lower router cfg.stream forwarded) forwarded

    abbrev is_none : List Terminal → Bool
    is_none [] = true
    is_none (f ∷ fs) = false

    -- `Handle`, on the failures of an iteration of `stream`.
    unfoldable pub handle :
        DlqConfig → Router → At → String → List Terminal → Table → Option (List DeadLetter)
    unfolding forward fetch_by_ids
    handle cfg router at stream failed t =
        if not cfg.enabled || is_none failed
        then some []
        else forward cfg router stream failed
            (fetch_by_ids decode_headers decode_target at (terminal_ids failed) t)
