-- ===== src/Admin.antt =====
-- cmd/outbox/admin.go: the administrative commands, on the methods of the store.
--
-- What a command prints is kept as data. Parameters: the parsing of RFC3339 (`parse_time`), what the
-- database answers to a negative LIMIT (`negative_limit`), strings.Fields (`fields`), the length of a
-- text in bytes and its first bytes, and slices.Sort.
pub mod Agreement
use Prim.Native.String.{◌++◌ as cat}
use go_outbox.Base.{
  ℕ, suc, ◌-◌, Bool, true, false, not, ◌&&◌, Option, none, some, List, [], ◌∷◌, String, length, map,
  lookup, str_eq, if◌then◌else◌, ltb, leb, ◌==◌,
}
use go_outbox.Base.Int.{ℤ, pos, negsuc}
use go_outbox.Core.Errors.{Err, leaf, text, Result, ok, err}
use go_outbox.Config.{Config}
use go_outbox.Config.Settings.{StreamConfig}
use go_outbox.Config.Environment.{joined}
use go_outbox.Store.Table.{Table}
use go_outbox.Store.Operations.{
  At, Cursor, FailedMessage, Stats, list_failed, requeue, requeue_failed_before, stats,
}

pub record FailedOpts : Type 0 where
  pub limit : ℤ
  pub stream : String
  pub as_json : Bool

pub record RequeueOpts : Type 0 where
  pub ids : List ℕ
  pub before : String
  pub limit : ℤ
  pub as_json : Bool

-- A line of the table of failed messages.
pub record Line : Type 0 where
  pub id : ℕ
  pub stream : String
  pub topic : String
  pub attempts : ℕ
  pub created_at : ℕ
  pub last_error : String

pub data Output : Type 0 where
  silent nothing_has_failed : Output
  failed_json : List FailedMessage → Output
  failed_table : List Line → Output
  requeued_json : ℕ → List ℕ → Output
  -- how many of how many
  requeued_some : ℕ → ℕ → Output
  requeued_count : ℕ → Output
  -- with each stream's driver
  stats_json stats_table : Stats → List (String × String) → Output

module _ (parse_time : String → Option ℕ) (negative_limit : Err) (fields : String → List String)
    (byte_length : String → ℕ) (first_bytes : ℕ → String → String)
    (sort : List String → List String) where
  -- `oneLine`
  unfoldable pub one_line : String → String
  unfolding joined
  one_line s = joined " " (fields s)

  unfoldable pub truncate : String → ℕ → String
  truncate s n = if leb (byte_length s) n then s else cat (first_bytes (n - 1) s) "…"

  abbrev line_of : FailedMessage → Line
  line_of m = record {
    id = m.id;
    stream = truncate m.stream 12;
    topic = truncate m.topic 24;
    attempts = m.attempts;
    created_at = m.created_at;
    last_error = one_line m.last_error;
  }

  abbrev print_failed : Bool → List FailedMessage → Output
  print_failed true messages = failed_json messages
  print_failed false [] = nothing_has_failed
  print_failed false (m ∷ messages) = failed_table (map line_of (m ∷ messages))

  abbrev pub printed {ℓ} : {A : Type ℓ} → (A → Output) → Result A → Result Output
  printed print (ok a) = ok (print a)
  printed print (err e) = err e

  -- A call with a limit, which the database refuses where it is negative.
  abbrev pub limited {ℓ} : {A : Type ℓ} → ℤ → (ℕ → Result A × Table) → Table → Result A × Table
  limited (pos n) call t = call n
  limited (negsuc n) call t = (err negative_limit, t)

  -- `listFailed`
  unfoldable pub list_failed_command : At → FailedOpts → Table → Result Output × Table
  unfolding list_failed one_line truncate
  list_failed_command at o t =
      let start : Cursor = record { created_at = 0; id = none } in
      let (r, after) = limited o.limit (λ n. (list_failed at start n o.stream t, t)) t in
      (printed (print_failed o.as_json) r, after)

  -- The calls of `requeue`.
  unfoldable pub requeue_calls : At → RequeueOpts → Table → Result (List ℕ) × Table
  unfolding requeue requeue_failed_before
  requeue_calls at o t =
      if ltb 0 (length o.ids) then requeue at o.ids t else elim (parse_time o.before) [
        | none ↦ (err (leaf (text "-before must be an RFC3339 time")), t)
        | some cutoff ↦ limited o.limit (λ n. requeue_failed_before at cutoff n t) t
      ]

  abbrev print_requeued : RequeueOpts → List ℕ → Output
  print_requeued o requeued =
      if o.as_json
      then requeued_json (length requeued) requeued
      else if ltb 0 (length o.ids) && not (length requeued == length o.ids)
      then requeued_some (length requeued) (length o.ids)
      else requeued_count (length requeued)

  -- `requeue`
  unfoldable pub requeue_command : At → RequeueOpts → Table → Result Output × Table
  unfolding requeue_calls
  requeue_command at o t =
      let (r, after) = requeue_calls at o t in (printed (print_requeued o) r, after)

  -- `streamMap`
  unfoldable pub stream_map : Config → List (String × String)
  stream_map c = map (λ (name, s). (name, s.driver)) c.brokers.streams

  abbrev driver_of : Option StreamConfig → String
  driver_of none = ""
  driver_of (some s) = s.driver

  abbrev stream_lines : Config → List (String × String)
  stream_lines c =
      map (λ n. (n, driver_of (lookup n c.brokers.streams)))
        (sort (map (λ (name, s). name) c.brokers.streams))

  abbrev print_stats : Config → Bool → Stats → Output
  print_stats c true s = stats_json s (stream_map c)
  print_stats c false s = stats_table s (stream_lines c)

  -- `stats`
  unfoldable pub stats_command : At → Config → Bool → Table → Result Output × Table
  unfolding stats stream_map
  stats_command at c as_json t = (printed (print_stats c as_json) (stats at t), t)

  -- The exit code and what is printed.
  abbrev pub exited : Result Output × Table → (ℕ × Output) × Table
  exited (ok out, t) = ((0, out), t)
  exited (err e, t) = ((1, silent), t)

  -- `withStore`: the configuration, the opening of a store, and the command.
  unfoldable pub with_store :
      Result Config
      → (Config → Option Err)
      → (Config → Table → Result Output × Table)
      → Table
      → (ℕ × Output) × Table
  with_store (err e) open_store fn t = ((1, silent), t)
  with_store (ok c) open_store fn t = elim (open_store c) [
    | some e ↦ ((1, silent), t)
    | none ↦ exited (fn c t)
  ]

  -- `runFailed`, `runRequeue` and `runStats`, on what the flags parse to.
  unfoldable pub run_failed :
      Result Config → (Config → Option Err) → At → Option FailedOpts → Table → (ℕ × Output) × Table
  unfolding with_store list_failed_command
  run_failed config open_store at none t = ((2, silent), t)
  run_failed config open_store at (some o) t =
      with_store config open_store (λ c. list_failed_command at o) t

  -- Ids and -before exclude each other, and one of them is needed.
  abbrev pub ambiguous : RequeueOpts → Bool
  ambiguous o = if ltb 0 (length o.ids) then not (str_eq o.before "") else str_eq o.before ""

  unfoldable pub run_requeue :
      Result Config → (Config → Option Err) → At → Option RequeueOpts → Table → (ℕ × Output) × Table
  unfolding with_store requeue_command
  run_requeue config open_store at none t = ((2, silent), t)
  run_requeue config open_store at (some o) t =
      if ambiguous o
      then ((2, silent), t)
      else with_store config open_store (λ c. requeue_command at o) t

  unfoldable pub run_stats :
      Result Config → (Config → Option Err) → At → Option Bool → Table → (ℕ × Output) × Table
  unfolding with_store stats_command
  run_stats config open_store at none t = ((2, silent), t)
  run_stats config open_store at (some as_json) t =
      with_store config open_store (λ c. stats_command at c as_json) t
