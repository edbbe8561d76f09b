-- ===== src/App.antt =====
-- internal/app/api.go: the administrative HTTP API, on the methods of the store.
--
-- A request is what the handlers read of it. Parameters: strconv.Atoi (`atoi`), encoding/json on a
-- cursor (`decode_cursor`), and the text of an error (`describe`).
pub mod Pages
pub mod Access
pub mod Statistics
use Prim.Native.String.{◌++◌ as cat}
use go_outbox.Base.{
  ℕ, Bool, true, false, not, ◌&&◌, ◌||◌, Option, none, some, List, [], ◌∷◌, String, length, str_eq,
  if◌then◌else◌, ltb, ◌==◌, is_some,
}
use go_outbox.Base.Int.{ℤ, pos, pos_part, leb_ℤ, ltb_ℤ}
use go_outbox.Core.Errors.{Err, Result, ok, err}
use go_outbox.Store.Table.{Table}
use go_outbox.Store.Operations.{
  At, Cursor, FailedMessage, list_failed, requeue, requeue_failed_before,
}

abbrev pub default_page_size : ℕ
default_page_size = 50

abbrev pub max_page_size : ℕ
max_page_size = 500

abbrev pub max_requeue_ids : ℕ
max_requeue_ids = 10000

-- A status with a message, a page of failed messages with the cursor of the next, or what was
-- requeued.
pub data Response : Type 0 where
  refusal : ℕ → String → Response
  page : List FailedMessage → Option Cursor → Response
  requeued : List ℕ → Response

-- The body of a requeue.
pub record RequeueRequest : Type 0 where
  pub ids : List ℕ
  pub failed_before : Option ℕ
  pub limit : ℤ

-- `len(messages)-1` of no message is not reached: a page has room for one.
abbrev pub last_cursor : List FailedMessage → Option Cursor
last_cursor [] = none
last_cursor (m ∷ []) = some (record { created_at = m.created_at; id = some m.id })
last_cursor (m ∷ n ∷ ms) = last_cursor (n ∷ ms)

unfoldable pub page_of : ℕ → List FailedMessage → Response
page_of limit messages =
    page messages (if length messages == limit then last_cursor messages else none)

module _ (atoi : String → Option ℤ) (decode_cursor : String → Option Cursor)
    (describe : Err → String) where
  -- `intParam`
  unfoldable pub int_param : String → ℕ → ℕ → ℕ
  int_param raw default maximum = if str_eq raw "" then default else elim (atoi raw) [
    | none ↦ default
    | some v ↦
        if ltb_ℤ v (pos 1) then default else if ltb_ℤ (pos maximum) v then maximum else pos_part v
  ]

  -- The cursor of a query, or none for one that is not valid.
  unfoldable pub cursor_of : String → Option Cursor
  cursor_of raw =
      if str_eq raw "" then some (record { created_at = 0; id = none }) else decode_cursor raw

  unfoldable pub listed : ℕ → Result (List FailedMessage) → Response
  unfolding page_of
  listed limit (err e) = refusal 500 (cat "could not list failed messages: " (describe e))
  listed limit (ok messages) = page_of limit messages

  -- `handleListFailed`, on the query's `limit`, `after` and `stream`.
  unfoldable pub handle_list_failed : Bool → At → String → String → String → Table → Response
  unfolding int_param cursor_of listed list_failed
  handle_list_failed has_store at limit after stream t =
      if not has_store
      then refusal 503 "the store is not available yet"
      else elim (cursor_of after) [
        | none ↦ refusal 400 "the after cursor is not valid JSON"
        | some cursor ↦
            listed (int_param limit default_page_size max_page_size)
              (list_failed at cursor (int_param limit default_page_size max_page_size) stream t)
      ]

  abbrev pub returned : Result (List ℕ) × Table → Response × Table
  returned (err e, t) = (refusal 500 (cat "could not requeue: " (describe e)), t)
  returned (ok ids, t) = (requeued ids, t)

  unfoldable pub requeue_limit : ℤ → ℕ
  requeue_limit limit =
      if leb_ℤ limit (pos 0) || ltb_ℤ (pos max_requeue_ids) limit then 1000 else pos_part limit

  -- `handleRequeue`; `body` is none where it cannot be decoded.
  unfoldable pub handle_requeue : Bool → At → Option RequeueRequest → Table → Response × Table
  unfolding requeue requeue_failed_before requeue_limit
  handle_requeue has_store at body t =
      if not has_store then (refusal 503 "the store is not available yet", t) else elim body [
        | none ↦ (refusal 400 "could not read the request body", t)
        | some r ↦
            if ltb 0 (length r.ids) && is_some r.failed_before
            then (refusal 400 "give either ids or failed_before, not both", t)
            else if ltb max_requeue_ids (length r.ids)
            then (refusal 400 "at most 10000 ids per request", t)
            else elim r.failed_before [
              | some before ↦ returned (requeue_failed_before at before (requeue_limit r.limit) t)
              | none ↦
                  if length r.ids == 0
                  then (refusal 400 "give either ids or failed_before", t)
                  else returned (requeue at r.ids t)
            ]
      ]
