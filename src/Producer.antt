-- ===== src/Producer.antt =====
-- pkg/outboxclient and pkg/outboxsql: what a producer writes, in the transaction of its business
-- change. The two packages are `Producer.Pgx` and `Producer.Sql`.
--
-- The caller's transaction is the table that is passed through; to roll it back is to drop that
-- table. uuid.NewV7 (`new_id`) and encoding/json (`encode_headers`, `encode_target`, which give the
-- bytes as the jsonb columns hold them) are parameters.
pub mod Pgx
pub mod Sql
pub mod Agreement
pub mod Delivery
use go_outbox.Base.{
  ℕ, Bool, true, false, Option, none, some, List, [], ◌∷◌, String, elem, if◌then◌else◌, str_eq, not,
}
use go_outbox.Core.{Target}
use go_outbox.Core.Errors.{Err, leaf, server, text, Result, ok, err}
use go_outbox.Core.Identifiers.{is_identifier}
use go_outbox.Store.Table.{Table, ids}
use go_outbox.Store.System.{Insert, insert_sql}
use go_outbox.Store.Operations.{At, Fault, fine, refused, cut}

-- `Message` of either package: an empty identifier, nil headers and the zero time are `none`.
pub record Draft : Type 0 where
  pub id : Option ℕ
  pub stream : String
  pub topic : String
  pub payload : List ℕ
  pub headers : Option (List (String × String))
  pub target : Target
  pub available_at : Option ℕ

-- `{}`
abbrev pub no_headers : List ℕ
no_headers = b'{' ∷ b'}' ∷ []

abbrev pub duplicate_key : Err
duplicate_key = leaf (server "23505" "duplicate key value violates unique constraint")

-- The INSERT of either package, as `Exec` and `ExecContext` answer it.
unfoldable pub execute : At → Insert → Table → Option Err × Table
unfolding insert_sql
execute at m t = elim at.fault [
  | refused e ↦ (some e, t)
  | cut e ↦ (some e, insert_sql at.now m t)
  | fine ↦ (if elem m.id (ids t) then some duplicate_key else none, insert_sql at.now m t)
]

-- `New` of either package: the schema and the table that the statement names.
unfoldable pub new_client : String → String → Result (String × String)
unfolding is_identifier
new_client schema table =
    if not (is_identifier schema)
    then err (leaf (text "schema is not a valid lower-case unquoted identifier"))
    else if not (is_identifier table)
    then err (leaf (text "table is not a valid lower-case unquoted identifier"))
    else ok (schema, table)
