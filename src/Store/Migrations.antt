-- ===== src/Store/Migrations.antt =====
-- internal/store/migrate: the runner of the embedded migrations (migrate.go, sql.go).
--
-- The database is the rows of schema_migrations and the statements that were executed. Parameters:
-- the match of a file's name (`submatch`), strconv.Atoi, the hexadecimal SHA-256 sum (`checksum`) and
-- strings.NewReplacer (`replacer`). A Go map is a list of entries.
pub mod Records
pub mod Runs
use go_outbox.Base.{
  ℕ, suc, Bool, true, false, not, ◌&&◌, ◌||◌, Option, none, some, List, [], ◌∷◌, ◌++◌, map, String,
  if◌then◌else◌, ltb, ◌==◌, str_eq, sort, is_some, elem,
}
use go_outbox.Core.Errors.{Err, leaf, wrap, text, server, Result, ok, err}

-- The options that a migration's text depends on.
pub record Options : Type 0 where
  pub schema : String
  pub table : String
  pub channel : String

pub record Record : Type 0 where
  pub version : ℕ
  pub name : String
  pub checksum : String
  pub applied_at : ℕ

pub record Migration : Type 0 where
  pub version : ℕ
  pub name : String
  pub template : String
  pub checksum : String

pub record Database : Type 0 where
  pub records : List Record
  pub executed : List String

-- The record of a version, in the table and in the map that `recorded` makes of it.
unfoldable pub record_of : ℕ → List Record → Option Record
record_of v [] = none
record_of v (r ∷ rs) = if r.version == v then some r else record_of v rs

-- An embedded file.
pub record File : Type 0 where
  pub name : String
  pub is_dir : Bool
  pub is_sql : Bool
  pub body : Result String

-- What the database answers to the statements of `apply`: its errors, and at COMMIT whether the
-- transaction stands although an error came back.
pub record Answer : Type 0 where
  pub begun : Option Err
  pub ran : Option Err
  pub recorded : Option Err
  pub committed : Option (Err × Bool)
  pub now : ℕ

abbrev version_taken : Err
version_taken = leaf (server "23505" "duplicate key value violates unique constraint")

abbrev by_version : Migration → Migration → Bool
by_version a b = ltb a.version b.version

abbrev record_by_version : Record → Record → Bool
record_by_version a b = ltb a.version b.version

module _ (submatch : String → Option (String × String)) (atoi : String → Result ℕ)
    (checksum : String → String) (replacer : List (String × String) → String → String) where
  -- One `.sql` file, against the versions that were seen.
  unfoldable read_file : List ℕ → File → Result Migration
  read_file seen f = elim (submatch f.name) [
    | none ↦ err (leaf (text "migration does not match <version>_<name>.sql"))
    | some (digits, name) ↦ elim (atoi digits) [
      | err e ↦ err (wrap "migration has an unreadable version" e)
      | ok v ↦ if elem v seen then err (leaf (text "migrations share a version")) else elim f.body [
        | err e ↦ err (wrap "read migration" e)
        | ok body ↦
            ok (record { version = v; name = name; template = body; checksum = checksum body })
      ]
    ]
  ]

  -- The loop of `load`.
  unfoldable load_files : List ℕ → List File → Result (List Migration)
  unfolding read_file
  load_files seen [] = ok []
  load_files seen (f ∷ fs) =
      let skipped = load_files seen fs in
      if f.is_dir || not f.is_sql then skipped else elim (read_file seen f) [
        | err e ↦ err e
        | ok m ↦ elim (load_files (m.version ∷ seen) fs) [ err e ↦ err e | ok ms ↦ ok (m ∷ ms) ]
      ]

  -- `load`
  unfoldable pub load : Result (List File) → Result (List Migration)
  unfolding load_files
  load (err e) = err (wrap "read embedded migrations" e)
  load (ok files) = elim (load_files [] files) [ err e ↦ err e | ok ms ↦ ok (sort by_version ms) ]

  -- `substitute`
  unfoldable pub substitute : Options → String → String
  substitute o template =
      replacer (("@schema@", o.schema) ∷ ("@table@", o.table) ∷ ("@channel@", o.channel) ∷ [])
        template

  -- What the transaction of `apply` leaves when it commits.
  unfoldable pub applied : Options → Answer → Migration → Database → Record × Database
  unfolding substitute
  applied o a m db =
      let r : Record = record {
        version = m.version;
        name = m.name;
        checksum = m.checksum;
        applied_at = a.now;
      } in
      (
        r,
        record {
          records = db.records ++ (r ∷ []);
          executed = db.executed ++ (substitute o m.template ∷ []);
        },
      )

  -- The end of `apply`: COMMIT.
  abbrev pub settled : Option (Err × Bool) → Database → Record × Database → Result Record × Database
  settled none db (r, after) = (ok r, after)
  settled (some (e, true)) db (r, after) = (err (wrap "commit" e), after)
  settled (some (e, false)) db (r, after) = (err (wrap "commit" e), db)

  -- `apply`. The version is the primary key of schema_migrations.
  unfoldable pub apply : Options → Answer → Migration → Database → Result Record × Database
  unfolding applied record_of
  apply o a m db = elim a.begun [
    | some e ↦ (err (wrap "begin" e), db)
    | none ↦ elim a.ran [
      | some e ↦ (err e, db)
      | none ↦ elim a.recorded [
        | some e ↦ (err (wrap "record migration" e), db)
        | none ↦
            if is_some (record_of m.version db.records)
            then (err (wrap "record migration" version_taken), db)
            else settled a.committed db (applied o a m db)
      ]
    ]
  ]

  abbrev mismatch : Err
  mismatch = wrap "migration file changed after it was applied" (leaf (text "checksum"))

  abbrev pub then_run :
      (Database → (List Record × Option Err) × Database)
      → Result Record × Database
      → (List Record × Option Err) × Database
  then_run next (err e, db) = (([], some (wrap "apply migration" e)), db)
  then_run next (ok r, db) = let ((done, e), final) = next db in ((r ∷ done, e), final)

  -- What the loop does with a migration that is recorded, or not.
  abbrev pub chosen :
      Option Record
      → Migration
      → Database
      → (List Record × Option Err) × Database
      → (List Record × Option Err) × Database
      → (List Record × Option Err) × Database
  chosen (some prev) m db skipped fresh =
      if str_eq prev.checksum m.checksum then skipped else (([], some mismatch), db)
  chosen none m db skipped fresh = fresh

  -- The loop of `Run`: the migrations that it applied, and the error that ended it, if any. `known`
  -- is what `recorded` read before the loop.
  unfoldable pub run_all :
      Options
      → (ℕ → Answer)
      → ℕ
      → List Record
      → List Migration
      → Database
      → (List Record × Option Err) × Database
  unfolding apply record_of
  run_all o answers i known [] db = (([], none), db)
  run_all o answers i known (m ∷ ms) db =
      chosen (record_of m.version known) m db (run_all o answers (suc i) known ms db)
        (then_run (run_all o answers (suc i) known ms) (apply o (answers i) m db))

  -- The errors before the loop of `Run`: those of taking the lock, of the two CREATE IF NOT EXISTS,
  -- and of the query of `recorded`.
  abbrev pub refused : Option Err → Option Err → Option Err → Option Err
  refused (some e) bootstrapped read = some e
  refused none (some e) read = some (wrap "bootstrap migration bookkeeping" e)
  refused none none (some e) = some (wrap "read applied migrations" e)
  refused none none none = none

  abbrev pub run_loaded :
      Options
      → (ℕ → Answer)
      → Result (List Migration)
      → Option Err
      → Database
      → (List Record × Option Err) × Database
  unfolding run_all
  run_loaded o answers (err e) stop db = (([], some e), db)
  run_loaded o answers (ok ms) (some e) db = (([], some e), db)
  run_loaded o answers (ok ms) none db = run_all o answers 0 db.records ms db

  -- `Run`
  unfoldable pub run :
      Options
      → (ℕ → Answer)
      → Result (List File)
      → Option Err
      → Option Err
      → Option Err
      → Database
      → (List Record × Option Err) × Database
  unfolding load run_loaded
  run o answers files locked bootstrapped read db =
      run_loaded o answers (load files) (refused locked bootstrapped read) db

  -- `Status`
  unfoldable pub status : Option Err → Option Err → Database → Result (List Record)
  status bootstrapped read db = elim bootstrapped [
    | some e ↦ err (wrap "bootstrap migration bookkeeping" e)
    | none ↦ elim read [
      | some e ↦ err (wrap "read applied migrations" e)
      | none ↦ ok (sort record_by_version db.records)
    ]
  ]

  -- `Pending`, whose records have no time.
  unfoldable pub pending : Result (List File) → Result (List (ℕ × String × String))
  unfolding load
  pending files = elim (load files) [
    | err e ↦ err e
    | ok ms ↦ ok (map (λ (m : Migration). (m.version, m.name, m.checksum)) ms)
  ]
