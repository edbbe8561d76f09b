-- ===== src/Store/Partitions.antt =====
-- internal/store/partition.go: the daily partitions of the outbox table.
--
-- A partition has its rows, and the days that it takes, or none for the default one. Days are
-- numbers; the name that `partitionName` gives a day (`name_of`) and the server's date of a row
-- (`day_of`) are parameters. Each loop takes what the database answers, step by step.
pub mod Spent
use go_outbox.Base.{
  ℕ, zero, suc, ◌+◌, Bool, true, false, not, ◌&&◌, ◌||◌, Option, none, some, List, [], ◌∷◌, ◌++◌,
  String, if◌then◌else◌, ltb, leb, is_some, any, str_eq, length, ◌==◌,
}
use go_outbox.Base.Int.{ℤ, pos, leb_ℤ, pos_part}
use go_outbox.Core.{is_sent}
use go_outbox.Core.Errors.{Err, leaf, server, wrap, Result, ok, err}
use go_outbox.Store.Table.{Row, Table}
use go_outbox.Store.System.{Statement, run}

pub record Part : Type 0 where
  pub name : String
  pub days : Option (ℕ × ℕ)
  pub rows : Table

-- `Partition.Default`
abbrev pub is_default : Part → Bool
is_default p = not (is_some p.days)

abbrev pub meets : ℕ → Option (ℕ × ℕ) → Bool
meets day none = false
meets day (some (from, until)) = leb from day && ltb day until

-- What the server says to the CREATE of one day's partition.
abbrev pub overlap : Err
overlap = leaf (server "42P17" "partition would overlap partition")

abbrev pub default_violated : Err
default_violated =
    leaf (server "23514" "updated partition constraint for default partition would be violated")

module _ (name_of : ℕ → String) (day_of : ℕ → ℕ) where
  -- CREATE TABLE IF NOT EXISTS … PARTITION OF … FOR VALUES FROM day TO day + 1.
  unfoldable pub create : ℕ → List Part → Option Err × List Part
  create day parts =
      if any (λ p. str_eq p.name (name_of day)) parts
      then (none, parts)
      else if any (λ p. meets day p.days) parts
      then (some overlap, parts)
      else if any (λ p. is_default p && any (λ r. day_of r.created_at == day) p.rows) parts
      then (some default_violated, parts)
      else (
        none,
        parts ++ (record { name = name_of day; days = some (day, day + 1); rows = [] } ∷ []),
      )

  abbrev pub attempt : Option Err → ℕ → List Part → Option Err × List Part
  attempt (some e) day parts = (some e, parts)
  attempt none day parts = create day parts

  -- The loop of `EnsurePartitions`: `n` days from `day` on. `lost` are the connection's own errors.
  unfoldable pub ensure_days :
      (ℕ → Option Err) → ℕ → ℕ → List Part → (List String × Option Err) × List Part
  unfolding create
  ensure_days lost zero day parts = (([], none), parts)
  ensure_days lost (suc n) day parts =
      let (answer, after) = attempt (lost day) day parts in
      elim answer [
        | some e ↦ (([], some (wrap "create partition" e)), after)
        | none ↦
            let ((names, e), final) = ensure_days lost n (suc day) after in
            ((name_of day ∷ names, e), final)
      ]

  -- `EnsurePartitions`; `today` is what the server answers for its date.
  unfoldable pub ensure :
      (ℕ → Option Err) → Result ℕ → ℤ → List Part → (List String × Option Err) × List Part
  unfolding ensure_days
  ensure lost (err e) ahead parts = (([], some (wrap "read the database date" e)), parts)
  ensure lost (ok today) ahead parts = ensure_days lost (suc (pos_part ahead)) today parts

abbrev pub latest : Option ℕ → Option ℕ → Option ℕ
latest none m = m
latest (some d) none = some d
latest (some d) (some m) = some (if ltb m d then d else m)

-- `max(dispatched_at)`, which a NULL does not enter.
unfoldable pub last_dispatch : Table → Option ℕ
last_dispatch [] = none
last_dispatch (r ∷ t) = latest r.dispatched_at (last_dispatch t)

abbrev pub all_sent : Table → Bool
all_sent [] = true
all_sent (r ∷ t) = is_sent r.status && all_sent t

abbrev pub before_window : ℕ → ℕ → Option ℕ → Bool
before_window retention now none = true
before_window retention now (some m) = ltb (m + retention) now

-- The query of `partitionExpired`. Without a row, the last dispatch is `-infinity`.
unfoldable pub is_spent : ℕ → ℕ → Table → Bool
unfolding last_dispatch
is_spent retention now t = all_sent t && before_window retention now (last_dispatch t)

-- One partition's turn in `DropExpiredPartitions`: the instant of the query, its error, what others
-- commit in the partition before the DROP runs, and the DROP's error.
pub record Visit : Type 0 where
  pub now : ℕ
  pub query : Option Err
  pub between : List (ℕ × Statement)
  pub drop : Option Err

pub data Visited : Type 0 where
  kept : Part → Visited
  dropped : Table → Visited
  stopped : Err → Part → Visited

abbrev pub later : Visit → Part → Part
unfolding run
later v p = record p { rows = run v.between p.rows }

-- The body of the loop.
unfoldable pub visit : Visit → ℕ → Part → Visited
unfolding is_spent run
visit v retention p = if is_default p then kept (later v p) else elim v.query [
  | some e ↦ stopped (wrap "check whether partition is spent" e) (later v p)
  | none ↦
      if is_spent retention v.now p.rows
      then elim v.drop [
        | some e ↦ stopped (wrap "drop partition" e) (later v p)
        | none ↦ dropped (later v p).rows
      ]
      else kept (later v p)
]

-- The loop of `DropExpiredPartitions`, from the `i`th partition on.
unfoldable pub drop_parts : (ℕ → Visit) → ℕ → ℕ → List Part → (List String × Option Err) × List Part
unfolding visit
drop_parts visits i retention [] = (([], none), [])
drop_parts visits i retention (p ∷ ps) = elim (visit (visits i) retention p) [
  | stopped e p' ↦ (([], some e), p' ∷ ps)
  | kept p' ↦ let (answer, rest) = drop_parts visits (suc i) retention ps in (answer, p' ∷ rest)
  | dropped rows ↦
      let ((names, e), rest) = drop_parts visits (suc i) retention ps in ((p.name ∷ names, e), rest)
]

-- `DropExpiredPartitions`; `listed` is the error of `Partitions`.
unfoldable pub drop_expired :
    Option Err → (ℕ → Visit) → ℤ → List Part → (List String × Option Err) × List Part
unfolding drop_parts
drop_expired listed visits retention parts =
    if leb_ℤ retention (pos 0) then (([], none), parts) else elim listed [
      | some e ↦ (([], some e), parts)
      | none ↦ drop_parts visits 0 (pos_part retention) parts
    ]

-- `DefaultPartitionRows`
unfoldable pub default_rows : List Part → ℕ
default_rows [] = 0
default_rows (p ∷ ps) = let rest = default_rows ps in if is_default p then length p.rows else rest
