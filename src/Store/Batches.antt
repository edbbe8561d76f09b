-- ===== src/Store/Batches.antt =====
-- What `SELECT … WHERE … ORDER BY … LIMIT` chooses, seen by identifier.
use go_outbox.Base.{
  ℕ, zero, suc, ◌≤◌, ◌≡◌, refl, Bool, true, false, List, [], ◌∷◌, length, keep, elem, take, insert,
  sort, arith, some, length-take,
}
use go_outbox.Store.Table.{Row, Table, ids, find, find-id, Distinct}
use go_outbox.Store.Queries.{batch, in_rows}

elem-insert :
    (before : Row → Row → Bool) (i : ℕ) (r : Row) (rs : List Row)
    → elem i (ids (insert before r rs)) ≡ elem i (ids (r ∷ rs))
elem-insert before i r [] = refl
elem-insert before i r (s ∷ rs) = ground (arith, elem-insert before i r rs)

elem-sort :
    (before : Row → Row → Bool) (i : ℕ) (rs : List Row)
    → elem i (ids (sort before rs)) ≡ elem i (ids rs)
elem-sort before i [] = refl
elem-sort before i (r ∷ rs) =
    ground (arith, elem-insert before i r (sort before rs), elem-sort before i rs)

elem-take : (n i : ℕ) (rs : List Row) → elem i (ids (take n rs)) ≡ true → elem i (ids rs) ≡ true
elem-take zero i rs h = cc
elem-take (suc n) i [] h = cc
elem-take (suc n) i (r ∷ rs) h = ground (arith, elem-take n i rs)

-- An identifier that the test lets through belongs to a row that passes it.
elem-keep :
    (test : Row → Bool) (i : ℕ) (t : Table) {r : Row}
    → Distinct (ids t)
    → find i t ≡ some r
    → elem i (ids (keep test t)) ≡ true
    → test r ≡ true
elem-keep test i [] d f h = cc
elem-keep test i (x ∷ t) {r} d f h =
    ground (arith, elem-keep test i t {r = r} d.1, absent x.id t d.0)
  where
    absent : (j : ℕ) (u : Table) → elem j (ids u) ≡ false → elem j (ids (keep test u)) ≡ false
    absent j [] e = refl
    absent j (y ∷ u) e = ground (arith, absent j u)

-- A row of the table that was chosen passes the test.
pub batch-test :
    (before : Row → Row → Bool) (limit : ℕ) (test : Row → Bool) (i : ℕ) (t : Table) {r : Row}
    → Distinct (ids t)
    → find i t ≡ some r
    → in_rows (batch before limit test t) r ≡ true
    → test r ≡ true
batch-test before limit test i t {r} d f h = elem-keep test i t {r = r} d f (
    ground (
      arith,
      find-id i t {r = r} f,
      elem-sort before i (keep test t),
      elem-take limit i (sort before (keep test t)),
    ))

-- At most `limit` rows are chosen.
pub length-batch-le :
    (before : Row → Row → Bool) (limit : ℕ) (test : Row → Bool) (t : Table)
    → length (batch before limit test t) ≤ limit
length-batch-le before limit test t = omega (arith, length-take limit (sort before (keep test t)))
