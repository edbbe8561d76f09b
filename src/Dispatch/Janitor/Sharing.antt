-- ===== src/Dispatch/Janitor/Sharing.antt =====
-- How far the statements of others, and one chunk of a sweep, change the number of rows.
use go_outbox.Base.{ℕ, ◌+◌, ◌≤◌, ◌≡◌, refl, Bool, List, [], ◌∷◌, length, keep, arith}
use go_outbox.Core.Errors.{Result, ok, err}
use go_outbox.Store.Table.{Row, Table, remove, WellFormed, length-update, remove-WellFormed}
use go_outbox.Store.Queries.{
  claim_sql, ack_sql, nack_sql, release_sql, reclaim_sql, purge_sql, requeue_sql,
  requeue_before_sql, doomed, in_rows,
}
use go_outbox.Store.Accounting.{batches-bounded}
use go_outbox.Store.Invariant.{exec-WellFormed}
use go_outbox.Store.Operations.{At, Fault, fine, refused, cut, purge}
use go_outbox.Store.System.{
  Statement, inserts, claims, acks, nacks, releases, reclaims, purges, requeues, requeues_before,
  insert_sql, exec, run,
}

-- The rows that statements may add, one for each insertion, and take, a purge's limit for each.
abbrev one_added : Statement → ℕ
one_added (inserts m) = 1
one_added st = 0

abbrev most_taken : Statement → ℕ
most_taken (purges locked retention limit) = limit
most_taken st = 0

abbrev pub adds : List (ℕ × Statement) → ℕ
adds [] = 0
adds ((now, st) ∷ rest) = one_added st + adds rest

abbrev pub takes : List (ℕ × Statement) → ℕ
takes [] = 0
takes ((now, st) ∷ rest) = most_taken st + takes rest

pub length-remove :
    (hit : Row → Bool) (t : Table) → length (keep hit t) + length (remove hit t) ≡ length t
length-remove hit [] = refl
length-remove hit (r ∷ t) = ground (arith, length-remove hit t)

abbrev Sized : Statement → Table → Table → Type 0
Sized st t u = (length u ≤ length t + one_added st) × (length t ≤ length u + most_taken st)

exec-Sized : (now : ℕ) (st : Statement) (t : Table) → WellFormed t → Sized st t (exec now st t)
unfolding exec insert_sql claim_sql ack_sql nack_sql release_sql reclaim_sql requeue_sql
    requeue_before_sql purge_sql
exec-Sized now (inserts m) t w = (ground arith, ground arith)
exec-Sized now (claims locked stream limit token ttl owner) t w =
    (omega (arith, length-update _ _ t), omega (arith, length-update _ _ t))
exec-Sized now (acks given token) t w =
    (omega (arith, length-update _ _ t), omega (arith, length-update _ _ t))
exec-Sized now (nacks limits fs token) t w =
    (omega (arith, length-update _ _ t), omega (arith, length-update _ _ t))
exec-Sized now (releases given token) t w =
    (omega (arith, length-update _ _ t), omega (arith, length-update _ _ t))
exec-Sized now (reclaims locked limit) t w =
    (omega (arith, length-update _ _ t), omega (arith, length-update _ _ t))
exec-Sized now (purges locked retention limit) t w =
    let size = length-remove (in_rows (doomed locked retention limit now t)) t in
    let (x, y, few) = batches-bounded locked "" "" limit 0 0 retention now t w in
    (omega (arith, size), omega (arith, size, few))
exec-Sized now (requeues given) t w =
    (omega (arith, length-update _ _ t), omega (arith, length-update _ _ t))
exec-Sized now (requeues_before before limit) t w =
    (omega (arith, length-update _ _ t), omega (arith, length-update _ _ t))

pub run-sized :
    (h : List (ℕ × Statement)) (t : Table)
    → WellFormed t
    → (length (run h t) ≤ length t + adds h) × (length t ≤ length (run h t) + takes h)
unfolding run
run-sized [] t w = (omega arith, omega arith)
run-sized ((now, st) ∷ rest) t w =
    let (most, least) = exec-Sized now st t w in
    let (most', least') = run-sized rest (exec now st t) (exec-WellFormed now st t w) in
    (omega (arith, most, most'), omega (arith, least, least'))

-- What a purge that answers says of the table.
abbrev pub Shrinks : Table → Result ℕ × Table → Type 0
Shrinks t (ok n, u) = (n + length u ≡ length t) × WellFormed u
Shrinks t (err e, u) = length u ≤ length t

pub purge-Shrinks :
    (at : At) (retention limit : ℕ) (t : Table)
    → WellFormed t
    → Shrinks t (purge at retention limit t)
unfolding purge purge_sql
purge-Shrinks at retention limit t w = by_fault at.fault
  where
    by_fault : (f : Fault) → Shrinks t (purge (record at { fault = f }) retention limit t)
    by_fault fine =
        let hit = in_rows (doomed at.locked retention limit at.now t) in
        (length-remove hit t, remove-WellFormed hit t w)
    by_fault (refused e) = omega arith
    by_fault (cut e) =
        omega (arith, length-remove (in_rows (doomed at.locked retention limit at.now t)) t)
