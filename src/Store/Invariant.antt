-- ===== src/Store/Invariant.antt =====
-- The table's constraints hold after every statement.
use go_outbox.Base.{ℕ, ◌≡◌, refl, Option, none, some, List, [], ◌∷◌, elem, Bool-cases, inl, inr}
use go_outbox.Core.{RetryLimits}
use go_outbox.Store.Table.{
  Row, Table, ids, Leased, WellFormed, update-WellFormed, remove-WellFormed,
}
use go_outbox.Store.Queries.{
  claim_sql, ack_sql, Failure, nack_sql, nack_row, nack_set, nack_input, input_for, release_sql,
  reclaim_sql, purge_sql, requeue_sql, requeue_before_sql, terminal,
}
use go_outbox.Store.System.{
  Statement, inserts, claims, acks, nacks, releases, reclaims, purges, requeues, requeues_before,
  insert_sql, exec, run,
}

nack_input-id :
    (limits : RetryLimits) (now : ℕ) (o : Option Failure) (r : Row)
    → (nack_input limits now o r).id ≡ r.id
unfolding nack_row
nack_input-id limits now none r = refl
nack_input-id limits now (some f) r = refl

pub nack_set-id :
    (limits : RetryLimits) (now : ℕ) (fs : List Failure) (r : Row)
    → (nack_set limits now fs r).id ≡ r.id
nack_set-id limits now fs r = nack_input-id limits now (input_for r.id fs) r

nack_input-Leased :
    (limits : RetryLimits) (now : ℕ) (o : Option Failure) (r : Row)
    → Leased r
    → Leased (nack_input limits now o r)
unfolding nack_row
nack_input-Leased limits now none r l = l
nack_input-Leased limits now (some f) r l = elim (Bool-cases (terminal limits now f r)) [
  | inl ends ↦ record { while_processing = rw ends refl; with_deadline = refl }
  | inr goes_on ↦ record { while_processing = rw goes_on refl; with_deadline = refl }
]

free-Leased : (r : Row) → Leased r → Leased r
free-Leased r l = l

-- Every statement keeps the constraints: identifiers stay distinct, and a row has a lease token
-- and a deadline exactly while its status is processing.
pub exec-WellFormed :
    (now : ℕ) (s : Statement) (t : Table) → WellFormed t → WellFormed (exec now s t)
unfolding exec insert_sql claim_sql ack_sql nack_sql release_sql reclaim_sql purge_sql requeue_sql
    requeue_before_sql
exec-WellFormed now (inserts m) t w = elim (Bool-cases (elem m.id (ids t))) [
  | inl there ↦ rw there w
  | inr fresh ↦ rw fresh (record {
    leases = (record { while_processing = refl; with_deadline = refl }, w.leases);
    keys = (fresh, w.keys);
  })
]
exec-WellFormed now (claims locked stream limit token ttl owner) t w =
    update-WellFormed _ _ (λ r. refl)
      (λ r h l. record { while_processing = refl; with_deadline = refl }) t w
exec-WellFormed now (acks given token) t w =
    update-WellFormed _ _ (λ r. refl)
      (λ r h l. record { while_processing = refl; with_deadline = refl }) t w
exec-WellFormed now (nacks limits fs token) t w =
    update-WellFormed _ _ (nack_set-id limits now fs)
      (λ r h l. nack_input-Leased limits now (input_for r.id fs) r l) t w
exec-WellFormed now (releases given token) t w =
    update-WellFormed _ _ (λ r. refl)
      (λ r h l. record { while_processing = refl; with_deadline = refl }) t w
exec-WellFormed now (reclaims locked limit) t w =
    update-WellFormed _ _ (λ r. refl)
      (λ r h l. record { while_processing = refl; with_deadline = refl }) t w
exec-WellFormed now (purges locked retention limit) t w = remove-WellFormed _ t w
exec-WellFormed now (requeues given) t w =
    update-WellFormed _ _ (λ r. refl)
      (λ r h l. record { while_processing = refl; with_deadline = refl }) t w
exec-WellFormed now (requeues_before before limit) t w =
    update-WellFormed _ _ (λ r. refl)
      (λ r h l. record { while_processing = refl; with_deadline = refl }) t w

-- So they hold after every history of statements.
pub run-WellFormed : (h : List (ℕ × Statement)) (t : Table) → WellFormed t → WellFormed (run h t)
unfolding run
run-WellFormed [] t w = w
run-WellFormed ((now, s) ∷ rest) t w =
    run-WellFormed rest (exec now s t) (exec-WellFormed now s t w)
