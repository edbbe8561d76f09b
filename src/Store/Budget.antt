-- ===== src/Store/Budget.antt =====
-- The attempt budget over the life of every row.
use go_outbox.Base.{
  ℕ, ◌≤◌, ◌<◌, ◌≡◌, refl, Bool, true, ◌&&◌, not, ◌⊎◌, inl, inr, Option, none, some, List, [], ◌∷◌,
  arith, Option-cases,
}
use go_outbox.Base.Int.{pos}
use go_outbox.Core.{processing, sent, failed, RetryLimits}
use go_outbox.Store.Table.{
  Row, Table, find, find-update, find-remove, find-remove-none, rewrite, update, remove, WellFormed,
}
use go_outbox.Store.Queries.{
  Failure, nack_sql, nack_row, nack_input, input_for, terminal, claim_sql, ack_sql, release_sql,
  reclaim_sql, purge_sql, requeue_sql, requeue_before_sql, is_due, is_expired, by_availability,
  by_deadline,
}
use go_outbox.Store.Batches.{batch-test}
use go_outbox.Store.Invariant.{nack_set-id, exec-WellFormed}
use go_outbox.Store.Lifecycle.{holds-processing, find-Leased}
use go_outbox.Store.System.{
  Statement, inserts, claims, acks, nacks, releases, reclaims, purges, requeues, requeues_before,
  insert_sql, exec, run,
}

-- The budget of a deployment whose limit is `m` attempts: a row that is not failed has an attempt
-- left, and none has had more than `m`.
pub record InBudget (m : ℕ) (r : Row) : Type 0 where
  pub within : r.attempts ≤ m
  pub left_over : (r.status ≡ failed) ⊎ (r.status ≡ sent) ⊎ (r.attempts < m)

-- Every failure of the history is judged by the limit `m`.
abbrev pub Limits : ℕ → Statement → Type 0
Limits m (nacks limits fs token) = limits.max_attempts ≡ pos m
Limits m (inserts x) = Unit
Limits m (claims locked stream limit token ttl owner) = Unit
Limits m (acks given token) = Unit
Limits m (releases given token) = Unit
Limits m (reclaims locked limit) = Unit
Limits m (purges locked retention limit) = Unit
Limits m (requeues given) = Unit
Limits m (requeues_before before limit) = Unit

nack_input-InBudget :
    (m : ℕ) (limits : RetryLimits) (now : ℕ) (o : Option Failure) (r : Row)
    → limits.max_attempts ≡ pos m
    → (r.status ≡ processing)
    → InBudget m r
    → InBudget m (nack_input limits now o r)
unfolding nack_row terminal
nack_input-InBudget m limits now none r e p b = b
nack_input-InBudget m limits now (some f) r e p b = ground arith

abbrev pub Within : ℕ → Option Row → Type 0
Within m none = Unit
Within m (some r) = InBudget m r

-- An update of one row of the table.
update-Within :
    (m : ℕ) (hit : Row → Bool) (set : Row → Row)
    → ((r : Row) → (set r).id ≡ r.id)
    → (i : ℕ) (t : Table)
    → ((r : Row) → find i t ≡ some r → hit r ≡ true → InBudget m r → InBudget m (set r))
    → Within m (find i t)
    → Within m (find i (update hit set t))
update-Within m hit set keeps i t step b =
    rw (find-update hit set keeps i t) (by_row (find i t) refl b)
  where
    by_row : (o : Option Row) → find i t ≡ o → Within m o → Within m (rewrite hit set o)
    by_row none e x = tt
    by_row (some r) e x = ground (arith, step r e)

remove-Within :
    (m : ℕ) (hit : Row → Bool) (i : ℕ) (t : Table)
    → WellFormed t
    → Within m (find i t)
    → Within m (find i (remove hit t))
remove-Within m hit i t w b = elim (Option-cases (find i t)) [
  | inl e ↦ rw (find-remove-none hit i t e) tt
  | inr (r, e) ↦ rw (find-remove hit i t {r = r} w.keys e) (ground (arith, e))
]

exec-Within :
    (m now : ℕ) (st : Statement) (i : ℕ) (t : Table)
    → 0 < m
    → WellFormed t
    → Limits m st
    → Within m (find i t)
    → Within m (find i (exec now st t))
unfolding exec insert_sql claim_sql ack_sql nack_sql release_sql reclaim_sql purge_sql requeue_sql
    requeue_before_sql
exec-Within m now (inserts x) i t p w l b = ground arith
exec-Within m now (claims locked stream limit token ttl owner) i t p w l b =
    update-Within m _ _ (λ x. refl) i t
      (λ r f h y. ground (
        arith,
        batch-test by_availability limit (λ x. is_due stream now x && not (locked x.id)) i t {r = r}
            w.keys f h,
      ))
      b
exec-Within m now (acks given token) i t p w l b =
    update-Within m _ _ (λ x. refl) i t (λ r f h y. ground arith) b
exec-Within m now (nacks limits fs token) i t p w l b =
    update-Within m _ _ (nack_set-id limits now fs) i t
      (λ r f h y.
        nack_input-InBudget m limits now (input_for r.id fs) r l
          (holds-processing r token (find-Leased i t w f) (ground arith)) y)
      b
exec-Within m now (releases given token) i t p w l b =
    update-Within m _ _ (λ x. refl) i t (λ r f h y. ground arith) b
exec-Within m now (reclaims locked limit) i t p w l b =
    update-Within m _ _ (λ x. refl) i t
      (λ r f h y. ground (
        arith,
        batch-test by_deadline limit (λ x. is_expired now x && not (locked x.id)) i t {r = r} w.keys
            f h,
      ))
      b
exec-Within m now (purges locked retention limit) i t p w l b = remove-Within m _ i t w b
exec-Within m now (requeues given) i t p w l b =
    update-Within m _ _ (λ x. refl) i t (λ r f h y. ground arith) b
exec-Within m now (requeues_before before limit) i t p w l b =
    update-Within m _ _ (λ x. refl) i t (λ r f h y. ground arith) b

abbrev pub AllLimits : ℕ → List (ℕ × Statement) → Type 0
AllLimits m [] = Unit
AllLimits m ((now, st) ∷ rest) = Limits m st × AllLimits m rest

-- With a limit of `m` attempts, at least one, no history takes a row past `m` attempts, and a row
-- that is neither failed nor sent always has an attempt left.
pub run-Within :
    (m : ℕ) (h : List (ℕ × Statement)) (i : ℕ) (t : Table)
    → 0 < m
    → WellFormed t
    → AllLimits m h
    → Within m (find i t)
    → Within m (find i (run h t))
unfolding run
run-Within m [] i t p w l b = b
run-Within m ((now, st) ∷ rest) i t p w l b =
    run-Within m rest i (exec now st t) p (exec-WellFormed now st t w) l.1
      (exec-Within m now st i t p w l.0 b)
