-- ===== src/Store/Unsent.antt =====
-- Only an acknowledgement marks a row sent.
use go_outbox.Base.{
  ℕ, ◌≡◌, refl, Bool, true, false, not, ◌⊎◌, inl, inr, Option, none, some, List, [], ◌∷◌, arith,
  elem, Option-cases,
}
use go_outbox.Core.{is_sent, RetryLimits}
use go_outbox.Store.Table.{
  Row, Table, ids, find, find-update, find-remove, find-remove-none, find-id, rewrite, update,
  remove, WellFormed, Distinct,
}
use go_outbox.Store.Queries.{
  claim_sql, ack_sql, Failure, nack_sql, nack_row, nack_input, input_for, release_sql, reclaim_sql,
  purge_sql, requeue_sql, requeue_before_sql,
}
use go_outbox.Store.Invariant.{nack_set-id, exec-WellFormed}
use go_outbox.Store.System.{
  Statement, inserts, claims, acks, nacks, releases, reclaims, purges, requeues, requeues_before,
  insert_sql, exec, run,
}

-- The row with this identifier, if there is one, is not marked sent.
abbrev pub unsent : Option Row → Bool
unsent none = true
unsent (some r) = not (is_sent r.status)

-- What a statement acknowledges.
abbrev pub acknowledges : Statement → ℕ → Bool
acknowledges (acks given token) i = elem i given
acknowledges (nacks limits fs token) i = false
acknowledges (releases given token) i = false
acknowledges (inserts m) i = false
acknowledges (claims locked stream limit token ttl owner) i = false
acknowledges (reclaims locked limit) i = false
acknowledges (purges locked retention limit) i = false
acknowledges (requeues given) i = false
acknowledges (requeues_before before limit) i = false

update-unsent :
    (hit : Row → Bool) (set : Row → Row)
    → ((r : Row) → (set r).id ≡ r.id)
    → (i : ℕ) (t : Table)
    → ((r : Row)
        → find i t ≡ some r
        → hit r ≡ true
        → is_sent r.status ≡ false
        → is_sent (set r).status ≡ false)
    → unsent (find i t) ≡ true
    → unsent (find i (update hit set t)) ≡ true
update-unsent hit set keeps i t step n =
    rw (find-update hit set keeps i t) (by_row (find i t) refl n)
  where
    by_row : (o : Option Row) → find i t ≡ o → unsent o ≡ true → unsent (rewrite hit set o) ≡ true
    by_row none e h = refl
    by_row (some r) e h = ground (arith, step r e)

remove-unsent :
    (hit : Row → Bool) (i : ℕ) (t : Table)
    → Distinct (ids t)
    → unsent (find i t) ≡ true
    → unsent (find i (remove hit t)) ≡ true
remove-unsent hit i t d n = elim (Option-cases (find i t)) [
  | inl e ↦ rw (find-remove-none hit i t e) refl
  | inr (r, e) ↦ ground (arith, find-remove hit i t {r = r} d e)
]

nack_input-unsent :
    (limits : RetryLimits) (now : ℕ) (o : Option Failure) (r : Row)
    → is_sent r.status ≡ false
    → is_sent (nack_input limits now o r).status ≡ false
unfolding nack_row
nack_input-unsent limits now none r h = h
nack_input-unsent limits now (some f) r h = ground arith

pub exec-unsent :
    (now : ℕ) (st : Statement) (i : ℕ) (t : Table)
    → WellFormed t
    → acknowledges st i ≡ false
    → unsent (find i t) ≡ true
    → unsent (find i (exec now st t)) ≡ true
unfolding exec insert_sql claim_sql ack_sql nack_sql release_sql reclaim_sql purge_sql requeue_sql
    requeue_before_sql
exec-unsent now (inserts m) i t w g n = ground arith
exec-unsent now (claims locked stream limit token ttl owner) i t w g n =
    update-unsent _ _ (λ x. refl) i t (λ r f h k. refl) n
exec-unsent now (acks given token) i t w g n =
    update-unsent _ _ (λ x. refl) i t (λ r f h k. ground (arith, find-id i t {r = r} f)) n
exec-unsent now (nacks limits fs token) i t w g n =
    update-unsent _ _ (nack_set-id limits now fs) i t
      (λ r f h k. nack_input-unsent limits now (input_for r.id fs) r k) n
exec-unsent now (releases given token) i t w g n =
    update-unsent _ _ (λ x. refl) i t (λ r f h k. refl) n
exec-unsent now (reclaims locked limit) i t w g n =
    update-unsent _ _ (λ x. refl) i t (λ r f h k. refl) n
exec-unsent now (purges locked retention limit) i t w g n = remove-unsent _ i t w.keys n
exec-unsent now (requeues given) i t w g n = update-unsent _ _ (λ x. refl) i t (λ r f h k. refl) n
exec-unsent now (requeues_before before limit) i t w g n =
    update-unsent _ _ (λ x. refl) i t (λ r f h k. refl) n

-- No statement of the history acknowledges the identifier.
abbrev pub NotAcked : ℕ → List (ℕ × Statement) → Type 0
NotAcked i [] = Unit
NotAcked i ((now, st) ∷ rest) = (acknowledges st i ≡ false) × NotAcked i rest

-- A row that is not marked sent stays so through every history in which no statement acknowledges
-- its identifier.
pub run-unsent :
    (h : List (ℕ × Statement)) (i : ℕ) (t : Table)
    → WellFormed t
    → NotAcked i h
    → unsent (find i t) ≡ true
    → unsent (find i (run h t)) ≡ true
unfolding run
run-unsent [] i t w g n = n
run-unsent ((now, st) ∷ rest) i t w g n =
    run-unsent rest i (exec now st t) (exec-WellFormed now st t w) g.1
      (exec-unsent now st i t w g.0 n)

pub kept-unsent :
    (now : ℕ) (st : Statement) (i : ℕ) (t t' : Table)
    → (t' ≡ t) ⊎ (t' ≡ exec now st t)
    → WellFormed t
    → acknowledges st i ≡ false
    → unsent (find i t) ≡ true
    → unsent (find i t') ≡ true
kept-unsent now st i t t' (inl e) w g n = rw e n
kept-unsent now st i t t' (inr e) w g n = rw e (exec-unsent now st i t w g n)
