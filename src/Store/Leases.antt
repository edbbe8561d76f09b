-- ===== src/Store/Leases.antt =====
-- Ownership: a write-back changes only the rows that its token still holds.
use go_outbox.Base.{
  ℕ, ◌≡◌, refl, ◌∙◌, Bool, true, false, not, inl, inr, Option, none, some, List, [], ◌∷◌, arith,
  holds, ◌==◌, Option-cases,
}
use go_outbox.Core.{RetryLimits}
use go_outbox.Store.Table.{
  Row, Table, ids, find, find-update, find-remove, rewrite, WellFormed, find-remove-none, Distinct,
  update, remove,
}
use go_outbox.Store.Queries.{
  claim_sql, ack_sql, Failure, nack_sql, nack_row, nack_input, input_for, release_sql, reclaim_sql,
  purge_sql, requeue_sql, requeue_before_sql,
}
use go_outbox.Store.Invariant.{nack_set-id, exec-WellFormed}
use go_outbox.Store.System.{
  Statement, inserts, claims, acks, nacks, releases, reclaims, purges, requeues, requeues_before,
  insert_sql, exec, run,
}

-- The token that a write-back presents.
abbrev pub presents : Statement → ℕ → Bool
presents (acks given token) u = token == u
presents (nacks limits fs token) u = token == u
presents (releases given token) u = token == u
presents (inserts m) u = false
presents (claims locked stream limit token ttl owner) u = false
presents (reclaims locked limit) u = false
presents (purges locked retention limit) u = false
presents (requeues given) u = false
presents (requeues_before before limit) u = false

-- The token that a claim hands out.
abbrev pub grants : Statement → ℕ → Bool
grants (claims locked stream limit token ttl owner) u = token == u
grants (acks given token) u = false
grants (nacks limits fs token) u = false
grants (releases given token) u = false
grants (inserts m) u = false
grants (reclaims locked limit) u = false
grants (purges locked retention limit) u = false
grants (requeues given) u = false
grants (requeues_before before limit) u = false

-- The row with this identifier, if there is one, is not held under the token.
abbrev pub not_held : ℕ → Option Row → Bool
not_held u none = true
not_held u (some r) = not (holds r.lease_token u)

-- A write-back whose token no longer holds a row does not change that row.
pub exec-not_held :
    (now : ℕ) (st : Statement) (u i : ℕ) (t : Table)
    → presents st u ≡ true
    → not_held u (find i t) ≡ true
    → find i (exec now st t) ≡ find i t
unfolding exec ack_sql nack_sql release_sql
exec-not_held now (acks given token) u i t p n = find-update _ _ (λ x. refl) i t ∙ ground arith
exec-not_held now (nacks limits fs token) u i t p n =
    find-update _ _ (nack_set-id limits now fs) i t ∙ ground arith
exec-not_held now (releases given token) u i t p n = find-update _ _ (λ x. refl) i t ∙ ground arith
exec-not_held now (inserts m) u i t p n = cc
exec-not_held now (claims locked stream limit token ttl owner) u i t p n = cc
exec-not_held now (reclaims locked limit) u i t p n = cc
exec-not_held now (purges locked retention limit) u i t p n = cc
exec-not_held now (requeues given) u i t p n = cc
exec-not_held now (requeues_before before limit) u i t p n = cc

-- An update whose new rows are not held under the token.
update-not_held :
    (hit : Row → Bool) (set : Row → Row)
    → ((r : Row) → (set r).id ≡ r.id)
    → (u i : ℕ) (t : Table)
    → ((r : Row) → holds r.lease_token u ≡ false → holds (set r).lease_token u ≡ false)
    → not_held u (find i t) ≡ true
    → not_held u (find i (update hit set t)) ≡ true
update-not_held hit set keeps u i t frees n =
    rw (find-update hit set keeps i t) (by_row (find i t) n)
  where
    by_row : (o : Option Row) → not_held u o ≡ true → not_held u (rewrite hit set o) ≡ true
    by_row none h = refl
    by_row (some r) h = ground (arith, frees r)

remove-not_held :
    (hit : Row → Bool) (u i : ℕ) (t : Table)
    → Distinct (ids t)
    → not_held u (find i t) ≡ true
    → not_held u (find i (remove hit t)) ≡ true
remove-not_held hit u i t d n = elim (Option-cases (find i t)) [
  | inl e ↦ rw (find-remove-none hit i t e) refl
  | inr (r, e) ↦ ground (arith, find-remove hit i t {r = r} d e)
]

nack_input-frees :
    (limits : RetryLimits) (now u : ℕ) (o : Option Failure) (r : Row)
    → holds r.lease_token u ≡ false
    → holds (nack_input limits now o r).lease_token u ≡ false
unfolding nack_row
nack_input-frees limits now u none r h = h
nack_input-frees limits now u (some f) r h = refl

pub exec-stays_free :
    (now : ℕ) (st : Statement) (u i : ℕ) (t : Table)
    → WellFormed t
    → grants st u ≡ false
    → not_held u (find i t) ≡ true
    → not_held u (find i (exec now st t)) ≡ true
unfolding exec insert_sql claim_sql ack_sql nack_sql release_sql reclaim_sql purge_sql requeue_sql
    requeue_before_sql
exec-stays_free now (inserts m) u i t w g n = ground arith
exec-stays_free now (claims locked stream limit token ttl owner) u i t w g n =
    update-not_held _ _ (λ x. refl) u i t (λ r h. g) n
exec-stays_free now (acks given token) u i t w g n =
    update-not_held _ _ (λ x. refl) u i t (λ r h. refl) n
exec-stays_free now (nacks limits fs token) u i t w g n =
    update-not_held _ _ (nack_set-id limits now fs) u i t
      (λ r h. nack_input-frees limits now u (input_for r.id fs) r h) n
exec-stays_free now (releases given token) u i t w g n =
    update-not_held _ _ (λ x. refl) u i t (λ r h. refl) n
exec-stays_free now (reclaims locked limit) u i t w g n =
    update-not_held _ _ (λ x. refl) u i t (λ r h. refl) n
exec-stays_free now (purges locked retention limit) u i t w g n = remove-not_held _ u i t w.keys n
exec-stays_free now (requeues given) u i t w g n =
    update-not_held _ _ (λ x. refl) u i t (λ r h. refl) n
exec-stays_free now (requeues_before before limit) u i t w g n =
    update-not_held _ _ (λ x. refl) u i t (λ r h. refl) n

-- No statement of the history hands the token out.
abbrev pub NotGranted : ℕ → List (ℕ × Statement) → Type 0
NotGranted u [] = Unit
NotGranted u ((now, st) ∷ rest) = (grants st u ≡ false) × NotGranted u rest

pub run-stays_free :
    (h : List (ℕ × Statement)) (u i : ℕ) (t : Table)
    → WellFormed t
    → NotGranted u h
    → not_held u (find i t) ≡ true
    → not_held u (find i (run h t)) ≡ true
unfolding run
run-stays_free [] u i t w g n = n
run-stays_free ((now, st) ∷ rest) u i t w g n =
    run-stays_free rest u i (exec now st t) (exec-WellFormed now st t w) g.1
      (exec-stays_free now st u i t w g.0 n)

-- A lease that is lost stays lost: once a row is not held under a token, then after any history of
-- statements in which no claim hands that token out again, a write-back that presents it leaves the
-- row as it finds it.
pub lost_lease :
    (h : List (ℕ × Statement)) (now : ℕ) (st : Statement) (u i : ℕ) (t : Table)
    → WellFormed t
    → NotGranted u h
    → not_held u (find i t) ≡ true
    → presents st u ≡ true
    → find i (exec now st (run h t)) ≡ find i (run h t)
lost_lease h now st u i t w g n p =
    exec-not_held now st u i (run h t) p (run-stays_free h u i t w g n)
