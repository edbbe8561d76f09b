-- ===== src/Store/Outcomes.antt =====
-- What a negative acknowledgement makes of a row that its token holds, and the attempt budget.
use go_outbox.Base.{
  ℕ, ◌+◌, ◌≤◌, ◌≡◌, refl, ap, ◌∙◌, true, false, ◌⊎◌, inl, inr, ◌↔◌, none, some, List, arith,
  if◌then◌else◌, holds, Bool-cases,
}
use go_outbox.Base.Int.{pos, ◌≤ℤ◌, ◌<ℤ◌, pos_part}
use go_outbox.Core.{pending, failed, RetryLimits}
use go_outbox.Store.Table.{Row, Table, find, find-update, rewrite, shift, find-id}
use go_outbox.Store.Queries.{
  Failure, nack_sql, nack_row, nack_set, nack_hit, input_for, terminal, since,
}
use go_outbox.Store.Invariant.{nack_set-id}

-- The row that a failure leaves.
nack-finds :
    (limits : RetryLimits) (fs : List Failure) (token now i : ℕ) (t : Table) {r : Row} {f : Failure}
    → find i t ≡ some r
    → input_for i fs ≡ some f
    → holds r.lease_token token ≡ true
    → find i (nack_sql limits fs token now t).1 ≡ some (nack_row limits now f r)
unfolding nack_sql
nack-finds limits fs token now i t {r} {f} g e h =
    find-update _ _ (nack_set-id limits now fs) i t
    ∙ ap (rewrite (nack_hit fs token) (nack_set limits now fs)) g
    ∙ rw (hit, h) refl
  where
    hit : input_for r.id fs ≡ some f
    hit = rw (find-id i t {r = r} g) e

-- When a failure ends the row: it is permanent; or the broker refused the message and this was the
-- last attempt; or the broker is out of reach, the deferral is bounded, and the bound has passed
-- since the first deferral.
abbrev pub Ends : RetryLimits → ℕ → Failure → Row → Type 0
Ends limits now f r =
    (f.permanent ≡ true)
    ⊎ ((f.deferred ≡ false) × (limits.max_attempts ≤ℤ pos (r.attempts + 1)))
    ⊎ ((f.deferred ≡ true)
        × (pos 0 <ℤ limits.max_defer)
        × (since now r + pos_part limits.max_defer ≤ now))

terminal-Ends :
    (limits : RetryLimits) (now : ℕ) (f : Failure) (r : Row)
    → (terminal limits now f r ≡ true) ↔ Ends limits now f r
unfolding terminal
terminal-Ends limits now f r = (λ h. ground arith, λ h. ground arith)

-- A failure reported under the token that holds the row gives back the lease, counts an attempt
-- unless the broker was out of reach, and fails the row exactly when the failure ends it. Otherwise
-- the row is due again after the delay, and remembers the first deferral for as long as the broker
-- stays out of reach.
pub nack-outcome :
    (limits : RetryLimits) (fs : List Failure) (token now i : ℕ) (t : Table) {r : Row} {f : Failure}
    → find i t ≡ some r
    → input_for i fs ≡ some f
    → holds r.lease_token token ≡ true
    → (s : Row) × (find i (nack_sql limits fs token now t).1 ≡ some s)
      × (s.lease_token ≡ none)
      × (s.attempts ≡ (if f.deferred then r.attempts else r.attempts + 1))
      × (((s.status ≡ failed) × Ends limits now f r × (s.deferred_since ≡ none))
          ⊎ ((s.status ≡ pending)
              × ¬ (Ends limits now f r)
              × (s.available_at ≡ shift now f.delay)
              × (s.deferred_since ≡ (if f.deferred then some (since now r) else none))))
unfolding nack_row
nack-outcome limits fs token now i t {r} {f} g e h = (
  nack_row limits now f r,
  nack-finds limits fs token now i t {r = r} {f = f} g e h,
  refl,
  refl,
  elim (Bool-cases (terminal limits now f r)) [
    | inl ends ↦ inl (rw ends refl, (terminal-Ends limits now f r).0 ends, rw ends refl)
    | inr goes_on ↦ inr (
      rw goes_on refl,
      λ x. cc ((terminal-Ends limits now f r).1 x),
      rw goes_on refl,
      ground arith,
    )
  ],
)
