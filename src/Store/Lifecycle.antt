-- ===== src/Store/Lifecycle.antt =====
-- The life of a row, and what an update makes of it.
use go_outbox.Base.{
  ℕ, ◌+◌, ◌≡◌, refl, sym, ap, subst, ◌∙◌, Bool, true, inl, inr, Option, none, some, List, arith,
  if◌then◌else◌, Bool-cases, some_eq, holds,
}
use go_outbox.Core.{
  Status, pending, processing, sent, failed, is_pending, is_processing, is_failed, RetryLimits,
}
use go_outbox.Store.Table.{
  Row, Table, find, find-All, find-update, rewrite, Leased, WellFormed, update,
}
use go_outbox.Store.Queries.{Failure, nack_row, nack_set, nack_input, input_for, terminal, since}

-- The life of a row: what a statement may turn `r` into.
pub data Transition (r s : Row) : Type 0 where
  same : s ≡ r → Transition r s
  claimed :
      r.status ≡ pending
      → s.status ≡ processing
      → s.attempts ≡ r.attempts
      → s.deferred_since ≡ r.deferred_since
      → Transition r s
  delivered : r.status ≡ processing → s.status ≡ sent → Transition r s
  -- refused by the broker, and due again
  retried :
      r.status ≡ processing
      → s.status ≡ pending
      → s.attempts ≡ r.attempts + 1
      → s.deferred_since ≡ none
      → Transition r s
  -- the broker was not there
  held_back :
      (now : ℕ)
      → r.status ≡ processing
      → s.status ≡ pending
      → s.attempts ≡ r.attempts
      → s.deferred_since ≡ some (since now r)
      → Transition r s
  given_up : r.status ≡ processing → s.status ≡ failed → s.deferred_since ≡ none → Transition r s
  -- released or reclaimed
  returned :
      r.status ≡ processing
      → s.status ≡ pending
      → s.attempts ≡ r.attempts
      → s.deferred_since ≡ r.deferred_since
      → Transition r s
  requeued :
      r.status ≡ failed
      → s.status ≡ pending
      → s.attempts ≡ 0
      → s.deferred_since ≡ none
      → Transition r s

pub pending-eq : (s : Status) → is_pending s ≡ true → s ≡ pending
pending-eq s h = ground arith

pub processing-eq : (s : Status) → is_processing s ≡ true → s ≡ processing
processing-eq s h = ground arith

pub failed-eq : (s : Status) → is_failed s ≡ true → s ≡ failed
failed-eq s h = ground arith

-- A row that presents a token is being processed.
pub holds-processing :
    (r : Row) (token : ℕ) → Leased r → holds r.lease_token token ≡ true → r.status ≡ processing
holds-processing r token l h = ground (arith, l.while_processing)

pub find-Leased : (i : ℕ) (t : Table) {r : Row} → WellFormed t → find i t ≡ some r → Leased r
find-Leased i t w f = find-All Leased i t w.leases f

pub nack-Transition :
    (limits : RetryLimits) (now : ℕ) (fs : List Failure) (r : Row)
    → r.status ≡ processing
    → Transition r (nack_set limits now fs r)
unfolding nack_row
nack-Transition limits now fs r p = by_input (input_for r.id fs)
  where
    by_input : (o : Option Failure) → Transition r (nack_input limits now o r)
    by_input none = same refl
    by_input (some f) = elim (Bool-cases (terminal limits now f r)) [
      | inl ends ↦ given_up p (rw ends refl) (rw ends refl)
      | inr goes_on ↦ elim (Bool-cases f.deferred) [
        | inl out ↦ held_back now p (rw goes_on refl) (rw out refl) (rw (goes_on, out) refl)
        | inr refused ↦ retried p (rw goes_on refl) (rw refused refl) (rw (goes_on, refused) refl)
      ]
    ]

-- An update whose hits are all transitions.
pub update-Transition :
    (hit : Row → Bool) (set : Row → Row)
    → ((r : Row) → (set r).id ≡ r.id)
    → (i : ℕ) (t : Table) {r s : Row} → (hit r ≡ true → Transition r (set r))
    → find i t ≡ some r
    → find i (update hit set t) ≡ some s
    → Transition r s
update-Transition hit set keeps i t {r} {s} step f g = elim (Bool-cases (hit r)) [
  | inl yes_hit ↦ subst (Transition r) (some_eq (rw yes_hit at (found))) (step yes_hit)
  | inr no_hit ↦ same (sym (some_eq (rw no_hit at (found))))
]
  where
    found : some (if hit r then set r else r) ≡ some s
    found = sym (ap (rewrite hit set) f) ∙ sym (find-update hit set keeps i t) ∙ g
