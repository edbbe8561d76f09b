-- ===== src/Store/WriteBacks.antt =====
-- The write-backs of a cycle as the store's methods make them: each runs its statement or leaves the
-- table alone, and none leaves a row that it names in its token's hands.
use go_outbox.Base.{
  ℕ, ◌≡◌, refl, sym, Bool, true, false, ◌⊎◌, inl, inr, Option, none, some, List, [], ◌∷◌, map,
  String, arith, elem, holds, is_some, subst, ◌-◌, leb, Bool-cases,
}
use go_outbox.Core.{Outcome, RetryLimits, Target, Lease}
use go_outbox.Core.Errors.{Err, Result}
use go_outbox.Store.Table.{Row, Table, find, find-update, find-id, rewrite, update, WellFormed}
use go_outbox.Store.Queries.{
  ack_sql, Failure, nack_sql, nack_row, nack_set, nack_input, nack_hit, input_for, release_sql,
  owned, release_hit, claim_sql,
}
use go_outbox.Store.Operations.{
  At, Fault, fine, refused, cut, perform, ack, nack, release_lease, claim, failure, ack_read,
}
use go_outbox.Store.Invariant.{nack_set-id, exec-WellFormed}
use go_outbox.Store.Lifecycle.{holds-processing, find-Leased}
use go_outbox.Store.Leases.{not_held, grants, exec-stays_free}
use go_outbox.Store.System.{Statement, claims, acks, nacks, releases, exec}

perform-table {ℓ κ} :
    {R : Type ℓ} {A : Type κ} (f : Fault) (op : String) (read : R → Result A) (q : R × Table)
    (t : Table)
    → ((perform f op read q t).1 ≡ t) ⊎ ((perform f op read q t).1 ≡ q.1)
perform-table fine op read q t = inr refl
perform-table (refused e) op read q t = inl refl
perform-table (cut e) op read q t = inr refl

pub ack-table :
    (at : At) (given : List ℕ) (u : ℕ) (t : Table)
    → ((ack at given u t).1 ≡ t) ⊎ ((ack at given u t).1 ≡ exec at.now (acks given u) t)
unfolding ack exec
ack-table at [] u t = inl refl
ack-table at (i ∷ is) u t =
    perform-table at.fault "ack" (ack_read at.now (i ∷ is)) (ack_sql (i ∷ is) u at.now t) t

pub release-table :
    (at : At) (given : List ℕ) (u : ℕ) (t : Table)
    → ((release_lease at given u t).1 ≡ t)
      ⊎ ((release_lease at given u t).1 ≡ exec at.now (releases given u) t)
unfolding release_lease exec
release-table at [] u t = inl refl
release-table at (i ∷ is) u t = perform-table at.fault _ _ (release_sql (i ∷ is) u at.now t) t

-- A row on which an update that frees it was made is not held.
freed :
    (hit : Row → Bool) (set : Row → Row) (u i : ℕ) (t : Table)
    → ((r : Row) → (set r).id ≡ r.id)
    → ((r : Row) → find i t ≡ some r → holds r.lease_token u ≡ true → hit r ≡ true)
    → ((r : Row) → hit r ≡ true → holds (set r).lease_token u ≡ false)
    → not_held u (find i (update hit set t)) ≡ true
freed hit set u i t keeps hits frees = rw (find-update hit set keeps i t) (by_row (find i t) refl)
  where
    by_row : (o : Option Row) → find i t ≡ o → not_held u (rewrite hit set o) ≡ true
    by_row none e = refl
    by_row (some r) e = ground (arith, hits r e, frees r)

-- An acknowledgement that runs frees the rows that it names.
pub ack-frees :
    (at : At) (given : List ℕ) (u i : ℕ) (t : Table)
    → at.fault ≡ fine
    → elem i given ≡ true
    → not_held u (find i (ack at given u t).1) ≡ true
unfolding ack ack_sql
ack-frees at [] u i t f h = cc
ack-frees at (j ∷ js) u i t f h = rw f (
    freed (owned (j ∷ js) u) _ u i t (λ r. refl) (λ r e k. ground (arith, find-id i t {r = r} e))
      (λ r k. refl))

pub release-frees :
    (at : At) (given : List ℕ) (u i : ℕ) (t : Table)
    → WellFormed t
    → at.fault ≡ fine
    → elem i given ≡ true
    → not_held u (find i (release_lease at given u t).1) ≡ true
unfolding release_lease release_sql
release-frees at [] u i t w f h = cc
release-frees at (j ∷ js) u i t w f h = rw f (
    freed (release_hit (j ∷ js) u) _ u i t (λ r. refl)
      (λ r e k.
        ground (arith, find-id i t {r = r} e, holds-processing r u (find-Leased i t {r = r} w e) k))
      (λ r k. refl))

nack_input-cleared :
    (l : RetryLimits) (now : ℕ) (o : Option Failure) (r : Row)
    → is_some o ≡ true
    → (nack_input l now o r).lease_token ≡ none
unfolding nack_row
nack_input-cleared l now none r h = cc
nack_input-cleared l now (some f) r h = refl

module _ (decode_headers : List ℕ → Result (List (String × String)))
    (decode_target : List ℕ → Result Target) where
  pub claim-table :
      (at : At) (clock : ℕ) (stream : String) (limit : ℕ) (l : Lease) (t : Table)
      → let t' = (claim decode_headers decode_target at clock stream limit l t).1 in
        (t' ≡ t)
        ⊎ (t' ≡ exec at.now (claims at.locked stream limit l.token (l.until - clock) l.owner) t)
  unfolding claim exec
  claim-table at clock stream limit l t = elim (Bool-cases (leb l.until clock)) [
    | inl late ↦ rw late (inl refl)
    | inr early ↦ rw early (
        perform-table at.fault _ _
          (claim_sql at.locked stream limit l.token (l.until - clock) l.owner at.now t) t)
  ]

module _ (describe : Err → String) where
  pub nack-table :
      (at : At) (os : List Outcome) (u : ℕ) (l : RetryLimits) (t : Table)
      → ((nack describe at os u l t).1 ≡ t)
        ⊎ ((nack describe at os u l t).1 ≡ exec at.now (nacks l (map (failure describe) os) u) t)
  unfolding nack exec
  nack-table at [] u l t = inl refl
  nack-table at (o ∷ os) u l t =
      perform-table at.fault _ _ (nack_sql l (map (failure describe) (o ∷ os)) u at.now t) t

  input_for-failure :
      (i : ℕ) (os : List Outcome)
      → elem i (map (λ o. o.id) os) ≡ true
      → is_some (input_for i (map (failure describe) os)) ≡ true
  input_for-failure i [] h = cc
  input_for-failure i (o ∷ os) h = ground (arith, input_for-failure i os)

  pub nack-frees :
      (at : At) (os : List Outcome) (u i : ℕ) (l : RetryLimits) (t : Table)
      → at.fault ≡ fine
      → elem i (map (λ o. o.id) os) ≡ true
      → not_held u (find i (nack describe at os u l t).1) ≡ true
  unfolding nack nack_sql
  nack-frees at [] u i l t f h = cc
  nack-frees at (o ∷ os) u i l t f h = rw f (
      freed (nack_hit fs u) (nack_set l at.now fs) u i t (nack_set-id l at.now fs)
        (λ r e k. ground (arith, find-id i t {r = r} e, input_for-failure i (o ∷ os) h))
        (λ r k. ground (arith, nack_input-cleared l at.now (input_for r.id fs) r)))
    where
      fs : List Failure
      fs = map (failure describe) (o ∷ os)

-- What holds of a table that a method left alone or ran its statement on.
pub kept-WellFormed :
    (now : ℕ) (st : Statement) (t t' : Table)
    → (t' ≡ t) ⊎ (t' ≡ exec now st t)
    → WellFormed t
    → WellFormed t'
kept-WellFormed now st t t' (inl e) w = subst WellFormed (sym e) w
kept-WellFormed now st t t' (inr e) w = subst WellFormed (sym e) (exec-WellFormed now st t w)

pub kept-not_held :
    (now : ℕ) (st : Statement) (u i : ℕ) (t t' : Table)
    → (t' ≡ t) ⊎ (t' ≡ exec now st t)
    → WellFormed t
    → grants st u ≡ false
    → not_held u (find i t) ≡ true
    → not_held u (find i t') ≡ true
kept-not_held now st u i t t' (inl e) w g n = rw e n
kept-not_held now st u i t t' (inr e) w g n = rw e (exec-stays_free now st u i t w g n)
