-- ===== src/Dispatch/Pipeline/Handback.antt =====
-- A cycle keeps nothing: whatever it claimed is acknowledged, recorded as failed, or handed back.
use go_outbox.Base.{
  ℕ, ◌+◌, ◌≤◌, ◌≡◌, refl, ap, subst, true, ◌⊎◌, inl, inr, Option, List, ◌∷◌, map, length, take,
  drop, elem, arith, String, length-take,
}
use go_outbox.Base.Int.{ℤ}
use go_outbox.Core.{Message, Outcome, Target}
use go_outbox.Core.Errors.{Err, Result, ok}
use go_outbox.Store.Table.{Table, find, WellFormed}
use go_outbox.Store.Operations.{fine, ack, release_lease, claim, failure}
use go_outbox.Store.System.{run, acks, nacks, releases}
use go_outbox.Store.Invariant.{run-WellFormed}
use go_outbox.Store.Leases.{not_held, NotGranted, run-stays_free}
use go_outbox.Store.WriteBacks.{
  ack-table, ack-frees, release-table, release-frees, nack-table, nack-frees, claim-table,
  kept-WellFormed, kept-not_held,
}
use go_outbox.Dispatch.Publish.{Published, publish}
use go_outbox.Dispatch.Publish.Results.{length-publish}
use go_outbox.Dispatch.Pipeline.{Config, Cycle, Iteration, split, write_back, dispatch, run_once}
use go_outbox.Dispatch.Pipeline.Splitting.{message_ids, outcome_ids, take-or-drop, split-covers}

-- The cycle's three write-backs reach the database, and no other claim uses its token.
pub record Undisturbed (env : Cycle) : Type 0 where
  pub releases_run : env.release_at.fault ≡ fine
  pub acks_run : env.ack_at.fault ≡ fine
  pub nacks_run : env.nack_at.fault ≡ fine
  pub own_during : NotGranted env.token env.during
  pub own_before_ack : NotGranted env.token env.before_ack
  pub own_before_nack : NotGranted env.token env.before_nack

module _ (describe : Err → String) (cfg : Config) (env : Cycle) (u : Undisturbed env) (i : ℕ) where
  -- The table after the acknowledgement, and after what others do next.
  acked_table : List ℕ → Table → Table
  acked_table acked t = (ack env.ack_at acked env.token (run env.before_ack t)).1

  acked_table-WellFormed :
      (acked : List ℕ) (t : Table) → WellFormed t → WellFormed (acked_table acked t)
  unfolding acked_table
  acked_table-WellFormed acked t w =
      kept-WellFormed env.ack_at.now (acks acked env.token) (run env.before_ack t) _
        (ack-table env.ack_at acked env.token (run env.before_ack t))
        (run-WellFormed env.before_ack t w)

  acked_table-frees :
      (acked : List ℕ) (t : Table)
      → WellFormed t
      → (not_held env.token (find i t) ≡ true) ⊎ (elem i acked ≡ true)
      → not_held env.token (find i (acked_table acked t)) ≡ true
  unfolding acked_table
  acked_table-frees acked t w (inr a) =
      ack-frees env.ack_at acked env.token i (run env.before_ack t) u.acks_run a
  acked_table-frees acked t w (inl n) =
      kept-not_held env.ack_at.now (acks acked env.token) env.token i (run env.before_ack t) _
        (ack-table env.ack_at acked env.token (run env.before_ack t))
        (run-WellFormed env.before_ack t w) refl
        (run-stays_free env.before_ack env.token i t w u.own_before_ack n)

  -- The write-back frees what it is given, and leaves free what was.
  write_back-frees :
      (acked : List ℕ) (nacked : List Outcome) (ev : Iteration) (t : Table)
      → WellFormed t
      → ((not_held env.token (find i t) ≡ true) ⊎ (elem i acked ≡ true))
        ⊎ (elem i (outcome_ids nacked) ≡ true)
      → not_held env.token (find i (write_back describe cfg env acked nacked ev t).1) ≡ true
  unfolding write_back acked_table
  write_back-frees acked nacked ev t w (inr n) =
      nack-frees describe env.nack_at nacked env.token i cfg.limits _ u.nacks_run n
  write_back-frees acked nacked ev t w (inl c) =
      let t₁ = acked_table acked t in
      let w₁ = acked_table-WellFormed acked t w in
      kept-not_held env.nack_at.now (nacks cfg.limits (map (failure describe) nacked) env.token)
        env.token i (run env.before_nack t₁) _
        (nack-table describe env.nack_at nacked env.token cfg.limits (run env.before_nack t₁))
        (run-WellFormed env.before_nack t₁ w₁) refl
        (run-stays_free env.before_nack env.token i t₁ w₁ u.own_before_nack
          (acked_table-frees acked t w c))

module _ (out_of_range : ℕ → ℤ) (decode_headers : List ℕ → Result (List (String × String)))
    (decode_target : List ℕ → Result Target) (describe : Err → String) where
  -- If a cycle's write-backs reach the database and nobody else is given its token, then no row
  -- that it claimed is still held under that token when it ends, whatever the broker answered,
  -- however many chunks were published, and whatever other replicas did in between.
  pub run_once-hands_back :
      (cfg : Config) (env : Cycle) (t t₀ : Table) (m : Message) (ms : List Message) (i : ℕ)
      → WellFormed t
      → Undisturbed env
      → claim decode_headers decode_target env.claim_at env.claim_clock cfg.stream cfg.batch_size
          (record { token = env.token; owner = cfg.owner; until = env.clock + cfg.lease_ttl })
          t
        ≡ (ok (m ∷ ms), t₀)
      → elem i (message_ids (m ∷ ms)) ≡ true
      → not_held env.token
          (find i (run_once out_of_range decode_headers decode_target describe cfg env t).1)
        ≡ true
  unfolding run_once dispatch
  run_once-hands_back cfg env t t₀ m ms i w u e h =
      rw e (write_back-frees describe cfg env u i parts.0 parts.1 _ t₁ w₁ written)
    where
      messages : List Message
      messages = m ∷ ms

      answered : List (Option Err)
      answered = env.answers messages

      published : List Published × ℕ
      published = publish messages answered cfg.workers env.started env.order

      tried : List Message
      tried = take published.1 messages

      untried : List ℕ
      untried = message_ids (drop published.1 messages)

      parts : List ℕ × List Outcome
      parts = split out_of_range cfg.backoff env.draws tried published.0

      w₀ : WellFormed t₀
      w₀ = subst WellFormed (ap (λ q. q.1) e) (
          kept-WellFormed _ _ t _
            (claim-table decode_headers decode_target env.claim_at env.claim_clock cfg.stream
              cfg.batch_size
              (record { token = env.token; owner = cfg.owner; until = env.clock + cfg.lease_ttl })
              t)
            w)

      t₁ : Table
      t₁ = (release_lease env.release_at untried env.token (run env.during t₀)).1

      w₁ : WellFormed t₁
      w₁ =
          kept-WellFormed env.release_at.now (releases untried env.token) (run env.during t₀) _
            (release-table env.release_at untried env.token (run env.during t₀))
            (run-WellFormed env.during t₀ w₀)

      short : length tried ≤ length published.0
      short = omega (
        arith,
        length-publish messages answered cfg.workers env.started env.order,
        length-take published.1 messages,
      )

      written :
          ((not_held env.token (find i t₁) ≡ true) ⊎ (elem i parts.0 ≡ true))
          ⊎ (elem i (outcome_ids parts.1) ≡ true)
      written = elim (take-or-drop published.1 i messages h) [
        | inr late ↦ inl (
            inl (
              release-frees env.release_at untried env.token i (run env.during t₀)
                (run-WellFormed env.during t₀ w₀) u.releases_run late))
        | inl early ↦
            elim (split-covers out_of_range cfg.backoff env.draws i tried published.0 short early) [
              | inl a ↦ inl (inr a)
              | inr n ↦ inr n
            ]
      ]
