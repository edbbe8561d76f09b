-- ===== src/Dispatch/Pipeline/Acceptance.antt =====
-- A message is marked sent only after a broker accepted it.
use go_outbox.Base.{
  ℕ, zero, suc, ◌+◌, ◌<◌, ◌≡◌, refl, sym, ap, ◌∙◌, subst, true, false, inl, inr, none, some, List,
  [], ◌∷◌, map, length, take, drop, elem, arith, String, Bool-cases, get_elem?, get_elem?-in,
}
use mathlib.Core.List.{Permᴰ}
use go_outbox.Base.Int.{ℤ}
use go_outbox.Core.{Message, Outcome, Target, Lease}
use go_outbox.Core.Errors.{Err, Result, ok}
use go_outbox.Store.Table.{Table, find, WellFormed}
use go_outbox.Store.Operations.{ack, nack, release_lease, claim, failure}
use go_outbox.Store.System.{run, acks, nacks, releases}
use go_outbox.Store.Invariant.{run-WellFormed}
use go_outbox.Store.Unsent.{unsent, NotAcked, run-unsent, kept-unsent}
use go_outbox.Store.WriteBacks.{ack-table, release-table, nack-table, claim-table, kept-WellFormed}
use go_outbox.Dispatch.Publish.{Published, classified, publish, started_spans}
use go_outbox.Dispatch.Publish.Results.{publish-results, get-lt}
use go_outbox.Dispatch.Pipeline.{Config, Cycle, split, write_back, dispatch, run_once}
use go_outbox.Dispatch.Pipeline.Splitting.{message_ids, split-acked}

-- A position that is taken.
taken :
    (a j : ℕ) (ms : List Message) {m : Message}
    → get_elem? (take a ms) j ≡ some m
    → (j < a) × (get_elem? ms j ≡ some m)
taken zero j ms h = cc
taken (suc a) j [] h = cc
taken (suc a) zero (x ∷ ms) h = (omega arith, h)
taken (suc a) (suc j) (x ∷ ms) {m} h = ground (arith, taken a j ms {m = m} h)

-- What the pipeline acknowledges, the router accepted.
acked-accepted :
    (out_of_range : ℕ → ℤ) (cfg : Config) (env : Cycle) (messages : List Message) (i : ℕ)
    → length (env.answers messages) ≡ length messages
    → Permᴰ env.order (started_spans (length messages) cfg.workers env.started)
    → let (results, done) =
        publish messages (env.answers messages) cfg.workers env.started env.order in
      elem i (split out_of_range cfg.backoff env.draws (take done messages) results).0 ≡ true
      → (j : ℕ) × (m : Message) × (get_elem? messages j ≡ some m)
        × (m.id ≡ i)
        × (get_elem? (env.answers messages) j ≡ some none)
unfolding classified
acked-accepted out_of_range cfg env messages i l p h =
    let results = (publish messages (env.answers messages) cfg.workers env.started env.order).0 in
    let done = (publish messages (env.answers messages) cfg.workers env.started env.order).1 in
    let (j, m, q, f, g, e, n) =
      split-acked out_of_range cfg.backoff env.draws i (take done messages) results h in
    let (early, at_j) = taken done j messages {m = m} f in
    let (a, b) =
      get_elem?-in (env.answers messages) j (omega (arith, get-lt messages j {m = m} at_j)) in
    let result =
      publish-results messages (env.answers messages) cfg.workers env.started env.order j {m = m}
        {e = a} p at_j b in
    (j, m, at_j, e, b ∙ ap some (ground (arith, result.1, sym g ∙ result.1)))

-- Before the cycle the row was not sent, and nobody else acknowledges it.
pub record Unacknowledged (env : Cycle) (i : ℕ) : Type 0 where
  pub none_during : NotAcked i env.during
  pub none_before_ack : NotAcked i env.before_ack
  pub none_before_nack : NotAcked i env.before_nack

module _ (out_of_range : ℕ → ℤ) (decode_headers : List ℕ → Result (List (String × String)))
    (decode_target : List ℕ → Result Target) (describe : Err → String) where
  -- A row that a cycle turns from unsent to sent, while no other replica acknowledges it, is a row
  -- that the cycle claimed and for which the router answered that the broker accepted it.
  pub run_once-accepted :
      (cfg : Config) (env : Cycle) (t t₀ : Table) (m : Message) (ms : List Message) (i : ℕ)
      → WellFormed t
      → Unacknowledged env i
      → claim decode_headers decode_target env.claim_at env.claim_clock cfg.stream cfg.batch_size
          (record { token = env.token; owner = cfg.owner; until = env.clock + cfg.lease_ttl })
          t
        ≡ (ok (m ∷ ms), t₀)
      → length (env.answers (m ∷ ms)) ≡ length (m ∷ ms)
      → Permᴰ env.order (started_spans (length (m ∷ ms)) cfg.workers env.started)
      → unsent (find i t) ≡ true
      → unsent (find i (run_once out_of_range decode_headers decode_target describe cfg env t).1)
        ≡ false
      → (j : ℕ) × (n : Message) × (get_elem? (m ∷ ms) j ≡ some n)
        × (n.id ≡ i)
        × (get_elem? (env.answers (m ∷ ms)) j ≡ some none)
  unfolding run_once dispatch write_back
  run_once-accepted cfg env t t₀ m ms i w u e l p before after =
      elim (Bool-cases (elem i parts.0)) [
        | inl acked ↦ acked-accepted out_of_range cfg env messages i l p acked
        | inr unacked ↦ absurd (cc (rw e at after, unsent_after unacked))
      ]
    where
      messages : List Message
      messages = m ∷ ms

      published : List Published × ℕ
      published = publish messages (env.answers messages) cfg.workers env.started env.order

      untried : List ℕ
      untried = message_ids (drop published.1 messages)

      parts : List ℕ × List Outcome
      parts = split out_of_range cfg.backoff env.draws (take published.1 messages) published.0

      lease : Lease
      lease = record { token = env.token; owner = cfg.owner; until = env.clock + cfg.lease_ttl }

      t₁ : Table
      t₁ = (release_lease env.release_at untried env.token (run env.during t₀)).1

      t₂ : Table
      t₂ = (ack env.ack_at parts.0 env.token (run env.before_ack t₁)).1

      w₀ : WellFormed t₀
      w₀ = subst WellFormed (ap (λ q. q.1) e) (
          kept-WellFormed _ _ t _
            (claim-table decode_headers decode_target env.claim_at env.claim_clock cfg.stream
              cfg.batch_size lease t)
            w)

      n₀ : unsent (find i t₀) ≡ true
      n₀ =
          subst (λ x. unsent (find i x) ≡ true) (ap (λ q. q.1) e)
            (kept-unsent _ _ i t _
              (claim-table decode_headers decode_target env.claim_at env.claim_clock cfg.stream
                cfg.batch_size lease t)
              w refl before)

      w₁ : WellFormed t₁
      w₁ =
          kept-WellFormed env.release_at.now (releases untried env.token) (run env.during t₀) _
            (release-table env.release_at untried env.token (run env.during t₀))
            (run-WellFormed env.during t₀ w₀)

      n₁ : unsent (find i t₁) ≡ true
      n₁ =
          kept-unsent env.release_at.now (releases untried env.token) i (run env.during t₀) _
            (release-table env.release_at untried env.token (run env.during t₀))
            (run-WellFormed env.during t₀ w₀) refl (run-unsent env.during i t₀ w₀ u.none_during n₀)

      w₂ : WellFormed t₂
      w₂ =
          kept-WellFormed env.ack_at.now (acks parts.0 env.token) (run env.before_ack t₁) _
            (ack-table env.ack_at parts.0 env.token (run env.before_ack t₁))
            (run-WellFormed env.before_ack t₁ w₁)

      unsent_after :
          elem i parts.0 ≡ false
          → unsent (
              find i
                (nack describe env.nack_at parts.1 env.token cfg.limits (run env.before_nack t₂)).1)
            ≡ true
      unsent_after unacked =
          kept-unsent env.nack_at.now (nacks cfg.limits (map (failure describe) parts.1) env.token)
            i (run env.before_nack t₂) _
            (nack-table describe env.nack_at parts.1 env.token cfg.limits (run env.before_nack t₂))
            (run-WellFormed env.before_nack t₂ w₂) refl
            (run-unsent env.before_nack i t₂ w₂ u.none_before_nack (
              kept-unsent env.ack_at.now (acks parts.0 env.token) i (run env.before_ack t₁) _
                (ack-table env.ack_at parts.0 env.token (run env.before_ack t₁))
                (run-WellFormed env.before_ack t₁ w₁) unacked
                (run-unsent env.before_ack i t₁ w₁ u.none_before_ack n₁)))
