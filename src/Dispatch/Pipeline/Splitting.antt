-- ===== src/Dispatch/Pipeline/Splitting.antt =====
-- `split` loses no message.
use go_outbox.Base.{
  ℕ, zero, suc, ◌≤◌, ◌≡◌, refl, true, not, ◌||◌, ◌⊎◌, inl, inr, none, some, List, [], ◌∷◌, map,
  length, take, drop, elem, arith, is_some, ◌==◌, get_elem?, Bool-cases,
}
use go_outbox.Base.Int.{ℤ}
use go_outbox.Core.{Message, Outcome}
use go_outbox.Core.Backoff.{BackoffPolicy}
use go_outbox.Dispatch.Publish.{Published}
use go_outbox.Dispatch.Pipeline.{split}

abbrev pub message_ids : List Message → List ℕ
message_ids ms = map (λ m. m.id) ms

abbrev pub outcome_ids : List Outcome → List ℕ
outcome_ids os = map (λ o. o.id) os

pub take-or-drop :
    (a i : ℕ) (ms : List Message)
    → elem i (message_ids ms) ≡ true
    → (elem i (message_ids (take a ms)) ≡ true) ⊎ (elem i (message_ids (drop a ms)) ≡ true)
take-or-drop zero i ms h = inr h
take-or-drop (suc a) i [] h = inr h
take-or-drop (suc a) i (m ∷ ms) h = ground (arith, take-or-drop a i ms)

module _ (out_of_range : ℕ → ℤ) (backoff : BackoffPolicy) (draws : ℕ → ℕ) where
  -- Every message that has a result is acknowledged or recorded as a failure.
  pub split-covers :
      (i : ℕ) (ms : List Message) (ps : List Published)
      → length ms ≤ length ps
      → elem i (message_ids ms) ≡ true
      → (elem i (split out_of_range backoff draws ms ps).0 ≡ true)
        ⊎ (elem i (outcome_ids (split out_of_range backoff draws ms ps).1) ≡ true)
  unfolding split
  split-covers i [] ps l h = cc
  split-covers i (m ∷ ms) [] l h = absurd (omega arith)
  split-covers i (m ∷ ms) (p ∷ ps) l h = ground (arith, split-covers i ms ps)

  -- What is acknowledged was published with no error.
  pub split-acked :
      (i : ℕ) (ms : List Message) (ps : List Published)
      → elem i (split out_of_range backoff draws ms ps).0 ≡ true
      → (j : ℕ) × (m : Message) × (p : Published) × (get_elem? ms j ≡ some m)
        × (get_elem? ps j ≡ some p)
        × (m.id ≡ i)
        × (p.err ≡ none)
  unfolding split
  split-acked i [] ps h = cc
  split-acked i (m ∷ ms) [] h = cc
  split-acked i (m ∷ ms) (p ∷ ps) h = elim (Bool-cases (is_some p.err || not (m.id == i))) [
    | inl later ↦
        let (j, n, q, f, g, e, k) = split-acked i ms ps (ground arith) in (suc j, n, q, f, g, e, k)
    | inr here ↦ (0, m, p, refl, refl, ground arith, ground arith)
  ]
