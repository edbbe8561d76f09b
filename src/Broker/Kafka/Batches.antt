-- ===== src/Broker/Kafka/Batches.antt =====
-- What a Kafka write means for each message of its batch.
use go_outbox.Base.{
  ℕ, zero, suc, ◌≡◌, ◌∙◌, Bool, Option, none, some, List, [], ◌∷◌, String, length, map, length-map,
  length-replicate, get_elem?, ◌==◌, ==_iff, Bool-cases, inl, inr, arith,
}
use go_outbox.Core.{Message}
use go_outbox.Core.Errors.{Err, KafkaError}
use go_outbox.Broker.Kafka.{classify, publish}

get_elem?-map :
    (f : Option Err → Option Err) (xs : List (Option Err)) (j : ℕ) {e : Option Err}
    → get_elem? xs j ≡ some e
    → get_elem? (map f xs) j ≡ some (f e)
get_elem?-map f [] j h = cc
get_elem?-map f (x ∷ xs) zero h = ground (arith, h)
get_elem?-map f (x ∷ xs) (suc j) h = get_elem?-map f xs j h

module _ (title : KafkaError → String) (temporary : KafkaError → Bool) where
  length-batch :
      (live : Bool) (msgs : List Message) (answer : Option (Option (List (Option Err)) × Err))
      → length (publish title temporary live msgs answer) ≡ length msgs
  unfolding publish
  length-batch live msgs none = length-replicate (length msgs) _
  length-batch live msgs (some (none, e)) = length-replicate (length msgs) _
  length-batch live msgs (some (some partial, e)) =
      elim (Bool-cases (length partial == length msgs)) [
        | inl same ↦ rw same (
            length-map partial (classify title temporary live)
            ∙ (==_iff (length partial) (length msgs)).0 same)
        | inr other ↦ rw other (length-replicate (length msgs) _)
      ]

  -- The driver answers for every message of a batch, and where the client library answers for each
  -- message, a message's answer is its own, classified: one bad message does not condemn the rest.
  pub publish-positional :
      (live : Bool) (msgs : List Message) (partial : List (Option Err)) (x : Err) (j : ℕ)
      {e : Option Err}
      → length partial ≡ length msgs
      → get_elem? partial j ≡ some e
      → let answers = publish title temporary live msgs (some (some partial, x)) in
        (length answers ≡ length msgs)
        × (get_elem? answers j ≡ some (classify title temporary live e))
  unfolding publish
  publish-positional live msgs partial x j {e} l h = (
    length-batch live msgs (some (some partial, x)),
    rw ((==_iff (length partial) (length msgs)).1 l)
        (get_elem?-map (classify title temporary live) partial j {e = e} h),
  )
