-- ===== src/Broker/Kafka/Records.antt =====
-- internal/broker/kafka/kafka.go: the records that a publish writes.
--
-- `itoa` is strconv.Itoa, `trim` is strings.TrimSpace, `id_text` is a message's identifier as text.
use go_outbox.Base.{
  ℕ, zero, suc, ◌+◌, ◌≡◌, refl, Bool, false, Option, some, List, [], ◌∷◌, String, str_eq,
  str_eq_iff, if◌then◌else◌, lookup, map, get_elem?, Bool-cases, inl, inr, arith, some_eq,
}
use go_outbox.Base.Int.{ℤ}
use go_outbox.Core.{Message}
use go_outbox.Core.Errors.{Err, KafkaError}
use go_outbox.Broker.{Naming, resolve}
use go_outbox.Broker.Kafka.{publish}

-- kafka.Message
pub record Record : Type 0 where
  pub topic : String
  pub key : Option String
  pub value : List ℕ
  pub headers : List (String × String)
  pub time : ℕ

-- The loop of `headers`: a row's own message_id gives way.
abbrev other_headers : List (String × String) → List (String × String)
other_headers [] = []
other_headers ((k, v) ∷ rest) =
    let others = other_headers rest in if str_eq k "message_id" then others else (k, v) ∷ others

module _ (id_text : ℕ → String) where
  -- `headers`
  unfoldable pub headers : Message → List (String × String)
  headers m = ("message_id", id_text m.id) ∷ other_headers m.headers

  module _ (itoa : ℤ → String) (trim : String → String) (naming : Naming) where
    -- One turn of the loop over the batch.
    unfoldable pub record_of : Message → Record
    unfolding resolve headers
    record_of m =
        let destination = resolve itoa trim naming m in
        record {
          topic = destination.topic;
          key = destination.key;
          value = m.payload;
          headers = headers m;
          time = m.created_at;
        }

    unfoldable pub records : List Message → List Record
    unfolding record_of
    records msgs = map record_of msgs

-- How many entries a list of headers has under a key.
abbrev pub entries : String → List (String × String) → ℕ
entries k [] = 0
entries k ((j, v) ∷ rest) = (if str_eq j k then 1 else 0) + entries k rest

no_others : (hs : List (String × String)) → entries "message_id" (other_headers hs) ≡ 0
no_others [] = refl
no_others ((k, v) ∷ rest) = elim (Bool-cases (str_eq k "message_id")) [
  | inl same ↦ rw same (no_others rest)
  | inr other ↦ rw (other, other, no_others rest) refl
]

lookup-other_headers :
    (hs : List (String × String)) (k : String)
    → str_eq "message_id" k ≡ false
    → lookup k (other_headers hs) ≡ lookup k hs
lookup-other_headers [] k h = refl
lookup-other_headers ((j, v) ∷ rest) k h = ground (
  arith,
  lookup-other_headers rest k h,
  str_eq_iff j "message_id",
  str_eq_iff j k,
  str_eq_iff "message_id" k,
)

module _ (id_text : ℕ → String) (itoa : ℤ → String) (trim : String → String) (naming : Naming) where
  -- The start of `Publish`: what the client library's writer is asked to write, and its answer.
  unfoldable pub publish_batch :
      (KafkaError → String)
      → (KafkaError → Bool)
      → Bool
      → (List Record → Option (Option (List (Option Err)) × Err))
      → List Message
      → List (Option Err)
  unfolding records publish
  publish_batch title temporary live write [] = []
  publish_batch title temporary live write (m ∷ ms) =
      publish title temporary live (m ∷ ms) (write (records id_text itoa trim naming (m ∷ ms)))

  lookup-headers :
      (m : Message) (k : String)
      → lookup k (headers id_text m)
        ≡ (if str_eq "message_id" k then some (id_text m.id) else lookup k m.headers)
  unfolding headers
  lookup-headers m k = elim (Bool-cases (str_eq "message_id" k)) [
    | inl same ↦ rw same refl
    | inr other ↦ rw other (lookup-other_headers m.headers k other)
  ]

  -- The record at a message's position carries its payload and creation time to the destination that
  -- the naming gives it, under exactly one message_id, which is the message's own identifier even
  -- where its headers have another, and with every other header as it was.
  pub records-Identified :
      (msgs : List Message) (i : ℕ) (m : Message) (k : String)
      → get_elem? msgs i ≡ some m
      → (r : Record) × (get_elem? (records id_text itoa trim naming msgs) i ≡ some r)
        × (r.value ≡ m.payload)
        × (r.time ≡ m.created_at)
        × (r.topic ≡ (resolve itoa trim naming m).topic)
        × (r.key ≡ (resolve itoa trim naming m).key)
        × (entries "message_id" r.headers ≡ 1)
        × (lookup k r.headers
            ≡ (if str_eq "message_id" k then some (id_text m.id) else lookup k m.headers))
  unfolding records record_of
  records-Identified [] i m k h = cc
  records-Identified (n ∷ ms) zero m k h = rw (some_eq h) (
    record_of id_text itoa trim naming m,
    refl,
    refl,
    refl,
    refl,
    refl,
    one_id m,
    lookup-headers m k,
  )
    where
      one_id : (m : Message) → entries "message_id" (headers id_text m) ≡ 1
      one_id m = unfold headers in ground (arith, no_others m.headers)
  records-Identified (n ∷ ms) (suc i) m k h = records-Identified ms i m k h
