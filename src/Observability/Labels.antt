-- ===== src/Observability/Labels.antt =====
-- Which labels the series of the metrics have.
use go_outbox.Base.{
  ℕ, ◌-◌, ◌≡◌, refl, Bool, true, false, List, [], ◌∷◌, ◌++◌, String, if◌then◌else◌, All, Bool-cases,
  inl, inr, ◌⊎◌, length, ltb, is_some,
}
use go_outbox.Base.Int.{ℤ, pos_part}
use go_outbox.Config.Environment.{contains}
use go_outbox.Store.Operations.{Delivered}
use go_outbox.Dispatch.Pipeline.{Iteration, Terminal}
use go_outbox.Dispatch.Publish.{Published}
use go_outbox.Observability.{
  Series, same_series, add, add_all, set_gauge, error_kind, failure_reason, some_of, publish_counts,
  delivery_counts, failure_counts, iteration_counts, bounded,
}
use go_outbox.Observability.Counts.{claimed, retried, deferrals, conflicts}

-- The labels that the code itself writes.
abbrev pub own_labels : List String
own_labels =
    "__unknown__" ∷ "initial" ∷ "retry" ∷ "publish" ∷ "permanent" ∷ "unavailable" ∷ "retryable"
    ∷ "success" ∷ "error" ∷ "attempts_exhausted" ∷ "unreachable" ∷ "pending" ∷ "processing"
    ∷ "failed" ∷ []

module _ (streams drivers : List String) where
  -- A label is the name of a configured stream or driver, or one that the code itself writes.
  abbrev pub Known : String → Type 0
  Known l =
      (contains streams l ≡ true) ⊎ (contains drivers l ≡ true) ⊎ (contains own_labels l ≡ true)

  abbrev pub KnownLabels : Series → Type 0
  KnownLabels [] = Unit {0}
  KnownLabels (name ∷ labels) = All Known labels

  abbrev pub KnownSeries {ℓ} : {A : Type ℓ} → List (Series × A) → Type 0
  KnownSeries [] = Unit {0}
  KnownSeries ((s, n) ∷ rest) = KnownLabels s × KnownSeries rest

  pub own : (l : String) → contains own_labels l ≡ true → Known l
  own l h = inr (inr h)

  pub stream-Known : (name : String) → Known (bounded streams name)
  stream-Known name = elim (Bool-cases (contains streams name)) [
    | inl known ↦ rw known (inl known)
    | inr not_known ↦ rw not_known (own "__unknown__" (unfold contains in refl))
  ]

  pub driver-Known : (name : String) → Known (bounded drivers name)
  driver-Known name = elim (Bool-cases (contains drivers name)) [
    | inl known ↦ rw known (inr (inl known))
    | inr not_known ↦ rw not_known (own "__unknown__" (unfold contains in refl))
  ]

  add-KnownSeries :
      (s : Series) (n : ℕ) (counters : List (Series × ℕ))
      → KnownLabels s
      → KnownSeries counters
      → KnownSeries (add s n counters)
  unfolding add
  add-KnownSeries s n [] k h = (k, tt)
  add-KnownSeries s n ((t, m) ∷ rest) k h = elim (Bool-cases (same_series t s)) [
    | inl same ↦ rw same h
    | inr other ↦ rw other (h.0, add-KnownSeries s n rest k h.1)
  ]

  pub add_all-KnownSeries :
      (added counters : List (Series × ℕ))
      → KnownSeries added
      → KnownSeries counters
      → KnownSeries (add_all added counters)
  unfolding add_all
  add_all-KnownSeries [] counters k h = h
  add_all-KnownSeries ((s, n) ∷ rest) counters k h =
      add_all-KnownSeries rest (add s n counters) k.1 (add-KnownSeries s n counters k.0 h)

  pub set_gauge-KnownSeries :
      (s : Series) (v : ℤ) (gauges : List (Series × ℤ))
      → KnownLabels s
      → KnownSeries gauges
      → KnownSeries (set_gauge s v gauges)
  unfolding set_gauge
  set_gauge-KnownSeries s v [] k h = (k, tt)
  set_gauge-KnownSeries s v ((t, w) ∷ rest) k h = elim (Bool-cases (same_series t s)) [
    | inl same ↦ rw same h
    | inr other ↦ rw other (h.0, set_gauge-KnownSeries s v rest k h.1)
  ]

  pub append-KnownSeries {ℓ} :
      {A : Type ℓ} (xs ys : List (Series × A))
      → KnownSeries xs
      → KnownSeries ys
      → KnownSeries (xs ++ ys)
  append-KnownSeries [] ys h k = k
  append-KnownSeries (x ∷ xs) ys h k = (h.0, append-KnownSeries xs ys h.1 k)

  some_of-KnownSeries : (s : Series) (n : ℕ) → KnownLabels s → KnownSeries (some_of s n)
  some_of-KnownSeries s n k = elim (Bool-cases (ltb 0 n)) [
    | inl some_added ↦ rw some_added (k, tt)
    | inr none_added ↦ rw none_added tt
  ]

  module _ (a d : String) (stream : Known a) (driver : Known d) where
    error_kind-Known : (p q : Bool) → Known (error_kind p q)
    unfolding error_kind contains
    error_kind-Known true q = own "permanent" refl
    error_kind-Known false true = own "unavailable" refl
    error_kind-Known false false = own "retryable" refl

    reason-Known :
        (p q : Bool)
        → Known (if p then "permanent" else if q then "unreachable" else "attempts_exhausted")
    unfolding contains
    reason-Known true q = own "permanent" refl
    reason-Known false true = own "unreachable" refl
    reason-Known false false = own "attempts_exhausted" refl

    publish_counts-KnownSeries : (xs : List Published) → KnownSeries (publish_counts a d xs)
    unfolding publish_counts contains
    publish_counts-KnownSeries [] = tt
    publish_counts-KnownSeries (x ∷ xs) =
        let rest = publish_counts-KnownSeries xs in
        let kind = error_kind-Known x.permanent x.deferred in
        elim (Bool-cases (is_some x.err)) [
          | inl bad ↦ rw bad (
            (stream, (driver, (own "publish" refl, (kind, tt)))),
            ((stream, (driver, (own "error" refl, tt))), rest),
          )
          | inr good ↦ rw good ((stream, (driver, (own "success" refl, tt))), rest)
        ]

    delivery_counts-KnownSeries : (xs : List Delivered) → KnownSeries (delivery_counts a d xs)
    unfolding delivery_counts
    delivery_counts-KnownSeries [] = tt
    delivery_counts-KnownSeries (x ∷ xs) =
        ((stream, (driver, tt)), ((stream, (driver, tt)), delivery_counts-KnownSeries xs))

    failure_counts-KnownSeries : (xs : List Terminal) → KnownSeries (failure_counts a d xs)
    unfolding failure_counts failure_reason
    failure_counts-KnownSeries [] = tt
    failure_counts-KnownSeries (x ∷ xs) = (
      (stream, (driver, (reason-Known x.permanent x.deferred, tt))),
      failure_counts-KnownSeries xs,
    )

    pub iteration_counts-KnownSeries : (ev : Iteration) → KnownSeries (iteration_counts a d ev)
    unfolding iteration_counts contains
    iteration_counts-KnownSeries ev =
        let pair : KnownLabels (retried a d) = (stream, (driver, tt)) in
        let xs = some_of (claimed a d "initial") (ev.claimed - ev.retries) in
        let ys = some_of (claimed a d "retry") ev.retries in
        let ps = publish_counts a d ev.publishes in
        let ds = delivery_counts a d ev.delivered in
        let rs = some_of (retried a d) (length ev.requeued) in
        let qs = some_of (deferrals a d) (length ev.deferred) in
        let fs = failure_counts a d ev.failed in
        let cs = some_of (conflicts a d) (pos_part ev.conflicts) in
        let c = some_of-KnownSeries (conflicts a d) (pos_part ev.conflicts) (stream, tt) in
        let f = append-KnownSeries fs cs (failure_counts-KnownSeries ev.failed) c in
        let q =
          append-KnownSeries qs (fs ++ cs)
            (some_of-KnownSeries (deferrals a d) (length ev.deferred) pair) f in
        let r =
          append-KnownSeries rs (qs ++ (fs ++ cs))
            (some_of-KnownSeries (retried a d) (length ev.requeued) pair) q in
        let e =
          append-KnownSeries ds (rs ++ (qs ++ (fs ++ cs)))
            (delivery_counts-KnownSeries ev.delivered) r in
        let p =
          append-KnownSeries ps (ds ++ (rs ++ (qs ++ (fs ++ cs))))
            (publish_counts-KnownSeries ev.publishes) e in
        let y =
          append-KnownSeries ys (ps ++ (ds ++ (rs ++ (qs ++ (fs ++ cs)))))
            (some_of-KnownSeries (claimed a d "retry") ev.retries
              (stream, (driver, (own "retry" refl, tt))))
            p in
        let x =
          append-KnownSeries xs (ys ++ (ps ++ (ds ++ (rs ++ (qs ++ (fs ++ cs))))))
            (some_of-KnownSeries (claimed a d "initial") (ev.claimed - ev.retries)
              (stream, (driver, (own "initial" refl, tt))))
            y in
        ((stream, tt), ((stream, tt), x))
