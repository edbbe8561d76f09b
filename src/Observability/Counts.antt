-- ===== src/Observability/Counts.antt =====
-- A counter's value after additions, and what the parts of a cycle add.
use go_outbox.Base.{
  ℕ, ◌+◌, ◌≡◌, ◌∙◌, refl, Bool, true, false, List, [], ◌∷◌, ◌++◌, String, str_eq, str_eq_iff,
  if◌then◌else◌, length, arith, Bool-cases, inl, inr,
}
use go_outbox.Store.Operations.{Delivered}
use go_outbox.Dispatch.Pipeline.{Terminal}
use go_outbox.Dispatch.Publish.{Published}
use go_outbox.Observability.{
  Series, same_series, add, add_all, publish_counts, delivery_counts, failure_counts,
  failure_reason,
}

-- A counter's value, zero where the series is not there.
abbrev pub value : Series → List (Series × ℕ) → ℕ
value s [] = 0
value s ((t, n) ∷ rest) = if same_series t s then n else value s rest

-- What a list of additions adds to a series.
abbrev pub total : Series → List (Series × ℕ) → ℕ
total s [] = 0
total s ((t, n) ∷ rest) = (if same_series t s then n else 0) + total s rest

pub same_series_refl : (s : Series) → same_series s s ≡ true
same_series_refl [] = refl
same_series_refl (a ∷ s) = ground (arith, str_eq_iff a a, same_series_refl s)

same_series-eq : (s t : Series) → same_series s t ≡ true → s ≡ t
same_series-eq [] [] h = refl
same_series-eq [] (b ∷ t) h = cc
same_series-eq (a ∷ s) [] h = cc
same_series-eq (a ∷ s) (b ∷ t) h =
    let e : a ≡ b = ground (arith, str_eq_iff a b) in
    let r : s ≡ t = same_series-eq s t (ground arith) in cc

value-add :
    (s t : Series) (n : ℕ) (counters : List (Series × ℕ))
    → value s (add t n counters) ≡ value s counters + (if same_series t s then n else 0)
unfolding add
value-add s t n [] = ground arith
value-add s t n ((u, m) ∷ rest) = elim (Bool-cases (same_series u t)) [
  | inl same ↦ rw (same, same_series-eq u t same) (ground arith)
  | inr other ↦ rw other (elim (Bool-cases (same_series u s)) [
    | inl found ↦ rw (found, apart found other) (ground arith)
    | inr missed ↦ rw missed (value-add s t n rest)
  ])
]
  where
    apart : same_series u s ≡ true → same_series u t ≡ false → same_series t s ≡ false
    apart found other = elim (Bool-cases (same_series t s)) [
      | inl also ↦
          let e = same_series-eq u s found in
          let f = same_series-eq t s also in let r = same_series_refl s in absurd (cc)
      | inr n ↦ n
    ]

pub value-add_all :
    (s : Series) (added counters : List (Series × ℕ))
    → value s (add_all added counters) ≡ value s counters + total s added
unfolding add_all
value-add_all s [] counters = ground arith
value-add_all s ((t, n) ∷ rest) counters =
    value-add_all s rest (add t n counters) ∙ ground (arith, value-add s t n counters)

pub total-append :
    (s : Series) (xs ys : List (Series × ℕ)) → total s (xs ++ ys) ≡ total s xs + total s ys
total-append s [] ys = ground arith
total-append s ((t, n) ∷ xs) ys = ground (arith, total-append s xs ys)

module _ (a d name : String) (labels : List String) where
  pub publish-none :
      (xs : List Published)
      → str_eq "broker_errors_total" name ≡ false
      → str_eq "publish_duration_seconds" name ≡ false
      → total (name ∷ labels) (publish_counts a d xs) ≡ 0
  unfolding publish_counts
  publish-none [] h k = refl
  publish-none (x ∷ xs) h k = ground (arith, publish-none xs h k)

  pub delivery-none :
      (xs : List Delivered)
      → str_eq "messages_dispatched_total" name ≡ false
      → str_eq "delivery_lag_seconds" name ≡ false
      → total (name ∷ labels) (delivery_counts a d xs) ≡ 0
  unfolding delivery_counts
  delivery-none [] h k = refl
  delivery-none (x ∷ xs) h k = ground (arith, delivery-none xs h k)

  pub failure-none :
      (xs : List Terminal)
      → str_eq "messages_failed_total" name ≡ false
      → total (name ∷ labels) (failure_counts a d xs) ≡ 0
  unfolding failure_counts
  failure-none [] h = refl
  failure-none (x ∷ xs) h = ground (arith, failure-none xs h)

module _ (a d : String) where
  abbrev pub dispatched : Series
  dispatched = "messages_dispatched_total" ∷ a ∷ d ∷ []

  abbrev pub claimed : String → Series
  claimed kind = "messages_claimed_total" ∷ a ∷ d ∷ kind ∷ []

  abbrev pub retried : Series
  retried = "messages_retried_total" ∷ a ∷ d ∷ []

  abbrev pub deferrals : Series
  deferrals = "messages_deferred_total" ∷ a ∷ d ∷ []

  abbrev pub conflicts : Series
  conflicts = "lease_conflicts_total" ∷ a ∷ []

  abbrev pub failed : String → Series
  failed reason = "messages_failed_total" ∷ a ∷ d ∷ reason ∷ []

  pub delivery-all : (xs : List Delivered) → total dispatched (delivery_counts a d xs) ≡ length xs
  unfolding delivery_counts
  delivery-all [] = refl
  delivery-all (x ∷ xs) = ground (arith, delivery-all xs, str_eq_iff a a, str_eq_iff d d)

  abbrev hit : String → String → ℕ
  hit r reason = if same_series (failed r) (failed reason) then 1 else 0

  hit-eq : (r reason : String) → hit r reason ≡ (if str_eq r reason then 1 else 0)
  hit-eq r reason = ground (arith, str_eq_iff a a, str_eq_iff d d)

  -- A failure has one reason.
  once :
      (p q : Bool)
      → let r : String =
          if p then "permanent" else if q then "unreachable" else "attempts_exhausted" in
        hit r "permanent" + hit r "unreachable" + hit r "attempts_exhausted" ≡ 1
  once true q = omega (
    arith,
    hit-eq "permanent" "permanent",
    hit-eq "permanent" "unreachable",
    hit-eq "permanent" "attempts_exhausted",
  )
  once false true = omega (
    arith,
    hit-eq "unreachable" "permanent",
    hit-eq "unreachable" "unreachable",
    hit-eq "unreachable" "attempts_exhausted",
  )
  once false false = omega (
    arith,
    hit-eq "attempts_exhausted" "permanent",
    hit-eq "attempts_exhausted" "unreachable",
    hit-eq "attempts_exhausted" "attempts_exhausted",
  )

  pub failure-all :
      (xs : List Terminal)
      → total (failed "permanent") (failure_counts a d xs)
          + total (failed "unreachable") (failure_counts a d xs)
          + total (failed "attempts_exhausted") (failure_counts a d xs)
        ≡ length xs
  unfolding failure_counts failure_reason
  failure-all [] = refl
  failure-all (x ∷ xs) = omega (arith, once x.permanent x.deferred, failure-all xs)
