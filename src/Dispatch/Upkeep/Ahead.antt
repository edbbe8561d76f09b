-- ===== src/Dispatch/Upkeep/Ahead.antt =====
-- What maintenance leaves of the days ahead.
use go_outbox.Base.{
  ℕ, suc, ◌≡◌, ◌≢◌, refl, ap, subst, true, false, Option, none, some, List, [], ◌∷◌, String, length,
  All, arith, Bool-cases, Option-cases, inl, inr, ◌⊎◌,
}
use go_outbox.Base.Int.{ℤ, pos, leb_ℤ, pos_part, ◌<ℤ◌}
use go_outbox.Core.Errors.{Err, Result, ok}
use go_outbox.Store.Table.{Table}
use go_outbox.Store.System.{run}
use go_outbox.Store.Partitions.{
  Part, is_default, is_spent, last_dispatch, Visit, Visited, kept, dropped, stopped, visit, ensure,
  drop_parts, drop_expired,
}
use go_outbox.Dispatch.Upkeep.{Partitions, Answers, maintain, after_drop, after_ensure}

-- The default partition, or one that holds a row.
abbrev pub Occupied : Part → Type 0
Occupied p = (is_default p ≡ true) ⊎ (p.rows ≢ [])

spent-nil : (retention now : ℕ) (t : Table) → is_spent retention now t ≡ false → t ≢ []
unfolding is_spent last_dispatch
spent-nil retention now [] h = cc
spent-nil retention now (r ∷ t) h = λ e. cc e

kept_part : Visited → Part → Part
kept_part (kept p) q = p
kept_part (dropped t) q = q
kept_part (stopped e p) q = q

kept-Occupied :
    (v : Visit) (retention : ℕ) (p p' : Part)
    → v.between ≡ []
    → visit v retention p ≡ kept p'
    → Occupied p'
unfolding visit run kept_part
kept-Occupied v retention p p' b h = elim (Bool-cases (is_default p)) [
  | inl default ↦ subst Occupied (ap (λ x. kept_part x p) (rw default at h)) (inl default)
  | inr daily ↦ elim (Option-cases v.query) [
    | inr (e, q) ↦ cc (rw (daily, q) at h)
    | inl q ↦ elim (Bool-cases (is_spent retention v.now p.rows)) [
      | inr fresh ↦
          subst Occupied (ap (λ x. kept_part x p) (rw (daily, q, fresh) at h))
            (inr (rw b (spent-nil retention v.now p.rows fresh)))
      | inl spent ↦ elim (Option-cases v.drop) [
        | inr (e, d) ↦ cc (rw (daily, q, spent, d) at h)
        | inl d ↦ cc (rw (daily, q, spent, d) at h)
      ]
    ]
  ]
]

-- The answer of the rest, after one partition.
abbrev joined :
    Part
    → Visited
    → (List String × Option Err) × List Part
    → List Part
    → (List String × Option Err) × List Part
joined p (stopped e p') rest ps = (([], some e), p' ∷ ps)
joined p (kept p') (answer, qs) ps = (answer, p' ∷ qs)
joined p (dropped rows) ((names, e), qs) ps = ((p.name ∷ names, e), qs)

drop_parts-cons :
    (visits : ℕ → Visit) (i retention : ℕ) (p : Part) (ps : List Part)
    → drop_parts visits i retention (p ∷ ps)
      ≡ joined p (visit (visits i) retention p) (drop_parts visits (suc i) retention ps) ps
unfolding drop_parts
drop_parts-cons visits i retention p ps = by_visit (visit (visits i) retention p)
  where
    by_visit :
        (v : Visited)
        → (elim v as (λ _. (List String × Option Err) × List Part) [
          | stopped e p' ↦ (([], some e), p' ∷ ps)
          | kept p' ↦
              let (answer, rest) = drop_parts visits (suc i) retention ps in (answer, p' ∷ rest)
          | dropped rows ↦
              let ((names, e), rest) = drop_parts visits (suc i) retention ps in
              ((p.name ∷ names, e), rest)
        ])
          ≡ joined p v (drop_parts visits (suc i) retention ps) ps
    by_visit (stopped e p') = refl
    by_visit (kept p') = refl
    by_visit (dropped rows) = refl

drop_parts-Occupied :
    (visits : ℕ → Visit) (i retention : ℕ) (ps : List Part)
    → ((j : ℕ) → (visits j).between ≡ [])
    → (drop_parts visits i retention ps).0.1 ≡ none
    → All Occupied (drop_parts visits i retention ps).1
unfolding drop_parts
drop_parts-Occupied visits i retention [] b h = tt
drop_parts-Occupied visits i retention (p ∷ ps) b h = rw (drop_parts-cons visits i retention p ps) (
    by_visit (visit (visits i) retention p) refl (rw (drop_parts-cons visits i retention p ps) at h)
      (drop_parts-Occupied visits (suc i) retention ps b))
  where
    by_visit :
        (v : Visited)
        → visit (visits i) retention p ≡ v
        → (joined p v (drop_parts visits (suc i) retention ps) ps).0.1 ≡ none
        → ((drop_parts visits (suc i) retention ps).0.1 ≡ none
            → All Occupied (drop_parts visits (suc i) retention ps).1)
        → All Occupied (joined p v (drop_parts visits (suc i) retention ps) ps).1
    by_visit (stopped e p') f h ih = cc
    by_visit (kept p') f h ih = (kept-Occupied (visits i) retention p p' (b i) f, ih h)
    by_visit (dropped rows) f h ih = ih h

drop_expired-Occupied :
    (listed : Option Err) (visits : ℕ → Visit) (retention : ℤ) (ps : List Part)
    → ((j : ℕ) → (visits j).between ≡ [])
    → pos 0 <ℤ retention
    → (drop_expired listed visits retention ps).0.1 ≡ none
    → All Occupied (drop_expired listed visits retention ps).1
unfolding drop_expired
drop_expired-Occupied listed visits retention ps b p h =
    elim (Bool-cases (leb_ℤ retention (pos 0))) [
      | inl off ↦ absurd (ground arith)
      | inr on ↦ elim (Option-cases listed) [
        | inr (e, l) ↦ cc (rw (on, l) at h)
        | inl l ↦
            rw (on, l) (drop_parts-Occupied visits 0 (pos_part retention) ps b (rw (on, l) at h))
      ]
    ]

module _ (name_of : ℕ → String) (day_of : ℕ → ℕ) where
  -- Maintenance that ends without an error, while nothing else is committed, leaves no empty
  -- partition but the default one: those of the days ahead, which it has just created, are dropped
  -- in the same run.
  pub maintain-Occupied :
      (a : Answers) (ahead retention : ℤ) (parts parts' : List Part) (ev : Option Partitions)
      → ((j : ℕ) → (a.visits j).between ≡ [])
      → pos 0 <ℤ retention
      → maintain name_of day_of a ahead retention parts ≡ (ok ev, parts')
      → All Occupied parts'
  unfolding maintain
  maintain-Occupied a ahead retention parts parts' ev b p h =
      by_ensure (ensure name_of day_of a.lost a.today ahead parts) h
    where
      by_drop :
          (created : ℕ) (q : (List String × Option Err) × List Part)
          → (q.0.1 ≡ none → All Occupied q.1)
          → after_drop name_of day_of a created q ≡ (ok ev, parts')
          → All Occupied parts'
      by_drop created ((names, some e), ps) o h =
          cc (ap (λ (x : Result (Option Partitions) × List Part). x.0) h)
      by_drop created ((names, none), ps) o h =
          subst (All Occupied) (ap (λ (x : Result (Option Partitions) × List Part). x.1) h) (o refl)

      by_ensure :
          (q : (List String × Option Err) × List Part)
          → after_ensure name_of day_of a retention q ≡ (ok ev, parts')
          → All Occupied parts'
      by_ensure ((created, some e), ps) h =
          cc (ap (λ (x : Result (Option Partitions) × List Part). x.0) h)
      by_ensure ((created, none), ps) h =
          by_drop (length created) (drop_expired a.listed a.visits retention ps)
            (drop_expired-Occupied a.listed a.visits retention ps b p) h
