-- ===== src/Producer/Agreement.antt =====
-- The two client packages do the same.
use go_outbox.Base.{ℕ, ◌≡◌, refl, ap, ◌∙◌, Option, none, some, List, [], ◌∷◌, String, arith}
use go_outbox.Core.{Target}
use go_outbox.Core.Errors.{Err, Result, ok, err, ◌>>=◌}
use go_outbox.Store.Table.{Table}
use go_outbox.Store.System.{Insert}
use go_outbox.Store.Operations.{At}
use go_outbox.Producer.{Draft, execute}
use go_outbox.Producer.Pgx
use go_outbox.Producer.Pgx.{Prepared, arguments}
use go_outbox.Producer.Sql

-- Both fail, or both succeed and leave the same table.
abbrev pub Agree : Option Err × Table → Option Err × Table → Type 0
Agree (none, t) (none, u) = t ≡ u
Agree (none, t) (some f, u) = ⊥
Agree (some e, t) (none, u) = ⊥
Agree (some e, t) (some f, u) = Unit

module _ (encode_headers : List (String × String) → Result (List ℕ))
    (encode_target : Target → Result (List ℕ)) where
  prepare-same :
      (new_id : Result ℕ) (d : Draft)
      → Sql.prepare encode_headers encode_target new_id d ≡ (
          Pgx.prepare encode_headers encode_target new_id d >>= λ p.
          ok (arguments encode_headers encode_target d p))
  unfolding Pgx.prepare Sql.prepare
  prepare-same new_id d = ground arith

  -- `Enqueue` of the two packages is one function.
  enqueue-same :
      (at : At) (new_id : Result ℕ) (d : Draft) (t : Table)
      → Sql.enqueue encode_headers encode_target at new_id d t
        ≡ Pgx.enqueue encode_headers encode_target at new_id d t
  unfolding Pgx.enqueue Sql.enqueue
  enqueue-same at new_id d t =
      ap (λ q. Sql.send encode_headers encode_target at q t) (prepare-same new_id d)
      ∙ by_prepared (Pgx.prepare encode_headers encode_target new_id d)
    where
      by_sent :
          (o : Option Err × Table)
          → Sql.answered encode_headers encode_target o
            ≡ Pgx.answered encode_headers encode_target "enqueue outbox message" o
      by_sent (none, u) = refl
      by_sent (some e, u) = refl

      by_prepared :
          (q : Result Prepared)
          → Sql.send encode_headers encode_target at
              (q >>= λ p. ok (arguments encode_headers encode_target d p))
              t
            ≡ Pgx.send encode_headers encode_target at d q t
      by_prepared (err e) = refl
      by_prepared (ok p) = by_sent (execute at (arguments encode_headers encode_target d p) t)

  -- One message of a batch, from the agreement of the rest.
  batch-step :
      (at : At) (d : Draft) (rest : List (At × Result ℕ × Draft)) (t : Table) (q : Result Prepared)
      (tail : Result (List (At × Insert)))
      → ((u : Table)
          → Agree
              (Pgx.sent encode_headers encode_target tail u)
              (Sql.enqueue_batch encode_headers encode_target rest u))
      → Agree
          (Pgx.sent encode_headers encode_target
            (q >>= λ p. tail >>= λ ms. ok ((at, arguments encode_headers encode_target d p) ∷ ms))
            t)
          (Sql.then_all encode_headers encode_target
            (Sql.enqueue_batch encode_headers encode_target rest)
            (Sql.send encode_headers encode_target at
              (q >>= λ p. ok (arguments encode_headers encode_target d p))
              t))
  unfolding Pgx.send_all
  batch-step at d rest t (err e) tail ih = tt
  batch-step at d rest t (ok p) (err e) ih =
      by_result (execute at (arguments encode_headers encode_target d p) t)
    where
      by_result :
          (o : Option Err × Table)
          → Agree
              (some e, t)
              (Sql.then_all encode_headers encode_target
                (Sql.enqueue_batch encode_headers encode_target rest)
                (Sql.answered encode_headers encode_target o))
      by_result (some x, u) = tt
      by_result (none, u) = fails (Sql.enqueue_batch encode_headers encode_target rest u) (ih u)
        where
          fails : (r : Option Err × Table) → Agree (some e, u) r → Agree (some e, t) r
          fails (none, v) h = h
          fails (some f, v) h = h
  batch-step at d rest t (ok p) (ok ms) ih =
      by_result (execute at (arguments encode_headers encode_target d p) t)
    where
      by_result :
          (o : Option Err × Table)
          → Agree
              (Pgx.then_all encode_headers encode_target
                (Pgx.send_all encode_headers encode_target ms)
                o)
              (Sql.then_all encode_headers encode_target
                (Sql.enqueue_batch encode_headers encode_target rest)
                (Sql.answered encode_headers encode_target o))
      by_result (some x, u) = tt
      by_result (none, u) = ih u

  enqueue_batch-Agree :
      (drafts : List (At × Result ℕ × Draft)) (t : Table)
      → Agree
          (Pgx.enqueue_batch encode_headers encode_target drafts t)
          (Sql.enqueue_batch encode_headers encode_target drafts t)
  unfolding Pgx.enqueue_batch Sql.enqueue_batch Pgx.prepare_all Pgx.send_all
  enqueue_batch-Agree [] t = refl
  enqueue_batch-Agree ((at, new_id, d) ∷ rest) t = rw prepared (
      batch-step at d rest t (Pgx.prepare encode_headers encode_target new_id d)
        (Pgx.prepare_all encode_headers encode_target rest) (λ u. enqueue_batch-Agree rest u))
    where
      prepared :
          Sql.enqueue encode_headers encode_target at new_id d t
          ≡ Sql.send encode_headers encode_target at
              (Pgx.prepare encode_headers encode_target new_id d >>= λ p.
                ok (arguments encode_headers encode_target d p))
              t
      prepared =
          unfold Sql.enqueue in
          ap (λ q. Sql.send encode_headers encode_target at q t) (prepare-same new_id d)

  -- The two packages write the same: `Enqueue` of the one is `Enqueue` of the other, errors included,
  -- and a batch fails in both or in neither, and in the second case leaves the same table, although
  -- one package prepares every message before it sends the first and the other takes them in turn.
  pub packages-Agree :
      (at : At) (new_id : Result ℕ) (d : Draft) (drafts : List (At × Result ℕ × Draft)) (t : Table)
      → (Sql.enqueue encode_headers encode_target at new_id d t
          ≡ Pgx.enqueue encode_headers encode_target at new_id d t)
        × Agree
            (Pgx.enqueue_batch encode_headers encode_target drafts t)
            (Sql.enqueue_batch encode_headers encode_target drafts t)
  packages-Agree at new_id d drafts t = (enqueue-same at new_id d t, enqueue_batch-Agree drafts t)
