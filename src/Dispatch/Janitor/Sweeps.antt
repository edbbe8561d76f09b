-- ===== src/Dispatch/Janitor/Sweeps.antt =====
-- A sweep ends, and says how many rows it deleted.
use go_outbox.Base.{
  ℕ, zero, suc, ◌+◌, ◌≤◌, ◌<◌, ◌≡◌, refl, Bool, true, false, length, ltb, arith, Bool-cases, inl,
  inr,
}
use go_outbox.Base.Int.{ℤ, pos, leb_ℤ, pos_part}
use go_outbox.Core.Errors.{Result, ok, err}
use go_outbox.Store.Table.{Table, WellFormed}
use go_outbox.Store.Invariant.{run-WellFormed}
use go_outbox.Store.Operations.{purge}
use go_outbox.Store.System.{run}
use go_outbox.Dispatch.Janitor.{
  exclusive, Chunk, Swept, skipped, unfinished, cancelled, failed, finished, sweep_chunks, sweep,
}
use go_outbox.Dispatch.Janitor.Sharing.{adds, takes, run-sized, Shrinks, purge-Shrinks}

-- The rows that others may have added and taken before the `i`th chunk.
abbrev pub added : (ℕ → Chunk) → ℕ → ℕ
added chunks zero = 0
added chunks (suc i) = added chunks i + adds (chunks i).others

abbrev pub taken : (ℕ → Chunk) → ℕ → ℕ
taken chunks zero = 0
taken chunks (suc i) = taken chunks i + takes (chunks i).others

-- How a sweep may end on a table, from a number of rows already deleted, while others add at most
-- so many rows and take at most so many.
abbrev pub Ends : ℕ → ℕ → ℕ → Table → Swept × Table → Type 0
Ends most_added most_taken total t (skipped, u) = u ≡ t
Ends most_added most_taken total t (unfinished, u) = ⊥
Ends most_added most_taken total t (cancelled, u) = length u ≤ length t + most_added
Ends most_added most_taken total t (failed e, u) = length u ≤ length t + most_added
Ends most_added most_taken total t (finished n, u) =
    (n + length u ≤ total + length t + most_added) × (total + length t ≤ n + length u + most_taken)

-- The same, from the `i`th chunk on.
abbrev EndsFrom : ℕ → ℕ → ℕ → ℕ → ℕ → Table → Swept × Table → Type 0
EndsFrom so_far so_taken n l total t (skipped, u) = ⊥
EndsFrom so_far so_taken n l total t (unfinished, u) = ⊥
EndsFrom so_far so_taken n l total t (cancelled, u) = length u + so_far ≤ length t + n
EndsFrom so_far so_taken n l total t (failed e, u) = length u + so_far ≤ length t + n
EndsFrom so_far so_taken n l total t (finished m, u) =
    (m + length u + so_far ≤ total + length t + n)
    × (total + length t + so_taken ≤ m + length u + l)

-- The rest of a sweep, seen from before a full chunk and what others did ahead of it.
widen-EndsFrom :
    (a b n l total more gain loss : ℕ) (t u : Table) (rest : Swept × Table)
    → more + length u ≤ length t + gain
    → length t ≤ more + length u + loss
    → EndsFrom (a + gain) (b + loss) n l (total + more) u rest
    → EndsFrom a b n l total t rest
widen-EndsFrom a b n l total more gain loss t u (skipped, v) x y h = h
widen-EndsFrom a b n l total more gain loss t u (unfinished, v) x y h = h
widen-EndsFrom a b n l total more gain loss t u (cancelled, v) x y h = omega arith
widen-EndsFrom a b n l total more gain loss t u (failed e, v) x y h = omega arith
widen-EndsFrom a b n l total more gain loss t u (finished m, v) x y h = (omega arith, omega arith)

start-Ends :
    (n l : ℕ) (t : Table) (out : Swept × Table) → EndsFrom 0 0 n l 0 t out → Ends n l 0 t out
start-Ends n l t (skipped, u) h = elim h [ ]
start-Ends n l t (unfinished, u) h = h
start-Ends n l t (cancelled, u) h = omega arith
start-Ends n l t (failed e, u) h = omega arith
start-Ends n l t (finished m, u) h = (omega arith, omega arith)

module _ (chunks : ℕ → Chunk) (setting : ℤ) (limit n l : ℕ) (gains : (i : ℕ) → added chunks i ≤ n)
    (losses : (i : ℕ) → taken chunks i ≤ l) (full_size : 0 < limit) where
  abbrev From : ℕ → ℕ → Table → Swept × Table → Type 0
  From i total t out = EndsFrom (added chunks i) (taken chunks i) n l total t out

  abbrev rest_of : ℕ → ℕ → ℕ → Table → Swept × Table
  rest_of fuel i total t = sweep_chunks fuel chunks i (pos_part setting) limit total t

  sweep_chunks-Ends :
      (fuel i total : ℕ) (t : Table)
      → WellFormed t
      → length t + n < fuel + added chunks i
      → From i total t (rest_of fuel i total t)
  unfolding sweep_chunks
  sweep_chunks-Ends zero i total t w enough = absurd (omega (arith, enough, gains i))
  sweep_chunks-Ends (suc fuel) i total t w enough =
      let v = run (chunks i).others t in
      let w' = run-WellFormed (chunks i).others t w in
      let (most, least) = run-sized (chunks i).others t w in
      after_chunk v most least (purge (chunks i).at (pos_part setting) limit v) (chunks i).shutdown
        (purge-Shrinks (chunks i).at (pos_part setting) limit v w')
        (λ more u. sweep_chunks-Ends fuel (suc i) more u)
    where
      after_chunk :
          (v : Table)
          → length v ≤ length t + adds (chunks i).others
          → length t ≤ length v + takes (chunks i).others
          → (q : Result ℕ × Table) (stop : Bool) → Shrinks v q
          → ((more : ℕ) (u : Table)
              → WellFormed u
              → length u + n < fuel + added chunks (suc i)
              → From (suc i) more u (rest_of fuel (suc i) more u))
          → let (answer, u) = q in
            From i total t (elim answer [
              | err e ↦ (failed e, u)
              | ok m ↦ elim (ltb m limit) [
                | true ↦ (finished (total + m), u)
                | false ↦ elim stop [
                  | true ↦ (cancelled, u)
                  | false ↦ rest_of fuel (suc i) (total + m) u
                ]
              ]
            ])
      after_chunk v most least (err e, u) stop s ih = omega (arith, s, most, gains (suc i))
      after_chunk v most least (ok m, u) stop (s, w'') ih = elim (Bool-cases (ltb m limit)) [
        | inl short ↦
            rw short
              (omega (arith, s, most, gains (suc i)), omega (arith, s, least, losses (suc i)))
        | inr full ↦ rw full (again full stop)
      ]
        where
          again :
              ltb m limit ≡ false
              → (stop : Bool)
              → From i total t
                  (elim stop [ true ↦ (cancelled, u) | false ↦ rest_of fuel (suc i) (total + m) u ])
          again full true = omega (arith, s, most, gains (suc i))
          again full false =
              widen-EndsFrom (added chunks i) (taken chunks i) n l total m (adds (chunks i).others)
                (takes (chunks i).others) t u _ (omega (arith, s, most)) (omega (arith, s, least))
                (ih (total + m) u w'' (ground (arith, s, most, enough, full, full_size)))

  -- On a table that satisfies its constraints, and that others change between the chunks of a
  -- sweep, by no more than n insertions in all and by purges whose limits add up to no more
  -- than l, a sweep whose chunks are not empty ends after at most one chunk more than the rows
  -- of the table and n together, whatever the faults and the shutdown: it is skipped and leaves
  -- the table alone, it is cut short by the shutdown or a failure, or it finishes, and then the
  -- number of rows that it reports is what the table lost, but for at most n and l.
  pub sweep-Ends :
      (lock : Result Bool) (t : Table)
      → WellFormed t
      → Ends n l 0 t (sweep (suc (length t + n)) lock chunks setting limit t)
  unfolding sweep exclusive
  sweep-Ends lock t w = elim (Bool-cases (leb_ℤ setting (pos 0))) [
    | inl off ↦ rw off refl
    | inr on ↦ rw on (by_lock lock)
  ]
    where
      by_lock :
          (lock : Result Bool)
          → Ends n l 0 t (
              exclusive lock skipped
                (sweep_chunks (suc (length t + n)) chunks 0 (pos_part setting) limit 0)
                t)
      by_lock (err e) = refl
      by_lock (ok false) = refl
      by_lock (ok true) =
          start-Ends n l t _ (sweep_chunks-Ends (suc (length t + n)) 0 0 t w (omega arith))
