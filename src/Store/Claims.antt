-- ===== src/Store/Claims.antt =====
-- What a claim takes: rows that are due, no row twice, and the longest due first.
use go_outbox.Base.{
  ℕ, ◌+◌, ◌≤◌, ◌≡◌, refl, sym, ap, ◌∙◌, Bool, true, false, ◌&&◌, not, inl, inr, some, [], ◌∷◌,
  arith, Bool-cases, elem, keep, String, ◌==◌, str_eq,
}
use go_outbox.Core.{pending}
use go_outbox.Store.Table.{
  Row, Table, ids, find, find-update, find-id, rewrite, Distinct, WellFormed,
}
use go_outbox.Store.Queries.{claim_sql, due, is_due, lease_row, in_rows, by_availability}
use go_outbox.Store.Batches.{batch-test}
use go_outbox.Store.Invariant.{exec-WellFormed}
use go_outbox.Store.System.{claims, exec}

-- A row that was returned is the row of its identifier, and was chosen.
find-keep :
    (hit : Row → Bool) (i : ℕ) (t : Table)
    → Distinct (ids t)
    → elem i (ids (keep hit t)) ≡ true
    → (r : Row) × (find i t ≡ some r) × (hit r ≡ true)
find-keep hit i [] d h = cc
find-keep hit i (x ∷ t) d h = elim (Bool-cases (x.id == i)) [
  | inl e ↦ (x, rw e refl, ground (arith, absent x.id t d.0))
  | inr e ↦ let (r, f, k) = find-keep hit i t d.1 (ground arith) in (r, rw e f, k)
]
  where
    absent : (j : ℕ) (u : Table) → elem j (ids u) ≡ false → elem j (ids (keep hit u)) ≡ false
    absent j [] e = refl
    absent j (y ∷ u) e = ground (arith, absent j u)

module _ (locked : ℕ → Bool) (stream : String) (limit token ttl : ℕ) (owner : String) (now : ℕ)
    (t : Table) where
  -- A claim returns only rows of its stream that were pending, due and not held by another
  -- transaction, and leaves each of them leased to it until `now + ttl`.
  pub claim-leases :
      (i : ℕ)
      → WellFormed t
      → elem i (ids (claim_sql locked stream limit token ttl owner now t).0) ≡ true
      → (r : Row) × (find i t ≡ some r)
        × (r.status ≡ pending)
        × (str_eq r.stream stream ≡ true)
        × (r.available_at ≤ now)
        × (locked i ≡ false)
        × (find i (claim_sql locked stream limit token ttl owner now t).1
            ≡ some (lease_row token (now + ttl) owner r))
  unfolding claim_sql due
  claim-leases i w h =
      let (r, f, k) = find-keep (in_rows (due locked stream limit now t)) i t w.keys h in
      let tested : (is_due stream now r && not (locked r.id)) ≡ true =
        batch-test by_availability limit (λ x. is_due stream now x && not (locked x.id)) i t {r = r}
          w.keys f k in
      (
        r,
        f,
        ground arith,
        ground arith,
        ground arith,
        ground (arith, find-id i t {r = r} f),
        find-update _ _ (λ x. refl) i t
            ∙ ap
                (rewrite (in_rows (due locked stream limit now t))
                  (lease_row token (now + ttl) owner))
                f
            ∙ rw k refl,
      )

-- Two claims, one after the other, by whatever replicas, return no row twice.
pub claims-disjoint :
    (locked other_locked : ℕ → Bool) (stream other_stream : String)
    (limit other_limit token other ttl other_ttl : ℕ) (owner other_owner : String) (now later i : ℕ)
    (t : Table)
    → WellFormed t
    → elem i (ids (claim_sql locked stream limit token ttl owner now t).0) ≡ true
    → let left_over = (claim_sql locked stream limit token ttl owner now t).1 in
      elem i (
        ids
          (claim_sql other_locked other_stream other_limit other other_ttl other_owner later
            left_over).0)
      ≡ false
claims-disjoint locked other_locked stream other_stream limit other_limit token other ttl other_ttl
      owner other_owner now later i t w h =
    elim (Bool-cases (
      elem i (
        ids
          (claim_sql other_locked other_stream other_limit other other_ttl other_owner later
            left_over).0))) [
              | inr no_one ↦ no_one
              | inl twice ↦
                  let (r, f, _, _, _, _, g) =
                    claim-leases locked stream limit token ttl owner now t i w h in
                  let (s, f', p, _, _, _, _) =
                    claim-leases other_locked other_stream other_limit other other_ttl other_owner
                      later left_over i kept twice in
                  ground (arith, sym g ∙ f')
            ]
  where
    left_over : Table
    left_over = (claim_sql locked stream limit token ttl owner now t).1

    kept : WellFormed left_over
    kept = unfold exec in exec-WellFormed now (claims locked stream limit token ttl owner) t w
