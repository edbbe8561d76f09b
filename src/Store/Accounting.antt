-- ===== src/Store/Accounting.antt =====
-- Counting rows by identifier: batches stay within their limit, and an acknowledgement accounts for
-- every identifier that it was given.
use go_outbox.Base.{
  ℕ, ◌+◌, ◌-◌, ◌≤◌, ◌≡◌, refl, Bool, false, ◌&&◌, ◌||◌, not, List, [], ◌∷◌, arith, elem, holds,
  keep, length, map, length-map, ◌==◌, String,
}
use go_outbox.Base.Int.{pos}
use go_outbox.Core.Errors.{ok}
use go_outbox.Store.Table.{Row, Table, ids, Distinct, WellFormed}
use go_outbox.Store.Queries.{
  claim_sql, due, reclaim_sql, expired, purge_sql, doomed, owned, ack_sql, by_availability,
  by_deadline, by_dispatch, is_due, is_expired, is_doomed,
}
use go_outbox.Store.Operations.{At, fine, ack, Delivered, delivered_row}
use go_outbox.Store.Batches.{length-batch-le}

keep-none : (i : ℕ) (t : Table) → elem i (ids t) ≡ false → length (keep (λ r. i == r.id) t) ≡ 0
keep-none i [] h = refl
keep-none i (r ∷ t) h = ground (arith, keep-none i t)

keep-one : (i : ℕ) (t : Table) → Distinct (ids t) → length (keep (λ r. i == r.id) t) ≤ 1
keep-one i [] d = omega arith
keep-one i (r ∷ t) d = ground (arith, keep-none i t, keep-one i t d.1)

keep-or :
    (p q : Row → Bool) (t : Table)
    → length (keep (λ r. p r || q r) t) ≤ length (keep p t) + length (keep q t)
keep-or p q [] = omega arith
keep-or p q (r ∷ t) = ground (arith, keep-or p q t)

-- Rows of distinct identifiers that all stand in a list are no more than the list.
keep-elem-le :
    (given : List ℕ) (t : Table)
    → Distinct (ids t)
    → length (keep (λ r. elem r.id given) t) ≤ length given
keep-elem-le [] t d = none_kept t
  where
    none_kept : (u : Table) → length (keep (λ r. false) u) ≤ 0
    none_kept [] = omega arith
    none_kept (r ∷ u) = none_kept u
keep-elem-le (i ∷ given) t d = omega (
  arith,
  keep-or (λ r. i == r.id) (λ r. elem r.id given) t,
  keep-one i t d,
  keep-elem-le given t d,
)

length-ids : (rs : List Row) → length (ids rs) ≡ length rs
length-ids rs = length-map rs (λ r. r.id)

-- A claim returns at most the rows asked for, a reclaim and a purge touch at most their limits.
pub batches-bounded :
    (locked : ℕ → Bool) (stream owner : String) (limit token ttl retention now : ℕ) (t : Table)
    → WellFormed t
    → (length (claim_sql locked stream limit token ttl owner now t).0 ≤ limit)
      × (length (reclaim_sql locked limit now t).0 ≤ limit)
      × (length (purge_sql locked retention limit now t).0 ≤ limit)
unfolding claim_sql due reclaim_sql purge_sql
batches-bounded locked stream owner limit token ttl retention now t w = (
  omega (
    arith,
    keep-elem-le (ids (due locked stream limit now t)) t w.keys,
    length-ids (due locked stream limit now t),
    length-batch-le by_availability limit (λ r. is_due stream now r && not (locked r.id)) t,
  ),
  omega (
    arith,
    keep-elem-le (ids (expired locked limit now t)) t w.keys,
    length-ids (expired locked limit now t),
    length-batch-le by_deadline limit (λ r. is_expired now r && not (locked r.id)) t,
  ),
  omega (
    arith,
    keep-elem-le (ids (doomed locked retention limit now t)) t w.keys,
    length-ids (doomed locked retention limit now t),
    length-batch-le by_dispatch limit (λ r. is_doomed retention now r && not (locked r.id)) t,
  ),
)

keep-and : (p q : Row → Bool) (t : Table) → length (keep (λ r. p r && q r) t) ≤ length (keep p t)
keep-and p q [] = omega arith
keep-and p q (r ∷ t) = ground (arith, keep-and p q t)

owned-le :
    (given : List ℕ) (token : ℕ) (t : Table)
    → Distinct (ids t)
    → length (keep (owned given token) t) ≤ length given
owned-le given token t d = omega (
  arith,
  keep-and (λ r. elem r.id given) (λ r. holds r.lease_token token) t,
  keep-elem-le given t d,
)

-- An acknowledgement that reaches the database accounts for every identifier that it was given: the
-- deliveries and the conflicts add up to their number, so conflicts are never negative.
pub ack-accounts :
    (at : At) (i : ℕ) (given : List ℕ) (token : ℕ) (t : Table)
    → WellFormed t
    → at.fault ≡ fine
    → (d : List Delivered) × (n : ℕ) × ((ack at (i ∷ given) token t).0
        ≡ ok (record { delivered = d; conflicts = pos n }))
      × (length d + n ≡ length (i ∷ given))
unfolding ack ack_sql
ack-accounts at i given token t w f =
    let rows = keep (owned (i ∷ given) token) t in
    let bound : length rows ≤ length (i ∷ given) = owned-le (i ∷ given) token t w.keys in
    let same : length (map (delivered_row at.now) rows) ≡ length rows =
      length-map rows (delivered_row at.now) in
    (
      map (delivered_row at.now) rows,
      length (i ∷ given) - length rows,
      rw f (ground arith),
      omega arith,
    )
