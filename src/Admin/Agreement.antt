-- ===== src/Admin/Agreement.antt =====
-- The requeue command and the requeue endpoint make the same calls of the store.
use go_outbox.Base.{
  ℕ, ◌≤◌, ◌≡◌, refl, true, false, Option, none, some, List, String, length, if◌then◌else◌, ltb,
  ◌==◌, arith, inl, inr, ap, ◌⊎◌, ◌<◌, [],
}
use go_outbox.Base.Int.{ℤ, pos, negsuc, ◌≤ℤ◌}
use go_outbox.Core.Errors.{Err}
use go_outbox.Store.Table.{Table}
use go_outbox.Store.Operations.{At, Cursor, requeue_failed_before}
use go_outbox.App.{RequeueRequest, handle_requeue, requeue_limit, returned, max_requeue_ids}
use go_outbox.Admin.{RequeueOpts, requeue_calls, limited}

-- The body of a request for what a command asks for, where its time is this one.
abbrev pub body_of : RequeueOpts → ℕ → RequeueRequest
body_of o cutoff = record {
  ids = o.ids;
  failed_before = if ltb 0 (length o.ids) then none else some cutoff;
  limit = o.limit;
}

module _ (atoi : String → Option ℤ) (decode_cursor : String → Option Cursor)
    (describe : Err → String) (parse_time : String → Option ℕ) (negative_limit : Err)
    (fields : String → List String) (byte_length : String → ℕ) (first_bytes : ℕ → String → String)
    (sort : List String → List String) where
  requeue_limit-within :
      (n : ℕ)
      → pos 1 ≤ℤ pos n
      → pos n ≤ℤ pos 10000
      → requeue_limit atoi decode_cursor describe (pos n) ≡ n
  unfolding requeue_limit
  requeue_limit-within n least most = ground arith

  by_limit :
      (at : At) (cutoff : ℕ) (t : Table) (l : ℤ)
      → pos 1 ≤ℤ l
      → l ≤ℤ pos 10000
      → requeue_failed_before at cutoff (requeue_limit atoi decode_cursor describe l) t
        ≡ limited parse_time negative_limit fields byte_length first_bytes sort l
            (λ n. requeue_failed_before at cutoff n t)
            t
  by_limit at cutoff t (pos n) least most =
      ap (λ m. requeue_failed_before at cutoff m t) (requeue_limit-within n least most)
  by_limit at cutoff t (negsuc n) least most = absurd (omega arith)

  -- For a command with at most 10000 ids, or with none, a time that is read and a limit from 1 to
  -- 10000, the endpoint's answer to the same request is what the command's call of the store gives,
  -- and the two leave the same table.
  pub requeue-Agrees :
      (at : At) (o : RequeueOpts) (cutoff : ℕ) (t : Table)
      → ((0 < length o.ids) × (length o.ids ≤ 10000))
        ⊎ ((o.ids ≡ [])
            × (parse_time o.before ≡ some cutoff)
            × (pos 1 ≤ℤ o.limit)
            × (o.limit ≤ℤ pos 10000))
      → handle_requeue atoi decode_cursor describe true at (some (body_of o cutoff)) t
        ≡ returned atoi decode_cursor describe
            (requeue_calls parse_time negative_limit fields byte_length first_bytes sort at o t)
  unfolding handle_requeue requeue_calls
  requeue-Agrees at o cutoff t (inl (several, few)) =
      let bounded : ltb max_requeue_ids (length o.ids) ≡ false = ground arith in
      let given : ltb 0 (length o.ids) ≡ true = ground arith in
      let some_ids : (length o.ids == 0) ≡ false = ground arith in
      rw (given, bounded, some_ids) refl
  requeue-Agrees at o cutoff t (inr (empty, parsed, least, most)) =
      rw (empty, parsed)
        (ap (returned atoi decode_cursor describe) (by_limit at cutoff t o.limit least most))
