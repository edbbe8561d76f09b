-- ===== src/Broker/Postgres/Delivery.antt =====
-- What a publish leaves in the inbox.
use go_outbox.Base.{
  ℕ, zero, suc, ◌≡◌, refl, ap, ◌∙◌, subst, Bool, true, Option, none, some, List, [], ◌∷◌, String,
  length, replicate, get_elem?, is_some, Bool-cases, inl, inr, ◌⊎◌, arith, some_eq,
  length-replicate,
}
use go_outbox.Base.Int.{ℤ}
use go_outbox.Core.{Message}
use go_outbox.Core.Errors.{Err, Result, ok, err, ok_eq, ◌>>=◌}
use go_outbox.Store.Operations.{Fault, fine, refused, cut}
use go_outbox.Broker.{Naming}
use go_outbox.Broker.Postgres.{classify}
use go_outbox.Broker.Postgres.Extension.{
  Extended, Extended-refl, Extended-trans, insert_entry-there, insert_all-Extended, there-Extended,
  execute-Extended,
}
use go_outbox.Broker.Postgres.Inbox.{
  Entry, entry_of, insert_entry, insert_all, execute, encode_headers, entry, entries, inserted,
  insert_batch, replay, after_batch, unavailable_or_none, publish,
}

classify-none : (live : Bool) (o : Option Err) → classify live o ≡ none → o ≡ none
unfolding classify
classify-none live none h = refl
classify-none live (some e) h = cc

-- Lists of one length end together.
both_end :
    {A : Type 0} {B : Type 0} (xs : List A) (ys : List B) (j : ℕ) {b : B}
    → length xs ≡ length ys
    → get_elem? xs j ≡ none
    → get_elem? ys j ≡ some b
    → ⊥
both_end [] [] j size h g = cc
both_end [] (y ∷ ys) j size h g = cc
both_end (x ∷ xs) [] j size h g = cc
both_end (x ∷ xs) (y ∷ ys) zero size h g = cc
both_end (x ∷ xs) (y ∷ ys) (suc j) size h g = both_end xs ys j (omega (arith, size)) h g

module _ (itoa : ℤ → String) (trim : String → String)
    (encode : List (String × String) → Result (List ℕ)) (naming : Naming) where
  inserted-Extended :
      (f : Fault) (r : Result (List Entry)) (inbox : List Entry)
      → Extended inbox (inserted itoa trim encode naming f r inbox).1
  unfolding inserted
  inserted-Extended f (err e) inbox = Extended-refl inbox
  inserted-Extended f (ok es) inbox = execute-Extended f es inbox

  insert_batch-Extended :
      (f : Fault) (msgs : List Message) (inbox : List Entry)
      → Extended inbox (insert_batch itoa trim encode naming f msgs inbox).1
  unfolding insert_batch
  insert_batch-Extended f msgs inbox =
      inserted-Extended f (entries itoa trim encode naming msgs) inbox

  encoded :
      (x : Message) (r : Result (List ℕ)) (rest : Result (List Entry)) {es : List Entry}
      → (r >>= λ hs. rest >>= λ more. ok (entry itoa trim encode naming x hs ∷ more)) ≡ ok es
      → (hs : List ℕ) × (more : List Entry) × (rest ≡ ok more)
        × (entry itoa trim encode naming x hs ∷ more ≡ es)
  encoded x (err e) rest h = cc
  encoded x (ok hs) (err e) h = cc
  encoded x (ok hs) (ok more) h = (hs, more, refl, ok_eq h)

  -- Once the entries of a batch are inserted, each message's identifier is there.
  entries-there :
      (msgs : List Message) (es inbox : List Entry) (j : ℕ) (m : Message)
      → entries itoa trim encode naming msgs ≡ ok es
      → get_elem? msgs j ≡ some m
      → is_some (entry_of m.id (insert_all es inbox)) ≡ true
  unfolding entries insert_all
  entries-there [] es inbox j m h g = cc
  entries-there (x ∷ ms) es inbox zero m h g =
      let (hs, more, f, same) =
        encoded x (encode_headers itoa trim encode naming x.headers)
          (entries itoa trim encode naming ms) h in
      let first = entry itoa trim encode naming x hs in
      rw (← same, ← some_eq g)
        (there-Extended x.id (insert_entry first inbox) (insert_all more (insert_entry first inbox))
          (insert_all-Extended more (insert_entry first inbox)) (insert_entry-there first inbox))
  entries-there (x ∷ ms) es inbox (suc j) m h g =
      let (hs, more, f, same) =
        encoded x (encode_headers itoa trim encode naming x.headers)
          (entries itoa trim encode naming ms) h in
      rw (← same)
        (entries-there ms more (insert_entry (entry itoa trim encode naming x hs) inbox) j m f g)

  inserted-there :
      (f : Fault) (msgs : List Message) (inbox : List Entry) (j : ℕ) (m : Message)
      → get_elem? msgs j ≡ some m
      → (insert_batch itoa trim encode naming f msgs inbox).0 ≡ none
      → is_some (entry_of m.id (insert_batch itoa trim encode naming f msgs inbox).1) ≡ true
  unfolding insert_batch execute inserted
  inserted-there f msgs inbox j m g h = by_entries (entries itoa trim encode naming msgs) refl h
    where
      by_fault :
          (es : List Entry)
          → entries itoa trim encode naming msgs ≡ ok es
          → (f : Fault) → (execute f es inbox).0 ≡ none
          → is_some (entry_of m.id (execute f es inbox).1) ≡ true
      by_fault es e fine h = entries-there msgs es inbox j m e g
      by_fault es e (refused x) h = cc
      by_fault es e (cut x) h = cc

      by_entries :
          (r : Result (List Entry))
          → entries itoa trim encode naming msgs ≡ r
          → (inserted itoa trim encode naming f r inbox).0 ≡ none
          → is_some (entry_of m.id (inserted itoa trim encode naming f r inbox).1) ≡ true
      by_entries (err x) e h = cc
      by_entries (ok es) e h = by_fault es e f h

  -- What a publish with these results and this inbox owes to the message at `j`, if any.
  abbrev Owes : List Message → ℕ → List Entry → List (Option Err) × List Entry → Type 0
  Owes msgs j inbox (results, final) =
      (length results ≡ length msgs)
      × Extended inbox final
      × ((m : Message)
          → get_elem? msgs j ≡ some m
          → get_elem? results j ≡ some none
          → is_some (entry_of m.id final) ≡ true)

  replay-Owes :
      (faults : ℕ → Fault) (live : ℕ → Bool) (i : ℕ) (msgs : List Message) (inbox : List Entry)
      (j : ℕ)
      → Owes msgs j inbox (replay itoa trim encode naming faults live i msgs inbox)
  unfolding replay
  replay-Owes faults live i [] inbox j = (refl, Extended-refl inbox, λ m g h. cc)
  replay-Owes faults live i (x ∷ ms) inbox zero =
      let after = (insert_batch itoa trim encode naming (faults i) (x ∷ []) inbox).1 in
      let (size, grown, owed) = replay-Owes faults live (suc i) ms after zero in
      (
        ap suc size,
        Extended-trans inbox after _ (insert_batch-Extended (faults i) (x ∷ []) inbox) grown,
        λ m g h. there-Extended m.id after _ grown (
            inserted-there (faults i) (x ∷ []) inbox zero m g
              (classify-none (live i) _ (some_eq h))),
      )
  replay-Owes faults live i (x ∷ ms) inbox (suc j) =
      let after = (insert_batch itoa trim encode naming (faults i) (x ∷ []) inbox).1 in
      let (size, grown, owed) = replay-Owes faults live (suc i) ms after j in
      (
        ap suc size,
        Extended-trans inbox after _ (insert_batch-Extended (faults i) (x ∷ []) inbox) grown,
        owed,
      )

  batch-Owes :
      (batch : Fault) (batch_live : Bool) (faults : ℕ → Fault) (live : ℕ → Bool)
      (msgs : List Message) (inbox : List Entry) (j : ℕ) (q : Option Err × List Entry)
      → insert_batch itoa trim encode naming batch msgs inbox ≡ q
      → Owes msgs j inbox (after_batch itoa trim encode naming faults live batch_live msgs q)
  unfolding after_batch
  batch-Owes batch batch_live faults live msgs inbox j (none, after) e = (
    length-replicate (length msgs) none,
    rw (← ap (λ (p : Option Err × List Entry). p.1) e) (insert_batch-Extended batch msgs inbox),
    λ m g h.
        subst (λ (p : Option Err × List Entry). is_some (entry_of m.id p.1) ≡ true) e
          (inserted-there batch msgs inbox j m g (ap (λ (p : Option Err × List Entry). p.0) e)),
  )
  batch-Owes batch batch_live faults live msgs inbox j (some x, after) e =
      elim (Bool-cases
        (unavailable_or_none itoa trim encode naming (classify batch_live (some x)))) [
          | inl outage ↦ rw outage (
            length-replicate (length msgs) _,
            grown,
            λ m g h. absurd (answered (classify batch_live (some x)) (length msgs) j refl h),
          )
          | inr refusal ↦
              let (size, more, owed) = replay-Owes faults live 0 msgs after j in
              rw refusal (size, Extended-trans inbox after _ grown more, owed)
        ]
    where
      grown : Extended inbox after
      grown =
          subst (λ (p : Option Err × List Entry). Extended inbox p.1) e
            (insert_batch-Extended batch msgs inbox)

      answered :
          (o : Option Err) (n i : ℕ)
          → classify batch_live (some x) ≡ o
          → get_elem? (replicate n o) i ≡ some none
          → ⊥
      answered o zero i e h = cc
      answered o (suc n) zero e h = cc (classify-none batch_live (some x) (e ∙ some_eq h))
      answered o (suc n) (suc i) e h = answered o n i e h

  publish-Owes :
      (batch : Fault) (batch_live : Bool) (faults : ℕ → Fault) (live : ℕ → Bool)
      (msgs : List Message) (inbox : List Entry) (j : ℕ)
      → Owes msgs j inbox (publish itoa trim encode naming batch batch_live faults live msgs inbox)
  unfolding publish
  publish-Owes batch batch_live faults live [] inbox j = (refl, Extended-refl inbox, λ m g h. cc)
  publish-Owes batch batch_live faults live (x ∷ ms) inbox j =
      batch-Owes batch batch_live faults live (x ∷ ms) inbox j
        (insert_batch itoa trim encode naming batch (x ∷ ms) inbox) refl

  -- Whatever the statements' faults, a publish has a result for each message, and leaves every entry
  -- of the inbox as it was; and each message has an error for its result or is in the inbox under its
  -- identifier.
  pub publish-Extended :
      (batch : Fault) (batch_live : Bool) (faults : ℕ → Fault) (live : ℕ → Bool)
      (msgs : List Message) (inbox : List Entry) (j : ℕ)
      → let (results, final) =
          publish itoa trim encode naming batch batch_live faults live msgs inbox in
        (length results ≡ length msgs)
        × Extended inbox final
        × ((get_elem? msgs j ≡ none)
            ⊎ ((e : Err) × (get_elem? results j ≡ some (some e)))
            ⊎ ((m : Message) × (get_elem? msgs j ≡ some m)
                × (is_some (entry_of m.id final) ≡ true)))
  publish-Extended batch batch_live faults live msgs inbox j =
      by_owed (publish itoa trim encode naming batch batch_live faults live msgs inbox)
        (get_elem? msgs j) refl (publish-Owes batch batch_live faults live msgs inbox j)
    where
      by_result :
          (m : Message) (results : List (Option Err)) (final : List Entry)
          → length results ≡ length msgs
          → get_elem? msgs j ≡ some m
          → (get_elem? results j ≡ some none → is_some (entry_of m.id final) ≡ true)
          → (o : Option (Option Err)) → get_elem? results j ≡ o
          → ((e : Err) × (get_elem? results j ≡ some (some e)))
            ⊎ ((n : Message) × (get_elem? msgs j ≡ some n) × (is_some (entry_of n.id final) ≡ true))
      by_result m results final size g owed none h = absurd (both_end results msgs j size h g)
      by_result m results final size g owed (some none) h = inr (m, g, owed h)
      by_result m results final size g owed (some (some e)) h = inl (e, h)

      by_owed :
          (q : List (Option Err) × List Entry) (o : Option Message)
          → get_elem? msgs j ≡ o
          → Owes msgs j inbox q
          → (length q.0 ≡ length msgs)
            × Extended inbox q.1
            × ((get_elem? msgs j ≡ none)
                ⊎ ((e : Err) × (get_elem? q.0 j ≡ some (some e)))
                ⊎ ((m : Message) × (get_elem? msgs j ≡ some m)
                    × (is_some (entry_of m.id q.1) ≡ true)))
      by_owed (results, final) none g (size, grown, owed) = (size, grown, inl g)
      by_owed (results, final) (some m) g (size, grown, owed) = (
        size,
        grown,
        inr (by_result m results final size g (owed m g) (get_elem? results j) refl),
      )
